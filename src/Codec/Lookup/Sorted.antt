-- ===== src/Codec/Lookup/Sorted.antt =====
-- The stable sort by encoded keys keeps the last value of each key.
use capsule_tech.Common.{
  ◌≡◌, refl, sym, ap, ◌∙◌, inl, inr, Bool, true, false, Option, none, some, List, [], ◌∷◌,
  if◌then◌else◌, Bool-cases, value_or_default,
}
use capsule_tech.Common.Bytes.{Bytes}
use capsule_tech.Codec.Value.{Value, key_eq}
use capsule_tech.Codec.Order.{bytes_lt, bytes_lt_asym, insert, sort}
use capsule_tech.Codec.Encode.{encode_key}
use capsule_tech.Codec.Decoded.{Pair, pair_key}
use capsule_tech.Codec.Lookup.{key_eq→eq, or_else, match_key, find_last}

-- Every pair has the encoding of its own key.
abbrev pub Encodes : (Value → Bytes) → List Pair → Type 0
Encodes shown [] = Unit
Encodes shown (p ∷ ps) =
    (p.encoded_key ≡ value_or_default [] (encode_key shown p.key)) × Encodes shown ps

or_else-swap :
    (o : Option Value) (a b : Bool) (x y : Value)
    → (a ≡ true → b ≡ true → ⊥)
    → or_else (or_else o (if a then some x else none)) (if b then some y else none)
      ≡ or_else (or_else o (if b then some y else none)) (if a then some x else none)
or_else-swap (some w) a b x y h = refl
or_else-swap none true true x y h = absurd (h refl refl)
or_else-swap none true false x y h = refl
or_else-swap none false true x y h = refl
or_else-swap none false false x y h = refl

lt-ne : (a b : Bytes) → bytes_lt a b ≡ true → a ≡ b → ⊥
lt-ne a b h e = cc (bytes_lt_asym a b h, ap (λ x. bytes_lt x b) e, ap (λ x. bytes_lt b x) e, h)

module _ (shown : Value → Bytes) where
  one_encoding :
      (p q : Pair) (k : Value)
      → p.encoded_key ≡ value_or_default [] (encode_key shown p.key)
      → q.encoded_key ≡ value_or_default [] (encode_key shown q.key)
      → key_eq p.key k ≡ true
      → key_eq q.key k ≡ true
      → p.encoded_key ≡ q.encoded_key
  one_encoding p q k ep eq hp hq =
      ep
      ∙ ap (λ x. value_or_default [] (encode_key shown x))
          (key_eq→eq p.key k hp ∙ sym (key_eq→eq q.key k hq))
      ∙ sym eq

  find_last-insert :
      (p : Pair) (ps : List Pair) (k : Value)
      → p.encoded_key ≡ value_or_default [] (encode_key shown p.key)
      → Encodes shown ps
      → find_last (insert pair_key p ps) k ≡ find_last (p ∷ ps) k
  unfolding insert
  find_last-insert p [] k ep h = refl
  find_last-insert p (q ∷ qs) k ep h = elim (Bool-cases (bytes_lt q.encoded_key p.encoded_key)) [
    | inl below ↦ rw below (
        ap (λ o. or_else o (match_key q k)) (find_last-insert p qs k ep h.1)
        ∙ or_else-swap (find_last qs k) (key_eq p.key k) (key_eq q.key k) p.value q.value
            (λ hp hq. lt-ne _ _ below (one_encoding q p k h.0 ep hq hp)))
    | inr above ↦ rw above refl
  ]

  insert-Encodes :
      (p : Pair) (ps : List Pair)
      → p.encoded_key ≡ value_or_default [] (encode_key shown p.key)
      → Encodes shown ps
      → Encodes shown (insert pair_key p ps)
  unfolding insert
  insert-Encodes p [] ep h = (ep, tt)
  insert-Encodes p (q ∷ qs) ep h = elim (Bool-cases (bytes_lt q.encoded_key p.encoded_key)) [
    | inl below ↦ rw below (h.0, insert-Encodes p qs ep h.1)
    | inr above ↦ rw above (ep, h)
  ]

  sort-Encodes : (ps : List Pair) → Encodes shown ps → Encodes shown (sort pair_key ps)
  unfolding sort
  sort-Encodes [] h = tt
  sort-Encodes (p ∷ ps) h = insert-Encodes p (sort pair_key ps) h.0 (sort-Encodes ps h.1)

  pub find_last-sort :
      (ps : List Pair) (k : Value)
      → Encodes shown ps
      → find_last (sort pair_key ps) k ≡ find_last ps k
  unfolding sort
  find_last-sort [] k h = refl
  find_last-sort (p ∷ ps) k h =
      find_last-insert p (sort pair_key ps) k h.0 (sort-Encodes ps h.1)
      ∙ ap (λ o. or_else o (match_key p k)) (find_last-sort ps k h.1)
