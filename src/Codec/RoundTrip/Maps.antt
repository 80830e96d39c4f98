-- ===== src/Codec/RoundTrip/Maps.antt =====
-- Maps of canonical CBOR are read back, entry by entry, in the order of their encoded keys.
use mathlib.Core.List.{append_assoc}
use capsule_tech.Common.{
  ℕ, suc, ◌+◌, ◌≤◌, ◌≡◌, refl, sym, ap, ◌∙◌, inl, inr, true, false, Option, none, some, List, [],
  ◌∷◌, ◌++◌, length, length-append, drop, Bool-cases, ok, ok_value, >>=-eq-ok, arith,
}
use capsule_tech.Common.Bytes.{Bytes}
use capsule_tech.Codec.Value.{Value, Entries, bytes, text, dict, empty, str, put_entry}
use capsule_tech.Codec.Order.{bytes_lt, insert, sort, sort-Sorted, Sorted, From, Both, sort-Both}
use capsule_tech.Codec.Encode.{
  Item, item_key, join_items, encode_items, encode_uint, encode_key, encode_text, canonical_encode,
}
use capsule_tech.Codec.Decode.{
  key_of, out_of_order, decode_pairs, decode_map, decode_body, decode_value, valid_utf8,
}
use capsule_tech.Codec.Heads.{encode_uint-Head, drop-append_at}
use capsule_tech.Codec.Decoded.{Reads, opening, Pair, pair_key, put_all, KeyReadable}
use capsule_tech.Codec.RoundTrip.Leaves.{Reads-step, Head-length, text-Reads, bytes-Reads}

length-insert {ℓ} :
    {A : Type ℓ} (key : A → Bytes) (x : A) (xs : List A)
    → length (insert key x xs) ≡ suc (length xs)
unfolding insert
length-insert key x [] = refl
length-insert key x (y ∷ ys) = elim (Bool-cases (bytes_lt (key y) (key x))) [
  | inl below ↦ rw below (ap suc (length-insert key x ys))
  | inr above ↦ rw above refl
]

length-sort {ℓ} : {A : Type ℓ} (key : A → Bytes) (xs : List A) → length (sort key xs) ≡ length xs
unfolding sort
length-sort key [] = refl
length-sort key (x ∷ xs) = length-insert key x (sort key xs) ∙ ap suc (length-sort key xs)

module _ (shown : Value → Bytes) where
  -- The decoder makes the pair of the item's bytes, and encodes its key again to the same bytes.
  pub record Fits (item : Item) (p : Pair) : Type 0 where
    pub same_key : item.encoded_key ≡ p.encoded_key
    pub key_read : Reads shown item.encoded_key p.key
    pub key_again : canonical_encode shown true p.key ≡ ok item.encoded_key
    pub key_kept : key_of shown p.key ≡ p.key
    pub value_read : (b : Bytes) → item.encoded_value ≡ ok b → Reads shown b p.value

  abbrev After : Option Bytes → List Item → Type 0
  After none items = Unit
  After (some k) items = From item_key k items

  in_order :
      (last : Option Bytes) (item : Item) (items : List Item)
      → After last (item ∷ items)
      → out_of_order last item.encoded_key ≡ false
  unfolding out_of_order
  in_order none item items a = refl
  in_order (some k) item items a = a

  pairs-read :
      (items : List Item) (ps : List Pair) {b : Bytes}
      → Both Fits items ps
      → Sorted item_key items
      → join_items items ≡ ok b
      → (es : Entries) (last : Option Bytes) → After last items
      → (rounds : ℕ) (view : Bytes) (pos : ℕ) (rest : Bytes) → length b ≤ rounds
      → drop pos view ≡ b ++ rest
      → decode_pairs shown (decode_value shown rounds view) (length items) pos es last
        ≡ ok (put_all es ps, pos + length b)
  unfolding join_items decode_pairs put_all
  pairs-read [] [] {b} fits sorted e es last after rounds view pos rest enough at =
      ap (λ (k : ℕ). ok (es, k)) (omega (arith, ap length (ok_value _ b e)))
  pairs-read [] (p ∷ ps) fits sorted e es last after rounds view pos rest enough at = absurd fits
  pairs-read (item ∷ items) [] fits sorted e es last after rounds view pos rest enough at =
      absurd fits
  pairs-read (item ∷ items) (p ∷ ps) {b} fits sorted e es last after rounds view pos rest enough
        at =
      let k = item.encoded_key in
      let (v, got, e1) = >>=-eq-ok item.encoded_value _ e in
      let (tail, joined, e2) = >>=-eq-ok (join_items items) _ e1 in
      let same : k ++ v ++ tail ≡ b = ok_value _ b e2 in
      let whole : drop pos view ≡ k ++ (v ++ (tail ++ rest)) =
        at
        ∙ ap (λ x. x ++ rest) (sym same)
        ∙ append_assoc (k ++ v) tail rest
        ∙ append_assoc k v (tail ++ rest) in
      let sizes : length b ≡ length k + length v + length tail =
        omega (arith, ap length same, length-append (k ++ v) tail, length-append k v) in
      let after_key = drop-append_at view pos k (v ++ (tail ++ rest)) whole in
      let after_value = drop-append_at view (pos + length k) v (tail ++ rest) after_key in
      let there : pos + length k + length v + length tail ≡ pos + length b = omega (arith, sizes) in
      rw
        (
          fits.0.key_read rounds view pos (v ++ (tail ++ rest)) (omega (arith, sizes)) whole,
          fits.0.key_again,
          in_order last item items after,
          fits.0.value_read v got rounds view (pos + length k) (tail ++ rest) (omega (arith, sizes))
              after_key,
          fits.0.key_kept,
          pairs-read items ps fits.1 sorted.1 joined _ (some k) sorted.0 rounds view
              (pos + length k + length v) rest (omega (arith, sizes)) after_value,
        )
        (ap (λ (n : ℕ). ok (put_all (put_entry es p.key p.value) ps, n)) there)

  pub dict-Reads :
      (items : List Item) (ps : List Pair) {b : Bytes}
      → Both Fits items ps
      → encode_items items ≡ ok b
      → Reads shown b (dict (put_all empty (sort pair_key ps)))
  unfolding encode_items decode_body decode_map
  dict-Reads items ps {b} fits e =
      let (head, made, e1) = >>=-eq-ok (encode_uint 5 (length items)) _ e in
      let (body, joined, e2) = >>=-eq-ok (join_items (sort item_key items)) _ e1 in
      let same : head ++ body ≡ b = ok_value _ b e2 in
      let h = encode_uint-Head 5 (length items) made in
      let made_of = put_all empty (sort pair_key ps) in
      rw (← same) (
        Reads-step shown (head ++ body) (dict made_of)
          (omega (arith, length-append head body, Head-length shown 5 (length items) h))
          λ rounds view pos rest enough at.
            let o =
              opening shown 5 (length items) h view pos (body ++ rest)
                (at ∙ append_assoc head body rest) in
            let room : length body ≤ rounds =
              omega (arith, length-append head body, Head-length shown 5 (length items) h) in
            let reads =
              pairs-read (sort item_key items) (sort pair_key ps)
                (sort-Both item_key pair_key Fits (λ x y f. f.same_key) items ps fits)
                (sort-Sorted item_key items) joined empty none tt rounds view (pos + length head)
                rest room o.after in
            o.entered rounds
            ∙ (rw (o.header, ← length-sort item_key items, reads)
                (ap (λ (k : ℕ). ok (dict made_of, k)) (omega (arith, length-append head body)))))

  -- A text or byte string that is a key
  abbrev pub KeyFits : Value → Bytes → Type 0
  KeyFits k b = Reads shown b k × (canonical_encode shown true k ≡ ok b) × (key_of shown k ≡ k)

  text_key :
      (s : Bytes) {b : Bytes} → valid_utf8 s ≡ true → encode_text s ≡ ok b → KeyFits (text s) b
  unfolding canonical_encode key_of
  text_key s valid e = (text-Reads shown s valid e, e, refl)

  pub key_fits :
      (k : Value) {b : Bytes}
      → KeyReadable shown k
      → encode_key shown k ≡ ok b
      → KeyFits (key_of shown k) b
  unfolding encode_key key_of canonical_encode
  key_fits (text s) r e = text_key s r e
  key_fits (bytes s) r e = (bytes-Reads shown s e, e, refl)
  key_fits k r e = text_key (str shown k) r e
