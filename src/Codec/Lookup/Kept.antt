-- ===== src/Codec/Lookup/Kept.antt =====
-- Dictionaries of canonical CBOR: a lookup in the decoded dictionary is one in the encoded.
use mathlib.Core.Option
use capsule_tech.Common.{
  ◌≡◌, refl, sym, ap, ◌∙◌, inl, inr, Bool, true, false, Option, none, some, [], if◌then◌else◌,
  Bool-cases, value_or_default,
}
use capsule_tech.Common.Bytes.{Bytes}
use capsule_tech.Codec.Value.{
  Value, Entries, text, empty, entry, is_key, key_eq, put_entry, get_entry, str, sanitize,
  sanitize_entries,
}
use capsule_tech.Codec.Order.{sort}
use capsule_tech.Codec.Encode.{encode_key}
use capsule_tech.Codec.Decode.{key_of}
use capsule_tech.Codec.Decoded.{pair_key, put_all, decoded, decoded_entries}
use capsule_tech.Codec.Lookup.{
  key_eq→eq, key_eq_flip, get_entry-put_entry, or_else, find_last, get_entry-put_all_empty,
}
use capsule_tech.Codec.Lookup.Sorted.{Encodes, find_last-sort}

-- As in any Python dictionary of texts and bytes: each key stands once.
unfoldable pub Distinct : Entries → Type 0
Distinct empty = Unit
Distinct (entry k v es) = (is_key k ≡ true) × (get_entry es k ≡ none) × Distinct es

put_entry-Distinct :
    (es : Entries) (k v : Value) → is_key k ≡ true → Distinct es → Distinct (put_entry es k v)
unfolding put_entry Distinct
put_entry-Distinct empty k v key d = (key, (unfold get_entry in refl), tt)
put_entry-Distinct (entry j w es) k v key d = elim (Bool-cases (key_eq j k)) [
  | inl same ↦ rw same d
  | inr other ↦ rw other (
    d.0,
    get_entry-put_entry es k v j ∙ (rw (key_eq_flip j k other) d.1),
    put_entry-Distinct es k v key d.2,
  )
]

-- `_sanitize` makes a dictionary whose keys are texts, each once.
pub sanitize_entries-Distinct :
    (shown : Value → Bytes) (es made : Entries)
    → Distinct made
    → Distinct (sanitize_entries shown made es)
unfolding sanitize
sanitize_entries-Distinct shown empty made d = d
sanitize_entries-Distinct shown (entry k v es) made d =
    sanitize_entries-Distinct shown es _
      (put_entry-Distinct made (text (str shown k)) (sanitize shown v) (unfold is_key in refl) d)

module _ (shown : Value → Bytes) (compact : Bool) where
  key_of_key : (k : Value) → is_key k ≡ true → key_of shown k ≡ k
  unfolding key_of
  key_of_key k h = rw h refl

  decoded_entries-Encodes :
      (es : Entries) → Distinct es → Encodes shown (decoded_entries shown compact es)
  unfolding decoded Distinct
  decoded_entries-Encodes empty d = tt
  decoded_entries-Encodes (entry k v es) d = (
    ap (λ x. value_or_default [] (encode_key shown x)) (sym (key_of_key k d.0)),
    decoded_entries-Encodes es d.2,
  )

  or_else-head :
      (o : Option Value) (b : Bool) (v : Value)
      → (b ≡ true → o ≡ none)
      → or_else
          (Option.map (decoded shown compact) o)
          (if b then some (decoded shown compact v) else none)
        ≡ Option.map (decoded shown compact) (if b then some v else o)
  or_else-head none true v h = refl
  or_else-head none false v h = refl
  or_else-head (some w) true v h = absurd (cc (h refl))
  or_else-head (some w) false v h = refl

  find_last-decoded_entries :
      (es : Entries) (k : Value)
      → Distinct es
      → find_last (decoded_entries shown compact es) k
        ≡ Option.map (decoded shown compact) (get_entry es k)
  unfolding decoded get_entry Distinct
  find_last-decoded_entries empty k d = refl
  find_last-decoded_entries (entry j v es) k d = rw (key_of_key j d.0) (
      ap (λ o. or_else o (if key_eq j k then some (decoded shown compact v) else none))
        (find_last-decoded_entries es k d.2)
      ∙ or_else-head (get_entry es k) (key_eq j k) v
          (λ h. ap (get_entry es) (sym (key_eq→eq j k h)) ∙ d.1))

  -- What a dictionary is decoded to shows under each key the decoded value that the dictionary has
  -- there, and nothing where it has nothing.
  pub get_entry-decoded :
      (es : Entries) (k : Value)
      → Distinct es
      → get_entry (put_all empty (sort pair_key (decoded_entries shown compact es))) k
        ≡ Option.map (decoded shown compact) (get_entry es k)
  get_entry-decoded es k d =
      get_entry-put_all_empty (sort pair_key (decoded_entries shown compact es)) k
      ∙ find_last-sort shown (decoded_entries shown compact es) k (decoded_entries-Encodes es d)
      ∙ find_last-decoded_entries es k d
