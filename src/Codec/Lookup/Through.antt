-- ===== src/Codec/Lookup/Through.antt =====
-- Dictionaries through bef_zk/codec/canonical_cbor.py: what a lookup finds after encoding and decoding.
use mathlib.Core.Option
use mathlib.Core.Option.{some-injective}
use capsule_tech.Common.{
  ◌≡◌, refl, ap, ◌∙◌, ◌⊎◌, inl, inr, Bool, true, false, Option, none, some, if◌then◌else◌,
  Bool-cases, ok,
}
use capsule_tech.Common.Bytes.{Bytes}
use capsule_tech.Codec.Value.{
  Value, Entries, text, dict, empty, entry, key_eq, put_entry, get_entry, str, sanitize,
  sanitize_entries,
}
use capsule_tech.Codec.Encode.{canonical_encode}
use capsule_tech.Codec.Order.{sort}
use capsule_tech.Codec.Decode.{canonical_decode}
use capsule_tech.Codec.Decoded.{Readable, decoded, put_all, pair_key, decoded_entries}
use capsule_tech.Codec.RoundTrip.{canonical_decode-canonical_encode}
use capsule_tech.Codec.Lookup.{key_eq→eq, get_entry-put_entry}
use capsule_tech.Codec.Lookup.Kept.{sanitize_entries-Distinct, get_entry-decoded, Distinct}

-- A Python dictionary whose keys are texts: each key stands once.
unfoldable pub TextKeys : Entries → Type 0
TextKeys empty = Unit
TextKeys (entry k v es) = ((b : Bytes) × (k ≡ text b)) × (get_entry es k ≡ none) × TextKeys es

module _ (shown : Value → Bytes) where
  or_made : (o : Option Value) → Option Value → Option Value
  or_made none made = made
  or_made (some v) made = some (sanitize shown v)

  -- `_sanitize` keeps the keys that are texts, with their sanitized values.
  get_entry-sanitize_entries :
      (es made : Entries) (k : Value)
      → TextKeys es
      → get_entry (sanitize_entries shown made es) k ≡ or_made (get_entry es k) (get_entry made k)
  unfolding sanitize get_entry TextKeys or_made str
  get_entry-sanitize_entries empty made k keys = refl
  get_entry-sanitize_entries (entry j v es) made k ((b, is_text), once, keys) =
      let kept : text (str shown j) ≡ j = rw is_text refl in
      get_entry-sanitize_entries es (put_entry made (text (str shown j)) (sanitize shown v)) k keys
      ∙ rw (get_entry-put_entry made (text (str shown j)) (sanitize shown v) k, kept)
          (by_key (Bool-cases (key_eq j k)))
    where
      by_key :
          (key_eq j k ≡ true) ⊎ (key_eq j k ≡ false)
          → or_made
              (get_entry es k)
              (if key_eq j k then some (sanitize shown v) else get_entry made k)
            ≡ or_made (if key_eq j k then some v else get_entry es k) (get_entry made k)
      by_key (inl same) =
          let gone : get_entry es k ≡ none = rw (← key_eq→eq j k same) once in rw (same, gone) refl
      by_key (inr other) = rw other refl

  or_made-none :
      (compact : Bool) (o : Option Value)
      → Option.map (decoded shown compact) (or_made o none)
        ≡ Option.map (λ v. decoded shown compact (sanitize shown v)) o
  unfolding or_made
  or_made-none compact none = refl
  or_made-none compact (some v) = refl

-- A dictionary with text keys, each once, all of whose texts are UTF-8 and floats have 64 bits: where
-- the encoder makes bytes of it, in either encoding, the decoder makes a dictionary of these that has,
-- under every key, the decoded form of the sanitized value there, and no other keys.
pub get_entry-canonical_decode :
    (shown : Value → Bytes) (compact : Bool) (es : Entries) {b : Bytes}
    → TextKeys es
    → Readable shown (sanitize shown (dict es))
    → canonical_encode shown compact (dict es) ≡ ok b
    → (out : Entries) × (canonical_decode shown b ≡ ok (dict out))
      × ((k : Value)
          → get_entry out k
            ≡ Option.map (λ v. decoded shown compact (sanitize shown v)) (get_entry es k))
unfolding decoded sanitize get_entry
get_entry-canonical_decode shown compact es keys readable encoded =
    let kept = sanitize_entries shown empty es in
    (
      put_all empty (sort pair_key (decoded_entries shown compact kept)),
      canonical_decode-canonical_encode shown compact (dict es) readable encoded,
      λ k.
          get_entry-decoded shown compact kept k
            (sanitize_entries-Distinct shown es empty (unfold Distinct in tt))
          ∙ ap (Option.map (decoded shown compact))
              (get_entry-sanitize_entries shown es empty k keys)
          ∙ or_made-none shown compact (get_entry es k),
    )
