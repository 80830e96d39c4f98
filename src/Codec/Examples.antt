-- ===== src/Codec/Examples.antt =====
-- Canonical CBOR at concrete values.
use capsule_tech.Common.{◌*◌, ◌^◌, ◌≡◌, ◌≢◌, refl, true, [], ◌∷◌, ok, err, fuel}
use mathlib.Core.Option
use capsule_tech.Common.Bytes.{Bytes}
use capsule_tech.Codec.Value.{
  Value, Entries, null, nat, field, text, bytes, array, tuple, dict, nil, cons, empty, entry,
  sanitize, get_entry,
}
use capsule_tech.Codec.Encode.{canonical_encode}
use capsule_tech.Codec.Decode.{canonical_decode, widen, valid_utf8}
use capsule_tech.Codec.Decoded.{Readable, decoded}
use capsule_tech.Codec.RoundTrip.{canonical_decode-canonical_encode}
use capsule_tech.Codec.Ends.Decoder.{canonical_decode-ne-fuel}
use capsule_tech.Codec.Lookup.Through.{TextKeys, get_entry-canonical_decode}

-- No value of these examples needs `str`.
abbrev shown : Value → Bytes
shown v = []

-- `{"b": (300, None), "a": FieldElement(5)}`
abbrev sample : Value
sample = dict (
    entry (text (98 ∷ [])) (tuple (cons (nat 300) (cons null nil)))
      (entry (text (97 ∷ [])) (field 5 64) empty))

abbrev sample_bytes : Bytes
sample_bytes =
    162 ∷ 97 ∷ 97 ∷ 72 ∷ 5 ∷ 0 ∷ 0 ∷ 0 ∷ 0 ∷ 0 ∷ 0 ∷ 0 ∷ 97 ∷ 98 ∷ 130 ∷ 25 ∷ 1 ∷ 44 ∷ 246 ∷ []

sample_encoded : canonical_encode shown true sample ≡ ok sample_bytes
unfolding canonical_encode
sample_encoded = refl

sample-Readable : Readable shown (sanitize shown sample)
unfolding Readable sanitize valid_utf8
sample-Readable = (refl, (tt, (tt, tt)), (refl, tt, tt))

canonical_decode-canonical_encode_example :
    canonical_decode shown sample_bytes ≡ ok (decoded shown true (sanitize shown sample))
canonical_decode-canonical_encode_example =
    canonical_decode-canonical_encode shown true sample sample-Readable sample_encoded

-- The other way: what the bytes show.
sample_decoded :
    canonical_decode shown sample_bytes
    ≡ ok (
        dict (
          entry
            (text (97 ∷ []))
            (bytes (5 ∷ 0 ∷ 0 ∷ 0 ∷ 0 ∷ 0 ∷ 0 ∷ 0 ∷ []))
            (entry (text (98 ∷ [])) (array (cons (nat 300) (cons null nil))) empty)))
unfolding canonical_decode canonical_encode
sample_decoded = refl

-- The single 1.0 is the double 1.0, and the least single is 2^-149.
one_widened : widen (127 * 2 ^ 23) ≡ 1023 * 2 ^ 52
unfolding widen
one_widened = refl

least_widened : widen 1 ≡ 874 * 2 ^ 52
unfolding widen
least_widened = refl

-- A head that announces more than there is
canonical_decode-ne-fuel_example : canonical_decode shown (155 ∷ 255 ∷ 255 ∷ 129 ∷ []) ≢ err fuel
canonical_decode-ne-fuel_example = canonical_decode-ne-fuel shown (155 ∷ 255 ∷ 255 ∷ 129 ∷ [])

abbrev two_keys : Entries
two_keys = entry (text (98 ∷ [])) (nat 300) (entry (text (97 ∷ [])) null empty)

two_keys-TextKeys : TextKeys two_keys
unfolding TextKeys get_entry
two_keys-TextKeys = (((98 ∷ []), refl), refl, (((97 ∷ []), refl), refl, tt))

two_keys-Readable : Readable shown (sanitize shown (dict two_keys))
unfolding Readable sanitize valid_utf8
two_keys-Readable = (refl, tt, (refl, tt, tt))

two_keys_encoded :
    canonical_encode shown true (dict two_keys)
    ≡ ok (162 ∷ 97 ∷ 97 ∷ 246 ∷ 97 ∷ 98 ∷ 25 ∷ 1 ∷ 44 ∷ [])
unfolding canonical_encode
two_keys_encoded = refl

get_entry-canonical_decode_example :
    (out : Entries) × (canonical_decode shown (162 ∷ 97 ∷ 97 ∷ 246 ∷ 97 ∷ 98 ∷ 25 ∷ 1 ∷ 44 ∷ [])
      ≡ ok (dict out))
    × ((k : Value)
        → get_entry out k
          ≡ Option.map (λ v. decoded shown true (sanitize shown v)) (get_entry two_keys k))
get_entry-canonical_decode_example =
    get_entry-canonical_decode shown true two_keys two_keys-TextKeys two_keys-Readable
      two_keys_encoded
