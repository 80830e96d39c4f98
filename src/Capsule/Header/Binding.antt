-- ===== src/Capsule/Header/Binding.antt =====
-- Hashes of canonical encodings bind what is encoded.
use mathlib.Core.Option
use capsule_tech.Common.{
  ◌≡◌, refl, sym, ap, ◌∙◌, ◌⊎◌, inl, inr, true, ◌++◌, ok, ok_value, >>=-eq-ok,
}
use Prim.Native.String.{String}
use capsule_tech.Common.Bytes.{Bytes, Sha, Collision, sha256_injective, append_cancel}
use capsule_tech.Common.Texts.{codes, hex, hex_injective}
use capsule_tech.Codec.Value.{Value, Entries, dict, empty, get_entry, sanitize, sanitize_entries}
use capsule_tech.Codec.Encode.{canonical_encode}
use capsule_tech.Codec.Decode.{canonical_decode}
use capsule_tech.Codec.Decoded.{decoded, Readable}
use capsule_tech.Codec.RoundTrip.{canonical_decode-canonical_encode}
use capsule_tech.Codec.Lookup.Kept.{Distinct, sanitize_entries-Distinct, get_entry-decoded}
use capsule_tech.Capsule.Header.{canonical_hash, compute_header_hash}

-- The dictionary in a value
abbrev entries_of : Value → Entries
entries_of (dict es) = es
entries_of v = empty

module _ (h : Sha) (shown : Value → Bytes) where
  -- What bytes hash to a digest under a prefix, if not a collision
  one_encoding :
      (prefix : String) (a b : Bytes)
      → hex (h.sha256 (codes prefix ++ a)) ≡ hex (h.sha256 (codes prefix ++ b))
      → (a ≡ b) ⊎ Collision h
  one_encoding prefix a b e =
      let digests =
        hex_injective (h.sha256 (codes prefix ++ a)) (h.sha256 (codes prefix ++ b))
          (h.sha256-IsByte _) (h.sha256-IsByte _) e in
      elim (sha256_injective h (codes prefix ++ a) (codes prefix ++ b) digests) [
        | inl same ↦ inl (append_cancel (codes prefix) (codes prefix) a b refl same).1
        | inr collision ↦ inr collision
      ]

  -- Two payloads with the same hash under one prefix are decoded to the same value, or two inputs
  -- are at hand on which the hash function collides.
  pub canonical_hash-binding :
      (prefix : String) (v w : Value) {t : Bytes}
      → Readable shown (sanitize shown v)
      → Readable shown (sanitize shown w)
      → canonical_hash h shown prefix v ≡ ok t
      → canonical_hash h shown prefix w ≡ ok t
      → (decoded shown true (sanitize shown v) ≡ decoded shown true (sanitize shown w))
        ⊎ Collision h
  unfolding canonical_hash
  canonical_hash-binding prefix v w {t} rv rw_ ev ew =
      let (a, ma, ha) = >>=-eq-ok (canonical_encode shown true v) _ ev in
      let (b, mb, hb) = >>=-eq-ok (canonical_encode shown true w) _ ew in
      elim (one_encoding prefix a b (ok_value _ t ha ∙ sym (ok_value _ t hb))) [
        | inl same ↦ inl (
            ok_value _ _ (
              sym (canonical_decode-canonical_encode shown true v rv ma)
              ∙ ap (canonical_decode shown) same
              ∙ canonical_decode-canonical_encode shown true w rw_ mb))
        | inr collision ↦ inr collision
      ]

  -- Two dictionaries with the same hash agree, as decoded, at every key.
  pub dictionary_hash-binding :
      (prefix : String) (d e : Entries) {t : Bytes}
      → Readable shown (sanitize shown (dict d))
      → Readable shown (sanitize shown (dict e))
      → canonical_hash h shown prefix (dict d) ≡ ok t
      → canonical_hash h shown prefix (dict e) ≡ ok t
      → ((k : Value)
          → Option.map (decoded shown true) (get_entry (sanitize_entries shown empty d) k)
            ≡ Option.map (decoded shown true) (get_entry (sanitize_entries shown empty e) k))
        ⊎ Collision h
  unfolding sanitize decoded
  dictionary_hash-binding prefix d e rd re hd he =
      elim (canonical_hash-binding prefix (dict d) (dict e) rd re hd he) [
        | inl same ↦ inl λ k.
            sym (
              get_entry-decoded shown true (sanitize_entries shown empty d) k
                (sanitize_entries-Distinct shown d empty (unfold Distinct in tt)))
            ∙ ap (λ v. get_entry (entries_of v) k) same
            ∙ get_entry-decoded shown true (sanitize_entries shown empty e) k
                (sanitize_entries-Distinct shown e empty (unfold Distinct in tt))
        | inr collision ↦ inr collision
      ]

-- Two headers with the same hash, whose texts are UTF-8, agree at every key in what is decoded of
-- them, or two inputs are at hand on which the hash function collides.
pub compute_header_hash-binding :
    (h : Sha) (shown : Value → Bytes) (d e : Entries) {t : Bytes}
    → Readable shown (sanitize shown (dict d))
    → Readable shown (sanitize shown (dict e))
    → compute_header_hash h shown d ≡ ok t
    → compute_header_hash h shown e ≡ ok t
    → ((k : Value)
        → Option.map (decoded shown true) (get_entry (sanitize_entries shown empty d) k)
          ≡ Option.map (decoded shown true) (get_entry (sanitize_entries shown empty e) k))
      ⊎ Collision h
unfolding compute_header_hash
compute_header_hash-binding h shown d e rd re hd he =
    dictionary_hash-binding h shown "CAPSULE_HEADER_V2::" d e rd re hd he
