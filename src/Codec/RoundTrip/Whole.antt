-- ===== src/Codec/RoundTrip/Whole.antt =====
-- Every value that canonical CBOR encodes is read back, in its decoded form.
use mathlib.Core.List.{append-nil}
use capsule_tech.Common.{
  ℕ, suc, ◌+◌, ◌/◌, ◌^◌, max, ◌≤◌, ◌≡◌, refl, sym, ap, inl, inr, Bool, true, false, List, [], ◌++◌,
  length, drop, ltb, ◌==◌, ==_iff, Bool-cases, if◌then◌else◌, ok, ok_value, value_or_default,
  >>=-eq-ok, arith,
}
use capsule_tech.Common.Bytes.{Bytes}
use capsule_tech.Codec.Value.{
  Value, Values, Entries, null, boolean, field, nat, neg, bytes, text, path, float, array, tuple,
  dict, nil, cons, empty, entry, count, sanitize,
}
use capsule_tech.Codec.Order.{Both}
use capsule_tech.Codec.Encode.{
  Item, encode_uint, encode_field, encode_key, encode_value, encode_values, encode_entries,
  canonical_encode, field_bytes,
}
use capsule_tech.Codec.Decode.{decode_value, canonical_decode}
use capsule_tech.Codec.Decoded.{
  Reads, decoded, decoded_values, decoded_entries, Readable, AllReadable, EntriesReadable,
}
use capsule_tech.Codec.RoundTrip.Leaves.{
  nat-Reads, neg-Reads, bytes-Reads, text-Reads, null-Reads, true-Reads, false-Reads, float-Reads,
}
use capsule_tech.Codec.RoundTrip.Arrays.{ReadsAll, nil-ReadsAll, cons-ReadsAll, array-Reads}
use capsule_tech.Codec.RoundTrip.Maps.{Fits, dict-Reads, key_fits}

module _ (shown : Value → Bytes) (compact : Bool) where
  count-decoded : (vs : Values) → count vs ≡ count (decoded_values shown compact vs)
  unfolding decoded
  count-decoded nil = refl
  count-decoded (cons v vs) = ap suc (count-decoded vs)

  field-Reads :
      (v bits : ℕ) {b : Bytes}
      → encode_field compact v bits ≡ ok b
      → Reads shown b (if compact then bytes (field_bytes v bits) else nat v)
  unfolding encode_field
  field-Reads v bits {b} e = elim (Bool-cases compact) [
    | inl default ↦ elim (Bool-cases (ltb v (256 ^ max 1 ((bits + 7) / 8)))) [
      | inl fits ↦ rw default (bytes-Reads shown (field_bytes v bits) (rw (default, fits) at e))
      | inr over ↦ absurd (cc (rw (default, over) at e))
    ]
    | inr legacy ↦ rw legacy (nat-Reads shown v (rw legacy at e))
  ]

  encode_values-Reads :
      (vs : Values) {b : Bytes}
      → ((body : Bytes)
          → encode_values shown compact vs ≡ ok body
          → ReadsAll shown body (decoded_values shown compact vs))
      → encode_value shown compact (array vs) ≡ ok b
      → Reads shown b (array (decoded_values shown compact vs))
  unfolding encode_value
  encode_values-Reads vs {b} all e =
      let (head, made, e1) = >>=-eq-ok (encode_uint 4 (count vs)) _ e in
      let (body, bodies, e2) = >>=-eq-ok (encode_values shown compact vs) _ e1 in
      rw (← ok_value _ b e2) (
        array-Reads shown (count vs) (decoded_values shown compact vs) body (count-decoded vs) made
          (all body bodies))

  mutual
    unfolding encode_value decoded Readable

    value-Reads :
        (v : Value) {b : Bytes}
        → Readable shown v
        → encode_value shown compact v ≡ ok b
        → Reads shown b (decoded shown compact v)
    value-Reads null {b} r e = rw (← ok_value _ b e) (null-Reads shown)
    value-Reads (boolean true) {b} r e = rw (← ok_value _ b e) (true-Reads shown)
    value-Reads (boolean false) {b} r e = rw (← ok_value _ b e) (false-Reads shown)
    value-Reads (field v bits) r e = field-Reads v bits e
    value-Reads (nat n) r e = nat-Reads shown n e
    value-Reads (neg n) r e = neg-Reads shown n e
    value-Reads (bytes s) r e = bytes-Reads shown s e
    value-Reads (text s) r e = text-Reads shown s r e
    value-Reads (path s) r e = text-Reads shown s r e
    value-Reads (float bits) r e = float-Reads shown bits r e
    value-Reads (array vs) {b} r e =
        encode_values-Reads vs (λ body bodies. values_read vs r bodies) e
    value-Reads (tuple vs) {b} r e =
        encode_values-Reads vs (λ body bodies. values_read vs r bodies) e
    value-Reads (dict es) r e =
        let (items, made, e1) = >>=-eq-ok (encode_entries shown compact es) _ e in
        dict-Reads shown items (decoded_entries shown compact es) (entries_fit es r made) e1

    values_read :
        (vs : Values) {b : Bytes}
        → AllReadable shown vs
        → encode_values shown compact vs ≡ ok b
        → ReadsAll shown b (decoded_values shown compact vs)
    values_read nil {b} r e = rw (← ok_value _ b e) (nil-ReadsAll shown)
    values_read (cons v vs) {b} r e =
        let (first, one, e1) = >>=-eq-ok (encode_value shown compact v) _ e in
        let (others, more, e2) = >>=-eq-ok (encode_values shown compact vs) _ e1 in
        rw (← ok_value _ b e2) (
          cons-ReadsAll shown first others (decoded shown compact v)
            (decoded_values shown compact vs) (value-Reads v r.0 one) (values_read vs r.1 more))

    entries_fit :
        (es : Entries) {items : List Item}
        → EntriesReadable shown es
        → encode_entries shown compact es ≡ ok items
        → Both (Fits shown) items (decoded_entries shown compact es)
    entries_fit empty {items} r e = rw (← ok_value _ items e) tt
    entries_fit (entry k v es) {items} r e =
        let (key, one, e1) = >>=-eq-ok (encode_key shown k) _ e in
        let (others, more, e2) = >>=-eq-ok (encode_entries shown compact es) _ e1 in
        let fits = key_fits shown k r.0 one in
        rw (← ok_value _ items e2) (
          record {
            same_key = sym (ap (value_or_default []) one);
            key_read = fits.0;
            key_again = fits.1;
            key_kept = fits.2;
            value_read = λ b got. value-Reads v r.1 got;
          },
          entries_fit es r.2 more,
        )

-- Where every text is UTF-8 and every float has 64 bits: what the encoder makes of a value, in
-- either encoding, stands anywhere in a buffer, and the decoder is started there with a round to
-- each of its bytes. It stops right behind it, with the value's decoded form.
pub decode_value-encode_value :
    (shown : Value → Bytes) (compact : Bool) (v : Value) {b : Bytes}
    → Readable shown v
    → encode_value shown compact v ≡ ok b
    → (rounds : ℕ) (view : Bytes) (pos : ℕ) (rest : Bytes) → length b ≤ rounds
    → drop pos view ≡ b ++ rest
    → decode_value shown rounds view pos ≡ ok (decoded shown compact v, pos + length b)
decode_value-encode_value shown compact v r e = value-Reads shown compact v r e

-- Where every text of the sanitized value is UTF-8 and every float has 64 bits: whatever bytes
-- `canonical_encode` makes, in either encoding, `canonical_decode` takes them back to the value's
-- decoded form: tuples as lists, field elements as bytes or integers, paths and keys as texts, and
-- dictionaries in the order of their encoded keys.
pub canonical_decode-canonical_encode :
    (shown : Value → Bytes) (compact : Bool) (v : Value) {b : Bytes}
    → Readable shown (sanitize shown v)
    → canonical_encode shown compact v ≡ ok b
    → canonical_decode shown b ≡ ok (decoded shown compact (sanitize shown v))
unfolding canonical_encode canonical_decode
canonical_decode-canonical_encode shown compact v {b} r e =
    let read =
      decode_value-encode_value shown compact (sanitize shown v) r e (suc (length b)) b 0 []
        (omega arith) (sym (append-nil b)) in
    let ends : (0 + length b == length b) ≡ true =
      (==_iff (0 + length b) (length b)).1 (omega arith) in
    rw read (rw ends refl)
