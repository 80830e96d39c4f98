-- ===== src/Codec/Decode.antt =====
-- The decoder of bef_zk/codec/canonical_cbor.py. A position is a number, and bytes are read at it.
use capsule_tech.Common.{
  ℕ, zero, suc, ◌+◌, ◌-◌, ◌*◌, ◌/◌, ◌%◌, ◌^◌, Bool, true, false, not, ◌&&◌, Option, some, none, [],
  ◌∷◌, length, get_elem?, take, drop, ltb, leb, ◌==◌, if◌then◌else◌, Result, ok, err, fuel,
  cbor_error, index_error, value_error, ◌>>=◌, ◌>>◌, raise_if, or_raise,
}
use capsule_tech.Common.Bytes.{Bytes, from_bytes, from_bytes_onto}
use capsule_tech.Fri.Config.{bit_length}
use capsule_tech.Codec.Value.{
  Value, Values, Entries, null, boolean, nat, neg, bytes, text, float, array, dict, nil, cons,
  empty, is_key, str, put_entry,
}
use capsule_tech.Codec.Order.{bytes_lt}
use capsule_tech.Codec.Encode.{canonical_encode}

-- `data[pos : pos + n]`, which may be shorter
unfoldable pub slice : Bytes → ℕ → ℕ → Bytes
slice view pos n = take n (drop pos view)

unfoldable pub read_uint : ℕ → Bytes → ℕ → Result (ℕ × ℕ)
unfolding slice from_bytes_onto
read_uint ai view pos =
    if ltb ai 24
    then ok (ai, pos)
    else if ai == 24
    then (or_raise index_error (get_elem? view pos) >>= λ value. ok (value, pos + 1))
    else if ai == 25
    then ok (from_bytes (slice view pos 2), pos + 2)
    else if ai == 26
    then ok (from_bytes (slice view pos 4), pos + 4)
    else if ai == 27
    then ok (from_bytes (slice view pos 8), pos + 8)
    else err cbor_error

-- Continuation bytes of UTF-8, and what a lead byte says of the bytes that follow: how many more
-- there are, and the bounds of the next one.
unfoldable pub utf8_from : Bytes → ℕ → ℕ → ℕ → Bool
utf8_from [] more low high = more == 0
utf8_from (b ∷ bs) zero low high =
    let lead = λ (n : ℕ) (l : ℕ) (h : ℕ). utf8_from bs n l h in
    elim (ltb b 128) [
      | true ↦ lead 0 128 191
      | false ↦ elim (leb 194 b && leb b 223) [
        | true ↦ lead 1 128 191
        | false ↦ elim (leb 224 b && leb b 239) [
          | true ↦ lead 2 (if b == 224 then 160 else 128) (if b == 237 then 159 else 191)
          | false ↦ elim (leb 240 b && leb b 244) [
            | true ↦ lead 3 (if b == 240 then 144 else 128) (if b == 244 then 143 else 191)
            | false ↦ false
          ]
        ]
      ]
    ]
utf8_from (b ∷ bs) (suc more) low high = leb low b && leb b high && utf8_from bs more 128 191

unfoldable pub valid_utf8 : Bytes → Bool
unfolding utf8_from
valid_utf8 b = utf8_from b 0 128 191

-- `struct.unpack(">f", ...)`: the double that has the single's value.
unfoldable pub widen_subnormal : ℕ → ℕ
widen_subnormal mantissa =
    let top = bit_length mantissa - 1 in
    (874 + top) * 2 ^ 52 + (mantissa - 2 ^ top) * 2 ^ (52 - top)

unfoldable pub widen : ℕ → ℕ
unfolding widen_subnormal bit_length
widen bits =
    let sign = bits / 2 ^ 31 * 2 ^ 63 in
    let exponent = bits / 2 ^ 23 % 256 in
    let mantissa = bits % 2 ^ 23 in
    if exponent == 255
    then sign + 2047 * 2 ^ 52 + mantissa * 2 ^ 29
    else if exponent == 0
    then (if mantissa == 0 then sign else sign + widen_subnormal mantissa)
    else sign + (exponent + 896) * 2 ^ 52 + mantissa * 2 ^ 29

unfoldable pub decode_simple : ℕ → Bytes → ℕ → Result (Value × ℕ)
unfolding slice from_bytes_onto widen
decode_simple ai view pos =
    if ai == 20
    then ok (boolean false, pos)
    else if ai == 21
    then ok (boolean true, pos)
    else if ai == 22
    then ok (null, pos)
    else if ai == 26
    then (do
      raise_if (ltb (length view) (pos + 4)) cbor_error
      ok (float (widen (from_bytes (slice view pos 4))), pos + 4))
    else if ai == 27
    then (do
      raise_if (ltb (length view) (pos + 8)) cbor_error
      ok (float (from_bytes (slice view pos 8)), pos + 8))
    else err cbor_error

-- A string of `size` bytes, and where it ends
unfoldable pub read_string : Bytes → ℕ × ℕ → Result (Bytes × ℕ)
unfolding slice
read_string view (size, pos) = do
  raise_if (ltb (length view) (pos + size)) cbor_error
  ok (slice view pos size, pos + size)

-- `bytes.decode("utf-8")` raises a `UnicodeDecodeError`, which is a `ValueError`.
unfoldable pub decode_text : Bytes × ℕ → Result (Value × ℕ)
unfolding valid_utf8
decode_text (utf8, pos) = do raise_if (not (valid_utf8 utf8)) value_error; ok (text utf8, pos)

-- Whether the key stands before the last one
unfoldable pub out_of_order : Option Bytes → Bytes → Bool
unfolding bytes_lt
out_of_order none key = false
out_of_order (some last) key = bytes_lt key last

-- The key in the dictionary
unfoldable pub key_of : (Value → Bytes) → Value → Value
unfolding is_key str
key_of shown key = if is_key key then key else text (str shown key)

module _ (shown : Value → Bytes) (decode : ℕ → Result (Value × ℕ)) where
  unfoldable pub decode_items : ℕ → ℕ → Result (Values × ℕ)
  decode_items zero pos = ok (nil, pos)
  decode_items (suc length) pos = do
    (value, pos) ← decode pos
    (items, pos) ← decode_items length pos
    ok (cons value items, pos)

  unfoldable pub decode_pairs : ℕ → ℕ → Entries → Option Bytes → Result (Entries × ℕ)
  unfolding out_of_order key_of put_entry
  decode_pairs zero pos result last = ok (result, pos)
  decode_pairs (suc length) pos result last = do
    (key, pos) ← decode pos
    encoded_key ← canonical_encode shown true key
    raise_if (out_of_order last encoded_key) cbor_error
    (value, pos) ← decode pos
    decode_pairs length pos (put_entry result (key_of shown key) value) (some encoded_key)

  unfoldable pub decode_array : ℕ × ℕ → Result (Value × ℕ)
  unfolding decode_items
  decode_array (length, pos) = do (items, pos) ← decode_items length pos; ok (array items, pos)

  unfoldable pub decode_map : ℕ × ℕ → Result (Value × ℕ)
  unfolding decode_pairs
  decode_map (length, pos) = do
    (result, pos) ← decode_pairs length pos empty none
    ok (dict result, pos)

  -- What follows the head, by its major type
  unfoldable pub decode_body : Bytes → ℕ → ℕ → ℕ → Result (Value × ℕ)
  unfolding read_uint read_string decode_text decode_array decode_map decode_simple
  decode_body view major ai pos =
      if leb major 1
      then (do
        (value, pos) ← read_uint ai view pos
        ok (if major == 0 then nat value else neg value, pos))
      else if major == 2
      then (do
        header ← read_uint ai view pos
        (buf, pos) ← read_string view header
        ok (bytes buf, pos))
      else if major == 3
      then (do header ← read_uint ai view pos; utf8 ← read_string view header; decode_text utf8)
      else if major == 4
      then (read_uint ai view pos >>= decode_array)
      else if major == 5
      then (read_uint ai view pos >>= decode_map)
      else if major == 7
      then decode_simple ai view pos
      else err cbor_error

-- The recursion goes as deep as the data is nested, at most once to a byte: the fuel is the number
-- of bytes and one.
unfoldable pub decode_value : (Value → Bytes) → ℕ → Bytes → ℕ → Result (Value × ℕ)
unfolding decode_body
decode_value shown zero view pos = err fuel
decode_value shown (suc rounds) view pos = do
  initial ← or_raise cbor_error (get_elem? view pos)
  decode_body shown (decode_value shown rounds view) view (initial / 32) (initial % 32) (pos + 1)

unfoldable pub canonical_decode : (Value → Bytes) → Bytes → Result Value
unfolding decode_value
canonical_decode shown blob = do
  (value, pos) ← decode_value shown (suc (length blob)) blob 0
  raise_if (not (pos == length blob)) cbor_error
  ok value
