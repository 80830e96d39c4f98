-- ===== src/Codec/Encode.antt =====
-- The encoder of bef_zk/codec/canonical_cbor.py.
use capsule_tech.Common.{
  ℕ, ◌+◌, ◌*◌, ◌/◌, ◌%◌, ◌^◌, max, Bool, true, false, not, ◌&&◌, List, [], ◌∷◌, ◌++◌, length, ltb,
  ◌==◌, if◌then◌else◌, Result, ok, err, cbor_error, overflow_error, ◌>>=◌,
}
use capsule_tech.Common.Bytes.{Bytes, to_bytes, to_little}
use capsule_tech.Codec.Value.{
  Value, Values, Entries, null, boolean, field, nat, neg, bytes, text, path, float, array, tuple,
  dict, nil, cons, empty, entry, count, str, sanitize,
}
use capsule_tech.Codec.Order.{sort}

-- The major type stands in the upper three bits of the head, which the code joins by `|`.
unfoldable pub encode_uint : ℕ → ℕ → Result Bytes
unfolding to_bytes
encode_uint major value =
    if ltb value 24
    then ok ((major * 32 + value) ∷ [])
    else if ltb value (2 ^ 8)
    then ok ((major * 32 + 24) ∷ value ∷ [])
    else if ltb value (2 ^ 16)
    then ok ((major * 32 + 25) ∷ to_bytes 2 value)
    else if ltb value (2 ^ 32)
    then ok ((major * 32 + 26) ∷ to_bytes 4 value)
    else if ltb value (2 ^ 64)
    then ok ((major * 32 + 27) ∷ to_bytes 8 value)
    else err cbor_error

unfoldable pub encode_bytes : Bytes → Result Bytes
unfolding encode_uint
encode_bytes buf = do head ← encode_uint 2 (length buf); ok (head ++ buf)

unfoldable pub encode_text : Bytes → Result Bytes
unfolding encode_uint
encode_text utf8 = do head ← encode_uint 3 (length utf8); ok (head ++ utf8)

unfoldable pub field_bytes : ℕ → ℕ → Bytes
unfolding to_little
field_bytes value bits = to_little (max 1 ((bits + 7) / 8)) value

unfoldable pub encode_field : Bool → ℕ → ℕ → Result Bytes
unfolding field_bytes encode_bytes encode_uint
encode_field true value bits =
    if ltb value (256 ^ max 1 ((bits + 7) / 8))
    then encode_bytes (field_bytes value bits)
    else err overflow_error
encode_field false value bits = encode_uint 0 value

-- `math.isnan` on the bits of a double
unfoldable pub is_nan : ℕ → Bool
is_nan bits = bits / 2 ^ 52 % 2048 == 2047 && not (bits % 2 ^ 52 == 0)

unfoldable pub encode_float : ℕ → Result Bytes
unfolding is_nan to_bytes
encode_float bits = if is_nan bits then err cbor_error else ok (251 ∷ to_bytes 8 bits)

-- An entry of `_encode_map`'s list: the encoded key, and the value's encoding, which is made only
-- after the entries are sorted and may raise then.
pub record Item : Type 0 where
  pub encoded_key : Bytes
  pub encoded_value : Result Bytes

unfoldable pub join_items : List Item → Result Bytes
join_items [] = ok []
join_items (item ∷ items) = do
  value ← item.encoded_value
  rest ← join_items items
  ok (item.encoded_key ++ value ++ rest)

abbrev pub item_key : Item → Bytes
item_key item = item.encoded_key

unfoldable pub encode_items : List Item → Result Bytes
unfolding join_items sort encode_uint
encode_items items = do
  head ← encode_uint 5 (length items)
  body ← join_items (sort item_key items)
  ok (head ++ body)

-- A key that is neither text nor bytes is encoded as its text.
unfoldable pub encode_key : (Value → Bytes) → Value → Result Bytes
unfolding encode_text encode_bytes str
encode_key shown (text b) = encode_text b
encode_key shown (bytes b) = encode_bytes b
encode_key shown key = encode_text (str shown key)

-- `shown` is `str`, and `compact` says that the encoding is the default one.
unfoldable mutual
  unfolding encode_uint encode_bytes encode_text encode_field encode_float encode_items encode_key

  pub encode_value : (Value → Bytes) → Bool → Value → Result Bytes
  encode_value shown compact null = ok (246 ∷ [])
  encode_value shown compact (boolean true) = ok (245 ∷ [])
  encode_value shown compact (boolean false) = ok (244 ∷ [])
  encode_value shown compact (field value bits) = encode_field compact value bits
  encode_value shown compact (nat n) = encode_uint 0 n
  encode_value shown compact (neg n) = encode_uint 1 n
  encode_value shown compact (bytes b) = encode_bytes b
  encode_value shown compact (text b) = encode_text b
  encode_value shown compact (path b) = encode_text b
  encode_value shown compact (float bits) = encode_float bits
  encode_value shown compact (array vs) = do
    head ← encode_uint 4 (count vs)
    body ← encode_values shown compact vs
    ok (head ++ body)
  encode_value shown compact (tuple vs) = do
    head ← encode_uint 4 (count vs)
    body ← encode_values shown compact vs
    ok (head ++ body)
  encode_value shown compact (dict es) = do
    items ← encode_entries shown compact es
    encode_items items

  pub encode_values : (Value → Bytes) → Bool → Values → Result Bytes
  encode_values shown compact nil = ok []
  encode_values shown compact (cons v vs) = do
    first ← encode_value shown compact v
    rest ← encode_values shown compact vs
    ok (first ++ rest)

  pub encode_entries : (Value → Bytes) → Bool → Entries → Result (List Item)
  encode_entries shown compact empty = ok []
  encode_entries shown compact (entry k v es) = do
    key ← encode_key shown k
    rest ← encode_entries shown compact es
    ok (record { encoded_key = key; encoded_value = encode_value shown compact v } ∷ rest)

unfoldable pub canonical_encode : (Value → Bytes) → Bool → Value → Result Bytes
unfolding encode_value sanitize
canonical_encode shown compact obj = encode_value shown compact (sanitize shown obj)
