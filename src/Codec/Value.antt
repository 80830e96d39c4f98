-- ===== src/Codec/Value.antt =====
-- The values that bef_zk/codec/canonical_cbor.py encodes, and `_sanitize`.
use capsule_tech.Common.{ℕ, suc, Bool, true, false, Option, none, some, if◌then◌else◌}
use capsule_tech.Common.Bytes.{Bytes, bytes_eq}

-- A Python value. An integer is `nat n`, or `neg n` for `-1 - n`; a text and a path are their UTF-8
-- bytes; a float is its IEEE double as a number of 64 bits; `field` is a `FieldElement` of a value
-- and a number of bits. A dictionary lists its entries in the order of their insertion.
mutual
  pub data Value : Type 0 where
    null : Value
    boolean : Bool → Value
    field : ℕ → ℕ → Value
    nat : ℕ → Value
    neg : ℕ → Value
    bytes : Bytes → Value
    text : Bytes → Value
    path : Bytes → Value
    float : ℕ → Value
    array : Values → Value
    tuple : Values → Value
    dict : Entries → Value

  pub data Values : Type 0 where
    nil : Values
    cons : Value → Values → Values

  pub data Entries : Type 0 where
    empty : Entries
    entry : Value → Value → Entries → Entries

-- `isinstance(key, (str, bytes))`, and the equality of such keys
unfoldable pub is_key : Value → Bool
is_key (text b) = true
is_key (bytes b) = true
is_key v = false

unfoldable pub key_eq : Value → Value → Bool
unfolding bytes_eq
key_eq (text a) (text b) = bytes_eq a b
key_eq (bytes a) (bytes b) = bytes_eq a b
key_eq v w = false

-- `d[key] = value`: an old entry keeps its place.
unfoldable pub put_entry : Entries → Value → Value → Entries
unfolding key_eq
put_entry empty k v = entry k v empty
put_entry (entry j w es) k v = if key_eq j k then entry j v es else entry j w (put_entry es k v)

-- `d.get(key)`
unfoldable pub get_entry : Entries → Value → Option Value
unfolding key_eq
get_entry empty k = none
get_entry (entry j w es) k = if key_eq j k then some w else get_entry es k

abbrev pub count : Values → ℕ
count nil = 0
count (cons v vs) = suc (count vs)

-- `str`: a text is itself; the text of another value is given.
unfoldable pub str : (Value → Bytes) → Value → Bytes
str shown (text b) = b
str shown (path b) = b
str shown v = shown v

-- The later of two keys with the same text wins, and keeps the earlier's place.
unfoldable mutual
  unfolding str put_entry

  pub sanitize : (Value → Bytes) → Value → Value
  sanitize shown (array vs) = array (sanitize_values shown vs)
  sanitize shown (tuple vs) = array (sanitize_values shown vs)
  sanitize shown (dict es) = dict (sanitize_entries shown empty es)
  sanitize shown (path b) = text b
  sanitize shown v = v

  pub sanitize_values : (Value → Bytes) → Values → Values
  sanitize_values shown nil = nil
  sanitize_values shown (cons v vs) = cons (sanitize shown v) (sanitize_values shown vs)

  pub sanitize_entries : (Value → Bytes) → Entries → Entries → Entries
  sanitize_entries shown made empty = made
  sanitize_entries shown made (entry k v es) =
      sanitize_entries shown (put_entry made (text (str shown k)) (sanitize shown v)) es
