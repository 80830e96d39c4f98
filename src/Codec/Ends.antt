-- ===== src/Codec/Ends.antt =====
-- The encoder of canonical CBOR raises only what Python raises: no loop of it is cut off.
pub mod Decoder
use capsule_tech.Common.{
  ℕ, zero, suc, ◌+◌, ◌*◌, ◌/◌, ◌%◌, ◌^◌, max, ◌≤◌, ◌<◌, ◌≡◌, ◌≢◌, refl, ap, inl, inr, Bool, true,
  false, not, Option, none, some, List, [], ◌∷◌, ◌++◌, length, get_elem?, get_elem?-none, ltb, leb,
  ◌==◌, Bool-cases, Option-cases, if◌then◌else◌, Error, Result, ok, err, fuel, cbor_error,
  index_error, value_error, overflow_error, ◌>>=◌, ◌>>◌, raise_if, or_raise, arith,
}
use capsule_tech.Common.Bytes.{Bytes}
use capsule_tech.Codec.Value.{
  Value, Values, Entries, null, boolean, field, nat, neg, bytes, text, path, float, array, tuple,
  dict, nil, cons, empty, entry, count, str, sanitize, put_entry,
}
use capsule_tech.Codec.Order.{sort, insert, bytes_lt}
use capsule_tech.Codec.Encode.{
  Item, item_key, join_items, encode_items, encode_uint, encode_key, encode_value, encode_values,
  encode_entries, encode_text, encode_bytes, encode_field, encode_float, field_bytes, is_nan,
  canonical_encode,
}
use capsule_tech.Codec.Decode.{
  key_of, out_of_order, read_uint, read_string, decode_text, decode_simple, decode_items,
  decode_pairs, decode_array, decode_map, decode_body, decode_value, canonical_decode, valid_utf8,
}

-- A value has the property, and an exception is one of Python's.
abbrev pub Settles {ℓ} : {A : Type ℓ} → (A → Type 0) → Result A → Type 0
Settles P (ok a) = P a
Settles P (err e) = e ≢ fuel

module _ {ℓ κ} {A : Type ℓ} {B : Type κ} where
  pub Settles-bind :
      (P : A → Type 0) (Q : B → Type 0) (m : Result A) (f : A → Result B)
      → Settles P m
      → ((a : A) → P a → Settles Q (f a))
      → Settles Q (m >>= f)
  Settles-bind P Q (ok a) f h k = k a h
  Settles-bind P Q (err e) f h k = h

abbrev pub Ends {ℓ} : {A : Type ℓ} → Result A → Type 0
Ends r = Settles (λ _. Unit {0}) r

pub branch {ℓ} :
    {A : Type ℓ} (P : A → Type 0) (b : Bool) (m n : Result A)
    → Settles P m
    → Settles P n
    → Settles P (if b then m else n)
branch P true m n p q = p
branch P false m n p q = q

pub then-Ends {ℓ κ} :
    {A : Type ℓ} {B : Type κ} (m : Result A) (f : A → Result B)
    → Ends m
    → ((a : A) → Ends (f a))
    → Ends (m >>= f)
then-Ends m f p q = Settles-bind (λ _. Unit {0}) (λ _. Unit {0}) m f p λ a _. q a

pub raise_if-Ends : (b : Bool) (e : Error) → e ≢ fuel → Ends (raise_if b e)
raise_if-Ends true e h = h
raise_if-Ends false e h = tt

pub or_raise-Ends {ℓ} : {A : Type ℓ} (o : Option A) (e : Error) → e ≢ fuel → Ends (or_raise e o)
or_raise-Ends none e h = h
or_raise-Ends (some a) e h = tt

pub cbor-ne-fuel : cbor_error ≢ fuel
cbor-ne-fuel e = cc

encode_uint-Ends : (major value : ℕ) → Ends (encode_uint major value)
unfolding encode_uint
encode_uint-Ends major value = branch _ (ltb value 24) _ _ tt (
    branch _ (ltb value (2 ^ 8)) _ _ tt (
      branch _ (ltb value (2 ^ 16)) _ _ tt
        (branch _ (ltb value (2 ^ 32)) _ _ tt (branch _ (ltb value (2 ^ 64)) _ _ tt cbor-ne-fuel))))

string-Ends :
    (major : ℕ) (s : Bytes) → Ends (encode_uint major (length s) >>= λ head. ok (head ++ s))
string-Ends major s =
    then-Ends (encode_uint major (length s)) _ (encode_uint-Ends major (length s)) λ head. tt

encode_key-Ends : (shown : Value → Bytes) (k : Value) → Ends (encode_key shown k)
unfolding encode_key encode_text encode_bytes
encode_key-Ends shown (text b) = string-Ends 3 b
encode_key-Ends shown (bytes b) = string-Ends 2 b
encode_key-Ends shown k = string-Ends 3 (str shown k)

encode_field-Ends : (compact : Bool) (v bits : ℕ) → Ends (encode_field compact v bits)
unfolding encode_field encode_bytes
encode_field-Ends true v bits =
    branch _ (ltb v (256 ^ max 1 ((bits + 7) / 8))) _ _ (string-Ends 2 (field_bytes v bits))
      (λ e. cc)
encode_field-Ends false v bits = encode_uint-Ends 0 v

-- Every delayed encoding of a value ends.
abbrev ItemsEnd : List Item → Type 0
ItemsEnd [] = Unit
ItemsEnd (item ∷ items) = Ends item.encoded_value × ItemsEnd items

insert-ItemsEnd :
    (item : Item) (items : List Item)
    → Ends item.encoded_value
    → ItemsEnd items
    → ItemsEnd (insert item_key item items)
unfolding insert
insert-ItemsEnd item [] h hs = (h, tt)
insert-ItemsEnd item (x ∷ xs) h hs = elim (Bool-cases (bytes_lt x.encoded_key item.encoded_key)) [
  | inl below ↦ rw below (hs.0, insert-ItemsEnd item xs h hs.1)
  | inr above ↦ rw above (h, hs)
]

sort-ItemsEnd : (items : List Item) → ItemsEnd items → ItemsEnd (sort item_key items)
unfolding sort
sort-ItemsEnd [] h = tt
sort-ItemsEnd (x ∷ xs) h = insert-ItemsEnd x (sort item_key xs) h.0 (sort-ItemsEnd xs h.1)

join_items-Ends : (items : List Item) → ItemsEnd items → Ends (join_items items)
unfolding join_items
join_items-Ends [] h = tt
join_items-Ends (x ∷ xs) h =
    then-Ends x.encoded_value _ h.0
      λ value. then-Ends (join_items xs) _ (join_items-Ends xs h.1) λ rest. tt

encode_items-Ends : (items : List Item) → ItemsEnd items → Ends (encode_items items)
unfolding encode_items
encode_items-Ends items h =
    then-Ends (encode_uint 5 (length items)) _ (encode_uint-Ends 5 (length items)) λ head.
      then-Ends (join_items (sort item_key items)) _
        (join_items-Ends (sort item_key items) (sort-ItemsEnd items h)) λ body. tt

array-Ends :
    (size : ℕ) (m : Result Bytes)
    → Ends m
    → Ends (encode_uint 4 size >>= λ head. m >>= λ body. ok (head ++ body))
array-Ends size m h =
    then-Ends (encode_uint 4 size) _ (encode_uint-Ends 4 size) λ head. then-Ends m _ h λ body. tt

module _ (shown : Value → Bytes) (compact : Bool) where
  mutual
    unfolding encode_value encode_bytes encode_text encode_float

    encode_value-Ends : (v : Value) → Ends (encode_value shown compact v)
    encode_value-Ends null = tt
    encode_value-Ends (boolean true) = tt
    encode_value-Ends (boolean false) = tt
    encode_value-Ends (field v bits) = encode_field-Ends compact v bits
    encode_value-Ends (nat n) = encode_uint-Ends 0 n
    encode_value-Ends (neg n) = encode_uint-Ends 1 n
    encode_value-Ends (bytes s) = string-Ends 2 s
    encode_value-Ends (text s) = string-Ends 3 s
    encode_value-Ends (path s) = string-Ends 3 s
    encode_value-Ends (float bits) = branch _ (is_nan bits) _ _ cbor-ne-fuel tt
    encode_value-Ends (array vs) = array-Ends (count vs) _ (encode_values-Ends vs)
    encode_value-Ends (tuple vs) = array-Ends (count vs) _ (encode_values-Ends vs)
    encode_value-Ends (dict es) =
        Settles-bind ItemsEnd (λ _. Unit {0}) (encode_entries shown compact es) encode_items
          (encode_entries-Ends es) encode_items-Ends

    encode_values-Ends : (vs : Values) → Ends (encode_values shown compact vs)
    encode_values-Ends nil = tt
    encode_values-Ends (cons v vs) =
        then-Ends (encode_value shown compact v) _ (encode_value-Ends v)
          λ first. then-Ends (encode_values shown compact vs) _ (encode_values-Ends vs) λ rest. tt

    encode_entries-Ends : (es : Entries) → Settles ItemsEnd (encode_entries shown compact es)
    encode_entries-Ends empty = tt
    encode_entries-Ends (entry k v es) =
        Settles-bind (λ _. Unit {0}) ItemsEnd (encode_key shown k) _ (encode_key-Ends shown k)
          λ key _.
            Settles-bind ItemsEnd ItemsEnd (encode_entries shown compact es) _
              (encode_entries-Ends es) λ rest h. (encode_value-Ends v, h)

  pub canonical_encode-Ends : (v : Value) → Ends (canonical_encode shown compact v)
  unfolding canonical_encode
  canonical_encode-Ends v = encode_value-Ends (sanitize shown v)
