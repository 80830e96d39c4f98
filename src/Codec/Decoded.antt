-- ===== src/Codec/Decoded.antt =====
-- What a decoder of canonical CBOR can show of a value, and what it means that bytes are read.
use capsule_tech.Common.{
  ℕ, suc, ◌+◌, ◌*◌, ◌/◌, ◌%◌, ◌^◌, ◌≤◌, ◌<◌, ◌≡◌, refl, ap, ◌∙◌, Bool, true, List, [], ◌∷◌, ◌++◌,
  length, drop, if◌then◌else◌, ok, value_or_default, arith,
}
use capsule_tech.Common.Bytes.{Bytes}
use capsule_tech.Codec.Value.{
  Value, Values, Entries, field, nat, bytes, text, path, float, array, tuple, dict, nil, cons,
  empty, entry, str, put_entry,
}
use capsule_tech.Codec.Order.{sort}
use capsule_tech.Codec.Encode.{field_bytes, encode_key}
use capsule_tech.Codec.Decode.{valid_utf8, key_of, read_uint, decode_body, decode_value}
use capsule_tech.Codec.Heads.{Head, get_elem?-drop, drop-append_at}

-- An entry with its encoded key
pub record Pair : Type 0 where
  pub encoded_key : Bytes
  pub key : Value
  pub value : Value

abbrev pub pair_key : Pair → Bytes
pair_key p = p.encoded_key

unfoldable pub put_all : Entries → List Pair → Entries
put_all es [] = es
put_all es (p ∷ ps) = put_all (put_entry es p.key p.value) ps

-- Paths are texts, tuples are lists, field elements are bytes in the default encoding and integers
-- in the other, and a dictionary has its entries in the order of their encoded keys.
unfoldable mutual
  unfolding put_all sort field_bytes encode_key key_of

  pub decoded : (Value → Bytes) → Bool → Value → Value
  decoded shown compact (field v bits) = if compact then bytes (field_bytes v bits) else nat v
  decoded shown compact (path b) = text b
  decoded shown compact (array vs) = array (decoded_values shown compact vs)
  decoded shown compact (tuple vs) = array (decoded_values shown compact vs)
  decoded shown compact (dict es) =
      dict (put_all empty (sort pair_key (decoded_entries shown compact es)))
  decoded shown compact v = v

  pub decoded_values : (Value → Bytes) → Bool → Values → Values
  decoded_values shown compact nil = nil
  decoded_values shown compact (cons v vs) =
      cons (decoded shown compact v) (decoded_values shown compact vs)

  pub decoded_entries : (Value → Bytes) → Bool → Entries → List Pair
  decoded_entries shown compact empty = []
  decoded_entries shown compact (entry k v es) =
      record {
        encoded_key = value_or_default [] (encode_key shown k);
        key = key_of shown k;
        value = decoded shown compact v;
      }
      ∷ decoded_entries shown compact es

abbrev pub KeyReadable : (Value → Bytes) → Value → Type 0
KeyReadable shown (bytes b) = Unit
KeyReadable shown (text b) = valid_utf8 b ≡ true
KeyReadable shown k = valid_utf8 (str shown k) ≡ true

-- The bytes of a text are UTF-8, and the bits of a float are 64.
unfoldable mutual
  pub Readable : (Value → Bytes) → Value → Type 0
  Readable shown (text b) = valid_utf8 b ≡ true
  Readable shown (path b) = valid_utf8 b ≡ true
  Readable shown (float bits) = bits < 2 ^ 64
  Readable shown (array vs) = AllReadable shown vs
  Readable shown (tuple vs) = AllReadable shown vs
  Readable shown (dict es) = EntriesReadable shown es
  Readable shown v = Unit

  pub AllReadable : (Value → Bytes) → Values → Type 0
  AllReadable shown nil = Unit
  AllReadable shown (cons v vs) = Readable shown v × AllReadable shown vs

  pub EntriesReadable : (Value → Bytes) → Entries → Type 0
  EntriesReadable shown empty = Unit
  EntriesReadable shown (entry k v es) =
      KeyReadable shown k × Readable shown v × EntriesReadable shown es

module _ (shown : Value → Bytes) where
  -- Wherever the bytes stand, the decoder reads the value and stops behind them.
  abbrev pub Reads : Bytes → Value → Type 0
  Reads b v =
      (rounds : ℕ) (view : Bytes) (pos : ℕ) (rest : Bytes)
      → length b ≤ rounds
      → drop pos view ≡ b ++ rest
      → decode_value shown rounds view pos ≡ ok (v, pos + length b)

  -- A value with a head is decoded by what follows it.
  pub record Opened (major value : ℕ) (b : Bytes) (ai : ℕ) (view : Bytes) (pos : ℕ)
      (payload : Bytes) : Type 0 where
    pub entered :
        (rounds : ℕ)
        → decode_value shown (suc rounds) view pos
          ≡ decode_body shown (decode_value shown rounds view) view major ai (pos + 1)
    pub header : read_uint ai view (pos + 1) ≡ ok (value, pos + length b)
    pub after : drop (pos + length b) view ≡ payload

  pub enter :
      (major ai : ℕ) (view : Bytes) (pos : ℕ) (rest : Bytes)
      → ai < 32
      → drop pos view ≡ (major * 32 + ai) ∷ rest
      → (rounds : ℕ)
      → decode_value shown (suc rounds) view pos
        ≡ decode_body shown (decode_value shown rounds view) view major ai (pos + 1)
  unfolding decode_value
  enter major ai view pos rest small e rounds =
      let high : (major * 32 + ai) / 32 ≡ major = omega arith in
      let low : (major * 32 + ai) % 32 ≡ ai = omega arith in
      rw (get_elem?-drop view pos (major * 32 + ai) rest e, high, low) refl

  pub opening :
      (major value : ℕ) {b : Bytes} (h : Head major value b) (view : Bytes) (pos : ℕ)
      (payload : Bytes)
      → drop pos view ≡ b ++ payload
      → Opened major value b h.ai view pos payload
  opening major value {b} h view pos payload e =
      let split : drop pos view ≡ (major * 32 + h.ai) ∷ (h.tail ++ payload) =
        e ∙ ap (λ x. x ++ payload) h.shape in
      let behind : drop (pos + 1) view ≡ h.tail ++ payload =
        drop-append_at view pos ((major * 32 + h.ai) ∷ []) (h.tail ++ payload) split in
      record {
        entered = enter major h.ai view pos (h.tail ++ payload) h.small split;
        header =
            h.reads view (pos + 1) payload behind
            ∙ ap (λ (k : ℕ). ok (value, k)) (omega (arith, ap length h.shape));
        after = drop-append_at view pos b payload e;
      }
