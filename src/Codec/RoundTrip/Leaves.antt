-- ===== src/Codec/RoundTrip/Leaves.antt =====
-- Canonical CBOR of numbers, strings, floats and constants is read back.
use mathlib.Core.List.{append_assoc}
use capsule_tech.Common.{
  ℕ, zero, suc, ◌+◌, ◌*◌, ◌^◌, ◌≤◌, ◌<◌, ◌≡◌, refl, sym, ap, ◌∙◌, inl, inr, true, false, [], ◌∷◌,
  ◌++◌, length, length-append, length-drop, drop, ge→ltb, Bool-cases, ok, ok_value, >>=-eq-ok,
  arith,
}
use capsule_tech.Common.Bytes.{Bytes, to_bytes, from_bytes-to_bytes, length-to_bytes}
use capsule_tech.Codec.Value.{Value, null, boolean, nat, neg, bytes, text, float}
use capsule_tech.Codec.Encode.{encode_uint, encode_bytes, encode_text, encode_float, is_nan}
use capsule_tech.Codec.Decode.{
  slice, valid_utf8, read_string, decode_text, decode_simple, decode_body, decode_value,
}
use capsule_tech.Codec.Heads.{Head, encode_uint-Head, slice-append, drop-le, drop-append_at}
use capsule_tech.Codec.Decoded.{Reads, Opened, enter, opening}

-- A string that fits ends where it says.
pub length-drop_at :
    (view : Bytes) (pos : ℕ) (b rest : Bytes)
    → drop pos view ≡ b ++ rest
    → 0 < length b
    → pos + length b ≤ length view
length-drop_at view pos b rest e some_byte =
    omega (arith, length-drop pos view, ap length e, length-append b rest)

pub read_string-append :
    (view : Bytes) (pos : ℕ) (b rest : Bytes)
    → drop pos view ≡ b ++ rest
    → pos ≤ length view
    → read_string view (length b, pos) ≡ ok (b, pos + length b)
unfolding read_string
read_string-append view pos b rest e inside =
    let fits : pos + length b ≤ length view =
      omega (arith, length-drop pos view, ap length e, length-append b rest) in
    rw (ge→ltb (length view) (pos + length b) fits, slice-append view pos b rest e) refl

module _ (shown : Value → Bytes) where
  -- A round is left, since the bytes are not none.
  pub Reads-step :
      (b : Bytes) (v : Value)
      → 0 < length b
      → ((rounds : ℕ) (view : Bytes) (pos : ℕ) (rest : Bytes)
          → length b ≤ suc rounds
          → drop pos view ≡ b ++ rest
          → decode_value shown (suc rounds) view pos ≡ ok (v, pos + length b))
      → Reads shown b v
  Reads-step b v pos step zero = λ view at rest h e. absurd (omega arith)
  Reads-step b v pos step (suc rounds) = step rounds

  pub Head-length : (major value : ℕ) {b : Bytes} → Head major value b → 0 < length b
  Head-length major value h = omega (arith, ap length h.shape)

  pub nat-Reads : (n : ℕ) {b : Bytes} → encode_uint 0 n ≡ ok b → Reads shown b (nat n)
  unfolding decode_body
  nat-Reads n {b} e =
      let h = encode_uint-Head 0 n e in
      Reads-step b (nat n) (Head-length 0 n h) λ rounds view pos rest enough at.
        let o = opening shown 0 n h view pos rest at in o.entered rounds ∙ (rw o.header refl)

  pub neg-Reads : (n : ℕ) {b : Bytes} → encode_uint 1 n ≡ ok b → Reads shown b (neg n)
  unfolding decode_body
  neg-Reads n {b} e =
      let h = encode_uint-Head 1 n e in
      Reads-step b (neg n) (Head-length 1 n h) λ rounds view pos rest enough at.
        let o = opening shown 1 n h view pos rest at in o.entered rounds ∙ (rw o.header refl)

  -- A head and the string behind it
  pub string-at :
      (major : ℕ) (s head : Bytes) (h : Head major (length s) head) (view : Bytes) (pos : ℕ)
      (rest : Bytes)
      → drop pos view ≡ (head ++ s) ++ rest
      → Opened shown major (length s) head h.ai view pos (s ++ rest)
        × (read_string view (length s, pos + length head) ≡ ok (s, pos + length (head ++ s)))
  string-at major s head h view pos rest at =
      let split = at ∙ append_assoc head s rest in
      let o = opening shown major (length s) h view pos (s ++ rest) split in
      let inside : pos + length head ≤ length view =
        length-drop_at view pos head (s ++ rest) split (Head-length major (length s) h) in
      (
        o,
        read_string-append view (pos + length head) s rest o.after inside
            ∙ ap (λ (k : ℕ). ok (s, k)) (omega (arith, length-append head s)),
      )

  pub bytes-Reads : (s : Bytes) {b : Bytes} → encode_bytes s ≡ ok b → Reads shown b (bytes s)
  unfolding encode_bytes decode_body
  bytes-Reads s {b} e =
      let (head, made, whole) = >>=-eq-ok (encode_uint 2 (length s)) _ e in
      let h = encode_uint-Head 2 (length s) made in
      let same : head ++ s ≡ b = ok_value _ b whole in
      rw (← same) (
        Reads-step (head ++ s) (bytes s)
          (omega (arith, length-append head s, Head-length 2 (length s) h))
          λ rounds view pos rest enough at.
            let both = string-at 2 s head h view pos rest at in
            both.0.entered rounds ∙ (rw (both.0.header, both.1) refl))

  pub text-Reads :
      (s : Bytes) {b : Bytes} → valid_utf8 s ≡ true → encode_text s ≡ ok b → Reads shown b (text s)
  unfolding encode_text decode_body decode_text
  text-Reads s {b} valid e =
      let (head, made, whole) = >>=-eq-ok (encode_uint 3 (length s)) _ e in
      let h = encode_uint-Head 3 (length s) made in
      let same : head ++ s ≡ b = ok_value _ b whole in
      rw (← same) (
        Reads-step (head ++ s) (text s)
          (omega (arith, length-append head s, Head-length 3 (length s) h))
          λ rounds view pos rest enough at.
            let both = string-at 3 s head h view pos rest at in
            both.0.entered rounds ∙ (rw (both.0.header, both.1, valid) refl))

  simple-Reads :
      (ai : ℕ) (v : Value)
      → ai < 32
      → ((view : Bytes) (pos : ℕ) → decode_simple ai view pos ≡ ok (v, pos))
      → Reads shown ((7 * 32 + ai) ∷ []) v
  unfolding decode_body
  simple-Reads a v small branch =
      Reads-step ((7 * 32 + a) ∷ []) v (omega arith) λ rounds view pos rest enough at.
        enter shown 7 a view pos rest small at rounds ∙ branch view (pos + 1)

  pub null-Reads : Reads shown (246 ∷ []) null
  unfolding decode_simple
  null-Reads = simple-Reads 22 null (omega arith) λ view pos. refl

  pub true-Reads : Reads shown (245 ∷ []) (boolean true)
  unfolding decode_simple
  true-Reads = simple-Reads 21 (boolean true) (omega arith) λ view pos. refl

  pub false-Reads : Reads shown (244 ∷ []) (boolean false)
  unfolding decode_simple
  false-Reads = simple-Reads 20 (boolean false) (omega arith) λ view pos. refl

  double-Reads : (bits : ℕ) → bits < 2 ^ 64 → Reads shown (251 ∷ to_bytes 8 bits) (float bits)
  unfolding decode_body decode_simple
  double-Reads bits fits =
      Reads-step (251 ∷ to_bytes 8 bits) (float bits) (omega arith)
        λ rounds view pos rest enough at.
          let behind : drop (pos + 1) view ≡ to_bytes 8 bits ++ rest =
            drop-append_at view pos (251 ∷ []) (to_bytes 8 bits ++ rest) at in
          let eight = length-to_bytes 8 bits in
          let room : pos + 1 + 8 ≤ length view = omega (
            arith,
            drop-le view pos 251 (to_bytes 8 bits ++ rest) at,
            length-append (to_bytes 8 bits) rest,
            length-to_bytes 8 bits,
          ) in
          let read : slice view (pos + 1) 8 ≡ to_bytes 8 bits =
            ap (λ (k : ℕ). slice view (pos + 1) k) (sym (length-to_bytes 8 bits))
            ∙ slice-append view (pos + 1) (to_bytes 8 bits) rest behind in
          enter shown 7 27 view pos (to_bytes 8 bits ++ rest) (omega arith) at rounds
          ∙ (rw
              (
                ge→ltb (length view) (pos + 1 + 8) room,
                read,
                from_bytes-to_bytes 8 bits (omega arith),
              )
              (ap (λ (k : ℕ). ok (float bits, k)) (omega (arith, length-to_bytes 8 bits))))

  pub float-Reads :
      (bits : ℕ) {b : Bytes} → bits < 2 ^ 64 → encode_float bits ≡ ok b → Reads shown b (float bits)
  unfolding encode_float
  float-Reads bits {b} fits e = elim (Bool-cases (is_nan bits)) [
    | inl nan ↦ absurd (cc (rw nan at e))
    | inr number ↦
        let same : (251 ∷ to_bytes 8 bits) ≡ b = ok_value _ b (rw number at e) in
        rw (← same) (double-Reads bits fits)
  ]
