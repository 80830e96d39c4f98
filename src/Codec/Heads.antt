-- ===== src/Codec/Heads.antt =====
-- Heads of canonical CBOR: what `_encode_uint` writes is what `_read_uint` reads.
use mathlib.Core.Path.{subst}
use capsule_tech.Common.{
  ℕ, zero, suc, ◌+◌, ◌*◌, ◌^◌, ◌<◌, ◌≡◌, refl, sym, ap, ◌∙◌, inl, inr, some, [], ◌∷◌, ◌++◌, length,
  get_elem?, drop, drop-add, take-append, drop-append, ltb, ltb→lt, Bool-cases, ok, ok_value, arith,
}
use capsule_tech.Common.Bytes.{Bytes, to_bytes, from_bytes, from_bytes-to_bytes, length-to_bytes}
use capsule_tech.Codec.Encode.{encode_uint}
use capsule_tech.Codec.Decode.{slice, read_uint}

-- The bytes at a position
pub get_elem?-drop :
    (view : Bytes) (pos b : ℕ) (rest : Bytes)
    → drop pos view ≡ b ∷ rest
    → get_elem? view pos ≡ some b
get_elem?-drop [] zero b rest e = absurd (cc)
get_elem?-drop [] (suc pos) b rest e = absurd (cc)
get_elem?-drop (x ∷ view) zero b rest e = cc
get_elem?-drop (x ∷ view) (suc pos) b rest e = get_elem?-drop view pos b rest e

pub slice-append :
    (view : Bytes) (pos : ℕ) (b rest : Bytes)
    → drop pos view ≡ b ++ rest
    → slice view pos (length b) ≡ b
unfolding slice
slice-append view pos b rest e = rw e (take-append b rest)

pub drop-append_at :
    (view : Bytes) (pos : ℕ) (b rest : Bytes)
    → drop pos view ≡ b ++ rest
    → drop (pos + length b) view ≡ rest
drop-append_at view pos b rest e = sym (drop-add pos (length b) view) ∙ rw e (drop-append b rest)

pub drop-le :
    (view : Bytes) (pos b : ℕ) (rest : Bytes)
    → drop pos view ≡ b ∷ rest
    → pos + suc (length rest) ≡ length view
drop-le [] zero b rest e = absurd (cc)
drop-le [] (suc pos) b rest e = absurd (cc)
drop-le (x ∷ view) zero b rest e = omega (arith, ap length e)
drop-le (x ∷ view) (suc pos) b rest e = omega (arith, drop-le view pos b rest e)

slice_int :
    (n v : ℕ) (view : Bytes) (pos : ℕ) (rest : Bytes)
    → v < 256 ^ n
    → drop pos view ≡ to_bytes n v ++ rest
    → from_bytes (slice view pos n) ≡ v
slice_int n v view pos rest fits e =
    ap (λ (k : ℕ). from_bytes (slice view pos k)) (sym (length-to_bytes n v))
    ∙ ap from_bytes (slice-append view pos (to_bytes n v) rest e)
    ∙ from_bytes-to_bytes n v fits

-- A head of a major type for a number
pub record Head (major value : ℕ) (b : Bytes) : Type 0 where
  pub ai : ℕ
  pub tail : Bytes
  pub shape : b ≡ (major * 32 + ai) ∷ tail
  pub small : ai < 32
  pub reads :
      (view : Bytes) (pos : ℕ) (rest : Bytes)
      → drop pos view ≡ tail ++ rest
      → read_uint ai view pos ≡ ok (value, pos + length tail)

tiny : (major value : ℕ) → value < 24 → Head major value ((major * 32 + value) ∷ [])
unfolding read_uint
tiny major value h = record {
  ai = value;
  tail = [];
  shape = refl;
  small = omega arith;
  reads = λ view pos rest e. ground (arith);
}

one_byte : (major value : ℕ) → Head major value ((major * 32 + 24) ∷ value ∷ [])
unfolding read_uint
one_byte major value = record {
  ai = 24;
  tail = value ∷ [];
  shape = refl;
  small = omega arith;
  reads = λ view pos rest e. rw (get_elem?-drop view pos value rest e) refl;
}

wide :
    (n ai major value : ℕ)
    → ai < 32
    → value < 256 ^ n
    → ((view : Bytes) (pos : ℕ)
        → read_uint ai view pos ≡ ok (from_bytes (slice view pos n), pos + n))
    → Head major value ((major * 32 + ai) ∷ to_bytes n value)
wide n a major value small fits branch = record {
  ai = a;
  tail = to_bytes n value;
  shape = refl;
  small = small;
  reads = λ view pos rest e.
      branch view pos
      ∙ ap (λ (v : ℕ). ok (v, pos + n)) (slice_int n value view pos rest fits e)
      ∙ ap (λ (k : ℕ). ok (value, pos + k)) (sym (length-to_bytes n value));
}

two_bytes :
    (view : Bytes) (pos : ℕ) → read_uint 25 view pos ≡ ok (from_bytes (slice view pos 2), pos + 2)
unfolding read_uint
two_bytes view pos = refl

four_bytes :
    (view : Bytes) (pos : ℕ) → read_uint 26 view pos ≡ ok (from_bytes (slice view pos 4), pos + 4)
unfolding read_uint
four_bytes view pos = refl

eight_bytes :
    (view : Bytes) (pos : ℕ) → read_uint 27 view pos ≡ ok (from_bytes (slice view pos 8), pos + 8)
unfolding read_uint
eight_bytes view pos = refl

pub encode_uint-Head :
    (major value : ℕ) {b : Bytes} → encode_uint major value ≡ ok b → Head major value b
unfolding encode_uint
encode_uint-Head major value {b} e = elim (Bool-cases (ltb value 24)) [
  | inl small ↦
      subst (Head major value) (ok_value _ b (rw small at e)) (tiny major value (ltb→lt _ _ small))
  | inr over24 ↦ elim (Bool-cases (ltb value (2 ^ 8))) [
    | inl small ↦
        subst (Head major value) (ok_value _ b (rw (over24, small) at e)) (one_byte major value)
    | inr over8 ↦ elim (Bool-cases (ltb value (2 ^ 16))) [
      | inl small ↦
          subst (Head major value) (ok_value _ b (rw (over24, over8, small) at e))
            (wide 2 25 major value (omega arith) (ltb→lt _ _ small) two_bytes)
      | inr over16 ↦ elim (Bool-cases (ltb value (2 ^ 32))) [
        | inl small ↦
            subst (Head major value) (ok_value _ b (rw (over24, over8, over16, small) at e))
              (wide 4 26 major value (omega arith) (ltb→lt _ _ small) four_bytes)
        | inr over32 ↦ elim (Bool-cases (ltb value (2 ^ 64))) [
          | inl small ↦
              subst (Head major value)
                (ok_value _ b (rw (over24, over8, over16, over32, small) at e))
                (wide 8 27 major value (omega arith) (ltb→lt _ _ small) eight_bytes)
          | inr over64 ↦ absurd (cc (rw (over24, over8, over16, over32, over64) at e))
        ]
      ]
    ]
  ]
]
