-- ===== src/Stc/Vc/Names.antt =====
-- The files of a chunk archive: each chunk is loaded under the name that it was stored under.
use capsule_tech.Common.{
  ℕ, zero, suc, ◌+◌, ◌-◌, ◌*◌, ◌/◌, ◌%◌, ◌<◌, ◌≡◌, refl, sym, ap, ◌∙◌, inl, inr, false, some, List,
  [], ◌∷◌, ◌++◌, map, leb, ltb, Bool-cases, leb→gt, if◌then◌else◌, get_elem?, drop, ok, arith,
}
use mathlib.Core.List.{append_assoc}
use mathlib.Core.Option.{some-injective}
use capsule_tech.Common.Bytes.{Bytes, bytes_eq, bytes_eq→eq, bytes_eq_refl}
use capsule_tech.Common.Field.{modulus}
use capsule_tech.Stc.Vc.{decimal, chunk_name, written, load_chunk}

-- The number that digits spell, behind one that is read already, up to a byte that is none
read : ℕ → Bytes → ℕ
read acc [] = acc
read acc (b ∷ bs) = let rest = read (acc * 10 + (b - 48)) bs in if ltb b 48 then acc else rest

read-decimal :
    (fuel n : ℕ) (rest : Bytes) → n < fuel → read 0 (decimal fuel n ++ rest) ≡ read n rest
unfolding read decimal
read-decimal zero n rest lt = absurd (omega arith)
read-decimal (suc fuel) n rest lt = elim (Bool-cases (leb 10 n)) [
  | inl more ↦
      let digit : ltb (48 + n % 10) 48 ≡ false = ground arith in
      let again : n / 10 * 10 + (48 + n % 10 - 48) ≡ n = omega arith in
      rw (more, append_assoc (decimal fuel (n / 10)) ((48 + n % 10) ∷ []) rest)
        (read-decimal fuel (n / 10) ((48 + n % 10) ∷ rest) (ground (arith, more))
          ∙ rw (digit, again) refl)
  | inr one ↦
      let digit : ltb (48 + n % 10) 48 ≡ false = ground arith in
      let small : 0 * 10 + (48 + n % 10 - 48) ≡ n = (let lt' = leb→gt 10 n one in omega arith) in
      rw (one) (rw (digit, small) refl)
]

-- The index in a name
index_in : Bytes → ℕ
index_in name = read 0 (drop 6 name)

index_in-chunk_name : (i : ℕ) → index_in (chunk_name i) ≡ i
unfolding index_in chunk_name read
index_in-chunk_name i = read-decimal (suc i) i (46 ∷ 106 ∷ 115 ∷ 111 ∷ 110 ∷ []) (omega arith)

other_name : (i j : ℕ) → i < j → bytes_eq (chunk_name i) (chunk_name j) ≡ false
other_name i j lt = elim (Bool-cases (bytes_eq (chunk_name i) (chunk_name j))) [
  | inr other ↦ other
  | inl same ↦
      let e : i ≡ j =
        sym (index_in-chunk_name i)
        ∙ ap index_in (bytes_eq→eq (chunk_name i) (chunk_name j) same)
        ∙ index_in-chunk_name j in
      absurd (omega arith)
]

pub load_chunk-written :
    (index : ℕ) (chunks : List (List ℕ)) (k : ℕ) (c : List ℕ)
    → get_elem? chunks k ≡ some c
    → load_chunk (written index chunks) (chunk_name (index + k)) ≡ ok (map (λ v. v % modulus) c)
unfolding load_chunk written
load_chunk-written index [] k c e = absurd (cc)
load_chunk-written index (d ∷ chunks) zero c e =
    let place : index + 0 ≡ index = omega arith in
    rw (place, bytes_eq_refl (chunk_name index))
      (ap (λ (x : List ℕ). ok (map (λ v. v % modulus) x)) (some-injective d c e))
load_chunk-written index (d ∷ chunks) (suc k) c e =
    let place : index + suc k ≡ index + 1 + k = omega arith in
    rw (other_name index (index + suc k) (omega arith), place)
      (load_chunk-written (index + 1) chunks k c e)
