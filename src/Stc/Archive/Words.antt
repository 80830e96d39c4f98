-- ===== src/Stc/Archive/Words.antt =====
-- The words of an archive's files are read back, and its index passes the checks.
use mathlib.Core.List.{append_assoc}
use capsule_tech.Common.{
  ℕ, zero, suc, ◌+◌, ◌*◌, ◌^◌, ◌<◌, ◌≤◌, ◌≡◌, refl, sym, ap, ◌∙◌, some, List, [], ◌∷◌, ◌++◌, length,
  length-append, get_elem?, take, drop, drop-add, take-append, drop-append, All, ge→ltb, ==_refl,
  ok, arith,
}
use capsule_tech.Common.Bytes.{
  Bytes, to_little, from_little, length-to_little, from_little-to_little,
}
use capsule_tech.Stc.Archive.{read_index, words, unpack}
use capsule_tech.Stc.Archive.Holds.{chunk_bytes, body, offsets, index_bytes, total, Storable}

pub take-to_little : (n v : ℕ) (rest : Bytes) → take n (to_little n v ++ rest) ≡ to_little n v
take-to_little n v rest =
    ap (λ (k : ℕ). take k (to_little n v ++ rest)) (sym (length-to_little n v))
    ∙ take-append (to_little n v) rest

pub drop-to_little : (n v : ℕ) (rest : Bytes) → drop n (to_little n v ++ rest) ≡ rest
drop-to_little n v rest =
    ap (λ (k : ℕ). drop k (to_little n v ++ rest)) (sym (length-to_little n v))
    ∙ drop-append (to_little n v) rest

-- The first word is read back.
pub first_word :
    (n v : ℕ) (rest : Bytes) → v < 256 ^ n → from_little (take n (to_little n v ++ rest)) ≡ v
first_word n v rest h = rw (take-to_little n v rest) (from_little-to_little n v h)

pub length-chunk_bytes : (c : List ℕ) → length (chunk_bytes c) ≡ length c * 8
length-chunk_bytes [] = omega arith
length-chunk_bytes (v ∷ vs) = omega (
  arith,
  length-append (to_little 8 v) (chunk_bytes vs),
  length-to_little 8 v,
  length-chunk_bytes vs,
)

pub length-body : (cs : List (List ℕ)) → length (body cs) ≡ total cs * 8
length-body [] = omega arith
length-body (c ∷ cs) =
    omega (arith, length-append (chunk_bytes c) (body cs), length-chunk_bytes c, length-body cs)

pub length-index_bytes : (xs : List (ℕ × ℕ)) → length (index_bytes xs) ≡ length xs * 12
length-index_bytes [] = omega arith
length-index_bytes ((o, n) ∷ xs) = omega (
  arith,
  length-append (to_little 8 o ++ to_little 4 n) (index_bytes xs),
  length-append (to_little 8 o) (to_little 4 n),
  length-to_little 8 o,
  length-to_little 4 n,
  length-index_bytes xs,
)

pub length-offsets : (from : ℕ) (cs : List (List ℕ)) → length (offsets from cs) ≡ length cs
length-offsets from [] = refl
length-offsets from (c ∷ cs) = ap suc (length-offsets (from + length c * 8) cs)

pub words-chunk_bytes :
    (c : List ℕ) → All (λ (v : ℕ). v < 2 ^ 64) c → words (length c) (chunk_bytes c) ≡ c
unfolding words
words-chunk_bytes [] h = refl
words-chunk_bytes (v ∷ vs) h =
    rw
      (
        first_word 8 v (chunk_bytes vs) (omega arith),
        drop-to_little 8 v (chunk_bytes vs),
        words-chunk_bytes vs h.1,
      )
      refl

pub unpack-chunk_bytes :
    (c : List ℕ) → All (λ (v : ℕ). v < 2 ^ 64) c → unpack (length c) (chunk_bytes c) ≡ ok c
unfolding unpack
unpack-chunk_bytes c h =
    rw (length-chunk_bytes c, ==_refl (length c * 8), words-chunk_bytes c h) refl

-- The index that was written passes the checks.
pub read_index-index_bytes :
    (limit from : ℕ) (cs : List (List ℕ))
    → All Storable cs
    → from + total cs * 8 ≤ limit
    → limit < 2 ^ 64
    → read_index limit (length cs) from (index_bytes (offsets from cs)) ≡ ok (offsets from cs)
unfolding read_index
read_index-index_bytes limit from [] s room small = refl
read_index-index_bytes limit from (c ∷ cs) s room small =
    let rest = index_bytes (offsets (from + length c * 8) cs) in
    let size = s.0.size in
    let tail : drop 12 ((to_little 8 from ++ to_little 4 (length c)) ++ rest) ≡ rest =
      sym (drop-add 8 4 ((to_little 8 from ++ to_little 4 (length c)) ++ rest))
      ∙ ap (drop 4) (
          ap (drop 8) (append_assoc (to_little 8 from) (to_little 4 (length c)) rest)
          ∙ drop-to_little 8 from (to_little 4 (length c) ++ rest))
      ∙ drop-to_little 4 (length c) rest in
    let read_offset : from_little (take 8 ((to_little 8 from ++ to_little 4 (length c)) ++ rest))
        ≡ from =
      ap (λ x. from_little (take 8 x))
        (append_assoc (to_little 8 from) (to_little 4 (length c)) rest)
      ∙ first_word 8 from (to_little 4 (length c) ++ rest) (omega arith) in
    let read_size : from_little
          (take 4 (drop 8 ((to_little 8 from ++ to_little 4 (length c)) ++ rest)))
        ≡ length c =
      ap (λ x. from_little (take 4 (drop 8 x)))
        (append_assoc (to_little 8 from) (to_little 4 (length c)) rest)
      ∙ ap (λ x. from_little (take 4 x)) (drop-to_little 8 from (to_little 4 (length c) ++ rest))
      ∙ first_word 4 (length c) rest (omega (arith, size)) in
    rw
      (
        read_offset,
        read_size,
        tail,
        ge→ltb from from (omega arith),
        ge→ltb limit (from + length c * 8) (omega arith),
        ge→ltb 16000000 (length c) (omega (arith, size)),
        read_index-index_bytes limit (from + length c * 8) cs s.1 (omega arith) small,
      )
      refl

-- Where the index says, the chunk's bytes stand.
pub chunk_at :
    (view : Bytes) (from : ℕ) (cs : List (List ℕ)) (i : ℕ) {c : List ℕ}
    → drop from view ≡ body cs
    → get_elem? cs i ≡ some c
    → (o : ℕ) × (get_elem? (offsets from cs) i ≡ some (o, length c))
      × (take (length c * 8) (drop o view) ≡ chunk_bytes c)
chunk_at view from [] i at e = absurd (cc)
chunk_at view from (d ∷ cs) zero {c} at e =
    let same : d ≡ c = cc in
    (
      from,
      (rw same refl),
      rw at (rw (← length-chunk_bytes c, ← same) (take-append (chunk_bytes d) (body cs))),
    )
chunk_at view from (d ∷ cs) (suc i) at e =
    chunk_at view (from + length d * 8) cs i
      (sym (drop-add from (length d * 8) view)
        ∙ ap (drop (length d * 8)) at
        ∙ ap (λ (k : ℕ). drop k (chunk_bytes d ++ body cs)) (sym (length-chunk_bytes d))
        ∙ drop-append (chunk_bytes d) (body cs))
      e
