-- ===== src/Stc/Kary/Blocks.antt =====
-- The blocks of a level of bef_zk/stc/merkle.py's k-ary tree against the children of a group.
use capsule_tech.Common.{
  ℕ, zero, suc, ◌+◌, ◌-◌, ◌<◌, ◌≤◌, ◌≡◌, ◌⊎◌, inl, inr, refl, sym, ap, ◌∙◌, List, [], ◌∷◌, ◌++◌,
  length, length-take, length-drop, take, drop, replicate, ok, arith,
}
use native.Mathlib.Decide.{dec_lt}
use capsule_tech.Common.Bytes.{Bytes, Sha}
use capsule_tech.Stc.Merkle.{hash_children}
use capsule_tech.Stc.Kary.{last_of, pad_block, hash_block}
use capsule_tech.Stc.Kary.Group.{node_at, picked, clamp_below, clamp_beyond}

drop-node_at :
    (pos : ℕ) (level : List Bytes)
    → pos < length level
    → drop pos level ≡ node_at level pos ∷ drop (pos + 1) level
drop-node_at pos [] lt = absurd (omega arith)
drop-node_at zero (d ∷ level) lt = refl
drop-node_at (suc pos) (d ∷ level) lt =
    let e : suc pos + 1 ≡ suc (pos + 1) = omega arith in
    drop-node_at pos level (omega arith)
    ∙ ap (λ (k : ℕ). node_at level pos ∷ drop k (d ∷ level)) (sym e)

drop_beyond : (pos : ℕ) (level : List Bytes) → length level ≤ pos → drop pos level ≡ []
drop_beyond zero [] le = refl
drop_beyond zero (d ∷ level) le = absurd (omega arith)
drop_beyond (suc pos) [] le = refl
drop_beyond (suc pos) (d ∷ level) le = drop_beyond pos level (omega arith)

node_at-drop :
    (pos i : ℕ) (level : List Bytes) → node_at (drop pos level) i ≡ node_at level (pos + i)
node_at-drop zero i level = ap (node_at level) (omega arith)
node_at-drop (suc pos) i [] = refl
node_at-drop (suc pos) i (d ∷ level) =
    let e : suc pos + i ≡ suc (pos + i) = omega arith in
    node_at-drop pos i level ∙ sym (ap (node_at (d ∷ level)) e)

picked_beyond :
    (left pos : ℕ) (level : List Bytes)
    → length level ≤ pos
    → picked left pos level ≡ replicate left (node_at level (length level - 1))
picked_beyond zero pos level le = refl
picked_beyond (suc left) pos level le =
    rw (clamp_beyond (length level) pos le, picked_beyond left (pos + 1) level (omega arith)) refl

-- A group's children: the block, and its level's last node as often as places are left.
picked_block :
    (left pos : ℕ) (level : List Bytes)
    → pos ≤ length level
    → picked left pos level
      ≡ take left (drop pos level)
        ++ replicate (left - (length level - pos)) (node_at level (length level - 1))
picked_block zero pos level le =
    let none_left : 0 - (length level - pos) ≡ 0 = omega arith in rw none_left refl
picked_block (suc left) pos level le = elim (dec_lt pos (length level)) [
  | yes lt ↦
      let less : suc left - (length level - pos) ≡ left - (length level - (pos + 1)) =
        omega arith in
      rw (drop-node_at pos level lt, clamp_below (length level) pos lt, less)
        (ap (λ l. node_at level pos ∷ l) (picked_block left (pos + 1) level (omega arith)))
  | no ge ↦
      let all : suc left - (length level - pos) ≡ suc left = omega arith in
      picked_beyond (suc left) pos level (omega arith)
      ∙ rw (drop_beyond pos level (omega arith), all) refl
]

last_of-eq-node_at :
    (d : Bytes) (block : List Bytes) → last_of d block ≡ node_at (d ∷ block) (length block)
last_of-eq-node_at d [] = refl
last_of-eq-node_at d (e ∷ block) = last_of-eq-node_at e block

take_all : (n : ℕ) (xs : List Bytes) → length xs ≤ n → take n xs ≡ xs
take_all zero [] le = refl
take_all zero (x ∷ xs) le = absurd (omega arith)
take_all (suc n) [] le = refl
take_all (suc n) (x ∷ xs) le = ap (λ l. x ∷ l) (take_all n xs (omega arith))

-- The block at `pos`, padded with its last node, is the group's children.
pad_block-eq-picked :
    (arity pos : ℕ) (level block : List Bytes) (d : Bytes)
    → pos < length level
    → take arity (drop pos level) ≡ d ∷ block
    → pad_block arity d block ≡ picked arity pos level
pad_block-eq-picked arity pos level block d lt e =
    let n = length level in
    let count = ap (length {A = Bytes}) e in
    let t = length-take arity (drop pos level) in
    let s = length-drop pos level in
    let spare : arity - length (d ∷ block) ≡ arity - (n - pos) = omega arith in
    sym (
      picked_block arity pos level (omega arith)
      ∙ ap (λ (l : List Bytes). l ++ replicate (arity - (n - pos)) (node_at level (n - 1))) e
      ∙ ap (λ (k : ℕ). (d ∷ block) ++ replicate k (node_at level (n - 1))) (sym spare)
      ∙ same_tail (arity - length (d ∷ block)) (elim (dec_lt (length (d ∷ block)) arity) [
        | yes short ↦
            let whole = take_all arity (drop pos level) (omega arith) in
            inr (
              last_of-eq-node_at d block
              ∙ ap (λ (l : List Bytes). node_at l (length block)) (sym e ∙ whole)
              ∙ node_at-drop pos (length block) level
              ∙ ap (node_at level) (omega arith))
        | no full ↦ inl (omega arith)
      ]))
  where
    same_tail :
        (spare : ℕ)
        → (spare ≡ 0) ⊎ (last_of d block ≡ node_at level (length level - 1))
        → (d ∷ block) ++ replicate spare (node_at level (length level - 1))
          ≡ (d ∷ block) ++ replicate spare (last_of d block)
    same_tail spare (inl z) = rw z refl
    same_tail spare (inr e) = rw e refl

-- Where two nodes or more are left, a block is hashed with its padding; a lone node goes up as it is.
module _ (h : Sha) (arity : ℕ) (two : 2 ≤ arity) (pos : ℕ) (level : List Bytes) where
  pub hash_block_many :
      pos + 1 < length level
      → hash_block h arity (take arity (drop pos level))
        ≡ ok (hash_children h (picked arity pos level))
  unfolding hash_block
  hash_block_many more = by_block (take arity (drop pos level)) refl
    where
      by_block :
          (block : List Bytes)
          → take arity (drop pos level) ≡ block
          → hash_block h arity block ≡ ok (hash_children h (picked arity pos level))
      by_block [] e =
          let count = ap (length {A = Bytes}) e in
          let t = length-take arity (drop pos level) in
          let s = length-drop pos level in absurd (omega arith)
      by_block (d ∷ []) e =
          let count = ap (length {A = Bytes}) e in
          let t = length-take arity (drop pos level) in
          let s = length-drop pos level in absurd (omega arith)
      by_block (d ∷ c ∷ block) e =
          ap (λ (l : List Bytes). ok (hash_children h l))
            (pad_block-eq-picked arity pos level (c ∷ block) d (omega arith) e)

  pub hash_block_lone :
      pos + 1 ≡ length level
      → hash_block h arity (take arity (drop pos level)) ≡ ok (node_at level pos)
  unfolding hash_block
  hash_block_lone last =
      let rest = drop_beyond (pos + 1) level (omega arith) in
      let one =
        drop-node_at pos level (omega arith)
        ∙ ap (λ (l : List Bytes). node_at level pos ∷ l) rest in
      rw one (rw (take_all arity (node_at level pos ∷ []) (omega arith)) refl)
