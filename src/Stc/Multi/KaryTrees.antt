-- ===== src/Stc/Multi/KaryTrees.antt =====
-- Multiproofs of the k-ary trees that bef_zk/stc/merkle.py builds. A lone last node goes up unhashed
-- there, while the verifier of a multiproof hashes every group.
use capsule_tech.Common.{
  Bool, true, not, ◌&&◌, if◌then◌else◌, leb, gt→leb, ==_iff, &&_parts, ℕ, zero, suc, ◌+◌, ◌-◌, ◌*◌,
  ◌%◌, ◌≤◌, ◌<◌, ◌≡◌, ◌≢◌, sym, ap, subst, ◌∙◌, ltb, ◌==◌, lt→ltb, ge→ltb, ltb→ge, List, [], ◌∷◌,
  length, All, ok, ok_value, value_error, ◌>>=◌, >>=-eq-ok, raise_if-eq-ok, arith,
}
use native.Mathlib.Nat.{mul-add-mod_self_right, mod-eq_of_lt, div-lt_self}
use native.Mathlib.Decide.{dec_lt}
use capsule_tech.Common.Bytes.{Bytes, Sha}
use capsule_tech.Stc.Merkle.{Levels, hash_children}
use capsule_tech.Stc.Kary.{build_kary_above, build_kary_levels}
use capsule_tech.Stc.Kary.Group.{picked, or_empty}
use capsule_tech.Stc.Kary.Blocks.{hash_block_many}
use capsule_tech.Stc.Kary.Above.{ceil_div_pred, Next, Next-level, ceil_div}
use capsule_tech.Stc.Multi.Layers.{Parents}
use capsule_tech.Stc.Multi.Whole.{Regular}
use capsule_tech.Stc.Multi.Trees.{Accepted, Regular-Accepted}

-- No level below the root has a last group of one node.
abbrev pub NoLone : ℕ → Levels → Type 0
NoLone arity [] = Unit
NoLone arity (level ∷ []) = Unit
NoLone arity (level ∷ up ∷ above) = (length level % arity ≢ 1) × NoLone arity (up ∷ above)

module _ (h : Sha) (arity : ℕ) (two : 2 ≤ arity) where
  not_lone : (g size : ℕ) → size % arity ≢ 1 → g * arity < size → g * arity + 1 < size
  not_lone g size no_lone lt = elim (dec_lt (g * arity + 1) size) [
    | yes more ↦ more
    | no last ↦
        let e : size ≡ g * arity + 1 = omega arith in
        let one : (g * arity + 1) % arity ≡ 1 =
          mul-add-mod_self_right g arity 1 ∙ mod-eq_of_lt (omega arith) in
        absurd (no_lone (ap (λ (k : ℕ). k % arity) e ∙ one))
  ]

  Parents-Next :
      (level : List Bytes)
      → (n : Next h arity two (length level) level) → length level % arity ≢ 1
      → Parents h arity level n.nodes
  Parents-Next level n no_lone g lt =
      let (node, block, there) = n.at_block g lt in
      let many =
        hash_block_many h arity two (g * arity) level (not_lone g (length level) no_lone lt) in
      ok_value (hash_children h (picked arity (g * arity) level)) node (sym many ∙ block)
      ∙ sym (ap or_empty there)

  record Above (rounds : ℕ) (level : List Bytes) (above : Levels) (n : List Bytes) : Type 0 where
    rest : Levels
    runs : build_kary_above h arity rounds n ≡ ok rest
    same : n ∷ rest ≡ above

  build_kary_above_more :
      (rounds : ℕ) (level : List Bytes) (above : Levels)
      → (n : Next h arity two (length level) level) → 1 < length level
      → build_kary_above h arity (suc rounds) level ≡ ok above
      → Above rounds level above n.nodes
  unfolding build_kary_above
  build_kary_above_more rounds level above n more built =
      let once : (build_kary_above h arity rounds n.nodes >>= λ rest. ok (n.nodes ∷ rest))
          ≡ ok above =
        rw (lt→ltb 1 (length level) more, build_kary_above, n.runs) at built in
      let (rest, runs, same) = >>=-eq-ok (build_kary_above h arity rounds n.nodes) _ once in
      record { rest = rest; runs = runs; same = ok_value (n.nodes ∷ rest) above same }

  build_kary_above_done :
      (rounds : ℕ) (level : List Bytes) (above : Levels)
      → length level ≤ 1
      → build_kary_above h arity (suc rounds) level ≡ ok above
      → [] ≡ above
  unfolding build_kary_above
  build_kary_above_done rounds level above done built =
      ok_value [] above (rw (ge→ltb 1 (length level) done, build_kary_above) at built)

  Regular-kary :
      (rounds : ℕ) (level : List Bytes) (above : Levels)
      → 1 ≤ length level
      → length level ≤ rounds
      → build_kary_above h arity rounds level ≡ ok above
      → NoLone arity (level ∷ above)
      → Regular h arity (level ∷ above)
  Regular-kary zero level above p q built no_lone = absurd (omega arith)
  Regular-kary (suc rounds) level above p q built no_lone = elim (dec_lt 1 (length level)) [
    | no done ↦
        subst (λ (a : Levels). Regular h arity (level ∷ a))
          (build_kary_above_done rounds level above (omega arith) built) (omega arith)
    | yes more ↦
        let n = Next-level h arity two (length level) level (omega arith) in
        let a = build_kary_above_more rounds level above n more built in
        let count = ceil_div_pred (length level) arity (omega arith) (omega arith) in
        let fewer = div-lt_self {n = length level - 1} {k = arity} (omega arith) (omega arith) in
        let size = n.count in
        let (lone, later) = subst (λ (x : Levels). NoLone arity (level ∷ x)) (sym a.same) no_lone in
        subst (λ (x : Levels). Regular h arity (level ∷ x)) a.same
          (
            Parents-Next level n lone,
            omega (arith, size, count),
            Regular-kary rounds n.nodes a.rest (omega (arith, size, count))
                (omega (arith, size, count, fewer)) a.runs later,
          )
  ]

-- Whether a tree over so many leaves has no lone last node below its root, with fuel for the levels
unfoldable pub fair : ℕ → ℕ → ℕ → Bool
fair zero arity size = true
fair (suc fuel) arity size =
    let above = fair fuel arity (ceil_div size arity) in
    if leb size 1 then true else not (size % arity == 1) && above

module _ (h : Sha) (arity : ℕ) (two : 2 ≤ arity) where
  NoLone-above :
      (rounds : ℕ) (level : List Bytes) (above : Levels)
      → 1 ≤ length level
      → length level ≤ rounds
      → build_kary_above h arity rounds level ≡ ok above
      → fair rounds arity (length level) ≡ true
      → NoLone arity (level ∷ above)
  unfolding fair
  NoLone-above zero level above p q built f = absurd (omega arith)
  NoLone-above (suc rounds) level above p q built f = elim (dec_lt 1 (length level)) [
    | no done ↦
        subst (λ (a : Levels). NoLone arity (level ∷ a))
          (build_kary_above_done h arity two rounds level above (omega arith) built) tt
    | yes more ↦
        let n = Next-level h arity two (length level) level (omega arith) in
        let a = build_kary_above_more h arity two rounds level above n more built in
        let count = ceil_div_pred (length level) arity (omega arith) (omega arith) in
        let fewer = div-lt_self {n = length level - 1} {k = arity} (omega arith) (omega arith) in
        let size = n.count in
        let (here, later) =
          &&_parts (not (length level % arity == 1))
            (fair rounds arity (ceil_div (length level) arity))
            (rw (gt→leb (length level) 1 more, fair) at f) in
        subst (λ (x : Levels). NoLone arity (level ∷ x)) a.same
          (
            not_one (length level % arity) here,
            NoLone-above rounds n.nodes a.rest (omega (arith, size, count))
                (omega (arith, size, count, fewer)) a.runs
                (ap (λ (k : ℕ). fair rounds arity k) size ∙ later),
          )
  ]
    where
      not_one : (k : ℕ) → not (k == 1) ≡ true → k ≢ 1
      not_one k e z = let same = (==_iff k 1).1 z in cc

  pub build_kary_levels-NoLone :
      (leaves : List Bytes) (tree : Levels)
      → build_kary_levels h arity leaves ≡ ok tree
      → fair (length leaves) arity (length leaves) ≡ true
      → NoLone arity tree
  unfolding build_kary_levels
  build_kary_levels-NoLone leaves tree built f =
      let (wide, built') = raise_if-eq-ok (ltb arity 2) value_error _ built in
      let (some_leaf, built'') = raise_if-eq-ok (length leaves == 0) value_error _ built' in
      let (above, runs, same) =
        >>=-eq-ok (build_kary_above h arity (length leaves) leaves) _ built'' in
      subst (NoLone arity) (ok_value (leaves ∷ above) tree same)
        (NoLone-above (length leaves) leaves above (ground (arith, some_leaf)) (omega arith) runs f)

-- A multiproof of a k-ary tree of arity at least 2 that has no lone last node below its root, for leaves
-- in any order and with repeats, of which there is at least one and all are in range: the prover makes
-- it, and the verifier accepts it with these leaves for the root of the tree.
pub verify_multiproof-build_kary_levels :
    (h : Sha) (arity : ℕ) (leaves : List Bytes) (tree : Levels) (indices : List ℕ)
    → build_kary_levels h arity leaves ≡ ok tree
    → NoLone arity tree
    → indices ≢ []
    → All (λ (i : ℕ). i < length leaves) indices
    → Accepted h arity tree leaves indices
unfolding build_kary_levels
verify_multiproof-build_kary_levels h arity leaves tree indices built no_lone some_index inside =
    let (wide, built') = raise_if-eq-ok (ltb arity 2) value_error _ built in
    let (some_leaf, built'') = raise_if-eq-ok (length leaves == 0) value_error _ built' in
    let two : 2 ≤ arity = ltb→ge arity 2 wide in
    let (above, runs, same) =
      >>=-eq-ok (build_kary_above h arity (length leaves) leaves) _ built'' in
    let is_tree : leaves ∷ above ≡ tree = ok_value (leaves ∷ above) tree same in
    subst (λ (t : Levels). Accepted h arity t leaves indices) is_tree
      (Regular-Accepted h arity leaves above indices (omega arith)
        (Regular-kary h arity two (length leaves) leaves above (ground (arith, some_leaf))
          (omega arith) runs (subst (NoLone arity) (sym is_tree) no_lone))
        some_index inside)
