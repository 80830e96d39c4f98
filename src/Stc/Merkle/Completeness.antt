-- ===== src/Stc/Merkle/Completeness.antt =====
-- What bef_zk/stc/merkle.py proves, it accepts: `prove` after `build_levels` against `verify`.
use capsule_tech.Common.{
  ℕ, zero, suc, ◌+◌, ◌/◌, ◌≤◌, ◌<◌, ◌≡◌, refl, ap, some, List, [], ◌∷◌, true, length, get_elem?,
  get_elem?-lt, gt→leb, ok, arith,
}
use capsule_tech.Common.Bytes.{Bytes, Sha, bytes_eq_refl}
use capsule_tech.Stc.Merkle.{
  Levels, root_from_levels, prove_from, prove, build_above, build_levels, fold_sibling, fold_proof,
  verify, pair_up,
}
use capsule_tech.Stc.Merkle.Depth.{length-pair_up, build_above_more, build_above_done}
use capsule_tech.Stc.Merkle.Opening.{Opens, level-Opens}
use mathlib.Core.Option.{some-injective}
use native.Mathlib.Nat.{le_refl}
use native.Mathlib.Decide.{dec_lt}

module _ (h : Sha) where
  -- An opening through the levels above `l`: the proof leads from `x` at `i` to the root.
  pub record Leads (levels : Levels) (i : ℕ) (x : Bytes) : Type 0 where
    pub proof : List Bytes
    pub root : Bytes
    pub proved : prove_from levels i ≡ ok proof
    pub rooted : root_from_levels levels ≡ ok root
    pub folded : fold_proof h x i proof ≡ root
    pub size : length proof + 1 ≡ length levels

  -- A level of one node is its own root.
  single-Leads :
      (l : List Bytes) (i : ℕ) (x : Bytes)
      → length l ≤ 1
      → get_elem? l i ≡ some x
      → Leads (l ∷ []) i x
  unfolding prove_from root_from_levels fold_proof
  single-Leads [] i x p e = absurd (cc)
  single-Leads (a ∷ b ∷ r) i x p e = absurd (omega arith)
  single-Leads (a ∷ []) (suc i) x p e = absurd (cc)
  single-Leads (a ∷ []) zero x p e = record {
    proof = [];
    root = x;
    proved = refl;
    rooted = ap ok (some-injective a x e);
    folded = refl;
    size = omega arith;
  }

  step-Leads :
      (l : List Bytes) (above : Levels) (i : ℕ) (x : Bytes) (o : Opens h l i x)
      → Leads (pair_up h l ∷ above) (i / 2) (fold_sibling h i x o.sibling)
      → Leads (l ∷ pair_up h l ∷ above) i x
  unfolding prove_from root_from_levels fold_proof
  step-Leads l above i x o t = record {
    proof = o.sibling ∷ t.proof;
    root = t.root;
    proved = rw (o.found, t.proved);
    rooted = t.rooted;
    folded = t.folded;
    size = let n = t.size in omega arith;
  }

  pub open_above :
      (rounds : ℕ) (l : List Bytes) (i : ℕ) (x : Bytes)
      → length l ≤ rounds
      → get_elem? l i ≡ some x
      → Leads (l ∷ build_above h rounds l) i x
  open_above zero [] i x p e = absurd (cc)
  open_above zero (a ∷ l) i x p e = absurd (omega arith)
  open_above (suc rounds) l i x p e = elim (dec_lt 1 (length l)) [
    | yes more ↦
        let o = level-Opens h l i x e in
        let size = length-pair_up h l in
        rw (build_above_more h rounds l more) (
          step-Leads l _ i x o (
            open_above rounds (pair_up h l) (i / 2) (fold_sibling h i x o.sibling) (omega arith)
              o.parent))
    | no done ↦ rw (build_above_done h rounds l (omega arith)) (single-Leads l i x (omega arith) e)
  ]

  pub build_levels-ok :
      (leaves : List Bytes) (levels : Levels)
      → build_levels h leaves ≡ ok levels
      → levels ≡ leaves ∷ build_above h (length leaves) leaves
  unfolding build_levels
  build_levels-ok [] levels b = absurd (cc)
  build_levels-ok (a ∷ l) levels b = ground arith

  -- For every leaf of a tree that `build_levels` makes, `prove` gives a proof, which `verify` accepts
  -- against the tree's root; its length is the number of levels less one.
  pub prove-verify :
      (leaves : List Bytes) (levels : Levels) (index : ℕ) (leaf : Bytes)
      → build_levels h leaves ≡ ok levels
      → get_elem? leaves index ≡ some leaf
      → (proof : List Bytes) × (root : Bytes) × (prove levels index ≡ ok proof)
        × (root_from_levels levels ≡ ok root)
        × (verify h root leaf index proof ≡ true)
        × (length proof + 1 ≡ length levels)
  unfolding prove verify
  prove-verify leaves levels index leaf b e =
      let levels_eq : levels ≡ leaves ∷ build_above h (length leaves) leaves =
        build_levels-ok leaves levels b in
      let t = open_above (length leaves) leaves index leaf (le_refl (length leaves)) e in
      let inside = gt→leb (length leaves) index (get_elem?-lt leaves index e) in
      rw levels_eq
        (t.proof, t.root, rw inside t.proved, t.rooted, rw t.folded (bytes_eq_refl t.root), t.size)

  build_levels_cons :
      (a : Bytes) (l : List Bytes)
      → build_levels h (a ∷ l) ≡ ok ((a ∷ l) ∷ build_above h (length (a ∷ l)) (a ∷ l))
  unfolding build_levels
  build_levels_cons a l = ground arith

  -- Leaves have a tree, and the tree has a root.
  pub build_levels_total :
      (leaves : List Bytes)
      → 0 < length leaves
      → (levels : Levels) × (root : Bytes) × (build_levels h leaves ≡ ok levels)
        × (root_from_levels levels ≡ ok root)
  build_levels_total [] p = elim p [ ]
  build_levels_total (a ∷ l) p =
      let t = open_above (length (a ∷ l)) (a ∷ l) 0 a (le_refl (length (a ∷ l))) refl in
      ((a ∷ l) ∷ build_above h (length (a ∷ l)) (a ∷ l), t.root, build_levels_cons a l, t.rooted)
