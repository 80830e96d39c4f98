-- ===== src/Stc/Multi/Trees.antt =====
-- Multiproofs of the trees that bef_zk/stc/merkle.py builds, from any list of leaf indices on.
use capsule_tech.Common.{
  ℕ, zero, suc, ◌+◌, ◌*◌, ◌≤◌, ◌<◌, ◌≡◌, ◌≢◌, refl, sym, ap, ◌∙◌, ◌⊎◌, inl, inr, Bool, true, false,
  ◌||◌, some, List, [], ◌∷◌, map, length-map, ==_iff, ==_refl, ◌==◌, Bool-cases, if◌then◌else◌,
  gt→leb, length, All, ok, subst, arith,
}
use native.Mathlib.Decide.{dec_lt}
use capsule_tech.Common.Dict.{Dict, get, put, get-put}
use capsule_tech.Common.Bytes.{Bytes, Sha, bytes_eq_refl}
use capsule_tech.Stc.Vector.{MerkleMultiProof}
use capsule_tech.Stc.Merkle.{
  Levels, root_from_levels, hash_children, hash_pair, pair_up, build_above, build_levels,
}
use capsule_tech.Stc.Merkle.Depth.{length-pair_up, build_above_more, build_above_done}
use capsule_tech.Stc.Merkle.Completeness.{build_levels-ok}
use capsule_tech.Stc.Kary.{clamp}
use capsule_tech.Stc.Kary.Group.{node_at, picked, clamp_below, clamp_beyond}
use capsule_tech.Stc.Multi.{
  mem, sorted_set, any_beyond, multiproof, zip_nodes, is_root, verify_multiproof,
}
use capsule_tech.Stc.Multi.Shown.{Agrees}
use capsule_tech.Stc.Multi.Sets.{sorted_set-Ascending, mem-sorted_set}
use capsule_tech.Stc.Multi.Layers.{Parents}
use capsule_tech.Stc.Multi.Whole.{Regular, checked}

-- The leaves at a list of indices
abbrev pub leaves_at : List Bytes → List ℕ → List Bytes
leaves_at leaves indices = map (node_at leaves) indices

pub get-zip_nodes :
    (leaves : List Bytes) (indices : List ℕ) (made : Dict Bytes) (p : ℕ)
    → get (zip_nodes indices (leaves_at leaves indices) made) p
      ≡ (if mem p indices then some (node_at leaves p) else get made p)
unfolding zip_nodes mem
get-zip_nodes leaves [] made p = refl
get-zip_nodes leaves (i ∷ is) made p =
    get-zip_nodes leaves is (put made i (node_at leaves i)) p
    ∙ rw (get-put made i p (node_at leaves i)) (later (mem p is) (Bool-cases (i == p)))
  where
    later :
        (isin : Bool)
        → (i == p ≡ true) ⊎ (i == p ≡ false)
        → (if isin
            then some (node_at leaves p)
            else (if i == p then some (node_at leaves i) else get made p))
          ≡ (if (i == p) || isin then some (node_at leaves p) else get made p)
    later true (inl e) = rw e refl
    later true (inr e) = rw e refl
    later false (inl e) = rw e (ap (λ (k : ℕ). some (node_at leaves k)) ((==_iff i p).0 e))
    later false (inr e) = rw e refl

pub mem-All :
    (size : ℕ) (xs : List ℕ) (i : ℕ) → All (λ (j : ℕ). j < size) xs → mem i xs ≡ true → i < size
unfolding mem
mem-All size [] i all isin = absurd (cc)
mem-All size (x ∷ xs) i (low, all) isin = elim (Bool-cases (x == i)) [
  | inl e ↦ rw (← (==_iff x i).0 e) low
  | inr other ↦ mem-All size xs i all (rw other at isin)
]

none_beyond :
    (size : ℕ) (xs : List ℕ) → ((i : ℕ) → mem i xs ≡ true → i < size) → any_beyond size xs ≡ false
unfolding any_beyond mem
none_beyond size [] low = refl
none_beyond size (x ∷ xs) low =
    rw (gt→leb size x (low x (rw (==_refl x) refl)))
      (none_beyond size xs (λ i isin. low i (rw isin (ground arith))))

pub sorted_set-ne : (indices : List ℕ) → indices ≢ [] → sorted_set [] indices ≢ []
unfolding mem
sorted_set-ne [] some_index z = some_index refl
sorted_set-ne (x ∷ xs) some_index z =
    let isin : mem x (sorted_set [] (x ∷ xs)) ≡ true =
      mem-sorted_set [] (x ∷ xs) x ∙ rw (==_refl x) refl in
    let gone : mem x [] ≡ true = rw z at isin in absurd (cc)

is_root_of :
    (top : Dict Bytes) (root : Bytes) → get top 0 ≡ some root → is_root (some top) root ≡ true
is_root_of top root e = rw (e, is_root) (bytes_eq_refl root)

-- The verifier accepts what the prover makes of a list of leaves, in any order and with repeats.
abbrev pub Accepted : Sha → ℕ → Levels → List Bytes → List ℕ → Type 0
Accepted h arity tree leaves indices =
    (root : Bytes) × (proof : MerkleMultiProof) × (root_from_levels tree ≡ ok root)
    × (multiproof tree indices arity ≡ ok proof)
    × (verify_multiproof h root (leaves_at leaves indices) indices proof ≡ ok true)

pub Regular-Accepted :
    (h : Sha) (arity : ℕ) (leaves : List Bytes) (above : Levels) (indices : List ℕ)
    → 0 < arity
    → Regular h arity (leaves ∷ above)
    → indices ≢ []
    → All (λ (i : ℕ). i < length leaves) indices
    → Accepted h arity (leaves ∷ above) leaves indices
unfolding multiproof verify_multiproof mem
Regular-Accepted h arity leaves above indices pos regular some_index inside =
    let same : (i : ℕ) → mem i (sorted_set [] indices) ≡ mem i indices =
      λ i. mem-sorted_set [] indices i in
    let low : (i : ℕ) → mem i (sorted_set [] indices) ≡ true → i < length leaves =
      λ i isin. mem-All (length leaves) indices i inside (sym (same i) ∙ isin) in
    let agrees : Agrees leaves (sorted_set [] indices)
        (zip_nodes indices (leaves_at leaves indices) []) =
      λ p. get-zip_nodes leaves indices [] p ∙ rw (same p) refl in
    let c =
      checked h arity pos leaves above (sorted_set [] indices)
        (zip_nodes indices (leaves_at leaves indices) []) regular agrees
        (sorted_set-Ascending [] indices tt) (sorted_set-ne indices some_index) low in
    (
      c.root,
      record { tree_size = length leaves; arity = arity; sibling_levels = c.levels },
      c.rooted,
      rw (none_beyond (length leaves) (sorted_set [] indices) low) (rw c.runs refl),
      rw (length-map (node_at leaves) indices, ==_refl (length indices))
          (rw c.checks (ap ok (is_root_of c.top c.root c.at_root))),
    )

-- The binary tree
module _ (h : Sha) where
  later_node :
      (a b : Bytes) (r : List Bytes) (k : ℕ) → node_at (a ∷ b ∷ r) (suc (suc k)) ≡ node_at r k
  later_node a b r k = refl

  clamp_later : (n k : ℕ) → 0 < n → clamp (suc (suc n)) (suc (suc k)) ≡ suc (suc (clamp n k))
  clamp_later n k some_node = elim (dec_lt k n) [
    | yes lt ↦
        clamp_below (suc (suc n)) (suc (suc k)) (omega arith)
        ∙ ap (λ (j : ℕ). suc (suc j)) (sym (clamp_below n k lt))
    | no ge ↦
        clamp_beyond (suc (suc n)) (suc (suc k)) (omega arith)
        ∙ (let e = clamp_beyond n k (omega arith) in omega (arith, e))
  ]

  picked_later :
      (left k : ℕ) (a b : Bytes) (r : List Bytes)
      → 0 < length r
      → picked left (suc (suc k)) (a ∷ b ∷ r) ≡ picked left k r
  picked_later zero k a b r some_node = refl
  picked_later (suc left) k a b r some_node =
      let shift : suc (suc k) + 1 ≡ suc (suc (k + 1)) = omega arith in
      rw (clamp_later (length r) k some_node, shift, picked_later left (k + 1) a b r some_node) refl

  Parents-pair_up : (l : List Bytes) → Parents h 2 l (pair_up h l)
  unfolding pair_up hash_pair
  Parents-pair_up [] g lt = absurd (omega arith)
  Parents-pair_up (a ∷ []) zero lt = refl
  Parents-pair_up (a ∷ []) (suc g) lt = absurd (omega arith)
  Parents-pair_up (a ∷ b ∷ r) zero lt =
      let n = length (a ∷ b ∷ r) in
      rw (clamp_below n 0 (omega arith), clamp_below n 1 (omega arith)) refl
  Parents-pair_up (a ∷ b ∷ r) (suc g) lt =
      let shift : suc g * 2 ≡ suc (suc (g * 2)) = omega arith in
      ap (λ (k : ℕ). hash_children h (picked 2 k (a ∷ b ∷ r))) shift
      ∙ ap (hash_children h) (picked_later 2 (g * 2) a b r (omega arith))
      ∙ Parents-pair_up r g (omega arith)

  Regular-above :
      (rounds : ℕ) (l : List Bytes)
      → 1 ≤ length l
      → length l ≤ rounds
      → Regular h 2 (l ∷ build_above h rounds l)
  Regular-above zero l p q = absurd (omega arith)
  Regular-above (suc rounds) l p q = elim (dec_lt 1 (length l)) [
    | yes more ↦
        let size = length-pair_up h l in
        rw (build_above_more h rounds l more) (
          Parents-pair_up l,
          size ∙ omega arith,
          Regular-above rounds (pair_up h l) (omega arith) (omega arith),
        )
    | no done ↦ rw (build_above_done h rounds l (omega arith)) (omega arith)
  ]

-- A multiproof of a binary tree, for leaves in any order and with repeats, of which there is at least
-- one and all are in range: the prover makes it, and the verifier accepts it with these leaves for the
-- root of the tree.
pub verify_multiproof-multiproof :
    (h : Sha) (leaves : List Bytes) (tree : Levels) (indices : List ℕ)
    → build_levels h leaves ≡ ok tree
    → indices ≢ []
    → All (λ (i : ℕ). i < length leaves) indices
    → Accepted h 2 tree leaves indices
unfolding build_levels
verify_multiproof-multiproof h [] tree indices built some_index inside = absurd (cc)
verify_multiproof-multiproof h (leaf ∷ leaves) tree indices built some_index inside =
    let all : List Bytes = leaf ∷ leaves in
    subst (λ (t : Levels). Accepted h 2 t all indices) (sym (build_levels-ok h all tree built))
      (Regular-Accepted h 2 all (build_above h (length all) all) indices (omega arith)
        (Regular-above h (length all) all (omega arith) (omega arith)) some_index inside)
