-- ===== src/Stc/Merkle/Examples.antt =====
-- Runs of bef_zk/stc/merkle.py's binary tree on three leaves, and the theorems at that input.
use capsule_tech.Common.{
  ◌≡◌, refl, List, [], ◌∷◌, ◌+◌, ◌-◌, ◌*◌, ◌^◌, ◌≤◌, max, arith, true, length, replicate, ok, err,
  value_error, ◌⊎◌,
}
use capsule_tech.Common.Bytes.{Bytes, Collision, bytes_eq, join}
use capsule_tech.Common.Toy.{toy_sha}
use capsule_tech.Stc.Merkle.{
  Levels, root_from_levels, prove, build_levels, build_above, pair_up, verify, hash_pair,
  fold_sibling,
}
use capsule_tech.Stc.Merkle.Completeness.{prove-verify}
use capsule_tech.Stc.Merkle.Binding.{verify-binding}
use capsule_tech.Stc.Merkle.Depth.{build_above_bounds}

abbrev leaf : Bytes
leaf = replicate 32 5

abbrev three : List Bytes
three = replicate 32 1 ∷ replicate 32 2 ∷ leaf ∷ []

abbrev levels : Levels
levels =
    three
    ∷ (hash_pair toy_sha (replicate 32 1) (replicate 32 2) ∷ hash_pair toy_sha leaf leaf ∷ [])
    ∷ (hash_pair toy_sha (hash_pair toy_sha (replicate 32 1) (replicate 32 2))
          (hash_pair toy_sha leaf leaf)
        ∷ [])
    ∷ []

build_three : build_levels toy_sha three ≡ ok levels
unfolding build_levels build_above pair_up
build_three = refl

no_leaves : build_levels toy_sha [] ≡ err value_error
unfolding build_levels
no_leaves = refl

prove-verify_example :
    (proof : List Bytes) × (root : Bytes) × (prove levels 2 ≡ ok proof)
    × (root_from_levels levels ≡ ok root)
    × (verify toy_sha root leaf 2 proof ≡ true)
    × (length proof + 1 ≡ length levels)
prove-verify_example = prove-verify toy_sha three levels 2 leaf build_three refl

abbrev proof : List Bytes
proof = leaf ∷ hash_pair toy_sha (replicate 32 1) (replicate 32 2) ∷ []

abbrev root : Bytes
root =
    hash_pair toy_sha (hash_pair toy_sha (replicate 32 1) (replicate 32 2))
      (hash_pair toy_sha leaf leaf)

accepted : verify toy_sha root leaf 2 proof ≡ true
unfolding verify hash_pair bytes_eq fold_sibling join
accepted = refl

proof-IsDigest : length (hash_pair toy_sha (replicate 32 1) (replicate 32 2)) ≡ 32
unfolding hash_pair
proof-IsDigest = refl

verify-binding_example : ((leaf ≡ leaf) × (proof ≡ proof)) ⊎ Collision toy_sha
verify-binding_example =
    verify-binding toy_sha root leaf leaf 2 proof proof refl refl (refl, (proof-IsDigest, tt))
      (refl, (proof-IsDigest, tt)) refl accepted accepted

build_above_bounds_example :
    (3 ≤ 2 ^ length (build_above toy_sha 3 three))
    × (2 ^ length (build_above toy_sha 3 three) ≤ max 1 (2 * (3 - 1)))
build_above_bounds_example = build_above_bounds toy_sha 3 three (omega arith) (omega arith)
