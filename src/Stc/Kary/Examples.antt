-- ===== src/Stc/Kary/Examples.antt =====
-- bef_zk/stc/merkle.py's k-ary tree on five leaves in groups of four, so that the last goes up alone.
use capsule_tech.Common.{
  ℕ, ◌≡◌, refl, true, List, [], ◌∷◌, length, replicate, ok, err, value_error, arith,
}
use capsule_tech.Common.Bytes.{Bytes}
use capsule_tech.Common.Toy.{toy_sha}
use capsule_tech.Stc.Merkle.{Levels, root_from_levels}
use capsule_tech.Stc.Kary.{build_kary_levels, prove_kary, verify_kary}
use capsule_tech.Stc.Kary.Completeness.{prove_kary-verify_kary}

abbrev leaf : ℕ → Bytes
leaf i = replicate 32 i

abbrev leaves : List Bytes
leaves = leaf 1 ∷ leaf 2 ∷ leaf 3 ∷ leaf 4 ∷ leaf 5 ∷ []

arity_one : build_kary_levels toy_sha 1 leaves ≡ err value_error
unfolding build_kary_levels
arity_one = refl

prove_kary-verify_kary_example :
    (levels : Levels) × (proof : List (List Bytes)) × (root : Bytes) × (build_kary_levels toy_sha 4
        leaves
      ≡ ok levels)
    × (prove_kary levels 4 4 ≡ ok proof)
    × (root_from_levels levels ≡ ok root)
    × (verify_kary toy_sha root (leaf 5) 4 proof 4 (length leaves) ≡ true)
prove_kary-verify_kary_example =
    prove_kary-verify_kary toy_sha 4 (omega arith) leaves 4 (leaf 5) refl
