-- ===== src/Stc/Multi/Examples.antt =====
-- Multiproofs of three leaves in a binary tree, of six leaves in groups of four, and of five, where the
-- last leaf goes up alone.
use capsule_tech.Common.{
  ℕ, ◌≡◌, refl, Bool, false, List, [], ◌∷◌, ok, err, value_error, Result, ◌>>=◌, arith,
}
use capsule_tech.Common.Bytes.{Bytes, join}
use capsule_tech.Common.Toy.{toy_sha}
use capsule_tech.Stc.Merkle.{Levels, root_from_levels, build_levels, build_above, hash_children}
use capsule_tech.Stc.Kary.{build_kary_levels, build_kary_above, hash_blocks, hash_block}
use capsule_tech.Stc.Multi.{multiproof, verify_multiproof}
use capsule_tech.Stc.Multi.Trees.{Accepted, leaves_at, verify_multiproof-multiproof}
use capsule_tech.Stc.Multi.KaryTrees.{NoLone, verify_multiproof-build_kary_levels}

abbrev leaf : ℕ → Bytes
leaf i = i ∷ []

abbrev three : List Bytes
three = leaf 1 ∷ leaf 2 ∷ leaf 3 ∷ []

abbrev six : List Bytes
six = leaf 1 ∷ leaf 2 ∷ leaf 3 ∷ leaf 4 ∷ leaf 5 ∷ leaf 6 ∷ []

abbrev five : List Bytes
five = leaf 1 ∷ leaf 2 ∷ leaf 3 ∷ leaf 4 ∷ leaf 5 ∷ []

abbrev three_tree : Levels
three_tree = three ∷ build_above toy_sha 3 three

three_built : build_levels toy_sha three ≡ ok three_tree
unfolding build_levels
three_built = refl

verify_multiproof-multiproof_example : Accepted toy_sha 2 three_tree three (2 ∷ 0 ∷ 2 ∷ [])
verify_multiproof-multiproof_example =
    verify_multiproof-multiproof toy_sha three three_tree (2 ∷ 0 ∷ 2 ∷ []) three_built (cc)
      ((omega arith), ((omega arith), ((omega arith), tt)))

abbrev group : List Bytes → Bytes
group block = hash_children toy_sha block

abbrev six_above : List Bytes
six_above =
    group (leaf 1 ∷ leaf 2 ∷ leaf 3 ∷ leaf 4 ∷ [])
    ∷ group (leaf 5 ∷ leaf 6 ∷ leaf 6 ∷ leaf 6 ∷ [])
    ∷ []

abbrev six_root : Bytes
six_root = group (
    group (leaf 1 ∷ leaf 2 ∷ leaf 3 ∷ leaf 4 ∷ [])
    ∷ group (leaf 5 ∷ leaf 6 ∷ leaf 6 ∷ leaf 6 ∷ [])
    ∷ group (leaf 5 ∷ leaf 6 ∷ leaf 6 ∷ leaf 6 ∷ [])
    ∷ group (leaf 5 ∷ leaf 6 ∷ leaf 6 ∷ leaf 6 ∷ [])
    ∷ [])

abbrev six_tree : Levels
six_tree = six ∷ six_above ∷ (six_root ∷ []) ∷ []

six_built : build_kary_levels toy_sha 4 six ≡ ok six_tree
unfolding build_kary_levels build_kary_above hash_blocks hash_block
six_built = refl

six_NoLone : NoLone 4 six_tree
six_NoLone = ((λ e. absurd (omega (arith, e))), ((λ e. absurd (omega (arith, e))), tt))

verify_multiproof-build_kary_levels_example : Accepted toy_sha 4 six_tree six (5 ∷ 1 ∷ [])
verify_multiproof-build_kary_levels_example =
    verify_multiproof-build_kary_levels toy_sha 4 six six_tree (5 ∷ 1 ∷ []) six_built six_NoLone
      (cc) ((omega arith), ((omega arith), tt))

-- The lone fifth leaf goes up unhashed, and the verifier hashes it: the prover's own proof is refused.
prove_and_verify : List Bytes → List ℕ → Result Bool
prove_and_verify leaves indices = do
  tree ← build_kary_levels toy_sha 4 leaves
  root ← root_from_levels tree
  proof ← multiproof tree indices 4
  verify_multiproof toy_sha root (leaves_at leaves indices) indices proof

lone_leaf : prove_and_verify five (4 ∷ []) ≡ ok false
unfolding prove_and_verify hash_children join build_kary_levels build_kary_above hash_blocks
    hash_block root_from_levels multiproof verify_multiproof
lone_leaf = refl

out_of_range : multiproof three_tree (3 ∷ []) 2 ≡ err value_error
unfolding multiproof
out_of_range = refl
