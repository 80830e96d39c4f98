-- ===== src/Stc/Backend/Examples.antt =====
-- bef_zk/stc/pc_backend.py on three values in two chunks.
use capsule_tech.Common.{
  ℕ, zero, suc, ◌-◌, ◌*◌, ◌%◌, min, ◌≡◌, refl, ap, ◌∙◌, true, none, some, List, [], ◌∷◌, get_elem?,
  ok, arith,
}
use mathlib.Core.Option.{some-injective}
use capsule_tech.Common.Bytes.{Bytes, bytes_eq_refl}
use capsule_tech.Common.Field.{modulus}
use capsule_tech.Common.Toy.{toy_sha}
use capsule_tech.Stc.Merkle.{
  Levels, hash_pair, hash_children, build_levels, build_above, pair_up, root_from_levels, verify,
  fold_proof,
}
use capsule_tech.Stc.Kary.{
  verify_kary, fold_kary, kary_step, take_children, parent_of, build_kary_levels, build_kary_above,
  hash_blocks, hash_block,
}
use capsule_tech.Stc.Accumulator.{chunk_leaf_hash, chunk_leaves, merkle_from_values}
use capsule_tech.Stc.Backend.{
  StcCommitment, StcIndexProof, StcChunkProof, stc_open_chunk, stc_verify_chunk, stc_open_index,
  stc_verify_index, chunk_values_of,
}
use capsule_tech.Stc.Backend.Opens.{
  IsCommitted, stc_open_index-verify, stc_open_chunk-verify, stc_verify_index_any,
}

abbrev values : List ℕ
values = 1 ∷ 2 ∷ 3 ∷ []

abbrev root0 : Bytes
root0 = hash_pair toy_sha (chunk_leaf_hash toy_sha 0 0 1) (chunk_leaf_hash toy_sha 0 1 2)

abbrev root1 : Bytes
root1 = chunk_leaf_hash toy_sha 2 0 3

abbrev top : Bytes
top = hash_children toy_sha (root0 ∷ root1 ∷ [])

abbrev levels : Levels
levels = (root0 ∷ root1 ∷ []) ∷ (top ∷ []) ∷ []

abbrev commitment : StcCommitment
commitment = record {
  size = 3;
  chunk_len = 2;
  num_chunks = 2;
  global_root = top;
  chunk_roots = root0 ∷ root1 ∷ [];
  chain_root = [];
  challenges = [];
  sketches = [];
  powers = [];
  chunk_tree_arity = 2;
  chunk_levels = some levels;
}

built : build_kary_levels toy_sha 2 (root0 ∷ root1 ∷ []) ≡ ok levels
unfolding build_kary_levels build_kary_above hash_blocks hash_block
built = refl

first_chunk : merkle_from_values toy_sha (1 ∷ 2 ∷ []) 0 ≡ ok root0
unfolding merkle_from_values chunk_leaves build_levels build_above pair_up root_from_levels
first_chunk = refl

second_chunk : merkle_from_values toy_sha (3 ∷ []) 2 ≡ ok root1
unfolding merkle_from_values chunk_leaves build_levels build_above pair_up root_from_levels
second_chunk = refl

chunk_roots :
    (q : ℕ) (root : Bytes)
    → get_elem? (root0 ∷ root1 ∷ []) q ≡ some root
    → merkle_from_values toy_sha
        (chunk_values_of toy_sha values (q * 2) (min 2 (3 - q * 2)))
        (q * 2)
      ≡ ok root
chunk_roots zero root e = first_chunk ∙ ap ok (some-injective root0 root e)
chunk_roots (suc zero) root e = second_chunk ∙ ap ok (some-injective root1 root e)
chunk_roots (suc (suc q)) root e = absurd (cc)

rooted : root_from_levels levels ≡ ok top
unfolding root_from_levels
rooted = refl

values-IsCommitted : IsCommitted toy_sha commitment values levels
values-IsCommitted = record {
  all_values = refl;
  some_len = omega arith;
  two = omega arith;
  all_chunks = refl;
  enough = omega arith;
  kept = refl;
  built = built;
  rooted = rooted;
  roots = chunk_roots;
}

stc_open_index-verify_example :
    (proof : StcIndexProof) × (stc_open_index toy_sha values commitment 2 none
      ≡ ok (proof, commitment))
    × (proof.index ≡ 2)
    × (proof.value ≡ 3 % modulus)
    × (stc_verify_index toy_sha commitment proof ≡ true)
stc_open_index-verify_example =
    stc_open_index-verify toy_sha commitment values levels 2 3 values-IsCommitted refl

abbrev opened : StcIndexProof
opened = record {
  index = 2;
  value = 3;
  chunk_index = 1;
  chunk_offset = 2;
  leaf_pos = 0;
  leaf_path = [];
  chunk_root = root1;
  chunk_pos = 1;
  chunk_root_path = (root0 ∷ []) ∷ [];
}

accepted : stc_verify_index toy_sha commitment opened ≡ true
unfolding stc_verify_index verify fold_proof verify_kary fold_kary kary_step take_children parent_of
accepted = rw (bytes_eq_refl root1) (bytes_eq_refl top)

-- The value at index 2, accepted as the value at index 0.
stc_verify_index_any_example :
    stc_verify_index toy_sha commitment (record opened { index = 0 }) ≡ true
stc_verify_index_any_example =
    stc_verify_index_any toy_sha commitment opened 0 accepted (omega arith)

stc_open_chunk-verify_example :
    (proof : StcChunkProof) × (stc_open_chunk toy_sha values commitment 1 none
      ≡ ok (proof, commitment))
    × (proof.values ≡ chunk_values_of toy_sha values 2 1)
    × (stc_verify_chunk toy_sha commitment proof ≡ ok true)
stc_open_chunk-verify_example =
    stc_open_chunk-verify toy_sha commitment values levels 1 values-IsCommitted (omega arith)
      (omega arith)
