-- ===== src/Stc/Backend.antt =====
-- bef_zk/stc/pc_backend.py: commitments to an accumulator's chunks, and openings of an index or a chunk
-- against them. `values` is a sequence, which the code slices. A dataclass's JSON form is left out.
pub mod Opens
pub mod Build
mod Examples
use capsule_tech.Common.{
  ℕ, zero, suc, ◌+◌, ◌-◌, ◌*◌, ◌/◌, ◌%◌, ◌^◌, min, Bool, true, false, not, ◌&&◌, ◌||◌, Option, none,
  some, List, [], ◌∷◌, map, ltb, leb, ◌==◌, if◌then◌else◌, length, get_elem?, take, drop, replicate,
  Result, ok, err, value_error, index_error, zero_division_error, ◌>>=◌, ◌>>◌, raise_if, or_raise,
}
use capsule_tech.Common.Bytes.{Bytes, Sha, bytes_eq}
use capsule_tech.Common.Field.{modulus}
use capsule_tech.Stc.Merkle.{Levels, build_levels, root_from_levels, prove, verify}
use capsule_tech.Stc.Kary.{build_kary_levels, prove_kary, verify_kary}
use capsule_tech.Stc.Accumulator.{
  Accumulator, ChunkRecord, stream_challenges, chunk_leaf_hash, chunk_leaves, merkle_from_values,
  derive_challenges,
}

-- `chunk_levels` is the attribute `_chunk_levels`, the tree that is kept once it is built.
pub record StcCommitment : Type 0 where
  pub size : ℕ
  pub chunk_len : ℕ
  pub num_chunks : ℕ
  pub global_root : Bytes
  pub chunk_roots : List Bytes
  pub chain_root : Bytes
  pub challenges : List ℕ
  pub sketches : List ℕ
  pub powers : List ℕ
  pub chunk_tree_arity : ℕ
  pub chunk_levels : Option Levels

pub record StcIndexProof : Type 0 where
  pub index : ℕ
  pub value : ℕ
  pub chunk_index : ℕ
  pub chunk_offset : ℕ
  pub leaf_pos : ℕ
  pub leaf_path : List Bytes
  pub chunk_root : Bytes
  pub chunk_pos : ℕ
  pub chunk_root_path : List (List Bytes)

pub record StcChunkProof : Type 0 where
  pub chunk_index : ℕ
  pub chunk_offset : ℕ
  pub values : List ℕ
  pub chunk_root : Bytes
  pub chunk_pos : ℕ
  pub chunk_root_path : List (List Bytes)

-- `for chunk in self.chunks: chunk.sketch_vec = self._streaming_update(...)` of `_ensure_challenges`
pub restream : List ℕ → List ℕ → List ℕ → List ChunkRecord → Result (List ChunkRecord × List ℕ)
restream challenges sketches powers [] = ok ([], sketches)
restream challenges sketches powers (chunk ∷ chunks) = do
  updated ← stream_challenges challenges sketches powers chunk.values
  (rest, final) ← restream challenges updated.sketches updated.powers chunks
  ok (record chunk { sketch_vec = updated.chunk_sketch } ∷ rest, final)

abbrev pub is_empty {ℓ} : {A : Type ℓ} → List A → Bool
is_empty [] = true
is_empty (x ∷ xs) = false

module _ (h : Sha) where
  -- `_ensure_challenges` of bef_zk/stc/aok_cpu.py, with fuel for the hashes.
  pub ensure_challenges : ℕ → Accumulator → Result Accumulator
  unfolding restream
  ensure_challenges fuel acc = elim (acc.num_challenges == 0 || not (is_empty acc.challenges)) [
    | true ↦ ok acc
    | false ↦ (do
      challenges ←
          derive_challenges h fuel
            (if is_empty acc.challenge_seed then acc.root else acc.challenge_seed)
            acc.num_challenges
      (chunks, sketches) ←
          restream challenges (replicate acc.num_challenges 0) (replicate acc.num_challenges 1)
            acc.chunks
      ok (record acc {
        challenges = challenges;
        chunks = chunks;
        sketches = sketches;
        powers = map (λ r. (r % modulus) ^ acc.size % modulus) challenges;
      }))
  ]

  -- `arity` is the constant `CHUNK_TREE_ARITY`, which the environment sets.
  pub stc_build_pc_commitment : ℕ → ℕ → Accumulator → Result StcCommitment
  unfolding ensure_challenges
  stc_build_pc_commitment fuel arity before = do
    acc ← ensure_challenges fuel before
    let chunk_roots = map (λ c. c.root) acc.chunks
    raise_if (is_empty chunk_roots) value_error
    levels ← build_kary_levels h arity chunk_roots
    global_root ← root_from_levels levels
    ok (record {
      size = acc.size;
      chunk_len = acc.chunk_len;
      num_chunks = length acc.chunks;
      global_root = global_root;
      chunk_roots = chunk_roots;
      chain_root = acc.root;
      challenges = acc.challenges;
      sketches = map (λ x. x % modulus) acc.sketches;
      powers = map (λ x. x % modulus) acc.powers;
      chunk_tree_arity = arity;
      chunk_levels = some levels;
    })

  -- `_chunk_values_from_source` of a sequence
  abbrev pub chunk_values_of : List ℕ → ℕ → ℕ → List ℕ
  chunk_values_of source offset chunk_length =
      map (λ v. v % modulus) (take chunk_length (drop offset source))

  -- `_value_from_source` of a sequence
  abbrev pub value_of : List ℕ → ℕ → Result ℕ
  value_of source index = do
    value ← or_raise index_error (get_elem? source index)
    ok (value % modulus)

  unfoldable pub rebuilt_levels : StcCommitment → Result (Levels × StcCommitment)
  rebuilt_levels commitment = do
    raise_if (is_empty commitment.chunk_roots) value_error
    levels ← build_kary_levels h commitment.chunk_tree_arity commitment.chunk_roots
    ok (levels, record commitment { chunk_levels = some levels })

  -- `if not getattr(commitment, "_chunk_levels", None)`: the tree is built once, and kept.
  unfoldable pub kept_levels : StcCommitment → Option Levels → Result (Levels × StcCommitment)
  unfolding rebuilt_levels
  kept_levels commitment (some (level ∷ above)) = ok (level ∷ above, commitment)
  kept_levels commitment (some []) = rebuilt_levels commitment
  kept_levels commitment none = rebuilt_levels commitment

  unfoldable pub levels_of : StcCommitment → Option Levels → Result (Levels × StcCommitment)
  unfolding kept_levels
  levels_of commitment (some given) = ok (given, commitment)
  levels_of commitment none = kept_levels commitment commitment.chunk_levels

  unfoldable pub stc_open_index :
      List ℕ → StcCommitment → ℕ → Option Levels → Result (StcIndexProof × StcCommitment)
  unfolding levels_of
  stc_open_index values commitment index chunk_root_levels = do
    raise_if (leb commitment.size index) value_error
    raise_if (commitment.chunk_len == 0) zero_division_error
    let chunk_index = index / commitment.chunk_len
    raise_if (leb commitment.num_chunks chunk_index) value_error
    let offset = chunk_index * commitment.chunk_len
    let local_idx = index - offset
    let chunk_values =
        chunk_values_of values offset (min commitment.chunk_len (commitment.size - offset))
    raise_if (is_empty chunk_values) value_error
    tree ← build_levels h (chunk_leaves h offset 0 chunk_values)
    leaf_path ← prove tree local_idx
    chunk_root ← root_from_levels tree
    (levels, commitment') ← levels_of commitment chunk_root_levels
    chunk_root_path ← prove_kary levels chunk_index commitment.chunk_tree_arity
    value ← value_of values index
    ok (
      record {
        index = index;
        value = value;
        chunk_index = chunk_index;
        chunk_offset = offset;
        leaf_pos = local_idx;
        leaf_path = leaf_path;
        chunk_root = chunk_root;
        chunk_pos = chunk_index;
        chunk_root_path = chunk_root_path;
      },
      commitment',
    )

  unfoldable pub stc_verify_index : StcCommitment → StcIndexProof → Bool
  stc_verify_index commitment proof =
      not (leb commitment.size proof.index)
      && (proof.chunk_index == proof.chunk_pos)
      && verify h proof.chunk_root (chunk_leaf_hash h proof.chunk_offset proof.leaf_pos proof.value)
          proof.leaf_pos proof.leaf_path
      && verify_kary h commitment.global_root proof.chunk_root proof.chunk_pos proof.chunk_root_path
          commitment.chunk_tree_arity commitment.num_chunks

  unfoldable pub stc_open_chunk :
      List ℕ → StcCommitment → ℕ → Option Levels → Result (StcChunkProof × StcCommitment)
  unfolding levels_of
  stc_open_chunk values commitment chunk_index chunk_root_levels = do
    raise_if (leb commitment.num_chunks chunk_index) value_error
    let offset = chunk_index * commitment.chunk_len
    let chunk_values =
        chunk_values_of values offset (min commitment.chunk_len (commitment.size - offset))
    raise_if (is_empty chunk_values) value_error
    let reduced = map (λ v. v % modulus) chunk_values
    chunk_root ← merkle_from_values h reduced offset
    (levels, commitment') ← levels_of commitment chunk_root_levels
    chunk_root_path ← prove_kary levels chunk_index commitment.chunk_tree_arity
    ok (
      record {
        chunk_index = chunk_index;
        chunk_offset = offset;
        values = reduced;
        chunk_root = chunk_root;
        chunk_pos = chunk_index;
        chunk_root_path = chunk_root_path;
      },
      commitment',
    )

  -- `expected_root != proof.chunk_root`
  abbrev pub root_matches : Bytes → Result Bytes → Result Bool
  root_matches chunk_root (ok expected_root) = ok (bytes_eq expected_root chunk_root)
  root_matches chunk_root (err e) = err e

  -- Of an `StcCommitment`, which has all the attributes; a proof without values raises.
  unfoldable pub stc_verify_chunk : StcCommitment → StcChunkProof → Result Bool
  stc_verify_chunk commitment proof =
      if leb commitment.num_chunks proof.chunk_index
        || not (proof.chunk_pos == proof.chunk_index)
        || leb commitment.size proof.chunk_offset
        || (ltb (proof.chunk_index + 1) commitment.num_chunks
            && not (proof.chunk_offset == proof.chunk_index * commitment.chunk_len))
      then ok false
      else (do
        same ← root_matches proof.chunk_root (merkle_from_values h proof.values proof.chunk_offset)
        ok (
            same
            && verify_kary h commitment.global_root proof.chunk_root proof.chunk_pos
                proof.chunk_root_path commitment.chunk_tree_arity commitment.num_chunks))
