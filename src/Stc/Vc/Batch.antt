-- ===== src/Stc/Vc/Batch.antt =====
-- bef_zk/stc/vc.py: `verify_batch` and `commit` of `STCVectorCommitment`, and the instance. A proof that
-- makes the verifier raise is not accepted.
use capsule_tech.Common.{
  ℕ, Bool, true, false, not, ◌&&◌, ◌||◌, Option, none, some, List, [], ◌∷◌, map, leb, ◌==◌,
  if◌then◌else◌, length, Result, ok, err, value_error, key_error, ◌>>=◌, ◌>>◌, raise_if, or_raise,
}
use capsule_tech.Common.Dict.{Dict, get}
use capsule_tech.Common.Bytes.{Bytes, Sha}
use capsule_tech.Stc.Merkle.{verify}
use capsule_tech.Stc.Accumulator.{chunk_leaf_hash, new_accumulator, add_chunks, export_chunks}
use capsule_tech.Stc.Backend.{StcCommitment, stc_build_pc_commitment, is_empty}
use capsule_tech.Stc.Multi.{sorted_set, zip_nodes, verify_multiproof}
use capsule_tech.Stc.Vector.{
  VectorCommitment, VcCommitment, VcBatchEntry, ChunkLeafProof, VcBatchProof,
}
use capsule_tech.Stc.Vc.{
  Store, chunk_name, written, slices, entries_of, leaf_positions_of, open_batch,
}

-- `xs == ys` of lists of integers
unfoldable pub same_list : List ℕ → List ℕ → Bool
same_list [] [] = true
same_list [] (y ∷ ys) = false
same_list (x ∷ xs) [] = false
same_list (x ∷ xs) (y ∷ ys) = (x == y) && same_list xs ys

-- Every entry's index and chunk are in range.
unfoldable pub in_range : VcCommitment → List VcBatchEntry → Bool
in_range commitment [] = true
in_range commitment (entry ∷ entries) =
    not (leb commitment.size entry.index)
    && not (leb commitment.num_chunks entry.chunk_index)
    && in_range commitment entries

-- `chunk_leaf_map.get(chunk_idx)`: a later proof of a chunk wins.
unfoldable pub find_leaf_proof : ℕ → List ChunkLeafProof → Option ChunkLeafProof
find_leaf_proof chunk_index [] = none
find_leaf_proof chunk_index (proof ∷ proofs) = elim (find_leaf_proof chunk_index proofs) [
  | some later ↦ some later
  | none ↦ if proof.chunk_index == chunk_index then some proof else none
]

-- `values_by_pos[pos]`: a later entry of a position wins.
unfoldable pub value_by_pos : ℕ → List VcBatchEntry → Option ℕ
value_by_pos pos [] = none
value_by_pos pos (entry ∷ entries) = elim (value_by_pos pos entries) [
  | some later ↦ some later
  | none ↦ if entry.leaf_pos == pos then some entry.value else none
]

-- `chunk_entries.keys()` as a set
unfoldable pub chunk_keys : List VcBatchEntry → List ℕ
unfolding sorted_set
chunk_keys entries = sorted_set [] (map (λ e. e.chunk_index) entries)

module _ (h : Sha) where
  unfoldable pub leaf_hashes_of : ℕ → List ℕ → List VcBatchEntry → Result (List Bytes)
  unfolding value_by_pos
  leaf_hashes_of offset [] entries = ok []
  leaf_hashes_of offset (pos ∷ positions) entries = do
    value ← or_raise key_error (value_by_pos pos entries)
    rest ← leaf_hashes_of offset positions entries
    ok (chunk_leaf_hash h offset pos value ∷ rest)

  -- One chunk of `for chunk_idx, entries in chunk_entries.items()`, where there are leaf proofs
  unfoldable pub check_chunk :
      Dict Bytes → List ChunkLeafProof → List VcBatchEntry → ℕ → Result Bool
  unfolding get find_leaf_proof leaf_hashes_of verify_multiproof same_list
  check_chunk roots proofs mine chunk_index = elim (get roots chunk_index) [
    | none ↦ ok false
    | some chunk_root ↦ elim (find_leaf_proof chunk_index proofs) [
      | none ↦ ok false
      | some proof ↦
          if not (same_list (leaf_positions_of mine) proof.leaf_positions) then ok false else do
            leaf_hashes ← leaf_hashes_of proof.chunk_offset proof.leaf_positions mine
            verify_multiproof h chunk_root leaf_hashes proof.leaf_positions proof.proof
    ]
  ]

  -- `for entry in entries` without leaf proofs
  unfoldable pub check_paths : Bytes → List VcBatchEntry → Bool
  unfolding verify
  check_paths chunk_root [] = true
  check_paths chunk_root (entry ∷ entries) = elim entry.leaf_path [
    | none ↦ false
    | some path ↦
        verify h chunk_root (chunk_leaf_hash h entry.chunk_offset entry.leaf_pos entry.value)
          entry.leaf_pos path
        && check_paths chunk_root entries
  ]

  unfoldable pub check_bare_chunk : Dict Bytes → List VcBatchEntry → ℕ → Result Bool
  unfolding get check_paths
  check_bare_chunk roots mine chunk_index = elim (get roots chunk_index) [
    | none ↦ ok false
    | some chunk_root ↦ ok (check_paths chunk_root mine)
  ]

  unfoldable pub check_chunks :
      Dict Bytes → List ChunkLeafProof → List VcBatchEntry → List ℕ → Result Bool
  unfolding check_chunk check_bare_chunk entries_of
  check_chunks roots proofs entries [] = ok true
  check_chunks roots proofs entries (chunk_index ∷ keys) =
      let rest = check_chunks roots proofs entries keys in
      do
        accepted ←
            if is_empty proofs
            then check_bare_chunk roots (entries_of chunk_index entries) chunk_index
            else check_chunk roots proofs (entries_of chunk_index entries) chunk_index
        if accepted then rest else ok false

  -- `[chunk_roots_map[idx] for idx in batch.chunk_positions]`
  unfoldable pub roots_of : Dict Bytes → List ℕ → Result (List Bytes)
  unfolding get
  roots_of roots [] = ok []
  roots_of roots (pos ∷ positions) = do
    root ← or_raise key_error (get roots pos)
    rest ← roots_of roots positions
    ok (root ∷ rest)

  unfoldable pub verify_batch_of : VcCommitment → VcBatchProof → Result Bool
  unfolding in_range zip_nodes check_chunks chunk_keys same_list roots_of verify_multiproof
      sorted_set
  verify_batch_of commitment batch =
      let roots = zip_nodes batch.chunk_positions batch.chunk_roots [] in
      let keys = chunk_keys batch.entries in
      let top : Result Bool = (do
        leaf_hashes ← roots_of roots batch.chunk_positions
        verify_multiproof h commitment.root leaf_hashes batch.chunk_positions batch.chunk_proof) in
      if is_empty batch.entries || not (in_range commitment batch.entries) then ok false else do
        accepted ← check_chunks roots batch.chunk_leaf_proofs batch.entries keys
        if accepted && same_list keys (sorted_set [] batch.chunk_positions) then top else ok false

  abbrev pub is_accepted : Result Bool → Bool
  is_accepted (ok accepted) = accepted
  is_accepted (err e) = false

  unfoldable pub verify_batch : VcCommitment → VcBatchProof → Bool
  unfolding verify_batch_of
  verify_batch commitment batch = is_accepted (verify_batch_of commitment batch)

  abbrev pub vc_commitment : StcCommitment → VcCommitment
  vc_commitment c = record {
    root = c.global_root;
    size = c.size;
    chunk_len = c.chunk_len;
    num_chunks = c.num_chunks;
    challenges = c.challenges;
    sketches = c.sketches;
    powers = c.powers;
    chain_root = c.chain_root;
    chunk_tree_arity = c.chunk_tree_arity;
  }

  -- The attributes of `STCVectorCommitment`, with the constant `CHUNK_TREE_ARITY` and fuel for the
  -- challenges
  pub record VcParams : Type 0 where
    pub chunk_len : ℕ
    pub num_challenges : ℕ
    pub challenge_seed : Bytes
    pub arity : ℕ
    pub fuel : ℕ

  unfoldable pub commit : VcParams → List ℕ → Store → Result (VcCommitment × Store)
  unfolding slices written
  commit params values store = do
    fresh ←
        new_accumulator h params.fuel params.num_challenges params.chunk_len params.challenge_seed
    raise_if (params.chunk_len == 0) value_error
    let chunks = slices (length values) params.chunk_len values
    acc ← add_chunks h (some (λ index reduced. chunk_name index)) chunks fresh
    stc_commit ← stc_build_pc_commitment h params.fuel params.arity acc
    ok (
      vc_commitment stc_commit,
      (
        stc_commit.global_root,
        record { commit = stc_commit; chunks = export_chunks acc; archive = written 0 chunks },
      )
          ∷ store,
    )

  abbrev pub stc_vector_commitment : VcParams → VectorCommitment
  stc_vector_commitment params = record {
    State = Store;
    commit = commit params;
    open_batch = open_batch h;
    verify_batch = verify_batch;
  }
