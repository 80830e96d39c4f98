-- ===== src/Stc/Vc.antt =====
-- bef_zk/stc/vc.py: `STCVectorCommitment` on the CPU path, as an instance of the interface. A store keeps,
-- for each global root, the commitment, the chunk records and the files of the chunk archive.
pub mod Names
pub mod Chunks
pub mod Slices
pub mod Batch
pub mod Groups
pub mod Opening
pub mod Leaves
pub mod Whole
pub mod Building
pub mod Laws
use capsule_tech.Common.{
  ℕ, zero, suc, ◌+◌, ◌-◌, ◌*◌, ◌/◌, ◌%◌, Bool, true, false, not, ◌&&◌, ◌||◌, Option, none, some,
  List, [], ◌∷◌, ◌++◌, map, leb, ◌==◌, if◌then◌else◌, length, get_elem?, take, drop, Result, ok,
  err, value_error, index_error, os_error, zero_division_error, ◌>>=◌, ◌>>◌, raise_if, or_raise,
}
use capsule_tech.Common.Dict.{Dict, get, put}
use capsule_tech.Common.Bytes.{Bytes, Sha, bytes_eq}
use capsule_tech.Common.Field.{modulus}
use capsule_tech.Stc.Merkle.{Levels, build_levels, root_from_levels, prove, verify}
use capsule_tech.Stc.Accumulator.{
  ChunkRecord, Accumulator, chunk_leaf_hash, chunk_leaves, new_accumulator, add_chunks,
  export_chunks,
}
use capsule_tech.Stc.Backend.{StcCommitment, stc_build_pc_commitment, is_empty}
use capsule_tech.Stc.Multi.{sorted_set, sorted_keys, zip_nodes, multiproof, verify_multiproof, mem}
use capsule_tech.Stc.Vector.{
  VectorCommitment, VcCommitment, VcBatchEntry, ChunkLeafProof, VcBatchProof, MerkleMultiProof,
}

-- Python's decimals, with fuel for the digits
unfoldable pub decimal : ℕ → ℕ → Bytes
decimal zero n = []
decimal (suc fuel) n =
    let higher = decimal fuel (n / 10) in (if leb 10 n then higher else []) ++ ((48 + n % 10) ∷ [])

-- `f"chunk_{chunk_index}.json"`
unfoldable pub chunk_name : ℕ → Bytes
unfolding decimal
chunk_name chunk_index =
    99
    ∷ 104
    ∷ 117
    ∷ 110
    ∷ 107
    ∷ 95
    ∷ (decimal (suc chunk_index) chunk_index ++ (46 ∷ 106 ∷ 115 ∷ 111 ∷ 110 ∷ []))

-- The files of a `ChunkArchive`, the values of each under its name
abbrev pub Files : Type 0
Files = List (Bytes × List ℕ)

-- What `store_chunk` has written for the chunks, from an index on
unfoldable pub written : ℕ → List (List ℕ) → Files
unfolding chunk_name
written index [] = []
written index (values ∷ chunks) =
    (chunk_name index, map (λ v. v % modulus) values) ∷ written (index + 1) chunks

-- `ChunkArchive.load_chunk`
unfoldable pub load_chunk : Files → Bytes → Result (List ℕ)
unfolding bytes_eq
load_chunk [] handle = err os_error
load_chunk ((name, values) ∷ files) handle =
    if bytes_eq name handle then ok values else load_chunk files handle

pub record StoreEntry : Type 0 where
  pub commit : StcCommitment
  pub chunks : List ChunkRecord
  pub archive : Files

-- `self._store`: a later entry of a root stands before an earlier one.
abbrev pub Store : Type 0
Store = List (Bytes × StoreEntry)

unfoldable pub find_store : Store → Bytes → Option StoreEntry
unfolding bytes_eq
find_store [] root = none
find_store ((key, entry) ∷ store) root =
    if bytes_eq key root then some entry else find_store store root

-- `values[i : i + chunk_len]` for `i in range(0, len(values), chunk_len)`, with fuel
unfoldable pub slices : ℕ → ℕ → List ℕ → List (List ℕ)
slices fuel chunk_len [] = []
slices zero chunk_len (v ∷ values) = []
slices (suc fuel) chunk_len (v ∷ values) =
    take chunk_len (v ∷ values) ∷ slices fuel chunk_len (drop chunk_len (v ∷ values))

-- `_ChunkValueAccessor`
unfoldable pub load_record : Files → ChunkRecord → Result (List ℕ)
unfolding load_chunk
load_record archive record_of = elim record_of.values [
  | v ∷ values ↦ ok (v ∷ values)
  | [] ↦ elim record_of.archive_handle [
    | none ↦ err value_error
    | some handle ↦ (do stored ← load_chunk archive handle; ok (map (λ v. v % modulus) stored))
  ]
]

unfoldable pub get_chunk_values : StoreEntry → ℕ → Result (List ℕ)
unfolding load_record
get_chunk_values entry chunk_index = do
  found ← or_raise index_error (get_elem? entry.chunks chunk_index)
  load_record entry.archive found

-- `chunk_entries[chunk_idx]`: the entries of a chunk, in their order
unfoldable pub entries_of : ℕ → List VcBatchEntry → List VcBatchEntry
entries_of chunk_index [] = []
entries_of chunk_index (entry ∷ entries) =
    if entry.chunk_index == chunk_index
    then entry ∷ entries_of chunk_index entries
    else entries_of chunk_index entries

abbrev pub leaf_positions_of : List VcBatchEntry → List ℕ
leaf_positions_of entries = sorted_set [] (map (λ e. e.leaf_pos) entries)

-- `entry_list[0].chunk_offset if entry_list else chunk_idx * chunk_len`
abbrev pub offset_of : List VcBatchEntry → ℕ → ℕ
offset_of [] start = start
offset_of (entry ∷ entries) start = entry.chunk_offset

-- `chunk_roots[pos]` of keys that are there
unfoldable pub roots_at : Dict Bytes → List ℕ → List Bytes
unfolding get
roots_at roots [] = []
roots_at roots (pos ∷ positions) = elim (get roots pos) [
  | none ↦ roots_at roots positions
  | some root ↦ root ∷ roots_at roots positions
]

module _ (h : Sha) where
  -- The levels and values of a chunk; the source keeps them in a cache.
  unfoldable pub chunk_tree : StoreEntry → ℕ → Result (Levels × List ℕ)
  unfolding get_chunk_values
  chunk_tree entry chunk_index = do
    values ← get_chunk_values entry chunk_index
    levels ← build_levels h (chunk_leaves h (chunk_index * entry.commit.chunk_len) 0 values)
    ok (levels, values)

  -- `for idx in unique_indices`: the entries and the chunk roots
  unfoldable pub open_entries :
      StoreEntry → List ℕ → Dict Bytes → Result (List VcBatchEntry × Dict Bytes)
  unfolding chunk_tree put
  open_entries entry [] roots = ok ([], roots)
  open_entries entry (idx ∷ indices) roots = do
    raise_if (leb entry.commit.size idx) value_error
    raise_if (entry.commit.chunk_len == 0) zero_division_error
    let chunk_index = idx / entry.commit.chunk_len
    let offset = chunk_index * entry.commit.chunk_len
    (levels, values) ← chunk_tree entry chunk_index
    leaf_path ← prove levels (idx - offset)
    root ← root_from_levels levels
    value ← or_raise index_error (get_elem? values (idx - offset))
    (entries, found) ← open_entries entry indices (put roots chunk_index root)
    ok (
      record {
        index = idx;
        value = value;
        chunk_index = chunk_index;
        chunk_offset = offset;
        leaf_pos = idx - offset;
        leaf_path = none;
      }
          ∷ entries,
      found,
    )

  -- `for chunk_idx in chunk_positions`
  unfoldable pub open_leaves :
      StoreEntry → List VcBatchEntry → List ℕ → Result (List ChunkLeafProof)
  unfolding chunk_tree entries_of
  open_leaves entry entries [] = ok []
  open_leaves entry entries (chunk_index ∷ positions) = do
    (levels, values) ← chunk_tree entry chunk_index
    let mine = entries_of chunk_index entries
    proof ← multiproof levels (leaf_positions_of mine) 2
    rest ← open_leaves entry entries positions
    ok (
        record {
          chunk_index = chunk_index;
          chunk_offset = offset_of mine (chunk_index * entry.commit.chunk_len);
          leaf_positions = leaf_positions_of mine;
          proof = proof;
        }
        ∷ rest)

  -- `getattr(stc_commit, "_chunk_levels", None)`
  abbrev pub chunk_levels_of : StcCommitment → Option Levels → Result Levels
  chunk_levels_of commit none = build_levels h commit.chunk_roots
  chunk_levels_of commit (some levels) = ok levels

  unfoldable pub open_batch_of : StoreEntry → List ℕ → Result VcBatchProof
  unfolding sorted_set sorted_keys open_entries open_leaves roots_at
  open_batch_of entry indices = do
    levels ← chunk_levels_of entry.commit entry.commit.chunk_levels
    (entries, roots) ← open_entries entry (sorted_set [] indices) []
    let positions = sorted_keys [] roots
    chunk_proof ← multiproof levels positions entry.commit.chunk_tree_arity
    leaf_proofs ← open_leaves entry entries positions
    ok (record {
      entries = entries;
      chunk_positions = positions;
      chunk_roots = roots_at roots positions;
      chunk_proof = chunk_proof;
      chunk_leaf_proofs = leaf_proofs;
    })

  unfoldable pub open_batch : VcCommitment → List ℕ → Store → Result VcBatchProof
  unfolding find_store open_batch_of
  open_batch commitment indices store = do
    raise_if (is_empty indices) value_error
    entry ← or_raise value_error (find_store store commitment.root)
    open_batch_of entry indices
