-- ===== src/Stc/Accumulator.antt =====
-- bef_zk/stc/aok_cpu.py: `StreamingAccumulatorCPU` and its helpers. The archive (files on disk) is the
-- optional function `archive`, which stores a chunk and returns its handle.
pub mod Sketches
pub mod Streaming
pub mod Challenges
mod Examples
use capsule_tech.Common.{
  ℕ, zero, suc, ◌+◌, ◌*◌, ◌%◌, ◌^◌, Bool, true, false, Option, none, some, List, [], ◌∷◌, ◌++◌, map,
  ◌==◌, ltb, if◌then◌else◌, length, replicate, Result, ok, err, value_error, index_error, Error,
  ◌>>=◌, ◌>>◌, raise_if,
}
use capsule_tech.Common.Results
use capsule_tech.Common.Bytes.{Bytes, Sha, to_bytes, from_bytes}
use capsule_tech.Common.Field.{modulus}
use capsule_tech.Stc.Merkle.{build_levels, root_from_levels}
use capsule_tech.Stc.Poseidon.{poseidon2_hash}

pub record ChunkRecord : Type 0 where
  pub values : List ℕ
  pub offset : ℕ
  pub size : ℕ
  pub root : Bytes
  pub sketch_vec : List ℕ
  pub archive_handle : Option Bytes

pub record Accumulator : Type 0 where
  pub size : ℕ
  pub chunk_len : ℕ
  pub num_challenges : ℕ
  pub chunks : List ChunkRecord
  pub root : Bytes
  pub challenge_seed : Bytes
  pub challenges : List ℕ
  pub sketches : List ℕ
  pub powers : List ℕ

-- `b"bef-init"`
abbrev init_label : Bytes
init_label = 98 ∷ 101 ∷ 102 ∷ 45 ∷ 105 ∷ 110 ∷ 105 ∷ 116 ∷ []

-- The inner loop of `_streaming_update` over the values of a chunk: the sum and the running power.
pub stream_values : ℕ → ℕ → ℕ → List ℕ → ℕ × ℕ
stream_values r acc pow_r [] = (acc, pow_r)
stream_values r acc pow_r (val ∷ rest) =
    stream_values r ((acc + pow_r * val) % modulus) (pow_r * r % modulus) rest

-- What `_streaming_update` writes for each challenge: the chunk's sketches, the running sketches and
-- the powers.
pub record Updated : Type 0 where
  pub chunk_sketch : List ℕ
  pub sketches : List ℕ
  pub powers : List ℕ

pub stream_challenges : List ℕ → List ℕ → List ℕ → List ℕ → Result Updated
unfolding stream_values
stream_challenges [] sketches powers reduced =
    ok (record { chunk_sketch = []; sketches = sketches; powers = powers })
stream_challenges (r ∷ challenges) sketches [] reduced = err index_error
stream_challenges (r ∷ challenges) [] (pow_r ∷ powers) reduced = err index_error
stream_challenges (r ∷ challenges) (sketch ∷ sketches) (pow_r ∷ powers) reduced =
    let (acc, pow_r') = stream_values r 0 pow_r reduced in
    do
      rest ← stream_challenges challenges sketches powers reduced
      ok (record {
        chunk_sketch = acc ∷ rest.chunk_sketch;
        sketches = (sketch + acc) % modulus ∷ rest.sketches;
        powers = pow_r' ∷ rest.powers;
      })

-- One challenge of `chunk_sketch`, from `pow(r % MODULUS, offset, MODULUS)`.
pub sketch_values : ℕ → ℕ → ℕ → List ℕ → ℕ
sketch_values r acc pow_r [] = acc
sketch_values r acc pow_r (val ∷ rest) =
    sketch_values r ((acc + val % modulus * pow_r) % modulus) (pow_r * r % modulus) rest

pub chunk_sketch : List ℕ → ℕ → List ℕ → List ℕ
unfolding sketch_values
chunk_sketch values offset challenges =
    map (λ r. sketch_values r 0 ((r % modulus) ^ offset % modulus) values) challenges

module _ (h : Sha) where
  pub root_seed : Bytes
  root_seed = h.sha256 init_label

  pub int_to_bytes : ℕ → Bytes
  int_to_bytes value = to_bytes 32 (value % modulus)

  pub chunk_leaf_hash : ℕ → ℕ → ℕ → Bytes
  unfolding int_to_bytes
  chunk_leaf_hash offset local_idx value =
      h.sha256 (to_bytes 8 offset ++ to_bytes 8 local_idx ++ int_to_bytes value)

  -- `[chunk_leaf_hash(offset, idx, val) for idx, val in enumerate(values)]`
  unfoldable pub chunk_leaves : ℕ → ℕ → List ℕ → List Bytes
  unfolding chunk_leaf_hash
  chunk_leaves offset idx [] = []
  chunk_leaves offset idx (val ∷ rest) =
      chunk_leaf_hash offset idx val ∷ chunk_leaves offset (idx + 1) rest

  unfoldable pub merkle_from_values : List ℕ → ℕ → Result Bytes
  unfolding chunk_leaves
  merkle_from_values values offset = do
    raise_if (length values == 0) value_error
    levels ← build_levels h (chunk_leaves offset 0 values)
    root_from_levels levels

  pub hash_root_update : Bytes → ℕ → Bytes → Result Bytes
  hash_root_update root offset chunk_root = do
    new_val ←
        poseidon2_hash
          (from_bytes root % modulus ∷ offset % modulus ∷ from_bytes chunk_root % modulus ∷ [])
    ok (to_bytes 32 (new_val % modulus))

  -- The candidate of a round.
  unfoldable pub candidate_at : Bytes → ℕ → ℕ
  candidate_at root counter = from_bytes (h.sha256 (root ++ to_bytes 4 counter)) % modulus

  -- `while len(out) < m`, with fuel: `left` challenges are still wanted.
  pub derive_from : ℕ → Bytes → ℕ → ℕ → Result (List ℕ)
  derive_from zero root zero counter = ok []
  derive_from zero root (suc left) counter = err Results.fuel
  derive_from (suc fuel) root zero counter = ok []
  derive_from (suc fuel) root (suc left) counter = elim (candidate_at root counter == 0) [
    | true ↦ derive_from fuel root (suc left) (counter + 1)
    | false ↦ (do
      rest ← derive_from fuel root left (counter + 1)
      ok (candidate_at root counter ∷ rest))
  ]

  pub derive_challenges : ℕ → Bytes → ℕ → Result (List ℕ)
  unfolding derive_from
  derive_challenges fuel root m = derive_from fuel root m 0

  -- The constructor: `fuel` bounds the hashes for the challenges.
  pub new_accumulator : ℕ → ℕ → ℕ → Bytes → Result Accumulator
  unfolding derive_challenges
  new_accumulator fuel num_challenges chunk_len seed = do
    challenges ← derive_challenges fuel seed num_challenges
    ok (record {
      size = 0;
      chunk_len = chunk_len;
      num_challenges = num_challenges;
      chunks = [];
      root = root_seed;
      challenge_seed = seed;
      challenges = challenges;
      sketches = replicate num_challenges 0;
      powers = replicate num_challenges 1;
    })

  -- `self.archive.store_chunk(len(self.chunks), reduced)`, and what stays in memory.
  unfoldable pub store_values : Option (ℕ → List ℕ → Bytes) → ℕ → List ℕ → Option Bytes × List ℕ
  store_values none index reduced = (none, reduced)
  store_values (some archive) index reduced = (some (archive index reduced), [])

  pub add_chunk : Option (ℕ → List ℕ → Bytes) → List ℕ → Accumulator → Result Accumulator
  add_chunk archive values acc = do
    raise_if (length values == 0) value_error
    let reduced = map (λ v. v % modulus) values
    chunk_root ← merkle_from_values reduced acc.size
    let stored = store_values archive (length acc.chunks) reduced
    updated ← stream_challenges acc.challenges acc.sketches acc.powers reduced
    root ← hash_root_update acc.root acc.size chunk_root
    ok (record acc {
      size = acc.size + length reduced;
      chunks =
          acc.chunks
          ++ (record {
            values = stored.1;
            offset = acc.size;
            size = length reduced;
            root = chunk_root;
            sketch_vec = updated.chunk_sketch;
            archive_handle = stored.0;
          }
              ∷ []);
      root = root;
      sketches = updated.sketches;
      powers = updated.powers;
    })

  -- `for i in range(0, len(values), self.chunk_len): acc.add_chunk(values[i : i + self.chunk_len])`,
  -- over the chunks.
  unfoldable pub add_chunks :
      Option (ℕ → List ℕ → Bytes) → List (List ℕ) → Accumulator → Result Accumulator
  add_chunks archive [] acc = ok acc
  add_chunks archive (values ∷ rest) acc = do
    acc' ← add_chunk archive values acc
    add_chunks archive rest acc'

-- `export_chunks`: copies of the records.
unfoldable pub export_chunks : Accumulator → List ChunkRecord
export_chunks acc =
    map
      (λ c. record {
        values = c.values;
        offset = c.offset;
        size = c.size;
        root = c.root;
        sketch_vec = c.sketch_vec;
        archive_handle = c.archive_handle;
      })
      acc.chunks
