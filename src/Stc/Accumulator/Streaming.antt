-- ===== src/Stc/Accumulator/Streaming.antt =====
-- What `add_chunk` of bef_zk/stc/aok_cpu.py keeps: the sketches are those of all the values so far,
-- however they were cut into chunks.
use capsule_tech.Common.{
  ℕ, suc, ◌+◌, ◌%◌, ◌^◌, ◌<◌, ◌≡◌, refl, sym, ap, subst, ◌∙◌, false, Option, List, [], ◌∷◌, ◌++◌,
  map, length, length-append, length-map, All, ◌==◌, ok, arith,
}
use mathlib.Core.Path.{fun_ext}
use native.Mathlib.Nat.{zero-add}
use mathlib.Core.List.{append-nil, append_assoc}
use capsule_tech.Common.Bytes.{Bytes, Sha, to_bytes, from_bytes}
use capsule_tech.Common.Field.{modulus}
use capsule_tech.Stc.Merkle.Completeness.{build_levels_total}
use capsule_tech.Stc.Poseidon.{poseidon2_hash_total}
use capsule_tech.Stc.Accumulator.{
  Accumulator, ChunkRecord, Updated, stream_challenges, chunk_leaves, merkle_from_values,
  hash_root_update, store_values, add_chunk, add_chunks,
}
use capsule_tech.Stc.Accumulator.Sketches.{weigh, weigh-append, stream_challenges_lem}

abbrev pub reduce : List ℕ → List ℕ
reduce values = map (λ v. v % modulus) values

-- All the values of all chunks, reduced.
abbrev pub stream_of : List (List ℕ) → List ℕ
stream_of [] = []
stream_of (values ∷ rest) = reduce values ++ stream_of rest

-- The accumulator has taken in `stream`, for the challenges `rs`.
pub record Tracks (acc : Accumulator) (rs stream : List ℕ) : Type 0 where
  pub challenged : acc.challenges ≡ rs
  pub counted : acc.size ≡ length stream
  pub sketched : acc.sketches ≡ map (λ r. weigh r 0 stream % modulus) rs
  pub powered : acc.powers ≡ map (λ r. r ^ length stream % modulus) rs

module _ (h : Sha) where
  pub length-chunk_leaves :
      (offset idx : ℕ) (values : List ℕ) → length (chunk_leaves h offset idx values) ≡ length values
  unfolding chunk_leaves
  length-chunk_leaves offset idx [] = refl
  length-chunk_leaves offset idx (v ∷ vs) = ap suc (length-chunk_leaves offset (idx + 1) vs)

  pub merkle_from_values_total :
      (values : List ℕ) (offset : ℕ)
      → 0 < length values
      → (root : Bytes) × (merkle_from_values h values offset ≡ ok root)
  unfolding merkle_from_values
  merkle_from_values_total [] offset p = elim p [ ]
  merkle_from_values_total (v ∷ vs) offset p =
      let (levels, root, built, rooted) =
        build_levels_total h (chunk_leaves h offset 0 (v ∷ vs))
          (omega (arith, length-chunk_leaves offset 0 (v ∷ vs))) in
      let some_values : (length (v ∷ vs) == 0) ≡ false = ground arith in
      (root, rw some_values (rw built rooted))

  pub hash_root_update_total :
      (root : Bytes) (offset : ℕ) (chunk_root : Bytes)
      → (next : Bytes) × (hash_root_update h root offset chunk_root ≡ ok next)
  unfolding hash_root_update
  hash_root_update_total root offset chunk_root =
      let (y, e) =
        poseidon2_hash_total (from_bytes root % modulus) (offset % modulus)
          (from_bytes chunk_root % modulus) in
      (to_bytes 32 (y % modulus), rw e refl)

  -- The record that `add_chunk` appends.
  pub record Appended (archive : Option (ℕ → List ℕ → Bytes)) (values : List ℕ)
      (acc acc' : Accumulator) : Type 0 where
    pub chunk : ChunkRecord
    pub last : acc'.chunks ≡ acc.chunks ++ chunk ∷ []
    pub from : chunk.offset ≡ acc.size
    pub long : chunk.size ≡ length values
    pub rooted : merkle_from_values h (reduce values) acc.size ≡ ok chunk.root
    pub kept :
        (chunk.archive_handle, chunk.values)
        ≡ store_values h archive (length acc.chunks) (reduce values)
    pub sized : acc'.size ≡ acc.size + length values
    pub chunked : acc'.chunk_len ≡ acc.chunk_len
    pub counts : acc'.num_challenges ≡ acc.num_challenges
    pub chained : hash_root_update h acc.root acc.size chunk.root ≡ ok acc'.root

  -- The state after a chunk, from what the steps of `add_chunk` gave.
  abbrev next_state :
      Option (ℕ → List ℕ → Bytes) → List ℕ → Accumulator → Bytes → Bytes → Updated → Accumulator
  next_state archive values acc chunk_root root updated =
      let stored = store_values h archive (length acc.chunks) (reduce values) in
      record acc {
        size = acc.size + length (reduce values);
        chunks =
            acc.chunks
            ++ (record {
              values = stored.1;
              offset = acc.size;
              size = length (reduce values);
              root = chunk_root;
              sketch_vec = updated.chunk_sketch;
              archive_handle = stored.0;
            }
                ∷ []);
        root = root;
        sketches = updated.sketches;
        powers = updated.powers;
      }

  add_chunk-ok :
      (archive : Option (ℕ → List ℕ → Bytes)) (values : List ℕ) (acc : Accumulator)
      (chunk_root root : Bytes) (u : Updated)
      → 0 < length values
      → merkle_from_values h (reduce values) acc.size ≡ ok chunk_root
      → stream_challenges acc.challenges acc.sketches acc.powers (reduce values) ≡ ok u
      → hash_root_update h acc.root acc.size chunk_root ≡ ok root
      → add_chunk h archive values acc ≡ ok (next_state archive values acc chunk_root root u)
  unfolding add_chunk
  add_chunk-ok archive values acc chunk_root root u p e s f =
      let some_values : (length values == 0) ≡ false = ground arith in
      rw some_values (rw e (rw s (rw f refl)))

  abbrev updated_by : List ℕ → List ℕ → List ℕ → Updated
  updated_by rs stream vs = record {
    chunk_sketch = map (λ r. weigh r (length stream) vs % modulus) rs;
    sketches = map (λ r. (weigh r 0 stream + weigh r (length stream) vs) % modulus) rs;
    powers = map (λ r. r ^ (length stream + length vs) % modulus) rs;
  }

  stream_tracked :
      (challenges sketches powers rs stream vs : List ℕ)
      → challenges ≡ rs
      → sketches ≡ map (λ r. weigh r 0 stream % modulus) rs
      → powers ≡ map (λ r. r ^ length stream % modulus) rs
      → stream_challenges challenges sketches powers vs ≡ ok (updated_by rs stream vs)
  stream_tracked challenges sketches powers rs stream vs c s p =
      rw (c, s, p) (stream_challenges_lem (λ r. weigh r 0 stream) (length stream) rs vs)

  sketches_of_append :
      (rs stream vs : List ℕ)
      → map (λ r. (weigh r 0 stream + weigh r (length stream) vs) % modulus) rs
        ≡ map (λ r. weigh r 0 (stream ++ vs) % modulus) rs
  sketches_of_append rs stream vs = ap (λ (f : ℕ → ℕ). map f rs) (fun_ext pointwise)
    where
      pointwise :
          (r : ℕ)
          → (weigh r 0 stream + weigh r (length stream) vs) % modulus
            ≡ weigh r 0 (stream ++ vs) % modulus
      pointwise r =
          ap (λ (t : ℕ). t % modulus)
            (ap (λ (t : ℕ). weigh r 0 stream + weigh r t vs) (sym (zero-add (length stream)))
              ∙ sym (weigh-append r 0 stream vs))

  -- A chunk with a value is taken in.
  pub add_chunk_total :
      (archive : Option (ℕ → List ℕ → Bytes)) (values rs stream : List ℕ) (acc : Accumulator)
      → 0 < length values
      → Tracks acc rs stream
      → (acc' : Accumulator) × (add_chunk h archive values acc ≡ ok acc')
        × Tracks acc' rs (stream ++ reduce values)
        × Appended archive values acc acc'
  add_chunk_total archive values rs stream acc p t =
      let same = length-map (λ v. v % modulus) values in
      let (root, e) = merkle_from_values_total (reduce values) acc.size (omega (arith, same)) in
      let (next, f) = hash_root_update_total acc.root acc.size root in
      let u = updated_by rs stream (reduce values) in
      let s =
        stream_tracked acc.challenges acc.sketches acc.powers rs stream (reduce values) t.challenged
          t.sketched t.powered in
      let n = t.counted in
      let total = length-append stream (reduce values) in
      (
        next_state archive values acc root next u,
        add_chunk-ok archive values acc root next u p e s f,
        record {
          challenged = t.challenged;
          counted = omega (arith, total);
          sketched = sketches_of_append rs stream (reduce values);
          powered = ap (λ (k : ℕ). map (λ r. r ^ k % modulus) rs) (sym total);
        },
        record {
          chunk = _;
          last = refl;
          from = refl;
          long = same;
          rooted = e;
          kept = refl;
          sized = omega (arith, same);
          chunked = refl;
          counts = refl;
          chained = f;
        },
      )

  -- Chunks that are not empty are all taken in, and then the length, the sketches and the powers are
  -- those of the whole stream of reduced values: for each challenge r the sketch is the polynomial
  -- of the stream at r modulo the prime, and the power is r to the length. So they do not depend on
  -- where the stream was cut.
  pub add_chunks_sketches :
      (archive : Option (ℕ → List ℕ → Bytes)) (chunks : List (List ℕ)) (rs stream : List ℕ)
      (acc : Accumulator)
      → All (λ c. 0 < length c) chunks
      → Tracks acc rs stream
      → (acc' : Accumulator) × (add_chunks h archive chunks acc ≡ ok acc')
        × Tracks acc' rs (stream ++ stream_of chunks)
  unfolding add_chunks
  add_chunks_sketches archive [] rs stream acc p t = (acc, refl, rw (append-nil stream) t)
  add_chunks_sketches archive (values ∷ rest) rs stream acc p t =
      let (acc', e, t', _) = add_chunk_total archive values rs stream acc p.0 t in
      let (final, f, u) =
        add_chunks_sketches archive rest rs (stream ++ reduce values) acc' p.1 t' in
      (
        final,
        rw e f,
        subst (Tracks final rs) (append_assoc stream (reduce values) (stream_of rest)) u,
      )
