-- ===== src/Stc/Accumulator/Examples.antt =====
-- Runs of bef_zk/stc/aok_cpu.py on short streams, and the theorems at those inputs.
use capsule_tech.Common.{
  ℕ, ◌%◌, ◌<◌, ◌≤◌, ◌≡◌, refl, none, List, [], ◌∷◌, ◌++◌, map, take, length, All, replicate,
  length-replicate, ok, err, value_error, arith,
}
use capsule_tech.Common.Bytes.{Sha, from_bytes_onto, to_bytes}
use capsule_tech.Common.Field.{modulus}
use capsule_tech.Common.Toy.{replicate-IsByte}
use capsule_tech.Stc.Accumulator.{
  Accumulator, candidate_at, chunk_sketch, sketch_values, derive_challenges, new_accumulator,
  add_chunk, add_chunks, stream_values,
}
use capsule_tech.Stc.Accumulator.Sketches.{weigh, chunk_sketch-eq-weigh}
use capsule_tech.Stc.Accumulator.Streaming.{
  Tracks, stream_of, add_chunks_sketches, add_chunk_total, Appended, reduce,
}
use capsule_tech.Stc.Accumulator.Challenges.{
  IsChallenge, units, derive_challenges-eq-take, run_sketches,
}

-- A hash function with one digest, which is no candidate's zero.
abbrev flat_sha : Sha
flat_sha = record {
  sha256 = λ b. replicate 32 1;
  length-sha256 = λ b. length-replicate {A = ℕ} 32 1;
  sha256-IsByte = λ b. replicate-IsByte 32 1 (omega arith);
}

candidates_positive : (i : ℕ) → 0 < candidate_at flat_sha (7 ∷ []) i
unfolding candidate_at from_bytes_onto
candidates_positive i = omega arith

streamed : stream_values 3 0 1 (1 ∷ 2 ∷ 3 ∷ []) ≡ (34, 27)
unfolding stream_values
streamed = refl

sketched_at_two : chunk_sketch (5 ∷ 6 ∷ []) 1 (2 ∷ 10 ∷ []) ≡ 34 ∷ 650 ∷ []
unfolding chunk_sketch sketch_values
sketched_at_two = refl

abbrev acc : Accumulator
acc = record {
  size = 0;
  chunk_len = 2;
  num_challenges = 1;
  chunks = [];
  root = 1 ∷ [];
  challenge_seed = 7 ∷ [];
  challenges = 3 ∷ [];
  sketches = 0 ∷ [];
  powers = 1 ∷ [];
}

empty_chunk : add_chunk flat_sha none [] acc ≡ err value_error
unfolding add_chunk
empty_chunk = refl

acc-Tracks : Tracks acc (3 ∷ []) []
acc-Tracks = record { challenged = refl; counted = refl; sketched = refl; powered = refl }

abbrev chunks : List (List ℕ)
chunks = (1 ∷ 2 ∷ []) ∷ (3 ∷ []) ∷ []

chunk_sketch-eq-weigh_example :
    chunk_sketch (5 ∷ 6 ∷ []) 1 (2 ∷ 10 ∷ [])
    ≡ map (λ r. weigh r 1 (5 ∷ 6 ∷ []) % modulus) (2 ∷ 10 ∷ [])
chunk_sketch-eq-weigh_example = chunk_sketch-eq-weigh (5 ∷ 6 ∷ []) 1 (2 ∷ 10 ∷ [])

add_chunk_total_example :
    (acc' : Accumulator) × (add_chunk flat_sha none (1 ∷ 2 ∷ []) acc ≡ ok acc')
    × Tracks acc' (3 ∷ []) ([] ++ reduce (1 ∷ 2 ∷ []))
    × Appended flat_sha none (1 ∷ 2 ∷ []) acc acc'
add_chunk_total_example =
    add_chunk_total flat_sha none (1 ∷ 2 ∷ []) (3 ∷ []) [] acc (omega arith) acc-Tracks

add_chunks_sketches_example :
    (acc' : Accumulator) × (add_chunks flat_sha none chunks acc ≡ ok acc')
    × Tracks acc' (3 ∷ []) ([] ++ stream_of chunks)
add_chunks_sketches_example =
    add_chunks_sketches flat_sha none chunks (3 ∷ []) [] acc (omega arith, (omega arith, tt))
      acc-Tracks

abbrev last_byte : List ℕ → ℕ
last_byte [] = 0
last_byte (b ∷ []) = b
last_byte (b ∷ c ∷ bs) = last_byte (c ∷ bs)

-- A hash function whose first candidate is 0
abbrev late_sha : Sha
late_sha = record {
  sha256 = λ b. replicate 32 (last_byte b % 256);
  length-sha256 = λ b. length-replicate {A = ℕ} 32 (last_byte b % 256);
  sha256-IsByte = λ b. replicate-IsByte 32 (last_byte b % 256) (omega arith);
}

late_units : 2 ≤ length (units late_sha 4 (7 ∷ []) 0)
unfolding candidate_at from_bytes_onto to_bytes
late_units = omega arith

derive_challenges-eq-take_example :
    (derive_challenges late_sha 4 (7 ∷ []) 2 ≡ ok (take 2 (units late_sha 4 (7 ∷ []) 0)))
    × (length (take 2 (units late_sha 4 (7 ∷ []) 0)) ≡ 2)
    × All IsChallenge (take 2 (units late_sha 4 (7 ∷ []) 0))
derive_challenges-eq-take_example = derive_challenges-eq-take late_sha 4 2 (7 ∷ []) late_units

run_sketches_example :
    (fresh : Accumulator) × (acc : Accumulator) × (rs : List ℕ) × (new_accumulator flat_sha 4 2 2
        (7 ∷ [])
      ≡ ok fresh)
    × (add_chunks flat_sha none chunks fresh ≡ ok acc)
    × (length rs ≡ 2)
    × All IsChallenge rs
    × Tracks acc rs (stream_of chunks)
run_sketches_example =
    run_sketches flat_sha none 4 2 2 (7 ∷ []) chunks candidates_positive (omega arith)
      (omega arith, (omega arith, tt))
