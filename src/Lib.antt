-- ===== src/Lib.antt =====
-- Verification of CapSeal (the CapsuleTech repository): the commitments and the proof system of the
-- Python package bef_zk. A capsule seals a trace of a computation. Its values are streamed into an
-- accumulator (bef_zk/stc/aok_cpu.py), whose chunks are leaves of Merkle trees
-- (bef_zk/stc/merkle.py); a vector commitment (bef_zk/stc/vc.py, bef_zk/stc/pc_backend.py) opens
-- single values, chunks and batches of them. FRI (bef_zk/fri) folds a committed codeword over such
-- a commitment, the polynomial commitment (bef_zk/pc) wraps FRI, and the geometry AIR (bef_zk/air)
-- states what a trace must satisfy. Chunks are fetched through bef_zk/da, and the command line
-- turns a verifier's error code into an exit code (bef_zk/capsule/cli/exit_codes.py).
--
-- Which file models which part:
--
-- - Common and the files below it: lists over native numbers, results with Python's exceptions,
--   bytes, the field of 2^61 - 1, ascending lists for sorted sets, association lists for
--   dictionaries, and a toy hash at which examples are evaluated.
-- - Stc/Merkle.antt: `build_levels`, `root_from_levels`, `prove`, `verify`. The while loop of
--   `build_levels` runs on fuel, as many rounds as leaves; Stc/Merkle/Depth shows that the height
--   which results is the least one, so the fuel is enough.
-- - Stc/Kary.antt: `build_kary_levels`, `prove_kary`, `verify_kary`, for an arity of at least 1.
--   The loops run on the number of leaves or nodes as fuel, and Stc/Kary/Completeness shows that a
--   tree with one root results.
-- - Stc/Multi.antt: `multiproof` and `verify_multiproof` of the same file. A set is a list with a
--   test for members; the lists of indices are ascending.
-- - Stc/Poseidon.antt: bef_zk/stc/poseidon2.py.
-- - Stc/Accumulator.antt: `StreamingAccumulatorCPU` as the record `Accumulator`, `add_chunk` and
--   the functions that it calls. `derive_challenges` takes fuel, since the source loops until it
--   has found enough non-zero candidates; a round for each challenge is enough where no candidate
--   is 0.
-- - Stc/Vector.antt: the data of bef_zk/stc/vc.py, and the operations that FRI calls as an
--   interface with laws. Stc/Vc.antt and Stc/Vc/Batch.antt: `STCVectorCommitment` on the CPU path,
--   an instance of it; Stc/Vc/Laws has its laws. The store is a list of entries by root, in which
--   the latest entry of a root counts; the cache of chunk trees in `open_batch` is left out, since
--   a tree is computed from the entry. Stc/Plain.antt is another instance, at which a rejection is
--   shown.
-- - Stc/Backend.antt: bef_zk/stc/pc_backend.py over a sequence of values; the attribute
--   `_chunk_levels` is a field.
-- - Stc/Archive.antt: `BinaryChunkArchive` of bef_zk/stc/archive.py, over the contents of its two
--   files.
-- - Codec and the files below it: bef_zk/codec/canonical_cbor.py. A value is a tree with lists and
--   dictionaries, a text its UTF-8 bytes, a float the bits of its double; `str` of a value that is
--   no text is a parameter. The decoder has a round to each byte and one, and Codec/Ends/Decoder
--   shows that they are enough.
-- - Fri/Config.antt, Fri/Domain.antt, Fri/Types.antt, Fri/Prover.antt, Fri/Verifier.antt: the files
--   of bef_zk/fri by the same names. `bit_length` runs on the number itself as fuel, which
--   Fri/Config/PowerOfTwo shows to be enough for powers of two.
-- - Pc.antt: bef_zk/pc/stc_fri_pc.py.
-- - Air/Trace.antt and Air/Table.antt: bef_zk/air/geom_air.py. Air/Constraints.antt and
--   Air/Composition.antt: bef_zk/air/geom_constraints.py. `next_power_of_two` runs on its argument
--   as fuel, and Air/Domain shows that this is enough.
-- - Da.antt: bef_zk/da/provider.py. The file system is a function from handles to values, and the
--   wrapped provider a sequence of answers.
-- - Capsule/Header.antt: bef_zk/capsule/header.py, over dictionaries of the codec.
--   Capsule/Payload.antt: bef_zk/capsule/payload.py and the hashes of bef_zk/codec/__init__.py.
-- - Capsule/CapFormat.antt: paths and extraction of bef_zk/capsule/cli/cap_format.py, over a file
--   system that maps paths to files and directories and holds no links.
-- - Capsule/ExitCodes.antt: bef_zk/verifier_errors.py and bef_zk/capsule/cli/exit_codes.py.
--
-- Assumptions: SHA-256 is a parameter, a function to 32 bytes; a theorem on binding ends in a
-- collision of it. Python's integers are natural numbers where the code only uses such, and a
-- subtraction modulo the prime is written out. Integers that the code packs into a fixed number of
-- bytes are taken to fit. Dictionaries of columns, masks and challenges are functions from their
-- keys.
--
-- Not modelled: the Rust and CUDA variants of these functions, files and JSON, the GPU path and the
-- single openings of STCVectorCommitment, bef_zk/codec/bef_compact.py, bef_zk/zk_geom, the rest of
-- bef_zk/capsule, the scripts, back ends and servers.
pub mod Common
pub mod Codec
pub mod Stc
pub mod Fri
pub mod Pc
pub mod Air
pub mod Da
pub mod Capsule
