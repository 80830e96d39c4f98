-- ===== src/Stc/Archive/Examples.antt =====
-- An archive at concrete chunks.
use capsule_tech.Common.{
  ℕ, ◌<◌, ◌≤◌, ◌≡◌, refl, some, List, [], ◌∷◌, length, get_elem?, ok, err, index_error, value_error,
  runtime_error, or_raise, arith, true, false,
}
use capsule_tech.Common.Bytes.{Bytes}
use capsule_tech.Stc.Archive.{
  BinaryChunkArchive, new_archive, store_chunk, finalize, load_existing, load_chunk_by_index,
}
use capsule_tech.Stc.Archive.Holds.{store_all}
use capsule_tech.Stc.Archive.Reopen.{stored-reopened}
use capsule_tech.Stc.Archive.Bounds.{Apart, InFile, At, load_existing-reads}

abbrev chunks : List (List ℕ)
chunks = (5 ∷ 700 ∷ []) ∷ (9 ∷ []) ∷ []

stored-reopened_example :
    (a b r : BinaryChunkArchive) × (store_all new_archive 0 chunks ≡ ok a)
    × (finalize a ≡ ok b)
    × (load_existing b.data_file b.index_file ≡ ok r)
    × (r.num_chunks ≡ length chunks)
    × ((i : ℕ) → load_chunk_by_index r i ≡ or_raise index_error (get_elem? chunks i))
    × ((i : ℕ) (vs : List ℕ) → store_chunk r i vs ≡ err runtime_error)
stored-reopened_example =
    stored-reopened chunks
      (
        record { words = omega arith; size = omega arith },
        (record { words = omega arith; size = omega arith }, tt),
      )
      (omega arith) (omega arith) (omega arith)

-- One chunk of one value, after a gap of one word, and its index
abbrev file : Bytes
file =
    83 ∷ 84 ∷ 67 ∷ 65 ∷ 1 ∷ 0 ∷ 0 ∷ 0 ∷ 1 ∷ 0 ∷ 0 ∷ 0 ∷ 0 ∷ 0 ∷ 0 ∷ 0 ∷ 0 ∷ 0 ∷ 0 ∷ 0 ∷ 0 ∷ 0 ∷ 0
    ∷ 0 ∷ 9 ∷ 0 ∷ 0 ∷ 0 ∷ 0 ∷ 0 ∷ 0 ∷ 0 ∷ []

abbrev entries : Bytes
entries = 24 ∷ 0 ∷ 0 ∷ 0 ∷ 0 ∷ 0 ∷ 0 ∷ 0 ∷ 1 ∷ 0 ∷ 0 ∷ 0 ∷ []

abbrev opened_on : BinaryChunkArchive
opened_on = record {
  num_chunks = 1;
  current_offset = 32;
  index = (24, 1) ∷ [];
  opened = false;
  finalized = true;
  data_file = file;
  index_file = entries;
}

file_loads : load_existing file entries ≡ ok opened_on
unfolding load_existing
file_loads = refl

load_existing-reads_example :
    Apart 16 opened_on.index
    × ((i : ℕ)
        → i < opened_on.num_chunks
        → (entry : ℕ × ℕ) × (chunk : List ℕ) × (get_elem? opened_on.index i ≡ some entry)
          × InFile (length file) entry
          × (load_chunk_by_index opened_on i ≡ ok chunk)
          × At file entry chunk)
    × ((i : ℕ) → opened_on.num_chunks ≤ i → load_chunk_by_index opened_on i ≡ err index_error)
load_existing-reads_example = load_existing-reads file entries file_loads

-- An entry that points behind the file is refused.
beyond : load_existing file (32 ∷ 0 ∷ 0 ∷ 0 ∷ 0 ∷ 0 ∷ 0 ∷ 0 ∷ 1 ∷ 0 ∷ 0 ∷ 0 ∷ []) ≡ err value_error
unfolding load_existing
beyond = refl
