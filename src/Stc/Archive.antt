-- ===== src/Stc/Archive.antt =====
-- bef_zk/stc/archive.py: `BinaryChunkArchive`, over the contents of its two files. A write appends to
-- the file; what a reader sees of a file that is still being written is left out, since Python
-- buffers writes until `finalize` closes the file.
pub mod Holds
pub mod Words
pub mod Reopen
pub mod Bounds
mod Examples
use capsule_tech.Common.{
  ℕ, zero, suc, ◌+◌, ◌*◌, ◌^◌, Bool, true, false, not, List, [], ◌∷◌, ◌++◌, length, get_elem?, take,
  drop, ltb, leb, ◌==◌, if◌then◌else◌, Result, ok, err, value_error, index_error, overflow_error,
  runtime_error, struct_error, ◌>>=◌, ◌>>◌, raise_if, or_raise,
}
use capsule_tech.Common.Bytes.{Bytes, bytes_eq, to_little, from_little}

abbrev pub binary_magic : Bytes
binary_magic = 83 ∷ 84 ∷ 67 ∷ 65 ∷ []

abbrev pub header_size : ℕ
header_size = 16

abbrev pub index_entry_size : ℕ
index_entry_size = 12

-- `data` is the file chunks.bin, `index_data` the file chunks.idx.
pub record BinaryChunkArchive : Type 0 where
  pub num_chunks : ℕ
  pub current_offset : ℕ
  pub index : List (ℕ × ℕ)
  pub opened : Bool
  pub finalized : Bool
  pub data_file : Bytes
  pub index_file : Bytes

-- The constructor where the files are not there
abbrev pub new_archive : BinaryChunkArchive
new_archive = record {
  num_chunks = 0;
  current_offset = header_size;
  index = [];
  opened = false;
  finalized = false;
  data_file = [];
  index_file = [];
}

-- `v.to_bytes(n, "little")`
unfoldable pub pack : ℕ → ℕ → Result Bytes
unfolding to_little
pack n v = if ltb v (256 ^ n) then ok (to_little n v) else err overflow_error

unfoldable pub ensure_open : BinaryChunkArchive → Result BinaryChunkArchive
unfolding to_little
ensure_open a = do
  raise_if a.finalized runtime_error
  ok (
      if a.opened then a else record a {
        opened = true;
        data_file = binary_magic ++ (to_little 4 1 ++ to_little 8 0);
        index_file = [];
      })

unfoldable pub pack_values : List ℕ → Result Bytes
unfolding pack
pack_values [] = ok []
pack_values (v ∷ vs) = do word ← pack 8 v; rest ← pack_values vs; ok (word ++ rest)

-- The handle that is returned names the index.
unfoldable pub store_chunk : BinaryChunkArchive → ℕ → List ℕ → Result BinaryChunkArchive
unfolding ensure_open pack_values pack
store_chunk closed chunk_index values = do
  a ← ensure_open closed
  raise_if (not (chunk_index == a.num_chunks)) value_error
  words ← pack_values values
  offset ← pack 8 a.current_offset
  size ← pack 4 (length values)
  ok (record a {
    data_file = a.data_file ++ words;
    index_file = a.index_file ++ (offset ++ size);
    index = a.index ++ ((a.current_offset, length values) ∷ []);
    current_offset = a.current_offset + length values * 8;
    num_chunks = a.num_chunks + 1;
  })

-- The count stands behind the magic and the version.
unfoldable pub finalize : BinaryChunkArchive → Result BinaryChunkArchive
unfolding pack
finalize a =
    if a.opened
    then (do
      count ← pack 8 a.num_chunks
      ok (record a {
        data_file = take 8 a.data_file ++ (count ++ drop 16 a.data_file);
        opened = false;
        finalized = true;
      }))
    else ok (record a { finalized = true })

-- The loop of `_load_existing`: `limit` is the size of the data file.
unfoldable pub read_index : ℕ → ℕ → ℕ → Bytes → Result (List (ℕ × ℕ))
unfolding from_little
read_index limit zero prev_end view = ok []
read_index limit (suc left) prev_end view = do
  let offset = from_little (take 8 view)
  let size = from_little (take 4 (drop 8 view))
  raise_if (ltb offset prev_end) value_error
  raise_if (ltb limit (offset + size * 8)) value_error
  raise_if (ltb 16000000 size) value_error
  rest ← read_index limit left (offset + size * 8) (drop 12 view)
  ok ((offset, size) ∷ rest)

-- Where the last chunk ends
abbrev pub end_of : ℕ → List (ℕ × ℕ) → ℕ
end_of prev_end [] = prev_end
end_of prev_end ((offset, size) ∷ rest) = end_of (offset + size * 8) rest

unfoldable pub load_existing : Bytes → Bytes → Result BinaryChunkArchive
unfolding bytes_eq from_little read_index
load_existing data_file index_file = do
  raise_if (not (bytes_eq (take 4 data_file) binary_magic)) value_error
  raise_if (not (from_little (take 4 (drop 4 data_file)) == 1)) value_error
  let num_chunks = from_little (take 8 (drop 8 data_file))
  raise_if (not (length index_file == num_chunks * index_entry_size)) value_error
  raise_if (ltb 100000000 num_chunks) value_error
  index ← read_index (length data_file) num_chunks header_size index_file
  ok (record {
    num_chunks = num_chunks;
    current_offset = end_of header_size index;
    index = index;
    opened = false;
    finalized = true;
    data_file = data_file;
    index_file = index_file;
  })

unfoldable pub words : ℕ → Bytes → List ℕ
unfolding from_little
words zero view = []
words (suc n) view = from_little (take 8 view) ∷ words n (drop 8 view)

-- `struct.unpack(f"<{n}Q", view)`, which wants as many bytes as the format has
unfoldable pub unpack : ℕ → Bytes → Result (List ℕ)
unfolding words
unpack n view = do raise_if (not (length view == n * 8)) struct_error; ok (words n view)

unfoldable pub load_chunk_by_index : BinaryChunkArchive → ℕ → Result (List ℕ)
unfolding unpack
load_chunk_by_index a chunk_index = do
  (offset, size) ← or_raise index_error (get_elem? a.index chunk_index)
  unpack size (take (size * 8) (drop offset a.data_file))
