-- ===== src/Stc/Archive/Reopen.antt =====
-- An archive that is finalized and opened again shows the chunks that were stored.
use capsule_tech.Common.{
  ℕ, zero, suc, ◌+◌, ◌*◌, ◌^◌, ◌<◌, ◌≤◌, ◌≡◌, refl, ap, ◌∙◌, true, false, List, [], ◌∷◌, ◌++◌,
  length, get_elem?, take, drop, All, ge→ltb, ==_refl, ok, or_raise, arith, none, index_error,
  runtime_error, err, Option-cases, inl, inr, get_elem?-none, All-get_elem?,
}
use capsule_tech.Common.Bytes.{Bytes, bytes_eq, to_little, from_little}
use capsule_tech.Stc.Archive.{
  BinaryChunkArchive, new_archive, binary_magic, finalize, read_index, end_of, load_existing,
  load_chunk_by_index, store_chunk,
}
use capsule_tech.Stc.Archive.Holds.{
  body, offsets, index_bytes, total, file_header, Open, Holds, Storable, Files, fresh, writing,
  pack-fits, store_all, store_all-Holds,
}
use capsule_tech.Stc.Archive.Words.{
  first_word, length-body, length-index_bytes, length-offsets, unpack-chunk_bytes,
  read_index-index_bytes, chunk_at,
}

magic_read : (n : ℕ) (rest : Bytes) → take 4 (file_header n ++ rest) ≡ binary_magic
magic_read n rest = refl

version_read : (n : ℕ) (rest : Bytes) → from_little (take 4 (drop 4 (file_header n ++ rest))) ≡ 1
unfolding to_little from_little
version_read n rest = refl

after_version : (n : ℕ) (rest : Bytes) → drop 8 (file_header n ++ rest) ≡ to_little 8 n ++ rest
unfolding to_little
after_version n rest = refl

after_header : (n : ℕ) (rest : Bytes) → drop 16 (file_header n ++ rest) ≡ rest
unfolding to_little
after_header n rest = refl

counted_header :
    (n : ℕ) (rest : Bytes)
    → take 8 (file_header 0 ++ rest) ++ (to_little 8 n ++ drop 16 (file_header 0 ++ rest))
      ≡ file_header n ++ rest
unfolding to_little
counted_header n rest = refl

length-file : (n : ℕ) (cs : List (List ℕ)) → length (file_header n ++ body cs) ≡ 16 + total cs * 8
unfolding to_little
length-file n cs = omega (arith, length-body cs)

finalize-Open :
    (a : BinaryChunkArchive) (cs : List (List ℕ))
    → Holds a cs
    → Open a cs
    → length cs < 2 ^ 64
    → (b : BinaryChunkArchive) × (finalize a ≡ ok b)
      × (b.data_file ≡ file_header (length cs) ++ body cs)
      × (b.index_file ≡ index_bytes (offsets 16 cs))
unfolding finalize
finalize-Open a cs h o few = (
  record a {
    data_file = take 8 a.data_file ++ (to_little 8 a.num_chunks ++ drop 16 a.data_file);
    opened = false;
    finalized = true;
  },
  (rw (o.opened, pack-fits 8 a.num_chunks (omega (arith, h.count))) refl),
  (rw (o.data_file, h.count) (counted_header (length cs) (body cs))),
  o.index_file,
)

-- What is opened again
abbrev reopened : List (List ℕ) → BinaryChunkArchive
reopened cs = record {
  num_chunks = length cs;
  current_offset = end_of 16 (offsets 16 cs);
  index = offsets 16 cs;
  opened = false;
  finalized = true;
  data_file = file_header (length cs) ++ body cs;
  index_file = index_bytes (offsets 16 cs);
}

-- What passes the checks is loaded.
pub load_existing-checked :
    (file entries : Bytes) (n : ℕ) (index : List (ℕ × ℕ))
    → take 4 file ≡ binary_magic
    → from_little (take 4 (drop 4 file)) ≡ 1
    → from_little (take 8 (drop 8 file)) ≡ n
    → length entries ≡ n * 12
    → n ≤ 100000000
    → read_index (length file) n 16 entries ≡ ok index
    → load_existing file entries
      ≡ ok (record {
        num_chunks = n;
        current_offset = end_of 16 index;
        index = index;
        opened = false;
        finalized = true;
        data_file = file;
        index_file = entries;
      })
unfolding load_existing bytes_eq
load_existing-checked file entries n index magic version count size few read =
    rw (magic, version, count, size, ==_refl (n * 12), ge→ltb 100000000 n few, read) refl

load_existing-reopened :
    (cs : List (List ℕ))
    → All Storable cs
    → length cs ≤ 100000000
    → 16 + total cs * 8 < 2 ^ 64
    → load_existing (file_header (length cs) ++ body cs) (index_bytes (offsets 16 cs))
      ≡ ok (reopened cs)
load_existing-reopened cs s few room =
    let fits : 16 + total cs * 8 ≤ length (file_header (length cs) ++ body cs) =
      omega (arith, length-file (length cs) cs) in
    let small : length (file_header (length cs) ++ body cs) < 2 ^ 64 =
      omega (arith, length-file (length cs) cs) in
    load_existing-checked (file_header (length cs) ++ body cs) (index_bytes (offsets 16 cs))
      (length cs) (offsets 16 cs) (magic_read (length cs) (body cs))
      (version_read (length cs) (body cs))
      (ap (λ x. from_little (take 8 x)) (after_version (length cs) (body cs))
        ∙ first_word 8 (length cs) (body cs) (omega arith))
      (length-index_bytes (offsets 16 cs) ∙ ap (λ (k : ℕ). k * 12) (length-offsets 16 cs)) few
      (read_index-index_bytes (length (file_header (length cs) ++ body cs)) 16 cs s fits small)

get_elem?-none→le {ℓ} : {A : Type ℓ} (xs : List A) (i : ℕ) → get_elem? xs i ≡ none → length xs ≤ i
get_elem?-none→le [] i e = omega arith
get_elem?-none→le (x ∷ xs) zero e = absurd (cc)
get_elem?-none→le (x ∷ xs) (suc i) e = omega (arith, get_elem?-none→le xs i e)

load_chunk_by_index-reopened :
    (cs : List (List ℕ)) (i : ℕ)
    → All Storable cs
    → load_chunk_by_index (reopened cs) i ≡ or_raise index_error (get_elem? cs i)
unfolding load_chunk_by_index
load_chunk_by_index-reopened cs i s = elim (Option-cases (get_elem? cs i)) [
  | inl out ↦ rw out (
      rw
        (get_elem?-none (offsets 16 cs) i
          (omega (arith, length-offsets 16 cs, get_elem?-none→le cs i out)))
        refl)
  | inr (c, found) ↦
      let (o, there, shown) =
        chunk_at (file_header (length cs) ++ body cs) 16 cs i (after_header (length cs) (body cs))
          found in
      rw (there, shown, found, unpack-chunk_bytes c (All-get_elem? Storable cs i s found).words)
        refl
]

new-Holds : Holds new_archive []
new-Holds = record { writable = refl; count = refl; offset = refl; index = refl }

Files-Open : (a : BinaryChunkArchive) (cs : List (List ℕ)) → Files a cs → 0 < length cs → Open a cs
Files-Open a cs (fresh shut none_yet) some_chunk = absurd (omega (arith, ap length none_yet))
Files-Open a cs (writing o) some_chunk = o

-- From the constructor on: chunks of 64-bit values, at least one and none over the limits that a
-- reader enforces, are stored one after the other and the archive is finalized. The files then pass
-- the checks of an archive that is opened on them; it has as many chunks, takes no more, and gives
-- under each index the chunk that was stored there, and `IndexError` under any other.
pub stored-reopened :
    (cs : List (List ℕ))
    → All Storable cs
    → 0 < length cs
    → length cs ≤ 100000000
    → 16 + total cs * 8 < 2 ^ 64
    → (a b r : BinaryChunkArchive) × (store_all new_archive 0 cs ≡ ok a)
      × (finalize a ≡ ok b)
      × (load_existing b.data_file b.index_file ≡ ok r)
      × (r.num_chunks ≡ length cs)
      × ((i : ℕ) → load_chunk_by_index r i ≡ or_raise index_error (get_elem? cs i))
      × ((i : ℕ) (vs : List ℕ) → store_chunk r i vs ≡ err runtime_error)
unfolding store_chunk
stored-reopened cs s some_chunk few room =
    let (a, stored, holds, files) =
      store_all-Holds new_archive [] cs new-Holds (fresh refl refl) s (omega arith) in
    let (b, closed, written, indexed) =
      finalize-Open a cs holds (Files-Open a cs files some_chunk) (omega arith) in
    (
      a,
      b,
      reopened cs,
      stored,
      closed,
      (rw (written, indexed) (load_existing-reopened cs s few room)),
      refl,
      (λ i. load_chunk_by_index-reopened cs i s),
      λ i vs. refl,
    )
