-- ===== src/Stc/Archive/Holds.antt =====
-- An archive that is being written holds the chunks that were stored, in order.
use mathlib.Core.Path.{subst}
use mathlib.Core.List.{append_assoc, append-nil}
use capsule_tech.Common.{
  ℕ, ◌+◌, ◌*◌, ◌^◌, ◌<◌, ◌≤◌, ◌≡◌, refl, sym, ap, ◌∙◌, true, false, List, [], ◌∷◌, ◌++◌, length,
  length-append, All, lt→ltb, ==_refl, Result, ok, ◌>>=◌, arith,
}
use capsule_tech.Common.Bytes.{Bytes, to_little}
use capsule_tech.Stc.Archive.{
  BinaryChunkArchive, binary_magic, pack, pack_values, ensure_open, store_chunk,
}

-- The bytes of a chunk, of the chunks in a row, and of the index from an offset on
abbrev pub chunk_bytes : List ℕ → Bytes
chunk_bytes [] = []
chunk_bytes (v ∷ vs) = to_little 8 v ++ chunk_bytes vs

abbrev pub body : List (List ℕ) → Bytes
body [] = []
body (c ∷ cs) = chunk_bytes c ++ body cs

abbrev pub offsets : ℕ → List (List ℕ) → List (ℕ × ℕ)
offsets from [] = []
offsets from (c ∷ cs) = (from, length c) ∷ offsets (from + length c * 8) cs

abbrev pub index_bytes : List (ℕ × ℕ) → Bytes
index_bytes [] = []
index_bytes ((offset, size) ∷ rest) = (to_little 8 offset ++ to_little 4 size) ++ index_bytes rest

-- How many values the chunks have
abbrev pub total : List (List ℕ) → ℕ
total [] = 0
total (c ∷ cs) = length c + total cs

abbrev pub file_header : ℕ → Bytes
file_header count = binary_magic ++ (to_little 4 1 ++ to_little 8 count)

-- An open archive with these chunks; before the first chunk the files are not open.
pub record Open (a : BinaryChunkArchive) (cs : List (List ℕ)) : Type 0 where
  pub opened : a.opened ≡ true
  pub data_file : a.data_file ≡ file_header 0 ++ body cs
  pub index_file : a.index_file ≡ index_bytes (offsets 16 cs)

pub record Holds (a : BinaryChunkArchive) (cs : List (List ℕ)) : Type 0 where
  pub writable : a.finalized ≡ false
  pub count : a.num_chunks ≡ length cs
  pub offset : a.current_offset ≡ 16 + total cs * 8
  pub index : a.index ≡ offsets 16 cs

-- What a chunk must satisfy to be stored and loaded again
pub record Storable (c : List ℕ) : Type 0 where
  pub words : All (λ (v : ℕ). v < 2 ^ 64) c
  pub size : length c ≤ 16000000

body-append : (cs : List (List ℕ)) (c : List ℕ) → body (cs ++ c ∷ []) ≡ body cs ++ chunk_bytes c
body-append [] c = append-nil (chunk_bytes c)
body-append (d ∷ cs) c =
    ap (λ x. chunk_bytes d ++ x) (body-append cs c)
    ∙ sym (append_assoc (chunk_bytes d) (body cs) (chunk_bytes c))

total-append : (cs : List (List ℕ)) (c : List ℕ) → total (cs ++ c ∷ []) ≡ total cs + length c
total-append [] c = omega arith
total-append (d ∷ cs) c = omega (arith, total-append cs c)

offsets-append :
    (from : ℕ) (cs : List (List ℕ)) (c : List ℕ)
    → offsets from (cs ++ c ∷ []) ≡ offsets from cs ++ ((from + total cs * 8, length c) ∷ [])
offsets-append from [] c = ap (λ (k : ℕ). (k, length c) ∷ []) (omega arith)
offsets-append from (d ∷ cs) c =
    ap (λ x. (from, length d) ∷ x) (offsets-append (from + length d * 8) cs c)
    ∙ ap (λ (k : ℕ). (from, length d) ∷ (offsets (from + length d * 8) cs ++ ((k, length c) ∷ [])))
        (omega arith)

index_bytes-append :
    (xs : List (ℕ × ℕ)) (o n : ℕ)
    → index_bytes (xs ++ ((o, n) ∷ [])) ≡ index_bytes xs ++ (to_little 8 o ++ to_little 4 n)
index_bytes-append [] o n = append-nil (to_little 8 o ++ to_little 4 n)
index_bytes-append ((p, m) ∷ xs) o n =
    ap (λ x. (to_little 8 p ++ to_little 4 m) ++ x) (index_bytes-append xs o n)
    ∙ sym (
        append_assoc (to_little 8 p ++ to_little 4 m) (index_bytes xs)
          (to_little 8 o ++ to_little 4 n))

pub pack-fits : (n v : ℕ) → v < 256 ^ n → pack n v ≡ ok (to_little n v)
unfolding pack
pack-fits n v h = rw (lt→ltb v (256 ^ n) h) refl

pack_values-fit : (c : List ℕ) → All (λ (v : ℕ). v < 2 ^ 64) c → pack_values c ≡ ok (chunk_bytes c)
unfolding pack_values
pack_values-fit [] h = refl
pack_values-fit (v ∷ vs) h = rw (pack-fits 8 v h.0, pack_values-fit vs h.1) refl

-- The files, before the first chunk and after it
pub data Files (a : BinaryChunkArchive) (cs : List (List ℕ)) : Type 0 where
  fresh : a.opened ≡ false → cs ≡ [] → Files a cs
  writing : Open a cs → Files a cs

opens :
    (a : BinaryChunkArchive) (cs : List (List ℕ))
    → Holds a cs
    → Files a cs
    → (b : BinaryChunkArchive) × (ensure_open a ≡ ok b) × Holds b cs × Open b cs
unfolding ensure_open
opens a cs h (fresh shut none_yet) = (
  record a { opened = true; data_file = file_header 0; index_file = [] },
  (rw (h.writable, shut) refl),
  record { writable = h.writable; count = h.count; offset = h.offset; index = h.index },
  record {
    opened = refl;
    data_file = rw none_yet (sym (append-nil (file_header 0)));
    index_file = rw none_yet refl;
  },
)
opens a cs h (writing o) = (a, (rw (h.writable, o.opened) refl), h, o)

-- An archive takes in a chunk under the next index.
pub store_chunk-Holds :
    (a : BinaryChunkArchive) (cs : List (List ℕ)) (c : List ℕ)
    → Holds a cs
    → Files a cs
    → Storable c
    → 16 + (total cs + length c) * 8 < 2 ^ 64
    → (b : BinaryChunkArchive) × (store_chunk a (length cs) c ≡ ok b)
      × Holds b (cs ++ c ∷ [])
      × Open b (cs ++ c ∷ [])
unfolding store_chunk
store_chunk-Holds closed cs c holds files storable room =
    let (a, opened, h, o) = opens closed cs holds files in
    let offset_fits : a.current_offset < 256 ^ 8 = omega (arith, h.offset) in
    let size_fits : length c < 256 ^ 4 = omega (arith, storable.size) in
    (
      record a {
        data_file = a.data_file ++ chunk_bytes c;
        index_file = a.index_file ++ (to_little 8 a.current_offset ++ to_little 4 (length c));
        index = a.index ++ ((a.current_offset, length c) ∷ []);
        current_offset = a.current_offset + length c * 8;
        num_chunks = a.num_chunks + 1;
      },
      (rw
          (
            opened,
            ← h.count,
            ==_refl a.num_chunks,
            pack_values-fit c storable.words,
            pack-fits 8 a.current_offset offset_fits,
            pack-fits 4 (length c) size_fits,
          )
          refl),
      record {
        writable = h.writable;
        count = omega (arith, h.count, length-append cs (c ∷ []));
        offset = omega (arith, h.offset, total-append cs c);
        index = rw (h.index, h.offset) (sym (offsets-append 16 cs c));
      },
      record {
        opened = o.opened;
        data_file =
            ap (λ x. x ++ chunk_bytes c) o.data_file
            ∙ append_assoc (file_header 0) (body cs) (chunk_bytes c)
            ∙ ap (λ x. file_header 0 ++ x) (sym (body-append cs c));
        index_file =
            rw (o.index_file, h.offset)
              (sym (index_bytes-append (offsets 16 cs) (16 + total cs * 8) (length c))
                ∙ ap index_bytes (sym (offsets-append 16 cs c)));
      },
    )

-- Chunks stored one after the other, from the next index on
unfoldable pub store_all : BinaryChunkArchive → ℕ → List (List ℕ) → Result BinaryChunkArchive
unfolding store_chunk
store_all a next [] = ok a
store_all a next (c ∷ cs) = store_chunk a next c >>= λ b. store_all b (next + 1) cs

pub store_all-Holds :
    (a : BinaryChunkArchive) (cs ds : List (List ℕ))
    → Holds a cs
    → Files a cs
    → All Storable ds
    → 16 + (total cs + total ds) * 8 < 2 ^ 64
    → (b : BinaryChunkArchive) × (store_all a (length cs) ds ≡ ok b)
      × Holds b (cs ++ ds)
      × Files b (cs ++ ds)
unfolding store_all
store_all-Holds a cs [] h f s room = rw (append-nil cs) (a, refl, h, f)
store_all-Holds a cs (d ∷ ds) h f s room =
    let (b, stored, hb, ob) = store_chunk-Holds a cs d h f s.0 (omega arith) in
    let (e, rest, he, fe) =
      store_all-Holds b (cs ++ d ∷ []) ds hb (writing ob) s.1 (omega (arith, total-append cs d)) in
    let next : length (cs ++ d ∷ []) ≡ length cs + 1 = omega (arith, length-append cs (d ∷ [])) in
    let joined : (cs ++ d ∷ []) ++ ds ≡ cs ++ d ∷ ds = append_assoc cs (d ∷ []) ds in
    (e, (rw (stored, ← next) rest), subst (Holds e) joined he, subst (Files e) joined fe)
