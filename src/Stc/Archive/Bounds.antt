-- ===== src/Stc/Archive/Bounds.antt =====
-- Whatever files an archive is opened on: what passes the checks can be read within the file.
use mathlib.Core.Path.{subst, ap₂}
use capsule_tech.Common.{
  ℕ, zero, suc, ◌+◌, ◌*◌, ◌<◌, ◌≤◌, ◌≡◌, refl, ap, ◌∙◌, not, some, List, [], ◌∷◌, length,
  length-take, length-drop, drop-add, take-take, drop-take, get_elem?, get_elem?_total,
  get_elem?-none, take, drop, All, All-get_elem?, ltb, ltb→ge, ◌==◌, ==_refl, ok, err, index_error,
  value_error, ok_value, >>=-eq-ok, raise_if-eq-ok, arith,
}
use capsule_tech.Common.Bytes.{Bytes, bytes_eq, from_little}
use capsule_tech.Stc.Archive.{
  BinaryChunkArchive, binary_magic, read_index, load_existing, words, unpack, load_chunk_by_index,
}

-- An entry whose chunk lies in the file and is not too long
abbrev pub InFile : ℕ → ℕ × ℕ → Type 0
InFile limit entry = (entry.0 + entry.1 * 8 ≤ limit) × (entry.1 ≤ 16000000)

-- Chunks that begin at the position or later, each where the one before it ends or later
abbrev pub Apart : ℕ → List (ℕ × ℕ) → Type 0
Apart from [] = Unit
Apart from ((offset, size) ∷ rest) = (from ≤ offset) × Apart (offset + size * 8) rest

record Read (limit left prev_end : ℕ) (index : List (ℕ × ℕ)) : Type 0 where
  counted : length index ≡ left
  inside : All (InFile limit) index
  apart : Apart prev_end index

read_index-Read :
    (limit left prev_end : ℕ) (view : Bytes) (index : List (ℕ × ℕ))
    → read_index limit left prev_end view ≡ ok index
    → Read limit left prev_end index
unfolding read_index
read_index-Read limit zero prev_end view index e =
    subst (Read limit 0 prev_end) (ok_value [] index e)
      (record { counted = refl; inside = tt; apart = tt })
read_index-Read limit (suc left) prev_end view index e =
    let offset = from_little (take 8 view) in
    let size = from_little (take 4 (drop 8 view)) in
    let (later, e1) = raise_if-eq-ok (ltb offset prev_end) value_error _ e in
    let (inside, e2) = raise_if-eq-ok (ltb limit (offset + size * 8)) value_error _ e1 in
    let (short, e3) = raise_if-eq-ok (ltb 16000000 size) value_error _ e2 in
    let (rest, read, e4) =
      >>=-eq-ok (read_index limit left (offset + size * 8) (drop 12 view)) _ e3 in
    let r = read_index-Read limit left (offset + size * 8) (drop 12 view) rest read in
    subst (Read limit (suc left) prev_end) (ok_value _ index e4) (record {
      counted = ap suc r.counted;
      inside = ((ltb→ge _ _ inside, ltb→ge _ _ short), r.inside);
      apart = (ltb→ge _ _ later, r.apart);
    })

length-words : (n : ℕ) (view : Bytes) → length (words n view) ≡ n
unfolding words
length-words zero view = refl
length-words (suc n) view = ap suc (length-words n (drop 8 view))

-- A slice within the file has its length.
unpack-slice :
    (view : Bytes) (offset size : ℕ)
    → offset + size * 8 ≤ length view
    → unpack size (take (size * 8) (drop offset view))
      ≡ ok (words size (take (size * 8) (drop offset view)))
unfolding unpack
unpack-slice view offset size inside =
    let whole : length (take (size * 8) (drop offset view)) ≡ size * 8 =
      omega (arith, length-take (size * 8) (drop offset view), length-drop offset view) in
    rw (whole, ==_refl (size * 8)) refl

-- The words of a slice are those of the file, from the slice's place on.
words-take : (n : ℕ) (view : Bytes) → words n (take (n * 8) view) ≡ words n view
unfolding words
words-take zero view = refl
words-take (suc n) view =
    let size : suc n * 8 ≡ 8 + n * 8 = omega arith in
    ap₂ (λ (v : ℕ) (vs : List ℕ). v ∷ vs)
      (ap from_little (take-take 8 (suc n * 8) view (omega arith)))
      (ap (λ (k : ℕ). words n (drop 8 (take k view))) size
        ∙ ap (words n) (drop-take 8 (n * 8) view)
        ∙ words-take n (drop 8 view))

words-get_elem? :
    (n : ℕ) (view : Bytes) (j : ℕ)
    → j < n
    → get_elem? (words n view) j ≡ some (from_little (take 8 (drop (j * 8) view)))
unfolding words
words-get_elem? zero view j lt = absurd (omega arith)
words-get_elem? (suc n) view zero lt = refl
words-get_elem? (suc n) view (suc j) lt =
    let place : 8 + j * 8 ≡ suc j * 8 = omega arith in
    words-get_elem? n (drop 8 view) j (omega arith)
    ∙ ap (λ (l : Bytes). some (from_little (take 8 l)))
        (drop-add 8 (j * 8) view ∙ ap (λ (k : ℕ). drop k view) place)

-- What a reader has of an archive
record Sound (file : Bytes) (a : BinaryChunkArchive) : Type 0 where
  same : a.data_file ≡ file
  counted : length a.index ≡ a.num_chunks
  inside : All (InFile (length a.data_file)) a.index
  apart : Apart 16 a.index

load_existing-Sound :
    (file entries : Bytes) {a : BinaryChunkArchive}
    → load_existing file entries ≡ ok a
    → Sound file a
unfolding load_existing
load_existing-Sound file entries {a} e =
    let (magic, e1) = raise_if-eq-ok (not (bytes_eq (take 4 file) binary_magic)) value_error _ e in
    let (version, e2) =
      raise_if-eq-ok (not (from_little (take 4 (drop 4 file)) == 1)) value_error _ e1 in
    let n = from_little (take 8 (drop 8 file)) in
    let (size, e3) = raise_if-eq-ok (not (length entries == n * 12)) value_error _ e2 in
    let (few, e4) = raise_if-eq-ok (ltb 100000000 n) value_error _ e3 in
    let (index, read, e5) = >>=-eq-ok (read_index (length file) n 16 entries) _ e4 in
    let r = read_index-Read (length file) n 16 entries index read in
    subst (Sound file) (ok_value _ a e5)
      (record { same = refl; counted = r.counted; inside = r.inside; apart = r.apart })

-- The chunk that an entry of the index stands for, in the data file
abbrev pub At : Bytes → ℕ × ℕ → List ℕ → Type 0
At file entry chunk =
    (length chunk ≡ entry.1)
    × ((j : ℕ)
        → j < entry.1
        → get_elem? chunk j ≡ some (from_little (take 8 (drop (entry.0 + j * 8) file))))

slice-At :
    (file : Bytes) (offset size : ℕ)
    → At file (offset, size) (words size (take (size * 8) (drop offset file)))
slice-At file offset size = (
  length-words size (take (size * 8) (drop offset file)),
  λ j below.
      ap (λ (l : List ℕ). get_elem? l j) (words-take size (drop offset file))
      ∙ words-get_elem? size (drop offset file) j below
      ∙ ap (λ (l : Bytes). some (from_little (take 8 l))) (drop-add offset (j * 8) file),
)

-- Whatever two files an archive is opened on, if they pass the checks: the chunks lie behind the
-- header, one behind the other. Every index below the count has an entry that lies inside the data
-- file and is under the size limit; its chunk is read, as many values as the entry says, each the
-- little-endian word at its place in the file. Every other index raises `IndexError`.
pub load_existing-reads :
    (file entries : Bytes) {a : BinaryChunkArchive}
    → load_existing file entries ≡ ok a
    → Apart 16 a.index
      × ((i : ℕ)
          → i < a.num_chunks
          → (entry : ℕ × ℕ) × (chunk : List ℕ) × (get_elem? a.index i ≡ some entry)
            × InFile (length file) entry
            × (load_chunk_by_index a i ≡ ok chunk)
            × At file entry chunk)
      × ((i : ℕ) → a.num_chunks ≤ i → load_chunk_by_index a i ≡ err index_error)
unfolding load_chunk_by_index
load_existing-reads file entries {a} e =
    let s = load_existing-Sound file entries e in
    (
      s.apart,
      (λ i below.
          let ((offset, size), found) = get_elem?_total a.index i (omega (arith, s.counted)) in
          let fits = All-get_elem? (InFile (length a.data_file)) a.index i s.inside found in
          (
            (offset, size),
            words size (take (size * 8) (drop offset a.data_file)),
            found,
            subst (λ (f : Bytes). InFile (length f) (offset, size)) s.same fits,
            (rw found (unpack-slice a.data_file offset size fits.0)),
            subst
                (λ (f : Bytes).
                  At f (offset, size) (words size (take (size * 8) (drop offset a.data_file))))
                s.same (slice-At a.data_file offset size),
          )),
      λ i above. rw (get_elem?-none a.index i (omega (arith, s.counted))) refl,
    )
