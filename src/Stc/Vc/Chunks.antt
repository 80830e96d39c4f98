-- ===== src/Stc/Vc/Chunks.antt =====
-- The chunk records of an accumulator that has taken in chunks, with an archive.
use capsule_tech.Common.{
  ℕ, zero, suc, ◌+◌, ◌*◌, ◌<◌, ◌≤◌, ◌≡◌, refl, sym, ap, subst, ◌∙◌, Option, some, List, [], ◌∷◌,
  ◌++◌, length, length-append, length-take, length-drop, get_elem?, take, drop, drop-add, All, ok,
  arith,
}
use mathlib.Core.List.{append-nil, append_assoc}
use capsule_tech.Common.Bytes.{Bytes, Sha}
use capsule_tech.Stc.Accumulator.{
  Accumulator, ChunkRecord, store_values, merkle_from_values, add_chunks,
}
use capsule_tech.Stc.Accumulator.Streaming.{reduce, stream_of, Tracks, Appended, add_chunk_total}
use capsule_tech.Stc.Vc.{chunk_name, slices}

abbrev pub named_archive : Option (ℕ → List ℕ → Bytes)
named_archive = some (λ index reduced. chunk_name index)

module _ (h : Sha) where
  -- The record of a chunk at an index and an offset
  pub record RecordOf (index offset : ℕ) (c : List ℕ) (r : ChunkRecord) : Type 0 where
    pub named : r.archive_handle ≡ some (chunk_name index)
    pub away : r.values ≡ []
    pub rooted : merkle_from_values h (reduce c) offset ≡ ok r.root

  abbrev pub Records : ℕ → ℕ → List ChunkRecord → List (List ℕ) → Type 0
  Records index offset [] [] = Unit
  Records index offset [] (c ∷ cs) = ⊥
  Records index offset (r ∷ rs) [] = ⊥
  Records index offset (r ∷ rs) (c ∷ cs) =
      RecordOf index offset c r × Records (index + 1) (offset + length c) rs cs

  pub record Added (acc : Accumulator) (rs stream : List ℕ) (chunks : List (List ℕ)) : Type 0 where
    pub final : Accumulator
    pub records : List ChunkRecord
    pub runs : add_chunks h named_archive chunks acc ≡ ok final
    pub appended : final.chunks ≡ acc.chunks ++ records
    pub held : Records (length acc.chunks) acc.size records chunks
    pub tracks : Tracks final rs (stream ++ stream_of chunks)
    pub chunk_len : final.chunk_len ≡ acc.chunk_len
    pub count : final.num_challenges ≡ acc.num_challenges

  first_record :
      (values : List ℕ) (acc acc' : Accumulator) (a : Appended h named_archive values acc acc')
      → RecordOf (length acc.chunks) acc.size values a.chunk
  unfolding store_values
  first_record values acc acc' a = record {
    named = ap (λ (p : Option Bytes × List ℕ). p.0) a.kept;
    away = ap (λ (p : Option Bytes × List ℕ). p.1) a.kept;
    rooted = a.rooted;
  }

  pub added :
      (chunks : List (List ℕ)) (rs stream : List ℕ) (acc : Accumulator)
      → All (λ (c : List ℕ). 0 < length c) chunks
      → Tracks acc rs stream
      → Added acc rs stream chunks
  unfolding add_chunks
  added [] rs stream acc full t = record {
    final = acc;
    records = [];
    runs = refl;
    appended = sym (append-nil acc.chunks);
    held = tt;
    tracks = rw (append-nil stream) t;
    chunk_len = refl;
    count = refl;
  }
  added (values ∷ rest) rs stream acc full t =
      let (acc', e, t', a) = add_chunk_total h named_archive values rs stream acc full.0 t in
      let r = added rest rs (stream ++ reduce values) acc' full.1 t' in
      let index : length acc'.chunks ≡ length acc.chunks + 1 =
        ap (length {A = ChunkRecord}) a.last ∙ length-append acc.chunks (a.chunk ∷ []) in
      record {
        final = r.final;
        records = a.chunk ∷ r.records;
        runs = rw e r.runs;
        appended =
            r.appended
            ∙ ap (λ (l : List ChunkRecord). l ++ r.records) a.last
            ∙ append_assoc acc.chunks (a.chunk ∷ []) r.records;
        held = (
          first_record values acc acc' a,
          subst (λ (k : ℕ). Records k (acc.size + length values) r.records rest) index
              (subst (λ (n : ℕ). Records (length acc'.chunks) n r.records rest) a.sized r.held),
        );
        tracks =
            subst (Tracks r.final rs) (append_assoc stream (reduce values) (stream_of rest))
              r.tracks;
        chunk_len = r.chunk_len ∙ a.chunked;
        count = r.count ∙ a.counts;
      }

  pub length-Records :
      (index offset : ℕ) (records : List ChunkRecord) (chunks : List (List ℕ))
      → Records index offset records chunks
      → length records ≡ length chunks
  length-Records index offset [] [] held = refl
  length-Records index offset [] (c ∷ cs) held = absurd held
  length-Records index offset (r ∷ rs) [] held = absurd held
  length-Records index offset (r ∷ rs) (c ∷ cs) held =
      ap suc (length-Records (index + 1) (offset + length c) rs cs held.1)

  -- The record of each chunk that `commit` cuts
  pub record_at :
      (index offset fuel len : ℕ) (values : List ℕ) (records : List ChunkRecord) (q : ℕ)
      → 0 < len
      → length values ≤ fuel
      → q * len < length values
      → Records index offset records (slices fuel len values)
      → (r : ChunkRecord) × (get_elem? records q ≡ some r)
        × RecordOf (index + q) (offset + q * len) (take len (drop (q * len) values)) r
  unfolding slices
  record_at index offset fuel len [] records q pos le lt held = absurd (omega arith)
  record_at index offset zero len (v ∷ values) records q pos le lt held = absurd (omega arith)
  record_at index offset (suc fuel) len (v ∷ values) [] q pos le lt held = absurd held
  record_at index offset (suc fuel) len (v ∷ values) (r ∷ records) zero pos le lt held =
      let place : index ≡ index + zero = omega arith in
      let start : offset ≡ offset + zero * len = omega arith in
      let none_before : 0 ≡ zero * len = omega arith in
      (
        r,
        refl,
        subst
            (λ (k : ℕ).
              RecordOf k (offset + zero * len) (take len (drop (zero * len) (v ∷ values))) r)
            place
            (subst (λ (k : ℕ). RecordOf index k (take len (drop (zero * len) (v ∷ values))) r) start
              (subst (λ (k : ℕ). RecordOf index offset (take len (drop k (v ∷ values))) r)
                none_before held.0)),
      )
  record_at index offset (suc fuel) len (v ∷ values) (r ∷ records) (suc q) pos le lt held =
      let size = length-drop len (v ∷ values) in
      let first : length (take len (v ∷ values)) ≡ len =
        omega (arith, length-take len (v ∷ values)) in
      let (found, there, good) =
        record_at (index + 1) (offset + length (take len (v ∷ values))) fuel len
          (drop len (v ∷ values)) records q pos (omega arith) (omega arith) held.1 in
      let place : index + 1 + q ≡ index + suc q = omega arith in
      let start : offset + length (take len (v ∷ values)) + q * len ≡ offset + suc q * len =
        omega arith in
      let cut : drop (q * len) (drop len (v ∷ values)) ≡ drop (suc q * len) (v ∷ values) =
        drop-add len (q * len) (v ∷ values) ∙ ap (λ (k : ℕ). drop k (v ∷ values)) (omega arith) in
      (
        found,
        there,
        subst
            (λ (k : ℕ).
              RecordOf k (offset + suc q * len) (take len (drop (suc q * len) (v ∷ values))) found)
            place
            (subst
              (λ (k : ℕ).
                RecordOf (index + 1 + q) k (take len (drop (suc q * len) (v ∷ values))) found)
              start
              (subst
                (λ (l : List ℕ).
                  RecordOf (index + 1 + q) (offset + length (take len (v ∷ values)) + q * len)
                    (take len l) found)
                cut good)),
      )
