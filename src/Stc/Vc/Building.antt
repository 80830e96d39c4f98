-- ===== src/Stc/Vc/Building.antt =====
-- What `commit` of bef_zk/stc/vc.py puts into the store: an entry of the vector, whose chunks are loaded
-- and whose trees have the roots.
use capsule_tech.Stc.Kary.{build_kary_levels}
use capsule_tech.Common.{
  ℕ, zero, suc, ◌+◌, ◌*◌, ◌<◌, ◌≤◌, ◌≡◌, refl, sym, ap, subst, ◌∙◌, true, false, Option, none, some,
  List, [], ◌∷◌, map, ◌==◌, length, length-map, get_elem?, take, drop, All, ok, >>=-eq-ok,
  raise_if-eq-ok, value_error, arith,
}
use mathlib.Core.Path.{ap₂}
use native.Mathlib.Nat.{mod-eq_of_lt}
use capsule_tech.Common.Bytes.{Bytes, Sha}
use capsule_tech.Common.Field.{modulus}
use capsule_tech.Stc.Merkle.{Levels, build_levels}
use capsule_tech.Stc.Kary.Above.{ceil_div, ceil_div_pred}
use capsule_tech.Stc.Accumulator.{
  Accumulator, ChunkRecord, chunk_leaves, merkle_from_values, export_chunks,
}
use capsule_tech.Stc.Accumulator.Challenges.{units, fresh_state, new_accumulator-Tracks}
use capsule_tech.Stc.Accumulator.Streaming.{reduce}
use capsule_tech.Stc.Backend.Build.{stc_build_pc_commitment_total}
use capsule_tech.Stc.Multi.KaryTrees.{fair, build_kary_levels-NoLone}
use capsule_tech.Stc.Vc.{
  Store, StoreEntry, chunk_name, written, load_chunk, load_record, get_chunk_values, chunk_tree,
  slices,
}
use capsule_tech.Stc.Vc.Batch.{VcParams, commit, vc_commitment}
use capsule_tech.Stc.Vc.Names.{load_chunk-written}
use capsule_tech.Stc.Vc.Slices.{
  slices-full, get_elem?-slices, length-slices, length-stream_of-slices,
}
use capsule_tech.Stc.Vc.Chunks.{Records, RecordOf, added, record_at, length-Records}
use capsule_tech.Stc.Vc.Opening.{slice, Chunk, Kept}

reduce_reduced : (c : List ℕ) → All (λ (v : ℕ). v < modulus) c → reduce c ≡ c
reduce_reduced [] all = refl
reduce_reduced (v ∷ c) (lt, all) =
    ap₂ (λ (a : ℕ) (b : List ℕ). a ∷ b) (mod-eq_of_lt lt) (reduce_reduced c all)

take-All :
    (n : ℕ) (l : List ℕ) → All (λ (v : ℕ). v < modulus) l → All (λ (v : ℕ). v < modulus) (take n l)
take-All zero l all = tt
take-All (suc n) [] all = tt
take-All (suc n) (x ∷ l) all = (all.0, take-All n l all.1)

drop-All :
    (n : ℕ) (l : List ℕ) → All (λ (v : ℕ). v < modulus) l → All (λ (v : ℕ). v < modulus) (drop n l)
drop-All zero l all = all
drop-All (suc n) [] all = tt
drop-All (suc n) (x ∷ l) all = drop-All n l all.1

get_elem?-map :
    (rs : List ChunkRecord) (q : ℕ) (r : ChunkRecord)
    → get_elem? rs q ≡ some r
    → get_elem? (map (λ c. c.root) rs) q ≡ some r.root
get_elem?-map [] q r e = absurd (cc)
get_elem?-map (x ∷ rs) zero r e = ap (λ (o : Option ChunkRecord). by_root o) e
  where
    by_root : Option ChunkRecord → Option Bytes
    by_root none = none
    by_root (some r) = some r.root
get_elem?-map (x ∷ rs) (suc q) r e = get_elem?-map rs q r e

map_same : (rs : List ChunkRecord) (acc : Accumulator) → acc.chunks ≡ rs → export_chunks acc ≡ rs
unfolding export_chunks
map_same rs acc e = copies acc.chunks ∙ e
  where
    copies :
        (cs : List ChunkRecord)
        → map
            (λ c. record {
              values = c.values;
              offset = c.offset;
              size = c.size;
              root = c.root;
              sketch_vec = c.sketch_vec;
              archive_handle = c.archive_handle;
            })
            cs
          ≡ cs
    copies [] = refl
    copies (c ∷ cs) = ap (λ r. c ∷ r) (copies cs)

module _ (h : Sha) where
  -- A chunk's record, its file and its root make the chunk.
  Chunk-of :
      (entry : StoreEntry) (values : List ℕ) (q : ℕ) (r : ChunkRecord)
      → get_elem? entry.chunks q ≡ some r
      → get_elem? entry.commit.chunk_roots q ≡ some r.root
      → RecordOf h q (q * entry.commit.chunk_len) (slice h entry.commit.chunk_len values q) r
      → load_chunk entry.archive (chunk_name q) ≡ ok (slice h entry.commit.chunk_len values q)
      → All (λ (v : ℕ). v < modulus) values
      → Chunk h entry values q
  unfolding chunk_tree get_chunk_values load_record merkle_from_values
  Chunk-of entry values q r there at ro loaded all =
      let len = entry.commit.chunk_len in
      let part = slice h len values q in
      let same : reduce part ≡ part =
        reduce_reduced part
          (take-All len (drop (q * len) values) (drop-All (q * len) values all)) in
      let rooted : merkle_from_values h part (q * len) ≡ ok r.root =
        ap (λ (c : List ℕ). merkle_from_values h c (q * len)) (sym same) ∙ ro.rooted in
      let (filled, e) = raise_if-eq-ok (length part == 0) value_error _ rooted in
      let (tree, built, top) = >>=-eq-ok (build_levels h (chunk_leaves h (q * len) 0 part)) _ e in
      record {
        tree = tree;
        root = r.root;
        built = built;
        loaded = rw there (rw (ro.away) (rw (ro.named) (rw loaded (rw (same, built) refl))));
        rooted = top;
        at = at;
      }

  all_chunks :
      (entry : StoreEntry) (values : List ℕ)
      → 0 < entry.commit.chunk_len
      → entry.commit.chunk_roots ≡ map (λ c. c.root) entry.chunks
      → Records h 0 0 entry.chunks (slices (length values) entry.commit.chunk_len values)
      → entry.archive ≡ written 0 (slices (length values) entry.commit.chunk_len values)
      → All (λ (v : ℕ). v < modulus) values
      → (q : ℕ) → q * entry.commit.chunk_len < length values
      → Chunk h entry values q
  all_chunks entry values pos roots held archive all q lt =
      let len = entry.commit.chunk_len in
      let (r, there, ro) =
        record_at h 0 0 (length values) len values entry.chunks q pos (omega arith) lt held in
      let place : 0 + q ≡ q = omega arith in
      let start : 0 + q * len ≡ q * len = omega arith in
      let part = slice h len values q in
      let stored =
        load_chunk-written 0 (slices (length values) len values) q part
          (get_elem?-slices (length values) len values q pos (omega arith) lt) in
      let same : reduce part ≡ part =
        reduce_reduced part
          (take-All len (drop (q * len) values) (drop-All (q * len) values all)) in
      Chunk-of entry values q r there
        (ap (λ (l : List Bytes). get_elem? l q) roots ∙ get_elem?-map entry.chunks q r there)
        (subst (λ (i : ℕ). RecordOf h i (q * len) part r) place
          (subst (λ (o : ℕ). RecordOf h (0 + q) o part r) start ro))
        (ap (λ (f : List (Bytes × List ℕ)). load_chunk f (chunk_name q)) archive
          ∙ ap
              (λ (i : ℕ). load_chunk (written 0 (slices (length values) len values)) (chunk_name i))
              (sym place)
          ∙ stored
          ∙ ap ok same)
        all

  -- The parameters of a vector commitment: a chunk has a value, and the seed gives enough challenges.
  pub record Sound (params : VcParams h) : Type 0 where
    pub some_len : 0 < params.chunk_len
    pub two : 2 ≤ params.arity
    pub enough : params.num_challenges ≤ length (units h params.fuel params.challenge_seed 0)

  -- The number of chunks makes a tree without a lone last node.
  abbrev pub FairLength : VcParams h → ℕ → Type 0
  FairLength params n =
      fair (ceil_div n params.chunk_len) params.arity (ceil_div n params.chunk_len) ≡ true

  pub record Committed (params : VcParams h) (values : List ℕ) (store : Store) : Type 0 where
    pub entry : StoreEntry
    pub levels : Levels
    pub runs :
        commit h params values store
        ≡ ok (vc_commitment h entry.commit, (entry.commit.global_root, entry) ∷ store)
    pub kept : Kept h entry values levels

  pub commit_total :
      (params : VcParams h) (values : List ℕ) (store : Store)
      → Sound params
      → 0 < length values
      → FairLength params (length values)
      → All (λ (v : ℕ). v < modulus) values
      → Committed params values store
  unfolding commit
  commit_total params values store sound some_value is_fair all =
      let len = params.chunk_len in
      let n = length values in
      let cut = slices n len values in
      let (rs, made, count, fresh) =
        new_accumulator-Tracks h params.fuel params.num_challenges len params.challenge_seed
          sound.enough in
      let a =
        added h cut rs [] (fresh_state h len params.num_challenges params.challenge_seed rs)
          (slices-full n len values sound.some_len) fresh in
      let chunks : length a.records ≡ ceil_div n len =
        length-Records h 0 0 a.records cut a.held
        ∙ length-slices n len values sound.some_len (omega arith) in
      let some_chunk : 0 < length a.records =
        (let c = ceil_div_pred n len sound.some_len some_value in omega (arith, chunks, c)) in
      let all_of : length a.final.chunks ≡ length a.records =
        ap (length {A = ChunkRecord}) a.appended in
      let b =
        stc_build_pc_commitment_total h params.fuel params.arity a.final sound.two
          (omega (arith, all_of, some_chunk))
          (ap (length {A = ℕ}) (a.tracks.challenged) ∙ count ∙ sym (a.count)) in
      let lengths : b.commitment.chunk_len ≡ len = b.chunk_len ∙ a.chunk_len in
      let entry : StoreEntry = record {
        commit = b.commitment;
        chunks = export_chunks a.final;
        archive = written 0 cut;
      } in
      let same : export_chunks a.final ≡ a.records = map_same a.records a.final a.appended in
      let roots : b.commitment.chunk_roots ≡ map (λ c. c.root) a.records =
        b.roots ∙ ap (map (λ c. c.root)) a.appended in
      let tree_size : length b.commitment.chunk_roots ≡ ceil_div n len =
        ap (length {A = Bytes}) roots ∙ length-map (λ c. c.root) a.records ∙ chunks in
      let built : build_kary_levels h b.commitment.chunk_tree_arity b.commitment.chunk_roots
          ≡ ok b.levels =
        rw (b.arity_kept, b.roots) (b.built) in
      let positive : (len == 0) ≡ false = (let p = sound.some_len in ground (arith, p)) in
      record {
        entry = entry;
        levels = b.levels;
        runs = rw made (rw positive (rw (a.runs) (rw (b.runs) refl)));
        kept = record {
          size =
              b.size
              ∙ a.tracks.counted
              ∙ length-stream_of-slices n len values sound.some_len (omega arith);
          some_len = rw lengths (sound.some_len);
          counted =
              b.counted
              ∙ all_of
              ∙ sym (length-map (λ c. c.root) a.records)
              ∙ sym (ap (length {A = Bytes}) roots);
          kept = b.kept;
          built = built;
          rooted = b.rooted;
          no_lone =
              build_kary_levels-NoLone h b.commitment.chunk_tree_arity
                (rw (b.arity_kept) (sound.two)) b.commitment.chunk_roots b.levels built
                (rw (tree_size, b.arity_kept) is_fair);
          chunk =
              all_chunks entry values (rw lengths (sound.some_len))
                (roots ∙ sym (ap (map (λ c. c.root)) same)) (rw (same, lengths) (a.held))
                (rw lengths refl) all;
        };
      }
