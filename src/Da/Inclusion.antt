-- ===== src/Da/Inclusion.antt =====
-- Every chunk that bef_zk/da/provider.py's local provider fetches comes with a proof that
-- bef_zk/stc/merkle.py's `verify_kary` accepts.
use capsule_tech.Common.{
  ℕ, ◌<◌, ◌≤◌, ◌≡◌, refl, sym, ap, ◌∙◌, true, false, some, List, [], ◌∷◌, map, ltb, ge→ltb, gt→leb,
  ◌==◌, length, get_elem?, get_elem?_total, All, Result, ok, arith,
}
use capsule_tech.Common.Results.{ok_value}
use capsule_tech.Common.Ascending.{add-All, Ascending, add-Ascending}
use capsule_tech.Common.Bytes.{Bytes, Sha}
use capsule_tech.Stc.Merkle.{Levels, root_from_levels}
use capsule_tech.Stc.Kary.{build_kary_levels, prove_kary, verify_kary}
use capsule_tech.Stc.Kary.Completeness.{prove_kary-verify_kary}
use capsule_tech.Da.{
  ChunkFetchResult, LocalProvider, new_provider, unique_indices, fetch_chunk, fetch_indices,
  fetch_batch,
}

unique_indices-Ascending : (indices : List ℕ) → Ascending (unique_indices indices)
unfolding unique_indices
unique_indices-Ascending [] = tt
unique_indices-Ascending (idx ∷ indices) =
    add-Ascending idx (unique_indices indices) (unique_indices-Ascending indices)

unique_indices-All :
    (P : ℕ → Type 0) (indices : List ℕ) → All P indices → All P (unique_indices indices)
unfolding unique_indices
unique_indices-All P [] all = tt
unique_indices-All P (idx ∷ indices) all =
    add-All P idx (unique_indices indices) all.0 (unique_indices-All P indices all.1)

module _ (h : Sha) (load_values : Bytes → Result (List ℕ)) where
  -- The result shows the chunk's values, and its proof is accepted for the chunk's root.
  pub record Included (handles chunk_roots : List Bytes) (root : Bytes) (idx : ℕ)
      (found : ChunkFetchResult) : Type 0 where
    pub handle : Bytes
    pub chunk_root : Bytes
    pub named : get_elem? handles idx ≡ some handle
    pub loaded : load_values handle ≡ ok found.values
    pub rooted : get_elem? chunk_roots idx ≡ some chunk_root
    pub accepted :
        verify_kary h root chunk_root idx found.proof.siblings found.proof.arity
          found.proof.tree_size
        ≡ true

  -- The archive has a chunk at the index.
  abbrev pub Archived : List Bytes → ℕ → Type 0
  Archived handles idx =
      (handle : Bytes) × (values : List ℕ) × (get_elem? handles idx ≡ some handle)
      × (0 < length handle)
      × (load_values handle ≡ ok values)

  -- A provider whose tree stands over its chunks.
  record Stands (handles chunk_roots : List Bytes) (arity : ℕ) (levels : Levels) (root : Bytes)
      : Type 0 where
    two : 2 ≤ arity
    same : length handles ≡ length chunk_roots
    built : build_kary_levels h arity chunk_roots ≡ ok levels
    rooted : root_from_levels levels ≡ ok root

  included :
      (handles chunk_roots : List Bytes) (arity : ℕ) (levels : Levels) (root : Bytes) (idx : ℕ)
      → Stands handles chunk_roots arity levels root
      → idx < length handles
      → Archived handles idx
      → (found : ChunkFetchResult) × (fetch_chunk load_values
            (record {
              handles = handles;
              chunk_roots = chunk_roots;
              arity = arity;
              levels = levels;
            })
            idx
          ≡ ok found)
        × Included handles chunk_roots root idx found
  unfolding fetch_chunk
  included handles chunk_roots arity levels root idx w lt (handle, values, named, full, loaded) =
      let same = w.same in
      let (chunk_root, there) = get_elem?_total chunk_roots idx (omega arith) in
      let (tree, siblings, top, built, proved, rooted, accepted) =
        prove_kary-verify_kary h arity w.two chunk_roots idx chunk_root there in
      let one_tree : tree ≡ levels = ok_value tree levels (sym built ∙ w.built) in
      let one_root : top ≡ root =
        ok_value top root (sym rooted ∙ ap root_from_levels one_tree ∙ w.rooted) in
      let proves : prove_kary levels idx arity ≡ ok siblings =
        ap (λ (t : Levels). prove_kary t idx arity) (sym one_tree) ∙ proved in
      let some_handle : (length handle == 0) ≡ false = ground arith in
      (
        record {
          values = values;
          proof = record { siblings = siblings; arity = arity; tree_size = length handles };
        },
        rw (gt→leb (length handles) idx lt)
            (rw named (rw some_handle (rw loaded (rw proves refl)))),
        record {
          handle = handle;
          chunk_root = chunk_root;
          named = named;
          loaded = loaded;
          rooted = there;
          accepted =
              ap (λ (n : ℕ). verify_kary h root chunk_root idx siblings arity n) same
              ∙ ap
                  (λ (r : Bytes).
                    verify_kary h r chunk_root idx siblings arity (length chunk_roots))
                  (sym one_root)
              ∙ accepted;
        },
      )

  All-Included :
      (handles chunk_roots : List Bytes) (arity : ℕ) (levels : Levels) (root : Bytes)
      (indices : List ℕ)
      → Stands handles chunk_roots arity levels root
      → All (λ i. i < length handles) indices
      → All (Archived handles) indices
      → (resolved : List (ℕ × ChunkFetchResult)) × (fetch_indices load_values
            (record {
              handles = handles;
              chunk_roots = chunk_roots;
              arity = arity;
              levels = levels;
            })
            indices
          ≡ ok resolved)
        × (map (λ r. r.0) resolved ≡ indices)
        × All (λ r. Included handles chunk_roots root r.0 r.1) resolved
  unfolding fetch_indices
  All-Included handles chunk_roots arity levels root [] w lt archived = ([], refl, refl, tt)
  All-Included handles chunk_roots arity levels root (idx ∷ rest) w lt archived =
      let (found, e, good) = included handles chunk_roots arity levels root idx w lt.0 archived.0 in
      let (resolved, f, same, all) =
        All-Included handles chunk_roots arity levels root rest w lt.1 archived.1 in
      ((idx, found) ∷ resolved, rw e (rw f refl), ap (λ (l : List ℕ). idx ∷ l) same, (good, all))

  -- For an arity of at least 2 and as many handles as chunk roots, at least one: a provider is made, and a
  -- batch of archived chunks in range is fetched, each index once and in order. Each result shows the
  -- chunk's values and an inclusion proof that the verifier accepts against the tree's root.
  pub fetch_batch-Included :
      (handles chunk_roots : List Bytes) (arity : ℕ) (indices : List ℕ)
      → 2 ≤ arity
      → 0 < length chunk_roots
      → length handles ≡ length chunk_roots
      → All (λ i. i < length handles) indices
      → All (Archived handles) indices
      → (provider : LocalProvider) × (root : Bytes) × (resolved : List (ℕ × ChunkFetchResult))
        × (new_provider h handles chunk_roots arity ≡ ok provider)
        × (root_from_levels provider.levels ≡ ok root)
        × (fetch_batch load_values provider indices ≡ ok resolved)
        × (map (λ r. r.0) resolved ≡ unique_indices indices)
        × Ascending (unique_indices indices)
        × All (λ r. Included handles chunk_roots root r.0 r.1) resolved
  unfolding new_provider fetch_batch
  fetch_batch-Included handles chunk_roots arity indices two some_chunk same lt archived =
      let (first, there) = get_elem?_total chunk_roots 0 some_chunk in
      let (levels, siblings, root, built, proved, rooted, accepted) =
        prove_kary-verify_kary h arity two chunk_roots 0 first there in
      let w : Stands handles chunk_roots arity levels root = record {
        two = two;
        same = same;
        built = built;
        rooted = rooted;
      } in
      let (resolved, fetched, order, all) =
        All-Included handles chunk_roots arity levels root (unique_indices indices) w
          (unique_indices-All (λ i. i < length handles) indices lt)
          (unique_indices-All (Archived handles) indices archived) in
      let wide : ltb arity 2 ≡ false = ge→ltb arity 2 two in
      let paired : (length handles == length chunk_roots) ≡ true = ground arith in
      (
        record { handles = handles; chunk_roots = chunk_roots; arity = arity; levels = levels },
        root,
        resolved,
        rw (wide, paired) (rw built refl),
        rooted,
        fetched,
        order,
        unique_indices-Ascending indices,
        all,
      )
