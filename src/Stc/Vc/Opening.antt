-- ===== src/Stc/Vc/Opening.antt =====
-- What `open_batch` of bef_zk/stc/vc.py opens from a store entry of a vector, `verify_batch` accepts.
use capsule_tech.Common.{
  ℕ, ◌*◌, ◌/◌, ◌<◌, ◌≡◌, refl, sym, ap, subst, ◌∙◌, false, some, List, [], ◌∷◌, map, gt→leb, ◌==◌,
  length, get_elem?, get_elem?_total, take, drop, All, ok, arith,
}
use native.Mathlib.Nat.{div-mul-le_self, lt-div-mul-add}
use capsule_tech.Common.Dict.{Dict, put}
use capsule_tech.Common.Bytes.{Bytes, Sha}
use capsule_tech.Stc.Merkle.{Levels, build_levels, root_from_levels}
use capsule_tech.Stc.Merkle.Completeness.{prove-verify}
use capsule_tech.Stc.Accumulator.{chunk_leaves}
use capsule_tech.Stc.Kary.{build_kary_levels}
use capsule_tech.Stc.Kary.Group.{node_at, or_empty}
use capsule_tech.Stc.Backend.Opens.{get_elem?-take, get_elem?-drop, get_elem?-chunk_leaves}
use capsule_tech.Stc.Multi.{zip_nodes}
use capsule_tech.Stc.Multi.Trees.{leaves_at}
use capsule_tech.Stc.Multi.KaryTrees.{NoLone}
use capsule_tech.Stc.Vc.{StoreEntry, chunk_tree, open_entries}
use capsule_tech.Stc.Vc.Groups.{entry_at, local_of}

module _ (h : Sha) where
  abbrev pub slice : ℕ → List ℕ → ℕ → List ℕ
  slice len values q = take len (drop (q * len) values)

  -- A chunk of a store entry: its slice of the vector is loaded, and its tree has the chunk's root.
  pub record Chunk (entry : StoreEntry) (values : List ℕ) (q : ℕ) : Type 0 where
    pub tree : Levels
    pub root : Bytes
    pub built :
        build_levels h
          (chunk_leaves h (q * entry.commit.chunk_len) 0 (slice entry.commit.chunk_len values q))
        ≡ ok tree
    pub loaded : chunk_tree h entry q ≡ ok (tree, slice entry.commit.chunk_len values q)
    pub rooted : root_from_levels tree ≡ ok root
    pub at : get_elem? entry.commit.chunk_roots q ≡ some root

  -- A store entry of a vector, whose chunk tree has no lone last node
  pub record Kept (entry : StoreEntry) (values : List ℕ) (levels : Levels) : Type 0 where
    pub size : entry.commit.size ≡ length values
    pub some_len : 0 < entry.commit.chunk_len
    pub counted : entry.commit.num_chunks ≡ length entry.commit.chunk_roots
    pub kept : entry.commit.chunk_levels ≡ some levels
    pub built :
        build_kary_levels h entry.commit.chunk_tree_arity entry.commit.chunk_roots ≡ ok levels
    pub rooted : root_from_levels levels ≡ ok entry.commit.global_root
    pub no_lone : NoLone entry.commit.chunk_tree_arity levels
    pub chunk : (q : ℕ) → q * entry.commit.chunk_len < length values → Chunk entry values q

  module _ (entry : StoreEntry) (values : List ℕ) (levels : Levels)
      (k : Kept entry values levels) where
    abbrev len : ℕ
    len = entry.commit.chunk_len

    pub start-lt : (i : ℕ) → i < length values → i / len * len < length values
    start-lt i lt = let le = div-mul-le_self i len in omega (arith, le)

    -- The value at an index is that of its chunk at its place there.
    pub in_slice :
        (i : ℕ) → get_elem? (slice len values (i / len)) (local_of len i) ≡ get_elem? values i
    in_slice i =
        let le = div-mul-le_self i len in
        let top = lt-div-mul-add {a = i} (k.some_len) in
        get_elem?-take len (drop (i / len * len) values) (local_of len i) (omega (arith, top))
        ∙ get_elem?-drop (i / len * len) values (local_of len i)
        ∙ ap (get_elem? values) (omega (arith, le))

    -- The roots that are found for the chunks of indices
    abbrev pub chunk_places : List ℕ → List ℕ
    chunk_places is = map (λ i. i / len) is

    pub open_entries-total :
        (is : List ℕ) (made : Dict Bytes)
        → All (λ (i : ℕ). i < length values) is
        → open_entries h entry is made
          ≡ ok (
            map (entry_at len values) is,
            zip_nodes (chunk_places is) (leaves_at entry.commit.chunk_roots (chunk_places is)) made,
          )
    unfolding open_entries zip_nodes
    open_entries-total [] made all = refl
    open_entries-total (i ∷ is) made (lt, all) =
        let c = k.chunk (i / len) (start-lt i lt) in
        let (v, there) = get_elem?_total values i lt in
        let in_chunk : get_elem? (slice len values (i / len)) (local_of len i) ≡ some v =
          in_slice i ∙ there in
        let leaf =
          get_elem?-chunk_leaves h (i / len * len) 0 (local_of len i) (slice len values (i / len)) v
            in_chunk in
        let (path, root, proved, rooted, accepted, size) =
          prove-verify h _ c.tree (local_of len i) _ c.built leaf in
        let in_range = gt→leb entry.commit.size i (subst (λ (n : ℕ). i < n) (sym (k.size)) lt) in
        let positive : (len == 0) ≡ false = (let p = k.some_len in ground (arith, p)) in
        let node : node_at entry.commit.chunk_roots (i / len) ≡ c.root = ap or_empty c.at in
        rw (in_range, positive)
          (rw (c.loaded) (
            rw proved (
              rw (c.rooted) (
                rw (in_chunk, there)
                  (rw node (rw (open_entries-total is (put made (i / len) c.root) all) refl))))))
