-- ===== src/Stc/Backend/Opens.antt =====
-- What bef_zk/stc/pc_backend.py opens, it verifies; and what the verifier leaves open.
use capsule_tech.Common.{
  ℕ, zero, suc, ◌+◌, ◌-◌, ◌*◌, ◌/◌, ◌%◌, ◌<◌, ◌≤◌, min, ◌≡◌, refl, sym, ap, ◌∙◌, Bool, true, false,
  not, ◌&&◌, none, some, List, [], ◌∷◌, map, leb, ltb, gt→leb, ◌==◌, ==_refl, length, get_elem?,
  get_elem?_total, get_elem?-lt, take, drop, ok, &&_parts, arith,
}
use mathlib.Core.Option.{some-injective}
use native.Mathlib.Nat.{div-mul-le_self, lt-div-mul-add, div-lt_iff_lt-mul, le_refl}
use capsule_tech.Common.Results.{ok_value}
use capsule_tech.Common.Bytes.{Bytes, Sha, bytes_eq_refl}
use capsule_tech.Common.Field.{modulus, mod_mod}
use capsule_tech.Stc.Merkle.{Levels, build_levels, root_from_levels, prove, verify}
use capsule_tech.Stc.Merkle.Completeness.{prove-verify, build_levels_total}
use capsule_tech.Stc.Kary.{build_kary_levels, prove_kary, verify_kary}
use capsule_tech.Stc.Kary.Completeness.{prove_kary-verify_kary}
use capsule_tech.Stc.Accumulator.{chunk_leaf_hash, chunk_leaves, merkle_from_values}
use capsule_tech.Stc.Backend.{
  StcCommitment, StcIndexProof, StcChunkProof, stc_open_chunk, stc_verify_chunk, chunk_values_of,
  levels_of, kept_levels, stc_open_index, stc_verify_index, is_empty,
}

get_elem?-map :
    (f : ℕ → ℕ) (xs : List ℕ) (i x : ℕ)
    → get_elem? xs i ≡ some x
    → get_elem? (map f xs) i ≡ some (f x)
get_elem?-map f [] i x e = absurd (cc)
get_elem?-map f (y ∷ xs) zero x e = ap (λ (z : ℕ). some (f z)) (some-injective y x e)
get_elem?-map f (y ∷ xs) (suc i) x e = get_elem?-map f xs i x e

pub get_elem?-take :
    (n : ℕ) (xs : List ℕ) (i : ℕ) → i < n → get_elem? (take n xs) i ≡ get_elem? xs i
get_elem?-take zero xs i lt = absurd (omega arith)
get_elem?-take (suc n) [] i lt = refl
get_elem?-take (suc n) (x ∷ xs) zero lt = refl
get_elem?-take (suc n) (x ∷ xs) (suc i) lt = get_elem?-take n xs i (omega arith)

pub get_elem?-drop : (n : ℕ) (xs : List ℕ) (i : ℕ) → get_elem? (drop n xs) i ≡ get_elem? xs (n + i)
get_elem?-drop zero xs i = ap (get_elem? xs) (omega arith)
get_elem?-drop (suc n) [] i = refl
get_elem?-drop (suc n) (x ∷ xs) i =
    let e : suc n + i ≡ suc (n + i) = omega arith in
    get_elem?-drop n xs i ∙ sym (ap (get_elem? (x ∷ xs)) e)

module _ (h : Sha) where
  -- An accepted proof for one index is accepted for every other index in range as well: the verifier
  -- checks the value against the chunk's offset and the leaf's position that the proof itself names,
  -- and never compares these with the index.
  pub stc_verify_index_any :
      (commitment : StcCommitment) (proof : StcIndexProof) (other : ℕ)
      → stc_verify_index h commitment proof ≡ true
      → other < commitment.size
      → stc_verify_index h commitment (record proof { index = other }) ≡ true
  unfolding stc_verify_index
  stc_verify_index_any commitment proof other accepted inside =
      let leaf : Bool =
        verify h proof.chunk_root (chunk_leaf_hash h proof.chunk_offset proof.leaf_pos proof.value)
          proof.leaf_pos proof.leaf_path in
      let tree : Bool =
        verify_kary h commitment.global_root proof.chunk_root proof.chunk_pos proof.chunk_root_path
          commitment.chunk_tree_arity commitment.num_chunks in
      let range : Bool = not (leb commitment.size proof.index) in
      let same : Bool = proof.chunk_index == proof.chunk_pos in
      let (front, tree_ok) = &&_parts (range && same && leaf) tree accepted in
      let (checks, leaf_ok) = &&_parts (range && same) leaf front in
      let (range_ok, same_ok) = &&_parts range same checks in
      rw (gt→leb commitment.size other inside) (rw same_ok (rw leaf_ok tree_ok))

  pub get_elem?-chunk_leaves :
      (offset idx i : ℕ) (values : List ℕ) (v : ℕ)
      → get_elem? values i ≡ some v
      → get_elem? (chunk_leaves h offset idx values) i ≡ some (chunk_leaf_hash h offset (idx + i) v)
  unfolding chunk_leaves
  get_elem?-chunk_leaves offset idx i [] v e = absurd (cc)
  get_elem?-chunk_leaves offset idx zero (x ∷ values) v e =
      let start : idx + 0 ≡ idx = omega arith in
      ap (λ (y : ℕ). some (chunk_leaf_hash h offset idx y)) (some-injective x v e)
      ∙ ap (λ (k : ℕ). some (chunk_leaf_hash h offset k v)) (sym start)
  get_elem?-chunk_leaves offset idx (suc i) (x ∷ values) v e =
      let shift : idx + suc i ≡ idx + 1 + i = omega arith in
      get_elem?-chunk_leaves offset (idx + 1) i values v e
      ∙ ap (λ (k : ℕ). some (chunk_leaf_hash h offset k v)) (sym shift)

  -- The commitment is to these values: the tree over its chunk roots is kept, its root is the global
  -- root, and each chunk root is that of the values' chunk.
  pub record IsCommitted (commitment : StcCommitment) (values : List ℕ) (levels : Levels)
      : Type 0 where
    pub all_values : commitment.size ≡ length values
    pub some_len : 0 < commitment.chunk_len
    pub two : 2 ≤ commitment.chunk_tree_arity
    pub all_chunks : commitment.num_chunks ≡ length commitment.chunk_roots
    pub enough : commitment.size ≤ commitment.num_chunks * commitment.chunk_len
    pub kept : commitment.chunk_levels ≡ some levels
    pub built : build_kary_levels h commitment.chunk_tree_arity commitment.chunk_roots ≡ ok levels
    pub rooted : root_from_levels levels ≡ ok commitment.global_root
    pub roots :
        (q : ℕ) (root : Bytes)
        → get_elem? commitment.chunk_roots q ≡ some root
        → merkle_from_values h
            (chunk_values_of h values
              (q * commitment.chunk_len)
              (min commitment.chunk_len (commitment.size - q * commitment.chunk_len)))
            (q * commitment.chunk_len)
          ≡ ok root

  -- A chunk with a value at a place: the opening of this place, and the chunk's root.
  record Leaf (offset local : ℕ) (chunk : List ℕ) (v : ℕ) : Type 0 where
    tree : Levels
    path : List Bytes
    root : Bytes
    built : build_levels h (chunk_leaves h offset 0 chunk) ≡ ok tree
    proved : prove tree local ≡ ok path
    rooted : root_from_levels tree ≡ ok root
    accepted : verify h root (chunk_leaf_hash h offset local v) local path ≡ true
    as_chunk : merkle_from_values h chunk offset ≡ ok root
    not_empty : is_empty chunk ≡ false

  Leaf-opens :
      (offset local : ℕ) (chunk : List ℕ) (v : ℕ)
      → get_elem? chunk local ≡ some v
      → Leaf offset local chunk v
  unfolding merkle_from_values chunk_leaves
  Leaf-opens offset local [] v e = absurd (cc)
  Leaf-opens offset local (x ∷ chunk) v e =
      let leaves : List Bytes = chunk_leaves h offset 0 (x ∷ chunk) in
      let (tree, root, built, rooted) = build_levels_total h leaves (omega arith) in
      let there = get_elem?-chunk_leaves offset 0 local (x ∷ chunk) v e in
      let place : 0 + local ≡ local = omega arith in
      let (path, top, proved, top_rooted, accepted, size) =
        prove-verify h leaves tree local (chunk_leaf_hash h offset (0 + local) v) built there in
      let same = ok_value top root (sym top_rooted ∙ rooted) in
      let some_value : (length (x ∷ chunk) == 0) ≡ false = ground arith in
      record {
        tree = tree;
        path = path;
        root = root;
        built = built;
        proved = proved;
        rooted = rooted;
        accepted =
            ap (λ (k : ℕ). verify h root (chunk_leaf_hash h offset k v) local path) (sym place)
            ∙ ap (λ (r : Bytes). verify h r (chunk_leaf_hash h offset (0 + local) v) local path)
                (sym same)
            ∙ accepted;
        as_chunk = rw some_value (rw built rooted);
        not_empty = refl;
      }

  levels_of_kept :
      (commitment : StcCommitment) (levels : Levels)
      → root_from_levels levels ≡ ok commitment.global_root
      → commitment.chunk_levels ≡ some levels
      → levels_of h commitment none ≡ ok (levels, commitment)
  unfolding levels_of kept_levels root_from_levels
  levels_of_kept commitment [] rooted e = absurd (cc)
  levels_of_kept commitment (level ∷ above) rooted e = ap (kept_levels h commitment) e

  chunk_value :
      (values : List ℕ) (offset n index v : ℕ)
      → offset ≤ index
      → index - offset < n
      → get_elem? values index ≡ some v
      → get_elem? (chunk_values_of h values offset n) (index - offset) ≡ some (v % modulus)
  chunk_value values offset n index v le lt e =
      let place : offset + (index - offset) ≡ index = omega arith in
      get_elem?-map (λ x. x % modulus) (take n (drop offset values)) (index - offset) v
        (get_elem?-take n (drop offset values) (index - offset) lt
          ∙ get_elem?-drop offset values (index - offset)
          ∙ ap (get_elem? values) place
          ∙ e)

  -- Against a commitment to the values, whose chunks cover them, every index of the values opens; the
  -- proof shows the value there, reduced, and the verifier accepts it. The commitment stays as it is.
  pub stc_open_index-verify :
      (commitment : StcCommitment) (values : List ℕ) (levels : Levels) (index v : ℕ)
      → IsCommitted commitment values levels
      → get_elem? values index ≡ some v
      → (proof : StcIndexProof) × (stc_open_index h values commitment index none
          ≡ ok (proof, commitment))
        × (proof.index ≡ index)
        × (proof.value ≡ v % modulus)
        × (stc_verify_index h commitment proof ≡ true)
  unfolding stc_open_index stc_verify_index
  stc_open_index-verify c values levels index v w e =
      let some_len = w.some_len in
      let q = index / c.chunk_len in
      let offset = q * c.chunk_len in
      let inside = get_elem?-lt values index e in
      let all_values = w.all_values in
      let enough = w.enough in
      let all_chunks = w.all_chunks in
      let low = div-mul-le_self index c.chunk_len in
      let high = lt-div-mul-add {a = index} {b = c.chunk_len} some_len in
      let q_inside : q < c.num_chunks =
        (div-lt_iff_lt-mul {k = c.chunk_len} {x = index} {y = c.num_chunks} some_len).1
          (omega arith) in
      let n = min c.chunk_len (c.size - offset) in
      let l =
        Leaf-opens offset (index - offset) (chunk_values_of h values offset n) (v % modulus)
          (chunk_value values offset n index v low (omega arith) e) in
      let (chunk_root, there) = get_elem?_total c.chunk_roots q (omega arith) in
      let same_root = ok_value l.root chunk_root (sym l.as_chunk ∙ w.roots q chunk_root there) in
      let (tree, path, top, built, proved, rooted, accepted) =
        prove_kary-verify_kary h c.chunk_tree_arity w.two c.chunk_roots q chunk_root there in
      let one_tree = ok_value tree levels (sym built ∙ w.built) in
      let one_root =
        ok_value top c.global_root (sym rooted ∙ ap root_from_levels one_tree ∙ w.rooted) in
      let path_of : prove_kary levels q c.chunk_tree_arity ≡ ok path =
        ap (λ (t : Levels). prove_kary t q c.chunk_tree_arity) (sym one_tree) ∙ proved in
      let in_tree : verify_kary h c.global_root l.root q path c.chunk_tree_arity c.num_chunks
          ≡ true =
        ap (λ (k : ℕ). verify_kary h c.global_root l.root q path c.chunk_tree_arity k) all_chunks
        ∙ ap
            (λ (r : Bytes).
              verify_kary h c.global_root r q path c.chunk_tree_arity (length c.chunk_roots))
            same_root
        ∙ ap
            (λ (r : Bytes).
              verify_kary h r chunk_root q path c.chunk_tree_arity (length c.chunk_roots))
            (sym one_root)
        ∙ accepted in
      let in_range = gt→leb c.size index (omega arith) in
      let has_len : (c.chunk_len == 0) ≡ false = ground arith in
      (
        record {
          index = index;
          value = v % modulus;
          chunk_index = q;
          chunk_offset = offset;
          leaf_pos = index - offset;
          leaf_path = l.path;
          chunk_root = l.root;
          chunk_pos = q;
          chunk_root_path = path;
        },
        rw in_range (
            rw has_len (
              rw (gt→leb c.num_chunks q q_inside) (
                rw (l.not_empty) (
                  rw (l.built) (
                    rw (l.proved) (
                      rw (l.rooted) (
                        rw (levels_of_kept c levels w.rooted w.kept)
                          (rw path_of (rw e refl))))))))),
        refl,
        refl,
        rw in_range (rw (==_refl q) (rw (l.accepted) in_tree)),
      )

  not_empty_at : (xs : List ℕ) (i : ℕ) {x : ℕ} → get_elem? xs i ≡ some x → is_empty xs ≡ false
  not_empty_at [] i e = cc
  not_empty_at (y ∷ xs) i e = refl

  reduced_twice :
      (xs : List ℕ) → map (λ v. v % modulus) (map (λ v. v % modulus) xs) ≡ map (λ v. v % modulus) xs
  reduced_twice [] = refl
  reduced_twice (x ∷ xs) = rw (mod_mod x, reduced_twice xs) refl

  and_false : (b : Bool) → (b && false) ≡ false
  and_false true = refl
  and_false false = refl

  -- Against a commitment to the values, every chunk that has a value opens; the proof shows the chunk's
  -- values, reduced, and the verifier accepts it. The commitment stays as it is.
  pub stc_open_chunk-verify :
      (commitment : StcCommitment) (values : List ℕ) (levels : Levels) (q : ℕ)
      → IsCommitted commitment values levels
      → q < commitment.num_chunks
      → q * commitment.chunk_len < commitment.size
      → (proof : StcChunkProof) × (stc_open_chunk h values commitment q none
          ≡ ok (proof, commitment))
        × (proof.values
            ≡ chunk_values_of h values
                (q * commitment.chunk_len)
                (min commitment.chunk_len (commitment.size - q * commitment.chunk_len)))
        × (stc_verify_chunk h commitment proof ≡ ok true)
  unfolding stc_open_chunk stc_verify_chunk
  stc_open_chunk-verify c values levels q w q_inside start =
      let offset = q * c.chunk_len in
      let n = min c.chunk_len (c.size - offset) in
      let chunk = chunk_values_of h values offset n in
      let all_values = w.all_values in
      let all_chunks = w.all_chunks in
      let some_len = w.some_len in
      let (v, e) = get_elem?_total values offset (omega arith) in
      let full =
        not_empty_at chunk (offset - offset)
          (chunk_value values offset n offset v (le_refl offset) (omega arith) e) in
      let (chunk_root, there) = get_elem?_total c.chunk_roots q (omega arith) in
      let root_of = w.roots q chunk_root there in
      let (tree, path, top, built, proved, rooted, accepted) =
        prove_kary-verify_kary h c.chunk_tree_arity w.two c.chunk_roots q chunk_root there in
      let one_tree = ok_value tree levels (sym built ∙ w.built) in
      let one_root =
        ok_value top c.global_root (sym rooted ∙ ap root_from_levels one_tree ∙ w.rooted) in
      let path_of : prove_kary levels q c.chunk_tree_arity ≡ ok path =
        ap (λ (t : Levels). prove_kary t q c.chunk_tree_arity) (sym one_tree) ∙ proved in
      let in_tree : verify_kary h c.global_root chunk_root q path c.chunk_tree_arity c.num_chunks
          ≡ true =
        ap (λ (k : ℕ). verify_kary h c.global_root chunk_root q path c.chunk_tree_arity k)
          all_chunks
        ∙ ap
            (λ (r : Bytes).
              verify_kary h r chunk_root q path c.chunk_tree_arity (length c.chunk_roots))
            (sym one_root)
        ∙ accepted in
      (
        record {
          chunk_index = q;
          chunk_offset = offset;
          values = chunk;
          chunk_root = chunk_root;
          chunk_pos = q;
          chunk_root_path = path;
        },
        rw (gt→leb c.num_chunks q q_inside) (
            rw full (
              rw (reduced_twice (take n (drop offset values)))
                (rw root_of (rw (levels_of_kept c levels w.rooted w.kept) (rw path_of refl))))),
        refl,
        rw (gt→leb c.num_chunks q q_inside) (
            rw (==_refl q) (
              rw (gt→leb c.size offset start) (
                rw (==_refl offset) (
                  rw (and_false (ltb (q + 1) c.num_chunks))
                    (rw root_of (rw (bytes_eq_refl chunk_root) (ap ok in_tree))))))),
      )
