-- ===== src/Stc/Vc/Whole.antt =====
-- A whole batch of bef_zk/stc/vc.py: `open_batch` succeeds on a store entry of a vector, `verify_batch`
-- accepts the batch, and its entries are the vector's.
use capsule_tech.Common.{
  ℕ, ◌*◌, ◌/◌, ◌<◌, ◌≡◌, ◌≢◌, refl, sym, ap, subst, ◌∙◌, true, false, some, List, [], ◌∷◌, map,
  gt→leb, ◌==◌, ==_refl, length, get_elem?_total, get_elem?-lt, All, ok, arith, Bool-cases, inl,
  inr, ==_iff, ok_value,
}
use capsule_tech.Common.Ascending.{Ascending}
use capsule_tech.Common.Dict.{Dict, get}
use capsule_tech.Common.Bytes.{Bytes, Sha}
use capsule_tech.Stc.Merkle.{Levels}
use capsule_tech.Stc.Kary.Group.{node_at}
use capsule_tech.Stc.Backend.{is_empty}
use capsule_tech.Stc.Multi.{mem, sorted_set, zip_nodes}
use capsule_tech.Stc.Multi.Shown.{Agrees}
use capsule_tech.Stc.Multi.Sets.{same_members, mem-sorted_set, sorted_set-Ascending}
use capsule_tech.Stc.Multi.Whole.{keys_of}
use capsule_tech.Stc.Multi.Trees.{leaves_at, get-zip_nodes, sorted_set-ne}
use capsule_tech.Stc.Multi.KaryTrees.{verify_multiproof-build_kary_levels}
use capsule_tech.Stc.Vector.{VcBatchProof, ChunkLeafProof, Shows}
use capsule_tech.Stc.Vc.{StoreEntry, open_batch_of}
use capsule_tech.Stc.Vc.Batch.{
  in_range, check_chunks, chunk_keys, verify_batch, vc_commitment, is_accepted,
}
use capsule_tech.Stc.Vc.Groups.{entry_at, map-map, same_list_refl, roots_of-leaves}
use capsule_tech.Stc.Vc.Opening.{Kept, chunk_places, start-lt, open_entries-total}
use capsule_tech.Stc.Vc.Leaves.{All-mem, Opened, open_leaves-total, check_chunk-accepted}

sorted_set_same : (xs : List ℕ) → Ascending xs → sorted_set [] xs ≡ xs
unfolding mem
sorted_set_same xs asc =
    same_members (sorted_set [] xs) xs (sorted_set-Ascending [] xs tt) asc
      (λ i. mem-sorted_set [] xs i)

entries-Shows :
    (len : ℕ) (values is : List ℕ)
    → All (λ (i : ℕ). i < length values) is
    → Shows values is (map (entry_at len values) is)
entries-Shows len values [] all = tt
entries-Shows len values (i ∷ is) (lt, all) =
    let (v, e) = get_elem?_total values i lt in (refl, rw e refl, entries-Shows len values is all)

module _ (h : Sha) (entry : StoreEntry) (values : List ℕ) (levels : Levels)
    (k : Kept h entry values levels) where
  abbrev roots : List Bytes
  roots = entry.commit.chunk_roots

  place-lt :
      (is : List ℕ) (q : ℕ)
      → All (λ (i : ℕ). i < length values) is
      → mem q (chunk_places h entry values levels k is) ≡ true
      → q * entry.commit.chunk_len < length values
  unfolding mem
  place-lt [] q all isin = absurd (cc)
  place-lt (i ∷ is) q (lt, all) isin = elim (Bool-cases (i / entry.commit.chunk_len == q)) [
    | inl own ↦
        subst (λ (r : ℕ). r * entry.commit.chunk_len < length values)
          ((==_iff (i / entry.commit.chunk_len) q).0 own) (start-lt h entry values levels k i lt)
    | inr other ↦ place-lt is q all (rw other at isin)
  ]

  in_range-entries :
      (is : List ℕ)
      → All (λ (i : ℕ). i < length values) is
      → in_range (vc_commitment h entry.commit) (map (entry_at entry.commit.chunk_len values) is)
        ≡ true
  unfolding in_range
  in_range-entries [] all = refl
  in_range-entries (i ∷ is) (lt, all) =
      let c = k.chunk (i / entry.commit.chunk_len) (start-lt h entry values levels k i lt) in
      let size = k.size in
      let count = k.counted in
      let below = get_elem?-lt roots (i / entry.commit.chunk_len) c.at in
      rw
        (
          gt→leb entry.commit.size i (omega (arith, size, lt)),
          gt→leb entry.commit.num_chunks (i / entry.commit.chunk_len) (omega (arith, count, below)),
        )
        (in_range-entries is all)

  check_chunks-accepted :
      (is : List ℕ) (all : All (λ (i : ℕ). i < length values) is) (ps : List ℕ) (dict : Dict Bytes)
      (o : Opened h entry values levels k is all ps) (ks : List ℕ)
      → is_empty o.proofs ≡ false
      → ((q : ℕ) → mem q ks ≡ true → (mem q ps ≡ true) × (get dict q ≡ some (node_at roots q)))
      → check_chunks h dict o.proofs (map (entry_at entry.commit.chunk_len values) is) ks ≡ ok true
  unfolding check_chunks mem
  check_chunks-accepted is all ps dict o [] some_proof inside = refl
  check_chunks-accepted is all ps dict o (q ∷ ks) some_proof inside =
      let (isin, found) = inside q (rw (==_refl q) refl) in
      rw some_proof (
        rw (check_chunk-accepted h entry values levels k is all ps dict o q isin found) (
          check_chunks-accepted is all ps dict o ks some_proof
            (λ r at. inside r (rw at (ground arith)))))

  -- The parts of an accepted batch
  pub accepted_batch :
      (is : List ℕ)
      → is ≢ []
      → Ascending is
      → All (λ (i : ℕ). i < length values) is
      → (p : VcBatchProof) × (open_batch_of h entry is ≡ ok p)
        × (verify_batch h (vc_commitment h entry.commit) p ≡ true)
        × Shows values is p.entries
  unfolding open_batch_of verify_batch chunk_keys mem
  accepted_batch [] some_index asc all = absurd (some_index refl)
  accepted_batch (i ∷ rest) some_index asc all =
      let is : List ℕ = i ∷ rest in
      let len = entry.commit.chunk_len in
      let qs = chunk_places h entry values levels k is in
      let ps = sorted_set [] qs in
      let same : (q : ℕ) → mem q ps ≡ mem q qs = λ q. mem-sorted_set [] qs q in
      let dict = zip_nodes qs (leaves_at roots qs) [] in
      let agrees : Agrees roots ps dict = λ q. get-zip_nodes roots qs [] q ∙ rw (same q) refl in
      let keys = keys_of roots ps dict agrees (sorted_set-Ascending [] qs tt) in
      let some_place : ps ≢ [] = sorted_set-ne qs (λ z. cc z) in
      let starts : (q : ℕ) → mem q ps ≡ true → q * len < length values =
        λ q isin. place-lt is q all (sym (same q) ∙ isin) in
      let low : All (λ (q : ℕ). q < length roots) ps =
        All-mem (λ (q : ℕ). q < length roots) ps
          (λ q isin. get_elem?-lt roots q ((k.chunk q (starts q isin)).at)) in
      let (root, proof, rooted, made, accepted) =
        verify_multiproof-build_kary_levels h entry.commit.chunk_tree_arity roots levels ps k.built
          k.no_lone some_place low in
      let top : root ≡ entry.commit.global_root =
        ok_value root entry.commit.global_root (sym rooted ∙ k.rooted) in
      let o =
        open_leaves-total h entry values levels k is all ps
          (λ q isin. (starts q isin, sym (same q) ∙ isin)) in
      let shown = (roots_of-leaves h roots ps dict ps agrees (λ p isin. isin)).1 in
      let checked = zip_nodes ps (leaves_at roots ps) [] in
      let agrees' : Agrees roots ps checked = λ q. get-zip_nodes roots ps [] q in
      let listed = (roots_of-leaves h roots ps checked ps agrees' (λ p isin. isin)).0 in
      let known : chunk_keys (map (entry_at len values) is) ≡ ps =
        ap (sorted_set []) (map-map (entry_at len values) (λ e. e.chunk_index) is) in
      let chunks =
        check_chunks-accepted is all ps checked o ps
          (some_proofs o.proofs
            (λ z. some_place (sym (o.indices) ∙ ap (map (λ p. p.chunk_index)) z)))
          (λ q isin. (isin, rw (agrees' q, isin) refl)) in
      (
        record {
          entries = map (entry_at len values) is;
          chunk_positions = ps;
          chunk_roots = leaves_at roots ps;
          chunk_proof = proof;
          chunk_leaf_proofs = o.proofs;
        },
        rw (k.kept, sorted_set_same is asc)
            (rw (open_entries-total h entry values levels k is [] all)
              (rw keys (rw made (rw o.runs (rw shown refl))))),
        rw (in_range-entries is all) (
            rw known (
              rw chunks (
                rw (sorted_set_same ps (sorted_set-Ascending [] qs tt), same_list_refl ps)
                  (rw listed (ap (is_accepted h) (rw top at accepted)))))),
        entries-Shows len values is all,
      )
    where
      some_proofs : (proofs : List ChunkLeafProof) → proofs ≢ [] → is_empty proofs ≡ false
      some_proofs [] ne = absurd (ne refl)
      some_proofs (p ∷ proofs) ne = refl
