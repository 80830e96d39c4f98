-- ===== src/Stc/Vc/Leaves.antt =====
-- The multiproofs of the leaves of each chunk, which `open_batch` of bef_zk/stc/vc.py makes and
-- `verify_batch` checks.
use capsule_tech.Common.{
  ℕ, ◌*◌, ◌/◌, ◌<◌, ◌≡◌, ◌≢◌, refl, sym, ap, subst, ◌∙◌, inl, inr, true, some, List, [], ◌∷◌, map,
  ◌==◌, ==_iff, ==_refl, Bool-cases, length, get_elem?, get_elem?_total, get_elem?-lt, All, ok,
  ok_value, arith,
}
use capsule_tech.Common.Dict.{Dict, get}
use capsule_tech.Common.Bytes.{Bytes, Sha}
use capsule_tech.Stc.Merkle.{Levels}
use capsule_tech.Stc.Accumulator.{chunk_leaves}
use capsule_tech.Stc.Accumulator.Streaming.{length-chunk_leaves}
use capsule_tech.Stc.Kary.Group.{node_at, or_empty}
use capsule_tech.Stc.Multi.{mem, sorted_set, verify_multiproof}
use capsule_tech.Stc.Multi.Trees.{leaves_at, sorted_set-ne, verify_multiproof-multiproof}
use capsule_tech.Stc.Multi.Sets.{mem-sorted_set}
use capsule_tech.Stc.Plain.{value_or}
use capsule_tech.Stc.Vector.{VcBatchEntry, ChunkLeafProof}
use capsule_tech.Stc.Vc.{StoreEntry, open_leaves, entries_of, leaf_positions_of, offset_of}
use capsule_tech.Stc.Vc.Batch.{value_by_pos, check_chunk}
use capsule_tech.Stc.Vc.Groups.{
  entry_at, local_of, within, entries_of-within, within-All, within-ne, map-map, same_list_refl,
  value_by_pos-shown, leaf_hashes_of-leaves, find_leaf_proof-found,
}
use capsule_tech.Stc.Vc.Opening.{slice, Kept, in_slice, chunk_places}

pub All-mem {ℓ} : (P : ℕ → Type ℓ) (xs : List ℕ) → ((i : ℕ) → mem i xs ≡ true → P i) → All P xs
unfolding mem
All-mem P [] f = tt
All-mem P (x ∷ xs) f =
    (f x (rw (==_refl x) refl), All-mem P xs (λ i isin. f i (rw isin (ground arith))))

mem-map :
    (P : ℕ → Type 0) (f : ℕ → ℕ) (js : List ℕ) (i : ℕ)
    → All (λ (j : ℕ). P (f j)) js
    → mem i (map f js) ≡ true
    → P i
unfolding mem
mem-map P f [] i all isin = absurd (cc)
mem-map P f (j ∷ js) i all isin = elim (Bool-cases (f j == i)) [
  | inl own ↦ subst P ((==_iff (f j) i).0 own) all.0
  | inr other ↦ mem-map P f js i all.1 (rw other at isin)
]

All-map {ℓ κ} :
    {A : Type 0} (P : A → Type ℓ) (Q : A → Type κ) (xs : List A)
    → ((a : A) → P a → Q a)
    → All P xs
    → All Q xs
All-map P Q [] f all = tt
All-map P Q (x ∷ xs) f all = (f x all.0, All-map P Q xs f all.1)

module _ (h : Sha) (entry : StoreEntry) (values : List ℕ) (levels : Levels)
    (k : Kept h entry values levels) (is : List ℕ)
    (all : All (λ (i : ℕ). i < length values) is) where
  abbrev len : ℕ
  len = entry.commit.chunk_len

  abbrev shown_entries : List VcBatchEntry
  shown_entries = map (entry_at len values) is

  -- What `verify_batch` asks of the proof of a chunk
  pub record LeafProof (p : ChunkLeafProof) : Type 0 where
    pub offset : p.chunk_offset ≡ p.chunk_index * len
    pub positions : p.leaf_positions ≡ leaf_positions_of (entries_of p.chunk_index shown_entries)
    pub accepted :
        verify_multiproof h
          (node_at entry.commit.chunk_roots p.chunk_index)
          (leaves_at
            (chunk_leaves h (p.chunk_index * len) 0 (slice h len values p.chunk_index))
            p.leaf_positions)
          p.leaf_positions
          p.proof
        ≡ ok true

  -- The places of a chunk's indices
  local_places :
      (q : ℕ)
      → leaf_positions_of (entries_of q shown_entries)
        ≡ sorted_set [] (map (local_of len) (within len q is))
  local_places q =
      ap leaf_positions_of (entries_of-within len values q is)
      ∙ ap (sorted_set []) (map-map (entry_at len values) (λ e. e.leaf_pos) (within len q is))

  -- Each place of a chunk's index is in the chunk, and has the index's value.
  Placed : ℕ → ℕ → Type 0
  Placed q pos = (v : ℕ) × (get_elem? (slice h len values q) pos ≡ some v)

  placed : (q j : ℕ) → (j < length values) × (j / len ≡ q) → Placed q (local_of len j)
  unfolding Placed
  placed q j (lt, own) =
      let (v, there) = get_elem?_total values j lt in
      (
        v,
        ap (λ (r : ℕ). get_elem? (slice h len values r) (local_of len j)) (sym own)
            ∙ in_slice h entry values levels k j
            ∙ there,
      )

  all-Placed :
      (q pos : ℕ) → mem pos (leaf_positions_of (entries_of q shown_entries)) ≡ true → Placed q pos
  unfolding mem
  all-Placed q pos isin =
      mem-map (Placed q) (local_of len) (within len q is) pos
        (All-map (λ (j : ℕ). (j < length values) × (j / len ≡ q)) (λ j. Placed q (local_of len j))
          (within len q is) (placed q) (within-All (λ (i : ℕ). i < length values) len q is all))
        (sym (mem-sorted_set [] (map (local_of len) (within len q is)) pos)
          ∙ sym (ap (mem pos) (local_places q))
          ∙ isin)

  offset_known :
      (q : ℕ) (js : List ℕ)
      → All (λ (j : ℕ). (j < length values) × (j / len ≡ q)) js
      → offset_of (map (entry_at len values) js) (q * len) ≡ q * len
  offset_known q [] a = refl
  offset_known q (j ∷ js) a = ap (λ (r : ℕ). r * len) a.0.1

  some_place :
      (q : ℕ)
      → mem q (chunk_places h entry values levels k is) ≡ true
      → leaf_positions_of (entries_of q shown_entries) ≢ []
  some_place q isin z =
      sorted_set-ne (map (local_of len) (within len q is))
        (not_nil (within len q is) (within-ne len q is isin)) (sym (local_places q) ∙ z)
    where
      not_nil : (js : List ℕ) → 0 < length js → map (local_of len) js ≢ []
      not_nil [] lt e = absurd (omega arith)
      not_nil (j ∷ js) lt e = cc e

  pub record Opened (ps : List ℕ) : Type 0 where
    pub proofs : List ChunkLeafProof
    pub runs : open_leaves h entry shown_entries ps ≡ ok proofs
    pub good : All LeafProof proofs
    pub indices : map (λ p. p.chunk_index) proofs ≡ ps

  pub open_leaves-total :
      (ps : List ℕ)
      → ((q : ℕ)
          → mem q ps ≡ true
          → (q * len < length values) × (mem q (chunk_places h entry values levels k is) ≡ true))
      → Opened ps
  unfolding open_leaves mem Placed
  open_leaves-total [] inside = record { proofs = []; runs = refl; good = tt; indices = refl }
  open_leaves-total (q ∷ ps) inside =
      let (start, isin) = inside q (rw (==_refl q) refl) in
      let c = k.chunk q start in
      let mine = entries_of q shown_entries in
      let leaves = chunk_leaves h (q * len) 0 (slice h len values q) in
      let rest = open_leaves-total ps (λ r at. inside r (rw at (ground arith))) in
      let low : All (λ (pos : ℕ). pos < length leaves) (leaf_positions_of mine) =
        All-mem (λ (pos : ℕ). pos < length leaves) (leaf_positions_of mine)
          (λ pos there.
            let (v, e) = all-Placed q pos there in
            let n = get_elem?-lt (slice h len values q) pos e in
            let m = length-chunk_leaves h (q * len) 0 (slice h len values q) in
            omega (arith, n, m)) in
      let (root, proof, rooted, made, accepted) =
        verify_multiproof-multiproof h leaves c.tree (leaf_positions_of mine) c.built
          (some_place q isin) low in
      let same : root ≡ node_at entry.commit.chunk_roots q =
        ok_value root c.root (sym rooted ∙ c.rooted) ∙ sym (ap or_empty c.at) in
      let offset : offset_of mine (q * len) ≡ q * len =
        ap (λ (l : List VcBatchEntry). offset_of l (q * len)) (entries_of-within len values q is)
        ∙ offset_known q (within len q is)
            (within-All (λ (i : ℕ). i < length values) len q is all) in
      record {
        proofs =
            record {
              chunk_index = q;
              chunk_offset = offset_of mine (q * len);
              leaf_positions = leaf_positions_of mine;
              proof = proof;
            }
            ∷ rest.proofs;
        runs = rw (c.loaded) (rw made (rw (rest.runs) refl));
        good = (
          record {
            offset = offset;
            positions = refl;
            accepted =
                ap
                  (λ (r : Bytes).
                    verify_multiproof h r (leaves_at leaves (leaf_positions_of mine))
                      (leaf_positions_of mine) proof)
                  (sym same)
                ∙ accepted;
          },
          rest.good,
        );
        indices = ap (λ r. q ∷ r) rest.indices;
      }

  -- One chunk of the check
  pub check_chunk-accepted :
      (ps : List ℕ) (roots : Dict Bytes) (o : Opened ps) (q : ℕ)
      → mem q ps ≡ true
      → get roots q ≡ some (node_at entry.commit.chunk_roots q)
      → check_chunk h roots o.proofs (entries_of q shown_entries) q ≡ ok true
  unfolding check_chunk Placed
  check_chunk-accepted ps roots o q isin found =
      let mine = entries_of q shown_entries in
      let (p, there, own, good) =
        find_leaf_proof-found LeafProof q o.proofs o.good (ap (mem q) o.indices ∙ isin) in
      let places : p.leaf_positions ≡ leaf_positions_of mine =
        good.positions ∙ ap (λ (r : ℕ). leaf_positions_of (entries_of r shown_entries)) own in
      let offset : p.chunk_offset ≡ q * len = good.offset ∙ ap (λ (r : ℕ). r * len) own in
      let hashes =
        leaf_hashes_of-leaves h (q * len) (slice h len values q) mine (leaf_positions_of mine)
          (All-mem _ (leaf_positions_of mine) (λ pos at. shows q pos at)) in
      let accepted =
        subst
          (λ (r : ℕ).
            verify_multiproof h (node_at entry.commit.chunk_roots r)
              (leaves_at (chunk_leaves h (r * len) 0 (slice h len values r)) p.leaf_positions)
              p.leaf_positions p.proof
            ≡ ok true)
          own good.accepted in
      rw (found, check_chunk)
        (rw there (
          rw (offset, places, same_list_refl (leaf_positions_of mine))
            (rw hashes (rw places at accepted))))
    where
      shows :
          (q pos : ℕ)
          → mem pos (leaf_positions_of (entries_of q shown_entries)) ≡ true
          → (v : ℕ) × (get_elem? (slice h len values q) pos ≡ some v)
            × (value_by_pos pos (entries_of q shown_entries) ≡ some v)
      shows q pos isin =
          let (v, there) = all-Placed q pos isin in
          let f : ℕ → ℕ = λ r. value_or (get_elem? (slice h len values q) r) in
          let in_places : mem pos (map (local_of len) (within len q is)) ≡ true =
            sym (mem-sorted_set [] (map (local_of len) (within len q is)) pos)
            ∙ sym (ap (mem pos) (local_places q))
            ∙ isin in
          let agree =
            All-map (λ (j : ℕ). (j < length values) × (j / len ≡ q))
              (λ j. value_or (get_elem? values j) ≡ f (local_of len j)) (within len q is)
              (λ j a. ap value_or (
                sym (in_slice h entry values levels k j)
                ∙ ap (λ (r : ℕ). get_elem? (slice h len values r) (local_of len j)) a.1))
              (within-All (λ (i : ℕ). i < length values) len q is all) in
          (
            v,
            there,
            ap (value_by_pos pos) (entries_of-within len values q is)
                ∙ value_by_pos-shown len values f pos (within len q is) agree
                ∙ rw (in_places, there) refl,
          )
