-- ===== src/Stc/Vc/Groups.antt =====
-- The entries of a batch opening, chunk by chunk.
use capsule_tech.Common.{
  ℕ, ◌-◌, ◌*◌, ◌/◌, ◌<◌, ◌≡◌, refl, ap, ◌∙◌, ◌⊎◌, inl, inr, Bool, true, false, ◌||◌, Option, none,
  some, List, [], ◌∷◌, map, ◌==◌, ==_iff, ==_refl, Bool-cases, if◌then◌else◌, length, get_elem?,
  All, ok, arith,
}
use capsule_tech.Common.Dict.{Dict, get}
use capsule_tech.Common.Bytes.{Bytes, Sha}
use capsule_tech.Stc.Accumulator.{chunk_leaf_hash, chunk_leaves}
use capsule_tech.Stc.Kary.Group.{node_at, or_empty}
use capsule_tech.Stc.Backend.Opens.{get_elem?-chunk_leaves}
use capsule_tech.Stc.Multi.{mem}
use capsule_tech.Stc.Multi.Shown.{Agrees}
use capsule_tech.Stc.Multi.Trees.{leaves_at}
use capsule_tech.Stc.Plain.{value_or}
use capsule_tech.Stc.Vector.{VcBatchEntry, ChunkLeafProof}
use capsule_tech.Stc.Vc.{entries_of, roots_at}
use capsule_tech.Stc.Vc.Batch.{same_list, find_leaf_proof, value_by_pos, leaf_hashes_of, roots_of}

-- A place in its chunk
abbrev pub local_of : ℕ → ℕ → ℕ
local_of len i = i - i / len * len

-- What the prover shows of a vector at an index
abbrev pub entry_at : ℕ → List ℕ → ℕ → VcBatchEntry
entry_at len values i = record {
  index = i;
  value = value_or (get_elem? values i);
  chunk_index = i / len;
  chunk_offset = i / len * len;
  leaf_pos = local_of len i;
  leaf_path = none;
}

-- The indices of a chunk
abbrev pub within : ℕ → ℕ → List ℕ → List ℕ
within len q [] = []
within len q (i ∷ is) = if i / len == q then i ∷ within len q is else within len q is

pub entries_of-within :
    (len : ℕ) (values : List ℕ) (q : ℕ) (is : List ℕ)
    → entries_of q (map (entry_at len values) is) ≡ map (entry_at len values) (within len q is)
unfolding entries_of
entries_of-within len values q [] = refl
entries_of-within len values q (i ∷ is) = elim (Bool-cases (i / len == q)) [
  | inl own ↦ rw own (ap (λ r. entry_at len values i ∷ r) (entries_of-within len values q is))
  | inr other ↦ rw other (entries_of-within len values q is)
]

pub within-All {ℓ} :
    (P : ℕ → Type ℓ) (len q : ℕ) (is : List ℕ)
    → All P is
    → All (λ (i : ℕ). P i × (i / len ≡ q)) (within len q is)
within-All P len q [] all = tt
within-All P len q (i ∷ is) all = elim (Bool-cases (i / len == q)) [
  | inl own ↦ rw own ((all.0, (==_iff (i / len) q).0 own), within-All P len q is all.1)
  | inr other ↦ rw other (within-All P len q is all.1)
]

pub within-ne :
    (len q : ℕ) (is : List ℕ) → mem q (map (λ i. i / len) is) ≡ true → 0 < length (within len q is)
unfolding mem
within-ne len q [] isin = absurd (cc)
within-ne len q (i ∷ is) isin = elim (Bool-cases (i / len == q)) [
  | inl own ↦ rw own (omega arith)
  | inr other ↦ rw other (within-ne len q is (rw other at isin))
]

pub map-map {ℓ κ μ} :
    {A : Type ℓ} {B : Type κ} {C : Type μ} (f : A → B) (g : B → C) (xs : List A)
    → map g (map f xs) ≡ map (λ x. g (f x)) xs
map-map f g [] = refl
map-map f g (x ∷ xs) = ap (λ r. g (f x) ∷ r) (map-map f g xs)

pub same_list_refl : (xs : List ℕ) → same_list xs xs ≡ true
unfolding same_list
same_list_refl [] = refl
same_list_refl (x ∷ xs) = rw (==_refl x) (same_list_refl xs)

-- The value at a position, where the entries show what `f` says
pub value_by_pos-shown :
    (len : ℕ) (values : List ℕ) (f : ℕ → ℕ) (pos : ℕ) (js : List ℕ)
    → All (λ (j : ℕ). value_or (get_elem? values j) ≡ f (local_of len j)) js
    → value_by_pos pos (map (entry_at len values) js)
      ≡ (if mem pos (map (local_of len) js) then some (f pos) else none)
unfolding value_by_pos mem
value_by_pos-shown len values f pos [] all = refl
value_by_pos-shown len values f pos (j ∷ js) all =
    rw (value_by_pos-shown len values f pos js all.1)
      (by_head (mem pos (map (local_of len) js)) (Bool-cases (local_of len j == pos)))
  where
    by_head :
        (later : Bool)
        → (local_of len j == pos ≡ true) ⊎ (local_of len j == pos ≡ false)
        → (elim (if later then some (f pos) else none) as (λ o. Option ℕ) [
          | some v ↦ some v
          | none ↦ if local_of len j == pos then some (value_or (get_elem? values j)) else none
        ])
          ≡ (if (local_of len j == pos) || later then some (f pos) else none)
    by_head true (inl own) = rw own refl
    by_head true (inr other) = rw other refl
    by_head false (inl own) = rw own (ap some (all.0 ∙ ap f ((==_iff (local_of len j) pos).0 own)))
    by_head false (inr other) = rw other refl

module _ (h : Sha) where
  pub leaf_hashes_of-leaves :
      (offset : ℕ) (chunk : List ℕ) (mine : List VcBatchEntry) (positions : List ℕ)
      → All
          (λ (pos : ℕ). (v : ℕ) × (get_elem? chunk pos ≡ some v) × (value_by_pos pos mine ≡ some v))
          positions
      → leaf_hashes_of h offset positions mine
        ≡ ok (leaves_at (chunk_leaves h offset 0 chunk) positions)
  unfolding leaf_hashes_of
  leaf_hashes_of-leaves offset chunk mine [] all = refl
  leaf_hashes_of-leaves offset chunk mine (pos ∷ positions) ((v, there, shown), all) =
      let leaf : node_at (chunk_leaves h offset 0 chunk) pos ≡ chunk_leaf_hash h offset pos v =
        ap or_empty (get_elem?-chunk_leaves h offset 0 pos chunk v there)
        ∙ ap (λ (k : ℕ). chunk_leaf_hash h offset k v) (omega arith) in
      rw shown (rw (leaf_hashes_of-leaves offset chunk mine positions all, leaf) refl)

  pub roots_of-leaves :
      (level : List Bytes) (current : List ℕ) (nodes : Dict Bytes) (ps : List ℕ)
      → Agrees level current nodes
      → ((p : ℕ) → mem p ps ≡ true → mem p current ≡ true)
      → (roots_of h nodes ps ≡ ok (leaves_at level ps)) × (roots_at nodes ps ≡ leaves_at level ps)
  unfolding roots_of roots_at mem
  roots_of-leaves level current nodes [] agrees inside = (refl, refl)
  roots_of-leaves level current nodes (p ∷ ps) agrees inside =
      let found : get nodes p ≡ some (node_at level p) =
        rw (agrees p, inside p (rw (==_refl p) refl)) refl in
      let (a, b) =
        roots_of-leaves level current nodes ps agrees
          (λ r isin. inside r (rw isin (ground arith))) in
      (rw found (rw a refl), rw (found, roots_at) (ap (λ r. node_at level p ∷ r) b))

-- A proof of a chunk is found, if there is one.
pub find_leaf_proof-found {ℓ} :
    (Good : ChunkLeafProof → Type ℓ) (q : ℕ) (proofs : List ChunkLeafProof)
    → All Good proofs
    → mem q (map (λ p. p.chunk_index) proofs) ≡ true
    → (p : ChunkLeafProof) × (find_leaf_proof q proofs ≡ some p) × (p.chunk_index ≡ q) × Good p
unfolding find_leaf_proof mem
find_leaf_proof-found Good q [] all isin = absurd (cc)
find_leaf_proof-found Good q (p ∷ proofs) all isin =
    elim (Bool-cases (mem q (map (λ r. r.chunk_index) proofs))) [
      | inl later ↦
          let (r, found, own, good) = find_leaf_proof-found Good q proofs all.1 later in
          (r, rw found refl, own, good)
      | inr none_later ↦
          let own : (p.chunk_index == q) ≡ true =
            by_or (p.chunk_index == q) (mem q (map (λ r. r.chunk_index) proofs)) isin none_later in
          (p, rw (not_found proofs none_later) (rw own refl), (==_iff p.chunk_index q).0 own, all.0)
    ]
  where
    by_or : (a b : Bool) → (a || b) ≡ true → b ≡ false → a ≡ true
    by_or true b e z = refl
    by_or false b e z = absurd (cc)

    not_found :
        (proofs : List ChunkLeafProof)
        → mem q (map (λ r. r.chunk_index) proofs) ≡ false
        → find_leaf_proof q proofs ≡ none
    not_found [] e = refl
    not_found (r ∷ rs) e = elim (Bool-cases (r.chunk_index == q)) [
      | inl own ↦ absurd (cc (rw own at e))
      | inr other ↦ rw (not_found rs (rw other at e), other) refl
    ]
