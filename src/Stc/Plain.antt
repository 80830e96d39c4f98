-- ===== src/Stc/Plain.antt =====
-- A vector commitment that keeps its vector in the open, at which a rejection is shown.
use capsule_tech.Common.{
  ℕ, ◌<◌, ◌≡◌, refl, Bool, true, ◌&&◌, Option, none, some, List, [], ◌∷◌, map, ◌==◌, ==_refl,
  length, get_elem?, get_elem?_total, All, ok,
}
use capsule_tech.Stc.Vector.{VectorCommitment, VcCommitment, VcBatchEntry, VcBatchProof, Shows}

abbrev pub value_or : Option ℕ → ℕ
value_or none = 0
value_or (some x) = x

abbrev pub open_commitment : List ℕ → VcCommitment
open_commitment values = record {
  root = values;
  size = length values;
  chunk_len = 1;
  num_chunks = length values;
  challenges = [];
  sketches = values;
  powers = [];
  chain_root = [];
  chunk_tree_arity = 2;
}

abbrev pub entry_at : List ℕ → ℕ → VcBatchEntry
entry_at values i = record {
  index = i;
  value = value_or (get_elem? values i);
  chunk_index = i;
  chunk_offset = i;
  leaf_pos = 0;
  leaf_path = none;
}

abbrev pub opening : List ℕ → List ℕ → VcBatchProof
opening values indices = record {
  entries = map (entry_at values) indices;
  chunk_positions = [];
  chunk_roots = [];
  chunk_proof = record { tree_size = 0; arity = 2; sibling_levels = [] };
  chunk_leaf_proofs = [];
}

abbrev pub entries_hold : List ℕ → List VcBatchEntry → Bool
entries_hold values [] = true
entries_hold values (e ∷ es) =
    (value_or (get_elem? values e.index) == e.value) && entries_hold values es

abbrev pub plain : VectorCommitment
plain = record {
  State = Unit {0};
  commit = λ values s. ok (open_commitment values, s);
  open_batch = λ c indices s. ok (opening c.sketches indices);
  verify_batch = λ c p. entries_hold c.sketches p.entries;
}

pub opening_holds :
    (values indices : List ℕ) → entries_hold values (map (entry_at values) indices) ≡ true
opening_holds values [] = refl
opening_holds values (i ∷ is) =
    rw (==_refl (value_or (get_elem? values i))) (opening_holds values is)

pub opening-Shows :
    (values indices : List ℕ)
    → All (λ i. i < length values) indices
    → Shows values indices (map (entry_at values) indices)
opening-Shows values [] lt = tt
opening-Shows values (i ∷ is) lt =
    let (x, e) = get_elem?_total values i lt.0 in (refl, rw e refl, opening-Shows values is lt.1)
