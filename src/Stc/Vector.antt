-- ===== src/Stc/Vector.antt =====
-- bef_zk/stc/vc.py: the data of a vector commitment, and its interface `VectorCommitment` as FRI uses
-- it. The prover's store of committed vectors (`_store`) is the state that `commit` extends.
use capsule_tech.Common.{
  ℕ, ◌<◌, ◌≡◌, ◌≢◌, Bool, true, Option, some, List, [], ◌∷◌, length, get_elem?, All, Result, ok,
}
use capsule_tech.Common.Bytes.{Bytes}
use capsule_tech.Common.Field.{modulus}
use capsule_tech.Common.Ascending.{Ascending}

pub record VcCommitment : Type 0 where
  pub root : Bytes
  pub size : ℕ
  pub chunk_len : ℕ
  pub num_chunks : ℕ
  pub challenges : List ℕ
  pub sketches : List ℕ
  pub powers : List ℕ
  pub chain_root : Bytes
  pub chunk_tree_arity : ℕ

pub record MerkleMultiProof : Type 0 where
  pub tree_size : ℕ
  pub arity : ℕ
  pub sibling_levels : List (List Bytes)

pub record VcBatchEntry : Type 0 where
  pub index : ℕ
  pub value : ℕ
  pub chunk_index : ℕ
  pub chunk_offset : ℕ
  pub leaf_pos : ℕ
  pub leaf_path : Option (List Bytes)

pub record ChunkLeafProof : Type 0 where
  pub chunk_index : ℕ
  pub chunk_offset : ℕ
  pub leaf_positions : List ℕ
  pub proof : MerkleMultiProof

pub record VcBatchProof : Type 0 where
  pub entries : List VcBatchEntry
  pub chunk_positions : List ℕ
  pub chunk_roots : List Bytes
  pub chunk_proof : MerkleMultiProof
  pub chunk_leaf_proofs : List ChunkLeafProof

-- The protocol's operations that FRI calls.
pub record VectorCommitment : Type 1 where
  pub State : Type 0
  pub commit : List ℕ → State → Result (VcCommitment × State)
  pub open_batch : VcCommitment → List ℕ → State → Result VcBatchProof
  pub verify_batch : VcCommitment → VcBatchProof → Bool

-- The entries of an opening at `indices` are the values of the vector there, in this order.
abbrev pub Shows : List ℕ → List ℕ → List VcBatchEntry → Type 0
Shows values [] [] = Unit
Shows values [] (e ∷ es) = ⊥
Shows values (i ∷ is) [] = ⊥
Shows values (i ∷ is) (e ∷ es) =
    (e.index ≡ i) × (get_elem? values i ≡ some e.value) × Shows values is es

-- What FRI relies on. A vector of a length that the commitment can open is committed to; a vector that
-- was committed to can be opened at ascending places inside it, the opening is accepted and shows the
-- vector's values; and later commitments with other roots keep this so.
pub record VcLaws (vc : VectorCommitment) : Type 1 where
  pub Fair : ℕ → Type 0
  pub Holds : vc.State → VcCommitment → List ℕ → Type 0
  pub commit_holds :
      (values : List ℕ) (s : vc.State)
      → 0 < length values
      → Fair (length values)
      → All (λ v. v < modulus) values
      → (c : VcCommitment) × (s' : vc.State) × (vc.commit values s ≡ ok (c, s')) × Holds s' c values
  pub commit_keeps :
      (values old : List ℕ) (s s' : vc.State) (c d : VcCommitment)
      → vc.commit values s ≡ ok (c, s')
      → c.root ≢ d.root
      → Holds s d old
      → Holds s' d old
  pub open_shows :
      (values indices : List ℕ) (s : vc.State) (c : VcCommitment)
      → Holds s c values
      → indices ≢ []
      → Ascending indices
      → All (λ i. i < length values) indices
      → (p : VcBatchProof) × (vc.open_batch c indices s ≡ ok p)
        × (vc.verify_batch c p ≡ true)
        × Shows values indices p.entries
