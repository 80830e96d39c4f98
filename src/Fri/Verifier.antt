-- ===== src/Fri/Verifier.antt =====
-- bef_zk/fri/verifier.py: `fri_verify`. The dictionaries of opened values, one to a layer, are
-- association lists; a `return False` inside the loops over the batches is `none`.
pub mod Queries
pub mod NoRounds
use capsule_tech.Common.{
  ℕ, zero, suc, ◌+◌, ◌*◌, ◌/◌, ◌%◌, Bool, true, false, not, ◌&&◌, Option, none, some, List, [], ◌∷◌,
  ◌==◌, if◌then◌else◌, length, get_elem?, replicate, set,
}
use capsule_tech.Common.Bytes.{Bytes, Sha, bytes_eq}
use capsule_tech.Common.Dict.{Dict, get, put}
use capsule_tech.Common.Field.{modulus}
use capsule_tech.Stc.Vector.{VectorCommitment, VcCommitment, VcBatchEntry}
use capsule_tech.Fri.Config.{FriConfig}
use capsule_tech.Fri.Types.{FriLayerInfo, FriLayerBatch, FriProof, derive_beta}

-- `for entry in batch.proof.entries`: two values for one index are refused.
unfoldable pub absorb_entries : Dict ℕ → List VcBatchEntry → Option (Dict ℕ)
absorb_entries values [] = some values
absorb_entries values (entry ∷ rest) =
    let val = entry.value % modulus in
    elim (get values entry.index) [
      | none ↦ absorb_entries (put values entry.index val) rest
      | some existing ↦ elim (existing == val) [
        | true ↦ absorb_entries (put values entry.index val) rest
        | false ↦ none
      ]
    ]

-- `betas`, from the roots of all layers but the last, and a 0 for the last.
unfoldable pub betas_of : Sha → ℕ → List FriLayerInfo → List ℕ
betas_of h round_idx [] = []
betas_of h round_idx (layer ∷ []) = 0 ∷ []
betas_of h round_idx (layer ∷ next ∷ rest) =
    derive_beta h layer.commitment.root round_idx ∷ betas_of h (round_idx + 1) (next ∷ rest)

-- The opened pair below `parent_idx`.
unfoldable pub open_pair : Dict ℕ → ℕ → Option (ℕ × ℕ)
open_pair values cur_idx =
    let parent_idx = cur_idx / 2 in
    elim (get values (parent_idx * 2)) [
      | none ↦ none
      | some v_even ↦ elim (get values (parent_idx * 2 + 1)) [
        | none ↦ none
        | some v_odd ↦ some (v_even, v_odd)
      ]
    ]

-- `final_map[cur_idx] == folded`, where `folded` is `None` before the first round.
unfoldable pub final_matches : Option ℕ → Option ℕ → Bool
final_matches (some value) (some folded) = value == folded
final_matches (some value) none = false
final_matches none folded = false

-- `round_idx == 0` compares the opened value at the queried index with the expected one.
unfoldable pub first_matches : ℕ → ℕ → ℕ × ℕ → ℕ → Bool
first_matches zero cur_idx (v_even, v_odd) expected =
    (if cur_idx % 2 == 0 then v_even else v_odd) == expected
first_matches (suc round_idx) cur_idx pair expected = true

-- One query: the rounds over the layers' challenges and values, then the last layer.
unfoldable pub check_rounds : ℕ → List (ℕ × Dict ℕ) → ℕ → ℕ → Option ℕ → Bool
unfolding open_pair final_matches first_matches
check_rounds round_idx [] cur_idx expected folded = false
check_rounds round_idx ((beta, values) ∷ []) cur_idx expected folded =
    final_matches (get values cur_idx) folded
check_rounds round_idx ((beta, values) ∷ next ∷ rest) cur_idx expected folded =
    elim (open_pair values cur_idx) [
      | none ↦ false
      | some (v_even, v_odd) ↦
          first_matches round_idx cur_idx (v_even, v_odd) expected
          && check_rounds (suc round_idx) (next ∷ rest) (cur_idx / 2) expected
              (some ((v_even + beta * v_odd) % modulus))
    ]

unfoldable pub check_queries : List (ℕ × Dict ℕ) → List ℕ → List ℕ → Bool
unfolding check_rounds
check_queries layers [] values = true
check_queries layers (base_index ∷ points) [] = false
check_queries layers (base_index ∷ points) (value ∷ values) =
    check_rounds 0 layers base_index (value % modulus) none && check_queries layers points values

unfoldable pub pair_layers : List ℕ → List (Dict ℕ) → List (ℕ × Dict ℕ)
pair_layers [] maps = []
pair_layers (beta ∷ betas) [] = []
pair_layers (beta ∷ betas) (values ∷ maps) = (beta, values) ∷ pair_layers betas maps

-- `proof.layers[0].commitment.root == base_commitment.root`
unfoldable pub first_root_is : List FriLayerInfo → Bytes → Bool
first_root_is [] root = false
first_root_is (layer ∷ rest) root = bytes_eq layer.commitment.root root

module _ (h : Sha) (vc : VectorCommitment) where
  -- `for batch in proof.batches`
  unfoldable pub absorb_batches :
      List FriLayerInfo → List FriLayerBatch → List (Dict ℕ) → Option (List (Dict ℕ))
  unfolding absorb_entries
  absorb_batches layers [] maps = some maps
  absorb_batches layers (batch ∷ rest) maps = elim (get_elem? layers batch.layer_index) [
    | none ↦ none
    | some layer ↦ elim (vc.verify_batch layer.commitment batch.proof) [
      | false ↦ none
      | true ↦ elim (get_elem? maps batch.layer_index) [
        | none ↦ none
        | some values ↦ elim (absorb_entries values batch.proof.entries) [
          | none ↦ none
          | some values' ↦ absorb_batches layers rest (set maps batch.layer_index values')
        ]
      ]
    ]
  ]

  unfoldable pub check_values : FriProof → List ℕ → List ℕ → Bool
  unfolding absorb_batches betas_of pair_layers check_queries
  check_values proof points values =
      elim (absorb_batches proof.layers proof.batches (replicate (length proof.layers) [])) [
        | none ↦ false
        | some maps ↦ check_queries (pair_layers (betas_of h 0 proof.layers) maps) points values
      ]

  unfoldable pub fri_verify : FriConfig → VcCommitment → FriProof → List ℕ → List ℕ → Bool
  unfolding first_root_is check_values
  fri_verify cfg base_commitment proof points values =
      (length points == length values)
      && (length proof.layers == cfg.num_rounds + 1)
      && first_root_is proof.layers base_commitment.root
      && (length proof.batches == length proof.layers)
      && check_values proof points values
