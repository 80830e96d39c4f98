-- ===== src/Fri/Verifier/NoRounds.antt =====
-- bef_zk/fri/verifier.py under a configuration of no rounds, which bef_zk/fri/config.py allows.
use capsule_tech.Common.{
  ℕ, zero, ◌+◌, ◌≡◌, refl, false, inl, inr, Option, none, some, Option-cases, Bool-cases, List, [],
  ◌∷◌, ◌==◌, ==_iff, length, arith,
}
use capsule_tech.Common.Bytes.{Sha}
use capsule_tech.Common.Dict.{Dict, get}
use capsule_tech.Stc.Vector.{VectorCommitment, VcCommitment}
use capsule_tech.Fri.Config.{FriConfig}
use capsule_tech.Fri.Types.{FriLayerInfo, FriLayerBatch, FriProof}
use capsule_tech.Fri.Verifier.{
  fri_verify, check_values, check_queries, check_rounds, final_matches, pair_layers, betas_of,
  absorb_batches,
}

unfolded_none : (found : Option ℕ) → final_matches found none ≡ false
unfolding final_matches
unfolded_none none = refl
unfolded_none (some v) = refl

module _ (h : Sha) (vc : VectorCommitment) where
  one_layer_rejects :
      (layer : FriLayerInfo) (maps : List (Dict ℕ)) (p : ℕ) (points values : List ℕ)
      → check_queries (pair_layers (betas_of h zero (layer ∷ [])) maps) (p ∷ points) values ≡ false
  unfolding check_queries check_rounds pair_layers betas_of
  one_layer_rejects layer maps p points [] = refl
  one_layer_rejects layer [] p points (x ∷ values) = refl
  one_layer_rejects layer (d ∷ maps) p points (x ∷ values) = rw (unfolded_none (get d p)) refl

  values_rejected :
      (layers : List FriLayerInfo) (batches : List FriLayerBatch) (p : ℕ) (points values : List ℕ)
      → length layers ≡ 1
      → check_values h vc (record { layers = layers; batches = batches }) (p ∷ points) values
        ≡ false
  unfolding check_values
  values_rejected [] batches p points values n = absurd (omega arith)
  values_rejected (layer ∷ next ∷ layers) batches p points values n = absurd (omega arith)
  values_rejected (layer ∷ []) batches p points values n =
      elim (Option-cases (absorb_batches h vc (layer ∷ []) batches ([] ∷ []))) [
        | inl refused ↦ rw (refused, check_values) refl
        | inr (maps, e) ↦ rw (e, check_values) (one_layer_rejects layer maps p points values)
      ]

  -- Without rounds every proof for at least one query is rejected, an honest one too: the last
  -- layer's value is compared with a fold that no round has computed.
  pub no_rounds_rejects :
      (cfg : FriConfig) (commit : VcCommitment) (proof : FriProof) (p : ℕ) (points values : List ℕ)
      → cfg.num_rounds ≡ 0
      → fri_verify h vc cfg commit proof (p ∷ points) values ≡ false
  unfolding fri_verify
  no_rounds_rejects cfg commit proof p points values z =
      elim (Bool-cases (length proof.layers == cfg.num_rounds + 1)) [
        | inl one ↦
            let n : length proof.layers ≡ 1 =
              omega (arith, (==_iff (length proof.layers) (cfg.num_rounds + 1)).0 one) in
            let e = values_rejected proof.layers proof.batches p points values n in
            ground (arith, e)
        | inr other ↦ ground (arith, other)
      ]
