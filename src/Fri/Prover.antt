-- ===== src/Fri/Prover.antt =====
-- bef_zk/fri/prover.py: `_build_layers_python` and `fri_prove` without the optional Rust module. The
-- vector commitment's store is the state `s` that every commitment extends.
use capsule_tech.Common.{
  ℕ, zero, suc, ◌+◌, ◌*◌, ◌/◌, ◌%◌, List, [], ◌∷◌, map, leb, length, replicate, Result, ok, err,
  value_error, index_error, ◌>>=◌, ◌>>◌, raise_if,
}
use capsule_tech.Common.Ascending.{add}
use capsule_tech.Common.Bytes.{Sha}
use capsule_tech.Common.Field.{modulus}
use capsule_tech.Stc.Vector.{VectorCommitment, VcCommitment}
use capsule_tech.Fri.Config.{FriConfig}
use capsule_tech.Fri.Domain.{fold_codeword}
use capsule_tech.Fri.Types.{FriLayerInfo, FriLayerBatch, FriProof, derive_beta}

-- `needed[...].add` along the layers for one query index.
unfoldable pub mark_query : List FriLayerInfo → List (List ℕ) → ℕ → Result (List (List ℕ))
mark_query [] needed cur_idx = err index_error
mark_query (layer ∷ layers) [] cur_idx = err index_error
mark_query (layer ∷ []) (marked ∷ needed) cur_idx = ok (add cur_idx marked ∷ needed)
mark_query (layer ∷ next ∷ rest) (marked ∷ needed) cur_idx = do
  raise_if (leb layer.size 1) value_error
  below ← mark_query (next ∷ rest) needed (cur_idx / 2)
  ok (add (cur_idx / 2 * 2 + 1) (add (cur_idx / 2 * 2) marked) ∷ below)

unfoldable pub mark_queries : List FriLayerInfo → List (List ℕ) → List ℕ → Result (List (List ℕ))
unfolding mark_query
mark_queries layers needed [] = ok needed
mark_queries layers needed (idx ∷ rest) = do
  marked ← mark_query layers needed idx
  mark_queries layers marked rest

module _ (h : Sha) (vc : VectorCommitment) where
  -- The rounds left, `round_idx`, `current` and `commit` of `_build_layers_python`.
  unfoldable pub build_rounds :
      ℕ → FriConfig → ℕ → List ℕ → VcCommitment → vc.State → Result (List FriLayerInfo × vc.State)
  build_rounds zero cfg round_idx current commit s =
      ok (record { commitment = commit; beta = 0; size = length current } ∷ [], s)
  build_rounds (suc rounds) cfg round_idx current commit s =
      let beta = derive_beta h commit.root round_idx in
      do
        next_codeword ← fold_codeword current beta cfg.field_modulus
        (commit', s') ← vc.commit next_codeword s
        (layers, s'') ← build_rounds rounds cfg (round_idx + 1) next_codeword commit' s'
        ok (record { commitment = commit; beta = beta; size = length current } ∷ layers, s'')

  unfoldable pub build_layers :
      FriConfig → List ℕ → VcCommitment → vc.State → Result (List FriLayerInfo × vc.State)
  unfolding build_rounds
  build_layers cfg base_evals base_commitment s =
      build_rounds cfg.num_rounds cfg 0 (map (λ v. v % modulus) base_evals) base_commitment s

  -- `vc.open_batch(layer_info.commitment, sorted(needed[layer_idx]))` for each layer.
  unfoldable pub open_layers :
      ℕ → List FriLayerInfo → List (List ℕ) → vc.State → Result (List FriLayerBatch)
  open_layers layer_idx [] needed s = ok []
  open_layers layer_idx (layer ∷ layers) [] s = err index_error
  open_layers layer_idx (layer ∷ layers) (idxs ∷ needed) s = do
    proof ← vc.open_batch layer.commitment idxs s
    rest ← open_layers (layer_idx + 1) layers needed s
    ok (record { layer_index = layer_idx; proof = proof } ∷ rest)

  unfoldable pub fri_prove :
      FriConfig → List ℕ → VcCommitment → List ℕ → vc.State → Result (FriProof × vc.State)
  unfolding build_layers mark_queries open_layers
  fri_prove cfg base_evals base_commitment query_indices s = do
    (layers, s') ← build_layers cfg base_evals base_commitment s
    needed ← mark_queries layers (replicate (length layers) []) query_indices
    batches ← open_layers 0 layers needed s'
    ok (record { layers = layers; batches = batches }, s')
