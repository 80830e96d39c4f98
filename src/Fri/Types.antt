-- ===== src/Fri/Types.antt =====
-- bef_zk/fri/types.py, and `_derive_beta`, which bef_zk/fri/prover.py and bef_zk/fri/verifier.py share.
use capsule_tech.Common.{ℕ, ◌%◌, ◌++◌, List, ◌==◌, if◌then◌else◌}
use capsule_tech.Common.Bytes.{Bytes, Sha, to_bytes, from_bytes}
use capsule_tech.Common.Field.{modulus}
use capsule_tech.Stc.Vector.{VcCommitment, VcBatchProof}

pub record FriLayerInfo : Type 0 where
  pub commitment : VcCommitment
  pub beta : ℕ
  pub size : ℕ

pub record FriLayerBatch : Type 0 where
  pub layer_index : ℕ
  pub proof : VcBatchProof

pub record FriProof : Type 0 where
  pub layers : List FriLayerInfo
  pub batches : List FriLayerBatch

-- The challenge of a round: the round's number takes four bytes, which every number of rounds that a
-- configuration allows has room for.
pub derive_beta : Sha → Bytes → ℕ → ℕ
derive_beta h root round_idx =
    let candidate = from_bytes (h.sha256 (root ++ to_bytes 4 round_idx)) % modulus in
    if candidate == 0 then 1 else candidate
