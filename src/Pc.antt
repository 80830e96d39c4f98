-- ===== src/Pc.antt =====
-- bef_zk/pc/stc_fri_pc.py: the polynomial commitment, FRI over a vector commitment. The vector
-- commitment's store is the state that `pc_commit` and `pc_open` extend.
pub mod Complete
use capsule_tech.Common.{
  ℕ, ◌%◌, Bool, not, List, map, ◌==◌, length, Result, ok, value_error, ◌>>=◌, ◌>>◌, raise_if,
}
use capsule_tech.Common.Bytes.{Sha}
use capsule_tech.Common.Field.{modulus}
use capsule_tech.Stc.Vector.{VectorCommitment, VcCommitment}
use capsule_tech.Fri.Config.{FriConfig}
use capsule_tech.Fri.Types.{FriProof}
use capsule_tech.Fri.Prover.{fri_prove}
use capsule_tech.Fri.Verifier.{fri_verify}

pub record PcCommitment : Type 0 where
  pub fri_params : FriConfig
  pub base_commitment : VcCommitment

pub record PcProverState : Type 0 where
  pub commitment : PcCommitment
  pub values : List ℕ

module _ (vc : VectorCommitment) where
  pub pc_commit : List ℕ → FriConfig → vc.State → Result (PcProverState × vc.State)
  pc_commit values fri_params s = do
    raise_if (not (length values == fri_params.domain_size)) value_error
    let vals = map (λ v. v % modulus) values
    (base_commit, s') ← vc.commit vals s
    ok (
      record {
        commitment = record { fri_params = fri_params; base_commitment = base_commit };
        values = vals;
      },
      s',
    )

module _ (h : Sha) (vc : VectorCommitment) where
  pub pc_open : PcProverState → List ℕ → vc.State → Result (FriProof × vc.State)
  pc_open state query_indices s =
      fri_prove h vc state.commitment.fri_params state.values state.commitment.base_commitment
        query_indices s

  pub pc_verify : PcCommitment → FriProof → List ℕ → List ℕ → Bool
  pc_verify commitment proof query_indices expected_values =
      fri_verify h vc commitment.fri_params commitment.base_commitment proof query_indices
        (map (λ v. v % modulus) expected_values)
