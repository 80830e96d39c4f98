-- ===== src/Fri/Complete/Examples.antt =====
-- Runs of bef_zk/fri on four values.
use capsule_tech.Common.{ℕ, ◌≡◌, refl, false, List, [], ◌∷◌}
use capsule_tech.Common.Field.{modulus}
use capsule_tech.Common.Toy.{toy_sha}
use capsule_tech.Fri.Config.{FriConfig}
use capsule_tech.Fri.Verifier.{fri_verify}
use capsule_tech.Fri.Verifier.NoRounds.{no_rounds_rejects}
use capsule_tech.Stc.Plain.{plain, open_commitment, opening}
use capsule_tech.Stc.Vc.Batch.{VcParams}

abbrev config : FriConfig
config = record {
  field_modulus = modulus;
  domain_size = 4;
  max_degree = 1;
  num_rounds = 2;
  num_queries = 2;
}

abbrev evals : List ℕ
evals = 10 ∷ 20 ∷ 30 ∷ 40 ∷ []

-- Chunks of two values, under a binary tree
abbrev params : VcParams toy_sha
params = record { chunk_len = 2; num_challenges = 1; challenge_seed = 7 ∷ []; arity = 2; fuel = 4 }

abbrev no_rounds : FriConfig
no_rounds = record {
  field_modulus = modulus;
  domain_size = 4;
  max_degree = 1;
  num_rounds = 0;
  num_queries = 2;
}

no_rounds_rejects_example :
    fri_verify toy_sha plain no_rounds
      (open_commitment evals)
      (record {
        layers = record { commitment = open_commitment evals; beta = 0; size = 4 } ∷ [];
        batches = record { layer_index = 0; proof = opening evals (1 ∷ []) } ∷ [];
      })
      (1 ∷ [])
      (20 ∷ [])
    ≡ false
no_rounds_rejects_example =
    no_rounds_rejects toy_sha plain no_rounds (open_commitment evals)
      (record {
        layers = record { commitment = open_commitment evals; beta = 0; size = 4 } ∷ [];
        batches = record { layer_index = 0; proof = opening evals (1 ∷ []) } ∷ [];
      })
      1 [] (20 ∷ []) refl
