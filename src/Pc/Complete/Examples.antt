-- ===== src/Pc/Complete/Examples.antt =====
-- bef_zk/pc/stc_fri_pc.py on four values that the field reduces.
use capsule_tech.Common.{ℕ, ◌+◌, List, [], ◌∷◌}
use capsule_tech.Common.Field.{modulus}
use capsule_tech.Common.Toy.{toy_sha}
use capsule_tech.Stc.Vc.Batch.{VcParams}
use capsule_tech.Fri.Config.{FriConfig}

abbrev config : FriConfig
config = record {
  field_modulus = modulus;
  domain_size = 4;
  max_degree = 1;
  num_rounds = 2;
  num_queries = 2;
}

abbrev values : List ℕ
values = 10 ∷ (modulus + 20) ∷ 30 ∷ 40 ∷ []

abbrev params : VcParams toy_sha
params = record { chunk_len = 2; num_challenges = 1; challenge_seed = 7 ∷ []; arity = 2; fuel = 4 }
