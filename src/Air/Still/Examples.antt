-- ===== src/Air/Still/Examples.antt =====
-- Runs of bef_zk/air at a point that the identity leaves where it is.
use capsule_tech.Common.{
  ℕ, ◌*◌, ◌^◌, ◌<◌, ◌≤◌, max, ◌≡◌, refl, inl, Option, none, some, [], ◌∷◌, ok, arith,
}
use capsule_tech.Air.Trace.{
  GeomAirParams, GeomState, GeomTrace, simulate_trace, unpack_matrix, unpack_pair,
}
use capsule_tech.Air.Table.{GeomEvalTable, trace_to_eval_table, next_power_of_two}
use capsule_tech.Air.Composition.{ConstraintName, build_composition_vector}
use capsule_tech.Air.Still.{zeros, composition_vector_rests}
use capsule_tech.Air.Domain.{next_power_of_two_bounds}

abbrev params : GeomAirParams
params = record {
  steps = 3;
  num_challenges = 1;
  r_challenges = 5 ∷ [];
  matrix = (1 ∷ 0 ∷ []) ∷ (0 ∷ 1 ∷ []) ∷ [];
}

abbrev init : GeomState
init = record {
  pc = 0;
  gas = 100;
  acc = 0;
  x1 = 1;
  x2 = 2;
  cnt = 0;
  m11 = 0;
  m12 = 0;
  m22 = 0;
  s = [];
  pow = [];
}

abbrev every_three : ConstraintName → Option ℕ
every_three name = some 3

identity : unpack_matrix params.matrix ≡ ok ((1, 0), (0, 1))
unfolding unpack_matrix unpack_pair
identity = refl

composition_vector_rests_example :
    (trace : GeomTrace) × (tbl : GeomEvalTable) × (simulate_trace (1 ∷ []) params init ≡ ok trace)
    × (trace_to_eval_table trace (some 4) none ≡ ok tbl)
    × (build_composition_vector params tbl every_three none ≡ ok (zeros 4))
composition_vector_rests_example =
    composition_vector_rests 1 params init ((1, 0), (0, 1)) (some 4) none every_three (omega arith)
      identity (refl, refl) refl
      (record { small_acc = omega arith; given_s = inl refl; given_pow = inl refl }) (omega arith)
      tt

next_power_of_two_bounds_example :
    (m : ℕ) × (next_power_of_two 5 ≡ 2 ^ m) × (5 ≤ 2 ^ m) × (2 ^ m < max 2 (2 * 5))
next_power_of_two_bounds_example = next_power_of_two_bounds 5
