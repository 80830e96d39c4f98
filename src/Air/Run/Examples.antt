-- ===== src/Air/Run/Examples.antt =====
-- A run of bef_zk/air over three steps of one challenge, with a mask on one column.
use capsule_tech.Common.{ℕ, ◌≡◌, inl, refl, Option, none, some, List, [], ◌∷◌, length, ok, arith}
use capsule_tech.Air.Trace.{
  GeomAirParams, GeomAirRow, GeomState, unpack_matrix, unpack_pair, state_after, vm_step,
}
use capsule_tech.Air.Constraints.{ConstraintResidual, eval_constraints_from_row}
use capsule_tech.Air.Table.{
  Column, pc_col, op_col, gas_col, acc_col, x1_col, x2_col, cnt_col, m11_col, m12_col, m22_col,
  sketches_col, powers_col,
}
use capsule_tech.Air.Residuals.{Residuals, row_pair, vm_step-Residuals}
use capsule_tech.Air.Table.{GeomEvalTable, trace_to_eval_table}
use capsule_tech.Air.Constraints.{row_values_from_table, row_values_from_columns}
use capsule_tech.Air.Columns.{opened_row, row_values-agree}
use capsule_tech.Air.Run.{Checked, simulate_trace-Checked}

abbrev params : GeomAirParams
params = record {
  steps = 3;
  num_challenges = 1;
  r_challenges = 5 ∷ [];
  matrix = (1 ∷ 1 ∷ []) ∷ (0 ∷ 1 ∷ []) ∷ [];
}

abbrev init : GeomState
init = record {
  pc = 0;
  gas = 100;
  acc = 0;
  x1 = 1;
  x2 = 2;
  cnt = 0;
  m11 = 0;
  m12 = 0;
  m22 = 0;
  s = [];
  pow = [];
}

-- A mask for the program counters, on a domain of four.
abbrev mask_of : Column → Option (List ℕ)
mask_of pc_col = some (9 ∷ 8 ∷ 7 ∷ 6 ∷ [])
mask_of op_col = none
mask_of gas_col = none
mask_of acc_col = none
mask_of x1_col = none
mask_of x2_col = none
mask_of cnt_col = none
mask_of m11_col = none
mask_of m12_col = none
mask_of m22_col = none
mask_of (sketches_col j) = none
mask_of (powers_col j) = none

mask_of-Fits : (name : Column) (vals : List ℕ) → mask_of name ≡ some vals → length vals ≡ 4
mask_of-Fits pc_col [] e = cc
mask_of-Fits pc_col (a ∷ vals) e = ap_length e
  where
    ap_length : some (9 ∷ 8 ∷ 7 ∷ 6 ∷ []) ≡ some (a ∷ vals) → length (a ∷ vals) ≡ 4
    ap_length e = cc
mask_of-Fits op_col vals e = cc
mask_of-Fits gas_col vals e = cc
mask_of-Fits acc_col vals e = cc
mask_of-Fits x1_col vals e = cc
mask_of-Fits x2_col vals e = cc
mask_of-Fits cnt_col vals e = cc
mask_of-Fits m11_col vals e = cc
mask_of-Fits m12_col vals e = cc
mask_of-Fits m22_col vals e = cc
mask_of-Fits (sketches_col j) vals e = cc
mask_of-Fits (powers_col j) vals e = cc

square : unpack_matrix params.matrix ≡ ok ((1, 1), (0, 1))
unfolding unpack_matrix unpack_pair
square = refl

abbrev first_row : GeomAirRow
first_row = record {
  pc = 1;
  opcode = 1;
  gas = 98;
  acc = 100;
  x1 = 1;
  x2 = 2;
  cnt = 1;
  m11 = 1;
  m12 = 2;
  m22 = 4;
  s = 11 ∷ [];
  pow = 5 ∷ [];
}

vm_step-Residuals_example :
    (r' : GeomAirRow) × (res : ConstraintResidual) × (vm_step
        (5 ∷ [])
        2
        (state_after ((1, 1), (0, 1)) first_row)
      ≡ ok r')
    × (eval_constraints_from_row (5 ∷ []) (row_pair first_row r') ≡ ok res)
    × Residuals first_row r' res
vm_step-Residuals_example =
    vm_step-Residuals ((1, 1), (0, 1)) (5 ∷ []) first_row 2
      (record {
        small_pc = omega arith;
        small_opcode = omega arith;
        small_gas = omega arith;
        small_acc = omega arith;
      })
      refl refl

simulate_trace-Checked_example : Checked (1 ∷ 2 ∷ []) params init (some 4) (some mask_of) 1
simulate_trace-Checked_example =
    simulate_trace-Checked (1 ∷ 2 ∷ []) params init ((1, 1), (0, 1)) (some 4) (some mask_of) 1
      (record { some_op = omega arith; small_ops = (omega arith, (omega arith, tt)) }) square refl
      (record { small_acc = omega arith; given_s = inl refl; given_pow = inl refl }) (omega arith)
      mask_of-Fits (omega arith)

abbrev second_row : GeomAirRow
second_row = record {
  pc = 2;
  opcode = 2;
  gas = 95;
  acc = 9800;
  x1 = 3;
  x2 = 2;
  cnt = 2;
  m11 = 10;
  m12 = 8;
  m22 = 8;
  s = 12 ∷ [];
  pow = 25 ∷ [];
}

abbrev two_steps : GeomAirParams
two_steps = record {
  steps = 2;
  num_challenges = 1;
  r_challenges = 5 ∷ [];
  matrix = (1 ∷ 1 ∷ []) ∷ (0 ∷ 1 ∷ []) ∷ [];
}

row_values-agree_example :
    (tbl : GeomEvalTable) × (trace_to_eval_table
        (record { params = two_steps; rows = first_row ∷ second_row ∷ [] })
        (some 4)
        (some mask_of)
      ≡ ok tbl)
    × (row_values_from_table two_steps tbl 0
        ≡ ok (row_values_from_columns two_steps (opened_row first_row) (opened_row second_row)))
row_values-agree_example =
    row_values-agree two_steps (first_row ∷ second_row ∷ []) (some mask_of) (some 4) 0 first_row
      second_row refl (omega arith) mask_of-Fits (refl, (refl, tt)) (refl, (refl, tt)) refl refl
