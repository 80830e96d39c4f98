-- ===== src/Air/Constraints.antt =====
-- bef_zk/air/geom_constraints.py: the residuals of the transition constraints at a row, and their
-- combination. A difference of integers modulo the prime is `sub_mod`, with the subtrahend's own
-- subtraction moved to the other side.
use capsule_tech.Common.{
  ℕ, zero, suc, ◌+◌, ◌*◌, ◌%◌, true, false, Option, none, some, List, [], ◌∷◌, leb, get_elem?,
  replicate, Result, ok, err, index_error, ◌>>=◌, or_raise,
}
use capsule_tech.Common.Field.{modulus, sub_mod}
use capsule_tech.Air.Trace.{GeomAirParams, pack_vm_value}
use capsule_tech.Air.Table.{
  GeomEvalTable, Column, pc_col, op_col, gas_col, acc_col, x1_col, x2_col, cnt_col, m11_col,
  m12_col, m22_col, sketches_col, powers_col, Masks,
}

pub record ConstraintResidual : Type 0 where
  pub pc_step : ℕ
  pub gas_step : ℕ
  pub cnt_step : ℕ
  pub m11_step : ℕ
  pub m12_step : ℕ
  pub m22_step : ℕ
  pub s_steps : List ℕ
  pub pow_steps : List ℕ

pub record RowValues : Type 0 where
  pub pc : ℕ
  pub pc_next : ℕ
  pub gas : ℕ
  pub gas_next : ℕ
  pub opcode : ℕ
  pub acc : ℕ
  pub x1 : ℕ
  pub x2 : ℕ
  pub cnt : ℕ
  pub cnt_next : ℕ
  pub m11 : ℕ
  pub m11_next : ℕ
  pub m12 : ℕ
  pub m12_next : ℕ
  pub m22 : ℕ
  pub m22_next : ℕ
  pub sketches : List ℕ
  pub sketches_next : List ℕ
  pub pow : List ℕ
  pub pow_next : List ℕ

-- `_get`: zero beyond the column.
abbrev pub reduced_or_zero : Option ℕ → ℕ
reduced_or_zero none = 0
reduced_or_zero (some v) = v % modulus

abbrev pub get_col : List ℕ → ℕ → ℕ
get_col col idx = reduced_or_zero (get_elem? col idx)

-- `_get_with_mask`
abbrev pub take_off : Option (List ℕ) → ℕ → ℕ → ℕ
take_off none val idx = val
take_off (some mask_vals) val idx = sub_mod val (get_col mask_vals idx)

unfoldable pub get_with_mask : Masks → Column → List ℕ → ℕ → ℕ
get_with_mask none name values idx = get_col values idx
get_with_mask (some masks) name values idx = take_off (masks name) (get_col values idx) idx

-- `[_get_sketch(tbl, j, t) for j in range(m)]`, with the columns that are left.
unfoldable pub challenge_values : Masks → (ℕ → Column) → List (List ℕ) → ℕ → ℕ → ℕ → Result (List ℕ)
challenge_values masks name cols t zero j = ok []
challenge_values masks name cols t (suc left) j = do
  col ← or_raise index_error (get_elem? cols j)
  rest ← challenge_values masks name cols t left (j + 1)
  ok (get_with_mask masks (name j) col t ∷ rest)

unfoldable pub row_values_from_table : GeomAirParams → GeomEvalTable → ℕ → Result RowValues
row_values_from_table params tbl t =
    let next_idx = t + 1 in
    let m = params.num_challenges in
    let masks = tbl.column_masks in
    do
      sketches ← challenge_values masks sketches_col tbl.sketches t m 0
      sketches_next ← challenge_values masks sketches_col tbl.sketches next_idx m 0
      pow ← challenge_values masks powers_col tbl.powers t m 0
      pow_next ← challenge_values masks powers_col tbl.powers next_idx m 0
      ok (record {
        pc = get_with_mask masks pc_col tbl.pc t;
        pc_next = get_with_mask masks pc_col tbl.pc next_idx;
        gas = get_with_mask masks gas_col tbl.gas t;
        gas_next = get_with_mask masks gas_col tbl.gas next_idx;
        opcode = get_with_mask masks op_col tbl.op t;
        acc = get_with_mask masks acc_col tbl.acc t;
        x1 = get_with_mask masks x1_col tbl.x1 t;
        x2 = get_with_mask masks x2_col tbl.x2 t;
        cnt = get_with_mask masks cnt_col tbl.cnt t;
        cnt_next = get_with_mask masks cnt_col tbl.cnt next_idx;
        m11 = get_with_mask masks m11_col tbl.m11 t;
        m11_next = get_with_mask masks m11_col tbl.m11 next_idx;
        m12 = get_with_mask masks m12_col tbl.m12 t;
        m12_next = get_with_mask masks m12_col tbl.m12 next_idx;
        m22 = get_with_mask masks m22_col tbl.m22 t;
        m22_next = get_with_mask masks m22_col tbl.m22 next_idx;
        sketches = sketches;
        sketches_next = sketches_next;
        pow = pow;
        pow_next = pow_next;
      })

-- `for j, rj in enumerate(params.r_challenges)`: the residuals of the sketches and the powers.
unfoldable pub challenge_residuals :
    ℕ → List ℕ → List ℕ → List ℕ → List ℕ → List ℕ → Result (List ℕ × List ℕ)
challenge_residuals val [] ss ss' ps ps' = ok ([], [])
challenge_residuals val (rj ∷ rs) (sj ∷ ss) (sj' ∷ ss') (pj ∷ ps) (pj' ∷ ps') = do
  (s_res, pow_res) ← challenge_residuals val rs ss ss' ps ps'
  ok (sub_mod sj' (sj + val * pj) ∷ s_res, sub_mod pj' (pj * rj) ∷ pow_res)
challenge_residuals val (rj ∷ rs) ss ss' ps ps' = err index_error

unfoldable pub eval_constraints_from_row : List ℕ → RowValues → Result ConstraintResidual
eval_constraints_from_row r_challenges row =
    let val = pack_vm_value row.pc row.opcode row.gas row.acc in
    do
      (s_res, pow_res) ←
          challenge_residuals val r_challenges row.sketches row.sketches_next row.pow row.pow_next
      ok (record {
        pc_step = sub_mod row.pc_next (row.pc + 1);
        gas_step = sub_mod (row.gas_next + (1 + row.opcode % 3)) row.gas;
        cnt_step = sub_mod row.cnt_next (row.cnt + 1);
        m11_step = sub_mod row.m11_next (row.m11 + row.x1 * row.x1);
        m12_step = sub_mod row.m12_next (row.m12 + row.x1 * row.x2);
        m22_step = sub_mod row.m22_next (row.m22 + row.x2 * row.x2);
        s_steps = s_res;
        pow_steps = pow_res;
      })

abbrev pub zero_residual : ℕ → ConstraintResidual
zero_residual m = record {
  pc_step = 0;
  gas_step = 0;
  cnt_step = 0;
  m11_step = 0;
  m12_step = 0;
  m22_step = 0;
  s_steps = replicate m 0;
  pow_steps = replicate m 0;
}

-- `t >= trace_len - 1` on the integers, which a trace of at most one row always meets.
unfoldable pub eval_constraints_at_row :
    GeomAirParams → GeomEvalTable → ℕ → Result ConstraintResidual
eval_constraints_at_row params tbl t = elim (leb tbl.trace_len (t + 1)) [
  | true ↦ ok (zero_residual params.num_challenges)
  | false ↦ (do
    row_vals ← row_values_from_table params tbl t
    eval_constraints_from_row params.r_challenges row_vals)
]

-- `[g(src, name(j)) for j in range(m)]`, with the challenges that are left.
unfoldable pub challenge_row : (Column → Option ℕ) → (ℕ → Column) → ℕ → ℕ → List ℕ
challenge_row src name zero j = []
challenge_row src name (suc left) j =
    reduced_or_zero (src (name j)) ∷ challenge_row src name left (j + 1)

-- The dictionaries `current` and `nxt` are functions from the columns' names.
unfoldable pub row_values_from_columns :
    GeomAirParams → (Column → Option ℕ) → (Column → Option ℕ) → RowValues
unfolding challenge_row
row_values_from_columns params current nxt =
    let m = params.num_challenges in
    record {
      pc = reduced_or_zero (current pc_col);
      pc_next = reduced_or_zero (nxt pc_col);
      gas = reduced_or_zero (current gas_col);
      gas_next = reduced_or_zero (nxt gas_col);
      opcode = reduced_or_zero (current op_col);
      acc = reduced_or_zero (current acc_col);
      x1 = reduced_or_zero (current x1_col);
      x2 = reduced_or_zero (current x2_col);
      cnt = reduced_or_zero (current cnt_col);
      cnt_next = reduced_or_zero (nxt cnt_col);
      m11 = reduced_or_zero (current m11_col);
      m11_next = reduced_or_zero (nxt m11_col);
      m12 = reduced_or_zero (current m12_col);
      m12_next = reduced_or_zero (nxt m12_col);
      m22 = reduced_or_zero (current m22_col);
      m22_next = reduced_or_zero (nxt m22_col);
      sketches = challenge_row current sketches_col m 0;
      sketches_next = challenge_row nxt sketches_col m 0;
      pow = challenge_row current powers_col m 0;
      pow_next = challenge_row nxt powers_col m 0;
    }

-- `for t in range(self.domain_size)` of `GeomAIR.eval_constraints`, with the rows that are left. The
-- dictionary's lists are the fields of these residuals, row by row.
unfoldable pub eval_constraints_from :
    GeomAirParams → GeomEvalTable → ℕ → ℕ → Result (List ConstraintResidual)
eval_constraints_from params tbl zero t = ok []
eval_constraints_from params tbl (suc left) t = do
  res ← eval_constraints_at_row params tbl t
  rest ← eval_constraints_from params tbl left (t + 1)
  ok (res ∷ rest)

unfoldable pub eval_constraints :
    GeomAirParams → ℕ → GeomEvalTable → Result (List ConstraintResidual)
unfolding eval_constraints_from
eval_constraints params domain_size tbl = eval_constraints_from params tbl domain_size 0
