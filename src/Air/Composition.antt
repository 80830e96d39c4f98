-- ===== src/Air/Composition.antt =====
-- bef_zk/air/geom_constraints.py: the combination of the residuals with the verifier's challenges. The
-- dictionaries of challenges and of expected moments are functions from their keys.
use capsule_tech.Common.{
  ℕ, zero, suc, ◌+◌, ◌-◌, ◌*◌, ◌%◌, Bool, true, false, ◌&&◌, ◌||◌, Option, none, some, List, [],
  ◌∷◌, ◌==◌, ltb, length, get_elem?, replicate, set, Result, ok, err, index_error, ◌>>=◌, or_raise,
  if◌then◌else◌,
}
use capsule_tech.Common.Field.{modulus, sub_mod}
use capsule_tech.Air.Trace.{GeomAirParams}
use capsule_tech.Air.Table.{GeomEvalTable}
use capsule_tech.Air.Constraints.{
  ConstraintResidual, RowValues, row_values_from_table, eval_constraints_from_row, zero_residual,
}

pub data ConstraintName : Type 0 where
  pc_step gas_step cnt_step m11_step m12_step m22_step : ConstraintName
  s_step pow_step : ℕ → ConstraintName
  m11_final m12_final m22_final cnt_final : ConstraintName

-- `sigma_expected`: each moment may be missing.
pub record Sigma : Type 0 where
  pub m11 : Option ℕ
  pub m12 : Option ℕ
  pub m22 : Option ℕ
  pub cnt : Option ℕ

abbrev pub is_given : Option ℕ → Bool
is_given none = false
is_given (some v) = true

-- The truth of the dictionary: `None` and the empty one are false.
abbrev pub expects : Option Sigma → Bool
expects none = false
expects (some sigma) =
    is_given sigma.m11 || is_given sigma.m12 || is_given sigma.m22 || is_given sigma.cnt

-- `add(name, value)` on the running total
unfoldable pub add_term : Option ℕ → ℕ → ℕ → ℕ
add_term none value total = total
add_term (some alpha) value total = (total + alpha * (value % modulus)) % modulus

unfoldable pub add_terms : (ℕ → Option ℕ) → ℕ → List ℕ → ℕ → ℕ
unfolding add_term
add_terms alpha j [] total = total
add_terms alpha j (v ∷ vs) total = add_terms alpha (j + 1) vs (add_term (alpha j) v total)

-- A moment at the last row, if it is expected.
unfoldable pub add_final : Option ℕ → Option ℕ → ℕ → ℕ → ℕ
unfolding add_term
add_final alpha none value total = total
add_final alpha (some target) value total = add_term alpha (sub_mod value target) total

unfoldable pub composition_value_from_row :
    RowValues → ConstraintResidual → ℕ → ℕ → (ConstraintName → Option ℕ) → Option Sigma → ℕ
unfolding add_terms add_final
composition_value_from_row row_vals residual idx trace_len alphas sigma_expected =
    let t1 = add_term (alphas pc_step) residual.pc_step 0 in
    let t2 = add_term (alphas gas_step) residual.gas_step t1 in
    let t3 = add_term (alphas cnt_step) residual.cnt_step t2 in
    let t4 = add_term (alphas m11_step) residual.m11_step t3 in
    let t5 = add_term (alphas m12_step) residual.m12_step t4 in
    let t6 = add_term (alphas m22_step) residual.m22_step t5 in
    let t7 = add_terms (λ j. alphas (s_step j)) 0 residual.s_steps t6 in
    let total = add_terms (λ j. alphas (pow_step j)) 0 residual.pow_steps t7 in
    final_terms row_vals (idx == trace_len - 1) alphas sigma_expected total
  where
    final_terms : RowValues → Bool → (ConstraintName → Option ℕ) → Option Sigma → ℕ → ℕ
    final_terms row_vals at_end alphas none total = total
    final_terms row_vals false alphas (some sigma) total = total
    final_terms row_vals true alphas (some sigma) total =
        let f1 = add_final (alphas m11_final) sigma.m11 row_vals.m11 total in
        let f2 = add_final (alphas m12_final) sigma.m12 row_vals.m12 f1 in
        let f3 = add_final (alphas m22_final) sigma.m22 row_vals.m22 f2 in
        add_final (alphas cnt_final) sigma.cnt row_vals.cnt f3

-- `comp[t] = value`
unfoldable pub assign : List ℕ → ℕ → ℕ → Result (List ℕ)
assign comp t value = elim (ltb t (length comp)) [
  | true ↦ ok (set comp t value)
  | false ↦ err index_error
]

module _ (params : GeomAirParams) (table : GeomEvalTable) (alphas : ConstraintName → Option ℕ)
    (sigma_expected : Option Sigma) where
  -- `for t in range(max_t)`, with the rows that are left.
  unfoldable pub fill_rows : ℕ → ℕ → List ℕ → Result (List ℕ)
  fill_rows zero t comp = ok comp
  fill_rows (suc left) t comp = do
    row_vals ← row_values_from_table params table t
    residual ← eval_constraints_from_row params.r_challenges row_vals
    comp' ←
        assign comp t
          (composition_value_from_row row_vals residual t table.trace_len alphas sigma_expected)
    fill_rows left (t + 1) comp'

  -- The boundary at the last row.
  unfoldable pub fill_final : List ℕ → Result (List ℕ)
  fill_final comp =
      let final_idx = table.trace_len - 1 in
      do
        row_vals ← row_values_from_table params table final_idx
        old ← or_raise index_error (get_elem? comp final_idx)
        assign comp final_idx (
            (old
              + composition_value_from_row row_vals (zero_residual params.num_challenges) final_idx
                  table.trace_len alphas sigma_expected)
            % modulus)

  unfoldable pub build_composition_vector : Result (List ℕ)
  unfolding fill_rows fill_final
  build_composition_vector = do
    comp ← fill_rows (table.trace_len - 1) 0 (replicate table.domain_size 0)
    (if expects sigma_expected && ltb (table.trace_len - 1) table.domain_size
        then fill_final comp
        else ok comp)
