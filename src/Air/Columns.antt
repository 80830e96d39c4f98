-- ===== src/Air/Columns.antt =====
-- `row_values_from_columns` of bef_zk/air/geom_constraints.py, which the verifier calls with opened
-- values, against `_row_values_from_table`, which the prover calls with the table.
use capsule_tech.Common.{
  ℕ, zero, suc, ◌+◌, ◌%◌, ◌≤◌, ◌≡◌, refl, sym, ap, ◌∙◌, Option, some, List, [], ◌∷◌, map, length,
  get_elem?, All-get_elem?, ok, arith,
}
use capsule_tech.Common.Field.{modulus}
use capsule_tech.Air.Trace.{GeomAirParams, GeomAirRow}
use capsule_tech.Air.Table.{
  Column, Masks, GeomEvalTable, trace_to_eval_table, domain_or_default, pc_col, op_col, gas_col,
  acc_col, x1_col, x2_col, cnt_col, m11_col, m12_col, m22_col, sketches_col, powers_col,
}
use capsule_tech.Air.Constraints.{
  reduced_or_zero, challenge_row, row_values_from_columns, row_values_from_table,
}
use capsule_tech.Air.Masking.{Fits, nth, nths, nths-all}
use capsule_tech.Air.Reading.{Wide, get_elem?-map}
use capsule_tech.Air.Rows.{tabled}
use capsule_tech.Air.Residuals.{row_pair, reduce}

-- The columns' values at a row of the trace.
abbrev pub opened_row : GeomAirRow → Column → Option ℕ
opened_row r pc_col = some r.pc
opened_row r op_col = some r.opcode
opened_row r gas_col = some r.gas
opened_row r acc_col = some r.acc
opened_row r x1_col = some r.x1
opened_row r x2_col = some r.x2
opened_row r cnt_col = some r.cnt
opened_row r m11_col = some r.m11
opened_row r m12_col = some r.m12
opened_row r m22_col = some r.m22
opened_row r (sketches_col j) = get_elem? r.s j
opened_row r (powers_col j) = get_elem? r.pow j

reduced_or_zero-get_elem? :
    (xs : List ℕ) (j : ℕ) → reduced_or_zero (get_elem? xs j) ≡ nth xs j % modulus
reduced_or_zero-get_elem? [] j = omega arith
reduced_or_zero-get_elem? (x ∷ xs) zero = refl
reduced_or_zero-get_elem? (x ∷ xs) (suc j) = reduced_or_zero-get_elem? xs j

challenge_row-nths :
    (src : Column → Option ℕ) (name : ℕ → Column) (xs : List ℕ) (left j : ℕ)
    → ((i : ℕ) → src (name i) ≡ get_elem? xs i)
    → challenge_row src name left j ≡ reduce (nths xs left j)
unfolding challenge_row
challenge_row-nths src name xs zero j e = refl
challenge_row-nths src name xs (suc left) j e =
    rw (e j, reduced_or_zero-get_elem? xs j, challenge_row-nths src name xs left (j + 1) e) refl

challenge_row-all :
    (src : Column → Option ℕ) (name : ℕ → Column) (xs : List ℕ) (m : ℕ)
    → length xs ≡ m
    → ((i : ℕ) → src (name i) ≡ get_elem? xs i)
    → challenge_row src name m 0 ≡ reduce xs
challenge_row-all src name xs m n e =
    challenge_row-nths src name xs m 0 e
    ∙ ap (λ (k : ℕ). reduce (nths xs k 0)) (sym n)
    ∙ ap reduce (nths-all xs)

columns_pair :
    (params : GeomAirParams) (r r' : GeomAirRow)
    → length r.s ≡ params.num_challenges
    → length r.pow ≡ params.num_challenges
    → length r'.s ≡ params.num_challenges
    → length r'.pow ≡ params.num_challenges
    → row_values_from_columns params (opened_row r) (opened_row r') ≡ row_pair r r'
unfolding row_values_from_columns
columns_pair params r r' s p s' p' =
    rw
      (
        challenge_row-all (opened_row r) sketches_col r.s params.num_challenges s (λ i. refl),
        challenge_row-all (opened_row r) powers_col r.pow params.num_challenges p (λ i. refl),
        challenge_row-all (opened_row r') sketches_col r'.s params.num_challenges s' (λ i. refl),
        challenge_row-all (opened_row r') powers_col r'.pow params.num_challenges p' (λ i. refl),
      )
      refl

-- For a trace whose rows fill the steps and have a sketch and a power to each challenge, a domain with
-- room and masks of its length: the table is made, and what the prover reads of it at a row with a next
-- one, whatever the masks are, is what the verifier makes of the two rows' own values.
pub row_values-agree :
    (params : GeomAirParams) (rows : List GeomAirRow) (masks : Masks) (domain_size : Option ℕ)
    (t : ℕ) (r r' : GeomAirRow)
    → length rows ≡ params.steps
    → params.steps ≤ domain_or_default domain_size params.steps
    → Fits (domain_or_default domain_size params.steps) masks
    → Wide params.num_challenges (map (λ x. x.s) rows)
    → Wide params.num_challenges (map (λ x. x.pow) rows)
    → get_elem? rows t ≡ some r
    → get_elem? rows (t + 1) ≡ some r'
    → (tbl : GeomEvalTable) × (trace_to_eval_table
          (record { params = params; rows = rows })
          domain_size
          masks
        ≡ ok tbl)
      × (row_values_from_table params tbl t
          ≡ ok (row_values_from_columns params (opened_row r) (opened_row r')))
row_values-agree params rows masks domain_size t r r' count room fits ws wp e e' =
    let m = params.num_challenges in
    let table = tabled params rows masks domain_size count room fits ws wp in
    let s =
      All-get_elem? (λ x. length x ≡ m) (map (λ x. x.s) rows) t ws
        (get_elem?-map (λ x. x.s) rows t r e) in
    let p =
      All-get_elem? (λ x. length x ≡ m) (map (λ x. x.pow) rows) t wp
        (get_elem?-map (λ x. x.pow) rows t r e) in
    let s' =
      All-get_elem? (λ x. length x ≡ m) (map (λ x. x.s) rows) (t + 1) ws
        (get_elem?-map (λ x. x.s) rows (t + 1) r' e') in
    let p' =
      All-get_elem? (λ x. length x ≡ m) (map (λ x. x.pow) rows) (t + 1) wp
        (get_elem?-map (λ x. x.pow) rows (t + 1) r' e') in
    (
      table.tbl,
      table.runs,
      table.reads t r r' e e' ∙ ap ok (sym (columns_pair params r r' s p s' p')),
    )
