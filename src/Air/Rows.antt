-- ===== src/Air/Rows.antt =====
-- The whole table of a trace (bef_zk/air/geom_air.py) and what bef_zk/air/geom_constraints.py reads at a
-- row of it.
use capsule_tech.Common.{
  ℕ, ◌+◌, ◌-◌, ◌%◌, ◌≤◌, ◌≡◌, refl, sym, ap, ◌∙◌, Option, some, List, [], map, length, get_elem?,
  All-get_elem?, ok, arith,
}
use capsule_tech.Common.Field.{modulus}
use capsule_tech.Air.Trace.{GeomAirRow, GeomTrace, GeomAirParams}
use capsule_tech.Air.Table.{
  Column, Masks, GeomEvalTable, pc_col, op_col, gas_col, acc_col, x1_col, x2_col, cnt_col, m11_col,
  m12_col, m22_col, sketches_col, powers_col, domain_or_default, pad_col, trace_to_eval_table,
}
use capsule_tech.Air.Constraints.{get_with_mask, challenge_values, row_values_from_table}
use capsule_tech.Air.Masking.{Fits, Masked, nths, nths-all, Reads, challenge_values_read}
use capsule_tech.Air.Reading.{
  Wide, get_col-row, plain_cols, plain_cols-row, get_elem?-map, Masked-map, ChallengeCols-total,
}
use capsule_tech.Air.Residuals.{row_pair, reduce}

module _ (masks : Masks) (pad : ℕ) (name : ℕ → Column) where
  values_at :
      (lists cols : List (List ℕ)) (m t : ℕ) (row : List ℕ)
      → length cols ≡ m
      → Reads masks name 0 cols (plain_cols pad lists m 0)
      → Wide m lists
      → get_elem? lists t ≡ some row
      → challenge_values masks name cols t m 0 ≡ ok (reduce row)
  values_at lists cols m t row n reads wide e =
      let wide_row = All-get_elem? (λ r. length r ≡ m) lists t wide e in
      ap (λ (k : ℕ). challenge_values masks name cols t k 0) (sym n)
      ∙ challenge_values_read masks name t 0 [] cols (plain_cols pad lists m 0) refl reads
      ∙ ap ok (
          plain_cols-row pad lists t row m 0 e
          ∙ ap (λ (k : ℕ). reduce (nths row k 0)) (sym wide_row)
          ∙ ap reduce (nths-all row))

-- A table is made, and at every row but the last it shows this row and the next.
pub record Tabled (trace : GeomTrace) (domain_size : Option ℕ) (masks : Masks) : Type 0 where
  pub tbl : GeomEvalTable
  pub runs : trace_to_eval_table trace domain_size masks ≡ ok tbl
  pub rows_len : tbl.trace_len ≡ length trace.rows
  pub domain : tbl.domain_size ≡ domain_or_default domain_size trace.params.steps
  pub reads :
      (t : ℕ) (r r' : GeomAirRow)
      → get_elem? trace.rows t ≡ some r
      → get_elem? trace.rows (t + 1) ≡ some r'
      → row_values_from_table trace.params tbl t ≡ ok (row_pair r r')

module _ (masks : Masks) (pad : ℕ) (rows : List GeomAirRow) (f : GeomAirRow → ℕ)
    (name : Column) where
  read_at :
      (c : Masked masks name (pad_col pad (map f rows))) (t : ℕ) (r : GeomAirRow)
      → get_elem? rows t ≡ some r
      → get_with_mask masks name c.col t ≡ f r % modulus
  read_at c t r e = c.reads t ∙ get_col-row f pad rows t r e

module _ (params : GeomAirParams) (rows : List GeomAirRow) (masks : Masks) where
  -- Where the rows fill the steps, the domain has room for them and every mask its length, a table is
  -- made, and whatever the masks are it shows the constraints each row with the next, reduced.
  pub tabled :
      (domain_size : Option ℕ)
      → length rows ≡ params.steps
      → params.steps ≤ domain_or_default domain_size params.steps
      → Fits (domain_or_default domain_size params.steps) masks
      → Wide params.num_challenges (map (λ r. r.s) rows)
      → Wide params.num_challenges (map (λ r. r.pow) rows)
      → Tabled (record { params = params; rows = rows }) domain_size masks
  unfolding trace_to_eval_table row_values_from_table
  tabled domain_size count room fits ws wp =
      let n = domain_or_default domain_size params.steps in
      let pad = n - params.steps in
      let sum : length rows + pad ≡ n = omega arith in
      let col : (f : GeomAirRow → ℕ) (name : Column)
          → Masked masks name (pad_col pad (map f rows)) =
        λ f name. Masked-map masks pad rows n f name sum fits in
      let pc = col (λ r. r.pc) pc_col in
      let op = col (λ r. r.opcode) op_col in
      let gas = col (λ r. r.gas) gas_col in
      let acc = col (λ r. r.acc) acc_col in
      let x1 = col (λ r. r.x1) x1_col in
      let x2 = col (λ r. r.x2) x2_col in
      let cnt = col (λ r. r.cnt) cnt_col in
      let m11 = col (λ r. r.m11) m11_col in
      let m12 = col (λ r. r.m12) m12_col in
      let m22 = col (λ r. r.m22) m22_col in
      let c =
        ChallengeCols-total masks pad rows n params.num_challenges params.num_challenges 0 sum fits
          (omega arith) ws wp in
      let tbl : GeomEvalTable = record {
        trace_len = length rows;
        domain_size = n;
        pc = pc.col;
        op = op.col;
        gas = gas.col;
        acc = acc.col;
        x1 = x1.col;
        x2 = x2.col;
        cnt = cnt.col;
        m11 = m11.col;
        m12 = m12.col;
        m22 = m22.col;
        sketches = c.ss;
        powers = c.ps;
        column_masks = masks;
      } in
      record {
        tbl = tbl;
        runs = rw (pc.runs) (
            rw (op.runs) (
              rw (gas.runs) (
                rw (acc.runs) (
                  rw (x1.runs) (
                    rw (x2.runs) (
                      rw (cnt.runs)
                        (rw (m11.runs) (rw (m12.runs) (rw (m22.runs) (rw (c.runs) refl))))))))));
        rows_len = refl;
        domain = refl;
        reads = λ t r r' e e'.
            let ss : List (List ℕ) = map (λ r. r.s) rows in
            let ps : List (List ℕ) = map (λ r. r.pow) rows in
            let s =
              values_at masks pad sketches_col ss c.ss params.num_challenges t r.s c.s_count
                c.s_reads ws (get_elem?-map (λ r. r.s) rows t r e) in
            let s' =
              values_at masks pad sketches_col ss c.ss params.num_challenges (t + 1) r'.s c.s_count
                c.s_reads ws (get_elem?-map (λ r. r.s) rows (t + 1) r' e') in
            let p =
              values_at masks pad powers_col ps c.ps params.num_challenges t r.pow c.p_count
                c.p_reads wp (get_elem?-map (λ r. r.pow) rows t r e) in
            let p' =
              values_at masks pad powers_col ps c.ps params.num_challenges (t + 1) r'.pow c.p_count
                c.p_reads wp (get_elem?-map (λ r. r.pow) rows (t + 1) r' e') in
            rw
              (
                s,
                s',
                p,
                p',
                read_at masks pad rows (λ r. r.pc) pc_col pc t r e,
                read_at masks pad rows (λ r. r.pc) pc_col pc (t + 1) r' e',
                read_at masks pad rows (λ r. r.opcode) op_col op t r e,
                read_at masks pad rows (λ r. r.gas) gas_col gas t r e,
                read_at masks pad rows (λ r. r.gas) gas_col gas (t + 1) r' e',
                read_at masks pad rows (λ r. r.acc) acc_col acc t r e,
                read_at masks pad rows (λ r. r.x1) x1_col x1 t r e,
                read_at masks pad rows (λ r. r.x2) x2_col x2 t r e,
                read_at masks pad rows (λ r. r.cnt) cnt_col cnt t r e,
                read_at masks pad rows (λ r. r.cnt) cnt_col cnt (t + 1) r' e',
                read_at masks pad rows (λ r. r.m11) m11_col m11 t r e,
                read_at masks pad rows (λ r. r.m11) m11_col m11 (t + 1) r' e',
                read_at masks pad rows (λ r. r.m12) m12_col m12 t r e,
                read_at masks pad rows (λ r. r.m12) m12_col m12 (t + 1) r' e',
                read_at masks pad rows (λ r. r.m22) m22_col m22 t r e,
                read_at masks pad rows (λ r. r.m22) m22_col m22 (t + 1) r' e',
              )
              refl;
      }
