-- ===== src/Air/Still.antt =====
-- The composition vector of bef_zk/air/geom_constraints.py on the runs whose transitions all hold: one
-- opcode, at a point that the dynamics leave where it is.
mod Examples
use capsule_tech.Common.{
  ℕ, zero, suc, ◌+◌, ◌-◌, ◌*◌, ◌%◌, ◌<◌, ◌≤◌, ◌≡◌, ◌≢◌, refl, sym, ap, subst, ◌∙◌, Bool, true,
  false, inl, inr, Option, none, some, List, [], ◌∷◌, map, length, length-replicate, replicate, set,
  get_elem?, get_elem?_total, All, All-get_elem?, Result, ok, err, ◌>>=◌, ltb, lt→ltb, arith,
}
use mathlib.Core.Option.{some-injective}
use capsule_tech.Common.Results.{ok_value}
use capsule_tech.Common.Field.{modulus, sub_mod}
use capsule_tech.Air.Trace.{
  GeomAirParams, GeomAirRow, GeomState, GeomTrace, vm_step, row_of, state_after, accumulate,
  pack_vm_value, simulate_trace, unpack_matrix,
}
use capsule_tech.Air.Table.{Masks, GeomEvalTable, domain_or_default, trace_to_eval_table}
use capsule_tech.Air.Constraints.{
  ConstraintResidual, RowValues, row_values_from_table, eval_constraints_from_row,
  eval_constraints_at_row,
}
use capsule_tech.Air.Composition.{
  ConstraintName, add_term, add_terms, composition_value_from_row, assign, fill_rows,
  build_composition_vector,
}
use capsule_tech.Air.Masking.{Fits}
use capsule_tech.Air.Reading.{Wide}
use capsule_tech.Air.Rows.{tabled}
use capsule_tech.Air.Residuals.{Residuals, row_pair}
use capsule_tech.Air.Honest.{IsProgram, Chain}
use capsule_tech.Air.Run.{IsInitial, Ran, ran, Ran-at}
use capsule_tech.Air.Trace.{ensure_lengths}

-- Every residual is 0.
pub record IsZero (res : ConstraintResidual) : Type 0 where
  pub pc_zero : res.pc_step ≡ 0
  pub gas_zero : res.gas_step ≡ 0
  pub cnt_zero : res.cnt_step ≡ 0
  pub m11_zero : res.m11_step ≡ 0
  pub m12_zero : res.m12_step ≡ 0
  pub m22_zero : res.m22_step ≡ 0
  pub s_zero : All (λ v. v ≡ 0) res.s_steps
  pub pow_zero : All (λ v. v ≡ 0) res.pow_steps

add_zero : (alpha : Option ℕ) → add_term alpha 0 0 ≡ 0
unfolding add_term
add_zero none = refl
add_zero (some a) = omega arith

add_zeros :
    (alpha : ℕ → Option ℕ) (j : ℕ) (vs : List ℕ) → All (λ v. v ≡ 0) vs → add_terms alpha j vs 0 ≡ 0
unfolding add_terms
add_zeros alpha j [] z = refl
add_zeros alpha j (v ∷ vs) z = rw (z.0, add_zero (alpha j)) (add_zeros alpha (j + 1) vs z.1)

-- Whatever the challenges are.
composition-zero :
    (row : RowValues) (res : ConstraintResidual) (idx n : ℕ) (alphas : ConstraintName → Option ℕ)
    → IsZero res
    → composition_value_from_row row res idx n alphas none ≡ 0
unfolding composition_value_from_row
composition-zero row res idx n alphas z =
    rw (z.pc_zero, z.gas_zero, z.cnt_zero, z.m11_zero, z.m12_zero, z.m22_zero)
      (rw
        (
          add_zero (alphas ConstraintName.pc_step),
          add_zero (alphas ConstraintName.gas_step),
          add_zero (alphas ConstraintName.cnt_step),
          add_zero (alphas ConstraintName.m11_step),
          add_zero (alphas ConstraintName.m12_step),
          add_zero (alphas ConstraintName.m22_step),
        )
        (rw (add_zeros (λ j. alphas (ConstraintName.s_step j)) 0 res.s_steps z.s_zero)
          (add_zeros (λ j. alphas (ConstraintName.pow_step j)) 0 res.pow_steps z.pow_zero)))

abbrev pub zeros : ℕ → List ℕ
zeros n = replicate n 0

set-replicate : (n t : ℕ) → set {A = ℕ} (replicate n 0) t 0 ≡ replicate n 0
set-replicate zero t = refl
set-replicate (suc n) zero = refl
set-replicate (suc n) (suc t) = ap (λ l. 0 ∷ l) (set-replicate n t)

assign-zero : (n t : ℕ) → t < n → assign (replicate n 0) t 0 ≡ ok (replicate n 0)
unfolding assign
assign-zero n t lt =
    let inside : ltb t (length (zeros n)) ≡ true =
      rw (length-replicate {A = ℕ} n 0) (lt→ltb t n lt) in
    rw (inside, assign) (ap ok (set-replicate n t))

-- A row of the table whose transition holds.
record Holds (params : GeomAirParams) (tbl : GeomEvalTable) (t : ℕ) : Type 0 where
  row : RowValues
  res : ConstraintResidual
  read : row_values_from_table params tbl t ≡ ok row
  checked : eval_constraints_from_row params.r_challenges row ≡ ok res
  is_zero : IsZero res

module _ (params : GeomAirParams) (tbl : GeomEvalTable) (alphas : ConstraintName → Option ℕ) where
  fill_rows-zero :
      (left t n : ℕ)
      → ((u : ℕ) → u < t + left → Holds params tbl u)
      → t + left ≤ n
      → fill_rows params tbl alphas none left t (replicate n 0) ≡ ok (replicate n 0)
  unfolding fill_rows
  fill_rows-zero zero t n holds room = refl
  fill_rows-zero (suc left) t n holds room =
      let w = holds t (omega arith) in
      let value = composition-zero w.row w.res t tbl.trace_len alphas w.is_zero in
      rw (w.read) (
        rw (w.checked) (
          rw value (
            rw (assign-zero n t (omega arith))
              (fill_rows-zero left (t + 1) n (λ u lt. holds u (omega arith)) (omega arith)))))

  composition_vector-zero :
      ((u : ℕ) → u < tbl.trace_len - 1 → Holds params tbl u)
      → tbl.trace_len ≤ tbl.domain_size
      → build_composition_vector params tbl alphas none ≡ ok (replicate tbl.domain_size 0)
  unfolding build_composition_vector
  composition_vector-zero holds room =
      rw
        (fill_rows-zero (tbl.trace_len - 1) 0 tbl.domain_size (λ u lt. holds u (omega arith))
          (omega arith))
        refl

-- Every row has the opcode and the point.
abbrev Rests : ℕ → ℕ → ℕ → GeomAirRow → Type 0
Rests op x1 x2 r = (r.opcode ≡ op) × (r.x1 ≡ x1) × (r.x2 ≡ x2)

row_point :
    (op : ℕ) (st : GeomState) (r : GeomAirRow) (sums : Result (List ℕ × List ℕ))
    → (sums >>= λ found. ok (row_of op st found)) ≡ ok r
    → (r.x1 ≡ st.x1) × (r.x2 ≡ st.x2)
row_point op st r (err e) h = cc
row_point op st r (ok sums) h =
    let same = ok_value (row_of op st sums) r h in
    (sym (ap (λ (a : GeomAirRow). a.x1) same), sym (ap (λ (a : GeomAirRow). a.x2) same))

vm_step-point :
    (rs : List ℕ) (op : ℕ) (st : GeomState) (r : GeomAirRow)
    → vm_step rs op st ≡ ok r
    → (r.x1 ≡ st.x1) × (r.x2 ≡ st.x2)
unfolding vm_step
vm_step-point rs op st r h =
    row_point op st r (accumulate (pack_vm_value st.pc op st.gas st.acc) rs st.s st.pow) h

-- The point that the dynamics leave where it is.
abbrev pub IsFixed : (ℕ × ℕ) × (ℕ × ℕ) → ℕ → ℕ → Type 0
IsFixed ((a11, a12), (a21, a22)) x1 x2 =
    ((a11 * x1 + a12 * x2) % modulus ≡ x1) × ((a21 * x1 + a22 * x2) % modulus ≡ x2)

module _ (rs : List ℕ) (matrix : (ℕ × ℕ) × (ℕ × ℕ)) (op x1 x2 : ℕ) where
  rests :
      (rows : List GeomAirRow) (st : GeomState)
      → IsFixed matrix x1 x2
      → st.x1 ≡ x1
      → st.x2 ≡ x2
      → ((r : GeomAirRow) → get_elem? rows 0 ≡ some r → vm_step rs r.opcode st ≡ ok r)
      → Chain rs matrix rows
      → All (λ r. r.opcode ≡ op) rows
      → All (Rests op x1 x2) rows
  rests [] st f e1 e2 starts chain ops = tt
  rests (r ∷ []) st f e1 e2 starts chain ops =
      let (p1, p2) = vm_step-point rs r.opcode st r (starts r refl) in
      ((ops.0, p1 ∙ e1, p2 ∙ e2), tt)
  rests (r ∷ r' ∷ rows) st f e1 e2 starts chain ops =
      let (p1, p2) = vm_step-point rs r.opcode st r (starts r refl) in
      (
        (ops.0, p1 ∙ e1, p2 ∙ e2),
        rests (r' ∷ rows) (state_after matrix r) f (rw (p1 ∙ e1, p2 ∙ e2) (f.0))
            (rw (p1 ∙ e1, p2 ∙ e2) (f.1))
            (λ x e.
              subst (λ (a : GeomAirRow). vm_step rs a.opcode (state_after matrix r) ≡ ok a)
                (some-injective r' x e) chain.0)
            chain.1 ops.1,
      )

resting-IsZero :
    (op x1 x2 : ℕ) (r r' : GeomAirRow) (res : ConstraintResidual)
    → Residuals r r' res
    → Rests op x1 x2 r
    → Rests op x1 x2 r'
    → IsZero res
resting-IsZero op x1 x2 r r' res w (o, p, q) (o', p', q') = record {
  pc_zero = w.pc_zero;
  gas_zero = w.gas_zero.1 (rw (o, o') refl);
  cnt_zero = w.cnt_zero;
  m11_zero = w.m11_zero.1 (rw (p, p') refl);
  m12_zero = w.m12_zero.1 (rw (p, p', q, q') refl);
  m22_zero = w.m22_zero.1 (rw (q, q') refl);
  s_zero = elim w.s_zero [ inl other ↦ absurd (other (o ∙ sym o')) | inr z ↦ z ];
  pow_zero = w.pow_zero;
}

-- A program of one instruction, run at a point that the dynamics leave where it is: the trace and its
-- table are made, with any masks of the domain's length, and the composition vector without expected
-- moments is 0 at every place of the domain, whatever the challenges are.
pub composition_vector_rests :
    (op : ℕ) (params : GeomAirParams) (init : GeomState) (matrix : (ℕ × ℕ) × (ℕ × ℕ))
    (domain_size : Option ℕ) (masks : Masks) (alphas : ConstraintName → Option ℕ)
    → op < modulus
    → unpack_matrix params.matrix ≡ ok matrix
    → IsFixed matrix init.x1 init.x2
    → length params.r_challenges ≡ params.num_challenges
    → IsInitial params.num_challenges init
    → params.steps ≤ domain_or_default domain_size params.steps
    → Fits (domain_or_default domain_size params.steps) masks
    → (trace : GeomTrace) × (tbl : GeomEvalTable) × (simulate_trace (op ∷ []) params init
        ≡ ok trace)
      × (trace_to_eval_table trace domain_size masks ≡ ok tbl)
      × (build_composition_vector params tbl alphas none
          ≡ ok (zeros (domain_or_default domain_size params.steps)))
unfolding ensure_lengths
composition_vector_rests op params init matrix domain_size masks alphas small square fixed wide i
      room fits =
    let program : List ℕ = op ∷ [] in
    let run =
      ran program params init matrix domain_size masks
        (record { some_op = omega arith; small_ops = (small, tt) }) square wide i room fits in
    let sim = run.sim in
    let rows = sim.rows in
    let count = sim.count in
    let table = run.table in
    let still =
      rests params.r_challenges matrix op init.x1 init.x2 rows
        (ensure_lengths params.num_challenges init) fixed refl refl sim.starts sim.chained
        (sim.drawn (λ o. o ≡ op) (refl, tt)) in
    let size = table.rows_len in
    let domain = table.domain in
    let holds : (u : ℕ) → u < table.tbl.trace_len - 1 → Holds params table.tbl u = λ u lt.
      let (r, e) = get_elem?_total rows u (omega arith) in
      let (r', e') = get_elem?_total rows (u + 1) (omega arith) in
      let (res, evaluated, related) =
        Ran-at program params init matrix domain_size masks run u r r' e e' in
      record {
        row = row_pair r r';
        res = res;
        read = table.reads u r r' e e';
        checked = evaluated;
        is_zero =
            resting-IsZero op init.x1 init.x2 r r' res related
              (All-get_elem? (Rests op init.x1 init.x2) rows u still e)
              (All-get_elem? (Rests op init.x1 init.x2) rows (u + 1) still e');
      } in
    (
      record { params = params; rows = rows },
      table.tbl,
      run.made,
      table.runs,
      composition_vector-zero params table.tbl alphas holds (omega arith)
          ∙ ap (λ (n : ℕ). ok (zeros n)) domain,
    )
