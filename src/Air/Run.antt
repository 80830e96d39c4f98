-- ===== src/Air/Run.antt =====
-- A whole run of bef_zk/air: `simulate_trace`, the table of its trace, and the constraints' residuals at
-- every row of that table.
mod Examples
use capsule_tech.Common.{
  ℕ, zero, suc, ◌+◌, ◌-◌, ◌%◌, ◌<◌, ◌≤◌, ◌≡◌, ◌⊎◌, inl, inr, refl, sym, ap, subst, ◌∙◌, Option,
  some, List, [], ◌∷◌, map, length, length-replicate, replicate, get_elem?, get_elem?_total, All,
  All-get_elem?, Result, ok, ◌>>=◌, leb, gt→leb, arith,
}
use mathlib.Core.Option.{some-injective}
use capsule_tech.Common.Results.{ok_value}
use capsule_tech.Common.Field.{modulus}
use capsule_tech.Air.Trace.{
  GeomAirParams, GeomAirRow, GeomState, GeomTrace, vm_step, state_after, simulate_trace,
  unpack_matrix, ensure_lengths, or_default,
}
use capsule_tech.Air.Table.{Masks, GeomEvalTable, domain_or_default, trace_to_eval_table}
use capsule_tech.Air.Constraints.{
  ConstraintResidual, eval_constraints_at_row, eval_constraints_from_row, row_values_from_table,
}
use capsule_tech.Air.Masking.{Fits}
use capsule_tech.Air.Rows.{Tabled, tabled}
use capsule_tech.Air.Residuals.{IsPacked, Residuals, row_pair, vm_step-Residuals}
use capsule_tech.Air.Reading.{Wide, get_elem?-map}
use capsule_tech.Air.Honest.{IsProgram, IsReady, Chain, Simulated, simulated}

Chain-at :
    (rs : List ℕ) (matrix : (ℕ × ℕ) × (ℕ × ℕ)) (rows : List GeomAirRow) (t : ℕ) (r r' : GeomAirRow)
    → Chain rs matrix rows
    → get_elem? rows t ≡ some r
    → get_elem? rows (suc t) ≡ some r'
    → vm_step rs r'.opcode (state_after matrix r) ≡ ok r'
Chain-at rs matrix [] t r r' c e e' = absurd (cc)
Chain-at rs matrix (x ∷ []) t r r' c e e' = absurd (cc)
Chain-at rs matrix (x ∷ y ∷ rows) zero r r' c e e' =
    subst (λ (a : GeomAirRow). vm_step rs r'.opcode (state_after matrix a) ≡ ok r')
      (some-injective x r e)
      (subst (λ (b : GeomAirRow). vm_step rs b.opcode (state_after matrix x) ≡ ok b)
        (some-injective y r' e') c.0)
Chain-at rs matrix (x ∷ y ∷ rows) (suc t) r r' c e e' =
    Chain-at rs matrix (y ∷ rows) t r r' c.1 e e'

-- An initial list is left out, or has an entry to a challenge.
abbrev pub EmptyOr : ℕ → List ℕ → Type 0
EmptyOr m xs = (xs ≡ []) ⊎ (length xs ≡ m)

length-or_default :
    (m : ℕ) (xs default : List ℕ)
    → EmptyOr m xs
    → length default ≡ m
    → length (or_default xs default) ≡ m
length-or_default m [] default e n = n
length-or_default m (x ∷ xs) default (inl e) n = absurd (cc)
length-or_default m (x ∷ xs) default (inr e) n = e

-- The initial state that a run is given.
pub record IsInitial (m : ℕ) (init : GeomState) : Type 0 where
  pub small_acc : init.acc < modulus
  pub given_s : EmptyOr m init.s
  pub given_pow : EmptyOr m init.pow

IsReady-at_first : (m : ℕ) (init : GeomState) → IsInitial m init → IsReady m (ensure_lengths m init)
unfolding ensure_lengths
IsReady-at_first m init i = record {
  small_acc = i.small_acc;
  wide_s = length-or_default m init.s (replicate m 0) i.given_s (length-replicate {A = ℕ} m 0);
  wide_pow =
      length-or_default m init.pow (replicate m 1) i.given_pow (length-replicate {A = ℕ} m 1);
}

-- A trace and its table, and the residuals at a row.
pub record Checked (program : List ℕ) (params : GeomAirParams) (init : GeomState)
    (domain_size : Option ℕ) (masks : Masks) (t : ℕ) : Type 0 where
  pub trace : GeomTrace
  pub tbl : GeomEvalTable
  pub r : GeomAirRow
  pub r' : GeomAirRow
  pub res : ConstraintResidual
  pub made : simulate_trace program params init ≡ ok trace
  pub count : length trace.rows ≡ params.steps
  pub at_t : get_elem? trace.rows t ≡ some r
  pub at_next : get_elem? trace.rows (t + 1) ≡ some r'
  pub tabled_as : trace_to_eval_table trace domain_size masks ≡ ok tbl
  pub checked : eval_constraints_at_row params tbl t ≡ ok res
  pub related : Residuals r r' res

-- The constraints at a row and the one that the machine makes from it.
pub next-Residuals :
    (rs : List ℕ) (matrix : (ℕ × ℕ) × (ℕ × ℕ)) (r r' : GeomAirRow)
    → vm_step rs r'.opcode (state_after matrix r) ≡ ok r'
    → IsPacked r
    → length r.s ≡ length rs
    → length r.pow ≡ length rs
    → (res : ConstraintResidual) × (eval_constraints_from_row rs (row_pair r r') ≡ ok res)
      × Residuals r r' res
next-Residuals rs matrix r r' step p n m =
    let (found, res, stepped, evaluated, good) = vm_step-Residuals matrix rs r r'.opcode p n m in
    let same : found ≡ r' = ok_value found r' (sym stepped ∙ step) in
    (
      res,
      subst (λ (x : GeomAirRow). eval_constraints_from_row rs (row_pair r x) ≡ ok res) same
          evaluated,
      subst (λ (x : GeomAirRow). Residuals r x res) same good,
    )

-- A trace and its table, made from the same program.
pub record Ran (program : List ℕ) (params : GeomAirParams) (init : GeomState)
    (matrix : (ℕ × ℕ) × (ℕ × ℕ)) (domain_size : Option ℕ) (masks : Masks) : Type 1 where
  pub sim :
      Simulated params.steps 0 program params.r_challenges matrix
        (ensure_lengths params.num_challenges init)
  pub made : simulate_trace program params init ≡ ok (record { params = params; rows = sim.rows })
  pub table : Tabled (record { params = params; rows = sim.rows }) domain_size masks

pub ran :
    (program : List ℕ) (params : GeomAirParams) (init : GeomState) (matrix : (ℕ × ℕ) × (ℕ × ℕ))
    (domain_size : Option ℕ) (masks : Masks)
    → IsProgram program
    → unpack_matrix params.matrix ≡ ok matrix
    → length params.r_challenges ≡ params.num_challenges
    → IsInitial params.num_challenges init
    → params.steps ≤ domain_or_default domain_size params.steps
    → Fits (domain_or_default domain_size params.steps) masks
    → Ran program params init matrix domain_size masks
unfolding simulate_trace
ran program params init matrix domain_size masks p square wide i room fits =
    let start = ensure_lengths params.num_challenges init in
    let sim = simulated params.steps 0 program params.r_challenges matrix start p (
      subst (λ (m : ℕ). IsReady m start) (sym wide)
        (IsReady-at_first params.num_challenges init i)) in
    let ws = subst (λ (m : ℕ). Wide m (map (λ r. r.s) sim.rows)) wide sim.wide_s in
    let wp = subst (λ (m : ℕ). Wide m (map (λ r. r.pow) sim.rows)) wide sim.wide_pow in
    record {
      sim = sim;
      made = rw square (rw (sim.runs) refl);
      table = tabled params sim.rows masks domain_size sim.count room fits ws wp;
    }

-- The constraints at row `t` of the table that was made, which is not the last.
pub Ran-at :
    (program : List ℕ) (params : GeomAirParams) (init : GeomState) (matrix : (ℕ × ℕ) × (ℕ × ℕ))
    (domain_size : Option ℕ) (masks : Masks)
    (run : Ran program params init matrix domain_size masks) (t : ℕ) (r r' : GeomAirRow)
    → get_elem? (run.sim.rows) t ≡ some r
    → get_elem? (run.sim.rows) (t + 1) ≡ some r'
    → (res : ConstraintResidual) × (eval_constraints_from_row params.r_challenges (row_pair r r')
        ≡ ok res)
      × Residuals r r' res
Ran-at program params init matrix domain_size masks run t r r' e e' =
    let sim = run.sim in
    let rs = params.r_challenges in
    let after : t + 1 ≡ suc t = omega arith in
    next-Residuals rs matrix r r'
      (Chain-at rs matrix sim.rows t r r' sim.chained e
        (subst (λ (k : ℕ). get_elem? sim.rows k ≡ some r') after e'))
      (All-get_elem? IsPacked sim.rows t sim.packed e)
      (All-get_elem? (λ x. length x ≡ length rs) (map (λ x. x.s) sim.rows) t sim.wide_s
        (get_elem?-map (λ x. x.s) sim.rows t r e))
      (All-get_elem? (λ x. length x ≡ length rs) (map (λ x. x.pow) sim.rows) t sim.wide_pow
        (get_elem?-map (λ x. x.pow) sim.rows t r e))

inside_checked :
    (params : GeomAirParams) (tbl : GeomEvalTable) (t : ℕ) (r r' : GeomAirRow)
    (res : ConstraintResidual)
    → t + 1 < tbl.trace_len
    → row_values_from_table params tbl t ≡ ok (row_pair r r')
    → eval_constraints_from_row params.r_challenges (row_pair r r') ≡ ok res
    → eval_constraints_at_row params tbl t ≡ ok res
unfolding eval_constraints_at_row
inside_checked params tbl t r r' res inside read evaluated =
    rw (gt→leb tbl.trace_len (t + 1) inside, eval_constraints_at_row) (rw read evaluated)

-- From a program of field elements, a matrix of two rows of two, a challenge to each sketch and an
-- initial state with a reduced accumulator, a trace with a row to each step is made. For every domain
-- that has room for it, and all masks of the domain's length, its table is made, and at each row that
-- has a next one the residuals are related to the two rows as `Residuals` says: those of the program
-- counter, the count and the powers vanish, and the others where the two rows' opcodes and points
-- agree. The masks change none of this.
pub simulate_trace-Checked :
    (program : List ℕ) (params : GeomAirParams) (init : GeomState) (matrix : (ℕ × ℕ) × (ℕ × ℕ))
    (domain_size : Option ℕ) (masks : Masks) (t : ℕ)
    → IsProgram program
    → unpack_matrix params.matrix ≡ ok matrix
    → length params.r_challenges ≡ params.num_challenges
    → IsInitial params.num_challenges init
    → params.steps ≤ domain_or_default domain_size params.steps
    → Fits (domain_or_default domain_size params.steps) masks
    → t + 1 < params.steps
    → Checked program params init domain_size masks t
simulate_trace-Checked program params init matrix domain_size masks t p square wide i room fits
      inside =
    let run = ran program params init matrix domain_size masks p square wide i room fits in
    let rows = run.sim.rows in
    let count = run.sim.count in
    let table = run.table in
    let (r, e) = get_elem?_total rows t (omega arith) in
    let (r', e') = get_elem?_total rows (t + 1) (omega arith) in
    let (res, evaluated, related) =
      Ran-at program params init matrix domain_size masks run t r r' e e' in
    let next = table.rows_len in
    record {
      trace = record { params = params; rows = rows };
      tbl = table.tbl;
      r = r;
      r' = r';
      res = res;
      made = run.made;
      count = count;
      at_t = e;
      at_next = e';
      tabled_as = table.runs;
      checked =
          inside_checked params table.tbl t r r' res (omega arith) (table.reads t r r' e e')
            evaluated;
      related = related;
    }
