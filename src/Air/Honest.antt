-- ===== src/Air/Honest.antt =====
-- `simulate_trace` of bef_zk/air/geom_air.py returns a trace, whose rows are the steps of the machine.
use capsule_tech.Common.{
  ℕ, zero, suc, ◌+◌, ◌*◌, ◌%◌, ◌<◌, ◌≡◌, inl, inr, refl, sym, ap, subst, Bool-cases, some, List, [],
  ◌∷◌, map, length, get_elem?, get_elem?_total, All, All-get_elem?, ok, ◌==◌, arith,
}
use mathlib.Core.Option.{some-injective}
use native.Mathlib.Nat.{mod-lt}
use capsule_tech.Common.Field.{modulus, sub_mod-lt, mod-lt_modulus}
use capsule_tech.Air.Trace.{
  GeomAirRow, GeomState, vm_acc, vm_step, row_of, state_after, fetch, simulate_from, pack_vm_value,
}
use Prim.Native.Nat.{bit_xor}
use capsule_tech.Air.Reading.{Wide}
use capsule_tech.Air.Residuals.{IsPacked, challenged}

-- A program of field elements, with at least one instruction.
pub record IsProgram (program : List ℕ) : Type 0 where
  pub some_op : 0 < length program
  pub small_ops : All (λ op. op < modulus) program

fetch_total :
    (program : List ℕ) (t : ℕ)
    → IsProgram program
    → (op : ℕ) × (fetch program t ≡ ok op) × ((P : ℕ → Type 0) → All P program → P op)
unfolding fetch
fetch_total [] t p = let some_op = p.some_op in absurd (omega arith)
fetch_total (op ∷ ops) t p =
    let (found, e) = get_elem?_total (op ∷ ops) (t % length (op ∷ ops)) (mod-lt t (omega arith)) in
    (found, rw e refl, λ P all. All-get_elem? P (op ∷ ops) (t % length (op ∷ ops)) all e)

vm_acc-lt : (op acc gas : ℕ) → acc < modulus → vm_acc op acc gas < modulus
vm_acc-lt op acc gas small = elim (Bool-cases (op == 1)) [
  | inl add ↦ rw add (mod-lt_modulus (acc + gas))
  | inr not_add ↦ elim (Bool-cases (op == 2)) [
    | inl mul ↦ rw (not_add, mul) (mod-lt_modulus (acc * gas))
    | inr not_mul ↦ elim (Bool-cases (op == 3)) [
      | inl xor ↦ rw (not_add, not_mul, xor) (mod-lt_modulus (bit_xor acc gas))
      | inr none_of ↦ rw (not_add, not_mul, none_of) small
    ]
  ]
]

-- The locals that a step of the machine runs on.
pub record IsReady (m : ℕ) (st : GeomState) : Type 0 where
  pub small_acc : st.acc < modulus
  pub wide_s : length st.s ≡ m
  pub wide_pow : length st.pow ≡ m

record Stepped (rs : List ℕ) (op : ℕ) (st : GeomState) (row : GeomAirRow) : Type 0 where
  runs : vm_step rs op st ≡ ok row
  opcode : row.opcode ≡ op
  packed : IsPacked row
  wide_s : length row.s ≡ length rs
  wide_pow : length row.pow ≡ length rs

step_total :
    (rs : List ℕ) (op : ℕ) (st : GeomState)
    → IsReady (length rs) st
    → op < modulus
    → (row : GeomAirRow) × Stepped rs op st row
unfolding vm_step
step_total rs op st ready small =
    let packed = pack_vm_value st.pc op st.gas st.acc in
    let c = challenged packed packed rs st.s st.pow ready.wide_s ready.wide_pow in
    (
      row_of op st (c.new_s, c.new_pow),
      record {
        runs = rw (c.runs) refl;
        opcode = refl;
        packed = record {
          small_pc = mod-lt_modulus (st.pc + 1);
          small_opcode = small;
          small_gas = sub_mod-lt st.gas (1 + op % 3);
          small_acc = vm_acc-lt op st.acc st.gas ready.small_acc;
        };
        wide_s = c.count_s;
        wide_pow = c.count_pow;
      },
    )

-- Every row is the machine's step from the row before it.
abbrev pub Chain : List ℕ → (ℕ × ℕ) × (ℕ × ℕ) → List GeomAirRow → Type 0
Chain rs matrix [] = Unit
Chain rs matrix (r ∷ []) = Unit
Chain rs matrix (r ∷ r' ∷ rows) =
    (vm_step rs r'.opcode (state_after matrix r) ≡ ok r') × Chain rs matrix (r' ∷ rows)

pub record Simulated (left t : ℕ) (program rs : List ℕ) (matrix : (ℕ × ℕ) × (ℕ × ℕ))
    (st : GeomState) : Type 1 where
  pub rows : List GeomAirRow
  pub runs : simulate_from left t program rs matrix st ≡ ok rows
  pub count : length rows ≡ left
  pub wide_s : Wide (length rs) (map (λ r. r.s) rows)
  pub wide_pow : Wide (length rs) (map (λ r. r.pow) rows)
  pub packed : All IsPacked rows
  pub drawn : (P : ℕ → Type 0) → All P program → All (λ r. P r.opcode) rows
  pub chained : Chain rs matrix rows
  pub starts : (r : GeomAirRow) → get_elem? rows 0 ≡ some r → vm_step rs r.opcode st ≡ ok r

Chain-cons :
    (rs : List ℕ) (matrix : (ℕ × ℕ) × (ℕ × ℕ)) (row : GeomAirRow) (rows : List GeomAirRow)
    → ((r : GeomAirRow)
        → get_elem? rows 0 ≡ some r
        → vm_step rs r.opcode (state_after matrix row) ≡ ok r)
    → Chain rs matrix rows
    → Chain rs matrix (row ∷ rows)
Chain-cons rs matrix row [] starts chain = tt
Chain-cons rs matrix row (r ∷ rows) starts chain = (starts r refl, chain)

pub simulated :
    (left t : ℕ) (program rs : List ℕ) (matrix : (ℕ × ℕ) × (ℕ × ℕ)) (st : GeomState)
    → IsProgram program
    → IsReady (length rs) st
    → Simulated left t program rs matrix st
unfolding simulate_from
simulated zero t program rs matrix st p ready = record {
  rows = [];
  runs = refl;
  count = refl;
  wide_s = tt;
  wide_pow = tt;
  packed = tt;
  drawn = λ P all. tt;
  chained = tt;
  starts = λ r e. absurd (cc);
}
simulated (suc left) t program rs matrix st p ready =
    let (op, fetched, from_program) = fetch_total program t p in
    let small = from_program (λ o. o < modulus) p.small_ops in
    let (row, step) = step_total rs op st ready small in
    let rest = simulated left (t + 1) program rs matrix (state_after matrix row) p (record {
      small_acc = step.packed.small_acc;
      wide_s = step.wide_s;
      wide_pow = step.wide_pow;
    }) in
    record {
      rows = row ∷ rest.rows;
      runs = rw fetched (rw (step.runs) (rw (rest.runs) refl));
      count = ap suc rest.count;
      wide_s = (step.wide_s, rest.wide_s);
      wide_pow = (step.wide_pow, rest.wide_pow);
      packed = (step.packed, rest.packed);
      drawn = λ P all. (subst P (sym step.opcode) (from_program P all), rest.drawn P all);
      chained = Chain-cons rs matrix row rest.rows rest.starts rest.chained;
      starts = λ r e.
          let same = some-injective row r e in
          subst (λ (x : GeomAirRow). vm_step rs x.opcode st ≡ ok x) same
            (rw (step.opcode) step.runs);
    }
