-- ===== src/Air/Trace.antt =====
-- bef_zk/air/geom_air.py: the machine of the geometry AIR and its trace. The locals of
-- `simulate_trace` are the record `GeomState`; all of them are natural numbers, and `- … % MODULUS` is
-- `sub_mod`.
use capsule_tech.Common.{
  ℕ, zero, suc, ◌+◌, ◌*◌, ◌%◌, ◌^◌, List, [], ◌∷◌, ◌==◌, if◌then◌else◌, length, get_elem?,
  replicate, Result, ok, err, index_error, value_error, zero_division_error, ◌>>=◌, or_raise,
}
use capsule_tech.Common.Field.{modulus, sub_mod}
use Prim.Native.Nat.{bit_xor}

pub record GeomAirParams : Type 0 where
  pub steps : ℕ
  pub num_challenges : ℕ
  pub r_challenges : List ℕ
  pub matrix : List (List ℕ)

pub record GeomState : Type 0 where
  pub pc : ℕ
  pub gas : ℕ
  pub acc : ℕ
  pub x1 : ℕ
  pub x2 : ℕ
  pub cnt : ℕ
  pub m11 : ℕ
  pub m12 : ℕ
  pub m22 : ℕ
  pub s : List ℕ
  pub pow : List ℕ

pub record GeomAirRow : Type 0 where
  pub pc : ℕ
  pub opcode : ℕ
  pub gas : ℕ
  pub acc : ℕ
  pub x1 : ℕ
  pub x2 : ℕ
  pub cnt : ℕ
  pub m11 : ℕ
  pub m12 : ℕ
  pub m22 : ℕ
  pub s : List ℕ
  pub pow : List ℕ

pub record GeomTrace : Type 0 where
  pub params : GeomAirParams
  pub rows : List GeomAirRow

-- The four masks occupy separate digits, so that `|` of them is their sum.
unfoldable pub pack_vm_value : ℕ → ℕ → ℕ → ℕ → ℕ
pack_vm_value pc opcode gas acc =
    (pc % 2 ^ 16 * 2 ^ 45 + opcode % 2 ^ 8 * 2 ^ 37 + gas % 2 ^ 12 * 2 ^ 25 + acc % 2 ^ 25)
    % modulus

-- `ensure_lengths`: an empty list stands for the default.
abbrev pub or_default : List ℕ → List ℕ → List ℕ
or_default [] default = default
or_default (x ∷ xs) default = x ∷ xs

unfoldable pub ensure_lengths : ℕ → GeomState → GeomState
ensure_lengths m init = record init {
  s = or_default init.s (replicate m 0);
  pow = or_default init.pow (replicate m 1);
}

-- The accumulator of the machine after an instruction.
abbrev pub vm_acc : ℕ → ℕ → ℕ → ℕ
vm_acc opcode acc gas =
    if opcode == 1
    then (acc + gas) % modulus
    else if opcode == 2
    then acc * gas % modulus
    else if opcode == 3
    then bit_xor acc gas % modulus
    else acc

-- `for j, rj in enumerate(params.r_challenges)`: the new sketches and powers.
unfoldable pub accumulate : ℕ → List ℕ → List ℕ → List ℕ → Result (List ℕ × List ℕ)
accumulate packed_val [] s pow = ok ([], [])
accumulate packed_val (rj ∷ rs) [] pow = err index_error
accumulate packed_val (rj ∷ rs) (sj ∷ s) [] = err index_error
accumulate packed_val (rj ∷ rs) (sj ∷ s) (pj ∷ pow) = do
  (new_s, new_pow) ← accumulate packed_val rs s pow
  ok ((sj + packed_val * pj) % modulus ∷ new_s, pj * rj % modulus ∷ new_pow)

-- `a, b = row`
unfoldable pub unpack_pair : List ℕ → Result (ℕ × ℕ)
unpack_pair (a ∷ b ∷ []) = ok (a, b)
unpack_pair row = err value_error

unfoldable pub unpack_matrix : List (List ℕ) → Result ((ℕ × ℕ) × (ℕ × ℕ))
unfolding unpack_pair
unpack_matrix matrix = do
  row0 ← or_raise index_error (get_elem? matrix 0)
  first ← unpack_pair row0
  row1 ← or_raise index_error (get_elem? matrix 1)
  second ← unpack_pair row1
  ok (first, second)

-- The row that an instruction adds, given the new sketches and powers.
abbrev pub row_of : ℕ → GeomState → List ℕ × List ℕ → GeomAirRow
row_of opcode st (new_s, new_pow) = record {
  pc = (st.pc + 1) % modulus;
  opcode = opcode;
  gas = sub_mod st.gas (1 + opcode % 3);
  acc = vm_acc opcode st.acc st.gas;
  x1 = st.x1;
  x2 = st.x2;
  cnt = (st.cnt + 1) % modulus;
  m11 = (st.m11 + st.x1 * st.x1) % modulus;
  m12 = (st.m12 + st.x1 * st.x2) % modulus;
  m22 = (st.m22 + st.x2 * st.x2) % modulus;
  s = new_s;
  pow = new_pow;
}

-- The locals after the row: all are the row's but the point, which the dynamics move.
abbrev pub state_after : (ℕ × ℕ) × (ℕ × ℕ) → GeomAirRow → GeomState
state_after ((a11, a12), (a21, a22)) row = record {
  pc = row.pc;
  gas = row.gas;
  acc = row.acc;
  x1 = (a11 * row.x1 + a12 * row.x2) % modulus;
  x2 = (a21 * row.x1 + a22 * row.x2) % modulus;
  cnt = row.cnt;
  m11 = row.m11;
  m12 = row.m12;
  m22 = row.m22;
  s = row.s;
  pow = row.pow;
}

-- The body of the loop.
unfoldable pub vm_step : List ℕ → ℕ → GeomState → Result GeomAirRow
vm_step r_challenges opcode st = do
  sums ← accumulate (pack_vm_value st.pc opcode st.gas st.acc) r_challenges st.s st.pow
  ok (row_of opcode st sums)

-- `program[t % len(program)]`
unfoldable pub fetch : List ℕ → ℕ → Result ℕ
fetch [] t = err zero_division_error
fetch (op ∷ ops) t = or_raise index_error (get_elem? (op ∷ ops) (t % length (op ∷ ops)))

-- The loop, with the steps that are left.
unfoldable pub simulate_from :
    ℕ → ℕ → List ℕ → List ℕ → (ℕ × ℕ) × (ℕ × ℕ) → GeomState → Result (List GeomAirRow)
simulate_from zero t program r_challenges matrix st = ok []
simulate_from (suc left) t program r_challenges matrix st = do
  opcode ← fetch program t
  row ← vm_step r_challenges opcode st
  rest ← simulate_from left (t + 1) program r_challenges matrix (state_after matrix row)
  ok (row ∷ rest)

unfoldable pub simulate_trace : List ℕ → GeomAirParams → GeomState → Result GeomTrace
simulate_trace program params init = do
  matrix ← unpack_matrix params.matrix
  rows ←
      simulate_from params.steps 0 program params.r_challenges matrix
        (ensure_lengths params.num_challenges init)
  ok (record { params = params; rows = rows })
