-- ===== src/Air/Residuals.antt =====
-- The constraints of bef_zk/air/geom_constraints.py at two rows in a row of a trace that the machine of
-- bef_zk/air/geom_air.py made.
use native.Mathlib.Decide.{ℕ_discrete}
use capsule_tech.Common.{
  ◌≢◌, ◌⊎◌, inl, inr, ℕ, suc, ◌+◌, ◌*◌, ◌%◌, ◌<◌, ◌≡◌, ◌↔◌, refl, sym, ap, ◌∙◌, List, [], ◌∷◌, map,
  length, All, ok, arith,
}
use native.Mathlib.Nat.{mod-eq_of_lt}
use capsule_tech.Common.Field.{
  modulus, sub_mod, sub_mod-eq-zero_iff, mod-mul_left, mod-mul_right, mod_mod,
}
use capsule_tech.Air.Trace.{
  GeomAirRow, GeomState, pack_vm_value, accumulate, row_of, state_after, vm_step,
}
use capsule_tech.Air.Constraints.{
  RowValues, ConstraintResidual, challenge_residuals, eval_constraints_from_row,
}

abbrev pub reduce : List ℕ → List ℕ
reduce values = map (λ v. v % modulus) values

-- What the constraints read of a row and the next.
abbrev pub row_pair : GeomAirRow → GeomAirRow → RowValues
row_pair r r' = record {
  pc = r.pc % modulus;
  pc_next = r'.pc % modulus;
  gas = r.gas % modulus;
  gas_next = r'.gas % modulus;
  opcode = r.opcode % modulus;
  acc = r.acc % modulus;
  x1 = r.x1 % modulus;
  x2 = r.x2 % modulus;
  cnt = r.cnt % modulus;
  cnt_next = r'.cnt % modulus;
  m11 = r.m11 % modulus;
  m11_next = r'.m11 % modulus;
  m12 = r.m12 % modulus;
  m12_next = r'.m12 % modulus;
  m22 = r.m22 % modulus;
  m22_next = r'.m22 % modulus;
  sketches = reduce r.s;
  sketches_next = reduce r'.s;
  pow = reduce r.pow;
  pow_next = reduce r'.pow;
}

-- The fields that the machine packs are field elements.
pub record IsPacked (r : GeomAirRow) : Type 0 where
  pub small_pc : r.pc < modulus
  pub small_opcode : r.opcode < modulus
  pub small_gas : r.gas < modulus
  pub small_acc : r.acc < modulus

-- Both products modulo the prime are the same.
abbrev pub SameProduct : ℕ → ℕ → ℕ → ℕ → Type 0
SameProduct a b c d = a * b % modulus ≡ c * d % modulus

product_mod : (a b : ℕ) → a % modulus * (b % modulus) % modulus ≡ a * b % modulus
product_mod a b = mod-mul_right modulus (a % modulus) b ∙ mod-mul_left modulus a b

moment_step :
    (m a b c d : ℕ)
    → (sub_mod ((m + a * b) % modulus % modulus) (m % modulus + c % modulus * (d % modulus)) ≡ 0)
      ↔ SameProduct a b c d
moment_step m a b c d =
    let p = product_mod c d in
    let e =
      sub_mod-eq-zero_iff ((m + a * b) % modulus % modulus)
        (m % modulus + c % modulus * (d % modulus)) in
    ((λ h. omega (arith, p, e.0 h)), λ h. e.1 (omega (arith, p, h)))

gas_same :
    (gas op op' : ℕ)
    → (sub_mod (sub_mod gas (1 + op' % 3) % modulus + (1 + op % 3)) (gas % modulus) ≡ 0)
      ↔ (op % 3 ≡ op' % 3)
gas_same gas op op' = ((λ h. omega arith), λ h. omega arith)

count_step : (n : ℕ) → sub_mod ((n + 1) % modulus % modulus) (n % modulus + 1) ≡ 0
count_step n = omega arith

power_step : (p r : ℕ) → sub_mod (p * r % modulus % modulus) (p % modulus * r) ≡ 0
power_step p r =
    (sub_mod-eq-zero_iff (p * r % modulus % modulus) (p % modulus * r)).1
      (mod_mod (p * r % modulus) ∙ mod_mod (p * r) ∙ sym (mod-mul_left modulus p r))

sketch_step :
    (s v p : ℕ) → sub_mod ((s + v * p) % modulus % modulus) (s % modulus + v * (p % modulus)) ≡ 0
sketch_step s v p =
    let e = mod-mul_right modulus v p in
    (sub_mod-eq-zero_iff ((s + v * p) % modulus % modulus) (s % modulus + v * (p % modulus))).1
      (omega (arith, e))

-- The residuals of the challenges: those of the powers vanish, and those of the sketches if the
-- constraint packs the value that the machine packed.
pub record Challenged (packed val : ℕ) (rs s pow : List ℕ) : Type 0 where
  pub new_s : List ℕ
  pub new_pow : List ℕ
  pub s_res : List ℕ
  pub pow_res : List ℕ
  pub runs : accumulate packed rs s pow ≡ ok (new_s, new_pow)
  pub checks :
      challenge_residuals val rs (reduce s) (reduce new_s) (reduce pow) (reduce new_pow)
      ≡ ok (s_res, pow_res)
  pub pow_zero : All (λ v. v ≡ 0) pow_res
  pub s_zero : packed ≡ val → All (λ v. v ≡ 0) s_res
  pub count_s : length new_s ≡ length rs
  pub count_pow : length new_pow ≡ length rs

pub challenged :
    (packed val : ℕ) (rs s pow : List ℕ)
    → length s ≡ length rs
    → length pow ≡ length rs
    → Challenged packed val rs s pow
unfolding accumulate challenge_residuals
challenged packed val [] s pow n m = record {
  new_s = [];
  new_pow = [];
  s_res = [];
  pow_res = [];
  runs = refl;
  checks = none_left s pow;
  pow_zero = tt;
  s_zero = λ e. tt;
  count_s = refl;
  count_pow = refl;
}
  where
    none_left :
        (s pow : List ℕ) → challenge_residuals val [] (reduce s) [] (reduce pow) [] ≡ ok ([], [])
    none_left s pow = refl
challenged packed val (r ∷ rs) [] pow n m = absurd (omega arith)
challenged packed val (r ∷ rs) (sj ∷ s) [] n m = absurd (omega arith)
challenged packed val (r ∷ rs) (sj ∷ s) (pj ∷ pow) n m =
    let rest = challenged packed val rs s pow (omega arith) (omega arith) in
    record {
      new_s = (sj + packed * pj) % modulus ∷ rest.new_s;
      new_pow = pj * r % modulus ∷ rest.new_pow;
      s_res =
          sub_mod ((sj + packed * pj) % modulus % modulus) (sj % modulus + val * (pj % modulus))
          ∷ rest.s_res;
      pow_res = sub_mod (pj * r % modulus % modulus) (pj % modulus * r) ∷ rest.pow_res;
      runs = rw (rest.runs) refl;
      checks = rw (rest.checks) refl;
      pow_zero = (power_step pj r, rest.pow_zero);
      s_zero = λ e. (rw (sym e) (sketch_step sj packed pj), rest.s_zero e);
      count_s = ap suc rest.count_s;
      count_pow = ap suc rest.count_pow;
    }

-- The residuals at two rows, with those of the challenges.
abbrev pub residual_of : RowValues → List ℕ → List ℕ → ConstraintResidual
residual_of row s_res pow_res = record {
  pc_step = sub_mod row.pc_next (row.pc + 1);
  gas_step = sub_mod (row.gas_next + (1 + row.opcode % 3)) row.gas;
  cnt_step = sub_mod row.cnt_next (row.cnt + 1);
  m11_step = sub_mod row.m11_next (row.m11 + row.x1 * row.x1);
  m12_step = sub_mod row.m12_next (row.m12 + row.x1 * row.x2);
  m22_step = sub_mod row.m22_next (row.m22 + row.x2 * row.x2);
  s_steps = s_res;
  pow_steps = pow_res;
}

-- How the residuals at a row and the next are related to the two rows.
pub record Residuals (r r' : GeomAirRow) (res : ConstraintResidual) : Type 0 where
  pub pc_zero : res.pc_step ≡ 0
  pub cnt_zero : res.cnt_step ≡ 0
  pub pow_zero : All (λ v. v ≡ 0) res.pow_steps
  pub gas_zero : (res.gas_step ≡ 0) ↔ (r.opcode % 3 ≡ r'.opcode % 3)
  pub m11_zero : (res.m11_step ≡ 0) ↔ SameProduct r'.x1 r'.x1 r.x1 r.x1
  pub m12_zero : (res.m12_step ≡ 0) ↔ SameProduct r'.x1 r'.x2 r.x1 r.x2
  pub m22_zero : (res.m22_step ≡ 0) ↔ SameProduct r'.x2 r'.x2 r.x2 r.x2
  pub s_zero : (r.opcode ≢ r'.opcode) ⊎ All (λ v. v ≡ 0) res.s_steps

packed_same :
    (r : GeomAirRow) (op : ℕ)
    → IsPacked r
    → r.opcode ≡ op
    → pack_vm_value r.pc op r.gas r.acc
      ≡ pack_vm_value (r.pc % modulus) (r.opcode % modulus) (r.gas % modulus) (r.acc % modulus)
packed_same r op p e =
    rw
      (
        mod-eq_of_lt p.small_pc,
        mod-eq_of_lt p.small_opcode,
        mod-eq_of_lt p.small_gas,
        mod-eq_of_lt p.small_acc,
        e,
      )
      refl

-- For a row of field elements with a sketch and a power to each challenge, the machine makes the next
-- row from where the row leaves it, and the constraints at the two rows have residuals: those of the
-- program counter, the count and the powers are 0. That of the gas is 0 exactly if the two opcodes
-- agree modulo 3, those of the moments exactly if the products of the two points' coordinates agree
-- modulo the prime, and those of the sketches are 0 if the opcodes agree.
pub vm_step-Residuals :
    (matrix : (ℕ × ℕ) × (ℕ × ℕ)) (rs : List ℕ) (r : GeomAirRow) (op : ℕ)
    → IsPacked r
    → length r.s ≡ length rs
    → length r.pow ≡ length rs
    → (r' : GeomAirRow) × (res : ConstraintResidual) × (vm_step rs op (state_after matrix r)
        ≡ ok r')
      × (eval_constraints_from_row rs (row_pair r r') ≡ ok res)
      × Residuals r r' res
unfolding vm_step eval_constraints_from_row
vm_step-Residuals ((a11, a12), (a21, a22)) rs r op p n m =
    let matrix : (ℕ × ℕ) × (ℕ × ℕ) = ((a11, a12), (a21, a22)) in
    let st : GeomState = state_after matrix r in
    let val =
      pack_vm_value (r.pc % modulus) (r.opcode % modulus) (r.gas % modulus) (r.acc % modulus) in
    let c = challenged (pack_vm_value r.pc op r.gas r.acc) val rs r.s r.pow n m in
    let op_small : r.opcode % modulus ≡ r.opcode = mod-eq_of_lt p.small_opcode in
    let r' : GeomAirRow = row_of op st (c.new_s, c.new_pow) in
    (
      r',
      residual_of (row_pair r r') c.s_res c.pow_res,
      rw (c.runs) refl,
      rw (c.checks) refl,
      record {
        pc_zero = count_step r.pc;
        cnt_zero = count_step r.cnt;
        pow_zero = c.pow_zero;
        gas_zero = rw op_small (gas_same r.gas r.opcode op);
        m11_zero = moment_step r.m11 st.x1 st.x1 r.x1 r.x1;
        m12_zero = moment_step r.m12 st.x1 st.x2 r.x1 r.x2;
        m22_zero = moment_step r.m22 st.x2 st.x2 r.x2 r.x2;
        s_zero = elim (ℕ_discrete r.opcode op) [
          | yes same ↦ inr (c.s_zero (packed_same r op p same))
          | no other ↦ inl other
        ];
      },
    )
