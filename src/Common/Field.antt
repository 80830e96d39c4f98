-- ===== src/Common/Field.antt =====
-- The prime 2^61 - 1 (`MODULUS` of bef_zk/stc/aok_cpu.py, bef_zk/fri and bef_zk/air), and congruences.
use Prim.Native.Nat.{ℕ, ◌+◌, ◌-◌, ◌*◌, ◌/◌, ◌%◌, ◌^◌, ◌<◌}
use mathlib.Core.Logic.{◌↔◌}
use mathlib.Core.Path.{◌≡◌, sym, ap, ◌∙◌}
use native.Mathlib.Omega.{arith}
use native.Mathlib.Nat.{
  mod-add-mod, add-mod-mod, mul_comm, mul_assoc, mod-add-div, add-mul-mod_self_left, add-mul,
}

abbrev pub modulus : ℕ
modulus = 2 ^ 61 - 1

pub mod_mod : (a : ℕ) → a % modulus % modulus ≡ a % modulus
mod_mod a = omega arith

pub mod-lt_modulus : (a : ℕ) → a % modulus < modulus
mod-lt_modulus a = omega arith

pub modulus_pos : 0 < modulus
modulus_pos = omega arith

-- `(a - b) % MODULUS`
abbrev pub sub_mod : ℕ → ℕ → ℕ
sub_mod a b = (a + (modulus - b % modulus)) % modulus

pub sub_mod-eq-zero_iff : (a b : ℕ) → (sub_mod a b ≡ 0) ↔ (a % modulus ≡ b % modulus)
sub_mod-eq-zero_iff a b = ((λ h. omega arith), λ e. omega arith)

-- What was taken away comes back.
pub sub_mod-add : (a b : ℕ) → sub_mod (sub_mod a b + b) a ≡ 0
sub_mod-add a b = omega arith

pub sub_mod-lt : (a b : ℕ) → sub_mod a b < modulus
sub_mod-lt a b = omega arith

split_product : (m a b : ℕ) → a * b ≡ a % m * b + m * (a / m * b)
split_product m a b =
    sym (ap (λ (t : ℕ). t * b) (mod-add-div a m))
    ∙ add-mul (a % m) (m * (a / m)) b
    ∙ ap (λ (t : ℕ). a % m * b + t) (mul_assoc m (a / m) b)

-- A factor may be reduced before the product is.
pub mod-mul_left : (m a b : ℕ) → a % m * b % m ≡ a * b % m
mod-mul_left m a b =
    sym (
      ap (λ (t : ℕ). t % m) (split_product m a b) ∙ add-mul-mod_self_left (a % m * b) m (a / m * b))

pub mod-mul_right : (m a b : ℕ) → a * (b % m) % m ≡ a * b % m
mod-mul_right m a b =
    ap (λ (t : ℕ). t % m) (mul_comm a (b % m))
    ∙ mod-mul_left m b a
    ∙ ap (λ (t : ℕ). t % m) (mul_comm b a)

-- A sum of reduced terms.
pub mod-add_both : (m a b : ℕ) → (a % m + b % m) % m ≡ (a + b) % m
mod-add_both m a b = mod-add-mod a m (b % m) ∙ add-mod-mod a b m
