-- ===== src/Common/Bits.antt =====
-- Python's `&` at variables. The prelude defines it by a recursion whose fuel is the first operand.
use Prim.Native.Nat.{
  ℕ, zero, suc, ◌+◌, ◌-◌, ◌*◌, ◌/◌, ◌%◌, ◌≤◌, min, bit_and, digits, bit_and-bitwise,
}
use mathlib.Core.Path.{◌≡◌, refl, sym, ap, ◌∙◌}
use native.Mathlib.Omega.{arith}

abbrev conj : ℕ → ℕ → ℕ → ℕ
conj rounds a b = digits (λ _. 0) min rounds a b

-- A round more than the first operand needs changes nothing.
conj-suc : (rounds a b : ℕ) → a ≤ rounds → conj (suc rounds) a b ≡ conj rounds a b
conj-suc zero zero b enough = refl
conj-suc (suc rounds) zero b enough = refl
conj-suc zero (suc a) b enough = absurd (omega arith)
conj-suc (suc rounds) (suc a) b enough =
    ap (λ (high : ℕ). high * 2 + min (suc a % 2) (b % 2))
      (conj-suc rounds (suc a / 2) (b / 2) (omega arith))

conj-eq-bit_and : (spare rounds a b : ℕ) → rounds ≡ spare + a → conj rounds a b ≡ bit_and a b
conj-eq-bit_and zero rounds a b e =
    ap (λ (r : ℕ). conj r a b) (omega (arith, e)) ∙ sym (bit_and-bitwise a b)
conj-eq-bit_and (suc spare) zero a b e = absurd (omega arith)
conj-eq-bit_and (suc spare) (suc rounds) a b e =
    conj-suc rounds a b (omega arith) ∙ conj-eq-bit_and spare rounds a b (omega arith)

-- The lowest binary digit, and the others.
pub bit_and_step : (a b : ℕ) → bit_and a b ≡ bit_and (a / 2) (b / 2) * 2 + min (a % 2) (b % 2)
bit_and_step zero b = omega (arith, bit_and-bitwise 0 b, bit_and-bitwise 0 (b / 2))
bit_and_step (suc a) b =
    bit_and-bitwise (suc a) b
    ∙ ap (λ (high : ℕ). high * 2 + min (suc a % 2) (b % 2))
        (conj-eq-bit_and (a - suc a / 2) a (suc a / 2) (b / 2) (omega arith))

-- By halving, with a bound that goes down.
and_with_itself : (bound a : ℕ) → a ≤ bound → bit_and a a ≡ a
and_with_itself bound zero below = bit_and-bitwise 0 0
and_with_itself zero (suc a) below = absurd (omega arith)
and_with_itself (suc bound) (suc a) below =
    bit_and_step (suc a) (suc a) ∙ omega (arith, and_with_itself bound (suc a / 2) (omega arith))

pub bit_and_self : (a : ℕ) → bit_and a a ≡ a
bit_and_self a = and_with_itself a a (omega arith)
