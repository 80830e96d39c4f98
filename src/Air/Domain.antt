-- ===== src/Air/Domain.antt =====
-- `next_power_of_two` of bef_zk/air/geom_air.py: the default domain.
use capsule_tech.Common.{
  ℕ, zero, suc, ◌+◌, ◌*◌, ◌^◌, ◌<◌, ◌≤◌, max, ◌≡◌, refl, lt→ltb, ge→ltb, arith,
}
use native.Mathlib.Nat.{pow-suc}
use native.Mathlib.Decide.{dec_lt}
use capsule_tech.Air.Table.{double_until, next_power_of_two}

-- From a power of two, with as many doublings as are missing at most.
double_until_bounds :
    (fuel n k : ℕ)
    → n ≤ fuel + 2 ^ k
    → 2 ^ k < max 2 (2 * n)
    → (m : ℕ) × (double_until fuel n (2 ^ k) ≡ 2 ^ m) × (n ≤ 2 ^ m) × (2 ^ m < max 2 (2 * n))
unfolding double_until
double_until_bounds zero n k enough small = (k, refl, omega (arith, enough), small)
double_until_bounds (suc fuel) n k enough small = elim (dec_lt (2 ^ k) n) [
  | yes less ↦
      let twice = pow-suc 2 k in
      let (m, e, room, least) =
        double_until_bounds fuel n (suc k) (omega (arith, twice, positive k))
          (omega (arith, twice)) in
      let doubled : 2 ^ suc k ≡ 2 ^ k * 2 = omega (arith, twice) in
      (m, rw (lt→ltb (2 ^ k) n less, double_until) (rw (doubled) at e), room, least)
  | no done ↦ (k, rw (ge→ltb (2 ^ k) n (omega arith), double_until) refl, omega arith, small)
]
  where
    positive : (k : ℕ) → 0 < 2 ^ k
    positive zero = omega arith
    positive (suc k) = omega (arith, pow-suc 2 k, positive k)

-- The loop ends within `n` doublings: the result is the least power of two that is at least `n`.
pub next_power_of_two_bounds :
    (n : ℕ) → (m : ℕ) × (next_power_of_two n ≡ 2 ^ m) × (n ≤ 2 ^ m) × (2 ^ m < max 2 (2 * n))
unfolding next_power_of_two
next_power_of_two_bounds n = double_until_bounds n n 0 (omega arith) (omega arith)
