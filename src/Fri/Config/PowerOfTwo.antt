-- ===== src/Fri/Config/PowerOfTwo.antt =====
-- What the checks of bef_zk/fri/config.py let through: the domains are the powers of two.
use capsule_tech.Common.{
  ℕ, zero, suc, ◌+◌, ◌-◌, ◌*◌, ◌/◌, ◌%◌, ◌^◌, ◌≤◌, ◌<◌, ◌≡◌, ◌↔◌, refl, ap, ◌∙◌, true, inl, inr,
  ◌==◌, Bool-cases, ok, arith,
}
use capsule_tech.Common.Bits.{bit_and_step, bit_and_self}
use capsule_tech.Fri.Config.{FriConfig, bit_length, bit_length_from, is_power_of_two, make_config}
use Prim.Native.Nat.{bit_and}
use native.Mathlib.Nat.{pow-suc}

bit_and_odd : (n : ℕ) → n % 2 ≡ 1 → bit_and n (n - 1) ≡ n / 2 * 2
bit_and_odd n h =
    let e : (n - 1) / 2 ≡ n / 2 = omega arith in
    bit_and_step n (n - 1) ∙ rw (e, bit_and_self (n / 2)) (omega arith)

bit_and_even : (n : ℕ) → 0 < n → n % 2 ≡ 0 → bit_and n (n - 1) ≡ bit_and (n / 2) (n / 2 - 1) * 2
bit_and_even n p h =
    let e : (n - 1) / 2 ≡ n / 2 - 1 = omega arith in
    bit_and_step n (n - 1) ∙ rw (e, h) (omega arith)

-- `rounds` bounds the number, so that the halving ends.
bit_and-eq-zero :
    (rounds n : ℕ) → n ≤ rounds → 0 < n → bit_and n (n - 1) ≡ 0 → (k : ℕ) × (n ≡ 2 ^ k)
bit_and-eq-zero zero n b p e = absurd (omega arith)
bit_and-eq-zero (suc rounds) n b p e = elim (Bool-cases (n % 2 == 0)) [
  | inl even ↦
      let even' : n % 2 ≡ 0 = ground arith in
      let (k, f) =
        bit_and-eq-zero rounds (n / 2) (omega arith) (omega arith)
          (omega (arith, bit_and_even n p even')) in
      (suc k, omega (arith, pow-suc 2 k))
  | inr odd ↦ (0, ground (arith, bit_and_odd n))
]

pub two_pow-pos : (k : ℕ) → 0 < 2 ^ k
two_pow-pos zero = omega arith
two_pow-pos (suc k) = omega (arith, pow-suc 2 k, two_pow-pos k)

bit_and_two_pow : (k : ℕ) → bit_and (2 ^ k) (2 ^ k - 1) ≡ 0
bit_and_two_pow zero = refl
bit_and_two_pow (suc k) =
    let p = pow-suc 2 k in
    let half : 2 ^ suc k / 2 ≡ 2 ^ k = omega (arith, p) in
    bit_and_even (2 ^ suc k) (two_pow-pos (suc k)) (omega (arith, p))
    ∙ rw (half, bit_and_two_pow k) refl

-- The test of the constructor holds of the powers of two, and of nothing else.
pub is_power_of_two_iff : (n : ℕ) → (is_power_of_two n ≡ true) ↔ ((k : ℕ) × (n ≡ 2 ^ k))
unfolding is_power_of_two
is_power_of_two_iff n = (
  (λ h. bit_and-eq-zero n n (omega arith) (ground arith) (ground arith)),
  (λ (k, e). rw e (ground (arith, bit_and_two_pow k, two_pow-pos k))),
)

bit_length_two_pow : (k rounds : ℕ) → k < rounds → bit_length_from rounds (2 ^ k) ≡ suc k
unfolding bit_length_from
bit_length_two_pow k zero h = absurd (omega arith)
bit_length_two_pow zero (suc zero) h = refl
bit_length_two_pow zero (suc (suc rounds)) h = refl
bit_length_two_pow (suc k) (suc rounds) h =
    let p = pow-suc 2 k in
    let half : 2 ^ suc k / 2 ≡ 2 ^ k = omega (arith, p) in
    rw half (ground (arith, two_pow-pos (suc k), bit_length_two_pow k rounds (omega arith)))

lt-two_pow : (k : ℕ) → k < 2 ^ k
lt-two_pow zero = omega arith
lt-two_pow (suc k) = omega (arith, pow-suc 2 k, lt-two_pow k)

pub bit_length-two_pow : (k : ℕ) → bit_length (2 ^ k) ≡ k + 1
unfolding bit_length
bit_length-two_pow k = omega (arith, bit_length_two_pow k (2 ^ k) (lt-two_pow k))

make_config-parts :
    (cfg : FriConfig)
    → make_config cfg ≡ ok cfg
    → (is_power_of_two cfg.domain_size ≡ true)
      × (cfg.num_rounds ≤ bit_length cfg.domain_size)
      × (0 < cfg.num_queries)
unfolding make_config
make_config-parts cfg h = ground arith

make_config_sound :
    (cfg : FriConfig)
    → make_config cfg ≡ ok cfg
    → (k : ℕ) × (cfg.domain_size ≡ 2 ^ k) × (cfg.num_rounds ≤ k + 1) × (0 < cfg.num_queries)
make_config_sound cfg h =
    let (power, rounds, queries) = make_config-parts cfg h in
    let (k, e) = (is_power_of_two_iff cfg.domain_size).0 power in
    (k, e, omega (arith, ap bit_length e, bit_length-two_pow k), queries)

make_config_complete :
    (cfg : FriConfig)
    → (k : ℕ) × (cfg.domain_size ≡ 2 ^ k) × (cfg.num_rounds ≤ k + 1) × (0 < cfg.num_queries)
    → make_config cfg ≡ ok cfg
unfolding make_config
make_config_complete cfg (k, e, r, q) =
    ground
      (arith, (is_power_of_two_iff cfg.domain_size).1 (k, e), ap bit_length e, bit_length-two_pow k)

-- The constructor accepts a configuration exactly if the domain's size is a power of two, there is
-- a query, and the rounds are at most one more than the halvings that the domain has.
pub make_config_iff :
    (cfg : FriConfig)
    → (make_config cfg ≡ ok cfg)
      ↔ ((k : ℕ) × (cfg.domain_size ≡ 2 ^ k) × (cfg.num_rounds ≤ k + 1) × (0 < cfg.num_queries))
make_config_iff cfg = (make_config_sound cfg, make_config_complete cfg)
