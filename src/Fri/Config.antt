-- ===== src/Fri/Config.antt =====
-- bef_zk/fri/config.py: `FRIConfig` and the checks of its `__post_init__`.
pub mod PowerOfTwo
use capsule_tech.Common.{
  ℕ, zero, suc, ◌+◌, ◌-◌, ◌/◌, Bool, true, false, not, ◌||◌, ltb, leb, ◌==◌, if◌then◌else◌, Result,
  ok, err, value_error, ◌>>=◌, ◌>>◌, raise_if,
}
use Prim.Native.Nat.{bit_and}

pub record FriConfig : Type 0 where
  pub field_modulus : ℕ
  pub domain_size : ℕ
  pub max_degree : ℕ
  pub num_rounds : ℕ
  pub num_queries : ℕ

-- `int.bit_length()`, one bit to a round; a number has at most as many bits as its value.
unfoldable pub bit_length_from : ℕ → ℕ → ℕ
bit_length_from zero n = 0
bit_length_from (suc rounds) n =
    let rest = bit_length_from rounds (n / 2) in if n == 0 then 0 else suc rest

unfoldable pub bit_length : ℕ → ℕ
unfolding bit_length_from
bit_length n = bit_length_from n n

-- `size > 0 and size & (size - 1) == 0`
unfoldable pub is_power_of_two : ℕ → Bool
is_power_of_two size = not (leb size 0 || not (bit_and size (size - 1) == 0))

-- The class's constructor: the checks of `__post_init__`. The fields are natural numbers, so the
-- tests for negative numbers have no case.
unfoldable pub make_config : FriConfig → Result FriConfig
unfolding is_power_of_two
make_config cfg = do
  raise_if (not (is_power_of_two cfg.domain_size)) value_error
  raise_if (ltb (bit_length cfg.domain_size) cfg.num_rounds) value_error
  raise_if (leb cfg.num_queries 0) value_error
  ok cfg
