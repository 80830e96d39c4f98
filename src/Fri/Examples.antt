-- ===== src/Fri/Examples.antt =====
-- Runs of bef_zk/fri's configuration, fold and query check, and the theorems at those inputs.
use capsule_tech.Common.{
  ℕ, ◌+◌, ◌*◌, ◌%◌, ◌^◌, ◌≤◌, ◌<◌, ◌≡◌, ◌↔◌, refl, true, false, none, some, [], ◌∷◌, get_elem?, ok,
}
use capsule_tech.Common.Dict.{Dict, get}
use capsule_tech.Common.Field.{modulus}
use capsule_tech.Fri.Config.{FriConfig, bit_length, bit_length_from, is_power_of_two, make_config}
use capsule_tech.Fri.Config.PowerOfTwo.{is_power_of_two_iff, make_config_iff}
use capsule_tech.Fri.Domain.{fold_pairs}
use capsule_tech.Fri.Domain.Folds.{get_elem?-fold_pairs}
use capsule_tech.Fri.Verifier.{check_rounds, open_pair, final_matches, first_matches}
use capsule_tech.Fri.Verifier.Queries.{LastFold, check_rounds_iff, first_challenge_unused}

abbrev small : FriConfig
small = record {
  field_modulus = modulus;
  domain_size = 8;
  max_degree = 4;
  num_rounds = 4;
  num_queries = 1;
}

one_round_too_many : make_config small ≡ ok small
unfolding make_config bit_length bit_length_from is_power_of_two
one_round_too_many = refl

twelve_is_none : is_power_of_two 12 ≡ false
unfolding is_power_of_two
twelve_is_none = refl

is_power_of_two_iff_example : (is_power_of_two 12 ≡ true) ↔ ((k : ℕ) × (12 ≡ 2 ^ k))
is_power_of_two_iff_example = is_power_of_two_iff 12

make_config_iff_example :
    (make_config small ≡ ok small) ↔ ((k : ℕ) × (8 ≡ 2 ^ k) × (4 ≤ k + 1) × (0 < 1))
make_config_iff_example = make_config_iff small

get_elem?-fold_pairs_example :
    get_elem? (fold_pairs 10 modulus (1 ∷ 2 ∷ 3 ∷ 4 ∷ [])) 1 ≡ some ((3 + 10 * 4) % modulus)
get_elem?-fold_pairs_example = get_elem?-fold_pairs 10 modulus (1 ∷ 2 ∷ 3 ∷ 4 ∷ []) 1 3 4 refl refl

abbrev base : Dict ℕ
base = (0, 1) ∷ (1, 2) ∷ []

-- The middle layer's values are no fold of the first's.
abbrev middle : ℕ × Dict ℕ
middle = (3, (0, 100) ∷ (1, 200) ∷ [])

abbrev final : ℕ × Dict ℕ
final = (0, (0, 700) ∷ [])

accepted : check_rounds 0 ((7, base) ∷ middle ∷ final ∷ []) 1 2 none ≡ true
unfolding check_rounds open_pair final_matches first_matches get
accepted = refl

check_rounds_iff_example :
    (check_rounds 0 ((7, base) ∷ middle ∷ final ∷ []) 1 2 none ≡ true)
    ↔ (LastFold ((7, base) ∷ middle ∷ final ∷ []) 1 × (get base 1 ≡ some 2))
check_rounds_iff_example = check_rounds_iff 2 (final ∷ []) (7, base) middle 1

first_challenge_unused_example : check_rounds 0 ((8, base) ∷ middle ∷ final ∷ []) 1 2 none ≡ true
first_challenge_unused_example = first_challenge_unused 2 [] 7 8 base middle final 1 accepted
