-- ===== src/Stc/Poseidon.antt =====
-- bef_zk/stc/poseidon2.py: the hash over three field elements that chains the chunk roots. A state is
-- a list of three numbers, which the rounds read by position.
use capsule_tech.Common.{
  ◌≡◌, refl, ℕ, zero, suc, ◌+◌, ◌*◌, ◌%◌, not, List, [], ◌∷◌, map, ◌==◌, length, Result, ok, err,
  value_error, ◌>>◌, raise_if,
}
use capsule_tech.Common.Field.{modulus}

-- `state[i] + round_const[i]`
pub ark : List ℕ → List ℕ → List ℕ
ark [] consts = []
ark (x ∷ state) [] = x ∷ state
ark (x ∷ state) (c ∷ consts) = (x + c) % modulus ∷ ark state consts

pub fifth_power : ℕ → ℕ
fifth_power x = let x2 = x * x % modulus in let x4 = x2 * x2 % modulus in x4 * x % modulus

pub sbox : List ℕ → List ℕ
unfolding fifth_power
sbox state = map fifth_power state

-- One row of the matrix against the state.
pub mix_row : ℕ → List ℕ → List ℕ → ℕ
mix_row acc [] state = acc
mix_row acc (m ∷ row) [] = acc
mix_row acc (m ∷ row) (x ∷ state) = mix_row ((acc + m * x) % modulus) row state

pub mix : List (List ℕ) → List ℕ → List ℕ
unfolding mix_row
mix mds state = map (λ row. mix_row 0 row state) mds

abbrev pub round_const : List ℕ
round_const = 1 ∷ 2 ∷ 3 ∷ []

abbrev pub mds : List (List ℕ)
mds = (2 ∷ 1 ∷ 1 ∷ []) ∷ (1 ∷ 2 ∷ 1 ∷ []) ∷ (1 ∷ 1 ∷ 2 ∷ []) ∷ []

pub permute : ℕ → List ℕ → List ℕ
unfolding ark sbox mix
permute zero state = state
permute (suc rounds) state = permute rounds (mix mds (sbox (ark state round_const)))

pub first_word : List ℕ → Result ℕ
first_word [] = err value_error
first_word (x ∷ state) = ok x

unfoldable pub poseidon2_hash : List ℕ → Result ℕ
unfolding permute first_word
poseidon2_hash words = do
  raise_if (not (length words == 3)) value_error
  first_word (permute 7 (map (λ w. w % modulus) words))

permute_total :
    (rounds x : ℕ) (state : List ℕ) → (y : ℕ) × (first_word (permute rounds (x ∷ state)) ≡ ok y)
unfolding permute first_word mix
permute_total zero x state = (x, refl)
permute_total (suc rounds) x state = permute_total rounds _ _

-- Three words have a hash.
pub poseidon2_hash_total : (a b c : ℕ) → (y : ℕ) × (poseidon2_hash (a ∷ b ∷ c ∷ []) ≡ ok y)
unfolding poseidon2_hash
poseidon2_hash_total a b c = permute_total 7 (a % modulus) (b % modulus ∷ c % modulus ∷ [])
