-- ===== src/Fri/Domain.antt =====
-- bef_zk/fri/domain.py: `fold_codeword` (the Python loop; the optional Rust module is not modelled)
-- and `next_index`.
pub mod Folds
use capsule_tech.Common.{
  ℕ, zero, suc, ◌+◌, ◌*◌, ◌/◌, ◌%◌, Bool, true, false, not, List, [], ◌∷◌, ◌==◌, length, Result, ok,
  err, value_error, ◌>>=◌, ◌>>◌, raise_if, ◌≡◌, refl, arith,
}

-- `for i in range(0, len(values), 2)`: the pairs `values[i], values[i + 1]`.
pub fold_pairs : ℕ → ℕ → List ℕ → List ℕ
fold_pairs alpha m [] = []
fold_pairs alpha m (a ∷ []) = []
fold_pairs alpha m (a ∷ b ∷ rest) = (a + alpha * b) % m ∷ fold_pairs alpha m rest

pub fold_codeword : List ℕ → ℕ → ℕ → Result (List ℕ)
unfolding fold_pairs
fold_codeword values alpha m = do
  raise_if (not (length values % 2 == 0)) value_error
  ok (fold_pairs alpha m values)

pub next_index : ℕ → ℕ
next_index idx = idx / 2

-- An even length folds.
pub fold_codeword_even :
    (values : List ℕ) (alpha m n : ℕ)
    → length values ≡ n * 2
    → fold_codeword values alpha m ≡ ok (fold_pairs alpha m values)
unfolding fold_codeword
fold_codeword_even values alpha m n e =
    let even : (length values % 2 == 0) ≡ true = ground arith in rw even
