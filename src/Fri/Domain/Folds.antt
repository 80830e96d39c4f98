-- ===== src/Fri/Domain/Folds.antt =====
-- The values of one fold of bef_zk/fri/domain.py.
use capsule_tech.Common.{
  ℕ, zero, suc, ◌+◌, ◌*◌, ◌/◌, ◌%◌, ◌<◌, ◌≡◌, some, List, [], ◌∷◌, length, get_elem?, All, arith,
}
use native.Mathlib.Nat.{mod-lt}
use capsule_tech.Fri.Domain.{fold_pairs}

pub length-fold_pairs :
    (alpha m : ℕ) (values : List ℕ) → length (fold_pairs alpha m values) ≡ length values / 2
unfolding fold_pairs
length-fold_pairs alpha m [] = omega arith
length-fold_pairs alpha m (a ∷ []) = omega arith
length-fold_pairs alpha m (a ∷ b ∷ rest) = omega (arith, length-fold_pairs alpha m rest)

-- Place `j` of the fold is computed from the places `2 j` and `2 j + 1`.
pub get_elem?-fold_pairs :
    (alpha m : ℕ) (values : List ℕ) (j : ℕ) (a b : ℕ)
    → get_elem? values (j * 2) ≡ some a
    → get_elem? values (j * 2 + 1) ≡ some b
    → get_elem? (fold_pairs alpha m values) j ≡ some ((a + alpha * b) % m)
unfolding fold_pairs
get_elem?-fold_pairs alpha m [] j a b p q = absurd (cc)
get_elem?-fold_pairs alpha m (x ∷ []) zero a b p q = absurd (cc)
get_elem?-fold_pairs alpha m (x ∷ []) (suc j) a b p q =
    let e : suc j * 2 ≡ suc (suc (j * 2)) = omega arith in absurd (cc (rw e at p))
get_elem?-fold_pairs alpha m (x ∷ y ∷ rest) zero a b p q = cc
get_elem?-fold_pairs alpha m (x ∷ y ∷ rest) (suc j) a b p q =
    let e : suc j * 2 ≡ suc (suc (j * 2)) = omega arith in
    let f : suc j * 2 + 1 ≡ suc (suc (j * 2 + 1)) = omega arith in
    get_elem?-fold_pairs alpha m rest j a b (rw e at p) (rw f at q)

pub fold_pairs-lt :
    (alpha m : ℕ) (values : List ℕ) → 0 < m → All (λ v. v < m) (fold_pairs alpha m values)
unfolding fold_pairs
fold_pairs-lt alpha m [] p = tt
fold_pairs-lt alpha m (a ∷ []) p = tt
fold_pairs-lt alpha m (a ∷ b ∷ rest) p = (mod-lt (a + alpha * b) p, fold_pairs-lt alpha m rest p)
