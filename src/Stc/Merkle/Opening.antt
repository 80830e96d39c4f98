-- ===== src/Stc/Merkle/Opening.antt =====
-- How one level of the binary tree of bef_zk/stc/merkle.py stands to the next: what `prove` picks
-- as the sibling is what `verify` needs to compute the parent.
use capsule_tech.Common.{
  ℕ, zero, suc, ◌/◌, ◌≡◌, refl, ap, some, List, [], ◌∷◌, length, get_elem?, arith,
}
use mathlib.Core.Option.{some-injective}
use capsule_tech.Common.Bytes.{Bytes, Sha}
use capsule_tech.Stc.Merkle.{sibling_of, pair_up, hash_pair, fold_sibling}

sibling_of_shift : (n i : ℕ) → sibling_of (suc (suc n)) (suc (suc i)) ≡ suc (suc (sibling_of n i))
unfolding sibling_of
sibling_of_shift n i = ground arith

sibling_of_alone : sibling_of 1 zero ≡ zero
unfolding sibling_of
sibling_of_alone = refl

sibling_of_first : (n : ℕ) → sibling_of (suc (suc n)) zero ≡ suc zero
unfolding sibling_of
sibling_of_first n = ground arith

sibling_of_second : (n : ℕ) → sibling_of (suc (suc n)) (suc zero) ≡ zero
unfolding sibling_of
sibling_of_second n = ground arith

half_shift : (i : ℕ) → suc (suc i) / 2 ≡ suc (i / 2)
half_shift i = omega arith

module _ (h : Sha) where
  -- The opening of one level at `i`: the sibling is there, and the parent is computed from it.
  pub record Opens (l : List Bytes) (i : ℕ) (x : Bytes) : Type 0 where
    pub sibling : Bytes
    pub found : get_elem? l (sibling_of (length l) i) ≡ some sibling
    pub parent : get_elem? (pair_up h l) (i / 2) ≡ some (fold_sibling h i x sibling)

  fold_sibling_shift :
      (i : ℕ) (x s : Bytes) → fold_sibling h (suc (suc i)) x s ≡ fold_sibling h i x s
  unfolding fold_sibling
  fold_sibling_shift i x s = ground arith

  fold_sibling_left :
      (a b x : Bytes) → some a ≡ some x → some (hash_pair h a b) ≡ some (fold_sibling h zero x b)
  unfolding fold_sibling
  fold_sibling_left a b x e = ap (λ y. some (hash_pair h y b)) (some-injective _ x e)

  fold_sibling_right :
      (a b x : Bytes) → some b ≡ some x → some (hash_pair h a b) ≡ some (fold_sibling h 1 x a)
  unfolding fold_sibling
  fold_sibling_right a b x e = ap (λ y. some (hash_pair h a y)) (some-injective _ x e)

  pub level-Opens : (l : List Bytes) (i : ℕ) (x : Bytes) → get_elem? l i ≡ some x → Opens l i x
  unfolding pair_up
  level-Opens [] i x e = absurd (cc)
  level-Opens (a ∷ []) zero x e = record {
    sibling = a;
    found = rw sibling_of_alone;
    parent = fold_sibling_left a a x e;
  }
  level-Opens (a ∷ []) (suc i) x e = absurd (cc)
  level-Opens (a ∷ b ∷ r) zero x e = record {
    sibling = b;
    found = rw (sibling_of_first (length r));
    parent = fold_sibling_left a b x e;
  }
  level-Opens (a ∷ b ∷ r) (suc zero) x e = record {
    sibling = a;
    found = rw (sibling_of_second (length r));
    parent = fold_sibling_right a b x e;
  }
  level-Opens (a ∷ b ∷ r) (suc (suc i)) x e =
      let o = level-Opens r i x e in
      record {
        sibling = o.sibling;
        found = rw (sibling_of_shift (length r) i) o.found;
        parent = rw (half_shift i, fold_sibling_shift i x o.sibling) o.parent;
      }
