-- ===== src/Common/Ascending.antt =====
-- `sorted(set(...))` of integers: sets as strictly ascending lists.
use Prim.Native.Nat.{ℕ, ◌<◌}
use mathlib.Core.Path.{◌≡◌, refl}
use mathlib.Core.Logic.{◌⊎◌, inl, inr}
use mathlib.Core.List.{List, [], ◌∷◌}
use native.Mathlib.Omega.{arith}
use capsule_tech.Common.Tests.{ltb, ◌==◌, if◌then◌else◌, Bool-cases}
use capsule_tech.Common.Lists.{All}

-- Every element of the list lies above `n`.
abbrev pub Above : ℕ → List ℕ → Type 0
Above n [] = Unit
Above n (x ∷ xs) = n < x

abbrev pub Ascending : List ℕ → Type 0
Ascending [] = Unit
Ascending (x ∷ xs) = Above x xs × Ascending xs

abbrev pub In : ℕ → List ℕ → Type 0
In a [] = ⊥
In a (x ∷ xs) = (a ≡ x) ⊎ In a xs

-- `s.add(a)`
unfoldable pub add : ℕ → List ℕ → List ℕ
add a [] = a ∷ []
add a (x ∷ xs) = if a == x then x ∷ xs else if ltb a x then a ∷ x ∷ xs else x ∷ add a xs

Above-add : (n a : ℕ) (xs : List ℕ) → n < a → Above n xs → Above n (add a xs)
unfolding add
Above-add n a [] p q = p
Above-add n a (x ∷ xs) p q = ground arith

pub add-Ascending : (a : ℕ) (xs : List ℕ) → Ascending xs → Ascending (add a xs)
unfolding add
add-Ascending a [] h = (tt, tt)
add-Ascending a (x ∷ xs) h = ground (arith, Above-add x a xs, add-Ascending a xs h.1)

pub In-add_self : (a : ℕ) (xs : List ℕ) → In a (add a xs)
unfolding add
In-add_self a [] = inl refl
In-add_self a (x ∷ xs) = ground (arith, In-add_self a xs)

pub In-add : (a b : ℕ) (xs : List ℕ) → In b xs → In b (add a xs)
unfolding add
In-add a b [] h = absurd h
In-add a b (x ∷ xs) h = ground (arith, In-add a b xs)

pub add-All {ℓ} : (P : ℕ → Type ℓ) (a : ℕ) (xs : List ℕ) → P a → All P xs → All P (add a xs)
unfolding add
add-All P a [] p h = (p, tt)
add-All P a (x ∷ xs) p h = elim (Bool-cases (a == x)) [
  | inl same ↦ rw same h
  | inr other ↦ elim (Bool-cases (ltb a x)) [
    | inl below ↦ rw (other, below) (p, h)
    | inr above ↦ rw (other, above) (h.0, add-All P a xs p h.1)
  ]
]
