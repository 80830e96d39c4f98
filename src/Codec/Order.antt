-- ===== src/Codec/Order.antt =====
-- The order of byte strings and a stable sort by it, as Python's `list.sort(key=...)`.
use mathlib.Core.List.{List, [], ◌∷◌}
use capsule_tech.Common.{
  ◌≡◌, refl, Bool, true, false, ltb, ◌==◌, if◌then◌else◌, inl, inr, Bool-cases, arith,
}
use capsule_tech.Common.Bytes.{Bytes}

-- `a < b` on bytes
unfoldable pub bytes_lt : Bytes → Bytes → Bool
bytes_lt a [] = false
bytes_lt [] (y ∷ ys) = true
bytes_lt (x ∷ xs) (y ∷ ys) = if ltb x y then true else if x == y then bytes_lt xs ys else false

pub bytes_lt_asym : (a b : Bytes) → bytes_lt a b ≡ true → bytes_lt b a ≡ false
unfolding bytes_lt
bytes_lt_asym [] [] h = refl
bytes_lt_asym [] (y ∷ ys) h = refl
bytes_lt_asym (x ∷ xs) [] h = cc
bytes_lt_asym (x ∷ xs) (y ∷ ys) h = ground (arith, bytes_lt_asym xs ys)

module _ {ℓ} {A : Type ℓ} (key : A → Bytes) where
  -- Before the first element whose key is not smaller, so that a sort from the right is stable.
  unfoldable pub insert : A → List A → List A
  unfolding bytes_lt
  insert x [] = x ∷ []
  insert x (y ∷ ys) = if bytes_lt (key y) (key x) then y ∷ insert x ys else x ∷ y ∷ ys

  unfoldable pub sort : List A → List A
  unfolding insert
  sort [] = []
  sort (x ∷ xs) = insert x (sort xs)

  -- No key of the list is smaller than `k`, and none smaller than one before it.
  abbrev pub From : Bytes → List A → Type 0
  From k [] = Unit
  From k (x ∷ xs) = bytes_lt (key x) k ≡ false

  abbrev pub Sorted : List A → Type 0
  Sorted [] = Unit
  Sorted (x ∷ xs) = From (key x) xs × Sorted xs

  From-insert :
      (k : Bytes) (x : A) (xs : List A)
      → bytes_lt (key x) k ≡ false
      → From k xs
      → From k (insert x xs)
  unfolding insert
  From-insert k x [] p q = p
  From-insert k x (y ∷ ys) p q = elim (Bool-cases (bytes_lt (key y) (key x))) [
    | inl below ↦ rw below q
    | inr above ↦ rw above p
  ]

  insert-Sorted : (x : A) (xs : List A) → Sorted xs → Sorted (insert x xs)
  unfolding insert
  insert-Sorted x [] s = (tt, tt)
  insert-Sorted x (y ∷ ys) s = elim (Bool-cases (bytes_lt (key y) (key x))) [
    | inl below ↦
        rw below (
          From-insert (key y) x ys (bytes_lt_asym (key y) (key x) below) s.0,
          insert-Sorted x ys s.1,
        )
    | inr above ↦ rw above (above, s)
  ]

  pub sort-Sorted : (xs : List A) → Sorted (sort xs)
  unfolding sort
  sort-Sorted [] = tt
  sort-Sorted (x ∷ xs) = insert-Sorted x (sort xs) (sort-Sorted xs)

-- Two lists, element for element.
abbrev pub Both {ℓ κ} : {A : Type ℓ} {B : Type κ} → (A → B → Type 0) → List A → List B → Type 0
Both R [] [] = Unit
Both R [] (y ∷ ys) = ⊥
Both R (x ∷ xs) [] = ⊥
Both R (x ∷ xs) (y ∷ ys) = R x y × Both R xs ys

-- Lists that are related through their keys are sorted alike.
module _ {ℓ κ} {A : Type ℓ} {B : Type κ} (f : A → Bytes) (g : B → Bytes) (R : A → B → Type 0)
    (same : (x : A) (y : B) → R x y → f x ≡ g y) where
  insert-Both :
      (x : A) (y : B) (xs : List A) (ys : List B)
      → R x y
      → Both R xs ys
      → Both R (insert f x xs) (insert g y ys)
  unfolding insert
  insert-Both x y [] [] r b = (r, tt)
  insert-Both x y [] (w ∷ ws) r b = absurd b
  insert-Both x y (z ∷ zs) [] r b = absurd b
  insert-Both x y (z ∷ zs) (w ∷ ws) r b =
      rw (same x y r, same z w b.0)
        (elim (Bool-cases (bytes_lt (g w) (g y))) [
          | inl below ↦ rw below (b.0, insert-Both x y zs ws r b.1)
          | inr above ↦ rw above (r, b)
        ])

  pub sort-Both : (xs : List A) (ys : List B) → Both R xs ys → Both R (sort f xs) (sort g ys)
  unfolding sort
  sort-Both [] [] b = tt
  sort-Both [] (y ∷ ys) b = absurd b
  sort-Both (x ∷ xs) [] b = absurd b
  sort-Both (x ∷ xs) (y ∷ ys) b = insert-Both x y (sort f xs) (sort g ys) b.0 (sort-Both xs ys b.1)
