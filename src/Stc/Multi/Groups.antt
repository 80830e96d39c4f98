-- ===== src/Stc/Multi/Groups.antt =====
-- Groups of a multiproof: which indices a group has, and what the two sides make of one.
use capsule_tech.Common.{
  ℕ, zero, suc, ◌+◌, ◌*◌, ◌/◌, ◌≤◌, ◌<◌, ◌≡◌, refl, ◌∙◌, inl, inr, Bool, true, false, ◌&&◌, ◌||◌,
  List, [], ◌∷◌, ==_iff, ==_refl, ◌==◌, Bool-cases, if◌then◌else◌, arith,
}
use native.Mathlib.Nat.{div-mul-le_self, lt-div-mul-add, div-eq_of_lt-le, add-mul}
use capsule_tech.Common.Ascending.{add}
use capsule_tech.Stc.Kary.{clamp}
use capsule_tech.Stc.Kary.Group.{clamp_below}
use capsule_tech.Stc.Multi.{mem, mark}

pub mem-add : (j a : ℕ) (xs : List ℕ) → mem j (add a xs) ≡ ((a == j) || mem j xs)
unfolding mem add
mem-add j a [] = refl
mem-add j a (x ∷ xs) = ground (arith, mem-add j a xs)

-- Whether one of the places of a group, from `pos` on, is `i`
unfoldable pub hit : ℕ → ℕ → ℕ → ℕ → Bool
hit zero pos size i = false
hit (suc left) pos size i = (clamp size pos == i) || hit left (pos + 1) size i

bool_ext : (a b : Bool) → (a ≡ true → b ≡ true) → (b ≡ true → a ≡ true) → a ≡ b
bool_ext true true p q = refl
bool_ext false false p q = refl
bool_ext true false p q = cc (p refl)
bool_ext false true p q = cc (q refl)

hit-range :
    (left pos start size i : ℕ)
    → start ≤ pos
    → start < size
    → hit left pos size i ≡ true
    → (start ≤ i) × (i < pos + left)
unfolding hit
hit-range zero pos start size i low inside h = absurd (cc)
hit-range (suc left) pos start size i low inside h = elim (Bool-cases (clamp size pos == i)) [
  | inl same ↦ let at : clamp size pos ≡ i = (==_iff (clamp size pos) i).0 same in ground (arith)
  | inr other ↦
      let (a, b) = hit-range left (pos + 1) start size i (omega arith) inside (rw other at h) in
      (a, omega arith)
]

hit_of : (left pos size i : ℕ) → pos ≤ i → i < pos + left → i < size → hit left pos size i ≡ true
unfolding hit
hit_of zero pos size i low high inside = absurd (omega arith)
hit_of (suc left) pos size i low high inside = elim (Bool-cases (pos == i)) [
  | inl same ↦ rw ((==_iff pos i).0 same, clamp_below size i inside, ==_refl i) refl
  | inr other ↦
      let rest = hit_of left (pos + 1) size i (ground arith) (omega arith) inside in
      rw rest (ground arith)
]

-- The group of an index in range has the indices that the arity divides alike.
pub hit_group :
    (arity g size i : ℕ)
    → 0 < arity
    → g * arity < size
    → i < size
    → hit arity (g * arity) size i ≡ (i / arity == g)
hit_group arity g size i pos inside below =
    bool_ext (hit arity (g * arity) size i) (i / arity == g)
      (λ h.
        let (low, high) = hit-range arity (g * arity) (g * arity) size i (omega arith) inside h in
        (==_iff (i / arity) g).1 (div-eq_of_lt-le arity low (omega (arith, add-mul g 1 arity))))
      (λ e.
        let same : i / arity ≡ g = (==_iff (i / arity) g).0 e in
        hit_of arity (g * arity) size i (rw (← same) (div-mul-le_self i arity))
          (rw (← same) (lt-div-mul-add pos)) below)

mem_if :
    (c : ℕ) (more : Bool) (current used : List ℕ) (i : ℕ)
    → (mem i (if mem c current then c ∷ used else used) || (more && mem i current))
      ≡ (mem i used || (((c == i) || more) && mem i current))
unfolding mem
mem_if c more current used i = elim (Bool-cases (c == i)) [
  | inl same ↦
      let e : c ≡ i = (==_iff c i).0 same in
      elim (Bool-cases (mem i current)) [
        | inl isin ↦ rw (e, isin, ==_refl i) (ground arith)
        | inr out ↦ rw (e, out, ==_refl i) (ground arith)
      ]
  | inr other ↦ elim (Bool-cases (mem c current)) [
    | inl isin ↦ rw (isin, other) refl
    | inr out ↦ rw (out, other) refl
  ]
]

-- What the prover marks as used
pub mem-mark :
    (left pos size : ℕ) (current used : List ℕ) (i : ℕ)
    → mem i (mark left pos size current used)
      ≡ (mem i used || (hit left pos size i && mem i current))
unfolding mark hit mem
mem-mark zero pos size current used i = ground (arith)
mem-mark (suc left) pos size current used i =
    mem-mark left (pos + 1) size current
      (if mem (clamp size pos) current then clamp size pos ∷ used else used) i
    ∙ mem_if (clamp size pos) (hit left (pos + 1) size i) current used i
