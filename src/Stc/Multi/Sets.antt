-- ===== src/Stc/Multi/Sets.antt =====
-- Sorted sets of a multiproof: two ascending lists with the same members are one list.
use capsule_tech.Common.{
  ℕ, ◌≤◌, ◌<◌, ◌≡◌, refl, sym, ◌∙◌, Bool, true, false, ◌||◌, Option, none, some, List, [], ◌∷◌,
  ==_refl, ◌==◌, if◌then◌else◌, arith,
}
use native.Mathlib.Decide.{dec_lt}
use capsule_tech.Common.Ascending.{Above, Ascending, add, add-Ascending}
use capsule_tech.Common.Dict.{Dict, get}
use capsule_tech.Common.Bytes.{Bytes}
use capsule_tech.Stc.Multi.{mem, sorted_keys, sorted_set}
use capsule_tech.Stc.Multi.Groups.{mem-add}

not_same : (a b : ℕ) → b < a → (a == b) ≡ false
not_same a b lt = ground arith

-- An element that is not above the bound of a list is not in it.
mem-below : (i n : ℕ) (xs : List ℕ) → Above n xs → Ascending xs → i ≤ n → mem i xs ≡ false
unfolding mem
mem-below i n [] above asc le = refl
mem-below i n (x ∷ xs) above (over, asc) le =
    rw (not_same x i (omega arith)) (mem-below i x xs over asc (omega arith))

mem-head : (x : ℕ) (xs : List ℕ) → mem x (x ∷ xs) ≡ true
unfolding mem
mem-head x xs = rw (==_refl x) refl

mem-later : (i x : ℕ) (xs : List ℕ) → x < i → mem i (x ∷ xs) ≡ mem i xs
unfolding mem
mem-later i x xs lt = ground arith

below_all : (x y : ℕ) (ys : List ℕ) → Above y ys → Ascending ys → x < y → mem x (y ∷ ys) ≡ false
unfolding mem
below_all x y ys above asc lt = rw (not_same y x lt) (mem-below x y ys above asc (omega arith))

pub same_members :
    (xs ys : List ℕ) → Ascending xs → Ascending ys → ((i : ℕ) → mem i xs ≡ mem i ys) → xs ≡ ys
unfolding mem
same_members [] [] p q e = refl
same_members [] (y ∷ ys) p q e = let h = sym (mem-head y ys) ∙ sym (e y) in absurd (cc)
same_members (x ∷ xs) [] p q e = let h = sym (mem-head x xs) ∙ e x in absurd (cc)
same_members (x ∷ xs) (y ∷ ys) (over, asc) (over', asc') e = elim (dec_lt x y) [
  | yes lt ↦ let h = sym (mem-head x xs) ∙ e x ∙ below_all x y ys over' asc' lt in absurd (cc)
  | no ge ↦ elim (dec_lt y x) [
    | yes lt ↦ let h = sym (mem-head y ys) ∙ sym (e y) ∙ below_all y x xs over asc lt in absurd (cc)
    | no le ↦
        let same : x ≡ y = omega arith in
        let tails : xs ≡ ys = same_members xs ys asc asc' (λ i. elim (dec_lt x i) [
          | yes lt ↦ sym (mem-later i x xs lt) ∙ e i ∙ mem-later i y ys (omega arith)
          | no ge' ↦
              mem-below i x xs over asc (omega arith)
              ∙ sym (mem-below i y ys over' asc' (omega arith))
        ]) in
        cc (same, tails)
  ]
]

-- Whether a dictionary has an entry
abbrev pub has : Option Bytes → Bool
has none = false
has (some v) = true

pub sorted_keys-Ascending :
    (made : List ℕ) (d : Dict Bytes) → Ascending made → Ascending (sorted_keys made d)
unfolding sorted_keys
sorted_keys-Ascending made [] asc = asc
sorted_keys-Ascending made ((k, v) ∷ d) asc =
    sorted_keys-Ascending (add k made) d (add-Ascending k made asc)

pub mem-sorted_keys :
    (made : List ℕ) (d : Dict Bytes) (i : ℕ)
    → mem i (sorted_keys made d) ≡ (mem i made || has (get d i))
unfolding sorted_keys get
mem-sorted_keys made [] i = ground arith
mem-sorted_keys made ((k, v) ∷ d) i =
    mem-sorted_keys (add k made) d i ∙ rw (mem-add i k made) (by_key (k == i) (mem i made))
  where
    by_key :
        (key was : Bool)
        → ((key || was) || has (get d i)) ≡ (was || has (if key then some v else get d i))
    by_key true true = refl
    by_key true false = refl
    by_key false was = refl

pub sorted_set-Ascending : (made xs : List ℕ) → Ascending made → Ascending (sorted_set made xs)
unfolding sorted_set
sorted_set-Ascending made [] asc = asc
sorted_set-Ascending made (x ∷ xs) asc =
    sorted_set-Ascending (add x made) xs (add-Ascending x made asc)

pub mem-sorted_set :
    (made xs : List ℕ) (i : ℕ) → mem i (sorted_set made xs) ≡ (mem i made || mem i xs)
unfolding sorted_set mem
mem-sorted_set made [] i = ground arith
mem-sorted_set made (x ∷ xs) i =
    mem-sorted_set (add x made) xs i ∙ rw (mem-add i x made) (ground arith)
