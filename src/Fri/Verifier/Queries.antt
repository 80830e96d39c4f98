-- ===== src/Fri/Verifier/Queries.antt =====
-- What one query of bef_zk/fri/verifier.py checks.
use capsule_tech.Common.{
  ℕ, zero, suc, ◌+◌, ◌*◌, ◌/◌, ◌%◌, ◌≡◌, ◌↔◌, refl, sym, ap, ◌∙◌, Bool-cases, true, Option, none,
  some, List, [], ◌∷◌, ◌==◌, if◌then◌else◌, ==_iff, Option-cases, &&_parts, inl, inr, arith,
}
use mathlib.Core.Option.{some-injective}
use capsule_tech.Common.Dict.{Dict, get}
use capsule_tech.Common.Field.{modulus}
use capsule_tech.Fri.Verifier.{open_pair, final_matches, first_matches, check_rounds}

-- The two places below the parent of `cur` are opened, with these values.
pub record PairAt (values : Dict ℕ) (cur : ℕ) (even odd : ℕ) : Type 0 where
  pub at_even : get values (cur / 2 * 2) ≡ some even
  pub at_odd : get values (cur / 2 * 2 + 1) ≡ some odd

open_pair-eq_iff :
    (values : Dict ℕ) (cur even odd : ℕ)
    → (open_pair values cur ≡ some (even, odd)) ↔ PairAt values cur even odd
unfolding open_pair
open_pair-eq_iff values cur even odd = (λ h. ground arith, λ p. ground arith)

-- All rounds find their pair, and the last fold is the last layer's value.
abbrev pub LastFold : List (ℕ × Dict ℕ) → ℕ → Type 0
LastFold [] cur = ⊥
LastFold (last ∷ []) cur = ⊥
LastFold ((beta, values) ∷ (beta', final) ∷ []) cur =
    (even : ℕ) × (odd : ℕ) × PairAt values cur even odd
    × (get final (cur / 2) ≡ some ((even + beta * odd) % modulus))
LastFold ((beta, values) ∷ next ∷ after ∷ rest) cur =
    (even : ℕ) × (odd : ℕ) × PairAt values cur even odd × LastFold (next ∷ after ∷ rest) (cur / 2)

final_matches-eq_iff :
    (found : Option ℕ) (folded : ℕ)
    → (final_matches found (some folded) ≡ true) ↔ (found ≡ some folded)
unfolding final_matches
final_matches-eq_iff none folded = (λ h. cc, λ h. cc)
final_matches-eq_iff (some v) folded = (λ h. ground arith, λ h. ground arith)

-- One round that is not the last: what it needs, and what it leaves to the next.
record Round (r : ℕ) (layer next : ℕ × Dict ℕ) (rest : List (ℕ × Dict ℕ)) (cur expected : ℕ)
    : Type 0 where
  even : ℕ
  odd : ℕ
  opened : open_pair layer.1 cur ≡ some (even, odd)
  first : first_matches r cur (even, odd) expected ≡ true
  later :
      check_rounds
        (suc r)
        (next ∷ rest)
        (cur / 2)
        expected
        (some ((even + layer.0 * odd) % modulus))
      ≡ true

check_rounds-Round :
    (r : ℕ) (layer next : ℕ × Dict ℕ) (rest : List (ℕ × Dict ℕ)) (cur expected : ℕ)
    (folded : Option ℕ)
    → check_rounds r (layer ∷ next ∷ rest) cur expected folded ≡ true
    → Round r layer next rest cur expected
unfolding check_rounds
check_rounds-Round r layer next rest cur expected folded h =
    elim (Option-cases (open_pair layer.1 cur)) [
      | inl missing ↦ cc (rw (missing, check_rounds) at h)
      | inr (pair, e) ↦
          let (first, later) = &&_parts _ _ (rw (e, check_rounds) at h) in
          record { even = pair.0; odd = pair.1; opened = e; first = first; later = later }
    ]

Round-check_rounds :
    (r : ℕ) (layer next : ℕ × Dict ℕ) (rest : List (ℕ × Dict ℕ)) (cur expected : ℕ)
    (folded : Option ℕ)
    → Round r layer next rest cur expected
    → check_rounds r (layer ∷ next ∷ rest) cur expected folded ≡ true
unfolding check_rounds
Round-check_rounds r layer next rest cur expected folded w =
    rw (w.opened, check_rounds) (rw (w.first) w.later)

check_rounds-single :
    (r : ℕ) (layer : ℕ × Dict ℕ) (cur expected : ℕ) (folded : Option ℕ)
    → check_rounds r (layer ∷ []) cur expected folded ≡ final_matches (get layer.1 cur) folded
unfolding check_rounds
check_rounds-single r layer cur expected folded = refl

-- From any round on: the rest of a query is accepted exactly if it has its last fold.
module _ (expected : ℕ) where
  check_later_sound :
      (layers : List (ℕ × Dict ℕ)) (r : ℕ) (first second : ℕ × Dict ℕ) (cur : ℕ) (folded : Option ℕ)
      → Round r first second layers cur expected
      → LastFold (first ∷ second ∷ layers) cur
  check_later_sound [] r first second cur folded w =
      let e = check_rounds-single (suc r) second (cur / 2) expected _ in
      (
        w.even,
        w.odd,
        (open_pair-eq_iff _ cur _ _).0 w.opened,
        (final_matches-eq_iff _ _).0 (sym e ∙ w.later),
      )
  check_later_sound (third ∷ layers) r first second cur folded w = (
    w.even,
    w.odd,
    (open_pair-eq_iff _ cur _ _).0 w.opened,
    check_later_sound layers (suc r) second third (cur / 2) none
        (check_rounds-Round (suc r) second third layers (cur / 2) expected _ w.later),
  )

  check_later_complete :
      (layers : List (ℕ × Dict ℕ)) (r : ℕ) (first second : ℕ × Dict ℕ) (cur : ℕ) (folded : Option ℕ)
      → LastFold (first ∷ second ∷ layers) cur
      → check_rounds (suc r) (first ∷ second ∷ layers) cur expected folded ≡ true
  unfolding first_matches
  check_later_complete [] r first second cur folded (even, odd, p, final) =
      Round-check_rounds (suc r) first second [] cur expected folded (record {
        even = even;
        odd = odd;
        opened = (open_pair-eq_iff _ cur _ _).1 p;
        first = refl;
        later =
            check_rounds-single (suc (suc r)) second (cur / 2) expected _
            ∙ (final_matches-eq_iff _ _).1 final;
      })
  check_later_complete (third ∷ layers) r first second cur folded (even, odd, p, rest) =
      Round-check_rounds (suc r) first second (third ∷ layers) cur expected folded (record {
        even = even;
        odd = odd;
        opened = (open_pair-eq_iff _ cur _ _).1 p;
        first = refl;
        later = check_later_complete layers (suc r) second third (cur / 2) _ rest;
      })

value_at_query :
    (values : Dict ℕ) (cur even odd : ℕ)
    → PairAt values cur even odd
    → get values cur ≡ some (if cur % 2 == 0 then even else odd)
value_at_query values cur even odd p = elim (Bool-cases (cur % 2 == 0)) [
  | inl e ↦
      let place : cur / 2 * 2 ≡ cur = omega (arith, (==_iff (cur % 2) 0).0 e) in
      rw e (rw place at p.at_even)
  | inr o ↦ let place : cur / 2 * 2 + 1 ≡ cur = ground arith in rw o (rw place at p.at_odd)
]

first_matches_iff :
    (values : Dict ℕ) (cur even odd expected : ℕ)
    → PairAt values cur even odd
    → (first_matches zero cur (even, odd) expected ≡ true) ↔ (get values cur ≡ some expected)
unfolding first_matches
first_matches_iff values cur even odd expected p =
    let found = value_at_query values cur even odd p in
    let shown : ℕ = if cur % 2 == 0 then even else odd in
    let same = ==_iff shown expected in
    ((λ h. found ∙ ap some (same.0 h)), λ e. same.1 (some-injective shown expected (sym found ∙ e)))

first_later :
    (expected : ℕ) (layers : List (ℕ × Dict ℕ)) (first second : ℕ × Dict ℕ) (cur : ℕ)
    → LastFold (first ∷ second ∷ layers) cur
    → get first.1 cur ≡ some expected
    → Round zero first second layers cur expected
first_later expected [] first second cur (even, odd, p, final) shown = record {
  even = even;
  odd = odd;
  opened = (open_pair-eq_iff _ cur _ _).1 p;
  first = (first_matches_iff first.1 cur even odd expected p).1 shown;
  later = check_rounds-single 1 second (cur / 2) expected _ ∙ (final_matches-eq_iff _ _).1 final;
}
first_later expected (third ∷ layers) first second cur (even, odd, p, rest) shown = record {
  even = even;
  odd = odd;
  opened = (open_pair-eq_iff _ cur _ _).1 p;
  first = (first_matches_iff first.1 cur even odd expected p).1 shown;
  later = check_later_complete expected layers zero second third (cur / 2) _ rest;
}

-- With two layers or more, one query is accepted exactly if every layer but the last opens the pair
-- that the query's path goes through, the first layer shows the expected value at the queried index,
-- and the last layer shows the fold of the pair before it. Folds between earlier layers do not count.
pub check_rounds_iff :
    (expected : ℕ) (layers : List (ℕ × Dict ℕ)) (first second : ℕ × Dict ℕ) (cur : ℕ)
    → (check_rounds zero (first ∷ second ∷ layers) cur expected none ≡ true)
      ↔ (LastFold (first ∷ second ∷ layers) cur × (get first.1 cur ≡ some expected))
check_rounds_iff expected layers first second cur = (
  (λ h.
      let w = check_rounds-Round zero first second layers cur expected none h in
      let p = (open_pair-eq_iff first.1 cur w.even w.odd).0 w.opened in
      (
        check_later_sound expected layers zero first second cur none w,
        (first_matches_iff first.1 cur w.even w.odd expected p).0 w.first,
      )),
  (λ (f, shown).
      Round-check_rounds zero first second layers cur expected none
        (first_later expected layers first second cur f shown)),
)

-- With three layers or more the first round's challenge does not enter the verdict on a query.
pub first_challenge_unused :
    (expected : ℕ) (layers : List (ℕ × Dict ℕ)) (beta beta' : ℕ) (values : Dict ℕ)
    (second third : ℕ × Dict ℕ) (cur : ℕ)
    → check_rounds zero ((beta, values) ∷ second ∷ third ∷ layers) cur expected none ≡ true
    → check_rounds zero ((beta', values) ∷ second ∷ third ∷ layers) cur expected none ≡ true
first_challenge_unused expected layers beta beta' values second third cur h =
    (check_rounds_iff expected (third ∷ layers) (beta', values) second cur).1
      ((check_rounds_iff expected (third ∷ layers) (beta, values) second cur).0 h)
