-- ===== src/Stc/Multi/Whole.antt =====
-- Whole multiproofs: `multiproof` and `verify_multiproof` on a tree whose nodes are the hashes of their
-- groups.
use capsule_tech.Common.{
  ℕ, zero, suc, ◌+◌, ◌-◌, ◌*◌, ◌/◌, ◌≤◌, ◌<◌, max, ◌≡◌, ◌≢◌, refl, ap, ◌∙◌, Bool, true, false, none,
  some, List, [], ◌∷◌, ==_refl, ◌==◌, if◌then◌else◌, length, ok, arith,
}
use native.Mathlib.Nat.{le-div_iff_mul-le}
use capsule_tech.Common.Ascending.{Ascending}
use capsule_tech.Common.Dict.{Dict, get}
use capsule_tech.Common.Bytes.{Bytes, Sha}
use capsule_tech.Stc.Merkle.{Levels, root_from_levels}
use capsule_tech.Stc.Kary.Group.{node_at}
use capsule_tech.Stc.Kary.Above.{ceil_div, ceil_div_pred}
use capsule_tech.Stc.Multi.{mem, sorted_keys, multi_from, check_levels}
use capsule_tech.Stc.Multi.Shown.{Agrees}
use capsule_tech.Stc.Multi.Sets.{has, same_members, sorted_keys-Ascending, mem-sorted_keys}
use capsule_tech.Stc.Multi.Layers.{Parents, Layered, level_of}

-- A tree whose nodes are the hashes of their groups, level by level, up to a root
abbrev pub Regular : Sha → ℕ → Levels → Type 0
Regular h arity [] = ⊥
Regular h arity (level ∷ []) = length level ≡ 1
Regular h arity (level ∷ up ∷ above) =
    Parents h arity level up
    × (length up ≡ max 1 (ceil_div (length level) arity))
    × Regular h arity (up ∷ above)

-- The group that starts below the size of a level is one of the level above.
group-lt : (j arity size : ℕ) → 0 < arity → j * arity < size → j < max 1 (ceil_div size arity)
group-lt j arity size pos lt =
    let q = (size - 1) / arity in
    let count : ceil_div size arity ≡ q + 1 = ceil_div_pred size arity pos (omega arith) in
    let below : j ≤ q = (le-div_iff_mul-le pos).1 (omega arith) in omega (arith, count, below)

-- The verifier's indices are those that its nodes are known at.
pub keys_of :
    (level : List Bytes) (current : List ℕ) (nodes : Dict Bytes)
    → Agrees level current nodes
    → Ascending current
    → sorted_keys [] nodes ≡ current
unfolding mem
keys_of level current nodes agrees asc =
    same_members (sorted_keys [] nodes) current (sorted_keys-Ascending [] nodes tt) asc (λ i.
      mem-sorted_keys [] nodes i ∙ ap has (agrees i) ∙ has_known (mem i current) (node_at level i))
  where
    has_known : (isin : Bool) (d : Bytes) → has (if isin then some d else none) ≡ isin
    has_known true d = refl
    has_known false d = refl

module _ (h : Sha) (arity : ℕ) (pos : 0 < arity) where
  pub record Checked (level : List Bytes) (above : Levels) (current : List ℕ) (nodes : Dict Bytes)
      : Type 0 where
    pub levels : List (List Bytes)
    pub top : Dict Bytes
    pub root : Bytes
    pub runs : multi_from (level ∷ above) current arity ≡ ok levels
    pub checks : check_levels h (length level) arity levels nodes ≡ ok (some top)
    pub rooted : root_from_levels (level ∷ above) ≡ ok root
    pub at_root : get top 0 ≡ some root

  Checked-top :
      (level : List Bytes) (current : List ℕ) (nodes : Dict Bytes)
      → length level ≡ 1
      → Agrees level current nodes
      → mem 0 current ≡ true
      → Checked level [] current nodes
  unfolding multi_from check_levels root_from_levels
  Checked-top [] current nodes one agrees own = absurd (omega arith)
  Checked-top (d ∷ e ∷ level) current nodes one agrees own = absurd (omega arith)
  Checked-top (d ∷ []) current nodes one agrees own = record {
    levels = [];
    top = nodes;
    root = d;
    runs = refl;
    checks = refl;
    rooted = refl;
    at_root = rw (agrees 0, own) refl;
  }

  Checked-step :
      (level up : List Bytes) (above : Levels) (current : List ℕ) (nodes : Dict Bytes)
      → length up ≡ max 1 (ceil_div (length level) arity)
      → Agrees level current nodes
      → Ascending current
      → (l : Layered h arity level up current nodes current [] [] [] [])
      → Checked up above l.found l.nodes_above
      → Checked level (up ∷ above) current nodes
  unfolding multi_from check_levels root_from_levels
  Checked-step level up above current nodes size agrees asc l c =
      let some_arity : (arity == 0) ≡ false = ground arith in
      record {
        levels = l.siblings ∷ c.levels;
        top = c.top;
        root = c.root;
        runs = rw some_arity (rw l.runs (rw c.runs refl));
        checks =
            rw (some_arity, keys_of level current nodes agrees asc)
              (rw l.checks (rw (← size) c.checks));
        rooted = c.rooted;
        at_root = c.at_root;
      }

  zero_in :
      (current : List ℕ)
      → current ≢ []
      → ((i : ℕ) → mem i current ≡ true → i < 1)
      → mem 0 current ≡ true
  unfolding mem
  zero_in [] some_index inside = absurd (some_index refl)
  zero_in (zero ∷ current) some_index inside = refl
  zero_in (suc i ∷ current) some_index inside =
      let low = inside (suc i) (rw (==_refl (suc i)) refl) in absurd (omega arith)

  pub checked :
      (level : List Bytes) (above : Levels) (current : List ℕ) (nodes : Dict Bytes)
      → Regular h arity (level ∷ above)
      → Agrees level current nodes
      → Ascending current
      → current ≢ []
      → ((i : ℕ) → mem i current ≡ true → i < length level)
      → Checked level above current nodes
  unfolding mem
  checked level [] current nodes one agrees asc some_index inside =
      Checked-top level current nodes one agrees
        (zero_in current some_index (λ i isin. rw one at (inside i isin)))
  checked level (up ∷ above) current nodes (parents, size, regular) agrees asc some_index inside =
      let l = level_of h arity level up current nodes pos agrees parents inside in
      Checked-step level up above current nodes size agrees asc l (
        checked up above l.found l.nodes_above regular l.agrees l.ascending
          (λ z. busy current some_index (l.idle z))
          (λ j isin. rw size (group-lt j arity (length level) pos (l.within j isin))))
    where
      busy :
          (current : List ℕ) → current ≢ [] → ((i : ℕ) → mem i current ≡ true → mem i [] ≡ true) → ⊥
      busy [] some_index idle = some_index refl
      busy (idx ∷ current) some_index idle =
          let no = idle idx (rw (==_refl idx) refl) in absurd (cc)
