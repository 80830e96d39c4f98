-- ===== src/Stc/Kary/Group.antt =====
-- One group of bef_zk/stc/merkle.py's k-ary tree: the siblings that `prove_kary` collects are those that
-- `verify_kary` needs to see the group's children.
use capsule_tech.Common.{
  ℕ, zero, suc, ◌+◌, ◌-◌, ◌<◌, ◌≤◌, ◌≡◌, ◌≢◌, refl, sym, ap, ◌∙◌, true, false, Bool-cases, inl, inr,
  Option, none, some, List, [], ◌∷◌, ◌==◌, ==_iff, le→leb, gt→leb, length, get_elem?,
  get_elem?_total, get_elem?-lt, ok, arith,
}
use native.Mathlib.Decide.{dec_lt}
use capsule_tech.Common.Bytes.{Bytes}
use capsule_tech.Stc.Kary.{clamp, group_siblings, take_children}

pub clamp_below : (n pos : ℕ) → pos < n → clamp n pos ≡ pos
clamp_below n pos lt = rw (gt→leb n pos lt) refl

pub clamp_beyond : (n pos : ℕ) → n ≤ pos → clamp n pos ≡ n - 1
clamp_beyond n pos le = rw (le→leb n pos le) refl

pub clamp-lt : (n pos : ℕ) → 0 < n → clamp n pos < n
clamp-lt n pos some_node = elim (dec_lt pos n) [
  | yes lt ↦ rw (clamp_below n pos lt) lt
  | no ge ↦ rw (clamp_beyond n pos (omega arith)) (omega arith)
]

abbrev pub or_empty : Option Bytes → Bytes
or_empty none = []
or_empty (some d) = d

-- The node at a place of a level, and the children that a group has there, from a place on.
abbrev pub node_at : List Bytes → ℕ → Bytes
node_at level i = or_empty (get_elem? level i)

abbrev pub picked : ℕ → ℕ → List Bytes → List Bytes
picked zero pos level = []
picked (suc left) pos level = node_at level (clamp (length level) pos) ∷ picked left (pos + 1) level

take_hit :
    (left pos n idx : ℕ) (acc : Bytes) (siblings kids rest : List Bytes)
    → (clamp n pos == idx) ≡ true
    → take_children left (pos + 1) n idx acc siblings ≡ some (kids, rest)
    → take_children (suc left) pos n idx acc siblings ≡ some (acc ∷ kids, rest)
unfolding take_children
take_hit left pos n idx acc [] kids rest hit e = rw (hit, take_children) (rw e refl)
take_hit left pos n idx acc (s ∷ siblings) kids rest hit e = rw (hit, take_children) (rw e refl)

take_miss :
    (left pos n idx : ℕ) (acc s : Bytes) (siblings kids rest : List Bytes)
    → (clamp n pos == idx) ≡ false
    → take_children left (pos + 1) n idx acc siblings ≡ some (kids, rest)
    → take_children (suc left) pos n idx acc (s ∷ siblings) ≡ some (s ∷ kids, rest)
unfolding take_children
take_miss left pos n idx acc s siblings kids rest miss e = rw (miss, take_children) (rw e refl)

module _ (level : List Bytes) (idx : ℕ) (acc : Bytes) where
  pub record Grouped (left pos : ℕ) : Type 0 where
    pub siblings : List Bytes
    pub runs : group_siblings left pos level idx ≡ ok siblings
    pub takes :
        take_children left pos (length level) idx acc siblings ≡ some (picked left pos level, [])
    -- Without a sibling every place of the group is the index's own.
    pub hits : siblings ≡ [] → (i : ℕ) → i < left → clamp (length level) (pos + i) ≡ idx

  pub grouped : (left pos : ℕ) → get_elem? level idx ≡ some acc → Grouped left pos
  unfolding group_siblings take_children
  grouped zero pos found = record {
    siblings = [];
    runs = refl;
    takes = refl;
    hits = λ z i lt. absurd (omega arith);
  }
  grouped (suc left) pos found =
      let n = length level in
      let inside = get_elem?-lt level idx found in
      let (d, there) = get_elem?_total level (clamp n pos) (clamp-lt n pos (omega arith)) in
      let rest = grouped left (pos + 1) found in
      elim (Bool-cases (clamp n pos == idx)) [
        | inl hit ↦
            let place : clamp n pos ≡ idx = (==_iff (clamp n pos) idx).0 hit in
            let same : node_at level (clamp n pos) ≡ acc =
              ap (λ (i : ℕ). node_at level i) place ∙ ap or_empty found in
            record {
              siblings = rest.siblings;
              runs = rw (hit, group_siblings) rest.runs;
              takes =
                  take_hit left pos n idx acc rest.siblings (picked left (pos + 1) level) [] hit
                    rest.takes
                  ∙ ap (λ (x : Bytes). some (x ∷ picked left (pos + 1) level, [])) (sym same);
              hits = all_hit left pos place (rest.hits);
            }
        | inr miss ↦ record {
          siblings = d ∷ rest.siblings;
          runs = rw (miss, group_siblings) (rw there (rw (rest.runs) refl));
          takes =
              take_miss left pos n idx acc d rest.siblings (picked left (pos + 1) level) [] miss
                rest.takes
              ∙ ap (λ (x : Bytes). some (x ∷ picked left (pos + 1) level, []))
                  (sym (ap or_empty there));
          hits = λ z i lt. absurd (cc);
        }
      ]
    where
      all_hit :
          {siblings : List Bytes} (left pos : ℕ)
          → clamp (length level) pos ≡ idx
          → (siblings ≡ [] → (i : ℕ) → i < left → clamp (length level) (pos + 1 + i) ≡ idx)
          → siblings ≡ []
          → (i : ℕ) → i < suc left
          → clamp (length level) (pos + i) ≡ idx
      all_hit left pos place later z zero lt = ap (clamp (length level)) (omega arith) ∙ place
      all_hit left pos place later z (suc i) lt =
          let shift : pos + suc i ≡ pos + 1 + i = omega arith in
          ap (clamp (length level)) shift ∙ later z i (omega arith)

  -- A group of two nodes or more has a sibling.
  pub Grouped-ne :
      (left pos : ℕ) (g : Grouped (suc (suc left)) pos) → pos + 1 < length level → g.siblings ≢ []
  Grouped-ne left pos g two z =
      let n = length level in
      let first = g.hits z 0 (omega arith) in
      let second = g.hits z 1 (omega arith) in
      let e : clamp n (pos + 0) ≡ pos + 0 = clamp_below n (pos + 0) (omega arith) in
      let e' : clamp n (pos + 1) ≡ pos + 1 = clamp_below n (pos + 1) two in
      let different : pos + 0 ≡ pos + 1 = sym e ∙ first ∙ sym second ∙ e' in absurd (omega arith)

-- A group of one node has no siblings.
pub lone_group :
    (left pos idx : ℕ) (level : List Bytes)
    → suc idx ≡ length level
    → idx ≤ pos
    → group_siblings left pos level idx ≡ ok []
unfolding group_siblings
lone_group zero pos idx level last le = refl
lone_group (suc left) pos idx level last le =
    let clamped : clamp (length level) pos ≡ idx = elim (dec_lt pos (length level)) [
      | yes lt ↦ clamp_below (length level) pos lt ∙ (omega arith)
      | no ge ↦ clamp_beyond (length level) pos (omega arith) ∙ (omega arith)
    ] in
    rw ((==_iff (clamp (length level) pos) idx).1 clamped, group_siblings)
      (lone_group left (pos + 1) idx level last (omega arith))
