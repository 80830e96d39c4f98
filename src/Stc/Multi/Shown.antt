-- ===== src/Stc/Multi/Shown.antt =====
-- One group of a multiproof: the siblings that `multiproof` collects there are those that
-- `verify_multiproof` needs to see the group's children, and both mark the same indices as used.
use capsule_tech.Common.{
  ℕ, zero, suc, ◌+◌, ◌<◌, ◌≡◌, refl, sym, ap, ◌∙◌, inl, inr, Bool, true, false, ◌&&◌, ◌||◌, Option,
  none, some, List, [], ◌∷◌, ◌++◌, ==_iff, ==_refl, ◌==◌, Bool-cases, if◌then◌else◌, length,
  get_elem?_total, ok, arith,
}
use capsule_tech.Common.Dict.{Dict, get}
use capsule_tech.Common.Bytes.{Bytes}
use capsule_tech.Stc.Kary.{clamp}
use capsule_tech.Stc.Kary.Group.{clamp-lt, node_at, picked, or_empty}
use capsule_tech.Stc.Multi.{mem, layer_siblings, children_of}
use capsule_tech.Stc.Multi.Groups.{hit}

-- What the verifier's nodes hold: the level's nodes at the current indices, and nothing else.
abbrev pub known : List Bytes → List ℕ → ℕ → Option Bytes
known level current p = if mem p current then some (node_at level p) else none

abbrev pub Agrees : List Bytes → List ℕ → Dict Bytes → Type 0
Agrees level current nodes = (p : ℕ) → get nodes p ≡ known level current p

known_in :
    (level : List Bytes) (current : List ℕ) (nodes : Dict Bytes) (c : ℕ)
    → Agrees level current nodes
    → mem c current ≡ true
    → get nodes c ≡ some (node_at level c)
known_in level current nodes c agrees isin = rw (agrees c, isin) refl

known_out :
    (level : List Bytes) (current : List ℕ) (nodes : Dict Bytes) (c : ℕ)
    → Agrees level current nodes
    → mem c current ≡ false
    → get nodes c ≡ none
known_out level current nodes c agrees out = rw (agrees c, out) refl

marks_in :
    (c idx : ℕ) (more : Bool) (current used : List ℕ) (i : ℕ)
    → mem c current ≡ true
    → (mem i (idx ∷ (if c == idx then used else c ∷ used)) || (more && mem i current))
      ≡ (mem i (idx ∷ used) || (((c == i) || more) && mem i current))
unfolding mem
marks_in c idx more current used i isin = elim (Bool-cases (c == i)) [
  | inl same ↦
      let e : c ≡ i = (==_iff c i).0 same in
      let there : mem i current ≡ true = rw (← e) isin in
      elim (Bool-cases (c == idx)) [
        | inl own ↦
            let e' : idx ≡ i = sym ((==_iff c idx).0 own) ∙ e in
            rw (same, there, own) (rw (e', ==_refl i) refl)
        | inr far ↦ rw (same, there, far) (rw same (ground arith))
      ]
  | inr other ↦ elim (Bool-cases (c == idx)) [
    | inl own ↦ rw (other, own) refl
    | inr far ↦ rw (other, far) (rw other refl)
  ]
]

marks_out :
    (c : ℕ) (more was : Bool) (current : List ℕ) (i : ℕ)
    → mem c current ≡ false
    → (was || (more && mem i current)) ≡ (was || (((c == i) || more) && mem i current))
unfolding mem
marks_out c more was current i out = elim (Bool-cases (c == i)) [
  | inl same ↦
      let there : mem i current ≡ false = rw (← (==_iff c i).0 same) out in
      rw (same, there) (ground arith)
  | inr other ↦ rw other refl
]

module _ (level : List Bytes) (current : List ℕ) (nodes : Dict Bytes) (idx : ℕ) where
  -- What the verifier makes of the group's places that are left
  pub record Taken (left pos : ℕ) (siblings : List Bytes) (used : List ℕ) : Type 0 where
    pub now : List ℕ
    pub takes :
        (rest : List Bytes)
        → children_of left pos (length level) idx nodes (siblings ++ rest) used
          ≡ some (picked left pos level, rest, now)
    pub marks :
        (i : ℕ)
        → mem i (idx ∷ now)
          ≡ (mem i (idx ∷ used) || (hit left pos (length level) i && mem i current))

  pub record Shown (left pos : ℕ) : Type 0 where
    pub siblings : List Bytes
    pub runs : layer_siblings left pos level idx current ≡ ok siblings
    pub taken : (used : List ℕ) → Taken left pos siblings used

  take_known :
      (left pos : ℕ) (siblings : List Bytes) (used : List ℕ)
      → (length level == 0) ≡ false
      → get nodes (clamp (length level) pos) ≡ some (node_at level (clamp (length level) pos))
      → mem (clamp (length level) pos) current ≡ true
      → Taken left
          (pos + 1)
          siblings
          (if clamp (length level) pos == idx then used else clamp (length level) pos ∷ used)
      → Taken (suc left) pos siblings used
  unfolding children_of hit
  take_known left pos siblings used filled found isin t = record {
    now = t.now;
    takes = λ rest. rw (filled, found, children_of) (rw (t.takes rest) refl);
    marks = λ i.
        t.marks i
        ∙ marks_in (clamp (length level) pos) idx (hit left (pos + 1) (length level) i) current used
            i isin;
  }

  take_shown :
      (left pos : ℕ) (d : Bytes) (siblings : List Bytes) (used : List ℕ)
      → (length level == 0) ≡ false
      → get nodes (clamp (length level) pos) ≡ none
      → mem (clamp (length level) pos) current ≡ false
      → node_at level (clamp (length level) pos) ≡ d
      → Taken left (pos + 1) siblings used
      → Taken (suc left) pos (d ∷ siblings) used
  unfolding children_of hit
  take_shown left pos d siblings used filled missing out there t = record {
    now = t.now;
    takes = λ rest. rw (filled, missing, children_of) (rw (t.takes rest, there) refl);
    marks = λ i.
        t.marks i
        ∙ marks_out (clamp (length level) pos) (hit left (pos + 1) (length level) i)
            (mem i (idx ∷ used)) current i out;
  }

  run_in :
      (left pos : ℕ) (siblings : List Bytes)
      → (length level == 0) ≡ false
      → mem (clamp (length level) pos) current ≡ true
      → layer_siblings left (pos + 1) level idx current ≡ ok siblings
      → layer_siblings (suc left) pos level idx current ≡ ok siblings
  unfolding layer_siblings
  run_in left pos siblings filled isin r = elim (Bool-cases (clamp (length level) pos == idx)) [
    | inl same ↦ rw (filled, same, layer_siblings) r
    | inr far ↦ rw (filled, far, isin, layer_siblings) r
  ]

  pub shown :
      (left pos : ℕ)
      → Agrees level current nodes
      → mem idx current ≡ true
      → 0 < length level
      → Shown left pos
  unfolding layer_siblings children_of hit
  shown zero pos agrees own some_node = record {
    siblings = [];
    runs = refl;
    taken = λ used. record { now = used; takes = λ rest. refl; marks = λ i. ground arith };
  }
  shown (suc left) pos agrees own some_node =
      let n = length level in
      let c = clamp n pos in
      let filled : (length level == 0) ≡ false = ground arith in
      let rest = shown left (pos + 1) agrees own some_node in
      elim (Bool-cases (mem c current)) [
        | inl isin ↦ record {
          siblings = rest.siblings;
          runs = run_in left pos rest.siblings filled isin rest.runs;
          taken = λ used.
              take_known left pos rest.siblings used filled
                (known_in level current nodes c agrees isin) isin (rest.taken _);
        }
        | inr out ↦
            let (d, there) = get_elem?_total level c (clamp-lt n pos some_node) in
            record {
              siblings = d ∷ rest.siblings;
              runs =
                  rw (filled, not_own c out own, out, layer_siblings)
                    (rw there (rw rest.runs refl));
              taken = λ used.
                  take_shown left pos d rest.siblings used filled
                    (known_out level current nodes c agrees out) out (ap or_empty there)
                    (rest.taken used);
            }
      ]
    where
      not_own : (c : ℕ) → mem c current ≡ false → mem idx current ≡ true → (c == idx) ≡ false
      not_own c out own = elim (Bool-cases (c == idx)) [
        | inl same ↦
            let e : c ≡ idx = (==_iff c idx).0 same in
            let both : mem idx current ≡ false = rw (← e) out in absurd (cc)
        | inr far ↦ far
      ]
