-- ===== src/Stc/Multi/Layers.antt =====
-- One level of a multiproof: `verify_multiproof` accepts the siblings that `multiproof` collects there,
-- and finds the nodes of the level above at the indices that `multiproof` goes on with.
use capsule_tech.Common.{
  ℕ, ◌*◌, ◌/◌, ◌<◌, ◌≡◌, ◌≢◌, refl, sym, ap, subst, ◌∙◌, ◌⊎◌, inl, inr, Bool, true, false, ◌&&◌,
  ◌||◌, none, some, List, [], ◌∷◌, ◌++◌, ==_iff, ==_refl, ◌==◌, Bool-cases, if◌then◌else◌, length,
  ok, arith,
}
use native.Mathlib.Nat.{div-mul-le_self}
use capsule_tech.Common.Ascending.{Ascending, add, add-Ascending}
use capsule_tech.Common.Dict.{Dict, get, put, get-put}
use capsule_tech.Common.Bytes.{Bytes, Sha, bytes_eq_refl}
use capsule_tech.Stc.Merkle.{hash_children}
use capsule_tech.Stc.Kary.Group.{node_at, picked}
use capsule_tech.Stc.Multi.{mem, layer, mark, check_layer, differs}
use capsule_tech.Stc.Multi.Groups.{mem-add, mem-mark, hit, hit_group}
use capsule_tech.Stc.Multi.Shown.{Agrees, Taken, Shown, shown}

differs_known : (isin : Bool) (d : Bytes) → differs (if isin then some d else none) d ≡ false
differs_known true d = rw (bytes_eq_refl d) refl
differs_known false d = refl

put_known :
    (same isin : Bool) (a b : Bytes)
    → (same ≡ true → a ≡ b)
    → (if same then some a else (if isin then some b else none))
      ≡ (if same || isin then some b else none)
put_known true isin a b e = ap some (e refl)
put_known false isin a b e = refl

-- Two levels of a tree: a node of the upper one is the hash of its group.
abbrev pub Parents : Sha → ℕ → List Bytes → List Bytes → Type 0
Parents h arity level up =
    (g : ℕ)
    → g * arity < length level
    → hash_children h (picked arity (g * arity) level) ≡ node_at up g

pub Agrees-put :
    (h : Sha) (arity : ℕ) (level up : List Bytes) (next : List ℕ) (nodes : Dict Bytes) (g : ℕ)
    → Parents h arity level up
    → g * arity < length level
    → Agrees up next nodes
    → Agrees up (add g next) (put nodes g (hash_children h (picked arity (g * arity) level)))
Agrees-put h arity level up next nodes g parents inside agrees p =
    get-put nodes g p (hash_children h (picked arity (g * arity) level))
    ∙ rw (agrees p, mem-add p g next)
        (put_known (g == p) (mem p next) (hash_children h (picked arity (g * arity) level))
          (node_at up p) (λ e. parents g inside ∙ ap (node_at up) ((==_iff g p).0 e)))

module _ (h : Sha) (arity : ℕ) (level up : List Bytes) (current : List ℕ) (nodes : Dict Bytes) where
  pub record Layered (left used used' next : List ℕ) (over : Dict Bytes) : Type 0 where
    pub siblings : List Bytes
    pub found : List ℕ
    pub nodes_above : Dict Bytes
    pub runs : layer level arity current left used next ≡ ok (siblings, found)
    pub checks :
        check_layer h (length level) arity nodes left used' siblings over ≡ some ([], nodes_above)
    pub agrees : Agrees up found nodes_above
    pub ascending : Ascending found
    pub within : (j : ℕ) → mem j found ≡ true → j * arity < length level
    pub keeps : (j : ℕ) → mem j next ≡ true → mem j found ≡ true
    -- Nothing is found only where every index was used before.
    pub idle : found ≡ [] → (i : ℕ) → mem i left ≡ true → mem i used ≡ true

  mem-rest :
      (idx i : ℕ) (left : List ℕ)
      → (idx == i) ≡ false
      → mem i (idx ∷ left) ≡ true
      → mem i left ≡ true
  unfolding mem
  mem-rest idx i left other isin = rw other at isin

  -- Both sides skip an index that is used.
  skip :
      (idx : ℕ) (left used used' next : List ℕ) (over : Dict Bytes)
      → mem idx used ≡ true
      → mem idx used' ≡ true
      → Layered left used used' next over
      → Layered (idx ∷ left) used used' next over
  unfolding layer check_layer
  skip idx left used used' next over seen seen' r = record {
    siblings = r.siblings;
    found = r.found;
    nodes_above = r.nodes_above;
    runs = rw (seen, layer) r.runs;
    checks = rw (seen', check_layer) r.checks;
    agrees = r.agrees;
    ascending = r.ascending;
    within = r.within;
    keeps = r.keeps;
    idle = λ z i isin. elim (Bool-cases (idx == i)) [
      | inl e ↦ subst (λ (k : ℕ). mem k used ≡ true) ((==_iff idx i).0 e) seen
      | inr other ↦ r.idle z i (mem-rest idx i left other isin)
    ];
  }

  mem-add_old : (j g : ℕ) (next : List ℕ) → mem j next ≡ true → mem j (add g next) ≡ true
  mem-add_old j g next isin = mem-add j g next ∙ rw isin (ground arith)

  not_empty :
      (g : ℕ) (next found : List ℕ)
      → ((j : ℕ) → mem j (add g next) ≡ true → mem j found ≡ true)
      → found ≢ []
  unfolding mem
  not_empty g next found keeps z =
      let isin : mem g (add g next) ≡ true = mem-add g g next ∙ rw (==_refl g) refl in
      let there : mem g [] ≡ true = rw z at (keeps g isin) in absurd (cc)

  enter :
      (idx : ℕ) (left used used' next : List ℕ) (over : Dict Bytes)
      → mem idx used ≡ false
      → mem idx used' ≡ false
      → Agrees up next over
      → Parents h arity level up
      → idx / arity * arity < length level
      → (s : Shown level current nodes idx arity (idx / arity * arity))
      → (t : Taken level current nodes idx arity (idx / arity * arity) s.siblings used')
      → Layered left
          (mark arity (idx / arity * arity) (length level) current used)
          (idx ∷ t.now)
          (add (idx / arity) next)
          (put over (idx / arity) (hash_children h (picked arity (idx / arity * arity) level)))
      → Layered (idx ∷ left) used used' next over
  unfolding layer check_layer
  enter idx left used used' next over fresh fresh' agrees parents inside s t r =
      let parent = hash_children h (picked arity (idx / arity * arity) level) in
      let clean : differs (get over (idx / arity)) parent ≡ false =
        rw (agrees (idx / arity), parents (idx / arity) inside)
          (differs_known (mem (idx / arity) next) (node_at up (idx / arity))) in
      record {
        siblings = s.siblings ++ r.siblings;
        found = r.found;
        nodes_above = r.nodes_above;
        runs = rw (fresh, layer) (rw s.runs (rw r.runs refl));
        checks = rw (fresh', check_layer) (rw (t.takes r.siblings) (rw clean r.checks));
        agrees = r.agrees;
        ascending = r.ascending;
        within = r.within;
        keeps = λ j isin. r.keeps j (mem-add_old j (idx / arity) next isin);
        idle = λ z i isin. absurd (not_empty (idx / arity) next r.found r.keeps z);
      }

  -- What the verifier has used after a group is what the prover has.
  same_used :
      (idx : ℕ) (used used' : List ℕ)
      → ((i : ℕ) → mem i used ≡ mem i used')
      → mem idx current ≡ true
      → hit arity (idx / arity * arity) (length level) idx ≡ true
      → {siblings : List Bytes}
      → (t : Taken level current nodes idx arity (idx / arity * arity) siblings used') → (i : ℕ)
      → mem i (mark arity (idx / arity * arity) (length level) current used) ≡ mem i (idx ∷ t.now)
  unfolding mem
  same_used idx used used' same own at t i =
      mem-mark arity (idx / arity * arity) (length level) current used i
      ∙ ap (λ (b : Bool). b || (hit arity (idx / arity * arity) (length level) i && mem i current))
          (same i)
      ∙ own_too (Bool-cases (idx == i))
      ∙ sym (t.marks i)
    where
      own_too :
          (idx == i ≡ true) ⊎ (idx == i ≡ false)
          → (mem i used' || (hit arity (idx / arity * arity) (length level) i && mem i current)) ≡ (
              mem i (idx ∷ used')
              || (hit arity (idx / arity * arity) (length level) i && mem i current))
      own_too (inr other) = rw other refl
      own_too (inl e) =
          let there : idx ≡ i = (==_iff idx i).0 e in
          let isin : mem i current ≡ true = rw (← there) own in
          let hits : hit arity (idx / arity * arity) (length level) i ≡ true =
            ap (hit arity (idx / arity * arity) (length level)) (sym there) ∙ at in
          rw (e, isin, hits) (ground arith)

  module _ (pos : 0 < arity) (agrees : Agrees level current nodes)
      (parents : Parents h arity level up)
      (inside : (i : ℕ) → mem i current ≡ true → i < length level) where
    pub layered :
        (left used used' next : List ℕ) (over : Dict Bytes)
        → ((i : ℕ) → mem i left ≡ true → mem i current ≡ true)
        → ((i : ℕ) → mem i used ≡ mem i used')
        → Agrees up next over
        → Ascending next
        → ((j : ℕ) → mem j next ≡ true → j * arity < length level)
        → Layered left used used' next over
    unfolding layer check_layer mem
    layered [] used used' next over part same known_above asc near = record {
      siblings = [];
      found = next;
      nodes_above = over;
      runs = refl;
      checks = refl;
      agrees = known_above;
      ascending = asc;
      within = near;
      keeps = λ j isin. isin;
      idle = λ z i isin. absurd (cc);
    }
    layered (idx ∷ left) used used' next over part same known_above asc near =
        let later : (i : ℕ) → mem i left ≡ true → mem i current ≡ true =
          λ i isin. part i (rw isin (ground arith)) in
        let own : mem idx current ≡ true = part idx (rw (==_refl idx) refl) in
        let low : idx < length level = inside idx own in
        let g = idx / arity in
        let start : g * arity < length level =
          let le = div-mul-le_self idx arity in omega (arith, le) in
        elim (Bool-cases (mem idx used)) [
          | inl seen ↦
              skip idx left used used' next over seen (sym (same idx) ∙ seen)
                (layered left used used' next over later same known_above asc near)
          | inr fresh ↦
              let s = shown level current nodes idx arity (g * arity) agrees own (omega arith) in
              let t = s.taken used' in
              enter idx left used used' next over fresh (sym (same idx) ∙ fresh) known_above parents
                start s t
                (layered left (mark arity (g * arity) (length level) current used) (idx ∷ t.now)
                  (add g next) (put over g (hash_children h (picked arity (g * arity) level))) later
                  (same_used idx used used' same own
                    (hit_group arity g (length level) idx pos start low ∙ ==_refl g) t)
                  (Agrees-put h arity level up next over g parents start known_above)
                  (add-Ascending g next asc) (near_add g next start near))
        ]
      where
        near_add :
            (g : ℕ) (next : List ℕ)
            → g * arity < length level
            → ((j : ℕ) → mem j next ≡ true → j * arity < length level)
            → (j : ℕ) → mem j (add g next) ≡ true
            → j * arity < length level
        near_add g next start near j isin = elim (Bool-cases (g == j)) [
          | inl e ↦ subst (λ (k : ℕ). k * arity < length level) ((==_iff g j).0 e) start
          | inr other ↦ near j (rw other at (sym (mem-add j g next) ∙ isin))
        ]

    -- One whole level, from the current indices on.
    pub level_of : Layered current [] [] [] []
    unfolding mem get
    level_of =
        layered current [] [] [] [] (λ i isin. isin) (λ i. refl) (λ p. refl) tt
          (λ j isin. absurd (cc))
