-- ===== src/Stc/Kary/Completeness.antt =====
-- What bef_zk/stc/merkle.py's `prove_kary` opens in a tree of `build_kary_levels`, `verify_kary` accepts.
use capsule_tech.Common.{
  ℕ, zero, suc, ◌+◌, ◌-◌, ◌*◌, ◌/◌, ◌<◌, ◌≤◌, max, ◌≡◌, ◌≢◌, refl, sym, ap, subst, ◌∙◌, true, false,
  some, List, [], ◌∷◌, ltb, lt→ltb, ge→ltb, gt→leb, ◌==◌, length, get_elem?, get_elem?-lt, take,
  drop, ok, arith,
}
use mathlib.Core.Option.{some-injective}
use capsule_tech.Common.Results.{ok_value}
use native.Mathlib.Nat.{div-mul-le_self, div-lt_self}
use native.Mathlib.Decide.{dec_lt}
use capsule_tech.Common.Bytes.{Bytes, Sha, bytes_eq_refl}
use capsule_tech.Stc.Merkle.{Levels, root_from_levels, hash_children}
use capsule_tech.Stc.Kary.{
  hash_block, build_kary_above, build_kary_levels, group_siblings, prove_kary_from, prove_kary,
  take_children, parent_of, kary_step, fold_kary, verify_kary,
}
use capsule_tech.Stc.Kary.Group.{
  picked, node_at, Grouped, grouped, Grouped-ne, lone_group, clamp_below,
}
use capsule_tech.Stc.Kary.Blocks.{hash_block_many, hash_block_lone}
use capsule_tech.Stc.Kary.Above.{ceil_div, ceil_div_pred, Next, Next-level}

module _ (h : Sha) (arity : ℕ) (two : 2 ≤ arity) where
  -- The verifier's round ends at the node above.
  step_taken :
      (level siblings : List Bytes) (idx : ℕ) (acc node : Bytes)
      → take_children arity (idx / arity * arity) (length level) idx acc siblings
        ≡ some (picked arity (idx / arity * arity) level, [])
      → parent_of h siblings (picked arity (idx / arity * arity) level) ≡ some node
      → kary_step h arity (length level) idx acc siblings ≡ some node
  unfolding kary_step
  step_taken level siblings idx acc node e f = rw (e, kary_step) f

  parent_many :
      (siblings kids : List Bytes)
      → siblings ≢ []
      → parent_of h siblings kids ≡ some (hash_children h kids)
  unfolding parent_of
  parent_many [] kids ne = absurd (ne refl)
  parent_many (s ∷ siblings) kids ne = refl

  parent_lone :
      (k pos : ℕ) (level : List Bytes)
      → pos < length level
      → parent_of h [] (picked (suc k) pos level) ≡ some (node_at level pos)
  unfolding parent_of
  parent_lone k pos level lt = rw (clamp_below (length level) pos lt) refl

  -- The siblings of a group, and the node that the verifier computes with them.
  record Up (level : List Bytes) (idx : ℕ) (acc node : Bytes) : Type 0 where
    siblings : List Bytes
    runs : group_siblings arity (idx / arity * arity) level idx ≡ ok siblings
    steps : kary_step h arity (length level) idx acc siblings ≡ some node

  Up-many :
      (level : List Bytes) (idx : ℕ) (acc node : Bytes)
      → get_elem? level idx ≡ some acc
      → idx / arity * arity + 1 < length level
      → hash_block h arity (take arity (drop (idx / arity * arity) level)) ≡ ok node
      → Up level idx acc node
  Up-many level idx acc node found more e =
      let pos = idx / arity * arity in
      let g = grouped level idx acc arity pos found in
      let hashed = ok_value _ node (sym (hash_block_many h arity two pos level more) ∙ e) in
      record {
        siblings = g.siblings;
        runs = g.runs;
        steps = step_taken level g.siblings idx acc node g.takes (
            parent_many g.siblings (picked arity pos level) (sibling arity two g) ∙ ap some hashed);
      }
    where
      sibling :
          (k : ℕ) → 2 ≤ k → (g : Grouped level idx acc k (idx / arity * arity)) → g.siblings ≢ []
      sibling zero le g = absurd (omega arith)
      sibling (suc zero) le g = absurd (omega arith)
      sibling (suc (suc k)) le g = Grouped-ne level idx acc k (idx / arity * arity) g more

  Up-lone :
      (level : List Bytes) (idx : ℕ) (acc node : Bytes)
      → get_elem? level idx ≡ some acc
      → idx / arity * arity + 1 ≡ length level
      → hash_block h arity (take arity (drop (idx / arity * arity) level)) ≡ ok node
      → Up level idx acc node
  Up-lone level idx acc node found last e =
      let pos = idx / arity * arity in
      let below = div-mul-le_self idx arity in
      let inside = get_elem?-lt level idx found in
      let none_beside = lone_group arity pos idx level (omega arith) (omega arith) in
      let g = grouped level idx acc arity pos found in
      let nothing = ok_value g.siblings [] (sym g.runs ∙ none_beside) in
      let same =
        ok_value (node_at level pos) node (sym (hash_block_lone h arity two pos level last) ∙ e) in
      record {
        siblings = [];
        runs = none_beside;
        steps =
            step_taken level [] idx acc node
              (subst
                (λ (s : List Bytes).
                  take_children arity pos (length level) idx acc s
                  ≡ some (picked arity pos level, []))
                nothing g.takes)
              (alone arity two ∙ ap some same);
      }
    where
      alone :
          (k : ℕ)
          → 2 ≤ k
          → parent_of h [] (picked k (idx / arity * arity) level)
            ≡ some (node_at level (idx / arity * arity))
      alone zero le = absurd (omega arith)
      alone (suc k) le = parent_lone k (idx / arity * arity) level (omega arith)

  up :
      (level : List Bytes) (idx : ℕ) (acc node : Bytes)
      → get_elem? level idx ≡ some acc
      → hash_block h arity (take arity (drop (idx / arity * arity) level)) ≡ ok node
      → Up level idx acc node
  up level idx acc node found e =
      let below = div-mul-le_self idx arity in
      let inside = get_elem?-lt level idx found in
      elim (dec_lt (idx / arity * arity + 1) (length level)) [
        | yes more ↦ Up-many level idx acc node found more e
        | no last ↦ Up-lone level idx acc node found (omega arith) e
      ]

  -- Everything above a level, and the opening of one node through it.
  record Opened (rounds : ℕ) (level : List Bytes) (idx : ℕ) (acc : Bytes) : Type 0 where
    above : Levels
    proof : List (List Bytes)
    root : Bytes
    built : build_kary_above h arity rounds level ≡ ok above
    proved : prove_kary_from (level ∷ above) idx arity ≡ ok proof
    rooted : root_from_levels (level ∷ above) ≡ ok root
    folded : fold_kary h arity (length level) idx acc proof ≡ some root

  Opened-single :
      (rounds : ℕ) (level : List Bytes) (idx : ℕ) (acc : Bytes)
      → get_elem? level idx ≡ some acc
      → length level ≤ 1
      → Opened (suc rounds) level idx acc
  unfolding build_kary_above prove_kary_from root_from_levels fold_kary
  Opened-single rounds [] idx acc found le = absurd (cc)
  Opened-single rounds (d ∷ c ∷ level) idx acc found le = absurd (omega arith)
  Opened-single rounds (d ∷ []) (suc idx) acc found le = absurd (cc)
  Opened-single rounds (d ∷ []) zero acc found le = record {
    above = [];
    proof = [];
    root = d;
    built = refl;
    proved = refl;
    rooted = refl;
    folded = ap some (sym (some-injective d acc found));
  }

  Opened-more :
      (rounds : ℕ) (level : List Bytes) (idx : ℕ) (acc node : Bytes)
      → 1 < length level
      → (n : Next h arity two (length level) level) → Up level idx acc node
      → Opened rounds n.nodes (idx / arity) node
      → Opened (suc rounds) level idx acc
  unfolding build_kary_above prove_kary_from root_from_levels fold_kary
  Opened-more rounds level idx acc node more n u rest =
      let size : max 1 (ceil_div (length level) arity) ≡ length n.nodes =
        omega (arith, n.count, ceil_div_pred (length level) arity (omega arith) (omega arith)) in
      record {
        above = n.nodes ∷ rest.above;
        proof = u.siblings ∷ rest.proof;
        root = rest.root;
        built =
            rw (lt→ltb 1 (length level) more, build_kary_above)
              (rw (n.runs) (rw (rest.built) refl));
        proved = rw (u.runs) (rw (rest.proved) refl);
        rooted = rest.rooted;
        folded =
            rw (u.steps, fold_kary)
              (ap (λ (k : ℕ). fold_kary h arity k (idx / arity) node rest.proof) size
                ∙ rest.folded);
      }

  opened :
      (rounds : ℕ) (level : List Bytes) (idx : ℕ) (acc : Bytes)
      → get_elem? level idx ≡ some acc
      → length level ≤ rounds
      → Opened rounds level idx acc
  opened zero level idx acc found le =
      let inside = get_elem?-lt level idx found in absurd (omega arith)
  opened (suc rounds) level idx acc found le = elim (dec_lt 1 (length level)) [
    | no few ↦ Opened-single rounds level idx acc found (omega arith)
    | yes more ↦
        let n = Next-level h arity two (length level) level (omega arith) in
        let below = div-mul-le_self idx arity in
        let inside = get_elem?-lt level idx found in
        let (node, block, there) = n.at_block (idx / arity) (omega arith) in
        let fewer = div-lt_self {n = length level - 1} {k = arity} (omega arith) (omega arith) in
        let size = n.count ∙ ceil_div_pred (length level) arity (omega arith) (omega arith) in
        Opened-more rounds level idx acc node more n (up level idx acc node found block)
          (opened rounds n.nodes (idx / arity) node there (omega arith))
  ]

  -- For an arity of at least 2, a tree is built over any leaves that are not none; every leaf has a
  -- proof, and the verifier, told the number of leaves, accepts it for the root of the tree. The
  -- padding of short blocks and the lone last node that goes up unhashed are covered.
  pub prove_kary-verify_kary :
      (leaves : List Bytes) (index : ℕ) (leaf : Bytes)
      → get_elem? leaves index ≡ some leaf
      → (levels : Levels) × (proof : List (List Bytes)) × (root : Bytes) × (build_kary_levels h
            arity leaves
          ≡ ok levels)
        × (prove_kary levels index arity ≡ ok proof)
        × (root_from_levels levels ≡ ok root)
        × (verify_kary h root leaf index proof arity (length leaves) ≡ true)
  unfolding build_kary_levels prove_kary verify_kary
  prove_kary-verify_kary leaves index leaf found =
      let o = opened (length leaves) leaves index leaf found (omega arith) in
      let inside = get_elem?-lt leaves index found in
      let wide : ltb arity 2 ≡ false = ge→ltb arity 2 two in
      let some_leaf : (length leaves == 0) ≡ false = ground arith in
      (
        leaves ∷ o.above,
        o.proof,
        o.root,
        rw (wide, some_leaf) (rw (o.built) refl),
        rw (gt→leb (length leaves) index inside) o.proved,
        o.rooted,
        rw (gt→leb (length leaves) index inside, verify_kary)
            (rw (o.folded, verify_kary) (bytes_eq_refl o.root)),
      )
