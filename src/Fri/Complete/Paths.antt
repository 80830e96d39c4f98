-- ===== src/Fri/Complete/Paths.antt =====
-- The queries of bef_zk/fri/verifier.py on dictionaries that show an honest prover's codewords.
use capsule_tech.Common.{
  ℕ, zero, ◌+◌, ◌*◌, ◌/◌, ◌%◌, ◌<◌, ◌≡◌, refl, sym, ap, subst, ◌∙◌, true, none, some, List, [], ◌∷◌,
  length, get_elem?, get_elem?_total, All, All-get_elem?, ◌==◌, ==_iff, Bool-cases, inl, inr, arith,
}
use native.Mathlib.Nat.{mod-eq_of_lt}
use capsule_tech.Common.Ascending.{In}
use capsule_tech.Common.Bytes.{Sha}
use capsule_tech.Common.Dict.{Dict, get}
use capsule_tech.Common.Field.{modulus}
use capsule_tech.Stc.Vector.{VectorCommitment, VcLaws}
use capsule_tech.Fri.Domain.Folds.{get_elem?-fold_pairs}
use capsule_tech.Fri.Types.{FriLayerInfo, derive_beta}
use capsule_tech.Fri.Verifier.{check_queries, check_rounds, betas_of, pair_layers}
use capsule_tech.Fri.Verifier.Queries.{LastFold, PairAt, check_rounds_iff}
use capsule_tech.Fri.Complete.Layers.{Built, IsReduced}
use capsule_tech.Fri.Complete.Marks.{Covers}
use capsule_tech.Fri.Complete.Reads.{ShowsAll}

-- The values that the codeword has at the queried places.
abbrev pub ValuesAt : List ℕ → List ℕ → List ℕ → Type 0
ValuesAt v [] [] = Unit
ValuesAt v [] (x ∷ values) = ⊥
ValuesAt v (p ∷ points) [] = ⊥
ValuesAt v (p ∷ points) (x ∷ values) = (get_elem? v p ≡ some x) × ValuesAt v points values

LastFold-cons :
    (layer next : ℕ × Dict ℕ) (rest : List (ℕ × Dict ℕ)) (cur even odd : ℕ)
    → PairAt layer.1 cur even odd
    → LastFold (next ∷ rest) (cur / 2)
    → LastFold (layer ∷ next ∷ rest) cur
LastFold-cons layer next [] cur even odd p l = absurd l
LastFold-cons layer next (after ∷ rest) cur even odd p l = (even, odd, p, l)

module _ (h : Sha) (vc : VectorCommitment) (laws : VcLaws vc) (s : vc.State) where
  -- The pair below a place of the codeword, where the dictionary shows it.
  record Pair (d : Dict ℕ) (v : List ℕ) (cur : ℕ) : Type 0 where
    even : ℕ
    odd : ℕ
    at_even : get_elem? v (cur / 2 * 2) ≡ some even
    at_odd : get_elem? v (cur / 2 * 2 + 1) ≡ some odd
    shown : PairAt d cur even odd

  Pair-shown :
      (d : Dict ℕ) (v w m : List ℕ) (cur : ℕ)
      → length v ≡ length w * 2
      → cur < length v
      → In (cur / 2 * 2) m
      → In (cur / 2 * 2 + 1) m
      → ((i : ℕ) → In i m → get d i ≡ get_elem? v i)
      → Pair d v cur
  Pair-shown d v w m cur n lt ie io shows =
      let (even, e) = get_elem?_total v (cur / 2 * 2) (omega arith) in
      let (odd, o) = get_elem?_total v (cur / 2 * 2 + 1) (omega arith) in
      record {
        even = even;
        odd = odd;
        at_even = e;
        at_odd = o;
        shown = record { at_even = shows _ ie ∙ e; at_odd = shows _ io ∙ o };
      }

  -- The path of a query through the dictionaries of an honest prover has its last fold.
  last_fold :
      (r : ℕ) (first second : FriLayerInfo) (layers : List FriLayerInfo) (v w : List ℕ)
      (vs : List (List ℕ)) (d d' : Dict ℕ) (maps : List (Dict ℕ)) (m m' : List ℕ)
      (needed : List (List ℕ)) (cur : ℕ)
      → Built h vc laws s r (first ∷ second ∷ layers) (v ∷ w ∷ vs)
      → ShowsAll (d ∷ d' ∷ maps) (v ∷ w ∷ vs) (m ∷ m' ∷ needed)
      → Covers (m ∷ m' ∷ needed) cur
      → cur < length v
      → LastFold (pair_layers (betas_of h r (first ∷ second ∷ layers)) (d ∷ d' ∷ maps)) cur
  unfolding pair_layers betas_of
  last_fold r first second [] v w (x ∷ vs) d d' maps m m' needed cur b sh c lt = absurd b.4
  last_fold r first second [] v w [] d d' (e ∷ maps) m m' needed cur b sh c lt = absurd sh.1.1
  last_fold r first second [] v w [] d d' [] m m' (n ∷ needed) cur b sh c lt = absurd sh.1.1
  last_fold r first second [] v w [] d d' [] m m' [] cur b sh c lt =
      let p = Pair-shown d v w m cur b.1 lt c.0 c.1 sh.0 in
      let beta = derive_beta h first.commitment.root r in
      (
        p.even,
        p.odd,
        p.shown,
        sh.1.0 (cur / 2) c.2
            ∙ ap (λ t. get_elem? t (cur / 2)) b.3
            ∙ get_elem?-fold_pairs beta modulus v (cur / 2) p.even p.odd p.at_even p.at_odd,
      )
  last_fold r first second (third ∷ layers) v w [] d d' maps m m' needed cur b sh c lt = absurd b.4
  last_fold r first second (third ∷ layers) v w (x ∷ vs) d d' [] m m' needed cur b sh c lt =
      absurd sh.1.1
  last_fold r first second (third ∷ layers) v w (x ∷ vs) d d' (e ∷ maps) m m' [] cur b sh c lt =
      absurd sh.1.1
  last_fold r first second (third ∷ layers) v w (x ∷ vs) d d' (e ∷ maps) m m' (n ∷ needed) cur b sh
        c lt =
      let p = Pair-shown d v w m cur b.1 lt c.0 c.1 sh.0 in
      let twice = b.1 in
      LastFold-cons (derive_beta h first.commitment.root r, d)
        (derive_beta h second.commitment.root (r + 1), d')
        (pair_layers (betas_of h (r + 1 + 1) (third ∷ layers)) (e ∷ maps)) cur p.even p.odd p.shown
        (last_fold (r + 1) second third layers w x vs d' e maps m' n needed (cur / 2) b.4 sh.1 c.2
          (omega arith))

  -- The expected value of a query, in the first dictionary.
  first_shown :
      (d : Dict ℕ) (v m : List ℕ) (needed : List (List ℕ)) (n : List ℕ) (cur : ℕ)
      → ((i : ℕ) → In i m → get d i ≡ get_elem? v i)
      → Covers (m ∷ n ∷ needed) cur
      → get d cur ≡ get_elem? v cur
  first_shown d v m needed n cur shows c = elim (Bool-cases (cur % 2 == 0)) [
    | inl even ↦
        let place : cur / 2 * 2 ≡ cur = omega (arith, (==_iff (cur % 2) 0).0 even) in
        shows cur (subst (λ (t : ℕ). In t m) place c.0)
    | inr odd ↦
        let place : cur / 2 * 2 + 1 ≡ cur = ground arith in
        shows cur (subst (λ (t : ℕ). In t m) place c.1)
  ]

  query_accepted :
      (first second : FriLayerInfo) (layers : List FriLayerInfo) (v w : List ℕ) (vs : List (List ℕ))
      (d d' : Dict ℕ) (maps : List (Dict ℕ)) (m m' : List ℕ) (needed : List (List ℕ)) (p x : ℕ)
      → Built h vc laws s zero (first ∷ second ∷ layers) (v ∷ w ∷ vs)
      → ShowsAll (d ∷ d' ∷ maps) (v ∷ w ∷ vs) (m ∷ m' ∷ needed)
      → Covers (m ∷ m' ∷ needed) p
      → p < length v
      → IsReduced v
      → get_elem? v p ≡ some x
      → check_rounds zero
          (pair_layers (betas_of h zero (first ∷ second ∷ layers)) (d ∷ d' ∷ maps))
          p
          (x % modulus)
          none
        ≡ true
  unfolding pair_layers betas_of
  query_accepted first second [] v w vs d d' maps m m' needed p x b sh c lt red at =
      (check_rounds_iff (x % modulus) (pair_layers [] maps)
          (derive_beta h first.commitment.root zero, d) (0, d') p).1
        (
          last_fold zero first second [] v w vs d d' maps m m' needed p b sh c lt,
          first_shown d v m needed m' p sh.0 c
              ∙ at
              ∙ ap some (sym (mod-eq_of_lt (All-get_elem? _ v p red at))),
        )
  query_accepted first second (third ∷ layers) v w vs d d' maps m m' needed p x b sh c lt red at =
      (check_rounds_iff (x % modulus) (pair_layers (betas_of h (0 + 1 + 1) (third ∷ layers)) maps)
          (derive_beta h first.commitment.root zero, d)
          (derive_beta h second.commitment.root (0 + 1), d') p).1
        (
          last_fold zero first second (third ∷ layers) v w vs d d' maps m m' needed p b sh c lt,
          first_shown d v m needed m' p sh.0 c
              ∙ at
              ∙ ap some (sym (mod-eq_of_lt (All-get_elem? _ v p red at))),
        )

  pub queries_accepted :
      (first second : FriLayerInfo) (layers : List FriLayerInfo) (v w : List ℕ) (vs : List (List ℕ))
      (d d' : Dict ℕ) (maps : List (Dict ℕ)) (m m' : List ℕ) (needed : List (List ℕ))
      (points values : List ℕ)
      → Built h vc laws s zero (first ∷ second ∷ layers) (v ∷ w ∷ vs)
      → ShowsAll (d ∷ d' ∷ maps) (v ∷ w ∷ vs) (m ∷ m' ∷ needed)
      → All (Covers (m ∷ m' ∷ needed)) points
      → All (λ p. p < length v) points
      → IsReduced v
      → ValuesAt v points values
      → check_queries
          (pair_layers (betas_of h zero (first ∷ second ∷ layers)) (d ∷ d' ∷ maps))
          points
          values
        ≡ true
  unfolding check_queries
  queries_accepted first second layers v w vs d d' maps m m' needed [] values b sh c lt red at =
      refl
  queries_accepted first second layers v w vs d d' maps m m' needed (p ∷ points) [] b sh c lt red
        at =
      absurd at
  queries_accepted first second layers v w vs d d' maps m m' needed (p ∷ points) (x ∷ values) b sh c
        lt red at =
      let rest =
        queries_accepted first second layers v w vs d d' maps m m' needed points values b sh c.1
          lt.1 red at.1 in
      rw
        (query_accepted first second layers v w vs d d' maps m m' needed p x b sh c.0 lt.0 red at.0)
        rest
