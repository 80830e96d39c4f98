-- ===== src/Fri/Complete/Marks.antt =====
-- The places that `fri_prove` of bef_zk/fri/prover.py opens: inside the codewords, and enough.
use capsule_tech.Common.{
  ℕ, zero, ◌+◌, ◌*◌, ◌/◌, ◌<◌, ◌≡◌, refl, List, [], ◌∷◌, length, replicate, All, gt→leb, ok, arith,
}
use capsule_tech.Common.Ascending.{Ascending, In, add, add-Ascending, In-add_self, In-add, add-All}
use capsule_tech.Common.Bytes.{Sha}
use capsule_tech.Stc.Vector.{VectorCommitment, VcLaws}
use capsule_tech.Fri.Types.{FriLayerInfo}
use capsule_tech.Fri.Prover.{mark_query, mark_queries}
use capsule_tech.Fri.Complete.Layers.{Built}

-- One set of places to a codeword, each place inside it.
abbrev pub Fits : List (List ℕ) → List (List ℕ) → Type 0
Fits [] [] = Unit
Fits [] (m ∷ needed) = ⊥
Fits (v ∷ vs) [] = ⊥
Fits (v ∷ vs) (m ∷ needed) = Ascending m × All (λ i. i < length v) m × Fits vs needed

-- The sets hold the path of a query: a pair in each layer, and its end in the last.
abbrev pub Covers : List (List ℕ) → ℕ → Type 0
Covers [] cur = ⊥
Covers (m ∷ []) cur = In cur m
Covers (m ∷ next ∷ needed) cur =
    In (cur / 2 * 2) m × In (cur / 2 * 2 + 1) m × Covers (next ∷ needed) (cur / 2)

abbrev pub Grows : List (List ℕ) → List (List ℕ) → Type 0
Grows [] [] = Unit
Grows [] (m ∷ needed) = ⊥
Grows (m ∷ needed) [] = ⊥
Grows (m ∷ needed) (m' ∷ needed') = ((j : ℕ) → In j m → In j m') × Grows needed needed'

Grows-Covers : (a b : List (List ℕ)) (cur : ℕ) → Grows a b → Covers a cur → Covers b cur
Grows-Covers [] b cur g c = absurd c
Grows-Covers (m ∷ a) [] cur g c = absurd g
Grows-Covers (m ∷ []) (m' ∷ []) cur g c = g.0 cur c
Grows-Covers (m ∷ []) (m' ∷ n ∷ b) cur g c = absurd g.1
Grows-Covers (m ∷ n ∷ a) (m' ∷ []) cur g c = absurd g.1
Grows-Covers (m ∷ n ∷ a) (m' ∷ n' ∷ b) cur g c =
    (g.0 _ c.0, g.0 _ c.1, Grows-Covers (n ∷ a) (n' ∷ b) (cur / 2) g.1 c.2)

Covers-cons :
    (m : List ℕ) (after : List (List ℕ)) (cur : ℕ)
    → In (cur / 2 * 2) m
    → In (cur / 2 * 2 + 1) m
    → Covers after (cur / 2)
    → Covers (m ∷ after) cur
Covers-cons m [] cur e o c = absurd c
Covers-cons m (n ∷ after) cur e o c = (e, o, c)

Grows-refl : (a : List (List ℕ)) → Grows a a
Grows-refl [] = tt
Grows-refl (m ∷ a) = ((λ j i. i), Grows-refl a)

Grows-trans : (a b c : List (List ℕ)) → Grows a b → Grows b c → Grows a c
Grows-trans [] [] c g k = k
Grows-trans [] (m ∷ b) c g k = absurd g
Grows-trans (m ∷ a) [] c g k = absurd g
Grows-trans (m ∷ a) (m' ∷ b) [] g k = absurd k
Grows-trans (m ∷ a) (m' ∷ b) (m'' ∷ c) g k = ((λ j i. k.0 j (g.0 j i)), Grows-trans a b c g.1 k.1)

abbrev pub first_length : List (List ℕ) → ℕ
first_length [] = 0
first_length (v ∷ vs) = length v

module _ (h : Sha) (vc : VectorCommitment) (laws : VcLaws vc) (s : vc.State) where
  record Marked (layers : List FriLayerInfo) (vs needed : List (List ℕ)) (cur : ℕ) : Type 0 where
    after : List (List ℕ)
    runs : mark_query layers needed cur ≡ ok after
    fits : Fits vs after
    covers : Covers after cur
    grows : Grows needed after

  mark :
      (r : ℕ) (layers : List FriLayerInfo) (vs needed : List (List ℕ)) (cur : ℕ)
      → Built h vc laws s r layers vs
      → Fits vs needed
      → cur < first_length vs
      → Marked layers vs needed cur
  unfolding mark_query
  mark r [] vs needed cur b f lt = absurd b
  mark r (layer ∷ []) [] needed cur b f lt = absurd b
  mark r (layer ∷ []) (v ∷ w ∷ vs) needed cur b f lt = absurd b
  mark r (layer ∷ []) (v ∷ []) [] cur b f lt = absurd f
  mark r (layer ∷ []) (v ∷ []) (m ∷ n ∷ needed) cur b f lt = absurd f.2
  mark r (layer ∷ []) (v ∷ []) (m ∷ []) cur b f lt = record {
    after = add cur m ∷ [];
    runs = refl;
    fits = (add-Ascending cur m f.0, add-All _ cur m lt f.1, tt);
    covers = In-add_self cur m;
    grows = ((λ j i. In-add cur j m i), tt);
  }
  mark r (layer ∷ next ∷ layers) [] needed cur b f lt = absurd b
  mark r (layer ∷ next ∷ layers) (v ∷ []) needed cur b f lt = absurd b
  mark r (layer ∷ next ∷ layers) (v ∷ w ∷ vs) [] cur b f lt = absurd f
  mark r (layer ∷ next ∷ layers) (v ∷ w ∷ vs) (m ∷ []) cur b f lt = absurd f.2
  mark r (layer ∷ next ∷ layers) (v ∷ w ∷ vs) (m ∷ n ∷ needed) cur b f lt =
      let even = cur / 2 * 2 in
      let odd = even + 1 in
      let marked = add odd (add even m) in
      let long = b.1 in
      let some_next = b.2 in
      let sized = b.0.sized in
      let wide = gt→leb layer.size 1 (omega arith) in
      let rest =
        mark (r + 1) (next ∷ layers) (w ∷ vs) (n ∷ needed) (cur / 2) b.4 f.2 (omega arith) in
      record {
        after = marked ∷ rest.after;
        runs = rw (wide, rest.runs) refl;
        fits = (
          add-Ascending odd _ (add-Ascending even m f.0),
          add-All _ odd _ (omega arith) (add-All _ even m (omega arith) f.1),
          rest.fits,
        );
        covers =
            Covers-cons marked rest.after cur (In-add odd even _ (In-add_self even m))
              (In-add_self odd _) rest.covers;
        grows = ((λ j i. In-add odd j _ (In-add even j m i)), rest.grows);
      }

  pub record AllMarked (layers : List FriLayerInfo) (vs needed : List (List ℕ)) (points : List ℕ)
      : Type 0 where
    pub after : List (List ℕ)
    pub runs : mark_queries layers needed points ≡ ok after
    pub fits : Fits vs after
    pub covers : All (Covers after) points
    pub grows : Grows needed after

  -- Every query inside the domain is marked, and what is marked stays inside the codewords.
  pub mark-All :
      (layers : List FriLayerInfo) (vs needed : List (List ℕ)) (points : List ℕ)
      → Built h vc laws s zero layers vs
      → Fits vs needed
      → All (λ p. p < first_length vs) points
      → AllMarked layers vs needed points
  unfolding mark_queries
  mark-All layers vs needed [] b f lt = record {
    after = needed;
    runs = refl;
    fits = f;
    covers = tt;
    grows = Grows-refl needed;
  }
  mark-All layers vs needed (p ∷ points) b f lt =
      let one = mark zero layers vs needed p b f lt.0 in
      let rest = mark-All layers vs one.after points b one.fits lt.1 in
      record {
        after = rest.after;
        runs = rw (one.runs) rest.runs;
        fits = rest.fits;
        covers = (Grows-Covers one.after rest.after p rest.grows one.covers, rest.covers);
        grows = Grows-trans needed one.after rest.after one.grows rest.grows;
      }

  pub Fits-empty :
      (r : ℕ) (layers : List FriLayerInfo) (vs : List (List ℕ))
      → Built h vc laws s r layers vs
      → Fits vs (replicate (length layers) [])
  Fits-empty r [] vs b = absurd b
  Fits-empty r (layer ∷ []) [] b = absurd b
  Fits-empty r (layer ∷ []) (v ∷ []) b = (tt, tt, tt)
  Fits-empty r (layer ∷ []) (v ∷ w ∷ vs) b = absurd b
  Fits-empty r (layer ∷ next ∷ layers) [] b = absurd b
  Fits-empty r (layer ∷ next ∷ layers) (v ∷ []) b = absurd b
  Fits-empty r (layer ∷ next ∷ layers) (v ∷ w ∷ vs) b =
      (tt, tt, Fits-empty (r + 1) (next ∷ layers) (w ∷ vs) b.4)
