-- ===== src/Fri/Complete/Openings.antt =====
-- The batches that `fri_prove` opens, and the dictionaries that `fri_verify` reads off them.
use capsule_tech.Common.{
  ℕ, suc, ◌+◌, ◌*◌, ◌/◌, ◌%◌, ◌≡◌, ◌≢◌, refl, sym, ap, ◌∙◌, ◌⊎◌, inl, inr, true, none, some, List,
  [], ◌∷◌, length, get_elem?, All-get_elem?, ◌==◌, ==_iff, ==_refl, Bool-cases, Option-cases, ok,
  arith,
}
use native.Mathlib.Nat.{mod-eq_of_lt}
use capsule_tech.Common.Ascending.{In}
use capsule_tech.Common.Bytes.{Sha}
use capsule_tech.Common.Dict.{Dict, get, put, get-put}
use capsule_tech.Common.Field.{modulus}
use capsule_tech.Stc.Vector.{VectorCommitment, VcLaws, VcBatchEntry, Shows}
use capsule_tech.Fri.Types.{FriLayerInfo, FriLayerBatch}
use capsule_tech.Fri.Prover.{open_layers}
use capsule_tech.Fri.Verifier.{absorb_entries}
use capsule_tech.Fri.Complete.Layers.{Built, Layer, IsReduced}
use capsule_tech.Fri.Complete.Marks.{Fits, Covers}

abbrev pub Agrees : Dict ℕ → List ℕ → Type 0
Agrees m v = (i x : ℕ) → get m i ≡ some x → get_elem? v i ≡ some x

-- The dictionary after the entries: it agrees with the codeword and has all the shown places.
pub record Absorbed (m : Dict ℕ) (v idxs : List ℕ) (entries : List VcBatchEntry) : Type 0 where
  pub after : Dict ℕ
  pub runs : absorb_entries m entries ≡ some after
  pub agrees : Agrees after v
  pub keeps : (i x : ℕ) → get m i ≡ some x → get after i ≡ some x
  pub shown : (i : ℕ) → In i idxs → get after i ≡ get_elem? v i

Agrees-put :
    (m : Dict ℕ) (v : List ℕ) (k x : ℕ) → Agrees m v → get_elem? v k ≡ some x → Agrees (put m k x) v
Agrees-put m v k x a e i y g = elim (Bool-cases (k == i)) [
  | inl same ↦ ground (arith, get-put m k i x)
  | inr other ↦ a i y (ground (arith, get-put m k i x))
]

absorb_fresh :
    (m : Dict ℕ) (e : VcBatchEntry) (es : List VcBatchEntry)
    → (get m e.index ≡ none) ⊎ (get m e.index ≡ some (e.value % modulus))
    → absorb_entries m (e ∷ es) ≡ absorb_entries (put m e.index (e.value % modulus)) es
unfolding absorb_entries
absorb_fresh m e es (inl fresh) = rw (fresh, absorb_entries)
absorb_fresh m e es (inr same) = rw (same, absorb_entries) (rw (==_refl (e.value % modulus)) refl)

-- What a dictionary that agrees with the codeword has at a shown place.
fresh_or_same :
    (m : Dict ℕ) (v : List ℕ) (k x : ℕ)
    → Agrees m v
    → get_elem? v k ≡ some x
    → (get m k ≡ none) ⊎ (get m k ≡ some x)
fresh_or_same m v k x a at = elim (Option-cases (get m k)) [
  | inl missing ↦ inl missing
  | inr (y, e) ↦ inr (e ∙ sym (a k y e) ∙ at)
]

put-keeps :
    (m : Dict ℕ) (v : List ℕ) (k x i y : ℕ)
    → Agrees m v
    → get_elem? v k ≡ some x
    → get m i ≡ some y
    → get (put m k x) i ≡ some y
put-keeps m v k x i y a at g = elim (Bool-cases (k == i)) [
  | inl same ↦
      let e : k ≡ i = (==_iff k i).0 same in
      get-put m k i x ∙ rw same (sym at ∙ ap (get_elem? v) e ∙ a i y g)
  | inr other ↦ get-put m k i x ∙ rw other g
]

put_shows : (m : Dict ℕ) (k x : ℕ) → get (put m k x) k ≡ some x
put_shows m k x = get-put m k k x ∙ rw (==_refl k)

pub absorb :
    (v idxs : List ℕ) (entries : List VcBatchEntry) (m : Dict ℕ)
    → IsReduced v
    → Agrees m v
    → Shows v idxs entries
    → Absorbed m v idxs entries
unfolding absorb_entries
absorb v [] [] m red a s = record {
  after = m;
  runs = refl;
  agrees = a;
  keeps = λ i x g. g;
  shown = λ i h. absurd h;
}
absorb v [] (e ∷ es) m red a s = absurd s
absorb v (i ∷ idxs) [] m red a s = absurd s
absorb v (i ∷ idxs) (e ∷ es) m red a s =
    let small : e.value % modulus ≡ e.value = mod-eq_of_lt (All-get_elem? _ v i red s.1) in
    let at : get_elem? v e.index ≡ some (e.value % modulus) =
      ap (get_elem? v) s.0 ∙ s.1 ∙ ap some (sym small) in
    let m' = put m e.index (e.value % modulus) in
    let rest = absorb v idxs es m' red (Agrees-put m v e.index (e.value % modulus) a at) s.2 in
    record {
      after = rest.after;
      runs = absorb_fresh m e es (fresh_or_same m v e.index _ a at) ∙ rest.runs;
      agrees = rest.agrees;
      keeps = λ j y g. rest.keeps j y (put-keeps m v e.index _ j y a at g);
      shown = λ j inside.
          first_or_rest j e.index (e.value % modulus) m' rest.after inside s.0 at
            (put_shows m e.index _) rest.keeps rest.shown;
    }
  where
    first_or_rest :
        (j k x : ℕ) (m' after : Dict ℕ)
        → (j ≡ i) ⊎ In j idxs
        → k ≡ i
        → get_elem? v k ≡ some x
        → get m' k ≡ some x
        → ((l y : ℕ) → get m' l ≡ some y → get after l ≡ some y)
        → ((l : ℕ) → In l idxs → get after l ≡ get_elem? v l)
        → get after j ≡ get_elem? v j
    first_or_rest j k x m' after (inl here) e at g keeps shown =
        let same : j ≡ k = here ∙ sym e in rw same (keeps k x g ∙ sym at)
    first_or_rest j k x m' after (inr later) e at g keeps shown = shown j later

module _ (vc : VectorCommitment) where
  -- Batches for the layers from number `k` on: accepted, and showing the codewords at the marked places.
  abbrev pub Good :
      ℕ → List FriLayerInfo → List (List ℕ) → List (List ℕ) → List FriLayerBatch → Type 0
  Good k [] [] [] batches = batches ≡ []
  Good k [] [] (m ∷ needed) batches = ⊥
  Good k [] (v ∷ vs) needed batches = ⊥
  Good k (layer ∷ layers) [] needed batches = ⊥
  Good k (layer ∷ layers) (v ∷ vs) [] batches = ⊥
  Good k (layer ∷ layers) (v ∷ vs) (m ∷ needed) [] = ⊥
  Good k (layer ∷ layers) (v ∷ vs) (m ∷ needed) (b ∷ batches) =
      IsReduced v
      × (b.layer_index ≡ k)
      × (vc.verify_batch layer.commitment b.proof ≡ true)
      × Shows v m b.proof.entries
      × Good (k + 1) layers vs needed batches

module _ (h : Sha) (vc : VectorCommitment) (laws : VcLaws vc) (s : vc.State) where
  pub record Opened (k : ℕ) (layers : List FriLayerInfo) (vs needed : List (List ℕ)) : Type 0 where
    pub batches : List FriLayerBatch
    pub runs : open_layers h vc k layers needed s ≡ ok batches
    pub count : length batches ≡ length layers
    pub good : Good vc k layers vs needed batches

  In-ne-nil : (i : ℕ) (m : List ℕ) → In i m → m ≢ []
  In-ne-nil i [] e p = absurd e
  In-ne-nil i (x ∷ m) e p = cc

  open_one :
      (k : ℕ) (layer : FriLayerInfo) (layers : List FriLayerInfo) (v m : List ℕ)
      (vs needed : List (List ℕ)) (i : ℕ)
      → Layer h vc laws s layer v
      → Fits (v ∷ vs) (m ∷ needed)
      → In i m
      → Opened (k + 1) layers vs needed
      → Opened k (layer ∷ layers) (v ∷ vs) (m ∷ needed)
  unfolding open_layers
  open_one k layer layers v m vs needed i l f inside rest =
      let (p, opened, accepted, shows) =
        laws.open_shows v m s layer.commitment l.held (In-ne-nil i m inside) f.0 f.1 in
      record {
        batches = record { layer_index = k; proof = p } ∷ rest.batches;
        runs = rw (opened, rest.runs) refl;
        count = ap suc rest.count;
        good = (l.reduced, refl, accepted, shows, rest.good);
      }

  pub open_all :
      (k r : ℕ) (layers : List FriLayerInfo) (vs needed : List (List ℕ)) (cur : ℕ)
      → Built h vc laws s r layers vs
      → Fits vs needed
      → Covers needed cur
      → Opened k layers vs needed
  unfolding open_layers
  open_all k r [] vs needed cur b f c = absurd b
  open_all k r (layer ∷ []) [] needed cur b f c = absurd b
  open_all k r (layer ∷ []) (v ∷ w ∷ vs) needed cur b f c = absurd b
  open_all k r (layer ∷ []) (v ∷ []) [] cur b f c = absurd f
  open_all k r (layer ∷ []) (v ∷ []) (m ∷ n ∷ needed) cur b f c = absurd f.2
  open_all k r (layer ∷ []) (v ∷ []) (m ∷ []) cur b f c =
      open_one k layer [] v m [] [] cur b f c
        (record { batches = []; runs = refl; count = refl; good = refl })
  open_all k r (layer ∷ next ∷ layers) [] needed cur b f c = absurd b
  open_all k r (layer ∷ next ∷ layers) (v ∷ []) needed cur b f c = absurd b
  open_all k r (layer ∷ next ∷ layers) (v ∷ w ∷ vs) [] cur b f c = absurd f
  open_all k r (layer ∷ next ∷ layers) (v ∷ w ∷ vs) (m ∷ []) cur b f c = absurd f.2
  open_all k r (layer ∷ next ∷ layers) (v ∷ w ∷ vs) (m ∷ n ∷ needed) cur b f c =
      open_one k layer (next ∷ layers) v m (w ∷ vs) (n ∷ needed) (cur / 2 * 2) b.0 f c.0
        (open_all (k + 1) (r + 1) (next ∷ layers) (w ∷ vs) (n ∷ needed) (cur / 2) b.4 f.2 c.2)
