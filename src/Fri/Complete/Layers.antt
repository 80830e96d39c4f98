-- ===== src/Fri/Complete/Layers.antt =====
-- The layers that `_build_layers_python` makes, beside the codewords that they commit to.
use mathlib.Core.Option.{some-injective}
use capsule_tech.Common.{
  ℕ, zero, suc, ◌+◌, ◌*◌, ◌^◌, ◌<◌, ◌≡◌, refl, ap, ◌∙◌, Option, none, some, List, [], ◌∷◌, length,
  All, ok, arith, Bool, true, not, ◌&&◌, &&_parts, ◌≢◌, subst, sym,
}
use capsule_tech.Common.Bytes.{Sha, Bytes, bytes_eq, bytes_eq_refl}
use capsule_tech.Common.Field.{modulus}
use capsule_tech.Stc.Vector.{VectorCommitment, VcCommitment, VcLaws}
use capsule_tech.Fri.Config.{FriConfig}
use capsule_tech.Fri.Config.PowerOfTwo.{two_pow-pos}
use capsule_tech.Fri.Domain.{fold_pairs, fold_codeword, fold_codeword_even}
use capsule_tech.Fri.Domain.Folds.{length-fold_pairs, fold_pairs-lt}
use capsule_tech.Fri.Types.{FriLayerInfo, derive_beta}
use capsule_tech.Fri.Prover.{build_rounds}
use native.Mathlib.Nat.{pow-suc}

abbrev pub IsReduced : List ℕ → Type 0
IsReduced values = All (λ v. v < modulus) values

abbrev pub first_commitment : List FriLayerInfo → Option VcCommitment
first_commitment [] = none
first_commitment (layer ∷ layers) = some layer.commitment

-- Whether no layer has the root
abbrev pub apart : Bytes → List FriLayerInfo → Bool
apart root [] = true
apart root (layer ∷ layers) = not (bytes_eq layer.commitment.root root) && apart root layers

-- Whether the roots of the layers are all different
abbrev pub distinct_roots : List FriLayerInfo → Bool
distinct_roots [] = true
distinct_roots (layer ∷ layers) = apart layer.commitment.root layers && distinct_roots layers

abbrev later_layers : List FriLayerInfo → List FriLayerInfo
later_layers [] = []
later_layers (layer ∷ layers) = layers

apart-first :
    (root : Bytes) (layers : List FriLayerInfo) (c : VcCommitment)
    → first_commitment layers ≡ some c
    → apart root layers ≡ true
    → (c.root ≢ root) × (apart root (later_layers layers) ≡ true)
apart-first root [] c e a = absurd (cc)
apart-first root (layer ∷ layers) c e a =
    let (here, later) =
      &&_parts (not (bytes_eq layer.commitment.root root)) (apart root layers) a in
    let same = some-injective layer.commitment c e in
    ((λ z. not_itself root (rw (same, z) at here)), later)
  where
    not_itself : (root : Bytes) → not (bytes_eq root root) ≡ true → ⊥
    not_itself root e = let same = bytes_eq_refl root in cc (rw same at e)

module _ (h : Sha) (vc : VectorCommitment) (laws : VcLaws vc) where
  -- One layer commits to its codeword.
  pub record Layer (s : vc.State) (layer : FriLayerInfo) (values : List ℕ) : Type 0 where
    pub held : laws.Holds s layer.commitment values
    pub sized : layer.size ≡ length values
    pub reduced : IsReduced values

  -- Each layer but the last is twice as long as the next, which is its fold by the round's challenge.
  abbrev pub Built : vc.State → ℕ → List FriLayerInfo → List (List ℕ) → Type 0
  Built s r [] vs = ⊥
  Built s r (layer ∷ []) [] = ⊥
  Built s r (layer ∷ []) (v ∷ []) = Layer s layer v
  Built s r (layer ∷ []) (v ∷ w ∷ vs) = ⊥
  Built s r (layer ∷ next ∷ layers) [] = ⊥
  Built s r (layer ∷ next ∷ layers) (v ∷ []) = ⊥
  Built s r (layer ∷ next ∷ layers) (v ∷ w ∷ vs) =
      Layer s layer v
      × (length v ≡ length w * 2)
      × (0 < length w)
      × (w ≡ fold_pairs (derive_beta h layer.commitment.root r) modulus v)
      × Built s (r + 1) (next ∷ layers) (w ∷ vs)

  -- A run of `build_rounds`: its layers, their codewords and the store, which still has what the
  -- first store had under other roots.
  pub record Building (cfg : FriConfig) (rounds r : ℕ) (current : List ℕ) (commit : VcCommitment)
      (s : vc.State) : Type 0 where
    pub layers : List FriLayerInfo
    pub vectors : List (List ℕ)
    pub store : vc.State
    pub runs : build_rounds h vc rounds cfg r current commit s ≡ ok (layers, store)
    pub built : distinct_roots layers ≡ true → Built store r layers (current ∷ vectors)
    pub count : length layers ≡ rounds + 1
    pub first : first_commitment layers ≡ some commit
    pub keeps :
        (c : VcCommitment) (old : List ℕ)
        → apart c.root (later_layers layers) ≡ true
        → laws.Holds s c old
        → laws.Holds store c old

  build_rounds-suc :
      (cfg : FriConfig) (rounds r : ℕ) (current next : List ℕ) (commit c : VcCommitment)
      (s s' t : vc.State) (layers : List FriLayerInfo)
      → fold_codeword current (derive_beta h commit.root r) cfg.field_modulus ≡ ok next
      → vc.commit next s ≡ ok (c, s')
      → build_rounds h vc rounds cfg (r + 1) next c s' ≡ ok (layers, t)
      → build_rounds h vc (suc rounds) cfg r current commit s
        ≡ ok (
          record { commitment = commit; beta = derive_beta h commit.root r; size = length current }
              ∷ layers,
          t,
        )
  unfolding build_rounds
  build_rounds-suc cfg rounds r current next commit c s s' t layers e f g = rw (e, f, g)

  Built-cons :
      (s : vc.State) (r : ℕ) (layer : FriLayerInfo) (layers : List FriLayerInfo) (v w : List ℕ)
      (vs : List (List ℕ))
      → Layer s layer v
      → length v ≡ length w * 2
      → 0 < length w
      → w ≡ fold_pairs (derive_beta h layer.commitment.root r) modulus v
      → Built s (r + 1) layers (w ∷ vs)
      → Built s r (layer ∷ layers) (v ∷ w ∷ vs)
  Built-cons s r layer [] v w vs l n p e b = absurd b
  Built-cons s r layer (next ∷ layers) v w vs l n p e b = (l, n, p, e, b)

  -- One round put before the others.
  extend :
      (cfg : FriConfig) (rounds r : ℕ) (current next : List ℕ) (commit c : VcCommitment)
      (s s' : vc.State)
      → next ≡ fold_pairs (derive_beta h commit.root r) modulus current
      → fold_codeword current (derive_beta h commit.root r) cfg.field_modulus ≡ ok next
      → length current ≡ length next * 2
      → 0 < length next
      → IsReduced current
      → laws.Holds s commit current
      → vc.commit next s ≡ ok (c, s')
      → Building cfg rounds (r + 1) next c s'
      → Building cfg (suc rounds) r current commit s
  extend cfg rounds r current next commit c s s' fold folds n p red held committed b =
      let layer : FriLayerInfo = record {
        commitment = commit;
        beta = derive_beta h commit.root r;
        size = length current;
      } in
      record {
        layers = layer ∷ b.layers;
        vectors = next ∷ b.vectors;
        store = b.store;
        runs =
            build_rounds-suc cfg rounds r current next commit c s s' b.store b.layers folds
              committed b.runs;
        built = λ distinct.
            let (others, rest) =
              &&_parts (apart commit.root b.layers) (distinct_roots b.layers) distinct in
            let (other, later) = apart-first commit.root b.layers c b.first others in
            Built-cons b.store r layer b.layers current next b.vectors
              (record {
                held =
                    b.keeps commit current later
                      (laws.commit_keeps next current s s' c commit committed other held);
                sized = refl;
                reduced = red;
              })
              n p fold (b.built rest);
        count = let k = b.count in omega arith;
        first = refl;
        keeps = λ d old others k.
            let (other, later) = apart-first d.root b.layers c b.first others in
            b.keeps d old later (laws.commit_keeps next old s s' c d committed other k);
      }

  pub build :
      (cfg : FriConfig) (rounds m r : ℕ) (current : List ℕ) (commit : VcCommitment) (s : vc.State)
      → cfg.field_modulus ≡ modulus
      → length current ≡ m * 2 ^ rounds
      → 0 < m
      → ((j : ℕ) → j < rounds → laws.Fair (m * 2 ^ j))
      → IsReduced current
      → laws.Holds s commit current
      → Building cfg rounds r current commit s
  unfolding build_rounds
  build cfg zero m r current commit s fm n p is_fair red held = record {
    layers = record { commitment = commit; beta = 0; size = length current } ∷ [];
    vectors = [];
    store = s;
    runs = refl;
    built = λ distinct. record { held = held; sized = refl; reduced = red };
    count = omega arith;
    first = refl;
    keeps = λ c old others k. k;
  }
  build cfg (suc rounds) m r current commit s fm n p is_fair red held =
      let beta = derive_beta h commit.root r in
      let next = fold_pairs beta modulus current in
      let twice : length current ≡ m * 2 ^ rounds * 2 =
        omega (arith, ap (λ (t : ℕ). m * t) (pow-suc 2 rounds)) in
      let size : length next ≡ m * 2 ^ rounds =
        omega (arith, length-fold_pairs beta modulus current) in
      let pos : 0 < length next = grind (arith, two_pow-pos rounds) in
      let (c, s', committed, held') =
        laws.commit_holds next s pos (subst laws.Fair (sym size) (is_fair rounds (omega arith)))
          (fold_pairs-lt beta modulus current (omega arith)) in
      extend cfg rounds r current next commit c s s' refl
        (ap (fold_codeword current beta) fm
          ∙ fold_codeword_even current beta modulus (m * 2 ^ rounds) twice)
        (omega arith) pos red held committed
        (build cfg rounds m (r + 1) next c s' fm size p (λ j lt. is_fair j (omega arith))
          (fold_pairs-lt beta modulus current (omega arith)) held')
