-- ===== src/Fri/Complete/Accepts.antt =====
-- The verifier of bef_zk/fri/verifier.py accepts what `fri_prove` of bef_zk/fri/prover.py makes.
use capsule_tech.Common.{
  ℕ, zero, suc, ◌+◌, ◌*◌, ◌%◌, ◌^◌, ◌<◌, ◌≤◌, ◌≡◌, refl, ap, ◌∙◌, true, some, List, [], ◌∷◌, map,
  length, All, replicate, ==_refl, ok, arith, ◌⊎◌, inl, inr, Bool-cases, false,
}
use mathlib.Core.Option.{some-injective}
use mathlib.Core.Path.{ap₂}
use native.Mathlib.Nat.{mod-eq_of_lt}
use capsule_tech.Common.Bytes.{Sha, bytes_eq_refl}
use capsule_tech.Common.Dict.{Dict}
use capsule_tech.Common.Field.{modulus}
use capsule_tech.Stc.Vector.{VectorCommitment, VcCommitment, VcLaws}
use capsule_tech.Fri.Config.{FriConfig}
use capsule_tech.Fri.Types.{FriLayerInfo, FriLayerBatch, FriProof}
use capsule_tech.Fri.Prover.{fri_prove, build_layers, mark_queries, open_layers}
use capsule_tech.Fri.Verifier.{
  fri_verify, check_values, check_queries, betas_of, pair_layers, first_root_is,
}
use capsule_tech.Fri.Complete.Layers.{Built, IsReduced, build, first_commitment, distinct_roots}
use capsule_tech.Fri.Complete.Marks.{Covers, mark-All, Fits-empty}
use capsule_tech.Fri.Complete.Openings.{open_all}
use capsule_tech.Fri.Complete.Reads.{ShowsAll, Read, Read-all}
use capsule_tech.Fri.Complete.Paths.{ValuesAt, queries_accepted}

first_root :
    (layers : List FriLayerInfo) (commit : VcCommitment)
    → first_commitment layers ≡ some commit
    → first_root_is layers commit.root ≡ true
unfolding first_root_is
first_root [] commit e = absurd (cc)
first_root (layer ∷ layers) commit e =
    rw (some-injective layer.commitment commit e) (bytes_eq_refl commit.root)

module _ (h : Sha) (vc : VectorCommitment) where
  -- The layers are committed to, and then the prover succeeds and the verifier accepts the proof, or
  -- two of the layers have one root.
  abbrev pub Accepted : FriConfig → List ℕ → VcCommitment → List ℕ → List ℕ → vc.State → Type 0
  Accepted cfg base commit points values s =
      (layers : List FriLayerInfo) × (t : vc.State) × (build_layers h vc cfg base commit s
        ≡ ok (layers, t))
      × (((proof : FriProof) × (s' : vc.State) × (fri_prove h vc cfg base commit points s
              ≡ ok (proof, s'))
            × (fri_verify h vc cfg commit proof points values ≡ true))
          ⊎ (distinct_roots layers ≡ false))

module _ (h : Sha) (vc : VectorCommitment) (laws : VcLaws vc) where
  check_values_accepted :
      (s : vc.State) (first second : FriLayerInfo) (layers : List FriLayerInfo) (v w : List ℕ)
      (vs needed : List (List ℕ)) (batches : List FriLayerBatch) (p : ℕ) (points values : List ℕ)
      → Built h vc laws s zero (first ∷ second ∷ layers) (v ∷ w ∷ vs)
      → Read h vc [] (first ∷ second ∷ layers) batches [] (v ∷ w ∷ vs) needed
      → All (Covers needed) (p ∷ points)
      → All (λ q. q < length v) (p ∷ points)
      → IsReduced v
      → ValuesAt v (p ∷ points) values
      → check_values h vc
          (record { layers = first ∷ second ∷ layers; batches = batches })
          (p ∷ points)
          values
        ≡ true
  unfolding check_values
  check_values_accepted s first second layers v w vs needed batches p points values b rd c lt red
        at =
      rw (rd.runs, check_values) (shaped rd.maps needed rd.shows c)
    where
      shaped :
          (maps : List (Dict ℕ)) (marks : List (List ℕ))
          → ShowsAll maps (v ∷ w ∷ vs) marks
          → All (Covers marks) (p ∷ points)
          → check_queries
              (pair_layers (betas_of h zero (first ∷ second ∷ layers)) maps)
              (p ∷ points)
              values
            ≡ true
      shaped [] marks sh k = absurd sh
      shaped (d ∷ []) [] sh k = absurd sh
      shaped (d ∷ []) (m ∷ []) sh k = absurd sh.1
      shaped (d ∷ []) (m ∷ n ∷ marks) sh k = absurd sh.1
      shaped (d ∷ d' ∷ maps) [] sh k = absurd sh
      shaped (d ∷ d' ∷ maps) (m ∷ []) sh k = absurd sh.1
      shaped (d ∷ d' ∷ maps) (m ∷ m' ∷ marks) sh k =
          queries_accepted h vc laws s first second layers v w vs d d' maps m m' marks (p ∷ points)
            values b sh k lt red at

  length-ValuesAt :
      (v points values : List ℕ) → ValuesAt v points values → length points ≡ length values
  length-ValuesAt v [] [] at = refl
  length-ValuesAt v [] (x ∷ values) at = absurd at
  length-ValuesAt v (p ∷ points) [] at = absurd at
  length-ValuesAt v (p ∷ points) (x ∷ values) at = ap suc (length-ValuesAt v points values at.1)

  map_reduced : (v : List ℕ) → IsReduced v → map (λ x. x % modulus) v ≡ v
  map_reduced [] red = refl
  map_reduced (x ∷ v) red = ap₂ (λ a b. a ∷ b) (mod-eq_of_lt red.0) (map_reduced v red.1)

  -- The parts of an accepted proof.
  verify_parts :
      (cfg : FriConfig) (commit : VcCommitment) (proof : FriProof) (points values : List ℕ)
      → length points ≡ length values
      → length proof.layers ≡ cfg.num_rounds + 1
      → first_commitment proof.layers ≡ some commit
      → length proof.batches ≡ length proof.layers
      → check_values h vc proof points values ≡ true
      → fri_verify h vc cfg commit proof points values ≡ true
  unfolding fri_verify
  verify_parts cfg commit proof points values a b c d e =
      rw (a, ==_refl (length values))
        (rw (b, ==_refl (cfg.num_rounds + 1))
          (rw (first_root proof.layers commit c) (rw (d ∙ b, ==_refl (cfg.num_rounds + 1)) e)))

  runs_prove :
      (cfg : FriConfig) (base : List ℕ) (commit : VcCommitment) (points : List ℕ) (s t : vc.State)
      (layers : List FriLayerInfo) (needed : List (List ℕ)) (batches : List FriLayerBatch)
      → build_layers h vc cfg base commit s ≡ ok (layers, t)
      → mark_queries layers (replicate (length layers) []) points ≡ ok needed
      → open_layers h vc 0 layers needed t ≡ ok batches
      → fri_prove h vc cfg base commit points s
        ≡ ok (record { layers = layers; batches = batches }, t)
  unfolding fri_prove
  runs_prove cfg base commit points s t layers needed batches e f g = rw (e, f, g)

  -- Layers of two rounds or more in their shape, to be opened and read back.
  opened_accepted :
      (cfg : FriConfig) (base : List ℕ) (commit : VcCommitment) (s t : vc.State)
      (layers : List FriLayerInfo) (vs : List (List ℕ)) (p : ℕ) (points values : List ℕ)
      → build_layers h vc cfg base commit s ≡ ok (layers, t)
      → Built h vc laws t zero layers (base ∷ vs)
      → length layers ≡ cfg.num_rounds + 1
      → 1 ≤ cfg.num_rounds
      → first_commitment layers ≡ some commit
      → IsReduced base
      → All (λ q. q < length base) (p ∷ points)
      → ValuesAt base (p ∷ points) values
      → (proof : FriProof) × (s' : vc.State) × (fri_prove h vc cfg base commit (p ∷ points) s
          ≡ ok (proof, s'))
        × (fri_verify h vc cfg commit proof (p ∷ points) values ≡ true)
  opened_accepted cfg base commit s t [] vs p points values e b n r f red lt at = absurd b
  opened_accepted cfg base commit s t (layer ∷ []) vs p points values e b n r f red lt at =
      absurd (omega arith)
  opened_accepted cfg base commit s t (layer ∷ next ∷ layers) [] p points values e b n r f red lt
        at =
      absurd b
  opened_accepted cfg base commit s t (layer ∷ next ∷ layers) (w ∷ vs) p points values e b n r f red
        lt at =
      let all : List FriLayerInfo = layer ∷ next ∷ layers in
      let marks =
        mark-All h vc laws t all (base ∷ w ∷ vs) _ (p ∷ points) b
          (Fits-empty h vc laws t zero all (base ∷ w ∷ vs) b) lt in
      let opened =
        open_all h vc laws t zero zero all (base ∷ w ∷ vs) marks.after p b marks.fits
          marks.covers.0 in
      let read =
        Read-all h vc zero [] all opened.batches [] (base ∷ w ∷ vs) marks.after refl refl
          opened.good in
      let proof : FriProof = record { layers = all; batches = opened.batches } in
      (
        proof,
        t,
        runs_prove cfg base commit (p ∷ points) s t all marks.after opened.batches e marks.runs
            opened.runs,
        verify_parts cfg commit proof (p ∷ points) values
            (length-ValuesAt base (p ∷ points) values at) n f opened.count
            (check_values_accepted t layer next layers base w vs marks.after opened.batches p points
              values b read marks.covers lt red at),
      )

  -- Over a vector commitment with the laws of its interface that can open each layer's length: where
  -- the domain is a multiple of 2^num_rounds, there is a round and a query, the field is the fixed
  -- prime and the base evaluations are reduced and committed to.
  pub fri_prove-verify :
      (cfg : FriConfig) (m : ℕ) (base : List ℕ) (commit : VcCommitment) (s : vc.State) (p : ℕ)
      (points values : List ℕ)
      → cfg.field_modulus ≡ modulus
      → 1 ≤ cfg.num_rounds
      → 0 < m
      → ((j : ℕ) → j < cfg.num_rounds → laws.Fair (m * 2 ^ j))
      → length base ≡ m * 2 ^ cfg.num_rounds
      → IsReduced base
      → laws.Holds s commit base
      → All (λ q. q < length base) (p ∷ points)
      → ValuesAt base (p ∷ points) values
      → Accepted h vc cfg base commit (p ∷ points) values s
  unfolding build_layers
  fri_prove-verify cfg m base commit s p points values fm r pos is_fair n red held lt at =
      let b = build h vc laws cfg cfg.num_rounds m zero base commit s fm n pos is_fair red held in
      let runs : build_layers h vc cfg base commit s ≡ ok (b.layers, b.store) =
        rw (map_reduced base red) b.runs in
      (
        b.layers,
        b.store,
        runs,
        elim (Bool-cases (distinct_roots b.layers)) [
          | inl distinct ↦ inl (
              opened_accepted cfg base commit s b.store b.layers b.vectors p points values runs
                (b.built distinct) b.count r b.first red lt at)
          | inr repeated ↦ inr repeated
        ],
      )
