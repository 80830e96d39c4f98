-- ===== src/Fri/Complete/Reads.antt =====
-- The dictionaries that `fri_verify` of bef_zk/fri/verifier.py builds from the prover's batches.
use capsule_tech.Common.{
  ℕ, ◌+◌, ◌≡◌, refl, sym, ap, subst, ◌∙◌, true, some, List, [], ◌∷◌, ◌++◌, length, get_elem?, set,
  replicate, length-append, get_elem?-append_head, set-append_head, arith,
}
use mathlib.Core.List.{append_assoc}
use capsule_tech.Common.Ascending.{In}
use capsule_tech.Common.Bytes.{Sha}
use capsule_tech.Common.Dict.{Dict, get}
use capsule_tech.Stc.Vector.{VectorCommitment}
use capsule_tech.Fri.Types.{FriLayerInfo, FriLayerBatch}
use capsule_tech.Fri.Verifier.{absorb_entries, absorb_batches}
use capsule_tech.Fri.Complete.Openings.{Absorbed, Agrees, absorb, Good}

-- Each dictionary shows its codeword at the marked places.
abbrev pub ShowsAll : List (Dict ℕ) → List (List ℕ) → List (List ℕ) → Type 0
ShowsAll [] [] [] = Unit
ShowsAll (d ∷ maps) (v ∷ vs) (m ∷ needed) =
    ((i : ℕ) → In i m → get d i ≡ get_elem? v i) × ShowsAll maps vs needed
ShowsAll _ _ _ = ⊥

module _ (h : Sha) (vc : VectorCommitment) where
  absorb_batch :
      (before : List FriLayerInfo) (layer : FriLayerInfo) (layers : List FriLayerInfo)
      (b : FriLayerBatch) (batches : List FriLayerBatch) (done : List (Dict ℕ)) (d d' : Dict ℕ)
      (maps : List (Dict ℕ))
      → b.layer_index ≡ length before
      → length done ≡ length before
      → vc.verify_batch layer.commitment b.proof ≡ true
      → absorb_entries d b.proof.entries ≡ some d'
      → absorb_batches h vc (before ++ layer ∷ layers) (b ∷ batches) (done ++ d ∷ maps)
        ≡ absorb_batches h vc (before ++ layer ∷ layers) batches (done ++ d' ∷ maps)
  unfolding absorb_batches
  absorb_batch before layer layers b batches done d d' maps k n v e =
      let at : get_elem? (before ++ layer ∷ layers) b.layer_index ≡ some layer =
        ap (get_elem? (before ++ layer ∷ layers)) k ∙ get_elem?-append_head before layers layer in
      let here : get_elem? (done ++ d ∷ maps) b.layer_index ≡ some d =
        ap (get_elem? (done ++ d ∷ maps)) (k ∙ sym n) ∙ get_elem?-append_head done maps d in
      let there : set (done ++ d ∷ maps) b.layer_index d' ≡ done ++ d' ∷ maps =
        ap (λ (i : ℕ). set (done ++ d ∷ maps) i d') (k ∙ sym n) ∙ set-append_head done maps d d' in
      rw (at, absorb_batches) (rw v (rw here (rw e (rw there refl))))

  pub record Read (before layers : List FriLayerInfo) (batches : List FriLayerBatch)
      (done : List (Dict ℕ)) (vs needed : List (List ℕ)) : Type 0 where
    pub maps : List (Dict ℕ)
    pub runs :
        absorb_batches h vc (before ++ layers) batches (done ++ replicate (length layers) [])
        ≡ some (done ++ maps)
    pub shows : ShowsAll maps vs needed

  nothing-Agrees : (v : List ℕ) → Agrees [] v
  unfolding get
  nothing-Agrees v i x e = absurd (cc)

  Read-step :
      (before layers : List FriLayerInfo) (layer : FriLayerInfo) (b : FriLayerBatch)
      (batches : List FriLayerBatch) (done : List (Dict ℕ)) (v m : List ℕ)
      (vs needed : List (List ℕ)) (a : Absorbed [] v m b.proof.entries)
      → b.layer_index ≡ length before
      → length done ≡ length before
      → vc.verify_batch layer.commitment b.proof ≡ true
      → Read (before ++ layer ∷ []) layers batches (done ++ a.after ∷ []) vs needed
      → Read before (layer ∷ layers) (b ∷ batches) done (v ∷ vs) (m ∷ needed)
  Read-step before layers layer b batches done v m vs needed a k n ok_batch rest = record {
    maps = a.after ∷ rest.maps;
    runs =
        absorb_batch before layer layers b batches done [] a.after (replicate (length layers) []) k
          n ok_batch a.runs
        ∙ subst (λ p. p) regroup rest.runs;
    shows = (a.shown, rest.shows);
  }
    where
      regroup :
          (absorb_batches h vc
              ((before ++ layer ∷ []) ++ layers)
              batches
              ((done ++ a.after ∷ []) ++ replicate (length layers) [])
            ≡ some ((done ++ a.after ∷ []) ++ rest.maps))
          ≡ (absorb_batches h vc
                (before ++ layer ∷ layers)
                batches
                (done ++ a.after ∷ replicate (length layers) [])
              ≡ some (done ++ a.after ∷ rest.maps))
      regroup = simp append_assoc

  pub Read-all :
      (k : ℕ) (before layers : List FriLayerInfo) (batches : List FriLayerBatch)
      (done : List (Dict ℕ)) (vs needed : List (List ℕ))
      → k ≡ length before
      → length done ≡ length before
      → Good vc k layers vs needed batches
      → Read before layers batches done vs needed
  unfolding absorb_batches
  Read-all k before [] batches done [] [] e n g = record { maps = []; runs = rw g refl; shows = tt }
  Read-all k before [] batches done [] (m ∷ needed) e n g = absurd g
  Read-all k before [] batches done (v ∷ vs) needed e n g = absurd g
  Read-all k before (layer ∷ layers) batches done [] needed e n g = absurd g
  Read-all k before (layer ∷ layers) batches done (v ∷ vs) [] e n g = absurd g
  Read-all k before (layer ∷ layers) [] done (v ∷ vs) (m ∷ needed) e n g = absurd g
  Read-all k before (layer ∷ layers) (b ∷ batches) done (v ∷ vs) (m ∷ needed) e n g =
      let a = absorb v m b.proof.entries [] g.0 (nothing-Agrees v) g.3 in
      Read-step before layers layer b batches done v m vs needed a (g.1 ∙ e) n g.2 (
        Read-all (k + 1) (before ++ layer ∷ []) layers batches (done ++ a.after ∷ []) vs needed
          (omega (arith, length-append before (layer ∷ [])))
          (omega (arith, length-append before (layer ∷ []), length-append done (a.after ∷ []))) g.4)
