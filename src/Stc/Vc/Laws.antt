-- ===== src/Stc/Vc/Laws.antt =====
-- `STCVectorCommitment` of bef_zk/stc/vc.py has the laws that FRI relies on, for vectors whose chunk tree
-- has no lone last node below its root.
use capsule_tech.Stc.Vc.Building.{Sound, FairLength, commit_total}
use capsule_tech.Common.{
  ℕ, ◌≡◌, ◌≢◌, refl, sym, ap, subst, ◌∙◌, inl, inr, true, false, some, List, [], ◌∷◌, ◌==◌,
  Bool-cases, length, ok, ok_value, >>=-eq-ok, raise_if-eq-ok, value_error,
}
use capsule_tech.Common.Bytes.{Bytes, Sha, bytes_eq, bytes_eq→eq, bytes_eq_refl}
use capsule_tech.Stc.Merkle.{Levels}
use capsule_tech.Stc.Accumulator.{new_accumulator, export_chunks, add_chunks}
use capsule_tech.Stc.Backend.{stc_build_pc_commitment}
use capsule_tech.Stc.Vector.{VcCommitment, VcLaws}
use capsule_tech.Stc.Vc.{
  Store, StoreEntry, chunk_name, written, slices, find_store, open_batch, open_batch_of,
}
use capsule_tech.Stc.Vc.Batch.{VcParams, commit, vc_commitment, verify_batch, stc_vector_commitment}
use capsule_tech.Stc.Vc.Opening.{Kept}
use capsule_tech.Stc.Vc.Whole.{accepted_batch}

module _ (h : Sha) where
  -- A commitment puts an entry under its root.
  pub commit-cons :
      (params : VcParams h) (values : List ℕ) (s s' : Store) (c : VcCommitment)
      → commit h params values s ≡ ok (c, s')
      → (e : StoreEntry) × (s' ≡ (c.root, e) ∷ s)
  unfolding commit
  commit-cons params values s s' c committed =
      let (fresh, made, e1) =
        >>=-eq-ok
          (new_accumulator h params.fuel params.num_challenges params.chunk_len
            params.challenge_seed)
          _ committed in
      let (positive, e2) = raise_if-eq-ok (params.chunk_len == 0) value_error _ e1 in
      let (acc, added_all, e3) =
        >>=-eq-ok
          (add_chunks h (some (λ index reduced. chunk_name index))
            (slices (length values) params.chunk_len values) fresh)
          _ e2 in
      let (stc, built, e4) =
        >>=-eq-ok (stc_build_pc_commitment h params.fuel params.arity acc) _ e3 in
      let pair = ok_value _ (c, s') e4 in
      let entry : StoreEntry = record {
        commit = stc;
        chunks = export_chunks acc;
        archive = written 0 (slices (length values) params.chunk_len values);
      } in
      (
        entry,
        sym (ap (λ (p : VcCommitment × Store). p.1) pair)
            ∙ ap (λ (p : VcCommitment × Store). (p.0.root, entry) ∷ s) pair,
      )

  pub other_root : (a b : Bytes) → a ≢ b → bytes_eq a b ≡ false
  other_root a b other = elim (Bool-cases (bytes_eq a b)) [
    | inl same ↦ absurd (other (bytes_eq→eq a b same))
    | inr differs ↦ differs
  ]

  -- A store has an entry of a commitment's root, which is that of the vector.
  abbrev pub StoreHolds : Store → VcCommitment → List ℕ → Type 0
  StoreHolds store c values =
      (entry : StoreEntry) × (levels : Levels) × (find_store store c.root ≡ some entry)
      × (c ≡ vc_commitment h entry.commit)
      × Kept h entry values levels

  unfoldable pub stc_laws :
      (params : VcParams h) → Sound h params → VcLaws (stc_vector_commitment h params)
  unfolding find_store open_batch
  stc_laws params sound = record {
    Fair = FairLength h params;
    Holds = StoreHolds;
    commit_holds = λ values s some_value is_fair all.
        let c = commit_total h params values s sound some_value is_fair all in
        (
          vc_commitment h c.entry.commit,
          (c.entry.commit.global_root, c.entry) ∷ s,
          c.runs,
          (c.entry, c.levels, rw (bytes_eq_refl c.entry.commit.global_root) refl, refl, c.kept),
        );
    commit_keeps = λ values old s s' c d committed other (entry, levels, found, same, kept).
        (entry, levels, later values s s' c d.root entry committed other found, same, kept);
    open_shows = λ values indices s c (entry, levels, found, same, kept) some_index asc all.
        let (p, opened, accepted, shows) =
          accepted_batch h entry values levels kept indices some_index asc all in
        (
          p,
          opened_from c indices s entry some_index found ∙ opened,
          subst (λ (d : VcCommitment). verify_batch h d p ≡ true) (sym same) accepted,
          shows,
        );
  }
    where
      opened_from :
          (c : VcCommitment) (indices : List ℕ) (s : Store) (entry : StoreEntry)
          → indices ≢ []
          → find_store s c.root ≡ some entry
          → open_batch h c indices s ≡ open_batch_of h entry indices
      opened_from c [] s entry some_index found = absurd (some_index refl)
      opened_from c (i ∷ is) s entry some_index found = rw found refl

      later :
          (values : List ℕ) (s s' : Store) (c : VcCommitment) (root : Bytes) (entry : StoreEntry)
          → commit h params values s ≡ ok (c, s')
          → c.root ≢ root
          → find_store s root ≡ some entry
          → find_store s' root ≡ some entry
      later values s s' c root entry committed other found =
          let (e, cons) = commit-cons params values s s' c committed in
          rw (cons, other_root c.root root other) found
