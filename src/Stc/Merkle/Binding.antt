-- ===== src/Stc/Merkle/Binding.antt =====
-- `verify` of bef_zk/stc/merkle.py binds: two leaves at one index under one root, with proofs of
-- one length, are one leaf, or a collision of the hash function is at hand.
use capsule_tech.Common.{
  ℕ, ◌/◌, ◌%◌, ◌≡◌, refl, ◌∙◌, sym, ◌⊎◌, inl, inr, List, [], ◌∷◌, true, length, All, Bool-cases,
  ◌==◌, arith,
}
use mathlib.Core.Path.{ap₂}
use capsule_tech.Common.Bytes.{
  Bytes, Sha, Collision, bytes_eq→eq, append_cancel, join_pair, sha256_injective,
}
use capsule_tech.Stc.Merkle.{hash_pair, fold_sibling, fold_proof, verify}

abbrev pub IsDigest : Bytes → Type 0
IsDigest d = length d ≡ 32

module _ (h : Sha) where
  hash_pair_injective :
      (a b c d : Bytes)
      → length a ≡ length c
      → hash_pair h a b ≡ hash_pair h c d
      → ((a ≡ c) × (b ≡ d)) ⊎ Collision h
  unfolding hash_pair
  hash_pair_injective a b c d m e = elim (sha256_injective h _ _ e) [
    | inl same ↦ inl (append_cancel a c b d m (sym (join_pair a b) ∙ same ∙ join_pair c d))
    | inr collision ↦ inr collision
  ]

  fold_sibling_injective :
      (i : ℕ) (a s b t : Bytes)
      → IsDigest a
      → IsDigest s
      → IsDigest b
      → IsDigest t
      → fold_sibling h i a s ≡ fold_sibling h i b t
      → ((a ≡ b) × (s ≡ t)) ⊎ Collision h
  unfolding fold_sibling
  fold_sibling_injective i a s b t da ds db dt e = elim (Bool-cases (i % 2 == 0)) [
    | inl even ↦ hash_pair_injective a s b t (da ∙ sym db) (rw even at e)
    | inr odd ↦ elim (hash_pair_injective s a t b (ds ∙ sym dt) (rw odd at e)) [
      | inl p ↦ inl (p.1, p.0)
      | inr collision ↦ inr collision
    ]
  ]

  fold_sibling-IsDigest : (i : ℕ) (a s : Bytes) → IsDigest (fold_sibling h i a s)
  unfolding fold_sibling hash_pair
  fold_sibling-IsDigest i a s = elim (Bool-cases (i % 2 == 0)) [
    | inl even ↦ rw even (h.length-sha256 _)
    | inr odd ↦ rw odd (h.length-sha256 _)
  ]

  fold_proof-binding :
      (i : ℕ) (a b : Bytes) (p q : List Bytes)
      → IsDigest a
      → IsDigest b
      → All IsDigest p
      → All IsDigest q
      → length p ≡ length q
      → fold_proof h a i p ≡ fold_proof h b i q
      → ((a ≡ b) × (p ≡ q)) ⊎ Collision h
  unfolding fold_proof
  fold_proof-binding i a b [] [] da db dp dq n e = inl (e, refl)
  fold_proof-binding i a b [] (t ∷ q) da db dp dq n e = absurd (omega arith)
  fold_proof-binding i a b (s ∷ p) [] da db dp dq n e = absurd (omega arith)
  fold_proof-binding i a b (s ∷ p) (t ∷ q) da db dp dq n e =
      elim (fold_proof-binding (i / 2) (fold_sibling h i a s) (fold_sibling h i b t) p q
        (fold_sibling-IsDigest i a s) (fold_sibling-IsDigest i b t) dp.1 dq.1 (omega arith) e) [
          | inl r ↦ elim (fold_sibling_injective i a s b t da dp.0 db dq.0 r.0) [
            | inl u ↦ inl (u.0, ap₂ (λ x y. x ∷ y) u.1 r.1)
            | inr collision ↦ inr collision
          ]
          | inr collision ↦ inr collision
        ]

  -- Two leaves that `verify` accepts at one index under one root, with proofs of one length, all of
  -- them digests of 32 bytes, are the same leaf with the same proof, or two inputs are at hand on
  -- which the hash function collides.
  pub verify-binding :
      (root a b : Bytes) (index : ℕ) (p q : List Bytes)
      → IsDigest a
      → IsDigest b
      → All IsDigest p
      → All IsDigest q
      → length p ≡ length q
      → verify h root a index p ≡ true
      → verify h root b index q ≡ true
      → ((a ≡ b) × (p ≡ q)) ⊎ Collision h
  unfolding verify
  verify-binding root a b index p q da db dp dq n u v =
      fold_proof-binding index a b p q da db dp dq n
        (bytes_eq→eq _ root u ∙ sym (bytes_eq→eq _ root v))
