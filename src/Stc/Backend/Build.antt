-- ===== src/Stc/Backend/Build.antt =====
-- What `stc_build_pc_commitment` of bef_zk/stc/pc_backend.py makes of an accumulator with chunks.
use capsule_tech.Common.{
  ℕ, ◌<◌, ◌≤◌, ◌≡◌, refl, sym, ap, ◌∙◌, true, not, ◌||◌, ◌%◌, some, List, [], ◌∷◌, map, ◌==◌,
  length, length-map, ok, arith,
}
use capsule_tech.Common.Bytes.{Bytes, Sha}
use capsule_tech.Common.Field.{modulus}
use capsule_tech.Stc.Merkle.{Levels, root_from_levels}
use capsule_tech.Stc.Kary.{build_kary_levels}
use capsule_tech.Stc.Kary.Completeness.{prove_kary-verify_kary}
use capsule_tech.Stc.Accumulator.{Accumulator}
use capsule_tech.Stc.Backend.{StcCommitment, stc_build_pc_commitment, ensure_challenges, is_empty}

module _ (h : Sha) where
  pub record Commits (fuel arity : ℕ) (acc : Accumulator) : Type 0 where
    pub commitment : StcCommitment
    pub levels : Levels
    pub runs : stc_build_pc_commitment h fuel arity acc ≡ ok commitment
    pub size : commitment.size ≡ acc.size
    pub chunk_len : commitment.chunk_len ≡ acc.chunk_len
    pub counted : commitment.num_chunks ≡ length acc.chunks
    pub roots : commitment.chunk_roots ≡ map (λ c. c.root) acc.chunks
    pub arity_kept : commitment.chunk_tree_arity ≡ arity
    pub kept : commitment.chunk_levels ≡ some levels
    pub built : build_kary_levels h arity (map (λ c. c.root) acc.chunks) ≡ ok levels
    pub rooted : root_from_levels levels ≡ ok commitment.global_root

  challenged :
      (fuel : ℕ) (acc : Accumulator)
      → length acc.challenges ≡ acc.num_challenges
      → ensure_challenges h fuel acc ≡ ok acc
  unfolding ensure_challenges
  challenged fuel acc same =
      rw (by_count acc.num_challenges acc.challenges same, ensure_challenges) refl
    where
      by_count : (m : ℕ) (rs : List ℕ) → length rs ≡ m → ((m == 0) || not (is_empty rs)) ≡ true
      by_count m [] same = ground (arith, same)
      by_count m (r ∷ rs) same = ground (arith, same)

  pub stc_build_pc_commitment_total :
      (fuel arity : ℕ) (acc : Accumulator)
      → 2 ≤ arity
      → 0 < length acc.chunks
      → length acc.challenges ≡ acc.num_challenges
      → Commits fuel arity acc
  unfolding stc_build_pc_commitment
  stc_build_pc_commitment_total fuel arity acc two some_chunk same =
      by_chunks (map (λ c. c.root) acc.chunks) refl
    where
      by_chunks :
          (roots : List Bytes) → map (λ c. c.root) acc.chunks ≡ roots → Commits fuel arity acc
      by_chunks [] e =
          let n = length-map (λ c. c.root) acc.chunks in
          let z = ap (length {A = Bytes}) e in absurd (omega arith)
      by_chunks (r ∷ roots) e =
          let (levels, proof, root, built, proved, rooted, accepted) =
            prove_kary-verify_kary h arity two (r ∷ roots) 0 r refl in
          let c : StcCommitment = record {
            size = acc.size;
            chunk_len = acc.chunk_len;
            num_chunks = length acc.chunks;
            global_root = root;
            chunk_roots = r ∷ roots;
            chain_root = acc.root;
            challenges = acc.challenges;
            sketches = map (λ x. x % modulus) acc.sketches;
            powers = map (λ x. x % modulus) acc.powers;
            chunk_tree_arity = arity;
            chunk_levels = some levels;
          } in
          record {
            commitment = c;
            levels = levels;
            runs = rw (challenged fuel acc same) (rw e (rw built (rw rooted refl)));
            size = refl;
            chunk_len = refl;
            counted = refl;
            roots = sym e;
            arity_kept = refl;
            kept = refl;
            built = ap (build_kary_levels h arity) e ∙ built;
            rooted = rooted;
          }
