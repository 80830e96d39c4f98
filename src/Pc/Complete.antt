-- ===== src/Pc/Complete.antt =====
-- What bef_zk/pc/stc_fri_pc.py opens, it verifies.
pub mod OverStc
mod Examples
use capsule_tech.Fri.Prover.{build_layers}
use capsule_tech.Common.{
  ℕ, zero, suc, ◌+◌, ◌*◌, ◌%◌, ◌^◌, ◌<◌, ◌≤◌, ◌≡◌, refl, sym, subst, ap, ◌∙◌, Bool, true, false,
  not, List, [], ◌∷◌, map, ◌==◌, length, length-map, All, Result, ok, arith, ◌⊎◌,
}
use capsule_tech.Common.Bytes.{Sha}
use capsule_tech.Common.Field.{modulus, mod-lt_modulus}
use capsule_tech.Stc.Vector.{VectorCommitment, VcLaws}
use capsule_tech.Fri.Config.{FriConfig}
use capsule_tech.Fri.Types.{FriProof, FriLayerInfo}
use capsule_tech.Fri.Complete.{fri_prove-verify, IsReduced, ValuesAt, distinct_roots}
use capsule_tech.Pc.{PcCommitment, PcProverState, pc_commit, pc_open, pc_verify}
use native.Mathlib.Nat.{pow-suc}

abbrev pub reduced : List ℕ → List ℕ
reduced values = map (λ v. v % modulus) values

reduced-IsReduced : (values : List ℕ) → IsReduced (reduced values)
reduced-IsReduced [] = tt
reduced-IsReduced (v ∷ vs) = (mod-lt_modulus v, reduced-IsReduced vs)

module _ (h : Sha) (vc : VectorCommitment) where
  -- The layers of an opening are committed to, and then the verifier accepts the opening that is made,
  -- or two of the layers have one root.
  abbrev pub Opened : FriConfig → PcProverState → List ℕ → List ℕ → vc.State → Type 0
  Opened cfg state points expected s =
      (layers : List FriLayerInfo) × (t : vc.State) × (build_layers h vc cfg state.values
          state.commitment.base_commitment s
        ≡ ok (layers, t))
      × (((proof : FriProof) × (s' : vc.State) × (pc_open h vc state points s ≡ ok (proof, s'))
            × (pc_verify h vc state.commitment proof points expected ≡ true))
          ⊎ (distinct_roots layers ≡ false))

module _ (h : Sha) (vc : VectorCommitment) (laws : VcLaws vc) where
  -- Over a vector commitment with the laws of its interface that can open each layer's length
  pub pc_open-verify :
      (cfg : FriConfig) (m : ℕ) (values : List ℕ) (s : vc.State) (p : ℕ) (points expected : List ℕ)
      → cfg.field_modulus ≡ modulus
      → 1 ≤ cfg.num_rounds
      → 0 < length values
      → ((j : ℕ) → j ≤ cfg.num_rounds → laws.Fair (m * 2 ^ j))
      → length values ≡ cfg.domain_size
      → cfg.domain_size ≡ m * 2 ^ cfg.num_rounds
      → All (λ q. q < length values) (p ∷ points)
      → ValuesAt (reduced values) (p ∷ points) (reduced expected)
      → (state : PcProverState) × (s' : vc.State) × (pc_commit vc values cfg s ≡ ok (state, s'))
        × Opened h vc cfg state (p ∷ points) expected s'
  unfolding pc_commit pc_open pc_verify
  pc_open-verify cfg m values s p points expected fm r some_values is_fair n d lt at =
      let same = length-map (λ v. v % modulus) values in
      let whole : length (reduced values) ≡ m * 2 ^ cfg.num_rounds = same ∙ n ∙ d in
      let (c, s', committed, held) =
        laws.commit_holds (reduced values) s (omega (arith, same))
          (subst laws.Fair (sym whole) (is_fair cfg.num_rounds (omega arith)))
          (reduced-IsReduced values) in
      let size : (length values == cfg.domain_size) ≡ true = ground arith in
      let accepted =
        fri_prove-verify h vc laws cfg m (reduced values) c s' p points (reduced expected) fm r
          (positive m (cfg.num_rounds) (length values) some_values (n ∙ d))
          (λ j below. is_fair j (omega arith)) whole (reduced-IsReduced values) held
          (subst (λ (n : ℕ). All (λ q. q < n) (p ∷ points)) (sym same) lt) at in
      (
        record {
          commitment = record { fri_params = cfg; base_commitment = c };
          values = reduced values;
        },
        s',
        rw size (rw committed refl),
        accepted,
      )
    where
      positive : (m r n : ℕ) → 0 < n → n ≡ m * 2 ^ r → 0 < m
      positive zero r n p e = absurd (omega arith)
      positive (suc m) r n p e = omega arith
