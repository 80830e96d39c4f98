-- ===== src/Stc/Merkle/Depth.antt =====
-- The sizes of the levels of bef_zk/stc/merkle.py: how many levels `build_levels` makes.
use capsule_tech.Common.{
  ℕ, zero, suc, ◌+◌, ◌-◌, ◌*◌, ◌/◌, ◌^◌, ◌≤◌, ◌<◌, max, ◌≡◌, List, [], ◌∷◌, lt→ltb, ge→ltb, length,
  arith,
}
use capsule_tech.Common.Bytes.{Bytes, Sha}
use capsule_tech.Stc.Merkle.{pair_up, build_above}
use native.Mathlib.Nat.{pow-suc}
use native.Mathlib.Decide.{dec_lt}

module _ (h : Sha) where
  pub length-pair_up : (l : List Bytes) → length (pair_up h l) ≡ (length l + 1) / 2
  unfolding pair_up
  length-pair_up [] = omega arith
  length-pair_up (a ∷ []) = omega arith
  length-pair_up (a ∷ b ∷ r) = omega (arith, length-pair_up r)

  -- One more round, while there is more than one node.
  pub build_above_more :
      (rounds : ℕ) (l : List Bytes)
      → 1 < length l
      → build_above h (suc rounds) l ≡ pair_up h l ∷ build_above h rounds (pair_up h l)
  unfolding build_above
  build_above_more rounds l p = rw (lt→ltb 1 (length l) p, build_above)

  pub build_above_done :
      (rounds : ℕ) (l : List Bytes) → length l ≤ 1 → build_above h (suc rounds) l ≡ []
  unfolding build_above
  build_above_done rounds l p = rw (ge→ltb 1 (length l) p, build_above)

  -- With as many rounds as leaves the tree above has the least height that holds the leaves.
  pub build_above_bounds :
      (rounds : ℕ) (l : List Bytes)
      → 1 ≤ length l
      → length l ≤ rounds
      → (length l ≤ 2 ^ length (build_above h rounds l))
        × (2 ^ length (build_above h rounds l) ≤ max 1 (2 * (length l - 1)))
  build_above_bounds zero l p q = absurd (omega arith)
  build_above_bounds (suc rounds) l p q = elim (dec_lt 1 (length l)) [
    | yes more ↦
        let size = length-pair_up l in
        let ih = build_above_bounds rounds (pair_up h l) (omega arith) (omega arith) in
        rw (build_above_more rounds l more)
          (omega (arith, pow-suc 2 (length (build_above h rounds (pair_up h l)))))
    | no done ↦ rw (build_above_done rounds l (omega arith)) (omega arith)
  ]
