-- ===== src/Stc/Accumulator/Challenges.antt =====
-- `derive_challenges` and the constructor of bef_zk/stc/aok_cpu.py, and a whole run from a fresh
-- accumulator.
use capsule_tech.Common.{
  ℕ, zero, suc, ◌+◌, ◌%◌, ◌^◌, ◌<◌, ◌≤◌, ◌≡◌, refl, sym, ap, subst, ◌∙◌, false, inl, inr,
  Bool-cases, if◌then◌else◌, take, length-take, Option, List, [], ◌∷◌, map, length, All, replicate,
  ◌==◌, Result, ok, err, ◌>>=◌, arith,
}
use mathlib.Core.Path.{ap₂}
use native.Mathlib.Nat.{pow-zero}
use native.Mathlib.Decide.{dec_lt}
use capsule_tech.Common.Bytes.{Bytes, Sha}
use capsule_tech.Common.Field.{modulus}
use capsule_tech.Stc.Accumulator.{
  Accumulator, root_seed, candidate_at, derive_from, derive_challenges, new_accumulator, add_chunks,
}
use capsule_tech.Stc.Accumulator.Sketches.{weigh}
use capsule_tech.Stc.Accumulator.Streaming.{Tracks, stream_of, add_chunks_sketches}

-- A challenge is a unit of the field.
abbrev pub IsChallenge : ℕ → Type 0
IsChallenge r = (0 < r) × (r < modulus)

abbrev pub HasChallenges : ℕ → Result (List ℕ) → Type 0
HasChallenges m (ok rs) = (length rs ≡ m) × All IsChallenge rs
HasChallenges m (err e) = Unit

module _ (h : Sha) where
  cons_challenge :
      (m r : ℕ) (rest : Result (List ℕ))
      → IsChallenge r
      → HasChallenges m rest
      → HasChallenges (suc m) (rest >>= λ rs. ok (r ∷ rs))
  cons_challenge m r (ok rs) c p = (ap suc p.0, (c, p.1))
  cons_challenge m r (err e) c p = tt

  derive_skip :
      (fuel : ℕ) (root : Bytes) (left counter : ℕ)
      → candidate_at h root counter ≡ 0
      → derive_from h (suc fuel) root (suc left) counter
        ≡ derive_from h fuel root (suc left) (counter + 1)
  unfolding derive_from
  derive_skip fuel root left counter e = rw (e, derive_from) refl

  derive_take :
      (fuel : ℕ) (root : Bytes) (left counter : ℕ)
      → 0 < candidate_at h root counter
      → derive_from h (suc fuel) root (suc left) counter ≡ (
          derive_from h fuel root left (counter + 1) >>= λ rest.
          ok (candidate_at h root counter ∷ rest))
  unfolding derive_from
  derive_take fuel root left counter p =
      let other : (candidate_at h root counter == 0) ≡ false = ground arith in
      rw (other, derive_from) refl

  candidate_at-lt : (root : Bytes) (counter : ℕ) → candidate_at h root counter < modulus
  unfolding candidate_at
  candidate_at-lt root counter = omega arith

  derive_from-HasChallenges :
      (fuel : ℕ) (root : Bytes) (left counter : ℕ)
      → HasChallenges left (derive_from h fuel root left counter)
  unfolding derive_from
  derive_from-HasChallenges zero root zero counter = (refl, tt)
  derive_from-HasChallenges zero root (suc left) counter = tt
  derive_from-HasChallenges (suc fuel) root zero counter = (refl, tt)
  derive_from-HasChallenges (suc fuel) root (suc left) counter =
      elim (dec_lt 0 (candidate_at h root counter)) [
        | yes p ↦ subst (HasChallenges (suc left)) (sym (derive_take fuel root left counter p)) (
            cons_challenge left (candidate_at h root counter)
              (derive_from h fuel root left (counter + 1)) (p, candidate_at-lt root counter)
              (derive_from-HasChallenges fuel root left (counter + 1)))
        | no z ↦
            subst (HasChallenges (suc left))
              (sym (derive_skip fuel root left counter (omega arith)))
              (derive_from-HasChallenges fuel root (suc left) (counter + 1))
      ]

  -- Enough fuel: where no candidate is 0, as many rounds as challenges.
  derive_from_total :
      (fuel : ℕ) (root : Bytes) (left counter : ℕ)
      → ((i : ℕ) → 0 < candidate_at h root i)
      → left ≤ fuel
      → (rs : List ℕ) × (derive_from h fuel root left counter ≡ ok rs)
  unfolding derive_from
  derive_from_total zero root zero counter p le = ([], refl)
  derive_from_total zero root (suc left) counter p le = absurd (omega arith)
  derive_from_total (suc fuel) root zero counter p le = ([], refl)
  derive_from_total (suc fuel) root (suc left) counter p le =
      let (rs, e) = derive_from_total fuel root left (counter + 1) p (omega arith) in
      (candidate_at h root counter ∷ rs, derive_take fuel root left counter (p counter) ∙ rw e refl)

  -- Where no candidate is 0, `m` rounds give `m` challenges, each of them a non-zero element of the field.
  pub derive_challenges_lem :
      (fuel m : ℕ) (root : Bytes)
      → ((i : ℕ) → 0 < candidate_at h root i)
      → m ≤ fuel
      → (rs : List ℕ) × (derive_challenges h fuel root m ≡ ok rs)
        × (length rs ≡ m)
        × All IsChallenge rs
  unfolding derive_challenges
  derive_challenges_lem fuel m root p le =
      let (rs, e) = derive_from_total fuel root m 0 p le in
      let found = subst (HasChallenges m) e (derive_from-HasChallenges fuel root m 0) in
      (rs, e, found.0, found.1)

  -- The candidates of `rounds` rounds from `counter` on that are not 0, in their order
  abbrev pub units : ℕ → Bytes → ℕ → List ℕ
  units zero root counter = []
  units (suc rounds) root counter =
      if candidate_at h root counter == 0
      then units rounds root (counter + 1)
      else candidate_at h root counter ∷ units rounds root (counter + 1)

  derive_from-eq-take :
      (fuel : ℕ) (root : Bytes) (left counter : ℕ)
      → left ≤ length (units fuel root counter)
      → derive_from h fuel root left counter ≡ ok (take left (units fuel root counter))
  unfolding derive_from
  derive_from-eq-take zero root zero counter le = refl
  derive_from-eq-take zero root (suc left) counter le = absurd (omega arith)
  derive_from-eq-take (suc fuel) root zero counter le = refl
  derive_from-eq-take (suc fuel) root (suc left) counter le =
      elim (Bool-cases (candidate_at h root counter == 0)) [
        | inl zero_one ↦
            rw (zero_one, derive_from)
              (derive_from-eq-take fuel root (suc left) (counter + 1) (rw zero_one at le))
        | inr other ↦
            let enough : left ≤ length (units fuel root (counter + 1)) =
              (let le' = rw other at le in omega (arith, le')) in
            rw (other, derive_from)
              (rw (derive_from-eq-take fuel root left (counter + 1) enough) refl)
      ]

  units-IsChallenge :
      (rounds : ℕ) (root : Bytes) (counter : ℕ) → All IsChallenge (units rounds root counter)
  units-IsChallenge zero root counter = tt
  units-IsChallenge (suc rounds) root counter =
      elim (Bool-cases (candidate_at h root counter == 0)) [
        | inl zero_one ↦ rw zero_one (units-IsChallenge rounds root (counter + 1))
        | inr other ↦ rw other (
          (ground (arith, other), candidate_at-lt root counter),
          units-IsChallenge rounds root (counter + 1),
        )
      ]

  take-All : (n : ℕ) (l : List ℕ) → All IsChallenge l → All IsChallenge (take n l)
  take-All zero l all = tt
  take-All (suc n) [] all = tt
  take-All (suc n) (x ∷ l) all = (all.0, take-All n l all.1)

  -- Where at least `m` of the first `fuel` candidates are not 0, the challenges are the first `m` of
  -- these, in their order: `m` non-zero elements of the field.
  pub derive_challenges-eq-take :
      (fuel m : ℕ) (root : Bytes)
      → m ≤ length (units fuel root 0)
      → (derive_challenges h fuel root m ≡ ok (take m (units fuel root 0)))
        × (length (take m (units fuel root 0)) ≡ m)
        × All IsChallenge (take m (units fuel root 0))
  unfolding derive_challenges
  derive_challenges-eq-take fuel m root le = (
    derive_from-eq-take fuel root m 0 le,
    omega (arith, length-take m (units fuel root 0)),
    take-All m (units fuel root 0) (units-IsChallenge fuel root 0),
  )

  -- Each challenge has the sketch 0 and the power 1 at first.
  fresh_sketches : (rs : List ℕ) → replicate (length rs) 0 ≡ map (λ r. weigh r 0 [] % modulus) rs
  fresh_sketches [] = refl
  fresh_sketches (r ∷ rs) = ap (λ (l : List ℕ). 0 ∷ l) (fresh_sketches rs)

  fresh_powers : (rs : List ℕ) → replicate (length rs) 1 ≡ map (λ r. r ^ 0 % modulus) rs
  fresh_powers [] = refl
  fresh_powers (r ∷ rs) =
      ap₂ (λ (a : ℕ) (l : List ℕ). a ∷ l) (ap (λ (t : ℕ). t % modulus) (sym (pow-zero r)))
        (fresh_powers rs)

  abbrev pub fresh_state : ℕ → ℕ → Bytes → List ℕ → Accumulator
  fresh_state chunk_len m seed rs = record {
    size = 0;
    chunk_len = chunk_len;
    num_challenges = m;
    chunks = [];
    root = root_seed h;
    challenge_seed = seed;
    challenges = rs;
    sketches = replicate m 0;
    powers = replicate m 1;
  }

  -- From the constructor on: with non-zero candidates and enough rounds an accumulator is made, all
  -- non-empty chunks are taken in, and each sketch is the polynomial of the whole stream at its
  -- challenge modulo the prime, each power the challenge to the stream's length.
  pub run_sketches :
      (archive : Option (ℕ → List ℕ → Bytes)) (fuel m chunk_len : ℕ) (seed : Bytes)
      (chunks : List (List ℕ))
      → ((i : ℕ) → 0 < candidate_at h seed i)
      → m ≤ fuel
      → All (λ c. 0 < length c) chunks
      → (fresh : Accumulator) × (acc : Accumulator) × (rs : List ℕ) × (new_accumulator h fuel m
            chunk_len seed
          ≡ ok fresh)
        × (add_chunks h archive chunks fresh ≡ ok acc)
        × (length rs ≡ m)
        × All IsChallenge rs
        × Tracks acc rs (stream_of chunks)
  unfolding new_accumulator
  run_sketches archive fuel m chunk_len seed chunks p le full =
      let (rs, e, n, good) = derive_challenges_lem fuel m seed p le in
      let fresh : Accumulator = fresh_state chunk_len m seed rs in
      let start : Tracks fresh rs [] = record {
        challenged = refl;
        counted = refl;
        sketched = ap (λ (k : ℕ). replicate k 0) (sym n) ∙ fresh_sketches rs;
        powered = ap (λ (k : ℕ). replicate k 1) (sym n) ∙ fresh_powers rs;
      } in
      let (acc, f, t) = add_chunks_sketches h archive chunks rs [] fresh full start in
      (fresh, acc, rs, rw e refl, f, n, good, t)

  -- The constructor, where there are enough candidates that are not 0
  pub new_accumulator-Tracks :
      (fuel m chunk_len : ℕ) (seed : Bytes)
      → m ≤ length (units fuel seed 0)
      → (rs : List ℕ) × (new_accumulator h fuel m chunk_len seed
          ≡ ok (fresh_state chunk_len m seed rs))
        × (length rs ≡ m)
        × Tracks (fresh_state chunk_len m seed rs) rs []
  unfolding new_accumulator
  new_accumulator-Tracks fuel m chunk_len seed enough =
      let (e, n, good) = derive_challenges-eq-take fuel m seed enough in
      let rs = take m (units fuel seed 0) in
      (
        rs,
        rw e refl,
        n,
        record {
          challenged = refl;
          counted = refl;
          sketched = ap (λ (k : ℕ). replicate k 0) (sym n) ∙ fresh_sketches rs;
          powered = ap (λ (k : ℕ). replicate k 1) (sym n) ∙ fresh_powers rs;
        },
      )
