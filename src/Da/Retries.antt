-- ===== src/Da/Retries.antt =====
-- How the client of bef_zk/da/provider.py ends.
use capsule_tech.Common.{
  ℕ, zero, suc, ◌+◌, ◌<◌, ◌≤◌, ◌≡◌, refl, sym, ap, subst, ◌∙◌, true, false, Option, none, some,
  Result, ok, err, availability_error, arith,
}
use capsule_tech.Da.{Attempt, timed, is_retried, fetch_from, client_fetch}

-- The timeout that counts.
abbrev pub effective : ℕ → Option ℕ → ℕ
effective own_timeout none = own_timeout
effective own_timeout (some timeout_ms) = timeout_ms

module _ {A : Type 0} where
  -- The call raises what the client catches.
  abbrev pub Retried : Result A → Type 0
  Retried (ok a) = ⊥
  Retried (err e) = is_retried e ≡ true

  -- The call ends the client's loop: a value in time, or an error that is not caught.
  abbrev pub Final : Result A → Type 0
  Final (ok a) = Unit
  Final (err e) = is_retried e ≡ false

  module _ (timeout : ℕ) (calls : ℕ → Attempt A) where
    Final-zero :
        (k : ℕ) (r : Result A)
        → timed timeout (calls k) ≡ r
        → Final r
        → fetch_from zero k timeout calls ≡ r
    unfolding fetch_from
    Final-zero k (ok a) e f = rw (e, fetch_from) refl
    Final-zero k (err x) e f = rw (e, fetch_from) (rw f refl)

    Final-suc :
        (left k : ℕ) (r : Result A)
        → timed timeout (calls k) ≡ r
        → Final r
        → fetch_from (suc left) k timeout calls ≡ r
    unfolding fetch_from
    Final-suc left k (ok a) e f = rw (e, fetch_from) refl
    Final-suc left k (err x) e f = rw (e, fetch_from) (rw (f, fetch_from) refl)

    Retried-zero :
        (k : ℕ) (r : Result A)
        → timed timeout (calls k) ≡ r
        → Retried r
        → fetch_from zero k timeout calls ≡ err availability_error
    unfolding fetch_from
    Retried-zero k (ok a) e f = absurd f
    Retried-zero k (err x) e f = rw (e, fetch_from) (rw f refl)

    Retried-suc :
        (left k : ℕ) (r : Result A)
        → timed timeout (calls k) ≡ r
        → Retried r
        → fetch_from (suc left) k timeout calls ≡ fetch_from left (k + 1) timeout calls
    unfolding fetch_from
    Retried-suc left k (ok a) e f = absurd f
    Retried-suc left k (err x) e f = rw (e, fetch_from) (rw (f, fetch_from) refl)

    settles :
        (left k n : ℕ)
        → ((i : ℕ) → i < n → Retried (timed timeout (calls (k + i))))
        → Final (timed timeout (calls (k + n)))
        → n ≤ left
        → fetch_from left k timeout calls ≡ timed timeout (calls (k + n))
    settles zero k zero tries final le =
        let here : k + 0 ≡ k = omega arith in
        Final-zero k (timed timeout (calls (k + 0)))
          (ap (λ (i : ℕ). timed timeout (calls i)) (sym here)) final
    settles (suc left) k zero tries final le =
        let here : k + 0 ≡ k = omega arith in
        Final-suc left k (timed timeout (calls (k + 0)))
          (ap (λ (i : ℕ). timed timeout (calls i)) (sym here)) final
    settles zero k (suc n) tries final le = absurd (omega arith)
    settles (suc left) k (suc n) tries final le =
        let here : k + 0 ≡ k = omega arith in
        let next : k + suc n ≡ k + 1 + n = omega arith in
        let first =
          subst (λ (i : ℕ). Retried (timed timeout (calls i))) here (tries 0 (omega arith)) in
        Retried-suc left k (timed timeout (calls k)) refl first
        ∙ settles left (k + 1) n
            (λ i lt.
              subst (λ (j : ℕ). Retried (timed timeout (calls j))) (omega arith)
                (tries (suc i) (omega arith)))
            (subst (λ (j : ℕ). Final (timed timeout (calls j))) next final) (omega arith)
        ∙ ap (λ (j : ℕ). timed timeout (calls j)) (sym next)

    exhausted :
        (left k : ℕ)
        → ((i : ℕ) → i ≤ left → Retried (timed timeout (calls (k + i))))
        → fetch_from left k timeout calls ≡ err availability_error
    exhausted zero k tries =
        let here : k + 0 ≡ k = omega arith in
        Retried-zero k (timed timeout (calls k)) refl
          (subst (λ (i : ℕ). Retried (timed timeout (calls i))) here (tries 0 (omega arith)))
    exhausted (suc left) k tries =
        let here : k + 0 ≡ k = omega arith in
        Retried-suc left k (timed timeout (calls k)) refl
          (subst (λ (i : ℕ). Retried (timed timeout (calls i))) here (tries 0 (omega arith)))
        ∙ exhausted left (k + 1) (λ i le.
          subst (λ (j : ℕ). Retried (timed timeout (calls j))) (omega arith)
            (tries (suc i) (omega arith)))

  -- If the first `n` calls time out or find nothing available, `n` is at most the number of retries, and
  -- the next call gives a value in time or another error, then this is the client's outcome.
  pub client_fetch_settles :
      (retries own_timeout : ℕ) (timeout_ms : Option ℕ) (calls : ℕ → Attempt A) (n : ℕ)
      → ((i : ℕ) → i < n → Retried (timed (effective own_timeout timeout_ms) (calls i)))
      → Final (timed (effective own_timeout timeout_ms) (calls n))
      → n ≤ retries
      → client_fetch retries own_timeout timeout_ms calls
        ≡ timed (effective own_timeout timeout_ms) (calls n)
  unfolding client_fetch
  client_fetch_settles retries own_timeout none calls n tries final le =
      settles own_timeout calls retries 0 n
        (λ i lt.
          subst (λ (j : ℕ). Retried (timed own_timeout (calls j))) (omega arith) (tries i lt))
        (subst (λ (j : ℕ). Final (timed own_timeout (calls j))) (omega arith) final) le
      ∙ ap (λ (j : ℕ). timed own_timeout (calls j)) (omega arith)
  client_fetch_settles retries own_timeout (some timeout_ms) calls n tries final le =
      settles timeout_ms calls retries 0 n
        (λ i lt. subst (λ (j : ℕ). Retried (timed timeout_ms (calls j))) (omega arith) (tries i lt))
        (subst (λ (j : ℕ). Final (timed timeout_ms (calls j))) (omega arith) final) le
      ∙ ap (λ (j : ℕ). timed timeout_ms (calls j)) (omega arith)

  -- If the first call and all its retries time out or find nothing available, the client raises
  -- `AvailabilityError`.
  pub client_fetch_exhausted :
      (retries own_timeout : ℕ) (timeout_ms : Option ℕ) (calls : ℕ → Attempt A)
      → ((i : ℕ) → i ≤ retries → Retried (timed (effective own_timeout timeout_ms) (calls i)))
      → client_fetch retries own_timeout timeout_ms calls ≡ err availability_error
  unfolding client_fetch
  client_fetch_exhausted retries own_timeout none calls tries =
      exhausted own_timeout calls retries 0 (λ i le.
        subst (λ (j : ℕ). Retried (timed own_timeout (calls j))) (omega arith) (tries i le))
  client_fetch_exhausted retries own_timeout (some timeout_ms) calls tries =
      exhausted timeout_ms calls retries 0
        (λ i le. subst (λ (j : ℕ). Retried (timed timeout_ms (calls j))) (omega arith) (tries i le))
