-- ===== src/Da/Examples.antt =====
-- A local archive of three chunks, and a provider that answers at its third call (bef_zk/da/provider.py).
use capsule_tech.Common.{
  ℕ, zero, suc, ◌<◌, ◌≡◌, refl, none, List, [], ◌∷◌, map, replicate, All, Result, ok, err,
  timeout_error, availability_error, arith,
}
use capsule_tech.Common.Ascending.{Ascending}
use capsule_tech.Common.Bytes.{Bytes}
use capsule_tech.Common.Toy.{toy_sha}
use capsule_tech.Stc.Merkle.{root_from_levels}
use capsule_tech.Da.{
  ChunkFetchResult, LocalProvider, new_provider, unique_indices, fetch_batch, Attempt, timed,
  client_fetch,
}
use capsule_tech.Da.Inclusion.{Included, fetch_batch-Included}
use capsule_tech.Da.Retries.{Retried, Final, client_fetch_settles, client_fetch_exhausted}

abbrev handles : List Bytes
handles = (1 ∷ []) ∷ (2 ∷ []) ∷ (3 ∷ []) ∷ []

abbrev roots : List Bytes
roots = replicate 32 1 ∷ replicate 32 2 ∷ replicate 32 3 ∷ []

-- The archive's files hold their handle.
abbrev archive : Bytes → Result (List ℕ)
archive handle = ok handle

fetch_batch-Included_example :
    (provider : LocalProvider) × (root : Bytes) × (resolved : List (ℕ × ChunkFetchResult))
    × (new_provider toy_sha handles roots 2 ≡ ok provider)
    × (root_from_levels provider.levels ≡ ok root)
    × (fetch_batch archive provider (2 ∷ 0 ∷ 2 ∷ []) ≡ ok resolved)
    × (map (λ r. r.0) resolved ≡ unique_indices (2 ∷ 0 ∷ 2 ∷ []))
    × Ascending (unique_indices (2 ∷ 0 ∷ 2 ∷ []))
    × All (λ r. Included toy_sha archive handles roots root r.0 r.1) resolved
fetch_batch-Included_example =
    fetch_batch-Included toy_sha archive handles roots 2 (2 ∷ 0 ∷ 2 ∷ []) (omega arith)
      (omega arith) refl (omega arith, (omega arith, (omega arith, tt)))
      (
        (3 ∷ [], 3 ∷ [], refl, omega arith, refl),
        (
          (1 ∷ [], 1 ∷ [], refl, omega arith, refl),
          ((3 ∷ [], 3 ∷ [], refl, omega arith, refl), tt),
        ),
      )

-- Late, then unavailable, then in time.
abbrev calls : ℕ → Attempt ℕ
calls zero = record { result = ok 5; elapsed = 900 }
calls (suc zero) = record { result = err timeout_error; elapsed = 10 }
calls (suc (suc n)) = record { result = ok 7; elapsed = 20 }

two_tried : (i : ℕ) → i < 2 → Retried (timed 100 (calls i))
unfolding timed
two_tried zero lt = refl
two_tried (suc zero) lt = refl
two_tried (suc (suc i)) lt = absurd (omega arith)

third-Final : Final (timed 100 (calls 2))
unfolding timed
third-Final = tt

client_fetch_settles_example : client_fetch 2 100 none calls ≡ timed 100 (calls 2)
client_fetch_settles_example =
    client_fetch_settles 2 100 none calls 2 two_tried third-Final (omega arith)

client_fetch_exhausted_example : client_fetch 1 100 none calls ≡ err availability_error
client_fetch_exhausted_example =
    client_fetch_exhausted 1 100 none calls (λ i le. two_tried i (omega arith))
