-- ===== src/Da.antt =====
-- bef_zk/da/provider.py: chunks with their inclusion proofs from a local archive, and the client that
-- retries. The file system is the parameter `load_values`, from a chunk's handle to its values.
pub mod Inclusion
pub mod Retries
mod Examples
use capsule_tech.Common.{
  ℕ, zero, suc, ◌+◌, ◌*◌, Bool, true, false, not, ◌&&◌, Option, none, some, List, [], ◌∷◌, ltb, leb,
  ◌==◌, if◌then◌else◌, length, get_elem?, Result, ok, err, Error, value_error, index_error,
  availability_error, timeout_error, ◌>>=◌, ◌>>◌, raise_if, or_raise,
}
use capsule_tech.Common.Ascending.{add}
use capsule_tech.Common.Bytes.{Bytes, Sha}
use capsule_tech.Stc.Merkle.{Levels}
use capsule_tech.Stc.Kary.{build_kary_levels, prove_kary}

pub record ChunkInclusionProof : Type 0 where
  pub siblings : List (List Bytes)
  pub arity : ℕ
  pub tree_size : ℕ

pub record ChunkFetchResult : Type 0 where
  pub values : List ℕ
  pub proof : ChunkInclusionProof

pub record LocalProvider : Type 0 where
  pub handles : List Bytes
  pub chunk_roots : List Bytes
  pub arity : ℕ
  pub levels : Levels

-- `LocalFileSystemProvider(...)`
unfoldable pub new_provider : Sha → List Bytes → List Bytes → ℕ → Result LocalProvider
new_provider h chunk_handles chunk_roots tree_arity = do
  raise_if (ltb tree_arity 2) value_error
  raise_if (not (length chunk_handles == length chunk_roots)) value_error
  levels ← build_kary_levels h tree_arity chunk_roots
  ok (record {
    handles = chunk_handles;
    chunk_roots = chunk_roots;
    arity = tree_arity;
    levels = levels;
  })

-- `sorted({int(idx) for idx in indices})`
unfoldable pub unique_indices : List ℕ → List ℕ
unique_indices [] = []
unique_indices (idx ∷ indices) = add idx (unique_indices indices)

module _ (load_values : Bytes → Result (List ℕ)) where
  -- The body of the loop of `fetch_batch`.
  unfoldable pub fetch_chunk : LocalProvider → ℕ → Result ChunkFetchResult
  fetch_chunk provider idx = do
    raise_if (leb (length provider.handles) idx) index_error
    handle ← or_raise index_error (get_elem? provider.handles idx)
    raise_if (length handle == 0) value_error
    values ← load_values handle
    siblings ← prove_kary provider.levels idx provider.arity
    ok (record {
      values = values;
      proof = record {
        siblings = siblings;
        arity = provider.arity;
        tree_size = length provider.handles;
      };
    })

  -- `resolved`, in the order in which it is filled.
  unfoldable pub fetch_indices : LocalProvider → List ℕ → Result (List (ℕ × ChunkFetchResult))
  unfolding fetch_chunk
  fetch_indices provider [] = ok []
  fetch_indices provider (idx ∷ rest) = do
    found ← fetch_chunk provider idx
    resolved ← fetch_indices provider rest
    ok ((idx, found) ∷ resolved)

  unfoldable pub fetch_batch : LocalProvider → List ℕ → Result (List (ℕ × ChunkFetchResult))
  unfolding unique_indices fetch_indices
  fetch_batch provider indices = fetch_indices provider (unique_indices indices)

-- What one call of the wrapped provider does: its result, and the milliseconds that it takes.
pub record Attempt (A : Type 0) : Type 0 where
  pub result : Result A
  pub elapsed : ℕ

-- `except (TimeoutError, AvailabilityError)`
abbrev pub is_retried : Error → Bool
is_retried timeout_error = true
is_retried availability_error = true
is_retried Error.value_error = false
is_retried Error.index_error = false
is_retried Error.key_error = false
is_retried Error.type_error = false
is_retried Error.attribute_error = false
is_retried Error.cbor_error = false
is_retried Error.runtime_error = false
is_retried Error.struct_error = false
is_retried Error.extraction_error = false
is_retried Error.overflow_error = false
is_retried Error.zero_division_error = false
is_retried Error.os_error = false
is_retried Error.fuel = false

module _ {A : Type 0} where
  -- `if effective_timeout and elapsed > effective_timeout: raise AvailabilityError`
  unfoldable pub timed : ℕ → Attempt A → Result A
  timed effective_timeout attempt = do
    a ← attempt.result
    raise_if (not (effective_timeout == 0) && ltb effective_timeout attempt.elapsed)
        availability_error
    ok a

  -- `while attempt <= self._retries`, with the retries that are left.
  unfoldable pub fetch_from : ℕ → ℕ → ℕ → (ℕ → Attempt A) → Result A
  unfolding timed
  fetch_from zero attempt effective_timeout calls = elim (timed effective_timeout (calls attempt)) [
    | ok a ↦ ok a
    | err e ↦ if is_retried e then err availability_error else err e
  ]
  fetch_from (suc left) attempt effective_timeout calls =
      elim (timed effective_timeout (calls attempt)) [
        | ok a ↦ ok a
        | err e ↦ elim (is_retried e) [
          | true ↦ fetch_from left (attempt + 1) effective_timeout calls
          | false ↦ err e
        ]
      ]

  -- `PolicyAwareDAClient.fetch_batch`, where call `i` of the provider goes as `calls i`.
  unfoldable pub client_fetch : ℕ → ℕ → Option ℕ → (ℕ → Attempt A) → Result A
  unfolding fetch_from
  client_fetch retries own_timeout none calls = fetch_from retries 0 own_timeout calls
  client_fetch retries own_timeout (some timeout_ms) calls = fetch_from retries 0 timeout_ms calls
