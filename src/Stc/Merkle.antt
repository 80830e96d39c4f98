-- ===== src/Stc/Merkle.antt =====
-- bef_zk/stc/merkle.py, the binary tree: `build_levels`, `root_from_levels`, `prove`, `verify`.
-- Digests are byte strings; hashlib's SHA-256 is the parameter `h`. Indices are natural numbers, so
-- the guard `index < 0` has no case. `idx ^ 1` is written out by the parity of `idx`.
pub mod Opening
pub mod Depth
pub mod Completeness
pub mod Binding
mod Examples
use capsule_tech.Common.{
  ℕ, zero, suc, ◌+◌, ◌-◌, ◌/◌, ◌%◌, Bool, true, false, Option, none, some, List, [], ◌∷◌, ltb, leb,
  ◌==◌, if◌then◌else◌, length, get_elem?, Result, ok, err, value_error, index_error, ◌>>=◌, ◌>>◌,
  raise_if, or_raise,
}
use capsule_tech.Common.Bytes.{Bytes, Sha, bytes_eq, join}

abbrev pub Levels : Type 0
Levels = List (List Bytes)

-- `levels[-1][0]`
unfoldable pub root_from_levels : Levels → Result Bytes
root_from_levels [] = err index_error
root_from_levels ([] ∷ []) = err index_error
root_from_levels ((d ∷ ds) ∷ []) = ok d
root_from_levels (l ∷ m ∷ rest) = root_from_levels (m ∷ rest)

-- `sibling = idx ^ 1; if sibling >= len(level): sibling = idx`
pub sibling_of : ℕ → ℕ → ℕ
sibling_of size idx =
    let flipped = if idx % 2 == 0 then idx + 1 else idx - 1 in
    if leb size flipped then idx else flipped

-- The loop of `prove` over `levels[:-1]`.
pub prove_from : Levels → ℕ → Result (List Bytes)
prove_from [] idx = ok []
prove_from (level ∷ []) idx = ok []
prove_from (level ∷ next ∷ above) idx = do
  sibling ← or_raise index_error (get_elem? level (sibling_of (length level) idx))
  rest ← prove_from (next ∷ above) (idx / 2)
  ok (sibling ∷ rest)

pub prove : Levels → ℕ → Result (List Bytes)
unfolding prove_from
prove [] index = err index_error
prove (leaves ∷ above) index = do
  raise_if (leb (length leaves) index) value_error
  prove_from (leaves ∷ above) index

module _ (h : Sha) where
  unfoldable pub hash_children : List Bytes → Bytes
  hash_children children = h.sha256 (join children)

  unfoldable pub hash_pair : Bytes → Bytes → Bytes
  unfolding hash_children
  hash_pair left right = hash_children (left ∷ right ∷ [])

  -- One round of `build_levels`: a last node without a neighbour is paired with itself.
  unfoldable pub pair_up : List Bytes → List Bytes
  pair_up [] = []
  pair_up (left ∷ []) = hash_pair left left ∷ []
  pair_up (left ∷ right ∷ rest) = hash_pair left right ∷ pair_up rest

  -- `while len(current) > 1`, with the rounds as fuel: the levels above `current`.
  unfoldable pub build_above : ℕ → List Bytes → Levels
  build_above zero current = []
  build_above (suc rounds) current = elim (ltb 1 (length current)) [
    | true ↦ pair_up current ∷ build_above rounds (pair_up current)
    | false ↦ []
  ]

  unfoldable pub build_levels : List Bytes → Result Levels
  build_levels leaves = do
    raise_if (length leaves == 0) value_error
    ok (leaves ∷ build_above (length leaves) leaves)

  -- One round of `verify`.
  pub fold_sibling : ℕ → Bytes → Bytes → Bytes
  fold_sibling idx acc sibling =
      if idx % 2 == 0 then hash_pair acc sibling else hash_pair sibling acc

  unfoldable pub fold_proof : Bytes → ℕ → List Bytes → Bytes
  fold_proof acc idx [] = acc
  fold_proof acc idx (sibling ∷ rest) = fold_proof (fold_sibling idx acc sibling) (idx / 2) rest

  unfoldable pub verify : Bytes → Bytes → ℕ → List Bytes → Bool
  unfolding fold_proof
  verify root leaf index proof = bytes_eq (fold_proof leaf index proof) root
