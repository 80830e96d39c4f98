-- ===== src/Stc/Kary.antt =====
-- bef_zk/stc/merkle.py, the k-ary tree: `build_kary_levels`, `prove_kary` and `verify_kary`. Indices are
-- natural numbers, so the guards `index < 0` have no case; `math.ceil(level_size / arity)` is exact,
-- as it is for sizes that a float can hold.
pub mod Group
pub mod Blocks
pub mod Above
pub mod Completeness
mod Examples
use capsule_tech.Common.{
  ℕ, zero, suc, ◌+◌, ◌-◌, ◌*◌, ◌/◌, max, Bool, true, false, ◌&&◌, Option, none, some, List, [], ◌∷◌,
  ◌++◌, ltb, leb, ◌==◌, if◌then◌else◌, length, get_elem?, take, drop, replicate, Result, ok, err,
  value_error, index_error, zero_division_error, ◌>>=◌, ◌>>◌, raise_if, or_raise,
}
use capsule_tech.Common.Bytes.{Bytes, Sha, bytes_eq}
use capsule_tech.Stc.Merkle.{Levels, hash_children}

-- The last of a block, which is not empty.
abbrev pub last_of : Bytes → List Bytes → Bytes
last_of d [] = d
last_of d (e ∷ block) = last_of e block

-- `while len(padded) < arity: padded.append(padded[-1])`
abbrev pub pad_block : ℕ → Bytes → List Bytes → List Bytes
pad_block arity d block = (d ∷ block) ++ replicate (arity - length (d ∷ block)) (last_of d block)

-- `if pos >= level_size: pos = level_size - 1`
abbrev pub clamp : ℕ → ℕ → ℕ
clamp level_size pos = if leb level_size pos then level_size - 1 else pos

module _ (h : Sha) (arity : ℕ) where
  unfoldable pub hash_block : List Bytes → Result Bytes
  hash_block [] = err index_error
  hash_block (d ∷ []) = ok d
  hash_block (d ∷ e ∷ block) = ok (hash_children h (pad_block arity d (e ∷ block)))

  -- `for i in range(0, len(current), arity)`, with fuel.
  unfoldable pub hash_blocks : ℕ → List Bytes → Result (List Bytes)
  unfolding hash_block
  hash_blocks fuel [] = ok []
  hash_blocks zero (d ∷ current) = ok []
  hash_blocks (suc fuel) (d ∷ current) = do
    node ← hash_block (take arity (d ∷ current))
    rest ← hash_blocks fuel (drop arity (d ∷ current))
    ok (node ∷ rest)

  -- `while len(current) > 1`, with the rounds as fuel: the levels above `current`.
  unfoldable pub build_kary_above : ℕ → List Bytes → Result Levels
  unfolding hash_blocks
  build_kary_above zero current = ok []
  build_kary_above (suc rounds) current = elim (ltb 1 (length current)) [
    | true ↦ (do
      nxt ← hash_blocks (length current) current
      above ← build_kary_above rounds nxt
      ok (nxt ∷ above))
    | false ↦ ok []
  ]

  unfoldable pub build_kary_levels : List Bytes → Result Levels
  unfolding build_kary_above
  build_kary_levels leaves = do
    raise_if (ltb arity 2) value_error
    raise_if (length leaves == 0) value_error
    above ← build_kary_above (length leaves) leaves
    ok (leaves ∷ above)

-- `for offset in range(arity)` of `prove_kary`, with the offsets that are left.
unfoldable pub group_siblings : ℕ → ℕ → List Bytes → ℕ → Result (List Bytes)
group_siblings zero pos level idx = ok []
group_siblings (suc left) pos level idx = elim (clamp (length level) pos == idx) [
  | true ↦ group_siblings left (pos + 1) level idx
  | false ↦ (do
    sibling ← or_raise index_error (get_elem? level (clamp (length level) pos))
    rest ← group_siblings left (pos + 1) level idx
    ok (sibling ∷ rest))
]

-- The loop of `prove_kary` over `levels[:-1]`.
unfoldable pub prove_kary_from : Levels → ℕ → ℕ → Result (List (List Bytes))
unfolding group_siblings
prove_kary_from [] idx arity = ok []
prove_kary_from (level ∷ []) idx arity = ok []
prove_kary_from (level ∷ next ∷ above) idx arity = do
  siblings ← group_siblings arity (idx / arity * arity) level idx
  rest ← prove_kary_from (next ∷ above) (idx / arity) arity
  ok (siblings ∷ rest)

unfoldable pub prove_kary : Levels → ℕ → ℕ → Result (List (List Bytes))
unfolding prove_kary_from
prove_kary [] index arity = err index_error
prove_kary (leaves ∷ above) index arity = do
  raise_if (leb (length leaves) index) value_error
  prove_kary_from (leaves ∷ above) index arity

-- `for offset in range(arity)` of `verify_kary`: the children, and the siblings that are left over.
unfoldable pub take_children : ℕ → ℕ → ℕ → ℕ → Bytes → List Bytes → Option (List Bytes × List Bytes)
take_children zero pos level_size idx acc siblings = some ([], siblings)
take_children (suc left) pos level_size idx acc [] = elim (clamp level_size pos == idx) [
  | true ↦ elim (take_children left (pos + 1) level_size idx acc []) [
    | none ↦ none
    | some (kids, rest) ↦ some (acc ∷ kids, rest)
  ]
  | false ↦ none
]
take_children (suc left) pos level_size idx acc (s ∷ siblings) =
    elim (clamp level_size pos == idx) [
      | true ↦ elim (take_children left (pos + 1) level_size idx acc (s ∷ siblings)) [
        | none ↦ none
        | some (kids, rest) ↦ some (acc ∷ kids, rest)
      ]
      | false ↦ elim (take_children left (pos + 1) level_size idx acc siblings) [
        | none ↦ none
        | some (kids, rest) ↦ some (s ∷ kids, rest)
      ]
    ]

module _ (h : Sha) where
  -- `acc = children[0]` without siblings, and else the hash of the children.
  unfoldable pub parent_of : List Bytes → List Bytes → Option Bytes
  parent_of [] [] = none
  parent_of [] (child ∷ children) = some child
  parent_of (s ∷ siblings) children = some (hash_children h children)

  -- One round of `verify_kary`: the siblings must be used up.
  unfoldable pub kary_step : ℕ → ℕ → ℕ → Bytes → List Bytes → Option Bytes
  unfolding take_children parent_of
  kary_step arity level_size idx acc siblings =
      elim (take_children arity (idx / arity * arity) level_size idx acc siblings) [
        | none ↦ none
        | some (children, []) ↦ parent_of siblings children
        | some (children, s ∷ rest) ↦ none
      ]

  unfoldable pub fold_kary : ℕ → ℕ → ℕ → Bytes → List (List Bytes) → Option Bytes
  unfolding kary_step
  fold_kary arity level_size idx acc [] = some acc
  fold_kary arity level_size idx acc (siblings ∷ proof) =
      elim (kary_step arity level_size idx acc siblings) [
        | none ↦ none
        | some acc' ↦
            fold_kary arity (max 1 ((level_size + (arity - 1)) / arity)) (idx / arity) acc' proof
      ]

  unfoldable pub verify_kary : Bytes → Bytes → ℕ → List (List Bytes) → ℕ → ℕ → Bool
  unfolding fold_kary
  verify_kary root leaf index proof arity total_leaves = elim (leb total_leaves index) [
    | true ↦ false
    | false ↦ elim (fold_kary arity total_leaves index leaf proof) [
      | none ↦ false
      | some acc ↦ bytes_eq acc root
    ]
  ]
