-- ===== src/Stc/Multi.antt =====
-- bef_zk/stc/merkle.py: `multiproof` and `verify_multiproof`, one proof for several leaves. A set of
-- indices that is sorted is an ascending list; the sets `used` are lists with a test.
-- `math.ceil(tree_size / arity)` is exact, as it is for sizes below 2^53.
pub mod Groups
pub mod Shown
pub mod Sets
pub mod Layers
pub mod Whole
pub mod Trees
pub mod KaryTrees
mod Examples
use Prim.Native.Nat.{max}
use capsule_tech.Common.{
  ℕ, zero, suc, ◌+◌, ◌-◌, ◌*◌, ◌/◌, Bool, true, false, not, ◌&&◌, ◌||◌, Option, none, some, List,
  [], ◌∷◌, ◌++◌, ltb, leb, ◌==◌, if◌then◌else◌, length, get_elem?, Result, ok, err, value_error,
  index_error, zero_division_error, ◌>>=◌, ◌>>◌, raise_if, or_raise,
}
use capsule_tech.Common.Ascending.{add}
use capsule_tech.Common.Dict.{Dict, get, put}
use capsule_tech.Common.Bytes.{Bytes, Sha, bytes_eq}
use capsule_tech.Stc.Merkle.{Levels, hash_children}
use capsule_tech.Stc.Kary.{clamp}
use capsule_tech.Stc.Kary.Above.{ceil_div}
use capsule_tech.Stc.Vector.{MerkleMultiProof}

-- `a in xs`
unfoldable pub mem : ℕ → List ℕ → Bool
mem a [] = false
mem a (x ∷ xs) = (x == a) || mem a xs

-- `sorted(set(xs))`
unfoldable pub sorted_set : List ℕ → List ℕ → List ℕ
unfolding add
sorted_set made [] = made
sorted_set made (x ∷ xs) = sorted_set (add x made) xs

-- The first loop over a group, with the offsets that are left: the nodes that the proof has to show
-- (in an empty level, the place -1, which is no index)
unfoldable pub layer_siblings : ℕ → ℕ → List Bytes → ℕ → List ℕ → Result (List Bytes)
unfolding mem
layer_siblings zero pos level idx current = ok []
layer_siblings (suc left) pos level idx current =
    elim (not (length level == 0)
      && ((clamp (length level) pos == idx) || mem (clamp (length level) pos) current)) [
        | true ↦ layer_siblings left (pos + 1) level idx current
        | false ↦ (do
          sibling ← or_raise index_error (get_elem? level (clamp (length level) pos))
          rest ← layer_siblings left (pos + 1) level idx current
          ok (sibling ∷ rest))
      ]

-- The second loop over the group: its members are used.
unfoldable pub mark : ℕ → ℕ → ℕ → List ℕ → List ℕ → List ℕ
unfolding mem
mark zero pos size current used = used
mark (suc left) pos size current used =
    mark left (pos + 1) size current
      (if mem (clamp size pos) current then clamp size pos ∷ used else used)

-- `for idx in current`, with the indices that are left
unfoldable pub layer :
    List Bytes → ℕ → List ℕ → List ℕ → List ℕ → List ℕ → Result (List Bytes × List ℕ)
unfolding layer_siblings mark mem add
layer level arity current [] used next = ok ([], next)
layer level arity current (idx ∷ left) used next = elim (mem idx used) [
  | true ↦ layer level arity current left used next
  | false ↦ (do
    first ← layer_siblings arity (idx / arity * arity) level idx current
    (others, found) ←
        layer level arity current left
          (mark arity (idx / arity * arity) (length level) current used) (add (idx / arity) next)
    ok (first ++ others, found))
]

abbrev is_nil : List ℕ → Bool
is_nil [] = true
is_nil (x ∷ xs) = false

-- `for level in levels[:-1]`; a group of no nodes is a division by zero.
unfoldable pub multi_from : Levels → List ℕ → ℕ → Result (List (List Bytes))
unfolding layer
multi_from [] current arity = ok []
multi_from (level ∷ []) current arity = ok []
multi_from (level ∷ up ∷ above) current arity = do
  raise_if ((arity == 0) && not (is_nil current)) zero_division_error
  (siblings, found) ← layer level arity current current [] []
  rest ← multi_from (up ∷ above) found arity
  ok (siblings ∷ rest)

unfoldable pub any_beyond : ℕ → List ℕ → Bool
any_beyond size [] = false
any_beyond size (x ∷ xs) = leb size x || any_beyond size xs

unfoldable pub multiproof : Levels → List ℕ → ℕ → Result MerkleMultiProof
unfolding sorted_set any_beyond multi_from
multiproof [] indices arity = err index_error
multiproof (leaves ∷ above) indices arity = do
  let idxs = sorted_set [] indices
  raise_if (any_beyond (length leaves) idxs) value_error
  levels ← multi_from (leaves ∷ above) idxs arity
  ok (record { tree_size = length leaves; arity = arity; sibling_levels = levels })

-- The loop over a group of `verify_multiproof`: the children, the siblings that are left, and the
-- indices that are used. There is none where a sibling is missing. The index itself is a node. In a
-- tree of no size the place is -1, which is no node.
unfoldable pub children_of :
    ℕ → ℕ → ℕ → ℕ → Dict Bytes → List Bytes → List ℕ → Option (List Bytes × List Bytes × List ℕ)
unfolding get
children_of zero pos size idx nodes siblings used = some ([], siblings, used)
children_of (suc left) pos size idx nodes siblings used =
    let onward = λ (child : Bytes) (rest : List Bytes) (now : List ℕ).
      elim (children_of left (pos + 1) size idx nodes rest now)
        as (λ _. Option (List Bytes × List Bytes × List ℕ)) [
          | none ↦ none
          | some (children, over, marked) ↦ some (child ∷ children, over, marked)
        ] in
    elim (if size == 0 then none else get nodes (clamp size pos)) [
      | some node ↦
          onward node siblings (if clamp size pos == idx then used else clamp size pos ∷ used)
      | none ↦ elim siblings [ [] ↦ none | sibling ∷ rest ↦ onward sibling rest used ]
    ]

-- `parent_idx in next_nodes and next_nodes[parent_idx] != parent`
abbrev pub differs : Option Bytes → Bytes → Bool
differs none parent = false
differs (some old) parent = not (bytes_eq old parent)

-- `for idx in current_indices`; there is nothing where the proof is refused.
unfoldable pub check_layer :
    Sha
    → ℕ
    → ℕ
    → Dict Bytes
    → List ℕ
    → List ℕ
    → List Bytes
    → Dict Bytes
    → Option (List Bytes × Dict Bytes)
unfolding mem children_of get put bytes_eq
check_layer h size arity nodes [] used siblings next_nodes = some (siblings, next_nodes)
check_layer h size arity nodes (idx ∷ left) used siblings next_nodes =
    let skipped = check_layer h size arity nodes left used siblings next_nodes in
    let entered = λ (children : List Bytes) (over : List Bytes) (marked : List ℕ).
      let parent = hash_children h children in
      let onward =
        check_layer h size arity nodes left (idx ∷ marked) over
          (put next_nodes (idx / arity) parent) in
      if differs (get next_nodes (idx / arity)) parent then none else onward in
    elim (mem idx used) [
      | true ↦ skipped
      | false ↦ elim (children_of arity (idx / arity * arity) size idx nodes siblings used) [
        | none ↦ none
        | some (children, over, marked) ↦ entered children over marked
      ]
    ]

-- `sorted(nodes.keys())`
unfoldable pub sorted_keys : List ℕ → Dict Bytes → List ℕ
unfolding add
sorted_keys made [] = made
sorted_keys made ((k, v) ∷ d) = sorted_keys (add k made) d

abbrev pub after_layer :
    Option (List Bytes × Dict Bytes)
    → (Dict Bytes → Result (Option (Dict Bytes)))
    → Result (Option (Dict Bytes))
after_layer none next = ok none
after_layer (some ([], nodes)) next = next nodes
after_layer (some (sibling ∷ siblings, nodes)) next = ok none

-- `for siblings in proof.sibling_levels`
unfoldable pub check_levels :
    Sha → ℕ → ℕ → List (List Bytes) → Dict Bytes → Result (Option (Dict Bytes))
unfolding check_layer sorted_keys
check_levels h size arity [] nodes = ok (some nodes)
check_levels h size arity (siblings ∷ levels) nodes = do
  raise_if ((arity == 0) && not (is_nil (sorted_keys [] nodes))) zero_division_error
  after_layer (check_layer h size arity nodes (sorted_keys [] nodes) [] siblings []) λ found. (do
    raise_if (arity == 0) zero_division_error
    check_levels h (max 1 (ceil_div size arity)) arity levels found)

-- `{idx: leaf for idx, leaf in zip(indices, leaf_hashes)}`
unfoldable pub zip_nodes : List ℕ → List Bytes → Dict Bytes → Dict Bytes
unfolding put
zip_nodes [] leaves made = made
zip_nodes (i ∷ is) [] made = made
zip_nodes (i ∷ is) (leaf ∷ leaves) made = zip_nodes is leaves (put made i leaf)

abbrev pub is_root : Option (Dict Bytes) → Bytes → Bool
is_root none root = false
is_root (some nodes) root = elim (get nodes 0) [ none ↦ false | some node ↦ bytes_eq node root ]

unfoldable pub verify_multiproof :
    Sha → Bytes → List Bytes → List ℕ → MerkleMultiProof → Result Bool
unfolding zip_nodes check_levels bytes_eq get
verify_multiproof h root leaf_hashes indices proof =
    if not (length leaf_hashes == length indices) then ok false else do
      nodes ←
          check_levels h proof.tree_size proof.arity proof.sibling_levels
            (zip_nodes indices leaf_hashes [])
      ok (is_root nodes root)
