-- ===== src/Air/Masking.antt =====
-- What the constraints of bef_zk/air/geom_constraints.py read of a column that
-- `trace_to_eval_table` padded and masked: the value of the trace.
use capsule_tech.Common.{
  ℕ, zero, suc, ◌+◌, ◌<◌, ◌≡◌, refl, sym, ap, ◌∙◌, true, Option, none, some, List, [], ◌∷◌, ◌++◌,
  map, ◌==◌, length, get_elem?, length-append, All, ok, ==_refl, arith,
}
use mathlib.Core.List.{append_assoc}
use capsule_tech.Common.Field.{sub_mod}
use capsule_tech.Air.Table.{Column, Masks, add_masks, mask_col, maybe_mask, pick_col}
use capsule_tech.Air.Constraints.{get_col, get_with_mask, challenge_values}

-- Every mask has the domain's length.
abbrev pub Fits : ℕ → Masks → Type 0
Fits n none = Unit
Fits n (some masks) = (name : Column) (vals : List ℕ) → masks name ≡ some vals → length vals ≡ n

unmasked :
    (padded vals : List ℕ) (idx : ℕ)
    → length vals ≡ length padded
    → sub_mod (get_col (add_masks padded vals) idx) (get_col vals idx) ≡ get_col padded idx
unmasked [] [] idx n = omega arith
unmasked [] (m ∷ vals) idx n = absurd (omega arith)
unmasked (v ∷ padded) [] idx n = absurd (omega arith)
unmasked (v ∷ padded) (m ∷ vals) zero n = omega arith
unmasked (v ∷ padded) (m ∷ vals) (suc idx) n = unmasked padded vals idx (omega arith)

-- A column goes into the table, and the constraints read it without the mask.
pub record Masked (masks : Masks) (name : Column) (padded : List ℕ) : Type 0 where
  pub col : List ℕ
  pub runs : maybe_mask masks name padded ≡ ok col
  pub reads : (idx : ℕ) → get_with_mask masks name col idx ≡ get_col padded idx

Masked-some :
    (masks : Column → Option (List ℕ)) (name : Column) (padded : List ℕ) (o : Option (List ℕ))
    → masks name ≡ o
    → ((vals : List ℕ) → o ≡ some vals → length vals ≡ length padded)
    → Masked (some masks) name padded
unfolding maybe_mask mask_col get_with_mask
Masked-some masks name padded none e fits = record {
  col = padded;
  runs = rw e refl;
  reads = λ idx. rw e refl;
}
Masked-some masks name padded (some vals) e fits =
    let n = fits vals refl in
    let same : (length vals == length padded) ≡ true = rw n (==_refl (length padded)) in
    record {
      col = add_masks padded vals;
      runs = rw (e, mask_col) (rw same refl);
      reads = λ idx. rw e (unmasked padded vals idx n);
    }

pub masked :
    (masks : Masks) (name : Column) (padded : List ℕ)
    → Fits (length padded) masks
    → Masked masks name padded
unfolding maybe_mask get_with_mask
masked none name padded fits = record { col = padded; runs = refl; reads = λ idx. refl }
masked (some masks) name padded fits = Masked-some masks name padded (masks name) refl (fits name)

-- The columns of the challenges from `j` on.
abbrev pub nth : List ℕ → ℕ → ℕ
nth [] j = 0
nth (x ∷ xs) zero = x
nth (x ∷ xs) (suc j) = nth xs j

get_elem?-nth : (xs : List ℕ) (j : ℕ) → j < length xs → get_elem? xs j ≡ some (nth xs j)
get_elem?-nth [] j lt = elim lt [ ]
get_elem?-nth (x ∷ xs) zero lt = refl
get_elem?-nth (x ∷ xs) (suc j) lt = get_elem?-nth xs j (omega arith)

abbrev pub nths : List ℕ → ℕ → ℕ → List ℕ
nths xs zero j = []
nths xs (suc left) j = nth xs j ∷ nths xs left (j + 1)

nths-suc : (x : ℕ) (xs : List ℕ) (left j : ℕ) → nths (x ∷ xs) left (suc j) ≡ nths xs left j
nths-suc x xs zero j = refl
nths-suc x xs (suc left) j =
    let e : suc j + 1 ≡ suc (j + 1) = omega arith in
    ap (λ l. nth xs j ∷ l) (ap (nths (x ∷ xs) left) e ∙ nths-suc x xs left (j + 1))

pub nths-all : (xs : List ℕ) → nths xs (length xs) 0 ≡ xs
nths-all [] = refl
nths-all (x ∷ xs) = ap (λ l. x ∷ l) (nths-suc x xs (length xs) 0 ∙ nths-all xs)

pub pick_col_total :
    (m j : ℕ) (rows : List (List ℕ))
    → j < m
    → All (λ row. length row ≡ m) rows
    → pick_col j rows ≡ ok (map (λ row. nth row j) rows)
unfolding pick_col
pick_col_total m j [] lt wide = refl
pick_col_total m j (row ∷ rows) lt wide =
    let w = wide.0 in rw (get_elem?-nth row j (omega arith), pick_col_total m j rows lt wide.1) refl

-- The masked columns of a list of names, and the plain ones.
abbrev pub Reads : Masks → (ℕ → Column) → ℕ → List (List ℕ) → List (List ℕ) → Type 0
Reads masks name j [] [] = Unit
Reads masks name j [] (p ∷ ps) = ⊥
Reads masks name j (c ∷ cs) [] = ⊥
Reads masks name j (c ∷ cs) (p ∷ ps) =
    ((idx : ℕ) → get_with_mask masks (name j) c idx ≡ get_col p idx)
    × Reads masks name (j + 1) cs ps

get_elem?-append_length :
    (pre : List (List ℕ)) (c : List ℕ) (cs : List (List ℕ)) (j : ℕ)
    → j ≡ length pre
    → get_elem? (pre ++ c ∷ cs) j ≡ some c
get_elem?-append_length [] c cs zero e = refl
get_elem?-append_length [] c cs (suc j) e = absurd (omega arith)
get_elem?-append_length (p ∷ pre) c cs zero e = absurd (omega arith)
get_elem?-append_length (p ∷ pre) c cs (suc j) e = get_elem?-append_length pre c cs j (omega arith)

-- After the columns `pre`, the values at a row are those of the plain columns.
pub challenge_values_read :
    (masks : Masks) (name : ℕ → Column) (t j : ℕ) (pre cols plain : List (List ℕ))
    → j ≡ length pre
    → Reads masks name j cols plain
    → challenge_values masks name (pre ++ cols) t (length cols) j
      ≡ ok (map (λ p. get_col p t) plain)
unfolding challenge_values
challenge_values_read masks name t j pre [] [] e reads = refl
challenge_values_read masks name t j pre [] (p ∷ plain) e reads = absurd reads
challenge_values_read masks name t j pre (c ∷ cols) [] e reads = absurd reads
challenge_values_read masks name t j pre (c ∷ cols) (p ∷ plain) e reads =
    let n = length-append pre (c ∷ []) in
    let rest =
      challenge_values_read masks name t (j + 1) (pre ++ (c ∷ [])) cols plain (omega arith)
        reads.1 in
    let moved =
      ap (λ l. challenge_values masks name l t (length cols) (j + 1))
        (append_assoc pre (c ∷ []) cols) in
    rw (get_elem?-append_length pre c cols j e, sym moved ∙ rest, reads.0 t) refl
