-- ===== src/Air/Reading.antt =====
-- The rows of a trace, read back from its table: bef_zk/air/geom_air.py's `trace_to_eval_table` against
-- `_row_values_from_table` of bef_zk/air/geom_constraints.py.
use capsule_tech.Common.{
  ℕ, zero, suc, ◌+◌, ◌%◌, ◌≡◌, refl, sym, ap, subst, some, List, [], ◌∷◌, map, length, get_elem?,
  length-append, length-map, length-replicate, replicate, All, ok, arith,
}
use mathlib.Core.Option.{some-injective}
use capsule_tech.Common.Field.{modulus}
use capsule_tech.Air.Trace.{GeomAirRow}
use capsule_tech.Air.Table.{Column, Masks, sketches_col, powers_col, pad_col, challenge_cols}
use capsule_tech.Air.Constraints.{get_col}
use capsule_tech.Air.Masking.{Fits, Masked, masked, nth, nths, pick_col_total, Reads}
use capsule_tech.Air.Residuals.{reduce}

-- Every list has one entry to a challenge.
abbrev pub Wide : ℕ → List (List ℕ) → Type 0
Wide m lists = All (λ row. length row ≡ m) lists

module _ {A : Type 0} (f : A → ℕ) (pad : ℕ) where
  pub get_col-row :
      (rows : List A) (t : ℕ) (r : A)
      → get_elem? rows t ≡ some r
      → get_col (pad_col pad (map f rows)) t ≡ f r % modulus
  get_col-row [] t r e = absurd (cc)
  get_col-row (x ∷ rows) zero r e = ap (λ (a : A). f a % modulus) (some-injective x r e)
  get_col-row (x ∷ rows) (suc t) r e = get_col-row rows t r e

module _ (pad : ℕ) (lists : List (List ℕ)) where
  abbrev pub plain_cols : ℕ → ℕ → List (List ℕ)
  plain_cols zero j = []
  plain_cols (suc left) j = pad_col pad (map (λ row. nth row j) lists) ∷ plain_cols left (j + 1)

  pub plain_cols-row :
      (t : ℕ) (row : List ℕ) (left j : ℕ)
      → get_elem? lists t ≡ some row
      → map (λ p. get_col p t) (plain_cols left j) ≡ reduce (nths row left j)
  plain_cols-row t row zero j e = refl
  plain_cols-row t row (suc left) j e =
      rw (get_col-row (λ r. nth r j) pad lists t row e, plain_cols-row t row left (j + 1) e) refl

pub get_elem?-map :
    (f : GeomAirRow → List ℕ) (rows : List GeomAirRow) (t : ℕ) (r : GeomAirRow)
    → get_elem? rows t ≡ some r
    → get_elem? (map f rows) t ≡ some (f r)
get_elem?-map f [] t r e = absurd (cc)
get_elem?-map f (x ∷ rows) zero r e = ap (λ a. some (f a)) (some-injective x r e)
get_elem?-map f (x ∷ rows) (suc t) r e = get_elem?-map f rows t r e

pub record ChallengeCols (masks : Masks) (pad : ℕ) (rows : List GeomAirRow) (left j : ℕ)
    : Type 0 where
  pub ss : List (List ℕ)
  pub ps : List (List ℕ)
  pub runs : challenge_cols masks pad rows left j ≡ ok (ss, ps)
  pub s_reads : Reads masks sketches_col j ss (plain_cols pad (map (λ r. r.s) rows) left j)
  pub p_reads : Reads masks powers_col j ps (plain_cols pad (map (λ r. r.pow) rows) left j)
  pub s_count : length ss ≡ left
  pub p_count : length ps ≡ left

module _ (masks : Masks) (pad : ℕ) (rows : List GeomAirRow) (n : ℕ) where
  pub Masked-map :
      (f : GeomAirRow → ℕ) (name : Column)
      → length rows + pad ≡ n
      → Fits n masks
      → Masked masks name (pad_col pad (map f rows))
  Masked-map f name e fits =
      let size : length (pad_col pad (map f rows)) ≡ n = omega (
        arith,
        length-append (map f rows) (replicate pad 0),
        length-map f rows,
        length-replicate {A = ℕ} pad 0,
      ) in
      masked masks name (pad_col pad (map f rows)) (subst (λ (k : ℕ). Fits k masks) (sym size) fits)

  Masked-nth :
      (g : GeomAirRow → List ℕ) (name : Column) (j : ℕ)
      → length rows + pad ≡ n
      → Fits n masks
      → Masked masks name (pad_col pad (map (λ row. nth row j) (map g rows)))
  Masked-nth g name j e fits =
      let size : length (pad_col pad (map (λ row. nth row j) (map g rows))) ≡ n = omega (
        arith,
        length-append (map (λ row. nth row j) (map g rows)) (replicate pad 0),
        length-map (λ row. nth row j) (map g rows),
        length-map g rows,
        length-replicate {A = ℕ} pad 0,
      ) in
      masked masks name (pad_col pad (map (λ row. nth row j) (map g rows)))
        (subst (λ (k : ℕ). Fits k masks) (sym size) fits)

  pub ChallengeCols-total :
      (m left j : ℕ)
      → length rows + pad ≡ n
      → Fits n masks
      → j + left ≡ m
      → Wide m (map (λ r. r.s) rows)
      → Wide m (map (λ r. r.pow) rows)
      → ChallengeCols masks pad rows left j
  unfolding challenge_cols
  ChallengeCols-total m zero j e fits sum ws wp = record {
    ss = [];
    ps = [];
    runs = refl;
    s_reads = tt;
    p_reads = tt;
    s_count = refl;
    p_count = refl;
  }
  ChallengeCols-total m (suc left) j e fits sum ws wp =
      let s = Masked-nth (λ r. r.s) (sketches_col j) j e fits in
      let p = Masked-nth (λ r. r.pow) (powers_col j) j e fits in
      let rest = ChallengeCols-total m left (j + 1) e fits (omega arith) ws wp in
      let s_picked = pick_col_total m j (map (λ r. r.s) rows) (omega arith) ws in
      let p_picked = pick_col_total m j (map (λ r. r.pow) rows) (omega arith) wp in
      record {
        ss = s.col ∷ rest.ss;
        ps = p.col ∷ rest.ps;
        runs = rw s_picked (rw (s.runs) (rw p_picked (rw (p.runs) (rw (rest.runs) refl))));
        s_reads = (s.reads, rest.s_reads);
        p_reads = (p.reads, rest.p_reads);
        s_count = ap suc rest.s_count;
        p_count = ap suc rest.p_count;
      }
