-- ===== src/Air/Table.antt =====
-- bef_zk/air/geom_air.py: the table of columns of a trace, padded to the domain and masked. A column's
-- name is a `Column`, and the dictionary of masks a function from names.
use capsule_tech.Common.{
  ℕ, zero, suc, ◌+◌, ◌-◌, ◌*◌, ◌%◌, true, false, not, Option, none, some, List, [], ◌∷◌, ◌++◌, map,
  ◌==◌, ltb, length, get_elem?, replicate, Result, ok, index_error, value_error, ◌>>=◌, ◌>>◌,
  raise_if, or_raise,
}
use capsule_tech.Common.Field.{modulus}
use capsule_tech.Air.Trace.{GeomAirRow, GeomTrace}

pub data Column : Type 0 where
  pc_col op_col gas_col acc_col x1_col x2_col cnt_col m11_col m12_col m22_col : Column
  sketches_col powers_col : ℕ → Column

abbrev pub Masks : Type 0
Masks = Option (Column → Option (List ℕ))

pub record GeomEvalTable : Type 0 where
  pub trace_len : ℕ
  pub domain_size : ℕ
  pub pc : List ℕ
  pub op : List ℕ
  pub gas : List ℕ
  pub acc : List ℕ
  pub x1 : List ℕ
  pub x2 : List ℕ
  pub cnt : List ℕ
  pub m11 : List ℕ
  pub m12 : List ℕ
  pub m22 : List ℕ
  pub sketches : List (List ℕ)
  pub powers : List (List ℕ)
  pub column_masks : Masks

-- `while out < n: out <<= 1`, with fuel.
unfoldable pub double_until : ℕ → ℕ → ℕ → ℕ
double_until zero n out = out
double_until (suc fuel) n out =
    let more = double_until fuel n (out * 2) in elim (ltb out n) [ true ↦ more | false ↦ out ]

unfoldable pub next_power_of_two : ℕ → ℕ
unfolding double_until
next_power_of_two n = double_until n n 1

-- `domain_size or next_power_of_two(steps)`
abbrev pub domain_or_default : Option ℕ → ℕ → ℕ
domain_or_default none steps = next_power_of_two steps
domain_or_default (some zero) steps = next_power_of_two steps
domain_or_default (some (suc n)) steps = suc n

abbrev pub pad_col : ℕ → List ℕ → List ℕ
pad_col pad values = values ++ replicate pad 0

-- `[(padded[i] + mask_vals[i]) % MODULUS for i in range(len(padded))]`, for lists of one length
abbrev pub add_masks : List ℕ → List ℕ → List ℕ
add_masks [] mask_vals = []
add_masks (v ∷ padded) [] = []
add_masks (v ∷ padded) (m ∷ mask_vals) = (v + m) % modulus ∷ add_masks padded mask_vals

unfoldable pub mask_col : Option (List ℕ) → List ℕ → Result (List ℕ)
mask_col none padded = ok padded
mask_col (some mask_vals) padded = do
  raise_if (not (length mask_vals == length padded)) value_error
  ok (add_masks padded mask_vals)

unfoldable pub maybe_mask : Masks → Column → List ℕ → Result (List ℕ)
unfolding mask_col
maybe_mask none name padded = ok padded
maybe_mask (some column_masks) name padded = mask_col (column_masks name) padded

-- `[row.s[j] for row in trace.rows]` of the rows' lists
unfoldable pub pick_col : ℕ → List (List ℕ) → Result (List ℕ)
pick_col j [] = ok []
pick_col j (row ∷ rows) = do
  v ← or_raise index_error (get_elem? row j)
  rest ← pick_col j rows
  ok (v ∷ rest)

-- `for j in range(m)`, with the challenges that are left.
unfoldable pub challenge_cols :
    Masks → ℕ → List GeomAirRow → ℕ → ℕ → Result (List (List ℕ) × List (List ℕ))
challenge_cols masks pad rows zero j = ok ([], [])
challenge_cols masks pad rows (suc left) j = do
  sketches ← pick_col j (map (λ r. r.s) rows)
  sketches' ← maybe_mask masks (sketches_col j) (pad_col pad sketches)
  powers ← pick_col j (map (λ r. r.pow) rows)
  powers' ← maybe_mask masks (powers_col j) (pad_col pad powers)
  (more_sketches, more_powers) ← challenge_cols masks pad rows left (j + 1)
  ok (sketches' ∷ more_sketches, powers' ∷ more_powers)

unfoldable pub trace_to_eval_table : GeomTrace → Option ℕ → Masks → Result GeomEvalTable
trace_to_eval_table trace domain_size column_masks =
    let n = domain_or_default domain_size trace.params.steps in
    let pad = n - trace.params.steps in
    let rows = trace.rows in
    do
      pc ← maybe_mask column_masks pc_col (pad_col pad (map (λ r. r.pc) rows))
      op ← maybe_mask column_masks op_col (pad_col pad (map (λ r. r.opcode) rows))
      gas ← maybe_mask column_masks gas_col (pad_col pad (map (λ r. r.gas) rows))
      acc ← maybe_mask column_masks acc_col (pad_col pad (map (λ r. r.acc) rows))
      x1 ← maybe_mask column_masks x1_col (pad_col pad (map (λ r. r.x1) rows))
      x2 ← maybe_mask column_masks x2_col (pad_col pad (map (λ r. r.x2) rows))
      cnt ← maybe_mask column_masks cnt_col (pad_col pad (map (λ r. r.cnt) rows))
      m11 ← maybe_mask column_masks m11_col (pad_col pad (map (λ r. r.m11) rows))
      m12 ← maybe_mask column_masks m12_col (pad_col pad (map (λ r. r.m12) rows))
      m22 ← maybe_mask column_masks m22_col (pad_col pad (map (λ r. r.m22) rows))
      (sketches, powers) ← challenge_cols column_masks pad rows trace.params.num_challenges 0
      ok (record {
        trace_len = length rows;
        domain_size = n;
        pc = pc;
        op = op;
        gas = gas;
        acc = acc;
        x1 = x1;
        x2 = x2;
        cnt = cnt;
        m11 = m11;
        m12 = m12;
        m22 = m22;
        sketches = sketches;
        powers = powers;
        column_masks = column_masks;
      })
