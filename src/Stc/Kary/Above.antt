-- ===== src/Stc/Kary/Above.antt =====
-- The next level of bef_zk/stc/merkle.py's k-ary tree.
use capsule_tech.Common.{
  ℕ, zero, suc, ◌+◌, ◌-◌, ◌*◌, ◌/◌, ◌<◌, ◌≤◌, ◌≡◌, refl, sym, ap, ◌∙◌, some, List, [], ◌∷◌, length,
  length-drop, get_elem?, take, drop, drop-add, ok, arith,
}
use native.Mathlib.Nat.{div-eq_of_lt, add-div_right}
use native.Mathlib.Decide.{dec_lt}
use capsule_tech.Common.Bytes.{Bytes, Sha}
use capsule_tech.Stc.Kary.{hash_block, hash_blocks}

-- `math.ceil(size / arity)`
abbrev pub ceil_div : ℕ → ℕ → ℕ
ceil_div size arity = (size + (arity - 1)) / arity

pub ceil_div_pred :
    (size arity : ℕ) → 0 < arity → 0 < size → ceil_div size arity ≡ (size - 1) / arity + 1
ceil_div_pred size arity pos some_node =
    let split : size + (arity - 1) ≡ (size - 1) + arity = omega arith in
    ap (λ (k : ℕ). k / arity) split ∙ add-div_right (size - 1) pos

pub ceil_div-step :
    (size arity : ℕ)
    → 0 < arity
    → 0 < size
    → ceil_div size arity ≡ suc (ceil_div (size - arity) arity)
ceil_div-step size arity pos some_node =
    ceil_div_pred size arity pos some_node ∙ sym (by_size (dec_lt size arity))
  where
    by_size : Dec (size < arity) → suc (ceil_div (size - arity) arity) ≡ (size - 1) / arity + 1
    by_size (yes less) =
        let none_left : size - arity + (arity - 1) ≡ arity - 1 = omega arith in
        let e : ceil_div (size - arity) arity ≡ 0 =
          ap (λ (k : ℕ). k / arity) none_left ∙ div-eq_of_lt (omega arith) in
        let f : (size - 1) / arity ≡ 0 = div-eq_of_lt (omega arith) in omega (arith, e, f)
    by_size (no more) =
        let left : size - arity + (arity - 1) ≡ size - 1 = omega arith in
        let e : ceil_div (size - arity) arity ≡ (size - 1) / arity =
          ap (λ (k : ℕ). k / arity) left in
        omega (arith, e)

module _ (h : Sha) (arity : ℕ) (two : 2 ≤ arity) where
  hash_block_total :
      (d : Bytes) (l : List Bytes)
      → (node : Bytes) × (hash_block h arity (take arity (d ∷ l)) ≡ ok node)
  unfolding hash_block
  hash_block_total d l = by_arity arity two
    where
      of_block :
          (k : ℕ) (block : List Bytes) → (node : Bytes) × (hash_block h k (d ∷ block) ≡ ok node)
      of_block k [] = (_, refl)
      of_block k (e ∷ block) = (_, refl)

      by_arity : (k : ℕ) → 2 ≤ k → (node : Bytes) × (hash_block h k (take k (d ∷ l)) ≡ ok node)
      by_arity zero le = absurd (omega arith)
      by_arity (suc k) le = of_block (suc k) (take k l)

  -- The level above, whose nodes stand for the blocks.
  pub record Next (fuel : ℕ) (l : List Bytes) : Type 0 where
    pub nodes : List Bytes
    pub runs : hash_blocks h arity fuel l ≡ ok nodes
    pub count : length nodes ≡ ceil_div (length l) arity
    pub at_block :
        (q : ℕ)
        → q * arity < length l
        → (node : Bytes) × (hash_block h arity (take arity (drop (q * arity) l)) ≡ ok node)
          × (get_elem? nodes q ≡ some node)

  pub Next-level : (fuel : ℕ) (l : List Bytes) → length l ≤ fuel → Next fuel l
  unfolding hash_blocks
  Next-level zero [] le = record {
    nodes = [];
    runs = refl;
    count = sym (div-eq_of_lt (omega arith));
    at_block = λ q lt. absurd (omega arith);
  }
  Next-level (suc fuel) [] le = record {
    nodes = [];
    runs = refl;
    count = sym (div-eq_of_lt (omega arith));
    at_block = λ q lt. absurd (omega arith);
  }
  Next-level zero (d ∷ l) le = absurd (omega arith)
  Next-level (suc fuel) (d ∷ l) le =
      let all : List Bytes = d ∷ l in
      let (node, e) = hash_block_total d l in
      let size = length-drop arity all in
      let rest = Next-level fuel (drop arity all) (omega arith) in
      record {
        nodes = node ∷ rest.nodes;
        runs = rw e (rw (rest.runs) refl);
        count =
            ap suc (rest.count ∙ ap (λ (k : ℕ). ceil_div k arity) size)
            ∙ sym (ceil_div-step (length all) arity (omega arith) (omega arith));
        at_block = after all node e rest;
      }
    where
      after :
          {fuel : ℕ} (all : List Bytes) (node : Bytes)
          → hash_block h arity (take arity all) ≡ ok node
          → (rest : Next fuel (drop arity all)) → (q : ℕ) → q * arity < length all
          → (n : Bytes) × (hash_block h arity (take arity (drop (q * arity) all)) ≡ ok n)
            × (get_elem? (node ∷ rest.nodes) q ≡ some n)
      after all node e rest zero lt =
          let start : zero * arity ≡ 0 = omega arith in
          (node, ap (λ (k : ℕ). hash_block h arity (take arity (drop k all))) start ∙ e, refl)
      after all node e rest (suc q) lt =
          let size = length-drop arity all in
          let shift : suc q * arity ≡ arity + q * arity = omega arith in
          let (n, block, there) = rest.at_block q (omega arith) in
          (
            n,
            ap (λ (k : ℕ). hash_block h arity (take arity (drop k all))) shift
                ∙ ap (λ (x : List Bytes). hash_block h arity (take arity x))
                    (sym (drop-add arity (q * arity) all))
                ∙ block,
            there,
          )
