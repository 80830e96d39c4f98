-- ===== src/Stc/Accumulator/Sketches.antt =====
-- The loops of `_streaming_update` and `chunk_sketch` (bef_zk/stc/aok_cpu.py) against the polynomial
-- that they evaluate.
use capsule_tech.Common.{
  ℕ, zero, suc, ◌+◌, ◌*◌, ◌%◌, ◌^◌, ◌≡◌, refl, sym, ap, ◌∙◌, List, [], ◌∷◌, ◌++◌, map, length, ok,
  arith,
}
use native.Mathlib.Nat.{pow-zero, pow-suc, add_assoc, add-zero, zero-add, mul_comm}
use mathlib.Core.Path.{ap₂}
use capsule_tech.Common.Field.{modulus, mod-mul_left, mod-mul_right, mod-add_both}
use capsule_tech.Stc.Accumulator.{stream_values, stream_challenges, sketch_values, chunk_sketch}
use native.Mathlib.Nat.{add-mod-mod}

-- The polynomial with these coefficients at `r`, the first of them at degree `k`, before reduction.
abbrev pub weigh : ℕ → ℕ → List ℕ → ℕ
weigh r k [] = 0
weigh r k (v ∷ vs) = r ^ k * v + weigh r (suc k) vs

pub weigh-append :
    (r k : ℕ) (xs ys : List ℕ) → weigh r k (xs ++ ys) ≡ weigh r k xs + weigh r (k + length xs) ys
weigh-append r k [] ys = omega (arith, ap (λ (t : ℕ). weigh r t ys) (add-zero k))
weigh-append r k (x ∷ xs) ys =
    let shift : suc k + length xs ≡ k + suc (length xs) = omega arith in
    omega (arith, weigh-append r (suc k) xs ys, ap (λ (t : ℕ). weigh r t ys) shift)

power_step : (r k : ℕ) → r ^ k % modulus * r % modulus ≡ r ^ suc k % modulus
power_step r k = mod-mul_left modulus (r ^ k) r ∙ ap (λ (t : ℕ). t % modulus) (sym (pow-suc r k))

sum_step : (acc p v : ℕ) → (acc % modulus + p % modulus * v) % modulus ≡ (acc + p * v) % modulus
sum_step acc p v =
    sym (add-mod-mod (acc % modulus) (p % modulus * v) modulus)
    ∙ ap (λ (t : ℕ). (acc % modulus + t) % modulus) (mod-mul_left modulus p v)
    ∙ mod-add_both modulus acc (p * v)

-- One challenge over the values of a chunk, from the running power `r ^ k`.
pub stream_values_lem :
    (r acc k : ℕ) (vs : List ℕ)
    → stream_values r (acc % modulus) (r ^ k % modulus) vs
      ≡ ((acc + weigh r k vs) % modulus, r ^ (k + length vs) % modulus)
unfolding stream_values
stream_values_lem r acc k [] =
    ap₂ (λ (a b : ℕ). (a, b)) (ap (λ (t : ℕ). t % modulus) (sym (add-zero acc)))
      (ap (λ (t : ℕ). r ^ t % modulus) (sym (add-zero k)))
stream_values_lem r acc k (v ∷ vs) =
    let shift : suc k + length vs ≡ k + suc (length vs) = omega arith in
    ap₂ (λ (a b : ℕ). stream_values r a b vs) (sum_step acc (r ^ k) v) (power_step r k)
    ∙ stream_values_lem r (acc + r ^ k * v) (suc k) vs
    ∙ ap₂ (λ (a b : ℕ). (a, b))
        (ap (λ (t : ℕ). t % modulus) (add_assoc acc (r ^ k * v) (weigh r (suc k) vs)))
        (ap (λ (t : ℕ). r ^ t % modulus) shift)

term_step :
    (acc v p : ℕ)
    → (acc % modulus + v % modulus * (p % modulus)) % modulus ≡ (acc + p * v) % modulus
term_step acc v p =
    sym (add-mod-mod (acc % modulus) (v % modulus * (p % modulus)) modulus)
    ∙ ap (λ (t : ℕ). (acc % modulus + t) % modulus)
        (mod-mul_right modulus (v % modulus) p
          ∙ mod-mul_left modulus v p
          ∙ ap (λ (t : ℕ). t % modulus) (mul_comm v p))
    ∙ mod-add_both modulus acc (p * v)

sketch_values_lem :
    (r acc k : ℕ) (vs : List ℕ)
    → sketch_values r (acc % modulus) (r ^ k % modulus) vs ≡ (acc + weigh r k vs) % modulus
unfolding sketch_values
sketch_values_lem r acc k [] = ap (λ (t : ℕ). t % modulus) (sym (add-zero acc))
sketch_values_lem r acc k (v ∷ vs) =
    ap₂ (λ (a b : ℕ). sketch_values r a b vs) (term_step acc v (r ^ k)) (power_step r k)
    ∙ sketch_values_lem r (acc + r ^ k * v) (suc k) vs
    ∙ ap (λ (t : ℕ). t % modulus) (add_assoc acc (r ^ k * v) (weigh r (suc k) vs))

power_mod : (r k : ℕ) → (r % modulus) ^ k % modulus ≡ r ^ k % modulus
power_mod r zero = ap (λ (t : ℕ). t % modulus) (pow-zero (r % modulus) ∙ sym (pow-zero r))
power_mod r (suc k) =
    ap (λ (t : ℕ). t % modulus) (pow-suc (r % modulus) k)
    ∙ mod-mul_right modulus ((r % modulus) ^ k) r
    ∙ sym (mod-mul_left modulus ((r % modulus) ^ k) r)
    ∙ ap (λ (t : ℕ). t * r % modulus) (power_mod r k)
    ∙ power_step r k

-- `chunk_sketch` is the polynomial with the chunk's values from degree `offset` on, at each challenge.
pub chunk_sketch-eq-weigh :
    (values : List ℕ) (offset : ℕ) (challenges : List ℕ)
    → chunk_sketch values offset challenges ≡ map (λ r. weigh r offset values % modulus) challenges
unfolding chunk_sketch
chunk_sketch-eq-weigh values offset [] = refl
chunk_sketch-eq-weigh values offset (r ∷ rs) =
    ap₂ (λ (a : ℕ) (b : List ℕ). a ∷ b)
      (ap (λ (t : ℕ). sketch_values r 0 t values) (power_mod r offset)
        ∙ sketch_values_lem r 0 offset values
        ∙ ap (λ (t : ℕ). t % modulus) (zero-add (weigh r offset values)))
      (chunk_sketch-eq-weigh values offset rs)

-- `_streaming_update` from sketches and powers that stand for `past` and degree `k`.
pub stream_challenges_lem :
    (past : ℕ → ℕ) (k : ℕ) (rs vs : List ℕ)
    → stream_challenges rs (map (λ r. past r % modulus) rs) (map (λ r. r ^ k % modulus) rs) vs
      ≡ ok (record {
        chunk_sketch = map (λ r. weigh r k vs % modulus) rs;
        sketches = map (λ r. (past r + weigh r k vs) % modulus) rs;
        powers = map (λ r. r ^ (k + length vs) % modulus) rs;
      })
unfolding stream_challenges
stream_challenges_lem past k [] vs = refl
stream_challenges_lem past k (r ∷ rs) vs =
    let w = weigh r k vs in
    let e =
      stream_values_lem r 0 k vs
      ∙ ap (λ (t : ℕ). (t % modulus, r ^ (k + length vs) % modulus)) (zero-add w) in
    rw (e, stream_challenges_lem past k rs vs)
      (ap
        (λ (t : ℕ). ok (record {
          chunk_sketch = w % modulus ∷ map (λ r. weigh r k vs % modulus) rs;
          sketches = t ∷ map (λ r. (past r + weigh r k vs) % modulus) rs;
          powers = r ^ (k + length vs) % modulus ∷ map (λ r. r ^ (k + length vs) % modulus) rs;
        }))
        (mod-add_both modulus (past r) w))
