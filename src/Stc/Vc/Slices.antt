-- ===== src/Stc/Vc/Slices.antt =====
-- The chunks that `commit` cuts a vector into.
use capsule_tech.Common.{
  ℕ, zero, suc, ◌+◌, ◌*◌, ◌%◌, ◌<◌, ◌≤◌, ◌≡◌, refl, sym, ap, ◌∙◌, some, List, [], ◌∷◌, length,
  length-take, length-drop, length-append, length-map, get_elem?, take, drop, drop-add, All, arith,
}
use capsule_tech.Common.Field.{modulus}
use capsule_tech.Stc.Kary.Above.{ceil_div, ceil_div-step}
use native.Mathlib.Nat.{div-eq_of_lt}
use capsule_tech.Stc.Accumulator.Streaming.{reduce, stream_of}
use capsule_tech.Stc.Vc.{slices}

pub slices-full :
    (fuel len : ℕ) (values : List ℕ)
    → 0 < len
    → All (λ (c : List ℕ). 0 < length c) (slices fuel len values)
unfolding slices
slices-full fuel len [] pos = tt
slices-full zero len (v ∷ values) pos = tt
slices-full (suc fuel) len (v ∷ values) pos =
    (omega (arith, length-take len (v ∷ values)), slices-full fuel len (drop len (v ∷ values)) pos)

pub get_elem?-slices :
    (fuel len : ℕ) (values : List ℕ) (q : ℕ)
    → 0 < len
    → length values ≤ fuel
    → q * len < length values
    → get_elem? (slices fuel len values) q ≡ some (take len (drop (q * len) values))
unfolding slices
get_elem?-slices fuel len [] q pos le lt = absurd (omega arith)
get_elem?-slices zero len (v ∷ values) q pos le lt = absurd (omega arith)
get_elem?-slices (suc fuel) len (v ∷ values) zero pos le lt =
    let start : 0 ≡ 0 * len = omega arith in
    ap (λ (k : ℕ). some (take len (drop k (v ∷ values)))) start
get_elem?-slices (suc fuel) len (v ∷ values) (suc q) pos le lt =
    let size = length-drop len (v ∷ values) in
    let place : len + q * len ≡ suc q * len = omega arith in
    get_elem?-slices fuel len (drop len (v ∷ values)) q pos (omega arith) (omega arith)
    ∙ ap (λ (l : List ℕ). some (take len l))
        (drop-add len (q * len) (v ∷ values) ∙ ap (λ (k : ℕ). drop k (v ∷ values)) place)

-- No chunk starts behind the vector.
pub slices-few :
    (fuel len : ℕ) (values : List ℕ) (q : ℕ)
    → 0 < len
    → q < length (slices fuel len values)
    → q * len < length values
unfolding slices
slices-few fuel len [] q pos lt = absurd (omega arith)
slices-few zero len (v ∷ values) q pos lt = absurd (omega arith)
slices-few (suc fuel) len (v ∷ values) zero pos lt = omega arith
slices-few (suc fuel) len (v ∷ values) (suc q) pos lt =
    let size = length-drop len (v ∷ values) in
    let below = slices-few fuel len (drop len (v ∷ values)) q pos (omega arith) in
    omega (arith, size, below)

pub length-slices :
    (fuel len : ℕ) (values : List ℕ)
    → 0 < len
    → length values ≤ fuel
    → length (slices fuel len values) ≡ ceil_div (length values) len
unfolding slices
length-slices fuel len [] pos le = sym (div-eq_of_lt (omega arith))
length-slices zero len (v ∷ values) pos le = absurd (omega arith)
length-slices (suc fuel) len (v ∷ values) pos le =
    let size = length-drop len (v ∷ values) in
    ap suc (
      length-slices fuel len (drop len (v ∷ values)) pos (omega arith)
      ∙ ap (λ (k : ℕ). ceil_div k len) size)
    ∙ sym (ceil_div-step (length (v ∷ values)) len pos (omega arith))

pub length-stream_of-slices :
    (fuel len : ℕ) (values : List ℕ)
    → 0 < len
    → length values ≤ fuel
    → length (stream_of (slices fuel len values)) ≡ length values
unfolding slices
length-stream_of-slices fuel len [] pos le = refl
length-stream_of-slices zero len (v ∷ values) pos le = absurd (omega arith)
length-stream_of-slices (suc fuel) len (v ∷ values) pos le =
    let first : List ℕ = take len (v ∷ values) in
    let later : List (List ℕ) = slices fuel len (drop len (v ∷ values)) in
    let a = length-append (reduce first) (stream_of later) in
    let b = length-map (λ x. x % modulus) first in
    let c = length-take len (v ∷ values) in
    let size = length-drop len (v ∷ values) in
    let d = length-stream_of-slices fuel len (drop len (v ∷ values)) pos (omega arith) in
    omega arith
