-- ===== src/Codec/Lookup.antt =====
-- Lookups in dictionaries: after a write, and after many.
pub mod Sorted
pub mod Kept
pub mod Through
use mathlib.Core.Option
use capsule_tech.Common.{
  ℕ, suc, ◌≡◌, ◌≢◌, refl, sym, ap, ◌∙◌, inl, inr, Bool, true, false, Option, none, some, List, [],
  ◌∷◌, if◌then◌else◌, Bool-cases, Result, ok, value_or_default, arith,
}
use capsule_tech.Common.Bytes.{Bytes, bytes_eq, bytes_eq→eq, bytes_eq_refl}
use capsule_tech.Codec.Value.{
  Value, Values, Entries, null, boolean, field, nat, neg, bytes, text, path, float, array, tuple,
  dict, nil, cons, empty, entry, is_key, key_eq, put_entry, get_entry, str, sanitize,
  sanitize_values, sanitize_entries,
}
use capsule_tech.Codec.Order.{bytes_lt, bytes_lt_asym, insert, sort}
use capsule_tech.Codec.Encode.{encode_key}
use capsule_tech.Codec.Decode.{key_of}
use capsule_tech.Codec.Decoded.{Pair, pair_key, put_all, decoded, decoded_entries}

pub key_eq→eq : (j k : Value) → key_eq j k ≡ true → j ≡ k
unfolding key_eq
key_eq→eq (text a) (text b) h = ap text (bytes_eq→eq a b h)
key_eq→eq (bytes a) (bytes b) h = ap bytes (bytes_eq→eq a b h)
key_eq→eq (text a) k h = ground (arith)
key_eq→eq (bytes a) k h = ground (arith)
key_eq→eq j k h = absurd (cc)

pub key_eq_refl : (k : Value) → is_key k ≡ true → key_eq k k ≡ true
unfolding key_eq is_key
key_eq_refl (text a) h = bytes_eq_refl a
key_eq_refl (bytes a) h = bytes_eq_refl a
key_eq_refl k h = absurd (cc)

if_again {ℓ} :
    {A : Type ℓ} (b : Bool) (x y z : A)
    → (if b then x else z) ≡ (if b then x else (if b then y else z))
if_again true x y z = refl
if_again false x y z = refl

-- Tests that are not both true may be made in either order.
if_swap {ℓ} :
    {A : Type ℓ} (a b : Bool) (x y z : A)
    → (a ≡ true → b ≡ true → ⊥)
    → (if a then x else (if b then y else z)) ≡ (if b then y else (if a then x else z))
if_swap true true x y z h = absurd (h refl refl)
if_swap true false x y z h = refl
if_swap false true x y z h = refl
if_swap false false x y z h = refl

-- Different keys are not both equal to a third.
key_eq_apart : (i j k : Value) → key_eq i j ≡ false → key_eq i k ≡ true → key_eq j k ≡ true → ⊥
key_eq_apart i j k apart p q = cc (apart, ap (key_eq i) (key_eq→eq j k q), p)

pub get_entry-put_entry :
    (es : Entries) (j : Value) (v : Value) (k : Value)
    → get_entry (put_entry es j v) k ≡ (if key_eq j k then some v else get_entry es k)
unfolding get_entry put_entry
get_entry-put_entry empty j v k = refl
get_entry-put_entry (entry i w es) j v k = elim (Bool-cases (key_eq i j)) [
  | inl same ↦
      rw (same, key_eq→eq i j same) (if_again (key_eq j k) (some v) (some w) (get_entry es k))
  | inr other ↦ rw other (
      ap (λ o. if key_eq i k then some w else o) (get_entry-put_entry es j v k)
      ∙ if_swap (key_eq i k) (key_eq j k) (some w) (some v) (get_entry es k)
          (key_eq_apart i j k other))
]

abbrev pub or_else : Option Value → Option Value → Option Value
or_else (some v) o = some v
or_else none o = o

-- The value of an entry with this key
abbrev pub match_key : Pair → Value → Option Value
match_key p k = if key_eq p.key k then some p.value else none

-- The last value of a key
abbrev pub find_last : List Pair → Value → Option Value
find_last [] k = none
find_last (p ∷ ps) k = or_else (find_last ps k) (match_key p k)

or_else-if :
    (o : Option Value) (b : Bool) (v : Value) (d : Option Value)
    → or_else o (if b then some v else d) ≡ or_else (or_else o (if b then some v else none)) d
or_else-if (some w) b v d = refl
or_else-if none true v d = refl
or_else-if none false v d = refl

get_entry-put_all :
    (es : Entries) (ps : List Pair) (k : Value)
    → get_entry (put_all es ps) k ≡ or_else (find_last ps k) (get_entry es k)
unfolding put_all
get_entry-put_all es [] k = refl
get_entry-put_all es (p ∷ ps) k =
    get_entry-put_all (put_entry es p.key p.value) ps k
    ∙ ap (or_else (find_last ps k)) (get_entry-put_entry es p.key p.value k)
    ∙ or_else-if (find_last ps k) (key_eq p.key k) p.value (get_entry es k)

or_else-none : (o : Option Value) → or_else o none ≡ o
or_else-none none = refl
or_else-none (some v) = refl

pub get_entry-put_all_empty :
    (ps : List Pair) (k : Value) → get_entry (put_all empty ps) k ≡ find_last ps k
unfolding get_entry
get_entry-put_all_empty ps k = get_entry-put_all empty ps k ∙ or_else-none (find_last ps k)

-- Equality of keys does not depend on the side.
pub key_eq_flip : (j k : Value) → key_eq j k ≡ false → key_eq k j ≡ false
key_eq_flip j k h = elim (Bool-cases (key_eq k j)) [
  | inl same ↦ absurd (
      cc (
        h,
        same,
        ap (λ x. key_eq x k) (sym (key_eq→eq k j same)),
        ap (λ x. key_eq k x) (key_eq→eq k j same),
      ))
  | inr other ↦ other
]
