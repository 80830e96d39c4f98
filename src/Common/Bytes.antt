-- ===== src/Common/Bytes.antt =====
-- Byte strings, big-endian integers (`int.to_bytes`, `int.from_bytes`), and the hash function, which
-- Python's hashlib provides and the program only calls.
use Prim.Native.Nat.{ℕ, zero, suc, ◌+◌, ◌*◌, ◌/◌, ◌%◌, ◌^◌, ◌<◌}
use mathlib.Core.Path.{◌≡◌, refl, ap, ◌∙◌, sym}
use mathlib.Core.Logic.{◌≢◌, ◌⊎◌, inl, inr}
use mathlib.Core.Bool.{Bool, true, false, ◌&&◌}
use mathlib.Core.List.{List, [], ◌∷◌, ◌++◌, append-nil}
use native.Mathlib.Omega.{arith}
use native.Mathlib.Nat.{pow-suc}
use capsule_tech.Common.Tests.{◌==◌, Bool-cases}
use capsule_tech.Common.Lists.{length, All, length-append, All-append}

abbrev pub Bytes : Type 0
Bytes = List ℕ

abbrev pub IsByte : ℕ → Type 0
IsByte b = b < 256

-- `a == b` on bytes
unfoldable pub bytes_eq : Bytes → Bytes → Bool
bytes_eq [] [] = true
bytes_eq [] (y ∷ ys) = false
bytes_eq (x ∷ xs) [] = false
bytes_eq (x ∷ xs) (y ∷ ys) = (x == y) && bytes_eq xs ys

pub bytes_eq→eq : (a b : Bytes) → bytes_eq a b ≡ true → a ≡ b
unfolding bytes_eq
bytes_eq→eq [] [] h = refl
bytes_eq→eq [] (y ∷ ys) h = cc
bytes_eq→eq (x ∷ xs) [] h = cc
bytes_eq→eq (x ∷ xs) (y ∷ ys) h = ground (arith, bytes_eq→eq xs ys)

pub bytes_eq_refl : (a : Bytes) → bytes_eq a a ≡ true
unfolding bytes_eq
bytes_eq_refl [] = refl
bytes_eq_refl (x ∷ xs) = ground (arith, bytes_eq_refl xs)

pub bytes_eq-false→ne : (a b : Bytes) → bytes_eq a b ≡ false → a ≢ b
bytes_eq-false→ne a b e p = cc (bytes_eq_refl b, ap (λ x. bytes_eq x b) p)

-- `v.to_bytes(n, "big")` of a value that fits, and `int.from_bytes(b, "big")`
unfoldable pub to_bytes : ℕ → ℕ → Bytes
to_bytes zero v = []
to_bytes (suc n) v = to_bytes n (v / 256) ++ (v % 256 ∷ [])

unfoldable pub from_bytes_onto : ℕ → Bytes → ℕ
from_bytes_onto acc [] = acc
from_bytes_onto acc (b ∷ bs) = from_bytes_onto (acc * 256 + b) bs

abbrev pub from_bytes : Bytes → ℕ
from_bytes bs = from_bytes_onto 0 bs

pub length-to_bytes : (n v : ℕ) → length (to_bytes n v) ≡ n
unfolding to_bytes
length-to_bytes zero v = refl
length-to_bytes (suc n) v =
    omega (arith, length-append (to_bytes n (v / 256)) (v % 256 ∷ []), length-to_bytes n (v / 256))

from_bytes_onto-append :
    (acc : ℕ) (xs ys : Bytes)
    → from_bytes_onto acc (xs ++ ys) ≡ from_bytes_onto (from_bytes_onto acc xs) ys
unfolding from_bytes_onto
from_bytes_onto-append acc [] ys = refl
from_bytes_onto-append acc (x ∷ xs) ys = from_bytes_onto-append (acc * 256 + x) xs ys

-- The value comes back from its bytes, if they have room for it.
pub from_bytes-to_bytes : (n v : ℕ) → v < 256 ^ n → from_bytes (to_bytes n v) ≡ v
unfolding to_bytes from_bytes_onto
from_bytes-to_bytes zero v h = omega arith
from_bytes-to_bytes (suc n) v h =
    let room : v / 256 < 256 ^ n = omega (arith, pow-suc 256 n) in
    from_bytes_onto-append 0 (to_bytes n (v / 256)) (v % 256 ∷ [])
    ∙ (rw (from_bytes-to_bytes n (v / 256) room) (omega arith))

pub to_bytes_injective :
    (n v w : ℕ) → v < 256 ^ n → w < 256 ^ n → to_bytes n v ≡ to_bytes n w → v ≡ w
to_bytes_injective n v w hv hw e =
    sym (from_bytes-to_bytes n v hv) ∙ ap from_bytes e ∙ from_bytes-to_bytes n w hw

pub to_bytes-IsByte : (n v : ℕ) → All IsByte (to_bytes n v)
unfolding to_bytes
to_bytes-IsByte zero v = tt
to_bytes-IsByte (suc n) v =
    All-append IsByte (to_bytes n (v / 256)) (v % 256 ∷ []) (to_bytes-IsByte n (v / 256))
      (omega arith)

-- Two strings of bytes with one head length split in the same place.
pub append_cancel : (a b c d : Bytes) → length a ≡ length b → a ++ c ≡ b ++ d → (a ≡ b) × (c ≡ d)
append_cancel [] [] c d n e = (refl, e)
append_cancel [] (y ∷ b) c d n e = absurd (omega arith)
append_cancel (x ∷ a) [] c d n e = absurd (omega arith)
append_cancel (x ∷ a) (y ∷ b) c d n e =
    let rest = append_cancel a b c d (omega arith) (cc) in (cc rest.0, rest.1)

-- What the program relies on of SHA-256: a digest has 32 bytes.
pub record Sha : Type 0 where
  pub sha256 : Bytes → Bytes
  pub length-sha256 : (b : Bytes) → length (sha256 b) ≡ 32
  pub sha256-IsByte : (b : Bytes) → All IsByte (sha256 b)

-- Two inputs that show the hash function to collide.
abbrev pub Collision : Sha → Type 0
Collision h = (x : Bytes) × (y : Bytes) × (x ≢ y) × (h.sha256 x ≡ h.sha256 y)

-- `b"".join(parts)`
unfoldable pub join : List Bytes → Bytes
join [] = []
join (b ∷ bs) = b ++ join bs

pub join_pair : (a b : Bytes) → join (a ∷ b ∷ []) ≡ a ++ b
unfolding join
join_pair a b = ap (λ r. a ++ r) (append-nil b)

-- Equal digests of two strings: the strings are equal, or they collide.
pub sha256_injective : (h : Sha) (x y : Bytes) → h.sha256 x ≡ h.sha256 y → (x ≡ y) ⊎ Collision h
sha256_injective h x y e = elim (Bool-cases (bytes_eq x y)) [
  | inl same ↦ inl (bytes_eq→eq x y same)
  | inr other ↦ inr (x, y, bytes_eq-false→ne x y other, e)
]

-- `v.to_bytes(n, "little")` of a value that fits, and `int.from_bytes(b, "little")`
unfoldable pub to_little : ℕ → ℕ → Bytes
to_little zero v = []
to_little (suc n) v = v % 256 ∷ to_little n (v / 256)

unfoldable pub from_little : Bytes → ℕ
from_little [] = 0
from_little (b ∷ bs) = b + 256 * from_little bs

pub length-to_little : (n v : ℕ) → length (to_little n v) ≡ n
unfolding to_little
length-to_little zero v = refl
length-to_little (suc n) v = ap suc (length-to_little n (v / 256))

pub from_little-to_little : (n v : ℕ) → v < 256 ^ n → from_little (to_little n v) ≡ v
unfolding to_little from_little
from_little-to_little zero v h = omega arith
from_little-to_little (suc n) v h =
    omega (arith, from_little-to_little n (v / 256) (omega (arith, pow-suc 256 n)))
