-- ===== src/Common/Texts.antt =====
-- Python texts in ASCII as bytes: literals, `bytes.hex` and `bytes.fromhex`, `str.lower`.
use Prim.Native.Nat.{ℕ, ◌+◌, ◌-◌, ◌*◌, ◌/◌, ◌%◌, ◌<◌}
use Prim.Native.Char.{code}
use Prim.Native.String.{String}
use mathlib.Core.Path.{◌≡◌, refl, ap}
use mathlib.Core.Bool.{Bool, false, ◌&&◌, ◌||◌}
use mathlib.Core.Option.{Option, none, some}
use mathlib.Core.List.{[], ◌∷◌, map}
use native.Mathlib.Omega.{arith}
use capsule_tech.Common.Tests.{ltb, leb, ◌==◌, if◌then◌else◌}
use capsule_tech.Common.Lists.{All}
use capsule_tech.Common.Bytes.{Bytes, IsByte}

-- A literal, by its code points
abbrev pub codes : String → Bytes
codes String.[] = []
codes (String.◌∷◌ c s) = code c ∷ codes s

unfoldable pub hex_digit : ℕ → ℕ
hex_digit n = if ltb n 10 then 48 + n else 87 + n

-- `b.hex()`
unfoldable pub hex : Bytes → Bytes
unfolding hex_digit
hex [] = []
hex (b ∷ bs) = hex_digit (b / 16) ∷ hex_digit (b % 16) ∷ hex bs

-- `int(c, 16)` of one character
unfoldable pub hex_value : ℕ → Option ℕ
hex_value c =
    if leb 48 c && leb c 57
    then some (c - 48)
    else if leb 97 c && leb c 102
    then some (c - 87)
    else if leb 65 c && leb c 70
    then some (c - 55)
    else none

unfoldable pub is_space : ℕ → Bool
is_space c = c == 32 || leb 9 c && leb c 13

abbrev pub pair_value : Option ℕ → Option ℕ → Option Bytes → Option Bytes
pair_value (some high) (some low) (some rest) = some ((high * 16 + low) ∷ rest)
pair_value (some high) (some low) none = none
pair_value (some high) none rest = none
pair_value none low rest = none

-- `bytes.fromhex(s)`, which skips white space between the pairs; nothing where it raises
unfoldable pub fromhex : Bytes → Option Bytes
unfolding hex_value is_space
fromhex [] = some []
fromhex (c ∷ []) = if is_space c then some [] else none
fromhex (c ∷ d ∷ cs) =
    let rest = fromhex cs in
    let skipped = fromhex (d ∷ cs) in
    if is_space c then skipped else pair_value (hex_value c) (hex_value d) rest

-- `s.lower()` in ASCII
unfoldable pub lower_char : ℕ → ℕ
lower_char c = if leb 65 c && leb c 90 then c + 32 else c

unfoldable pub lower : Bytes → Bytes
unfolding lower_char
lower s = map lower_char s

hex_value-hex_digit : (n : ℕ) → n < 16 → hex_value (hex_digit n) ≡ some n
unfolding hex_value hex_digit
hex_value-hex_digit n h = ground arith

hex_digit-visible : (n : ℕ) → n < 16 → is_space (hex_digit n) ≡ false
unfolding is_space hex_digit
hex_digit-visible n h = ground arith

-- The bytes come back from their hexadecimal digits.
pub fromhex-hex : (b : Bytes) → All IsByte b → fromhex (hex b) ≡ some b
unfolding fromhex hex
fromhex-hex [] h = refl
fromhex-hex (b ∷ bs) h =
    let split : b / 16 * 16 + b % 16 ≡ b = omega arith in
    rw
      (
        hex_digit-visible (b / 16) (omega arith),
        hex_value-hex_digit (b / 16) (omega arith),
        hex_value-hex_digit (b % 16) (omega arith),
        fromhex-hex bs h.1,
        split,
      )
      refl

-- Digests with the same digits are the same.
pub hex_injective : (a b : Bytes) → All IsByte a → All IsByte b → hex a ≡ hex b → a ≡ b
hex_injective a b ha hb e = cc (fromhex-hex a ha, fromhex-hex b hb, ap fromhex e)

lower_char_idem : (c : ℕ) → lower_char (lower_char c) ≡ lower_char c
unfolding lower_char
lower_char_idem c = ground arith

pub lower_idem : (s : Bytes) → lower (lower s) ≡ lower s
unfolding lower
lower_idem [] = refl
lower_idem (c ∷ s) = cc (lower_char_idem c, lower_idem s)
