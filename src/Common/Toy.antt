-- ===== src/Common/Toy.antt =====
-- A checksum with the hash function's interface, at which the examples are evaluated.
use Prim.Native.Nat.{ℕ, zero, suc, ◌+◌, ◌*◌, ◌%◌, ◌<◌}
use mathlib.Core.List.{[], ◌∷◌}
use native.Mathlib.Omega.{arith}
use capsule_tech.Common.Lists.{All, replicate, length-replicate}
use capsule_tech.Common.Bytes.{Bytes, IsByte, Sha}

abbrev pub checksum : ℕ → Bytes → ℕ
checksum acc [] = acc
checksum acc (b ∷ bs) = checksum ((acc * 31 + b + 7) % 256) bs

pub replicate-IsByte : (n c : ℕ) → c < 256 → All IsByte (replicate n c)
replicate-IsByte zero c h = tt
replicate-IsByte (suc n) c h = (h, replicate-IsByte n c h)

pub checksum-lt : (acc : ℕ) (b : Bytes) → acc < 256 → checksum acc b < 256
checksum-lt acc [] h = h
checksum-lt acc (x ∷ xs) h = checksum-lt ((acc * 31 + x + 7) % 256) xs (omega arith)

abbrev pub toy_sha : Sha
toy_sha = record {
  sha256 = λ b. replicate 32 (checksum 0 b);
  length-sha256 = λ b. length-replicate 32 (checksum 0 b);
  sha256-IsByte = λ b. replicate-IsByte 32 (checksum 0 b) (checksum-lt 0 b (omega arith));
}
