-- ===== src/Base/Bytes.antt =====
-- Bytes and big-endian integers: `to_be_bytes` and `from_be_bytes` of u16 and u32.
use Prim.Native.Nat.{ℕ, ◌+◌, ◌*◌, ◌/◌, ◌%◌, ◌^◌, ◌<◌}
use mathlib.Core.Path.{◌≡◌}
use mathlib.Core.List.{List, [], ◌∷◌}
use native.Mathlib.Omega.{arith}

abbrev pub IsByte : ℕ → Type 0
IsByte b = b < 256

abbrev pub IsU16 : ℕ → Type 0
IsU16 n = n < 2 ^ 16

abbrev pub IsU32 : ℕ → Type 0
IsU32 n = n < 2 ^ 32

abbrev pub u16 : ℕ → ℕ → ℕ
u16 a b = a * 256 + b

abbrev pub u32 : ℕ → ℕ → ℕ → ℕ → ℕ
u32 a b c d = u16 a b * 65536 + u16 c d

abbrev pub be16 : ℕ → List ℕ
be16 n = n / 256 % 256 ∷ n % 256 ∷ []

abbrev pub be32 : ℕ → List ℕ
be32 n = n / 16777216 % 256 ∷ n / 65536 % 256 ∷ n / 256 % 256 ∷ n % 256 ∷ []

pub u16-be16 : (n : ℕ) → IsU16 n → u16 (n / 256 % 256) (n % 256) ≡ n
u16-be16 n h = omega arith

pub u32-be32 :
    (n : ℕ) → IsU32 n → u32 (n / 16777216 % 256) (n / 65536 % 256) (n / 256 % 256) (n % 256) ≡ n
u32-be32 n h = omega arith
