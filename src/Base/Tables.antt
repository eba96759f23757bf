-- ===== src/Base/Tables.antt =====
-- Facts about a bounded number that are checked at every value, by evaluation.
use Prim.Native.Nat.{ℕ, zero, suc, ◌/◌, ◌%◌, ◌+◌, ◌*◌, ◌<◌, bit_xor}
use mathlib.Core.Path.{◌≡◌, refl}
use mathlib.Core.Bool.{Bool, true, ◌&&◌}
use native.Mathlib.Omega.{arith}
use pnos_sdk.Base.Tests.{◌==◌, ltb}

-- A test holds of every number under a bound.
unfoldable pub every_under : (ℕ → Bool) → ℕ → Bool
every_under test zero = true
every_under test (suc bound) = every_under test bound && test bound

pub every_under-at :
    (test : ℕ → Bool) (bound k : ℕ) → k < bound → every_under test bound ≡ true → test k ≡ true
unfolding every_under
every_under-at test zero k below all = absurd (omega arith)
every_under-at test (suc bound) k below all = ground (arith, every_under-at test bound k)

-- The two bytes of a number under 65536, masked.
masked_twice : ℕ → Bool
masked_twice n =
    bit_xor (bit_xor (n / 256) (n % 256)) (n % 256) == n / 256
    && ltb (bit_xor (n / 256) (n % 256)) 256

masked_twice-table : every_under masked_twice 65536 ≡ true
unfolding every_under masked_twice
masked_twice-table = refl

masked_twice_lem :
    (n : ℕ)
    → masked_twice n ≡ true
    → (bit_xor (bit_xor (n / 256) (n % 256)) (n % 256) ≡ n / 256)
      × (bit_xor (n / 256) (n % 256) < 256)
unfolding masked_twice
masked_twice_lem n h = ground arith

-- Masking a byte twice with one key gives the byte back, and a masked byte is a byte.
pub byte_xor_twice :
    (b k : ℕ) → b < 256 → k < 256 → (bit_xor (bit_xor b k) k ≡ b) × (bit_xor b k < 256)
byte_xor_twice b k hb hk =
    let h =
      masked_twice_lem (b * 256 + k)
        (every_under-at masked_twice 65536 (b * 256 + k) (omega arith) masked_twice-table) in
    let p : (b * 256 + k) / 256 ≡ b = omega arith in
    let q : (b * 256 + k) % 256 ≡ k = omega arith in rw (p, q) at h
