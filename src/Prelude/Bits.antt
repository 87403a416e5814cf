-- ===== src/Prelude/Bits.antt =====
-- The bits of a native number, and the bitwise operations of `u64` digit by digit.
use Prim.Native.Nat.{ℕ, zero, suc, ◌+◌, ◌*◌, ◌/◌, ◌%◌, ◌^◌, ◌<◌, max}
use mathlib.Core.Path.{◌≡◌, refl}
use mathlib.Core.Bool.{Bool, false, ◌||◌}
use native.Mathlib.Omega.{arith}
use xernel.Prelude.Tests.{◌==◌}

-- Bit `k` of a number.
abbrev pub test_bit : ℕ → ℕ → Bool
test_bit zero a = a % 2 == 1
test_bit (suc k) a = test_bit k (a / 2)

-- `a | b` on the lowest `width` bits.
unfoldable pub bit_or : ℕ → ℕ → ℕ → ℕ
bit_or zero a b = 0
bit_or (suc width) a b = max (a % 2) (b % 2) + 2 * bit_or width (a / 2) (b / 2)

pub test_bit-bit_or :
    (width a b k : ℕ) → k < width → test_bit k (bit_or width a b) ≡ (test_bit k a || test_bit k b)
unfolding bit_or
test_bit-bit_or zero a b k h = absurd (omega arith)
test_bit-bit_or (suc width) a b zero h =
    let low : (max (a % 2) (b % 2) + 2 * bit_or width (a / 2) (b / 2)) % 2 ≡ max (a % 2) (b % 2) =
      omega arith in
    rw low (ground arith)
test_bit-bit_or (suc width) a b (suc k) h =
    let high : (max (a % 2) (b % 2) + 2 * bit_or width (a / 2) (b / 2)) / 2
        ≡ bit_or width (a / 2) (b / 2) =
      omega arith in
    rw high (test_bit-bit_or width (a / 2) (b / 2) k (omega arith))

pub test_bit_zero : (k : ℕ) → test_bit k 0 ≡ false
test_bit_zero zero = refl
test_bit_zero (suc k) = test_bit_zero k

-- A number whose lowest bits are all clear is zero if it has no others.
pub test_bit-none :
    (width a : ℕ) → a < 2 ^ width → ((k : ℕ) → k < width → test_bit k a ≡ false) → a ≡ 0
test_bit-none zero a h none_set = omega arith
test_bit-none (suc width) a h none_set =
    let low : a % 2 ≡ 0 = let e = none_set 0 (omega arith) in ground arith in
    let high : a / 2 ≡ 0 =
      test_bit-none width (a / 2) (omega arith) (λ k l. none_set (suc k) (omega arith)) in
    omega arith
