-- ===== src/Prelude/Bytes.antt =====
-- Buffers of bytes, and the numbers in them.
use Prim.Native.Nat.{ℕ, zero, suc, ◌+◌, ◌*◌, ◌/◌, ◌%◌, ◌^◌, ◌<◌}
use mathlib.Core.Path.{◌≡◌, refl}
use mathlib.Core.List.{List, [], ◌∷◌, ◌++◌}
use mathlib.Core.Option.{Option, none, some}
use native.Mathlib.Nat.{pow-suc}
use native.Mathlib.Omega.{arith}
use xernel.Prelude.Lists.{length, get_elem?, take, drop}

-- `to_le_bytes`, of `n` bytes.
unfoldable pub le_bytes : ℕ → ℕ → List ℕ
le_bytes zero x = []
le_bytes (suc n) x = x % 256 ∷ le_bytes n (x / 256)

-- `from_le_bytes`.
unfoldable pub from_le_bytes : List ℕ → ℕ
from_le_bytes [] = 0
from_le_bytes (b ∷ bytes) = b + 256 * from_le_bytes bytes

-- The byte at an index inside the buffer; outside, where the source panics, 0.
abbrev pub octet_of : Option ℕ → ℕ
octet_of none = 0
octet_of (some b) = b

abbrev pub octet : List ℕ → ℕ → ℕ
octet buf i = octet_of (get_elem? buf i)

-- `buf[off..off + n]`, inside the buffer.
abbrev pub slice : List ℕ → ℕ → ℕ → List ℕ
slice buf off n = take n (drop off buf)

-- `buf[off..off + bytes.len()].copy_from_slice(bytes)`, inside the buffer.
abbrev pub splice : List ℕ → ℕ → List ℕ → List ℕ
splice buf off bytes = take off buf ++ bytes ++ drop (off + length bytes) buf

pub length-le_bytes : (n x : ℕ) → length (le_bytes n x) ≡ n
unfolding le_bytes
length-le_bytes zero x = refl
length-le_bytes (suc n) x = omega (arith, length-le_bytes n (x / 256))

pub from_le_bytes-le_bytes : (n x : ℕ) → x < 256 ^ n → from_le_bytes (le_bytes n x) ≡ x
unfolding le_bytes from_le_bytes
from_le_bytes-le_bytes zero x h = omega arith
from_le_bytes-le_bytes (suc n) x h =
    omega (arith, from_le_bytes-le_bytes n (x / 256) (omega (arith, pow-suc 256 n)))
