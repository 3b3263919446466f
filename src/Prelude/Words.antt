-- ===== src/Prelude/Words.antt =====
-- C's `int` and `unsigned int` as bit patterns below 2 ^ 32, and the truth value of a number.
use router1_app.Prelude.Tests.{ltb, ◌==◌, if◌then◌else◌}
use Prim.Native.Nat.{ℕ, ◌+◌, ◌-◌, ◌*◌, ◌/◌, ◌%◌, ◌^◌}
use mathlib.Core.Bool.{Bool, not}

abbrev pub add32 : ℕ → ℕ → ℕ
add32 a b = (a + b) % 2 ^ 32

-- `a - b` for `b` below 2 ^ 32; natural subtraction stops at 0, so the modulus is added first.
abbrev pub sub32 : ℕ → ℕ → ℕ
sub32 a b = (a + 2 ^ 32 - b) % 2 ^ 32

abbrev pub sub64 : ℕ → ℕ → ℕ
sub64 a b = (a + 2 ^ 64 - b) % 2 ^ 64

-- `x << k`.
abbrev pub shl32 : ℕ → ℕ → ℕ
shl32 x k = x * 2 ^ k % 2 ^ 32

-- `x >> 8` on a signed int: the sign bit fills from the left.
abbrev pub sar8 : ℕ → ℕ
sar8 x = if ltb x (2 ^ 31) then x / 2 ^ 8 else x / 2 ^ 8 + (2 ^ 32 - 2 ^ 24)

-- -1.
abbrev pub minus_one : ℕ
minus_one = 2 ^ 32 - 1

-- A number where C wants a truth value.
abbrev pub truthy : ℕ → Bool
truthy n = not (n == 0)
