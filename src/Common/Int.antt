-- ===== src/Common/Int.antt =====
-- The C `int`: 32 bits, two's complement. `negsuc n` is -(n + 1).
use Prim.Native.Nat.{ℕ, ◌-◌, ◌%◌, ◌^◌, ◌<◌, ◌≤◌}
use mathlib.Core.Path.{◌≡◌}
use mathlib.Core.Bool.{Bool, true, false}
use native.Mathlib.Omega.{arith}
use libncclient.Common.Tests.{ltb, if◌then◌else◌}

pub data ℤ : Type 0 where
  pos : ℕ → ℤ
  negsuc : ℕ → ℤ

-- The `int` that a bit pattern below 2 ^ 32 stands for.
abbrev pub signed32 : ℕ → ℤ
signed32 w = if ltb w (2 ^ 31) then pos w else negsuc (2 ^ 32 - w - 1)

-- `(int)n` of a `size_t`.
unfoldable pub to_int : ℕ → ℤ
to_int n = signed32 (n % 2 ^ 32)

pub to_int-of_lt : (n : ℕ) → n < 2 ^ 31 → to_int n ≡ pos n
unfolding to_int
to_int-of_lt n h = ground arith

-- `n <= 0`.
abbrev pub is_nonpos : ℤ → Bool
is_nonpos (pos n) = if ltb 0 n then false else true
is_nonpos (negsuc n) = true

-- `n == 0`.
abbrev pub is_zero : ℤ → Bool
is_zero (pos n) = if ltb 0 n then false else true
is_zero (negsuc n) = false

pub to_int_of_ge : (n : ℕ) → 2 ^ 31 ≤ n → n < 2 ^ 32 → to_int n ≡ negsuc (2 ^ 32 - n - 1)
unfolding to_int
to_int_of_ge n low high = ground arith
