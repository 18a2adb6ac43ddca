-- ===== src/Prelude/Words.antt =====
-- C's `int` as its 32-bit pattern: its operators, signed comparison and sign extension.
use Prim.Native.Nat.{ℕ, ◌+◌, ◌-◌, ◌*◌, ◌/◌, ◌%◌, ◌^◌, ◌<◌}
use mathlib.Core.Path.{◌≡◌}
use mathlib.Core.Bool.{Bool}
use native.Mathlib.Omega.{arith}
use csed.Prelude.Tests.{ltb, if◌then◌else◌}

-- `x + 1`, which wraps.
unfoldable pub int_inc : ℕ → ℕ
int_inc x = (x + 1) % 2 ^ 32

-- `a < b` on `int`s.
unfoldable pub int_lt : ℕ → ℕ → Bool
int_lt a b = ltb ((a + 2 ^ 31) % 2 ^ 32) ((b + 2 ^ 31) % 2 ^ 32)

-- The conversion of an `int` to `unsigned long long`, which extends the sign.
unfoldable pub u64_of_int : ℕ → ℕ
u64_of_int x = if ltb x (2 ^ 31) then x else x + (2 ^ 64 - 2 ^ 32)

pub int_inc-small : (n : ℕ) → n + 1 < 2 ^ 31 → int_inc n ≡ n + 1
unfolding int_inc
int_inc-small n h = omega arith

-- On numbers that fit, the signed comparison is the one of the numbers.
pub int_lt-small : (a b : ℕ) → a < 2 ^ 31 → b < 2 ^ 31 → int_lt a b ≡ ltb a b
unfolding int_lt
int_lt-small a b ha hb = ground arith

-- The operators `~`, `+`, unary `-`, `<<` and `>>` on the pattern of an `int`; `>>` keeps the
-- sign, and shifts by less than 32.
unfoldable pub int_not : ℕ → ℕ
int_not x = 2 ^ 32 - 1 - x

unfoldable pub int_add : ℕ → ℕ → ℕ
int_add x y = (x + y) % 2 ^ 32

unfoldable pub int_neg : ℕ → ℕ
int_neg x = (2 ^ 32 - x) % 2 ^ 32

unfoldable pub int_shl : ℕ → ℕ → ℕ
int_shl x n = x * 2 ^ n % 2 ^ 32

unfoldable pub int_shr : ℕ → ℕ → ℕ
int_shr x n = if ltb x (2 ^ 31) then x / 2 ^ n else x / 2 ^ n + (2 ^ 32 - 2 ^ (32 - n))
