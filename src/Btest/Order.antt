-- ===== src/Btest/Order.antt =====
-- The order of `int`s, by the place of a pattern in it.
use csed.Prelude.{ℕ, ◌+◌, ◌-◌, ◌%◌, ◌^◌, ◌≤◌, ◌<◌, ◌≡◌, arith, ltb}
use csed.Prelude.Words.{int_lt, int_inc, int_add}
use csed.Btest.{int_sub}

-- How many `int`s are smaller.
abbrev pub rank : ℕ → ℕ
rank x = (x + 2 ^ 31) % 2 ^ 32

-- A pattern of 32 bits between two others.
pub record InRange (min max v : ℕ) : Type 0 where
  pub fits : v < 2 ^ 32
  pub above : rank min ≤ rank v
  pub below : rank v ≤ rank max

pub int_lt-rank : (x y : ℕ) → int_lt x y ≡ ltb (rank x) (rank y)
unfolding int_lt
int_lt-rank x y = ground arith

pub rank-int_add :
    (x n : ℕ) → rank x + n < 2 ^ 32 → (rank (int_add x n) ≡ rank x + n) × (int_add x n < 2 ^ 32)
unfolding int_add
rank-int_add x n h = omega arith

pub rank-int_sub :
    (x n : ℕ) → n ≤ rank x → x < 2 ^ 32 → (rank (int_sub x n) ≡ rank x - n) × (int_sub x n < 2 ^ 32)
unfolding int_sub
rank-int_sub x n h k = omega arith

pub rank-int_inc :
    (x : ℕ) → rank x + 1 < 2 ^ 32 → (rank (int_inc x) ≡ rank x + 1) × (int_inc x < 2 ^ 32)
unfolding int_inc
rank-int_inc x h = omega arith
