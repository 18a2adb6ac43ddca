-- ===== src/Btest.antt =====
-- The test harness of the bit puzzles, ASSN/ASSN1/btest.c. An `int` or an `unsigned` is its 32-bit
-- pattern, a C string is the list of its bytes, and a `funct_t` is a function of the list of the
-- arguments with which it is called.
pub mod Order
pub mod FloatVals
pub mod Values
pub mod Generated
pub mod Run
pub mod Verdict
pub mod Options
pub mod Table
pub mod Suite
pub mod FullScore
mod Tests
use Prim.Native.Nat.{bit_or}
use csed.Prelude.{
  ℕ, zero, suc, ◌+◌, ◌-◌, ◌*◌, ◌%◌, ◌^◌, Bool, not, ◌&&◌, Option, none, some, List, [], ◌∷◌, ◌++◌,
  ltb, leb, ◌==◌, if◌then◌else◌, length,
}
use csed.Prelude.Words.{int_inc, int_lt, int_add, int_neg}

abbrev pub test_range : ℕ
test_range = 500000

abbrev pub max_test_vals : ℕ
max_test_vals = 13 * test_range

-- `x - y` on `int`s.
unfoldable pub int_sub : ℕ → ℕ → ℕ
int_sub x y = (x + 2 ^ 32 - y) % 2 ^ 32

abbrev pub Text : Type 0
Text = List ℕ

-- The globals that the command line sets.
pub record Flags : Type 0 where
  pub grade : Bool
  pub timeout_limit : ℕ
  pub test_fname : Option Text
  pub has_arg : ℕ → Bool
  pub argval : ℕ → ℕ
  pub global_rating : ℕ

-- The values of one round for a function on floats.
abbrev pub float_round : ℕ → List ℕ
float_round i =
    let smallest_norm : ℕ = 0x00800000 in
    let one : ℕ = 0x3f800000 in
    let largest_norm : ℕ = 0x7f000000 in
    let sign : ℕ = 0x80000000 in
    i
    ∷ bit_or sign i
    ∷ int_add smallest_norm i
    ∷ int_sub smallest_norm i
    ∷ bit_or sign (int_add smallest_norm i)
    ∷ bit_or sign (int_sub smallest_norm i)
    ∷ int_add one i
    ∷ int_sub one i
    ∷ bit_or sign (int_add one i)
    ∷ bit_or sign (int_sub one i)
    ∷ int_sub largest_norm i
    ∷ bit_or sign (int_sub largest_norm i)
    ∷ []

abbrev pub special_vals : List ℕ
special_vals =
    let inf : ℕ = 0x7f800000 in
    let nan : ℕ = 0x7fc00000 in
    let sign : ℕ = 0x80000000 in inf ∷ bit_or sign inf ∷ nan ∷ bit_or sign nan ∷ []

-- The rounds that are left, from `i`, and the special values behind them.
unfoldable pub float_vals : ℕ → ℕ → List ℕ
float_vals zero i = special_vals
float_vals (suc left) i = float_round i ++ float_vals left (i + 1)

-- `for (i = min; i <= max; i++)`. The first argument bounds the rounds: with more values than
-- that, the array is exceeded.
unfoldable pub all_vals : ℕ → ℕ → ℕ → List ℕ
all_vals zero max i = []
all_vals (suc fuel) max i =
    let rest = all_vals fuel max (int_inc i) in if int_lt max i then [] else i ∷ rest

-- The value, if it is between the bounds.
unfoldable pub if_between : ℕ → ℕ → ℕ → List ℕ
if_between min max i = if not (int_lt i min) && not (int_lt max i) then i ∷ [] else []

-- The values near the boundaries, around zero, and what `random_val` draws in the round.
unfoldable pub sample_round : (ℕ → ℕ → ℕ → ℕ) → ℕ → ℕ → ℕ → List ℕ
sample_round random_val min max i =
    int_add min i
    ∷ int_sub max i
    ∷ (if_between min max i ++ (if_between min max (int_neg i) ++ (random_val i min max ∷ [])))

unfoldable pub sample_vals : (ℕ → ℕ → ℕ → ℕ) → ℕ → ℕ → ℕ → ℕ → List ℕ
sample_vals random_val min max zero i = []
sample_vals random_val min max (suc left) i =
    sample_round random_val min max i ++ sample_vals random_val min max left (i + 1)

-- The values in the array, or `none` where one is stored behind it.
unfoldable pub stored : List ℕ → Option (List ℕ)
stored vals = if leb (length vals) max_test_vals then some vals else none

unfoldable pub gen_vals : Flags → (ℕ → ℕ → ℕ → ℕ) → ℕ → ℕ → ℕ → ℕ → Option (List ℕ)
gen_vals flags random_val min max range arg =
    if flags.has_arg arg
    then stored (flags.argval arg ∷ [])
    else if min == 1 && max == 1
    then stored (float_vals (if ltb (2 ^ 23) range then 2 ^ 23 else range) 0)
    else if not (int_lt min (int_sub max max_test_vals))
    then stored (all_vals (max_test_vals + 1) max min)
    else stored (sample_vals random_val min max range 0)
