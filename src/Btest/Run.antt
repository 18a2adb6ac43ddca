-- ===== src/Btest/Run.antt =====
-- The tests that ASSN/ASSN1/btest.c runs: `test_function` and `run_tests`.
use mathlib.Core.Option
use csed.Prelude.{
  ℕ, zero, suc, ◌+◌, Bool, true, ◌&&◌, ◌||◌, Option, none, some, List, [], ◌∷◌, ◌++◌, ltb, ◌==◌,
  if◌then◌else◌, get_elem?,
}
use csed.Prelude.Words.{int_lt, int_add}
use csed.Prelude.Texts.{text_eq}
use csed.Btest.{Text, Flags, test_range, gen_vals}

-- `test_rec`, without the limits on operators, which btest.c does not read.
pub record TestRec : Type 0 where
  pub name : Text
  pub solution_funct : List ℕ → ℕ
  pub test_funct : List ℕ → ℕ
  pub args : ℕ
  pub rating : ℕ
  pub arg_ranges : ℕ → ℕ × ℕ

pub data Message : Type 0 where
  -- the name, the arguments, what the function gives and what it should give
  failed : Text → List ℕ → ℕ → ℕ → Message
  timed_out : Text → ℕ → Message
  invalid_args : ℕ → Text → Message
  -- the points, the rating, the errors and the name
  score : ℕ → ℕ → ℕ → Text → Message
  heading : Message
  -- the points and the most that can be reached
  total_points : ℕ → ℕ → Message

-- The number of errors, and what is printed.
abbrev pub Errors : Type 0
Errors = ℕ × List Message

-- What the C library and the clock give while one function is tested: the square root and the
-- cube root of `test_range`, the values that `random_val` makes of `rand` for each argument and
-- round, and whether the alarm goes off before the tests are done.
pub record System : Type 0 where
  pub sqrt_range : ℕ
  pub cbrt_range : ℕ
  pub random_val : ℕ → ℕ → ℕ → ℕ → ℕ
  pub expires : Bool

unfoldable pub compared : Flags → TestRec → List ℕ → Errors
compared flags t args =
    let r : ℕ = t.solution_funct args in
    let rt : ℕ = t.test_funct args in
    if r == rt then (0, []) else (1, if flags.grade then [] else failed t.name args r rt ∷ [])

abbrev pub test_0_arg : Flags → TestRec → Errors
test_0_arg flags t = compared flags t []

abbrev pub test_1_arg : Flags → TestRec → ℕ → Errors
test_1_arg flags t arg1 = compared flags t (arg1 ∷ [])

abbrev pub test_2_arg : Flags → TestRec → ℕ → ℕ → Errors
test_2_arg flags t arg1 arg2 = compared flags t (arg1 ∷ arg2 ∷ [])

abbrev pub test_3_arg : Flags → TestRec → ℕ → ℕ → ℕ → Errors
test_3_arg flags t arg1 arg2 arg3 = compared flags t (arg1 ∷ arg2 ∷ arg3 ∷ [])

-- A loop over values, which stops at the first error. A test without an error prints nothing.
unfoldable pub try_each : (ℕ → Errors) → List ℕ → Errors
try_each test [] = (0, [])
try_each test (a ∷ rest) =
    let later = try_each test rest in if (test a).0 == 0 then later else test a

unfoldable pub vals_of : List (List ℕ) → ℕ → List ℕ
vals_of vals i = Option.get_or (get_elem? vals i) []

-- The tests of a function with one argument or more.
unfoldable pub test_vals : Flags → TestRec → ℕ → List (List ℕ) → Errors
test_vals flags t args vals =
    try_each
      (λ a1.
        if args == 1
        then test_1_arg flags t a1
        else try_each
            (λ a2.
              if args == 2
              then test_2_arg flags t a1 a2
              else try_each (test_3_arg flags t a1 a2) (vals_of vals 2))
            (vals_of vals 1))
      (vals_of vals 0)

unfoldable pub arg_test_range : System → ℕ → ℕ
arg_test_range sys args =
    let range =
      if args == 1 then test_range else if args == 2 then sys.sqrt_range else sys.cbrt_range in
    if ltb range 1 then 1 else range

-- The values for the arguments that are left, from the argument `i`.
unfoldable pub gen_args : System → Flags → TestRec → ℕ → ℕ → Option (List (List ℕ))
gen_args sys flags t zero i = some []
gen_args sys flags t (suc left) i =
    Option.bind
      (gen_vals flags (sys.random_val i) (t.arg_ranges i).0 (t.arg_ranges i).1
        (arg_test_range sys t.args) i)
      (λ vals. Option.map (◌∷◌ vals) (gen_args sys flags t left (i + 1)))

-- How `test_function` ends: it returns, exits, or stores behind an array.
pub data Tested : Type 0 where
  tested : Errors → Tested
  exited : List Message → Tested
  overrun : Tested

unfoldable pub test_generated : System → Flags → TestRec → ℕ → List (List ℕ) → Tested
test_generated sys flags t args vals =
    if int_lt 0 flags.timeout_limit && sys.expires
    then tested (1, timed_out t.name flags.timeout_limit ∷ [])
    else if args == 0
    then tested (test_0_arg flags t)
    else tested (test_vals flags t args vals)

unfoldable pub test_function : System → Flags → TestRec → Tested
test_function sys flags t =
    if int_lt t.args 0 || int_lt 3 t.args
    then exited (invalid_args t.args t.name ∷ [])
    else elim (gen_args sys flags t t.args 0) [
      | none ↦ overrun
      | some vals ↦ test_generated sys flags t t.args vals
    ]

-- The counters of `run_tests`, and what is printed. A sum of ratings is exact as a `double`.
pub record Totals : Type 0 where
  pub errors : ℕ
  pub points : ℕ
  pub max_points : ℕ
  pub printed : List Message

unfoldable pub selected : Flags → TestRec → Bool
selected flags t = elim flags.test_fname [ none ↦ true | some fname ↦ text_eq t.name fname ]

unfoldable pub add_score : Flags → TestRec → Errors → Totals → Totals
add_score flags t (terrors, messages) totals =
    let rating = if flags.global_rating == 0 then t.rating else flags.global_rating in
    let tpoints = if terrors == 0 then rating else 0 in
    let line =
      if flags.grade || ltb terrors 1 then score tpoints rating terrors t.name ∷ [] else [] in
    record {
      errors = int_add totals.errors terrors;
      points = totals.points + tpoints;
      max_points = totals.max_points + rating;
      printed = totals.printed ++ (messages ++ line);
    }

pub data Ran : Type 0 where
  ran : Totals → Ran
  stopped : List Message → Ran
  crashed : Ran

-- The records up to the one with the null function, from the index `i`.
unfoldable pub run_from : (ℕ → System) → Flags → List TestRec → ℕ → Totals → Ran
run_from sys flags [] i totals = ran (record totals {
  printed = totals.printed ++ (total_points totals.points totals.max_points ∷ []);
})
run_from sys flags (t ∷ ts) i totals =
    if selected flags t
    then elim (test_function (sys i) flags t) [
      | tested r ↦ run_from sys flags ts (i + 1) (add_score flags t r totals)
      | exited messages ↦ stopped (totals.printed ++ messages)
      | overrun ↦ crashed
    ]
    else run_from sys flags ts (i + 1) totals

unfoldable pub run_tests : (ℕ → System) → Flags → List TestRec → Ran
run_tests sys flags test_set =
    run_from sys flags test_set 0
      (record { errors = 0; points = 0; max_points = 0; printed = heading ∷ [] })
