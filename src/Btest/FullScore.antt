-- ===== src/Btest/FullScore.antt =====
-- A run of `run_tests` in ASSN/ASSN1/btest.c over the table of ASSN/ASSN1/decl.c.
use csed.Prelude.{ℕ, ◌+◌, ◌≡◌, refl, arith, true, false, none, List, [], ◌∷◌, ◌++◌}
use csed.Prelude.Words.{int_add}
use csed.Btest.{Flags}
use csed.Btest.Run.{
  TestRec, Message, Totals, heading, score, total_points, System, tested, test_function, selected,
  add_score, ran, run_from, run_tests,
}
use csed.Btest.Table.{
  bit_or_name, add_ok_name, negate_name, logical_shift_name, bit_count_name, float_neg_name,
  float_i2f_name, float_twice_name, test_set,
}
use csed.Btest.Suite.{
  IsQuiet, bit_or_passes, add_ok_passes, negate_passes, logical_shift_passes, bit_count_passes,
  float_neg_passes, float_i2f_passes, float_twice_passes,
}

-- The totals after tests that all pass.
abbrev pub full : ℕ → List Message → Totals
full points lines = record { errors = 0; points = points; max_points = points; printed = lines }

points_from : ℕ → List TestRec → ℕ
points_from p [] = p
points_from p (t ∷ ts) = points_from (p + t.rating) ts

lines_from : List Message → List TestRec → List Message
lines_from lines [] = lines
lines_from lines (t ∷ ts) = lines_from (lines ++ (score t.rating t.rating 0 t.name ∷ [])) ts

module _ (sys : ℕ → System) (flags : Flags) where
  abbrev Passing : List TestRec → ℕ → Type 0
  Passing [] i = Unit {0}
  Passing (t ∷ ts) i = (test_function (sys i) flags t ≡ tested (0, [])) × Passing ts (i + 1)

  module _ (no_name : flags.test_fname ≡ none) (no_rating : flags.global_rating ≡ 0) where
    add_score-full :
        (t : TestRec) (p : ℕ) (lines : List Message)
        → add_score flags t (0, []) (full p lines)
          ≡ full (p + t.rating) (lines ++ (score t.rating t.rating 0 t.name ∷ []))
    unfolding add_score int_add
    add_score-full t p lines = ground arith

    every_selected : (t : TestRec) → selected flags t ≡ true
    every_selected t = unfold selected in ground (arith, no_name)

    run_from-full :
        (ts : List TestRec) (i p : ℕ) (lines : List Message)
        → Passing ts i
        → run_from sys flags ts i (full p lines)
          ≡ ran (
              full
                (points_from p ts)
                (lines_from lines ts ++ (total_points (points_from p ts) (points_from p ts) ∷ [])))
    unfolding run_from points_from lines_from
    run_from-full [] i p lines h = refl
    run_from-full (t ∷ ts) i p lines h =
        rw (every_selected t, h.0, add_score-full t p lines)
          (run_from-full ts (i + 1) (p + t.rating)
            (lines ++ (score t.rating t.rating 0 t.name ∷ [])) h.1)

    module _ (free : (arg : ℕ) → flags.has_arg arg ≡ false)
        (quiet : (i : ℕ) → IsQuiet flags (sys i)) where
      test_set-Passing : Passing test_set 0
      test_set-Passing = (
        bit_or_passes flags free (sys 0) (quiet 0),
        (
          add_ok_passes flags free (sys 1) (quiet 1),
          (
            negate_passes flags free (sys 2) (quiet 2),
            (
              logical_shift_passes flags free (sys 3) (quiet 3),
              (
                bit_count_passes flags free (sys 4) (quiet 4),
                (
                  float_neg_passes flags free (sys 5) (quiet 5),
                  (
                    float_i2f_passes flags free (sys 6) (quiet 6),
                    (float_twice_passes flags free (sys 7) (quiet 7), tt),
                  ),
                ),
              ),
            ),
          ),
        ),
      )

      -- With the option -f and a rating not given, no argument fixed, no test stopped by the
      -- alarm, a square root of TEST_RANGE that is not above it, and random values between their
      -- bounds, run_tests on the table of decl.c reports no error and gives every puzzle of bits.c
      -- all of its points, whatever the random values: also float_twice, which differs from its
      -- reference on some floats.
      pub run_tests-full_score :
          run_tests sys flags test_set
          ≡ ran (
              full 23 (
                heading
                ∷ score 1 1 0 bit_or_name
                ∷ score 3 3 0 add_ok_name
                ∷ score 2 2 0 negate_name
                ∷ score 3 3 0 logical_shift_name
                ∷ score 4 4 0 bit_count_name
                ∷ score 2 2 0 float_neg_name
                ∷ score 4 4 0 float_i2f_name
                ∷ score 4 4 0 float_twice_name
                ∷ total_points 23 23
                ∷ []))
      unfolding run_tests points_from lines_from
      run_tests-full_score = run_from-full test_set 0 0 (heading ∷ []) test_set-Passing
