-- ===== src/Btest/Tests.antt =====
-- Runs of the harness at concrete inputs, and the theorems on it at such inputs.
use mathlib.Core.Option
use csed.Prelude.{ℕ, ◌-◌, ◌≡◌, inl, refl, arith, false, [], ◌∷◌, ◌==◌}
use csed.Prelude.Words.{int_lt, int_add, int_not}
use csed.Bits.{negate}
use csed.Btest.{Text, Flags, gen_vals, stored}
use csed.Btest.Generated.{IsGenerated, gen_vals-IsGenerated}
use csed.Btest.Run.{
  failed, test_generated, test_vals, vals_of, try_each, compared, TestRec, System, Errors, tested,
  gen_args, test_function, run_tests, ran, heading, score, total_points,
}
use csed.Btest.Verdict.{Judged, AgreesOn, test_function-Judged}
use csed.Btest.Options.{
  Numbers, bad_argument, start_flags, is_float, upper_bits, get_num_val, set_arg, read_option,
  read_options, btest_main, IsDecided, get_num_val-IsDecided,
}
use csed.Btest.Table.{
  call_1, any_ints, entry, negate_name, bit_or_name, add_ok_name, logical_shift_name,
  bit_count_name, float_neg_name, float_i2f_name, float_twice_name, test_set,
}
use csed.Btest.Suite.{IsQuiet}
use csed.Btest.FullScore.{full, run_tests-full_score}

-- `rand` always gives 0.
abbrev least : ℕ → ℕ → ℕ → ℕ
least k min max = min

abbrev calm : System
calm = record { sqrt_range = 707; cbrt_range = 79; random_val = λ arg. least; expires = false }

gen_vals-IsGenerated_example : IsGenerated 0 31 (gen_vals start_flags least 0 31 707 1)
gen_vals-IsGenerated_example =
    gen_vals-IsGenerated start_flags least 1 refl 0 31 refl (omega arith) (omega arith)
      (omega arith) (omega arith) (inl (omega arith))
      (λ k. record { fits = omega arith; above = omega arith; below = omega arith }) 707
      (omega arith)

-- A wrong solution of `negate`, tested with the option -1 5.
abbrev identity_entry : TestRec
identity_entry = entry negate_name (call_1 (λ x. x)) (call_1 negate) 1 2 any_ints

abbrev five_flags : Flags
five_flags = record start_flags { has_arg = λ i. i == 0; argval = λ _. 5 }

test_function-Judged_example :
    (r : Errors) × (test_function calm five_flags identity_entry ≡ tested r)
    × Judged five_flags identity_entry (AgreesOn five_flags identity_entry 1 ((5 ∷ []) ∷ [])) r
unfolding int_lt
test_function-Judged_example =
    test_function-Judged five_flags identity_entry calm refl ((5 ∷ []) ∷ []) (omega arith)
      (unfold gen_args gen_vals stored Option.bind in refl)

-- The wrong solution is reported.
identity_failed :
    test_function calm five_flags identity_entry
    ≡ tested (1, failed negate_name (5 ∷ []) 5 0xfffffffb ∷ [])
unfolding test_function gen_args gen_vals stored Option.bind test_generated test_vals vals_of
    try_each compared negate int_lt int_add int_not
identity_failed = refl

calm-IsQuiet : IsQuiet start_flags calm
calm-IsQuiet = record {
  in_time = unfold int_lt in refl;
  sqrt_le = omega arith;
  drawn = λ arg k. record { fits = omega arith; above = omega arith; below = omega arith };
}

run_tests-full_score_example :
    run_tests (λ _. calm) start_flags test_set
    ≡ ran (
        full 23 (
          heading
          ∷ score 1 1 0 bit_or_name
          ∷ score 3 3 0 add_ok_name
          ∷ score 2 2 0 negate_name
          ∷ score 3 3 0 logical_shift_name
          ∷ score 4 4 0 bit_count_name
          ∷ score 2 2 0 float_neg_name
          ∷ score 4 4 0 float_i2f_name
          ∷ score 4 4 0 float_twice_name
          ∷ total_points 23 23
          ∷ []))
run_tests-full_score_example =
    run_tests-full_score (λ _. calm) start_flags refl refl (λ _. refl) (λ _. calm-IsQuiet)

-- `strtoll` of a library that reads one digit.
digit_of : Text → ℕ × Text
digit_of [] = (0, [])
digit_of (c ∷ cs) = (c - b'0', cs)

abbrev one_digit : Numbers
one_digit = record { strtof = λ s. (0, s); strtoll = digit_of; atoi = λ s. (digit_of s).0 }

get_num_val-IsDecided_example :
    IsDecided 0 (digit_of (b'5' ∷ b'a' ∷ [])).0 (get_num_val one_digit 0 (b'5' ∷ b'a' ∷ []))
get_num_val-IsDecided_example =
    get_num_val-IsDecided one_digit 0 (b'5' ∷ b'a' ∷ []) (unfold is_float in refl)
      (unfold digit_of in omega arith)

-- The option -1 given twice ends `main` at the second number.
option_twice :
    (sys : ℕ → System)
    → btest_main one_digit sys test_set (
        record { letter = b'1'; optarg = b'5' ∷ [] }
        ∷ record { letter = b'1'; optarg = b'6' ∷ [] }
        ∷ [])
      ≡ bad_argument (b'6' ∷ [])
unfolding btest_main read_options read_option set_arg get_num_val is_float upper_bits digit_of
option_twice sys = refl
