-- ===== src/Btest/Generated.antt =====
-- What `gen_vals` of ASSN/ASSN1/btest.c returns for the bounds of an argument: whether the values
-- fit the array, and between which bounds they lie.
use csed.Prelude.{
  ℕ, ◌+◌, ◌-◌, ◌^◌, ◌≤◌, ◌<◌, ◌≡◌, ◌≢◌, ◌⊎◌, inl, inr, ap, ◌∙◌, arith, false, ◌&&◌, Option, none,
  some, List, ltb, ◌==◌, length, All, lt-cases,
}
use csed.Prelude.Words.{int_lt}
use csed.Btest.{
  Flags, test_range, max_test_vals, int_sub, float_vals, all_vals, sample_vals, stored, gen_vals,
}
use csed.Btest.Order.{rank, InRange, int_lt-rank, rank-int_sub}
use csed.Btest.FloatVals.{IsTested, float_vals-IsTested, length-float_vals}
use csed.Btest.Values.{all_vals-InRange, length-all_vals, sample_vals-InRange, length-sample_vals}

-- The values are in the array, and each satisfies the predicate.
abbrev pub Fills : (ℕ → Type 0) → Option (List ℕ) → Type 0
Fills P result = (vals : List ℕ) × (result ≡ some vals) × (length vals ≤ max_test_vals) × All P vals

stored-Fills :
    (P : ℕ → Type 0) (vals : List ℕ)
    → length vals ≤ max_test_vals
    → All P vals
    → Fills P (stored vals)
stored-Fills P vals h all = (vals, unfold stored in ground arith, h, all)

stored-none : (vals : List ℕ) → max_test_vals < length vals → stored vals ≡ none
unfolding stored
stored-none vals h = ground arith

-- What is generated for an integer function, from its bounds: with one difference of the bounds,
-- a value is stored behind the array.
abbrev pub IsGenerated : ℕ → ℕ → Option (List ℕ) → Type 0
IsGenerated min max result =
    ((rank max - rank min ≡ max_test_vals) × (result ≡ none))
    ⊎ ((rank max - rank min ≢ max_test_vals) × Fills (InRange min max) result)

module _ (flags : Flags) (random_val : ℕ → ℕ → ℕ → ℕ) (arg : ℕ)
    (free : flags.has_arg arg ≡ false) where
  -- The values for a function on floats.
  pub gen_vals-IsTested :
      (range : ℕ) → range ≤ test_range → Fills IsTested (gen_vals flags random_val 1 1 range arg)
  gen_vals-IsTested range h =
      unfold gen_vals in
      rw (free, few)
        (stored-Fills IsTested (float_vals range 0) (omega (arith, length-float_vals range 0))
          (float_vals-IsTested range 0 (omega arith)))
    where
      few : ltb (2 ^ 23) range ≡ false
      few = ground arith

  module _ (min max : ℕ) (ints : (min == 1 && max == 1) ≡ false) (hmin : min < 2 ^ 32)
      (hmax : max < 2 ^ 32) (order : rank min ≤ rank max)
      (no_overflow : max_test_vals ≤ rank max) where
    narrow : (int_lt min (int_sub max max_test_vals)) ≡ ltb (rank min) (rank max - max_test_vals)
    narrow =
        int_lt-rank min (int_sub max max_test_vals)
        ∙ ap (ltb (rank min)) (rank-int_sub max max_test_vals no_overflow hmax).0

    module _ (small : rank max - rank min ≤ max_test_vals) (last : max ≢ 2 ^ 31 - 1)
        (range : ℕ) where
      all-eq :
          gen_vals flags random_val min max range arg
          ≡ stored (all_vals (max_test_vals + 1) max min)
      all-eq = unfold gen_vals in rw (free, ints) (ground (arith, narrow))

      counted : length (all_vals (max_test_vals + 1) max min) ≡ rank max + 1 - rank min
      counted =
          length-all_vals min max hmin hmax order (max_test_vals + 1) min (omega arith)
            (omega arith) (omega arith)

      pub all-Fills :
          rank max - rank min < max_test_vals
          → Fills (InRange min max) (gen_vals flags random_val min max range arg)
      all-Fills h = rw all-eq (
          stored-Fills _ _ (omega (arith, counted)) (
            all_vals-InRange min max hmin hmax order (max_test_vals + 1) min hmin (omega arith)
              (omega arith)))

      all-none :
          rank max - rank min ≡ max_test_vals → gen_vals flags random_val min max range arg ≡ none
      all-none h = all-eq ∙ stored-none _ (omega (arith, counted))

    module _ (wide : max_test_vals < rank max - rank min)
        (drawn : (k : ℕ) → InRange min max (random_val k min max)) (range : ℕ)
        (h : range ≤ test_range) where
      sample-eq :
          gen_vals flags random_val min max range arg
          ≡ stored (sample_vals random_val min max range 0)
      sample-eq = unfold gen_vals in rw (free, ints) (ground (arith, narrow))

      pub sample-Fills : Fills (InRange min max) (gen_vals flags random_val min max range arg)
      sample-Fills = rw sample-eq (
          stored-Fills _ _
            (omega (arith, length-sample_vals min max hmin hmax order random_val drawn range 0))
            (sample_vals-InRange min max hmin hmax order random_val drawn range 0 (omega arith)))

    -- For an argument that no option fixes, with bounds in order that are not both 1, whose upper
    -- one is at least MAX_TEST_VALS above the smallest int, and is not the largest int unless the
    -- bounds are further apart than MAX_TEST_VALS, for random values between the bounds and a test
    -- range up to TEST_RANGE: gen_vals stores at most MAX_TEST_VALS values, all between the
    -- bounds, unless the difference of the bounds is MAX_TEST_VALS: then it stores a value behind
    -- the array.
    pub gen_vals-IsGenerated :
        (max ≢ 2 ^ 31 - 1) ⊎ (max_test_vals < rank max - rank min)
        → ((k : ℕ) → InRange min max (random_val k min max))
        → (range : ℕ) → range ≤ test_range
        → IsGenerated min max (gen_vals flags random_val min max range arg)
    gen_vals-IsGenerated ends drawn range h = elim (lt-cases max_test_vals (rank max - rank min)) [
      | inl wide ↦ inr (ground arith, sample-Fills wide drawn range h)
      | inr small ↦ elim (lt-cases (rank max - rank min) max_test_vals) [
        | inl p ↦ inr (ground arith, all-Fills small (ground (arith, ends)) range p)
        | inr p ↦ inl (omega arith, all-none small (ground (arith, ends)) range (omega arith))
      ]
    ]
