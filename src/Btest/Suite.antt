-- ===== src/Btest/Suite.antt =====
-- Each entry of the table of ASSN/ASSN1/decl.c passes the tests of btest.c.
use mathlib.Core.Option
use csed.Prelude.{
  ℕ, ◌≤◌, ◌≡◌, ◌⊎◌, inl, inr, refl, arith, false, ◌&&◌, Option, List, [], ◌∷◌, All-map,
}
use csed.Prelude.Words.{int_lt}
use csed.Bits.{
  bit_or_of, add_ok, negate, logical_shift, bit_count, float_neg, float_i2f, float_twice,
  test_bit_or, test_add_ok, test_negate, test_logical_shift, test_bit_count,
}
use csed.Bits.Words.{
  bit_or_of-test_bit_or, add_ok-test_add_ok, negate-test_negate, logical_shift-test_logical_shift,
}
use csed.Bits.Count.{bit_count-test_bit_count}
use csed.Bits.References.{
  test_float_neg, test_float_i2f, test_float_twice, float_i2f-test_float_i2f,
  float_neg-test_float_neg, float_twice-test_float_twice,
}
use csed.Btest.{Text, Flags, test_range, gen_vals}
use csed.Btest.Order.{InRange}
use csed.Btest.FloatVals.{IsTested}
use csed.Btest.Generated.{Fills, gen_vals-IsTested, all-Fills, sample-Fills}
use csed.Btest.Run.{System, vals_of, arg_test_range, gen_args, tested, test_function}
use csed.Btest.Table.{
  t_min, t_max, call_1, call_2, any_ints, shifts, floats, bit_or_name, add_ok_name, negate_name,
  logical_shift_name, bit_count_name, float_neg_name, float_i2f_name, float_twice_name, entry,
  bit_or_entry, add_ok_entry, negate_entry, logical_shift_entry, bit_count_entry, float_neg_entry,
  float_i2f_entry, float_twice_entry,
}
use csed.Btest.Verdict.{test_function-passes}

-- What a run without a timeout takes from outside.
pub record IsQuiet (flags : Flags) (sys : System) : Type 0 where
  pub in_time : (int_lt 0 flags.timeout_limit && sys.expires) ≡ false
  pub sqrt_le : sys.sqrt_range ≤ test_range
  pub drawn : (arg k : ℕ) → InRange t_min t_max (sys.random_val arg k t_min t_max)

module _ (flags : Flags) (free : (arg : ℕ) → flags.has_arg arg ≡ false) (sys : System)
    (quiet : IsQuiet flags sys) where
  module _ (name : Text) (rating : ℕ) (ranges : ℕ → ℕ × ℕ) where
    abbrev vals_at : ℕ → ℕ → Option (List ℕ)
    vals_at args i =
        gen_vals flags (sys.random_val i) (ranges i).0 (ranges i).1 (arg_test_range sys args) i

    module _ (P : ℕ → Type 0) (f ft : ℕ → ℕ) where
      passes_1 :
          Fills P (vals_at 1 0)
          → ((a : ℕ) → P a → f a ≡ ft a)
          → test_function sys flags (entry name (call_1 f) (call_1 ft) 1 rating ranges)
            ≡ tested (0, [])
      passes_1 (vals, e, _, all) agree =
          test_function-passes flags (entry name (call_1 f) (call_1 ft) 1 rating ranges) sys
            quiet.in_time (vals ∷ []) (omega arith) (unfold gen_args Option.bind in rw e refl)
            (unfold vals_of in All-map P _ vals agree all)

    module _ (P Q : ℕ → Type 0) (f ft : ℕ → ℕ → ℕ) where
      passes_2 :
          Fills P (vals_at 2 0)
          → Fills Q (vals_at 2 1)
          → ((a b : ℕ) → P a → Q b → f a b ≡ ft a b)
          → test_function sys flags (entry name (call_2 f) (call_2 ft) 2 rating ranges)
            ≡ tested (0, [])
      passes_2 (vals, e, _, all) (vals', e', _, all') agree =
          test_function-passes flags (entry name (call_2 f) (call_2 ft) 2 rating ranges) sys
            quiet.in_time (vals ∷ vals' ∷ []) (omega arith)
            (unfold gen_args Option.bind in rw (e, e') refl)
            (unfold vals_of in
              All-map P _ vals (λ a p. All-map Q _ vals' (λ b q. agree a b p q) all') all)

  range-le : (n : ℕ) → (n ≡ 1) ⊎ (n ≡ 2) → arg_test_range sys n ≤ test_range
  range-le n h = unfold arg_test_range in ground (arith, h, quiet.sqrt_le)

  any_int :
      (n i : ℕ)
      → (n ≡ 1) ⊎ (n ≡ 2)
      → Fills
          (InRange t_min t_max)
          (gen_vals flags (sys.random_val i) t_min t_max (arg_test_range sys n) i)
  any_int n i h =
      sample-Fills flags (sys.random_val i) i (free i) t_min t_max refl (omega arith) (omega arith)
        (omega arith) (omega arith) (omega arith) (quiet.drawn i) (arg_test_range sys n)
        (range-le n h)

  shift : Fills (InRange 0 31) (gen_vals flags (sys.random_val 1) 0 31 (arg_test_range sys 2) 1)
  shift =
      all-Fills flags (sys.random_val 1) 1 (free 1) 0 31 refl (omega arith) (omega arith)
        (omega arith) (omega arith) (omega arith) (omega arith) (arg_test_range sys 2) (omega arith)

  any_float : Fills IsTested (gen_vals flags (sys.random_val 0) 1 1 (arg_test_range sys 1) 0)
  any_float =
      gen_vals-IsTested flags (sys.random_val 0) 0 (free 0) (arg_test_range sys 1)
        (range-le 1 (inl refl))

  pub bit_or_passes : test_function sys flags bit_or_entry ≡ tested (0, [])
  bit_or_passes =
      passes_2 bit_or_name 1 any_ints (InRange t_min t_max) (InRange t_min t_max) bit_or_of
        test_bit_or (any_int 2 0 (inr refl)) (any_int 2 1 (inr refl))
        (λ a b p q. bit_or_of-test_bit_or a b p.fits q.fits)

  pub add_ok_passes : test_function sys flags add_ok_entry ≡ tested (0, [])
  add_ok_passes =
      passes_2 add_ok_name 3 any_ints (InRange t_min t_max) (InRange t_min t_max) add_ok test_add_ok
        (any_int 2 0 (inr refl)) (any_int 2 1 (inr refl))
        (λ a b p q. add_ok-test_add_ok a b p.fits q.fits)

  pub negate_passes : test_function sys flags negate_entry ≡ tested (0, [])
  negate_passes =
      passes_1 negate_name 2 any_ints (InRange t_min t_max) negate test_negate
        (any_int 1 0 (inl refl)) (λ a p. negate-test_negate a p.fits)

  pub logical_shift_passes : test_function sys flags logical_shift_entry ≡ tested (0, [])
  logical_shift_passes =
      passes_2 logical_shift_name 3 shifts (InRange t_min t_max) (InRange 0 31) logical_shift
        test_logical_shift (any_int 2 0 (inr refl)) shift
        (λ a b p q. logical_shift-test_logical_shift b (omega arith) a p.fits)

  pub bit_count_passes : test_function sys flags bit_count_entry ≡ tested (0, [])
  bit_count_passes =
      passes_1 bit_count_name 4 any_ints (InRange t_min t_max) bit_count test_bit_count
        (any_int 1 0 (inl refl)) (λ a p. bit_count-test_bit_count a p.fits)

  pub float_neg_passes : test_function sys flags float_neg_entry ≡ tested (0, [])
  float_neg_passes =
      passes_1 float_neg_name 2 floats IsTested float_neg test_float_neg any_float
        (λ a p. float_neg-test_float_neg a p.fits)

  pub float_i2f_passes : test_function sys flags float_i2f_entry ≡ tested (0, [])
  float_i2f_passes =
      passes_1 float_i2f_name 4 floats IsTested float_i2f test_float_i2f any_float
        (λ a p. float_i2f-test_float_i2f a p.fits)

  pub float_twice_passes : test_function sys flags float_twice_entry ≡ tested (0, [])
  float_twice_passes =
      passes_1 float_twice_name 4 floats IsTested float_twice test_float_twice any_float
        (λ a p. float_twice-test_float_twice a p.fits p.apart)
