-- ===== src/Bits/Tests.antt =====
-- The bit puzzles at concrete words, and the theorems on them at such words.
use csed.Prelude.{ℕ, ◌≡◌, ◌≢◌, ◌⊎◌, refl, arith}
use csed.Prelude.Words.{int_not, int_add, int_neg, int_shl, int_shr}
use csed.Bits.{
  bit_or_of, add_ok, negate, logical_shift, add_halves, bit_count, float_neg, exp_loop,
  float_of_abs, float_i2f, float_twice, test_bit_or, test_add_ok, test_negate, test_logical_shift,
  test_bit_count,
}
use csed.Bits.References.{
  test_float_neg, test_float_i2f, test_float_twice, int_puzzles-references,
  float_puzzles-references,
}
use csed.Bits.Floats.{nan, infinite, finite, u2f, exp_field, frac_field, twice}
use csed.Bits.Twice.{float_twice-overflow}
use csed.Bits.Rounded.{magnitude, IsNearest, float_i2f-IsNearest}

-- The examples in the comments of the puzzles, and three floats.
puzzle_examples :
    (bit_or_of 6 5 ≡ 7)
    × (add_ok 0x80000000 0x80000000 ≡ 0)
    × (add_ok 0x80000000 0x70000000 ≡ 1)
    × (negate 1 ≡ 0xffffffff)
    × (logical_shift 0x87654321 4 ≡ 0x08765432)
    × (bit_count 5 ≡ 2)
    × (bit_count 7 ≡ 3)
    × (bit_count 0xffffffff ≡ 32)
    × (float_neg 0x3f800000 ≡ 0xbf800000)
    × (float_i2f 16777217 ≡ 0x4b800000)
    × (float_i2f 16777219 ≡ 0x4b800002)
    × (float_i2f 0xffffffff ≡ 0xbf800000)
    × (float_twice 0x00400000 ≡ 0x00800000)
unfolding bit_or_of add_ok negate logical_shift add_halves bit_count float_neg exp_loop float_of_abs
    float_i2f float_twice int_not int_add int_neg int_shl int_shr
puzzle_examples = (refl, refl, refl, refl, refl, refl, refl, refl, refl, refl, refl, refl, refl)

int_puzzles-references_example :
    (bit_or_of 0x80000000 5 ≡ test_bit_or 0x80000000 5)
    × (add_ok 0x80000000 5 ≡ test_add_ok 0x80000000 5)
    × (negate 0x80000000 ≡ test_negate 0x80000000)
    × (logical_shift 0x80000000 4 ≡ test_logical_shift 0x80000000 4)
    × (bit_count 0x80000000 ≡ test_bit_count 0x80000000)
int_puzzles-references_example =
    int_puzzles-references 0x80000000 5 4 (omega arith) (omega arith) (omega arith)

float_puzzles-references_example :
    (float_neg 0x7f000001 ≡ test_float_neg 0x7f000001)
    × (float_i2f 0x7f000001 ≡ test_float_i2f 0x7f000001)
    × (((exp_field 0x7f000001 ≡ 254) × (frac_field 0x7f000001 ≢ 0))
        ⊎ (float_twice 0x7f000001 ≡ test_float_twice 0x7f000001))
float_puzzles-references_example = float_puzzles-references 0x7f000001 (omega arith)

float_twice-overflow_example :
    (u2f (float_twice 0x7f000001) ≡ nan) × (twice (u2f 0x7f000001) ≡ infinite 0)
float_twice-overflow_example = float_twice-overflow 0x7f000001 (omega arith) refl (omega arith)

float_i2f-IsNearest_example :
    (m : ℕ) × (u2f (float_i2f 16777217) ≡ finite 0 m) × IsNearest (magnitude 16777217) m
float_i2f-IsNearest_example = float_i2f-IsNearest 16777217 (omega arith) (omega arith)
