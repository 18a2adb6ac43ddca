-- ===== src/Btest/Table.antt =====
-- The table of ASSN/ASSN1/decl.c, which gives btest.c the puzzles of bits.c with the references of
-- tests.c.
use csed.Prelude.{ℕ, List, [], ◌∷◌, ◌==◌, if◌then◌else◌}
use csed.Bits.{
  bit_or_of, add_ok, negate, logical_shift, bit_count, float_neg, float_i2f, float_twice,
  test_bit_or, test_add_ok, test_negate, test_logical_shift, test_bit_count,
}
use csed.Bits.References.{test_float_neg, test_float_i2f, test_float_twice}
use csed.Btest.{Text}
use csed.Btest.Run.{TestRec}

abbrev pub t_min : ℕ
t_min = 0x80000000

abbrev pub t_max : ℕ
t_max = 0x7fffffff

-- The casts to `funct_t`.
abbrev pub call_1 : (ℕ → ℕ) → List ℕ → ℕ
call_1 f [] = 0
call_1 f (x ∷ _) = f x

abbrev pub call_2 : (ℕ → ℕ → ℕ) → List ℕ → ℕ
call_2 f (x ∷ y ∷ _) = f x y
call_2 f _ = 0

abbrev pub any_ints : ℕ → ℕ × ℕ
any_ints _ = (t_min, t_max)

abbrev pub shifts : ℕ → ℕ × ℕ
shifts i = if i == 1 then (0, 31) else (t_min, t_max)

abbrev pub floats : ℕ → ℕ × ℕ
floats _ = (1, 1)

abbrev pub bit_or_name : Text
bit_or_name = b'b' ∷ b'i' ∷ b't' ∷ b'O' ∷ b'r' ∷ []

abbrev pub add_ok_name : Text
add_ok_name = b'a' ∷ b'd' ∷ b'd' ∷ b'O' ∷ b'K' ∷ []

abbrev pub negate_name : Text
negate_name = b'n' ∷ b'e' ∷ b'g' ∷ b'a' ∷ b't' ∷ b'e' ∷ []

abbrev pub logical_shift_name : Text
logical_shift_name =
    b'l' ∷ b'o' ∷ b'g' ∷ b'i' ∷ b'c' ∷ b'a' ∷ b'l' ∷ b'S' ∷ b'h' ∷ b'i' ∷ b'f' ∷ b't' ∷ []

abbrev pub bit_count_name : Text
bit_count_name = b'b' ∷ b'i' ∷ b't' ∷ b'C' ∷ b'o' ∷ b'u' ∷ b'n' ∷ b't' ∷ []

abbrev pub float_neg_name : Text
float_neg_name = b'f' ∷ b'l' ∷ b'o' ∷ b'a' ∷ b't' ∷ b'_' ∷ b'n' ∷ b'e' ∷ b'g' ∷ []

abbrev pub float_i2f_name : Text
float_i2f_name = b'f' ∷ b'l' ∷ b'o' ∷ b'a' ∷ b't' ∷ b'_' ∷ b'i' ∷ b'2' ∷ b'f' ∷ []

abbrev pub float_twice_name : Text
float_twice_name = b'f' ∷ b'l' ∷ b'o' ∷ b'a' ∷ b't' ∷ b'_' ∷ b't' ∷ b'w' ∷ b'i' ∷ b'c' ∷ b'e' ∷ []

-- An entry of the table: the name, the two functions, their number of arguments, the rating and
-- the ranges of the arguments.
abbrev pub entry : Text → (List ℕ → ℕ) → (List ℕ → ℕ) → ℕ → ℕ → (ℕ → ℕ × ℕ) → TestRec
entry name f ft args rating ranges = record {
  name = name;
  solution_funct = f;
  test_funct = ft;
  args = args;
  rating = rating;
  arg_ranges = ranges;
}

abbrev pub bit_or_entry : TestRec
bit_or_entry = entry bit_or_name (call_2 bit_or_of) (call_2 test_bit_or) 2 1 any_ints

abbrev pub add_ok_entry : TestRec
add_ok_entry = entry add_ok_name (call_2 add_ok) (call_2 test_add_ok) 2 3 any_ints

abbrev pub negate_entry : TestRec
negate_entry = entry negate_name (call_1 negate) (call_1 test_negate) 1 2 any_ints

abbrev pub logical_shift_entry : TestRec
logical_shift_entry =
    entry logical_shift_name (call_2 logical_shift) (call_2 test_logical_shift) 2 3 shifts

abbrev pub bit_count_entry : TestRec
bit_count_entry = entry bit_count_name (call_1 bit_count) (call_1 test_bit_count) 1 4 any_ints

abbrev pub float_neg_entry : TestRec
float_neg_entry = entry float_neg_name (call_1 float_neg) (call_1 test_float_neg) 1 2 floats

abbrev pub float_i2f_entry : TestRec
float_i2f_entry = entry float_i2f_name (call_1 float_i2f) (call_1 test_float_i2f) 1 4 floats

abbrev pub float_twice_entry : TestRec
float_twice_entry = entry float_twice_name (call_1 float_twice) (call_1 test_float_twice) 1 4 floats

abbrev pub test_set : List TestRec
test_set =
    bit_or_entry ∷ add_ok_entry ∷ negate_entry ∷ logical_shift_entry ∷ bit_count_entry
    ∷ float_neg_entry ∷ float_i2f_entry ∷ float_twice_entry ∷ []
