-- ===== src/Bits.antt =====
-- The bit puzzles of ASSN/ASSN1/bits.c, and the reference functions of ASSN/ASSN1/tests.c against
-- which btest runs them. An `int` or an `unsigned` is its 32-bit pattern.
pub mod Sums
pub mod Words
pub mod Count
pub mod Floats
pub mod Twice
pub mod TopBit
pub mod Raised
pub mod Rounded
pub mod Encoded
pub mod References
mod Tests
use Prim.Native.Nat.{bit_and, bit_or, bit_xor}
use csed.Prelude.{
  ℕ, zero, suc, ◌+◌, ◌-◌, ◌*◌, ◌/◌, ◌%◌, ◌^◌, Bool, true, false, not, ◌&&◌, ◌||◌, ltb, ◌==◌,
  if◌then◌else◌,
}
use csed.Prelude.Words.{u64_of_int, int_not, int_add, int_neg, int_shl, int_shr}

unfoldable pub bit_or_of : ℕ → ℕ → ℕ
bit_or_of x y = int_not (bit_and (int_not x) (int_not y))

unfoldable pub add_ok : ℕ → ℕ → ℕ
add_ok x y =
    let is_x_y_differ : ℕ = bit_xor x y in
    let is_sum_and_x_same : ℕ = int_not (bit_xor (int_add x y) x) in
    bit_and (int_shr (bit_or is_x_y_differ is_sum_and_x_same) 31) 1

unfoldable pub negate : ℕ → ℕ
negate x = int_add (int_not x) 1

unfoldable pub logical_shift : ℕ → ℕ → ℕ
logical_shift x n =
    let mask : ℕ = int_shl (int_shr (int_shl 1 31) n) 1 in bit_and (int_not mask) (int_shr x n)

-- The five masks of `bitCount`, from `mask_16` to `mask_01`.
abbrev pub mask_16 : ℕ
mask_16 = bit_xor (int_shl 0xff 8) 0xff

abbrev pub mask_08 : ℕ
mask_08 = bit_xor (int_shl mask_16 8) mask_16

abbrev pub mask_04 : ℕ
mask_04 = bit_xor (int_shl mask_08 4) mask_08

abbrev pub mask_02 : ℕ
mask_02 = bit_xor (int_shl mask_04 2) mask_04

abbrev pub mask_01 : ℕ
mask_01 = bit_xor (int_shl mask_02 1) mask_02

-- One line of `bitCount`: `(x & mask) + ((x >> width) & mask)`.
unfoldable pub add_halves : ℕ → ℕ → ℕ → ℕ
add_halves width mask x = int_add (bit_and x mask) (bit_and (int_shr x width) mask)

unfoldable pub bit_count : ℕ → ℕ
bit_count x =
    add_halves 16 mask_16
      (add_halves 8 mask_08 (add_halves 4 mask_04 (add_halves 2 mask_02 (add_halves 1 mask_01 x))))

unfoldable pub float_neg : ℕ → ℕ
float_neg uf =
    if (bit_and 0x7f800000 uf == 0x7f800000) && not (bit_and 0x7fffff uf == 0)
    then uf
    else bit_xor uf 0x80000000

-- `while (((x >> exp) != 0) && exp++);` from `exp`, whose `exp++` is never 0; the first argument
-- bounds the rounds.
unfoldable pub exp_loop : ℕ → ℕ → ℕ → ℕ
exp_loop zero x exp = exp
exp_loop (suc fuel) x exp =
    let rest = exp_loop fuel x (exp + 1) in if int_shr x exp == 0 then exp else rest

-- What `float_i2f` does after its tests, on the sign and the absolute value.
unfoldable pub float_of_abs : ℕ → ℕ → ℕ
float_of_abs sign x =
    let exp : ℕ = exp_loop 32 x 1 - 1 in
    let shifted : ℕ = bit_and (int_shl x (31 - exp)) 0x7fffffff in
    let round : ℕ = bit_and shifted 0xff in
    let cut : ℕ = int_shr shifted 8 in
    let up : Bool =
      ltb 23 exp && (ltb 0x80 round || ((round == 0x80) && not (bit_and cut 1 == 0))) in
    let mantissa : ℕ = if up then int_add cut 1 else cut in
    int_add (int_add sign (int_shl (exp + 127) 23)) mantissa

unfoldable pub float_i2f : ℕ → ℕ
float_i2f x =
    let sign : ℕ = bit_and x 0x80000000 in
    if x == 0
    then 0
    else if x == 0x80000000
    then 0xcf000000
    else float_of_abs sign (if sign == 0 then x else int_neg x)

unfoldable pub float_twice : ℕ → ℕ
float_twice uf =
    let exp : ℕ = bit_and uf 0x7f800000 in
    if exp == 0x7f800000
    then uf
    else if exp == 0
    then bit_or (bit_and uf 0x80000000) (int_shl uf 1)
    else int_add uf 0x800000

-- The references of tests.c.
unfoldable pub test_bit_or : ℕ → ℕ → ℕ
test_bit_or x y = bit_or x y

-- `long long` is the 64-bit pattern; the cast to `int` drops its upper half.
unfoldable pub test_add_ok : ℕ → ℕ → ℕ
test_add_ok x y =
    let lsum : ℕ = (u64_of_int x + u64_of_int y) % 2 ^ 64 in
    if lsum == u64_of_int (lsum % 2 ^ 32) then 1 else 0

unfoldable pub test_negate : ℕ → ℕ
test_negate x = int_neg x

unfoldable pub test_logical_shift : ℕ → ℕ → ℕ
test_logical_shift x n = x / 2 ^ n

-- The loop of `test_bitCount` at index `i`, with the rounds that are left.
unfoldable pub test_bit_count_loop : ℕ → ℕ → ℕ → ℕ → ℕ
test_bit_count_loop zero x i result = result
test_bit_count_loop (suc left) x i result =
    test_bit_count_loop left x (i + 1) (int_add result (bit_and (int_shr x i) 1))

unfoldable pub test_bit_count : ℕ → ℕ
test_bit_count x = test_bit_count_loop 32 x 0 0
