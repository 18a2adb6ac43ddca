-- ===== src/Bits/Words.antt =====
-- The integer puzzles of ASSN/ASSN1/bits.c against the references of tests.c.
use Prim.Native.Nat.{bit_and, bit_or, bit_xor}
use native.Mathlib.Nat.{
  one-le-pow, mul-sub, pow-succ', mul-div_cancel_left, pow-le-pow_right, div-lt_iff_lt-mul,
  add-mul-mod_self_left, mod-eq_of_lt,
}
use csed.Prelude.{
  ℕ, zero, suc, ◌+◌, ◌-◌, ◌*◌, ◌/◌, ◌%◌, ◌^◌, ◌<◌, ◌≡◌, refl, ap, ◌∙◌, arith, Bool, true, false,
  ltb, ◌==◌, ◌&&◌, not, if◌then◌else◌,
}
use csed.Prelude.Digits.{or-IsDigitwise, xor-IsDigitwise, bounded, shifted, pow_add}
use csed.Prelude.Masks.{de_morgan, bit_and-mask, bit_and_comm}
use csed.Prelude.Words.{u64_of_int, int_not, int_add, int_neg, int_shl, int_shr}
use csed.Bits.{
  bit_or_of, add_ok, negate, logical_shift, test_bit_or, test_add_ok, test_negate,
  test_logical_shift,
}

-- `bitOr` is `|` on every pair of `int`s.
pub bit_or_of-test_bit_or : (x y : ℕ) → x < 2 ^ 32 → y < 2 ^ 32 → bit_or_of x y ≡ test_bit_or x y
unfolding bit_or_of test_bit_or int_not
bit_or_of-test_bit_or x y hx hy = de_morgan 32 x y hx hy

-- `negate` is the wrapping minus.
pub negate-test_negate : (x : ℕ) → x < 2 ^ 32 → negate x ≡ test_negate x
unfolding negate test_negate int_not int_add int_neg
negate-test_negate x hx = omega arith

-- The sign bit.
shr-31 : (x : ℕ) → x < 2 ^ 32 → int_shr x 31 ≡ (if ltb x (2 ^ 31) then 0 else 2 ^ 32 - 1)
unfolding int_shr
shr-31 x hx = ground arith

sign_bit : (x : ℕ) → x < 2 ^ 32 → bit_and (int_shr x 31) 1 ≡ x / 2 ^ 31
sign_bit x hx = omega (arith, bit_and-mask 1 (int_shr x 31), shr-31-parity)
  where
    shr-31-parity : int_shr x 31 % 2 ≡ x / 2 ^ 31
    shr-31-parity = unfold int_shr in ground arith

-- The sign bits of `x`, `y` and `x + y` decide.
ok_bit :
    (s t u : ℕ)
    → s < 2
    → t < 2
    → u < 2
    → bit_or (bit_xor s t) (1 - bit_xor u s) ≡ (if (s == t) && not (u == s) then 0 else 1)
ok_bit zero zero zero hs ht hu = refl
ok_bit zero zero (suc zero) hs ht hu = refl
ok_bit zero (suc zero) zero hs ht hu = refl
ok_bit zero (suc zero) (suc zero) hs ht hu = refl
ok_bit (suc zero) zero zero hs ht hu = refl
ok_bit (suc zero) zero (suc zero) hs ht hu = refl
ok_bit (suc zero) (suc zero) zero hs ht hu = refl
ok_bit (suc zero) (suc zero) (suc zero) hs ht hu = refl
ok_bit (suc (suc s)) t u hs ht hu = absurd (omega arith)
ok_bit s (suc (suc t)) u hs ht hu = absurd (omega arith)
ok_bit s t (suc (suc u)) hs ht hu = absurd (omega arith)

module _ (x y : ℕ) (hx : x < 2 ^ 32) (hy : y < 2 ^ 32) where
  -- The word whose sign `addOK` returns.
  abbrev decisive : ℕ
  decisive = bit_or (bit_xor x y) (int_not (bit_xor (int_add x y) x))

  sum-fits : int_add x y < 2 ^ 32
  sum-fits = unfold int_add in omega arith

  decisive-fits : decisive < 2 ^ 32
  decisive-fits =
      bounded or-IsDigitwise 32 _ _ (bounded xor-IsDigitwise 32 x y hx hy)
        (unfold int_not in omega arith)

  not-div : (v : ℕ) → v < 2 ^ 32 → int_not v / 2 ^ 31 ≡ 1 - v / 2 ^ 31
  not-div v hv = unfold int_not in omega arith

  decisive-sign :
      decisive / 2 ^ 31
      ≡ bit_or (bit_xor (x / 2 ^ 31) (y / 2 ^ 31)) (1 - bit_xor (int_add x y / 2 ^ 31) (x / 2 ^ 31))
  decisive-sign =
      rw
        (
          shifted or-IsDigitwise 31 (bit_xor x y) (int_not (bit_xor (int_add x y) x)),
          not-div (bit_xor (int_add x y) x)
              (bounded xor-IsDigitwise 32 (int_add x y) x sum-fits hx),
          shifted xor-IsDigitwise 31 x y,
          shifted xor-IsDigitwise 31 (int_add x y) x,
        )
        refl

  -- `addOK` says whether the sum fits an `int`.
  pub add_ok-test_add_ok : add_ok x y ≡ test_add_ok x y
  unfolding add_ok test_add_ok
  add_ok-test_add_ok =
      sign_bit decisive decisive-fits
      ∙ decisive-sign
      ∙ ok_bit (x / 2 ^ 31) (y / 2 ^ 31) (int_add x y / 2 ^ 31) (omega arith) (omega arith)
          (omega (arith, sum-fits))
      ∙ unfold int_add u64_of_int in ground arith

module _ (n : ℕ) (hn : n < 32) where
  lower : n + (31 - n) ≡ 31
  lower = omega arith

  upper : 32 - n + n ≡ 32
  upper = omega arith

  -- A word of 32 bits is `n` bits over `32 - n`.
  halves-eq : 2 ^ n * 2 ^ (31 - n) ≡ 2 ^ 31
  halves-eq = pow_add n (31 - n) ∙ ap (λ (t : ℕ). 2 ^ t) lower

  doubled : 2 ^ (32 - n) ≡ 2 * 2 ^ (31 - n)
  doubled = ap (λ (t : ℕ). 2 ^ t) (omega arith) ∙ pow-succ' 2 (31 - n)

  -- The mask of `logicalShift`, complemented.
  mask-eq : int_not (int_shl (int_shr (int_shl 1 31) n) 1) ≡ 2 ^ (32 - n) - 1
  mask-eq =
      unfold int_not int_shl int_shr in
      rw (half, doubled)
        (omega (
          arith,
          one-le-pow (31 - n) 2,
          pow-le-pow_right {n = 2} (omega arith) {i = 31 - n} {j = 31} (omega arith),
        ))
    where
      half : 2 ^ 31 / 2 ^ n ≡ 2 ^ (31 - n)
      half = rw (← halves-eq) (mul-div_cancel_left (2 ^ (31 - n)) (one-le-pow n 2 (omega arith)))

  full-eq : 2 ^ (32 - n) * 2 ^ n ≡ 2 ^ 32
  full-eq = pow_add (32 - n) n ∙ ap (λ (t : ℕ). 2 ^ t) upper

  module _ (x : ℕ) (hx : x < 2 ^ 32) where
    pub shr-fits : x / 2 ^ n < 2 ^ (32 - n)
    shr-fits = (div-lt_iff_lt-mul (one-le-pow n 2 (omega arith))).1 (rw full-eq hx)

    -- The sign that `>>` shifts in stands above the `32 - n` bits.
    pub shr-fields :
        int_shr x n ≡ x / 2 ^ n + 2 ^ (32 - n) * (if ltb x (2 ^ 31) then 0 else 2 ^ n - 1)
    shr-fields = unfold int_shr in by_sign (ltb x (2 ^ 31))
      where
        sign_bits : 2 ^ 32 - 2 ^ (32 - n) ≡ 2 ^ (32 - n) * (2 ^ n - 1)
        sign_bits = omega (arith, mul-sub (2 ^ (32 - n)) (2 ^ n) 1, full-eq)

        by_sign :
            (b : Bool)
            → (if b then x / 2 ^ n else x / 2 ^ n + (2 ^ 32 - 2 ^ (32 - n)))
              ≡ x / 2 ^ n + 2 ^ (32 - n) * (if b then 0 else 2 ^ n - 1)
        by_sign true = omega arith
        by_sign false = omega (arith, sign_bits)

    -- For each n below 32 and each int, logicalShift returns what the shift of the unsigned word
    -- by n returns.
    pub logical_shift-test_logical_shift : logical_shift x n ≡ test_logical_shift x n
    logical_shift-test_logical_shift =
        unfold logical_shift test_logical_shift in
        rw mask-eq (
          bit_and_comm (2 ^ (32 - n) - 1) (int_shr x n)
          ∙ bit_and-mask (32 - n) (int_shr x n)
          ∙ ap (λ (t : ℕ). t % 2 ^ (32 - n)) shr-fields
          ∙ add-mul-mod_self_left (x / 2 ^ n) (2 ^ (32 - n)) _
          ∙ mod-eq_of_lt shr-fits)
