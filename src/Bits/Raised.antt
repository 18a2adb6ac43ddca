-- ===== src/Bits/Raised.antt =====
-- The rounding of `float_i2f` of ASSN/ASSN1/bits.c, on the absolute value of its argument.
use Prim.Native.Nat.{bit_and}
use native.Mathlib.Nat.{one-le-pow, mul-le-mul_right, mul-lt-mul_of_pos_right}
use csed.Prelude.{
  ℕ, ◌+◌, ◌-◌, ◌*◌, ◌/◌, ◌%◌, ◌^◌, ◌≤◌, ◌<◌, ◌≡◌, ap, arith, Bool, not, ◌&&◌, ◌||◌, ltb, ◌==◌,
  if◌then◌else◌,
}
use csed.Prelude.Digits.{pow_add}
use csed.Prelude.Masks.{bit_and-mask}
use csed.Prelude.Words.{int_add, int_shl, int_shr}
use csed.Bits.{exp_loop, float_of_abs}
use csed.Bits.TopBit.{IsTopBit, shr-positive, exp-bound}

-- `x / 2 ^ 8`, rounded to the nearest number, a tie to an even one.
unfoldable pub round_half_even : ℕ → ℕ
round_half_even x =
    let up : Bool = ltb 128 (x % 256) || ((x % 256 == 128) && (x / 256 % 2 == 1)) in
    x / 256 + (if up then 1 else 0)

-- The absolute value `x` of a number with top bit `e`, shifted up to 32 bits.
module _ (x e : ℕ) (hx : x < 2 ^ 31) (top : IsTopBit x e) where
  abbrev raised : ℕ
  raised = x * 2 ^ (31 - e)

  pub e-bound : e ≤ 30
  e-bound = exp-bound x e hx top.low

  lower : e + (31 - e) ≡ 31
  lower = omega (arith, e-bound)

  upper : e + 1 + (31 - e) ≡ 32
  upper = omega (arith, e-bound)

  raised-low : 2 ^ 31 ≤ raised
  raised-low = omega (
    arith,
    mul-le-mul_right (2 ^ (31 - e)) top.low,
    pow_add e (31 - e),
    ap (λ (t : ℕ). 2 ^ t) lower,
  )

  raised-high : raised < 2 ^ 32
  raised-high = omega (
    arith,
    mul-lt-mul_of_pos_right top.high (one-le-pow (31 - e) 2 (omega arith)),
    pow_add (e + 1) (31 - e),
    ap (λ (t : ℕ). 2 ^ t) upper,
  )

  raised-whole : e ≤ 23 → raised % 256 ≡ 0
  raised-whole h = omega (arith, as_product)
    where
      split : 23 - e + 8 ≡ 31 - e
      split = omega (arith, h)

      as_product : raised ≡ x * 2 ^ (23 - e) * 256
      as_product = rw (← split, ← pow_add (23 - e) 8) (grind arith)

  shifted-eq : bit_and (int_shl x (31 - e)) 0x7fffffff ≡ raised - 2 ^ 31
  shifted-eq =
      unfold int_shl in omega (arith, bit_and-mask 31 (raised % 2 ^ 32), raised-low, raised-high)

  round-eq : bit_and (raised - 2 ^ 31) 0xff ≡ raised % 256
  round-eq = omega (arith, bit_and-mask 8 (raised - 2 ^ 31), raised-low, raised-high)

  cut-eq : int_shr (raised - 2 ^ 31) 8 ≡ raised / 256 - 2 ^ 23
  cut-eq = omega (
    arith,
    shr-positive (raised - 2 ^ 31) 8 (omega (arith, raised-low, raised-high)),
    raised-low,
    raised-high,
  )

  odd-eq : bit_and (raised / 256 - 2 ^ 23) 1 ≡ raised / 256 % 2
  odd-eq = omega (arith, bit_and-mask 1 (raised / 256 - 2 ^ 23), raised-low)

  -- The condition of the source for rounding up, and the mantissa that it gives.
  abbrev up : Bool
  up =
      ltb 23 e
      && (ltb 0x80 (raised % 256) || ((raised % 256 == 0x80) && not (raised / 256 % 2 == 0)))

  abbrev mantissa : ℕ
  mantissa = if up then int_add (raised / 256 - 2 ^ 23) 1 else raised / 256 - 2 ^ 23

  mantissa-eq : mantissa + 2 ^ 23 ≡ round_half_even raised
  mantissa-eq =
      unfold int_add round_half_even in ground (arith, raised-whole, raised-low, raised-high)

  pub round-bound : round_half_even raised ≤ 2 ^ 24
  round-bound = unfold round_half_even in ground (arith, raised-high)

  pub round-low : 2 ^ 23 ≤ round_half_even raised
  round-low = unfold round_half_even in ground (arith, raised-low)

  assembled :
      (sign : ℕ)
      → sign ≤ 2 ^ 31
      → int_add (int_add sign (int_shl (e + 127) 23)) mantissa
        ≡ sign + (e + 126) * 2 ^ 23 + round_half_even raised
  assembled sign hs =
      unfold int_shl in assemble mantissa (round_half_even raised) mantissa-eq round-bound
    where
      assemble :
          (m r : ℕ)
          → m + 2 ^ 23 ≡ r
          → r ≤ 2 ^ 24
          → int_add (int_add sign ((e + 127) * 2 ^ 23 % 2 ^ 32)) m ≡ sign + (e + 126) * 2 ^ 23 + r
      assemble m r p q = unfold int_add in omega (arith, e-bound)

  pub float_of_abs-eq :
      (sign : ℕ)
      → sign ≤ 2 ^ 31
      → exp_loop 32 x 1 - 1 ≡ e
      → float_of_abs sign x ≡ sign + (e + 126) * 2 ^ 23 + round_half_even raised
  float_of_abs-eq sign hs he =
      unfold float_of_abs in rw (he, shifted-eq, round-eq, cut-eq, odd-eq) (assembled sign hs)
