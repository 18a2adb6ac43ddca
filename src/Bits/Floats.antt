-- ===== src/Bits/Floats.antt =====
-- The floating-point puzzles of ASSN/ASSN1/bits.c against the single-precision numbers that their
-- arguments and results stand for, as the references of tests.c compute with them.
use Prim.Native.Nat.{bit_and, bit_xor}
use csed.Prelude.{
  ℕ, zero, suc, ◌+◌, ◌-◌, ◌*◌, ◌/◌, ◌%◌, ◌^◌, ◌≤◌, ◌<◌, ◌≡◌, ◌⊎◌, inl, inr, refl, sym, ap, ◌∙◌,
  arith, Bool, true, false, not, ◌&&◌, ltb, ◌==◌, if◌then◌else◌,
}
use csed.Prelude.Digits.{and-IsDigitwise, xor-IsDigitwise, fields}
use csed.Prelude.Masks.{bit_and-mask, bit_and_comm, bit_and-zero, bit_xor-zero}
use csed.Bits.{float_neg}

-- A single-precision number. A finite one is its sign (1 for minus) and its absolute value in
-- units of 2 ^ (-149), the smallest subnormal.
pub data Float : Type 0 where
  nan : Float
  infinite : ℕ → Float
  finite : ℕ → ℕ → Float

-- The fields of the pattern.
abbrev pub sign_field : ℕ → ℕ
sign_field u = u / 2 ^ 31

abbrev pub exp_field : ℕ → ℕ
exp_field u = u / 2 ^ 23 % 2 ^ 8

abbrev pub frac_field : ℕ → ℕ
frac_field u = u % 2 ^ 23

-- `u2f`: the number of a pattern.
unfoldable pub u2f_of : ℕ → ℕ → ℕ → Float
u2f_of sign exp frac =
    if exp == 255
    then (if frac == 0 then infinite sign else nan)
    else if exp == 0
    then finite sign frac
    else finite sign ((2 ^ 23 + frac) * 2 ^ (exp - 1))

unfoldable pub u2f : ℕ → Float
u2f u = u2f_of (sign_field u) (exp_field u) (frac_field u)

-- `-f`.
unfoldable pub minus : Float → Float
minus nan = nan
minus (infinite s) = infinite (1 - s)
minus (finite s m) = finite (1 - s) m

-- `2 * f`: a product of 2 ^ 128 or more is infinite, any other is exact.
unfoldable pub twice : Float → Float
twice nan = nan
twice (infinite s) = infinite s
twice (finite s m) = if ltb (2 * m) (2 ^ 277) then finite s (2 * m) else infinite s

pub u2f-fields :
    (u s e f : ℕ) → sign_field u ≡ s → exp_field u ≡ e → frac_field u ≡ f → u2f u ≡ u2f_of s e f
u2f-fields u s e f p q r = unfold u2f in rw (p, q, r) refl

pub u2f_of-normal :
    (s f e : ℕ) → 1 ≤ e → e < 255 → u2f_of s e f ≡ finite s ((2 ^ 23 + f) * 2 ^ (e - 1))
u2f_of-normal s f e p q = unfold u2f_of in ground arith

pub exp_mask : (u : ℕ) → bit_and u 0x7f800000 ≡ 2 ^ 23 * exp_field u
exp_mask u =
    ap (λ (t : ℕ). bit_and t 0x7f800000) (omega arith)
    ∙ fields and-IsDigitwise 23 (u % 2 ^ 23) (u / 2 ^ 23) 0 255 (omega arith) (omega arith)
    ∙ omega (arith, bit_and-zero (u % 2 ^ 23), bit_and-mask 8 (u / 2 ^ 23))

frac_mask : (u : ℕ) → bit_and u 0x7fffff ≡ frac_field u
frac_mask u = bit_and-mask 23 u

pub sign_mask : (u : ℕ) → u < 2 ^ 32 → bit_and u 0x80000000 ≡ 2 ^ 31 * sign_field u
sign_mask u hu =
    ap (λ (t : ℕ). bit_and t 0x80000000) (omega arith)
    ∙ fields and-IsDigitwise 31 (u % 2 ^ 31) (u / 2 ^ 31) 0 1 (omega arith) (omega arith)
    ∙ omega (arith, bit_and-zero (u % 2 ^ 31), bit_and-mask 1 (u / 2 ^ 31))

flip_bit : (s : ℕ) → s < 2 → bit_xor s 1 ≡ 1 - s
flip_bit zero h = refl
flip_bit (suc zero) h = refl
flip_bit (suc (suc s)) h = absurd (omega arith)

flip_sign : (u : ℕ) → u < 2 ^ 32 → bit_xor u 0x80000000 ≡ u % 2 ^ 31 + 2 ^ 31 * (1 - sign_field u)
flip_sign u hu =
    ap (λ (t : ℕ). bit_xor t 0x80000000) (omega arith)
    ∙ fields xor-IsDigitwise 31 (u % 2 ^ 31) (u / 2 ^ 31) 0 1 (omega arith) (omega arith)
    ∙ omega (arith, bit_xor-zero (u % 2 ^ 31), flip_bit (u / 2 ^ 31) (omega arith))

u2f_of-minus : (s exp frac : ℕ) → minus (u2f_of s exp frac) ≡ u2f_of (1 - s) exp frac
u2f_of-minus s exp frac = unfold u2f_of minus in ground arith

unfoldable pub is_nan : Float → Bool
is_nan nan = true
is_nan (infinite s) = false
is_nan (finite s m) = false

is_nan_of : (s exp frac : ℕ) → is_nan (u2f_of s exp frac) ≡ ((exp == 255) && not (frac == 0))
is_nan_of s exp frac = unfold u2f_of is_nan in ground arith

nan_of : (s exp frac : ℕ) → ((exp == 255) && not (frac == 0)) ≡ true → u2f_of s exp frac ≡ nan
nan_of s exp frac h = unfold u2f_of in ground arith

u2f-nan : (u : ℕ) → ((exp_field u == 255) && not (frac_field u == 0)) ≡ true → u2f u ≡ nan
unfolding u2f
u2f-nan u e = nan_of (sign_field u) (exp_field u) (frac_field u) e

pub is_nan-u2f : (u : ℕ) → is_nan (u2f u) ≡ ((exp_field u == 255) && not (frac_field u == 0))
unfolding u2f
is_nan-u2f u = is_nan_of (sign_field u) (exp_field u) (frac_field u)

module _ (uf : ℕ) (h : uf < 2 ^ 32) where
  abbrev flipped : ℕ
  flipped = uf % 2 ^ 31 + 2 ^ 31 * (1 - sign_field uf)

  float_neg-eq :
      float_neg uf ≡ (if (exp_field uf == 255) && not (frac_field uf == 0) then uf else flipped)
  float_neg-eq =
      unfold float_neg in
      rw
        (
          bit_and_comm 0x7f800000 uf,
          exp_mask uf,
          bit_and_comm 0x7fffff uf,
          frac_mask uf,
          flip_sign uf h,
        )
        (ground arith)

  u2f-flipped : u2f flipped ≡ minus (u2f uf)
  u2f-flipped =
      unfold u2f in
      rw (sign_eq, exp_eq, frac_eq)
        (sym (u2f_of-minus (sign_field uf) (exp_field uf) (frac_field uf)))
    where
      sign_eq : sign_field flipped ≡ 1 - sign_field uf
      sign_eq = omega arith

      exp_eq : exp_field flipped ≡ exp_field uf
      exp_eq = omega arith

      frac_eq : frac_field flipped ≡ frac_field uf
      frac_eq = omega arith

  -- For every 32-bit pattern, the result of float_neg is the pattern of the negated number, and a
  -- NaN is returned unchanged.
  pub float_neg-minus :
      (u2f (float_neg uf) ≡ minus (u2f uf)) × ((is_nan (u2f uf) ≡ false) ⊎ (float_neg uf ≡ uf))
  float_neg-minus =
      rw float_neg-eq (by_nan ((exp_field uf == 255) && not (frac_field uf == 0)) refl)
    where
      by_nan :
          (b : Bool)
          → ((exp_field uf == 255) && not (frac_field uf == 0)) ≡ b
          → (u2f (if b then uf else flipped) ≡ minus (u2f uf))
            × ((is_nan (u2f uf) ≡ false) ⊎ ((if b then uf else flipped) ≡ uf))
      by_nan true e = (rw (u2f-nan uf e) (unfold minus in refl), inr refl)
      by_nan false e = (u2f-flipped, inl (is_nan-u2f uf ∙ e))
