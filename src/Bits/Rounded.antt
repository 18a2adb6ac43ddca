-- ===== src/Bits/Rounded.antt =====
-- `float_i2f` of ASSN/ASSN1/bits.c: the conversion of an `int` rounds to the nearest float, ties
-- to even.
use mathlib.Core.Path.{subst}
use native.Mathlib.Nat.{pow-succ'}
use csed.Prelude.{
  ℕ, suc, ◌+◌, ◌-◌, ◌*◌, ◌/◌, ◌%◌, ◌^◌, ◌≤◌, ◌<◌, ◌≡◌, ◌≢◌, ◌⊎◌, inl, inr, refl, sym, ap, ◌∙◌,
  arith, ltb, if◌then◌else◌, lt-cases,
}
use csed.Prelude.Words.{int_neg}
use csed.Bits.{exp_loop, float_of_abs, float_i2f}
use csed.Bits.Floats.{finite, u2f_of, u2f, u2f-fields, u2f_of-normal, sign_mask}
use csed.Bits.TopBit.{IsTopBit, IsEnd, exp_loop-top}
use csed.Bits.Raised.{round_half_even, e-bound, round-bound, round-low, float_of_abs-eq}

-- A pattern put together from a sign, a power and a significand, which may have carried.
module _ (b e m : ℕ) (hb : b < 2) (he : e ≤ 31) (low : 2 ^ 23 ≤ m) where
  abbrev pattern_of : ℕ
  pattern_of = 2 ^ 31 * b + (e + 126) * 2 ^ 23 + m

  u2f-uncarried : m < 2 ^ 24 → u2f pattern_of ≡ finite b (m * 2 ^ (e + 126))
  u2f-uncarried h =
      u2f-fields pattern_of b (e + 127) (m - 2 ^ 23) (omega arith) (omega arith) (omega arith)
      ∙ u2f_of-normal b (m - 2 ^ 23) (e + 127) (omega arith) (omega arith)
      ∙ same_value
    where
      same_significand : 2 ^ 23 + (m - 2 ^ 23) ≡ m
      same_significand = omega arith

      same_exp : e + 127 - 1 ≡ e + 126
      same_exp = omega arith

      same_value :
          finite b ((2 ^ 23 + (m - 2 ^ 23)) * 2 ^ (e + 127 - 1)) ≡ finite b (m * 2 ^ (e + 126))
      same_value = rw (same_significand, same_exp) refl

  u2f-carried : m ≡ 2 ^ 24 → u2f pattern_of ≡ finite b (m * 2 ^ (e + 126))
  u2f-carried h =
      u2f-fields pattern_of b (e + 128) 0 (omega arith) (omega arith) (omega arith)
      ∙ u2f_of-normal b 0 (e + 128) (omega arith) (omega arith)
      ∙ same_value
    where
      same_exp : e + 128 - 1 ≡ suc (e + 126)
      same_exp = omega arith

      same_value : finite b ((2 ^ 23 + 0) * 2 ^ (e + 128 - 1)) ≡ finite b (m * 2 ^ (e + 126))
      same_value = ap (finite b) (rw (h, same_exp) (omega (arith, pow-succ' 2 (e + 126))))

  u2f-pattern : m ≤ 2 ^ 24 → u2f pattern_of ≡ finite b (m * 2 ^ (e + 126))
  u2f-pattern h = elim (lt-cases m (2 ^ 24)) [
    | inl p ↦ u2f-uncarried p
    | inr p ↦ u2f-carried (omega arith)
  ]

-- `m` in units of 2 ^ (-149) is the float nearest to the whole number `a`, a tie to an even
-- significand: `a * 2 ^ (31 - exp)` has 32 bits, of which a float keeps 24.
pub record IsNearest (a m : ℕ) : Type 0 where
  pub exp : ℕ
  pub significand : ℕ
  pub top : IsTopBit a exp
  pub value : m ≡ significand * 2 ^ (exp + 126)
  pub not_above : significand * 256 ≤ a * 2 ^ (31 - exp) + 128
  pub not_below : a * 2 ^ (31 - exp) ≤ significand * 256 + 128
  pub ties_even :
      (significand % 2 ≡ 0)
      ⊎ ((significand * 256 < a * 2 ^ (31 - exp) + 128)
          × (a * 2 ^ (31 - exp) < significand * 256 + 128))

-- The absolute value of an `int`.
unfoldable pub magnitude : ℕ → ℕ
magnitude x = if ltb x (2 ^ 31) then x else 2 ^ 32 - x

module _ (x : ℕ) where
  pub round-above : round_half_even x * 256 ≤ x + 128
  round-above = unfold round_half_even in ground arith

  pub round-below : x ≤ round_half_even x * 256 + 128
  round-below = unfold round_half_even in ground arith

  pub round-even :
      (round_half_even x % 2 ≡ 0)
      ⊎ ((round_half_even x * 256 < x + 128) × (x < round_half_even x * 256 + 128))
  round-even = unfold round_half_even in ground arith

-- The conversion of a positive number below 2 ^ 31, with its sign.
module _ (b a : ℕ) (hb : b < 2) (pos : 1 ≤ a) (ha : a < 2 ^ 31) where
  found : IsEnd a (exp_loop 32 a 1)
  found = exp_loop-top 32 a 1 (omega arith) (omega arith) ha (omega arith) pos

  abbrev e : ℕ
  e = exp_loop 32 a 1 - 1

  abbrev m : ℕ
  m = round_half_even (a * 2 ^ (31 - e))

  float_of_abs-u2f : u2f (float_of_abs (2 ^ 31 * b) a) ≡ finite b (m * 2 ^ (e + 126))
  float_of_abs-u2f =
      ap u2f (float_of_abs-eq a e ha found.1 (2 ^ 31 * b) (omega arith) refl)
      ∙ u2f-pattern b e m hb (omega (arith, e-bound a e ha found.1)) (round-low a e ha found.1)
          (round-bound a e ha found.1)

  float_of_abs-IsNearest : IsNearest a (m * 2 ^ (e + 126))
  float_of_abs-IsNearest = record {
    exp = e;
    significand = m;
    top = found.1;
    value = refl;
    not_above = round-above (a * 2 ^ (31 - e));
    not_below = round-below (a * 2 ^ (31 - e));
    ties_even = round-even (a * 2 ^ (31 - e));
  }

-- The smallest `int`, whose absolute value is no `int`.
smallest_converted :
    (m : ℕ) × (u2f (float_i2f (2 ^ 31)) ≡ finite 1 m) × IsNearest (magnitude (2 ^ 31)) m
unfolding u2f u2f_of float_i2f magnitude
smallest_converted = (
  2 ^ 23 * 2 ^ 157,
  refl,
  record {
    exp = 31;
    significand = 2 ^ 23;
    top = record { low = omega arith; high = omega arith };
    value = refl;
    not_above = omega arith;
    not_below = omega arith;
    ties_even = inl refl;
  },
)

module _ (x : ℕ) (hx : x < 2 ^ 32) (nonzero : x ≢ 0) where
  float_i2f-eq : x ≢ 2 ^ 31 → float_i2f x ≡ float_of_abs (2 ^ 31 * (x / 2 ^ 31)) (magnitude x)
  float_i2f-eq h =
      unfold float_i2f in rw (sign_mask x hx) (unfold magnitude int_neg in ground arith)

  pub magnitude-range : (1 ≤ magnitude x) × (magnitude x ≤ 2 ^ 31)
  magnitude-range = unfold magnitude in ground arith

  -- The result of `float_i2f` has the sign of the argument, and is the float nearest to it.
  abbrev IsConverted : Type 0
  IsConverted = (m : ℕ) × (u2f (float_i2f x) ≡ finite (x / 2 ^ 31) m) × IsNearest (magnitude x) m

  usual : x ≢ 2 ^ 31 → IsConverted
  usual h = (
    _,
    ap u2f (float_i2f-eq h)
        ∙ float_of_abs-u2f (x / 2 ^ 31) (magnitude x) (omega arith) magnitude-range.0 below,
    float_of_abs-IsNearest (x / 2 ^ 31) (magnitude x) (omega arith) magnitude-range.0 below,
  )
    where
      below : magnitude x < 2 ^ 31
      below = unfold magnitude in ground (arith, h)

  smallest : x ≡ 2 ^ 31 → IsConverted
  smallest h =
      subst (λ t. (m : ℕ) × (u2f (float_i2f t) ≡ finite (t / 2 ^ 31) m) × IsNearest (magnitude t) m)
        (sym h) smallest_converted

  -- For every int other than 0, the result of float_i2f is the pattern of a finite float with the
  -- sign of the argument, whose absolute value is the nearest to that of the argument among the
  -- floats with 24 significant bits, a tie going to the even significand.
  pub float_i2f-IsNearest : IsConverted
  float_i2f-IsNearest = elim cases [ inl p ↦ smallest p | inr p ↦ usual p ]
    where
      cases : (x ≡ 2 ^ 31) ⊎ (x ≢ 2 ^ 31)
      cases = ground arith
