-- ===== src/Bits/References.antt =====
-- The references on floats of ASSN/ASSN1/tests.c, and that the puzzles return what they return.
use Prim.Native.Nat.{bit_and}
use csed.Prelude.{
  ℕ, zero, suc, ◌+◌, ◌-◌, ◌*◌, ◌/◌, ◌%◌, ◌^◌, ◌≤◌, ◌<◌, ◌≡◌, ◌≢◌, ◌⊎◌, inl, inr, refl, sym, ap, ◌∙◌,
  arith, false, leb, ◌==◌, if◌then◌else◌, Bool-cases, lt-cases,
}
use native.Mathlib.Nat.{pow-le-pow_right}
use csed.Prelude.Digits.{or-IsDigitwise, xor-IsDigitwise, bounded}
use csed.Prelude.Masks.{bit_and-le}
use csed.Prelude.Words.{int_add, int_shl}
use csed.Bits.{
  bit_or_of, add_ok, negate, logical_shift, bit_count, test_bit_or, test_add_ok, test_negate,
  test_logical_shift, test_bit_count, float_of_abs, float_neg, float_i2f, float_twice,
}
use csed.Bits.Words.{
  bit_or_of-test_bit_or, add_ok-test_add_ok, negate-test_negate, logical_shift-test_logical_shift,
}
use csed.Bits.Count.{bit_count-test_bit_count}
use csed.Bits.Floats.{
  Float, nan, infinite, finite, exp_field, frac_field, u2f, minus, twice, is_nan, is_nan-u2f,
  float_neg-minus,
}
use csed.Bits.TopBit.{IsTopBit}
use csed.Bits.Raised.{round_half_even}
use csed.Bits.Rounded.{
  IsNearest, magnitude, round-above, round-below, round-even, magnitude-range, float_i2f-IsNearest,
}
use csed.Bits.Twice.{float_twice-twice}
use csed.Bits.Encoded.{f2u, f2u_finite, f2u-u2f}

unfoldable pub test_float_neg : ℕ → ℕ
test_float_neg uf = let f = u2f uf in if is_nan f then uf else f2u (minus f)

unfoldable pub test_float_twice : ℕ → ℕ
test_float_twice uf = let f = u2f uf in if is_nan f then uf else f2u (twice f)

-- The largest `e`, at most the first argument, with 2 ^ e ≤ a.
unfoldable pub top_bit : ℕ → ℕ → ℕ
top_bit zero a = 0
top_bit (suc k) a = if leb (2 ^ suc k) a then suc k else top_bit k a

-- The cast of an `int` to `float`, which rounds to nearest.
unfoldable pub float_of_int : ℕ → Float
float_of_int x =
    let e = top_bit 31 (magnitude x) in
    if x == 0
    then finite 0 0
    else finite (x / 2 ^ 31) (round_half_even (magnitude x * 2 ^ (31 - e)) * 2 ^ (e + 126))

unfoldable pub test_float_i2f : ℕ → ℕ
test_float_i2f x = f2u (float_of_int x)

top_bit-IsTopBit : (k a : ℕ) → 1 ≤ a → a < 2 ^ suc k → IsTopBit a (top_bit k a)
unfolding top_bit
top_bit-IsTopBit zero a p q = record { low = p; high = q }
top_bit-IsTopBit (suc k) a p q = elim (Bool-cases (leb (2 ^ suc k) a)) [
  | inl e ↦ rw e (record { low = ground arith; high = above })
  | inr e ↦ rw e (top_bit-IsTopBit k a p (ground arith))
]
  where
    above : a < 2 ^ (suc k + 1)
    above = let exponent : suc k + 1 ≡ suc (suc k) = omega arith in rw exponent q

IsTopBit-le : (a d e : ℕ) → IsTopBit a d → IsTopBit a e → d ≤ e
IsTopBit-le a d e s t = elim (lt-cases e d) [
  | inl p ↦
      absurd
        (omega (arith, pow-le-pow_right {n = 2} (omega arith) {i = e + 1} {j = d} (omega arith)))
  | inr p ↦ p
]

module _ (scaled s t : ℕ) where
  -- A half-way value has two neighbours, of which one is even.
  one_nearest :
      s * 256 ≤ scaled + 128
      → scaled ≤ s * 256 + 128
      → (s % 2 ≡ 0) ⊎ ((s * 256 < scaled + 128) × (scaled < s * 256 + 128))
      → t * 256 ≤ scaled + 128
      → scaled ≤ t * 256 + 128
      → (t % 2 ≡ 0) ⊎ ((t * 256 < scaled + 128) × (scaled < t * 256 + 128))
      → s ≡ t
  one_nearest p q r p' q' r' = ground (arith, r, r')

-- There is one nearest float.
pub IsNearest-unique : (a m n : ℕ) → IsNearest a m → IsNearest a n → m ≡ n
IsNearest-unique a m n s t = s.value ∙ same_value ∙ sym t.value
  where
    same_exp : t.exp ≡ s.exp
    same_exp =
        omega (arith, IsTopBit-le a t.exp s.exp t.top s.top, IsTopBit-le a s.exp t.exp s.top t.top)

    scaled-eq : a * 2 ^ (31 - t.exp) ≡ a * 2 ^ (31 - s.exp)
    scaled-eq = ap (λ (k : ℕ). a * 2 ^ (31 - k)) same_exp

    same_significand : s.significand ≡ t.significand
    same_significand =
        one_nearest (a * 2 ^ (31 - s.exp)) s.significand t.significand s.not_above s.not_below
          s.ties_even (omega (arith, scaled-eq, t.not_above))
          (omega (arith, scaled-eq, t.not_below)) (ground (arith, scaled-eq, t.ties_even))

    same_value : s.significand * 2 ^ (s.exp + 126) ≡ t.significand * 2 ^ (t.exp + 126)
    same_value =
        ap (λ (k : ℕ). s.significand * 2 ^ (k + 126)) (sym same_exp)
        ∙ ap (λ (v : ℕ). v * 2 ^ (t.exp + 126)) same_significand

rounded-IsNearest :
    (a e : ℕ) → IsTopBit a e → IsNearest a (round_half_even (a * 2 ^ (31 - e)) * 2 ^ (e + 126))
rounded-IsNearest a e top = record {
  exp = e;
  significand = round_half_even (a * 2 ^ (31 - e));
  top = top;
  value = refl;
  not_above = round-above (a * 2 ^ (31 - e));
  not_below = round-below (a * 2 ^ (31 - e));
  ties_even = round-even (a * 2 ^ (31 - e));
}

is_nan-minus : (f : Float) → is_nan (minus f) ≡ is_nan f
unfolding is_nan minus
is_nan-minus nan = refl
is_nan-minus (infinite s) = refl
is_nan-minus (finite s m) = refl

is_nan-twice : (f : Float) → is_nan (twice f) ≡ is_nan f
unfolding is_nan twice
is_nan-twice nan = refl
is_nan-twice (infinite s) = refl
is_nan-twice (finite s m) = ground arith

-- A word whose number is known, and is no NaN, is the pattern of that number.
pattern_of : (u : ℕ) (f : Float) → u < 2 ^ 32 → u2f u ≡ f → is_nan f ≡ false → u ≡ f2u f
pattern_of u f h e number = sym (f2u-u2f u h no_nan) ∙ ap f2u e
  where
    no_nan : (exp_field u ≢ 255) ⊎ (frac_field u ≡ 0)
    no_nan = ground (arith, is_nan-u2f u, ap is_nan e)

module _ (x : ℕ) (h : x < 2 ^ 32) where
  float_i2f-lt : float_i2f x < 2 ^ 32
  float_i2f-lt = unfold float_i2f float_of_abs int_add in ground arith

  float_neg-lt : float_neg x < 2 ^ 32
  float_neg-lt =
      unfold float_neg in ground (arith, bounded xor-IsDigitwise 32 x 0x80000000 h (omega arith))

  float_twice-lt : float_twice x < 2 ^ 32
  float_twice-lt =
      unfold float_twice int_add in
      ground (
        arith,
        bounded or-IsDigitwise 32 (bit_and x 0x80000000) (int_shl x 1)
            (omega (arith, bit_and-le x 0x80000000)) (unfold int_shl in omega arith),
      )

  abbrev rounded : ℕ
  rounded =
      let e = top_bit 31 (magnitude x) in
      round_half_even (magnitude x * 2 ^ (31 - e)) * 2 ^ (e + 126)

  module _ (nonzero : x ≢ 0) where
    float_of_int-eq : float_of_int x ≡ finite (x / 2 ^ 31) rounded
    float_of_int-eq = unfold float_of_int in ground arith

    rounding-IsNearest : IsNearest (magnitude x) rounded
    rounding-IsNearest =
        let range = magnitude-range x h nonzero in
        rounded-IsNearest (magnitude x) (top_bit 31 (magnitude x))
          (top_bit-IsTopBit 31 (magnitude x) range.0 (omega (arith, range)))

    i2f_nonzero : float_i2f x ≡ f2u (float_of_int x)
    i2f_nonzero =
        pattern_of (float_i2f x) (float_of_int x) float_i2f-lt (converted.1 ∙ same)
          (ap is_nan float_of_int-eq ∙ unfold is_nan in refl)
      where
        converted :
            (m : ℕ) × (u2f (float_i2f x) ≡ finite (x / 2 ^ 31) m) × IsNearest (magnitude x) m
        converted = float_i2f-IsNearest x h nonzero

        same : finite (x / 2 ^ 31) converted.0 ≡ float_of_int x
        same =
            ap (finite (x / 2 ^ 31))
              (IsNearest-unique (magnitude x) converted.0 rounded converted.2 rounding-IsNearest)
            ∙ sym float_of_int-eq

  i2f_zero : x ≡ 0 → float_i2f x ≡ f2u (float_of_int x)
  i2f_zero e = rw e (unfold float_i2f float_of_int f2u f2u_finite in refl)

  pub float_i2f-test_float_i2f : float_i2f x ≡ test_float_i2f x
  float_i2f-test_float_i2f =
      unfold test_float_i2f in
      elim (lt-cases 0 x) [ inl p ↦ i2f_nonzero (omega arith) | inr p ↦ i2f_zero (omega arith) ]

  pub float_neg-test_float_neg : float_neg x ≡ test_float_neg x
  float_neg-test_float_neg =
      unfold test_float_neg in
      elim (Bool-cases (is_nan (u2f x))) [
        | inl e ↦ rw e (ground (arith, e, (float_neg-minus x h).1))
        | inr e ↦ rw e (
            pattern_of (float_neg x) (minus (u2f x)) float_neg-lt (float_neg-minus x h).0
              (is_nan-minus (u2f x) ∙ e))
      ]

  module _ (apart : (exp_field x ≢ 254) ⊎ (frac_field x ≡ 0)) where
    pub float_twice-test_float_twice : float_twice x ≡ test_float_twice x
    float_twice-test_float_twice =
        unfold test_float_twice in
        elim (Bool-cases (is_nan (u2f x))) [
          | inl e ↦ rw e (ground (arith, e, is_nan-u2f x, (float_twice-twice x h apart).1))
          | inr e ↦ rw e (
              pattern_of (float_twice x) (twice (u2f x)) float_twice-lt
                (float_twice-twice x h apart).0 (is_nan-twice (u2f x) ∙ e))
        ]

-- On all ints, bitOr is the operation |, addOK is 1 exactly if the sum, computed as a long long,
-- fits an int, negate is the wrapping minus, logicalShift by less than 32 shifts the unsigned word,
-- and bitCount, which adds neighbouring fields under five masks, returns what a loop over the 32
-- bits counts: each equals its reference in tests.c.
pub int_puzzles-references :
    (x y n : ℕ)
    → x < 2 ^ 32
    → y < 2 ^ 32
    → n < 32
    → (bit_or_of x y ≡ test_bit_or x y)
      × (add_ok x y ≡ test_add_ok x y)
      × (negate x ≡ test_negate x)
      × (logical_shift x n ≡ test_logical_shift x n)
      × (bit_count x ≡ test_bit_count x)
int_puzzles-references x y n hx hy hn = (
  bit_or_of-test_bit_or x y hx hy,
  add_ok-test_add_ok x y hx hy,
  negate-test_negate x hx,
  logical_shift-test_logical_shift n hn x hx,
  bit_count-test_bit_count x hx,
)

-- For every 32-bit word, float_neg and float_i2f return what their references in tests.c return,
-- which negate the number of the word, and round it to a float; and so does float_twice, whose
-- reference doubles the number, unless the exponent field is 254 and the fraction is not 0.
pub float_puzzles-references :
    (x : ℕ)
    → x < 2 ^ 32
    → (float_neg x ≡ test_float_neg x)
      × (float_i2f x ≡ test_float_i2f x)
      × (((exp_field x ≡ 254) × (frac_field x ≢ 0)) ⊎ (float_twice x ≡ test_float_twice x))
float_puzzles-references x h =
    (float_neg-test_float_neg x h, float_i2f-test_float_i2f x h, by_fields (exp-cases x))
  where
    exp-cases :
        (u : ℕ)
        → ((exp_field u ≡ 254) × (frac_field u ≢ 0)) ⊎ ((exp_field u ≢ 254) ⊎ (frac_field u ≡ 0))
    exp-cases u = ground arith

    by_fields :
        ((exp_field x ≡ 254) × (frac_field x ≢ 0)) ⊎ ((exp_field x ≢ 254) ⊎ (frac_field x ≡ 0))
        → ((exp_field x ≡ 254) × (frac_field x ≢ 0)) ⊎ (float_twice x ≡ test_float_twice x)
    by_fields (inl p) = inl p
    by_fields (inr p) = inr (float_twice-test_float_twice x h p)
