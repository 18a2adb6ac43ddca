-- ===== src/Bits/Twice.antt =====
-- `float_twice` of ASSN/ASSN1/bits.c against the product that its result stands for.
use Prim.Native.Nat.{bit_or}
use native.Mathlib.Nat.{pow-succ', pow-le-pow_right, mul-le-mul}
use csed.Prelude.{
  ℕ, zero, suc, ◌+◌, ◌-◌, ◌*◌, ◌%◌, ◌^◌, ◌≤◌, ◌<◌, ◌≡◌, ◌≢◌, ◌⊎◌, inl, inr, refl, sym, ap, ◌∙◌,
  arith, lt→ltb, lt-cases,
}
use csed.Prelude.Digits.{or-IsDigitwise, fields}
use csed.Prelude.Masks.{bit_or-zero, zero-bit_or}
use csed.Prelude.Words.{int_add, int_shl}
use csed.Bits.{float_twice}
use csed.Bits.Floats.{
  nan, infinite, finite, sign_field, exp_field, frac_field, u2f_of, u2f, twice, u2f-fields,
  u2f_of-normal, exp_mask, sign_mask,
}

-- The results by the exponent's field, as numbers.
pub subnormal_or : (s f : ℕ) → f < 2 ^ 31 → bit_or (2 ^ 31 * s) f ≡ 2 ^ 31 * s + f
subnormal_or s f h =
    as_fields
    ∙ fields or-IsDigitwise 31 0 s f 0 (omega arith) h
    ∙ omega (arith, zero-bit_or f, bit_or-zero s)
  where
    as_fields : bit_or (2 ^ 31 * s) f ≡ bit_or (0 + 2 ^ 31 * s) (f + 2 ^ 31 * 0)
    as_fields = ground arith

-- A product of a normal number, below the largest exponent.
pow-pred : (e : ℕ) → 1 ≤ e → 2 ^ e ≡ 2 * 2 ^ (e - 1)
pow-pred zero h = absurd (omega arith)
pow-pred (suc e) h = pow-succ' 2 e ∙ ap (λ (t : ℕ). 2 * 2 ^ t) (omega arith)

module _ (s f : ℕ) (hf : f < 2 ^ 23) where
  twice-subnormal : twice (u2f_of s 0 f) ≡ finite s (2 * f)
  twice-subnormal = unfold u2f_of twice in ground arith

  carried : 2 ^ 22 ≤ f → u2f_of s 1 (2 * f - 2 ^ 23) ≡ finite s (2 * f)
  carried p = unfold u2f_of in ap (finite s) (omega arith)

  kept : u2f_of s 0 (2 * f) ≡ finite s (2 * f)
  kept = unfold u2f_of in refl

  largest : u2f_of s 255 0 ≡ twice (u2f_of s 254 0)
  largest = unfold u2f_of twice in refl

  huge : twice (u2f_of s 254 f) ≡ infinite s
  huge = unfold u2f_of twice in ground arith

  module _ (e : ℕ) (pos : 1 ≤ e) (below : e < 254) where
    magnitude-lt : 2 * ((2 ^ 23 + f) * 2 ^ (e - 1)) < 2 ^ 277
    magnitude-lt = below_product ((2 ^ 23 + f) * 2 ^ (e - 1)) product-le
      where
        product-le : (2 ^ 23 + f) * 2 ^ (e - 1) ≤ (2 ^ 24 - 1) * 2 ^ 252
        product-le =
            mul-le-mul {n₂ = 2 ^ 24 - 1} {m₂ = 2 ^ 252} (omega arith)
              (pow-le-pow_right {n = 2} (omega arith) {i = e - 1} {j = 252} (omega arith))

        below_product : (v : ℕ) → v ≤ (2 ^ 24 - 1) * 2 ^ 252 → 2 * v < 2 ^ 277
        below_product v p = omega arith

    twice-normal : twice (u2f_of s e f) ≡ u2f_of s (e + 1) f
    twice-normal =
        ap twice (u2f_of-normal s f e pos (omega arith))
        ∙ exact
        ∙ ap (finite s) (sym value)
        ∙ sym (u2f_of-normal s f (e + 1) (omega arith) (omega arith))
      where
        exact :
            twice (finite s ((2 ^ 23 + f) * 2 ^ (e - 1)))
            ≡ finite s (2 * ((2 ^ 23 + f) * 2 ^ (e - 1)))
        exact = unfold twice in rw (lt→ltb _ _ magnitude-lt) refl

        powers : 2 ^ (e + 1 - 1) ≡ 2 * 2 ^ (e - 1)
        powers = ap (λ (t : ℕ). 2 ^ t) (omega arith) ∙ pow-pred e pos

        value : (2 ^ 23 + f) * 2 ^ (e + 1 - 1) ≡ 2 * ((2 ^ 23 + f) * 2 ^ (e - 1))
        value = rw powers (grind arith)

module _ (uf : ℕ) (h : uf < 2 ^ 32) where
  at_top : exp_field uf ≡ 255 → float_twice uf ≡ uf
  at_top e = unfold float_twice in rw (exp_mask uf, e) refl

  at_zero : exp_field uf ≡ 0 → float_twice uf ≡ 2 ^ 31 * sign_field uf + 2 * frac_field uf
  at_zero e =
      unfold float_twice int_shl in
      rw (exp_mask uf, e, sign_mask uf h, shifted-eq)
        (subnormal_or (sign_field uf) (2 * frac_field uf) (omega arith))
    where
      shifted-eq : uf * 2 % 2 ^ 32 ≡ 2 * frac_field uf
      shifted-eq = omega (arith, e)

  between : exp_field uf ≢ 255 → exp_field uf ≢ 0 → float_twice uf ≡ uf + 2 ^ 23
  between p q = unfold float_twice int_add in rw (exp_mask uf) (ground arith)

  twice-top : (s f : ℕ) → twice (u2f_of s 255 f) ≡ u2f_of s 255 f
  twice-top s f = unfold u2f_of twice in ground arith

  at_exp : (e : ℕ) → exp_field uf ≡ e → u2f uf ≡ u2f_of (sign_field uf) e (frac_field uf)
  at_exp e p = u2f-fields uf (sign_field uf) e (frac_field uf) refl p refl

  twice_at_top : exp_field uf ≡ 255 → u2f (float_twice uf) ≡ twice (u2f uf)
  twice_at_top e = rw (at_top e, at_exp 255 e) (sym (twice-top (sign_field uf) (frac_field uf)))

  subnormal-u2f :
      exp_field uf ≡ 0
      → (frac_field uf < 2 ^ 22) ⊎ (2 ^ 22 ≤ frac_field uf)
      → u2f (2 ^ 31 * sign_field uf + 2 * frac_field uf)
        ≡ finite (sign_field uf) (2 * frac_field uf)
  subnormal-u2f e (inl small) =
      u2f-fields _ (sign_field uf) 0 (2 * frac_field uf) (omega arith) (omega arith) (omega arith)
      ∙ kept (sign_field uf) (frac_field uf) (omega arith)
  subnormal-u2f e (inr large) =
      u2f-fields _ (sign_field uf) 1 (2 * frac_field uf - 2 ^ 23) (omega arith) (omega arith)
        (omega arith)
      ∙ carried (sign_field uf) (frac_field uf) (omega arith) large

  twice_at_zero : exp_field uf ≡ 0 → u2f (float_twice uf) ≡ twice (u2f uf)
  twice_at_zero e =
      ap u2f (at_zero e)
      ∙ subnormal-u2f e (lt-cases (frac_field uf) (2 ^ 22))
      ∙ sym (twice-subnormal (sign_field uf) (frac_field uf) (omega arith))
      ∙ ap twice (sym (at_exp 0 e))

  next-u2f :
      (e : ℕ)
      → exp_field uf ≡ e
      → 1 ≤ e
      → e < 255
      → u2f (float_twice uf) ≡ u2f_of (sign_field uf) (e + 1) (frac_field uf)
  next-u2f e p pos below =
      ap u2f (between (ground arith) (ground arith))
      ∙ u2f-fields _ (sign_field uf) (e + 1) (frac_field uf) (omega arith) (omega arith)
          (omega arith)

  twice_between : 1 ≤ exp_field uf → exp_field uf < 254 → u2f (float_twice uf) ≡ twice (u2f uf)
  twice_between pos below =
      next-u2f (exp_field uf) refl pos (omega arith)
      ∙ sym (twice-normal (sign_field uf) (frac_field uf) (omega arith) (exp_field uf) pos below)
      ∙ ap twice (sym (at_exp (exp_field uf) refl))

  twice_largest : exp_field uf ≡ 254 → frac_field uf ≡ 0 → u2f (float_twice uf) ≡ twice (u2f uf)
  twice_largest e z =
      next-u2f 254 e (omega arith) (omega arith)
      ∙ ap (u2f_of (sign_field uf) 255) z
      ∙ largest (sign_field uf) 0 (omega arith)
      ∙ ap (λ t. twice (u2f_of (sign_field uf) 254 t)) (sym z)
      ∙ ap twice (sym (at_exp 254 e))

  -- For every 32-bit pattern whose exponent field is not 254 or whose fraction is 0, the result of
  -- float_twice is the pattern of the doubled number, and an argument with the exponent field 255
  -- is returned unchanged.
  pub float_twice-twice :
      (exp_field uf ≢ 254) ⊎ (frac_field uf ≡ 0)
      → (u2f (float_twice uf) ≡ twice (u2f uf)) × ((exp_field uf ≢ 255) ⊎ (float_twice uf ≡ uf))
  float_twice-twice ok = (doubles, kept_top)
    where
      doubles : u2f (float_twice uf) ≡ twice (u2f uf)
      doubles = ground (arith, twice_at_top, twice_at_zero, twice_between, twice_largest, ok)

      kept_top : (exp_field uf ≢ 255) ⊎ (float_twice uf ≡ uf)
      kept_top = elim (lt-cases (exp_field uf) 255) [
        | inl p ↦ inl (ground arith)
        | inr p ↦ inr (at_top (omega arith))
      ]

  -- For every 32-bit pattern with the exponent field 254 and a fraction other than 0, the doubled
  -- number is infinite, but the result of float_twice is a NaN.
  pub float_twice-overflow :
      exp_field uf ≡ 254
      → frac_field uf ≢ 0
      → (u2f (float_twice uf) ≡ nan) × (twice (u2f uf) ≡ infinite (sign_field uf))
  float_twice-overflow e p = (
    next-u2f 254 e (omega arith) (omega arith) ∙ not_infinite,
    ap twice (at_exp 254 e) ∙ huge (sign_field uf) (frac_field uf) (omega arith),
  )
    where
      not_infinite : u2f_of (sign_field uf) 255 (frac_field uf) ≡ nan
      not_infinite = unfold u2f_of in ground arith
