-- ===== src/Bits/Encoded.antt =====
-- `f2u` of ASSN/ASSN1/tests.c, the pattern of a single-precision number, and the references on
-- floats that are built from it and `u2f`.
use native.Mathlib.Nat.{pow-succ', pow-le-pow_right, mul-div_cancel, one-le-pow}
use csed.Prelude.{
  ℕ, zero, suc, ◌+◌, ◌-◌, ◌*◌, ◌/◌, ◌^◌, ◌≤◌, ◌<◌, ◌≡◌, ◌≢◌, ◌⊎◌, inl, inr, refl, ap, ◌∙◌, arith,
  false, ltb, if◌then◌else◌, lt→ltb, lt-cases,
}
use csed.Bits.Floats.{
  Float, nan, infinite, finite, sign_field, exp_field, frac_field, u2f_of, u2f, u2f-fields,
  u2f_of-normal,
}

-- The exponent's field of a normal number: from `k`, the first power under which the value has at
-- most 24 bits. There are 254 of them.
unfoldable pub exp_of : ℕ → ℕ → ℕ → ℕ
exp_of zero k m = k
exp_of (suc left) k m =
    let later = exp_of left (k + 1) m in if ltb m (2 ^ 24 * 2 ^ k) then k + 1 else later

unfoldable pub f2u_finite : ℕ → ℕ
f2u_finite m =
    if ltb m (2 ^ 23)
    then m
    else let exp = exp_of 254 0 m in exp * 2 ^ 23 + (m / 2 ^ (exp - 1) - 2 ^ 23)

-- The pattern; for a NaN the one that the processor produces.
unfoldable pub f2u : Float → ℕ
f2u nan = 0xffc00000
f2u (infinite s) = 2 ^ 31 * s + 0x7f800000
f2u (finite s m) = 2 ^ 31 * s + f2u_finite m

module _ (m e : ℕ) (low : 2 ^ 23 * 2 ^ e ≤ m) (high : m < 2 ^ 24 * 2 ^ e) where
  exp_of-eq : (left k : ℕ) → k ≤ e → e < k + left → exp_of left k m ≡ e + 1
  unfolding exp_of
  exp_of-eq zero k p q = absurd (omega arith)
  exp_of-eq (suc left) k p q = elim (lt-cases k e) [
    | inl r ↦ rw (above r) (exp_of-eq left (k + 1) (omega arith) (omega arith))
    | inr r ↦ at_e (omega arith)
  ]
    where
      powers : k < e → 2 * 2 ^ k ≤ 2 ^ e
      powers r =
          omega (arith, pow-succ' 2 k, pow-le-pow_right {n = 2} (omega arith) {i = suc k} {j = e} r)

      above : k < e → ltb m (2 ^ 24 * 2 ^ k) ≡ false
      above r = ground (arith, powers r)

      at_e : k ≡ e → (if ltb m (2 ^ 24 * 2 ^ k) then k + 1 else exp_of left (k + 1) m) ≡ e + 1
      at_e r = rw (r, lt→ltb _ _ high) refl

module _ (s f e : ℕ) (hf : f < 2 ^ 23) (pos : 1 ≤ e) (below : e < 255) where
  abbrev value : ℕ
  value = (2 ^ 23 + f) * 2 ^ (e - 1)

  power-pos : 1 ≤ 2 ^ (e - 1)
  power-pos = one-le-pow (e - 1) 2 (omega arith)

  value-low : 2 ^ 23 * 2 ^ (e - 1) ≤ value
  value-low = grind arith

  value-high : value < 2 ^ 24 * 2 ^ (e - 1)
  value-high = grind (arith, power-pos)

  found : exp_of 254 0 value ≡ e
  found =
      exp_of-eq value (e - 1) value-low value-high 254 0 (omega arith) (omega arith) ∙ omega arith

  quotient : value / 2 ^ (e - 1) ≡ 2 ^ 23 + f
  quotient = mul-div_cancel (2 ^ 23 + f) power-pos

  f2u-normal : f2u (finite s value) ≡ 2 ^ 31 * s + e * 2 ^ 23 + f
  f2u-normal = unfold f2u f2u_finite in rw (large, found, quotient) (omega arith)
    where
      large : ltb value (2 ^ 23) ≡ false
      large = ground (arith, value-low, power-pos)

module _ (u : ℕ) (h : u < 2 ^ 32) where
  parts : u ≡ 2 ^ 31 * sign_field u + exp_field u * 2 ^ 23 + frac_field u
  parts = omega arith

  at_exp : (e : ℕ) → exp_field u ≡ e → u2f u ≡ u2f_of (sign_field u) e (frac_field u)
  at_exp e p = u2f-fields u (sign_field u) e (frac_field u) refl p refl

  at_zero : exp_field u ≡ 0 → f2u (u2f u) ≡ u
  at_zero p = ap f2u (at_exp 0 p) ∙ unfold u2f_of f2u f2u_finite in ground (arith, p)

  between : (e : ℕ) → exp_field u ≡ e → 1 ≤ e → e < 255 → f2u (u2f u) ≡ u
  between e p pos below =
      ap f2u (at_exp e p ∙ u2f_of-normal (sign_field u) (frac_field u) e pos below)
      ∙ f2u-normal (sign_field u) (frac_field u) e (omega arith) pos below
      ∙ omega arith

  at_top : exp_field u ≡ 255 → frac_field u ≡ 0 → f2u (u2f u) ≡ u
  at_top p q = ap f2u (at_exp 255 p) ∙ unfold u2f_of f2u in ground (arith, p, q)

  -- The pattern of a number is the one that it came from.
  pub f2u-u2f : (exp_field u ≢ 255) ⊎ (frac_field u ≡ 0) → f2u (u2f u) ≡ u
  f2u-u2f ok = elim (lt-cases (exp_field u) 255) [
    | inl p ↦ elim (lt-cases 0 (exp_field u)) [
      | inl q ↦ between (exp_field u) refl q p
      | inr q ↦ at_zero (omega arith)
    ]
    | inr p ↦ at_top (omega arith) (ground (arith, ok))
  ]
