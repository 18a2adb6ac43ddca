-- ===== src/Bits/TopBit.antt =====
-- The loop of `float_i2f` of ASSN/ASSN1/bits.c finds the highest one of a positive `int`.
use native.Mathlib.Nat.{pow-le-pow_right, one-le-pow, div-eq_of_lt, div-lt_iff_lt-mul}
use csed.Prelude.{
  ℕ, zero, suc, ◌+◌, ◌-◌, ◌/◌, ◌^◌, ◌≤◌, ◌<◌, ◌≡◌, inl, inr, refl, arith, Bool, true, false, ◌==◌,
  if◌then◌else◌, lt-cases,
}
use csed.Prelude.Words.{int_shr}
use csed.Bits.{exp_loop}

-- `exp` is the position of the highest one of `x`.
pub record IsTopBit (x exp : ℕ) : Type 0 where
  pub low : 2 ^ exp ≤ x
  pub high : x < 2 ^ (exp + 1)

pub shr-positive : (x n : ℕ) → x < 2 ^ 31 → int_shr x n ≡ x / 2 ^ n
shr-positive x n h = unfold int_shr in ground arith

-- An `exp` that the loop may return.
abbrev pub IsEnd : ℕ → ℕ → Type 0
IsEnd x exp = (1 ≤ exp) × IsTopBit x (exp - 1)

module _ (x exp : ℕ) (hx : x < 2 ^ 31) (le : exp ≤ 31) where
  ends : (int_shr x exp == 0) ≡ true → x < 2 ^ exp
  ends e = omega (arith, (div-lt_iff_lt-mul (one-le-pow exp 2 (omega arith))).0 zero-quotient)
    where
      zero-quotient : x / 2 ^ exp < 1
      zero-quotient = ground (arith, shr-positive x exp hx, e)

  goes_on : (int_shr x exp == 0) ≡ false → 2 ^ exp ≤ x
  goes_on e = elim (lt-cases x (2 ^ exp)) [
    | inr p ↦ p
    | inl p ↦ absurd (ground (arith, shr-positive x exp hx, e, div-eq_of_lt p))
  ]

-- A power below a number of 31 bits.
pub exp-bound : (x exp : ℕ) → x < 2 ^ 31 → 2 ^ exp ≤ x → exp ≤ 30
exp-bound x exp hx low = elim (lt-cases exp 31) [
  | inl p ↦ omega arith
  | inr p ↦ absurd (omega (arith, pow-le-pow_right {n = 2} (omega arith) {i = 31} {j = exp} p))
]

-- The loop ends at the first `exp` whose power exceeds `x`, for each fuel that reaches 31.
pub exp_loop-top :
    (fuel x exp : ℕ)
    → 31 < exp + fuel
    → exp ≤ 31
    → x < 2 ^ 31
    → 1 ≤ exp
    → 2 ^ (exp - 1) ≤ x
    → IsEnd x (exp_loop fuel x exp)
unfolding exp_loop
exp_loop-top zero x exp enough le hx pos low = absurd (omega arith)
exp_loop-top (suc fuel) x exp enough le hx pos low =
    by_end (int_shr x exp == 0) refl
      (λ le' low'. exp_loop-top fuel x (exp + 1) (omega arith) le' hx (omega arith) low')
  where
    by_end :
        (b : Bool)
        → (int_shr x exp == 0) ≡ b
        → (exp + 1 ≤ 31 → 2 ^ (exp + 1 - 1) ≤ x → IsEnd x (exp_loop fuel x (exp + 1)))
        → IsEnd x (if b then exp else exp_loop fuel x (exp + 1))
    by_end true e rest = (pos, record { low = low; high = rw the_exp (ends x exp hx le e) })
      where
        the_exp : exp - 1 + 1 ≡ exp
        the_exp = omega arith
    by_end false e rest =
        rest (omega (arith, exp-bound x exp hx (goes_on x exp hx le e)))
          (rw the_exp (goes_on x exp hx le e))
      where
        the_exp : exp + 1 - 1 ≡ exp
        the_exp = omega arith
