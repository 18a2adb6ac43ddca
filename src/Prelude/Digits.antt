-- ===== src/Prelude/Digits.antt =====
-- Laws of the native `bit_and`, `bit_or` and `bit_xor`, which stand for `&`, `|` and `^`: each
-- works digit by digit, so it works field by field.
use Prim.Native.Nat.{
  ℕ, zero, suc, ◌+◌, ◌*◌, ◌/◌, ◌%◌, ◌^◌, ◌≤◌, ◌<◌, min, max, differ, digits, bit_and, bit_or,
  bit_xor, bit_and-bitwise, bit_or-bitwise, bit_xor-bitwise,
}
use mathlib.Core.Path.{◌≡◌, refl, sym, ap, ◌∙◌, subst}
use native.Mathlib.Nat.{
  zero-add, pow-succ', le_refl, mod-lt, mod-add-div, add-mul-div_left, div-eq_of_lt, pow-suc,
  one-le-pow,
}
use native.Mathlib.Omega.{arith}

-- An operation on numbers that applies `digit` to each pair of binary digits.
pub record IsDigitwise (op : ℕ → ℕ → ℕ) : Type 0 where
  digit : ℕ → ℕ → ℕ
  digit_bound : (x y : ℕ) → x < 2 → y < 2 → digit x y < 2
  nothing : op 0 0 ≡ 0
  step : (x y : ℕ) → op x y ≡ digit (x % 2) (y % 2) + 2 * op (x / 2) (y / 2)

-- Induction along `x / 2`, the number without its lowest digit.
halving_below :
    (P : ℕ → Type 0) → P 0 → ((x : ℕ) → P (suc x / 2) → P (suc x)) → (bound x : ℕ) → x ≤ bound → P x
halving_below P base up bound zero le = base
halving_below P base up zero (suc x) le = absurd (omega arith)
halving_below P base up (suc bound) (suc x) le =
    up x (halving_below P base up bound (suc x / 2) (omega arith))

pub halving : (P : ℕ → Type 0) → P 0 → ((x : ℕ) → P (suc x / 2) → P (suc x)) → (x : ℕ) → P x
halving P base up x = halving_below P base up x x (le_refl x)

module _ (rest : ℕ → ℕ) (pair : ℕ → ℕ → ℕ) where
  -- Any two counts that cover the digits of `x` give the same word.
  count_free : (y x k l : ℕ) → x ≤ k → x ≤ l → digits rest pair l x y ≡ digits rest pair k x y
  count_free y zero (suc k) (suc l) _ _ = refl
  count_free y zero (suc k) zero _ _ = refl
  count_free y zero zero (suc l) _ _ = refl
  count_free y zero zero zero _ _ = refl
  count_free y (suc x) (suc k) (suc l) hk hl =
      ap (λ (w : ℕ). w * 2 + pair (suc x % 2) (y % 2))
        (count_free (y / 2) (suc x / 2) k l (omega arith) (omega arith))
  count_free y (suc x) zero l hk hl = absurd (omega arith)
  count_free y (suc x) (suc k) zero hk hl = absurd (omega arith)

  lowest_digit :
      (y x : ℕ)
      → digits rest pair (suc x) (suc x) y
        ≡ pair (suc x % 2) (y % 2) + 2 * digits rest pair (suc x / 2) (suc x / 2) (y / 2)
  lowest_digit y x =
      omega (arith, count_free (y / 2) (suc x / 2) (suc x / 2) x (le_refl _) (omega arith))

pub and-digit : (x y : ℕ) → bit_and x y ≡ min (x % 2) (y % 2) + 2 * bit_and (x / 2) (y / 2)
and-digit zero y = simp bit_and-bitwise (omega arith)
and-digit (suc x) y = simp bit_and-bitwise (lowest_digit (λ y. 0) min y x)

pub or-digit : (x y : ℕ) → bit_or x y ≡ max (x % 2) (y % 2) + 2 * bit_or (x / 2) (y / 2)
or-digit zero y = simp bit_or-bitwise (omega arith)
or-digit (suc x) y = simp bit_or-bitwise (lowest_digit (λ y. y) max y x)

pub xor-digit : (x y : ℕ) → bit_xor x y ≡ differ (x % 2) (y % 2) + 2 * bit_xor (x / 2) (y / 2)
xor-digit zero y = simp bit_xor-bitwise (omega arith)
xor-digit (suc x) y = simp bit_xor-bitwise (lowest_digit (λ y. y) differ y x)

differ_bound : (x y : ℕ) → x < 2 → y < 2 → differ x y < 2
differ_bound zero y p q = q
differ_bound (suc zero) zero p q = omega arith
differ_bound (suc zero) (suc zero) p q = omega arith
differ_bound (suc zero) (suc (suc y)) p q = absurd (omega arith)
differ_bound (suc (suc x)) y p q = absurd (omega arith)

pub and-IsDigitwise : IsDigitwise bit_and
and-IsDigitwise = record {
  digit = min;
  digit_bound = λ x y p q. omega arith;
  nothing = refl;
  step = and-digit;
}

pub or-IsDigitwise : IsDigitwise bit_or
or-IsDigitwise = record {
  digit = max;
  digit_bound = λ x y p q. omega arith;
  nothing = refl;
  step = or-digit;
}

pub xor-IsDigitwise : IsDigitwise bit_xor
xor-IsDigitwise = record {
  digit = differ;
  digit_bound = differ_bound;
  nothing = refl;
  step = xor-digit;
}

pow-suc-mul : (k b : ℕ) → 2 ^ suc k * b ≡ 2 * (2 ^ k * b)
pow-suc-mul k b = omega (arith, ap (λ (t : ℕ). t * b) (pow-suc 2 k))

pub pow_add : (a b : ℕ) → 2 ^ a * 2 ^ b ≡ 2 ^ (a + b)
pow_add zero b = omega (arith, ap (λ (t : ℕ). 2 ^ t) (zero-add b))
pow_add (suc a) b =
    pow-suc-mul a (2 ^ b)
    ∙ ap (λ (t : ℕ). 2 * t) (pow_add a b)
    ∙ sym (pow-succ' 2 (a + b))
    ∙ ap (λ (t : ℕ). 2 ^ t) (omega arith)

pub mod-pow-lt : (k a : ℕ) → a % 2 ^ k < 2 ^ k
mod-pow-lt k a = mod-lt a (one-le-pow k 2 (omega arith))

module _ {op : ℕ → ℕ → ℕ} (laws : IsDigitwise op) where
  -- Two fields of a word, the lower `k` bits wide, do not meet.
  pub fields :
      (k a b c d : ℕ)
      → a < 2 ^ k
      → c < 2 ^ k
      → op (a + 2 ^ k * b) (c + 2 ^ k * d) ≡ op a c + 2 ^ k * op b d
  fields zero a b c d ha hc = ground (arith, laws.nothing)
  fields (suc k) a b c d ha hc = ground (
    arith,
    laws.step (a + 2 ^ suc k * b) (c + 2 ^ suc k * d),
    laws.step a c,
    pow-suc 2 k,
    pow-suc-mul k b,
    pow-suc-mul k d,
    pow-suc-mul k (op b d),
    fields k (a / 2) b (c / 2) d (omega (arith, pow-suc 2 k)) (omega (arith, pow-suc 2 k)),
  )

  -- Fields of `k` bits give a field of `k` bits.
  pub bounded : (k a b : ℕ) → a < 2 ^ k → b < 2 ^ k → op a b < 2 ^ k
  bounded zero a b ha hb = ground (arith, laws.nothing)
  bounded (suc k) a b ha hb = omega (
    arith,
    laws.step a b,
    laws.digit_bound (a % 2) (b % 2) (omega arith) (omega arith),
    pow-suc 2 k,
    bounded k (a / 2) (b / 2) (omega (arith, pow-suc 2 k)) (omega (arith, pow-suc 2 k)),
  )

  fields-div :
      (k a b c d : ℕ) → a < 2 ^ k → c < 2 ^ k → op (a + 2 ^ k * b) (c + 2 ^ k * d) / 2 ^ k ≡ op b d
  fields-div k a b c d ha hc =
      ap (λ (t : ℕ). t / 2 ^ k) (fields k a b c d ha hc)
      ∙ add-mul-div_left (op a c) (op b d) (one-le-pow k 2 (omega arith))
      ∙ omega (arith, div-eq_of_lt (bounded k a c ha hc))

  -- The operation before a shift to the right is the operation after it.
  pub shifted : (k a b : ℕ) → op a b / 2 ^ k ≡ op (a / 2 ^ k) (b / 2 ^ k)
  shifted k a b =
      subst (λ x. op x b / 2 ^ k ≡ op (a / 2 ^ k) (b / 2 ^ k)) (mod-add-div a (2 ^ k))
        (subst (λ y. op (a % 2 ^ k + 2 ^ k * (a / 2 ^ k)) y / 2 ^ k ≡ op (a / 2 ^ k) (b / 2 ^ k))
          (mod-add-div b (2 ^ k))
          (fields-div k (a % 2 ^ k) (a / 2 ^ k) (b % 2 ^ k) (b / 2 ^ k) (mod-pow-lt k a)
            (mod-pow-lt k b)))
