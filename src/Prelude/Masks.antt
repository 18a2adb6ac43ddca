-- ===== src/Prelude/Masks.antt =====
-- Masks, complements and zeros under `&`, `|` and `^`.
use Prim.Native.Nat.{
  ℕ, zero, suc, ◌+◌, ◌-◌, ◌*◌, ◌/◌, ◌%◌, ◌^◌, ◌≤◌, ◌<◌, differ, bit_and, bit_or, bit_xor,
  bit_and-bitwise, bit_or-bitwise,
}
use mathlib.Core.Path.{◌≡◌, refl, sym, ap, ◌∙◌, subst}
use native.Mathlib.Nat.{mod-add-div, pow-suc, one-le-pow}
use native.Mathlib.Omega.{arith}
use csed.Prelude.Digits.{
  halving, and-digit, or-digit, xor-digit, and-IsDigitwise, mod-pow-lt, bounded, fields,
}

module _ (k a : ℕ) (fits : a < 2 ^ suc k) where
  complement-half : (2 ^ suc k - 1 - a) / 2 ≡ 2 ^ k - 1 - a / 2
  complement-half = omega (arith, pow-suc 2 k)

  complement-digit : (2 ^ suc k - 1 - a) % 2 ≡ 1 - a % 2
  complement-digit = omega (arith, pow-suc 2 k)

  half-fits : a / 2 < 2 ^ k
  half-fits = omega (arith, pow-suc 2 k)

-- De Morgan's law on words of `k` bits.
pub de_morgan :
    (k a b : ℕ)
    → a < 2 ^ k
    → b < 2 ^ k
    → 2 ^ k - 1 - bit_and (2 ^ k - 1 - a) (2 ^ k - 1 - b) ≡ bit_or a b
de_morgan zero zero zero ha hb = refl
de_morgan zero (suc a) b ha hb = absurd (omega arith)
de_morgan zero zero (suc b) ha hb = absurd (omega arith)
de_morgan (suc k) a b ha hb =
    rw
      (
        and-digit (2 ^ suc k - 1 - a) (2 ^ suc k - 1 - b),
        complement-half k a ha,
        complement-half k b hb,
        complement-digit k a ha,
        complement-digit k b hb,
      )
      (omega (
        arith,
        or-digit a b,
        pow-suc 2 k,
        bounded and-IsDigitwise k (2 ^ k - 1 - a / 2) (2 ^ k - 1 - b / 2)
            (omega (arith, one-le-pow k 2)) (omega (arith, one-le-pow k 2)),
        de_morgan k (a / 2) (b / 2) (half-fits k a ha) (half-fits k b hb),
      ))

pub zero-bit_and : (y : ℕ) → bit_and 0 y ≡ 0
zero-bit_and y = bit_and-bitwise 0 y

pub zero-bit_or : (y : ℕ) → bit_or 0 y ≡ y
zero-bit_or y = bit_or-bitwise 0 y

-- What a mask keeps is at most the mask.
pub bit_and-le : (x mask : ℕ) → bit_and x mask ≤ mask
bit_and-le x =
    halving (λ t. (mask : ℕ) → bit_and t mask ≤ mask) (λ mask. omega (arith, zero-bit_and mask))
      (λ t ih mask. omega (arith, and-digit (suc t) mask, ih (mask / 2))) x

pub bit_and-zero : (x : ℕ) → bit_and x 0 ≡ 0
bit_and-zero x = omega (arith, bit_and-le x 0)

pub bit_or-zero : (x : ℕ) → bit_or x 0 ≡ x
bit_or-zero = halving (λ t. bit_or t 0 ≡ t) refl (λ t ih. omega (arith, or-digit (suc t) 0, ih))

differ-zero : (x : ℕ) → differ x 0 ≡ x
differ-zero zero = refl
differ-zero (suc x) = refl

pub bit_xor-zero : (x : ℕ) → bit_xor x 0 ≡ x
bit_xor-zero =
    halving (λ t. bit_xor t 0 ≡ t) refl
      (λ t ih. omega (arith, xor-digit (suc t) 0, differ-zero (suc t % 2), ih))

pub bit_and_comm : (x y : ℕ) → bit_and x y ≡ bit_and y x
bit_and_comm =
    halving (λ t. (y : ℕ) → bit_and t y ≡ bit_and y t) (λ y. zero-bit_and y ∙ sym (bit_and-zero y))
      (λ t ih y. omega (arith, and-digit (suc t) y, and-digit y (suc t), ih (y / 2)))

low_mask-half : (k : ℕ) → (2 ^ suc k - 1) / 2 ≡ 2 ^ k - 1
low_mask-half k = omega (arith, pow-suc 2 k)

-- A mask of `k` low bits keeps a word of `k` bits, and the remainder of any word.
bit_and-low_mask : (k a : ℕ) → a < 2 ^ k → bit_and a (2 ^ k - 1) ≡ a
bit_and-low_mask zero zero h = refl
bit_and-low_mask zero (suc a) h = absurd (omega arith)
bit_and-low_mask (suc k) a h =
    rw (and-digit a (2 ^ suc k - 1), low_mask-half k)
      (omega (arith, pow-suc 2 k, one-le-pow k 2, bit_and-low_mask k (a / 2) (half-fits k a h)))

-- A mask that fits the lower field does not see the upper one.
pub bit_and-low : (k r q m : ℕ) → r < 2 ^ k → m < 2 ^ k → bit_and (r + 2 ^ k * q) m ≡ bit_and r m
bit_and-low k r q m hr hm =
    ap (bit_and (r + 2 ^ k * q)) (omega arith)
    ∙ fields and-IsDigitwise k r q m 0 hr hm
    ∙ ap (λ (t : ℕ). bit_and r m + 2 ^ k * t) (bit_and-zero q)
    ∙ omega arith

pub bit_and-mask : (k a : ℕ) → bit_and a (2 ^ k - 1) ≡ a % 2 ^ k
bit_and-mask k a =
    subst (λ x. bit_and x (2 ^ k - 1) ≡ a % 2 ^ k) (mod-add-div a (2 ^ k))
      (bit_and-low k (a % 2 ^ k) (a / 2 ^ k) (2 ^ k - 1) (mod-pow-lt k a)
          (omega (arith, one-le-pow k 2))
        ∙ bit_and-low_mask k (a % 2 ^ k) (mod-pow-lt k a))
