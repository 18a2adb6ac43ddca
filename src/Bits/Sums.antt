-- ===== src/Bits/Sums.antt =====
-- Sums of the fields of a word: what a round of `bitCount` of ASSN/ASSN1/bits.c does to fields of
-- `w` bits, and the number that it keeps.
use Prim.Native.Nat.{bit_and, ◌∣◌}
use mathlib.Core.Path.{subst}
use native.Mathlib.Nat.{
  zero-add, dvd-mul_right, one-le-pow, mul_comm, pow-le-pow_right, div-eq_of_lt, mod-eq_of_lt,
  add-mul-div_left, add-mul-mod_self_left, div-div-eq-div-mul, mod-mod_of_dvd, mod-add-div,
}
use csed.Prelude.{
  ℕ, zero, suc, ◌+◌, ◌-◌, ◌*◌, ◌/◌, ◌%◌, ◌^◌, ◌≤◌, ◌<◌, ◌≡◌, refl, sym, ap, ◌∙◌, arith,
}
use csed.Prelude.Digits.{and-IsDigitwise, fields, pow_add, mod-pow-lt}
use csed.Prelude.Masks.{bit_and-mask, bit_and-zero}

-- The sum of the lowest `n` fields of `w` bits.
unfoldable pub sum_fields : ℕ → ℕ → ℕ → ℕ
sum_fields w zero x = 0
sum_fields w (suc n) x = x % 2 ^ w + sum_fields w n (x / 2 ^ w)

-- A word of `n` fields of `w + w` bits, each the sum of two neighbours of `x`.
unfoldable pub pair_sums : ℕ → ℕ → ℕ → ℕ
pair_sums w zero x = 0
pair_sums w (suc n) x =
    x % 2 ^ w + x / 2 ^ w % 2 ^ w + 2 ^ (w + w) * pair_sums w n (x / 2 ^ (w + w))

-- The word whose `n` fields of `w + w` bits are `w` ones.
unfoldable pub low_halves : ℕ → ℕ → ℕ
low_halves w zero = 0
low_halves w (suc n) = 2 ^ w - 1 + 2 ^ (w + w) * low_halves w n

module _ (w : ℕ) where
  square : 2 ^ (w + w) ≡ 2 ^ w * 2 ^ w
  square = sym (pow_add w w)

  positive : 1 ≤ 2 ^ w
  positive = one-le-pow w 2 (omega arith)

  narrow : 2 ^ w ≤ 2 ^ (w + w)
  narrow = grind (arith, square, positive)

  div-twice : (x : ℕ) → x / 2 ^ w / 2 ^ w ≡ x / 2 ^ (w + w)
  div-twice x = div-div-eq-div-mul x (2 ^ w) (2 ^ w) ∙ ap (λ (t : ℕ). x / t) (pow_add w w)

  div-swap : (x : ℕ) → x / 2 ^ w / 2 ^ (w + w) ≡ x / 2 ^ (w + w) / 2 ^ w
  div-swap x =
      div-div-eq-div-mul x (2 ^ w) (2 ^ (w + w))
      ∙ ap (λ (t : ℕ). x / t) (mul_comm (2 ^ w) (2 ^ (w + w)))
      ∙ sym (div-div-eq-div-mul x (2 ^ (w + w)) (2 ^ w))

  mod-narrow : (x : ℕ) → x % 2 ^ (w + w) % 2 ^ w ≡ x % 2 ^ w
  mod-narrow x =
      mod-mod_of_dvd (2 ^ w) x
        (subst (λ t. 2 ^ w ∣ t) (pow_add w w) (dvd-mul_right (2 ^ w) (2 ^ w)))

  -- `&` with the mask keeps the lower half of each field.
  and-low_halves :
      (n x : ℕ)
      → bit_and x (low_halves w (suc n))
        ≡ x % 2 ^ w + 2 ^ (w + w) * bit_and (x / 2 ^ (w + w)) (low_halves w n)
  unfolding low_halves
  and-low_halves n x =
      ap (λ (t : ℕ). bit_and t (low_halves w (suc n))) (sym (mod-add-div x (2 ^ (w + w))))
      ∙ fields and-IsDigitwise (w + w) (x % 2 ^ (w + w)) (x / 2 ^ (w + w)) (2 ^ w - 1)
          (low_halves w n) (mod-pow-lt (w + w) x) (omega (arith, positive, narrow))
      ∙ ap (λ (t : ℕ). t + 2 ^ (w + w) * bit_and (x / 2 ^ (w + w)) (low_halves w n))
          (bit_and-mask w (x % 2 ^ (w + w)) ∙ mod-narrow x)

  abbrev neighbours : ℕ → ℕ
  neighbours x = x % 2 ^ w + x / 2 ^ w % 2 ^ w

  pair_sums-suc :
      (n x : ℕ)
      → pair_sums w (suc n) x ≡ neighbours x + 2 ^ (w + w) * pair_sums w n (x / 2 ^ (w + w))
  unfolding pair_sums
  pair_sums-suc n x = refl

  pub pair_sums-eq :
      (n x : ℕ)
      → bit_and x (low_halves w n) + bit_and (x / 2 ^ w) (low_halves w n) ≡ pair_sums w n x
  pair_sums-eq zero x =
      unfold pair_sums low_halves in omega (arith, bit_and-zero x, bit_and-zero (x / 2 ^ w))
  pair_sums-eq (suc n) x =
      rw
        (
          pair_sums-suc n x,
          and-low_halves n x,
          and-low_halves n (x / 2 ^ w),
          div-swap x,
          ← pair_sums-eq n (x / 2 ^ (w + w)),
        )
        (grind arith)

  neighbours-lt : (x : ℕ) → 1 ≤ w → neighbours x < 2 ^ (w + w)
  neighbours-lt x h = grind (arith, square, two_le, mod-pow-lt w x, mod-pow-lt w (x / 2 ^ w))
    where
      two_le : 2 ≤ 2 ^ w
      two_le = pow-le-pow_right {n = 2} (omega arith) {i = 1} {j = w} h

  two_fields :
      (m x : ℕ) → sum_fields w (suc (suc m)) x ≡ neighbours x + sum_fields w m (x / 2 ^ (w + w))
  two_fields m x = unfold sum_fields in rw (div-twice x) (omega arith)

  sum_fields-field :
      (n s r : ℕ)
      → s < 2 ^ (w + w)
      → sum_fields (w + w) (suc n) (s + 2 ^ (w + w) * r) ≡ s + sum_fields (w + w) n r
  sum_fields-field n s r hs =
      unfold sum_fields in
      rw
        (
          add-mul-mod_self_left s (2 ^ (w + w)) r,
          add-mul-div_left s r (one-le-pow (w + w) 2 (omega arith)),
          div-eq_of_lt hs,
          mod-eq_of_lt hs,
          zero-add,
        )
        refl

  -- A round adds two neighbours, so the sum of all fields stays.
  pub sum_fields-pair_sums :
      (n x : ℕ) → 1 ≤ w → sum_fields (w + w) n (pair_sums w n x) ≡ sum_fields w (n * 2) x
  sum_fields-pair_sums zero x h = unfold sum_fields pair_sums in refl
  sum_fields-pair_sums (suc n) x h =
      ap (sum_fields (w + w) (suc n)) (pair_sums-suc n x)
      ∙ sum_fields-field n (neighbours x) (pair_sums w n (x / 2 ^ (w + w))) (neighbours-lt x h)
      ∙ ap (λ (t : ℕ). neighbours x + t) (sum_fields-pair_sums n (x / 2 ^ (w + w)) h)
      ∙ sym (two_fields (n * 2) x)
      ∙ ap (λ (m : ℕ). sum_fields w m x) (omega arith)
