-- ===== src/Btest/FloatVals.antt =====
-- The values that `gen_vals` of ASSN/ASSN1/btest.c stores for a function on floats.
use Prim.Native.Nat.{bit_or}
use csed.Prelude.{
  ℕ, zero, suc, ◌+◌, ◌-◌, ◌*◌, ◌%◌, ◌^◌, ◌≤◌, ◌<◌, ◌≡◌, ◌≢◌, ◌⊎◌, inl, inr, refl, arith, length,
  All, All-append,
}
use csed.Prelude.Words.{int_add}
use csed.Bits.Floats.{exp_field, frac_field}
use csed.Bits.Twice.{subnormal_or}
use csed.Btest.{int_sub, float_round, special_vals, float_vals}

-- The values for functions on floats: `float_twice` is right on them.
pub record IsTested (u : ℕ) : Type 0 where
  pub fits : u < 2 ^ 32
  pub apart : (exp_field u ≢ 254) ⊎ (frac_field u ≡ 0)

with_sign : (f : ℕ) → f < 2 ^ 31 → bit_or 0x80000000 f ≡ 2 ^ 31 + f
with_sign f h = subnormal_or 1 f h

signed-IsTested : (f : ℕ) → f < 2 ^ 31 → IsTested f → IsTested (bit_or 0x80000000 f)
signed-IsTested f h t =
    rw (with_sign f h) (record { fits = omega arith; apart = ground (arith, t.apart) })

module _ (i : ℕ) (h : i < 2 ^ 23) where
  plain : IsTested i
  plain = record { fits = omega arith; apart = inl (omega arith) }

  above_norm : IsTested (int_add 0x00800000 i) × (int_add 0x00800000 i < 2 ^ 31)
  above_norm =
      unfold int_add in (record { fits = omega arith; apart = inl (omega arith) }, omega arith)

  below_norm : IsTested (int_sub 0x00800000 i) × (int_sub 0x00800000 i < 2 ^ 31)
  below_norm =
      unfold int_sub in (record { fits = omega arith; apart = inl (omega arith) }, omega arith)

  above_one : IsTested (int_add 0x3f800000 i) × (int_add 0x3f800000 i < 2 ^ 31)
  above_one =
      unfold int_add in (record { fits = omega arith; apart = inl (omega arith) }, omega arith)

  below_one : IsTested (int_sub 0x3f800000 i) × (int_sub 0x3f800000 i < 2 ^ 31)
  below_one =
      unfold int_sub in (record { fits = omega arith; apart = inl (omega arith) }, omega arith)

  below_largest : IsTested (int_sub 0x7f000000 i) × (int_sub 0x7f000000 i < 2 ^ 31)
  below_largest = unfold int_sub in (record { fits = omega arith; apart = at i h }, omega arith)
    where
      at :
          (k : ℕ)
          → k < 2 ^ 23
          → (exp_field ((0x7f000000 + 2 ^ 32 - k) % 2 ^ 32) ≢ 254)
            ⊎ (frac_field ((0x7f000000 + 2 ^ 32 - k) % 2 ^ 32) ≡ 0)
      at zero p = inr refl
      at (suc k) p = inl (omega arith)

  float_round-IsTested : All IsTested (float_round i)
  float_round-IsTested = (
    plain,
    (
      signed-IsTested i (omega arith) plain,
      (
        above_norm.0,
        (
          below_norm.0,
          (
            signed-IsTested _ above_norm.1 above_norm.0,
            (
              signed-IsTested _ below_norm.1 below_norm.0,
              (
                above_one.0,
                (
                  below_one.0,
                  (
                    signed-IsTested _ above_one.1 above_one.0,
                    (
                      signed-IsTested _ below_one.1 below_one.0,
                      (below_largest.0, (signed-IsTested _ below_largest.1 below_largest.0, tt)),
                    ),
                  ),
                ),
              ),
            ),
          ),
        ),
      ),
    ),
  )

special_vals-IsTested : All IsTested special_vals
special_vals-IsTested = (
  at 0x7f800000 (omega arith) (omega arith),
  (
    at 0xff800000 (omega arith) (omega arith),
    (at 0x7fc00000 (omega arith) (omega arith), (at 0xffc00000 (omega arith) (omega arith), tt)),
  ),
)
  where
    at : (u : ℕ) → u < 2 ^ 32 → exp_field u ≢ 254 → IsTested u
    at u p q = record { fits = p; apart = inl q }

pub float_vals-IsTested : (left i : ℕ) → i + left ≤ 2 ^ 23 → All IsTested (float_vals left i)
unfolding float_vals
float_vals-IsTested zero i h = special_vals-IsTested
float_vals-IsTested (suc left) i h =
    All-append IsTested (float_round i) _ (float_round-IsTested i (omega arith))
      (float_vals-IsTested left (i + 1) (omega arith))

pub length-float_vals : (left i : ℕ) → length (float_vals left i) ≡ 12 * left + 4
unfolding float_vals
length-float_vals zero i = refl
length-float_vals (suc left) i = omega (arith, length-float_vals left (i + 1))
