-- ===== src/Btest/Values.antt =====
-- The values that `gen_vals` of ASSN/ASSN1/btest.c stores for a function on `int`s.
use csed.Prelude.{
  ℕ, zero, suc, ◌+◌, ◌-◌, ◌*◌, ◌^◌, ◌≤◌, ◌<◌, ◌≡◌, inl, inr, arith, false, not, ◌&&◌, [], ◌∷◌, ◌++◌,
  length, All, All-append, length-append, Bool-cases,
}
use csed.Prelude.Words.{int_inc, int_lt, int_add, int_neg}
use csed.Btest.{int_sub, all_vals, if_between, sample_round, sample_vals}
use csed.Btest.Order.{rank, InRange, int_lt-rank, rank-int_add, rank-int_sub, rank-int_inc}

-- The values for functions on `int`s lie between the bounds.
module _ (min max : ℕ) (hmin : min < 2 ^ 32) (hmax : max < 2 ^ 32)
    (order : rank min ≤ rank max) where
  module _ (i : ℕ) (e : int_lt max i ≡ false) where
    not_above : rank i ≤ rank max
    not_above = ground (arith, int_lt-rank max i)

    next : rank max + 1 < 2 ^ 32 → (rank (int_inc i) ≡ rank i + 1) × (int_inc i < 2 ^ 32)
    next q = rank-int_inc i (omega (arith, not_above))

  pub all_vals-InRange :
      (fuel i : ℕ)
      → i < 2 ^ 32
      → rank min ≤ rank i
      → rank max + 1 < 2 ^ 32
      → All (InRange min max) (all_vals fuel max i)
  unfolding all_vals
  all_vals-InRange zero i fits p q = tt
  all_vals-InRange (suc fuel) i fits p q = elim (Bool-cases (int_lt max i)) [
    | inl e ↦ rw e tt
    | inr e ↦ rw e (
      record { fits = fits; above = p; below = not_above i e },
      all_vals-InRange fuel (int_inc i) (next i e q).1 (omega (arith, next i e q)) q,
    )
  ]

  pub length-all_vals :
      (fuel i : ℕ)
      → rank i ≤ rank max + 1
      → rank max + 1 < 2 ^ 32
      → rank max + 1 - rank i ≤ fuel
      → length (all_vals fuel max i) ≡ rank max + 1 - rank i
  unfolding all_vals
  length-all_vals zero i p q r = omega arith
  length-all_vals (suc fuel) i p q r = elim (Bool-cases (int_lt max i)) [
    | inl e ↦ rw e (ground (arith, int_lt-rank max i))
    | inr e ↦ rw e (
        omega (
          arith,
          not_above i e,
          next i e q,
          length-all_vals fuel (int_inc i) (omega (arith, not_above i e, next i e q)) q
              (omega (arith, not_above i e, next i e q)),
        ))
  ]

  between : (v : ℕ) → v < 2 ^ 32 → All (InRange min max) (if_between min max v)
  unfolding if_between
  between v h = elim (Bool-cases (not (int_lt v min) && not (int_lt max v))) [
    | inl e ↦ rw e (
      record {
        fits = h;
        above = ground (arith, int_lt-rank v min);
        below = ground (arith, int_lt-rank max v);
      },
      tt,
    )
    | inr e ↦ rw e tt
  ]

  length-if_between : (v : ℕ) → length (if_between min max v) ≤ 1
  unfolding if_between
  length-if_between v = ground arith

  module _ (random_val : ℕ → ℕ → ℕ → ℕ)
      (drawn : (k : ℕ) → InRange min max (random_val k min max)) where
    sample_round-InRange :
        (i : ℕ)
        → rank min + i ≤ rank max
        → All (InRange min max) (sample_round random_val min max i)
    unfolding sample_round
    sample_round-InRange i h = (
      low,
      (
        high,
        All-append _ _ _ (between i (omega arith))
            (All-append _ _ _ (between (int_neg i) (unfold int_neg in omega arith)) (drawn i, tt)),
      ),
    )
      where
        low : InRange min max (int_add min i)
        low = record {
          fits = (rank-int_add min i (omega arith)).1;
          above = omega (arith, rank-int_add min i (omega arith));
          below = omega (arith, rank-int_add min i (omega arith));
        }

        high : InRange min max (int_sub max i)
        high = record {
          fits = (rank-int_sub max i (omega arith) hmax).1;
          above = omega (arith, rank-int_sub max i (omega arith) hmax);
          below = omega (arith, rank-int_sub max i (omega arith) hmax);
        }

    length-sample_round : (i : ℕ) → length (sample_round random_val min max i) ≤ 5
    unfolding sample_round
    length-sample_round i = omega (
      arith,
      length-append {0} (if_between min max i)
          (if_between min max (int_neg i) ++ (random_val i min max ∷ [])),
      length-append {0} (if_between min max (int_neg i)) (random_val i min max ∷ []),
      length-if_between i,
      length-if_between (int_neg i),
    )

    pub sample_vals-InRange :
        (left i : ℕ)
        → rank min + i + left ≤ rank max
        → All (InRange min max) (sample_vals random_val min max left i)
    unfolding sample_vals
    sample_vals-InRange zero i h = tt
    sample_vals-InRange (suc left) i h =
        All-append _ (sample_round random_val min max i) _ (sample_round-InRange i (omega arith))
          (sample_vals-InRange left (i + 1) (omega arith))

    pub length-sample_vals :
        (left i : ℕ) → length (sample_vals random_val min max left i) ≤ 5 * left
    unfolding sample_vals
    length-sample_vals zero i = omega arith
    length-sample_vals (suc left) i = omega (
      arith,
      length-append {0} (sample_round random_val min max i)
          (sample_vals random_val min max left (i + 1)),
      length-sample_round i,
      length-sample_vals left (i + 1),
    )
