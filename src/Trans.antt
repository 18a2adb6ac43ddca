-- ===== src/Trans.antt =====
-- The transpositions of ASSN/ASSN4/trans.c. A matrix is the memory of its array: the element of
-- the row `r` and the column `c` of `A[N][M]` stands at `r * M + c`, also where `c` is not below
-- `M`. A function is the list of its stores to `B`, in their order; `A` does not change.
pub mod Stores
pub mod Transposed
pub mod Submit
pub mod Checked
mod Tests
use Prim.Native.Nat.{min}
use csed.Prelude.{
  ℕ, zero, suc, ◌+◌, ◌-◌, ◌*◌, ◌/◌, Bool, true, false, ◌&&◌, List, [], ◌∷◌, ◌++◌, ◌==◌,
  if◌then◌else◌,
}

abbrev pub Matrix : Type 0
Matrix = ℕ → ℕ

abbrev pub Stores : Type 0
Stores = List (ℕ × ℕ)

unfoldable pub store : Stores → Matrix → Matrix
store [] b = b
store ((k, v) ∷ ss) b = store ss (λ q. if q == k then v else b q)

-- `for (i = lo; …; ++i)` with `count` rounds, and `for (i = hi; i > 0; --i)`.
unfoldable pub for_up : ℕ → ℕ → (ℕ → Stores) → Stores
for_up zero lo body = []
for_up (suc count) lo body = body lo ++ for_up count (lo + 1) body

unfoldable pub for_down : ℕ → (ℕ → Stores) → Stores
for_down zero body = []
for_down (suc i) body = body (suc i) ++ for_down i body

-- `for (i = lo; …; ++i) if (!test) return 0;` with `count` rounds.
unfoldable pub for_all : ℕ → ℕ → (ℕ → Bool) → Bool
for_all zero lo test = true
for_all (suc count) lo test = test lo && for_all count (lo + 1) test

module _ (m n : ℕ) (a : Matrix) where
  -- `B[c][r] = A[r][c]`.
  abbrev pub move : ℕ → ℕ → ℕ × ℕ
  move r c = (c * n + r, a (r * m + c))

  unfoldable pub trans : Stores
  trans = for_up n 0 λ i. for_up m 0 λ j. move i j ∷ []

  unfoldable pub blocking_diag : ℕ → ℕ → Stores
  blocking_diag row0 col0 = for_up (min 8 (n - row0)) row0 λ row.
      for_up (min 8 (m - col0)) col0 (λ col. if row == col then [] else move row col ∷ [])
      ++ move row row ∷ []

  unfoldable pub blocking : ℕ → ℕ → Stores
  blocking row0 col0 =
      if row0 == col0
      then blocking_diag row0 col0
      else for_up (min 8 (m - col0)) col0
          λ row. for_up (min 8 (n - row0)) row0 λ col. move col row ∷ []

  -- The stores of a row of four elements.
  unfoldable pub four : ℕ → ℕ → Stores
  four r c = move r c ∷ move r (c + 1) ∷ move r (c + 2) ∷ move r (c + 3) ∷ []

  unfoldable pub blocking_64 : ℕ → ℕ → Stores
  blocking_64 row0 col0 =
      for_up 8 0 (λ i. four (row0 + i) col0)
      ++ (for_down 7 (λ i. four (row0 + i) (col0 + 4)) ++ four row0 (col0 + 4))

  unfoldable pub transpose_submit : Stores
  transpose_submit = for_up ((n + 7) / 8) 0 λ i.
      for_up ((m + 7) / 8) 0
        λ j. if m == 64 && n == 64 then blocking_64 (8 * i) (8 * j) else blocking (8 * i) (8 * j)

  -- Both loops of `is_transpose`, for the test of one element.
  unfoldable pub is_transpose : Matrix → Bool
  is_transpose b = for_all n 0 λ i. for_all m 0 λ j. a (i * m + j) == b (j * n + i)
