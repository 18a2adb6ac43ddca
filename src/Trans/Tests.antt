-- ===== src/Trans/Tests.antt =====
-- Runs of the transpositions of ASSN/ASSN4/trans.c, and the theorem at them.
use csed.Prelude.{ℕ, true, false, ◌⊎◌, ◌<◌, ◌≢◌, ◌+◌, ◌*◌, ◌≡◌, refl, arith}
use csed.Trans.{
  is_transpose, Matrix, store, for_up, for_down, trans, blocking_diag, blocking, four, blocking_64,
  transpose_submit,
}
use csed.Trans.Submit.{transpose_submit-transposed}
use csed.Trans.Checked.{is_transpose-Decided}

program : Unit {0}
unfolding store for_up for_down trans blocking_diag blocking four blocking_64 transpose_submit
program = tt

abbrev numbered : Matrix
numbered k = k + 1000

abbrev zeroes : Matrix
zeroes k = 0

transpose_submit-transposed_example :
    (store (transpose_submit 61 67 numbered) zeroes (60 * 67 + 66) ≡ numbered (66 * 61 + 60))
    × (store (trans 61 67 numbered) zeroes (60 * 67 + 66) ≡ numbered (66 * 61 + 60))
transpose_submit-transposed_example =
    transpose_submit-transposed 61 67 numbered zeroes 66 60 (omega arith) (omega arith)

-- A matrix of 3 rows and 2 columns: the store of the diagonal is made also in the row 2, which
-- `B` does not have. Its elements are at the indices below 6.
behind_the_end : store (transpose_submit 2 3 numbered) zeroes 8 ≡ 1006
unfolding program
behind_the_end = refl

-- No matrix of zeroes is the transposed one.
is_transpose-Decided_example :
    ◌⊎◌
      ((is_transpose 2 3 numbered zeroes ≡ true)
        × ((r c : ℕ) → r < 3 → c < 2 → zeroes (c * 3 + r) ≡ numbered (r * 2 + c)))
      ((is_transpose 2 3 numbered zeroes ≡ false)
        × ((r : ℕ) × (c : ℕ) × (r < 3) × (c < 2) × (zeroes (c * 3 + r) ≢ numbered (r * 2 + c))))
is_transpose-Decided_example = is_transpose-Decided 2 3 numbered zeroes
