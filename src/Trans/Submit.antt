-- ===== src/Trans/Submit.antt =====
-- The functions of ASSN/ASSN4/trans.c that the driver calls store the transposed matrix.
use csed.Prelude.{
  ℕ, ◌+◌, ◌*◌, ◌/◌, ◌<◌, ◌≡◌, ◌∙◌, sym, Bool, ◌&&◌, arith, ◌==◌, if◌then◌else◌, inl, inr,
  Bool-cases,
}
use csed.Trans.{Matrix, Stores, store, trans, blocking, blocking_64, transpose_submit}
use csed.Trans.Stores.{Writes, store-Valued, Valued-for_up, Writes-for_up, transposed-at}
use csed.Trans.Transposed.{
  Right, Covers, trans-Right, trans-Writes, blocking-Right, blocking-Covers, blocking_64-Right,
  blocking_64-Covers,
}

module _ (m n : ℕ) (a : Matrix) where
  abbrev is_64 : Bool
  is_64 = m == 64 && n == 64

  abbrev tile : ℕ → ℕ → Stores
  tile i j = if is_64 then blocking_64 m n a (8 * i) (8 * j) else blocking m n a (8 * i) (8 * j)

  tile-Right : (i j : ℕ) → i < (n + 7) / 8 → Right m n a (tile i j)
  tile-Right i j h = elim (Bool-cases is_64) [
    | inl large ↦ rw large (blocking_64-Right m n a (8 * i) (8 * j) (ground arith))
    | inr other ↦ rw other (blocking-Right m n a (8 * i) (8 * j))
  ]

  tile-Covers : (i j : ℕ) → i < (n + 7) / 8 → Covers m n a (8 * i) (8 * j) (tile i j)
  tile-Covers i j h r c hr hc lo hi lo' hi' = elim (Bool-cases is_64) [
    | inl large ↦
        rw large (blocking_64-Covers m n a (8 * i) (8 * j) (ground arith) r c hr hc lo hi lo' hi')
    | inr other ↦ rw other (blocking-Covers m n a (8 * i) (8 * j) r c hr hc lo hi lo' hi')
  ]

  transpose_submit-Right : Right m n a (transpose_submit m n a)
  unfolding transpose_submit
  transpose_submit-Right =
      Valued-for_up _ ((n + 7) / 8) 0 _
        λ i le lt. Valued-for_up _ ((m + 7) / 8) 0 _ λ j le' lt'. tile-Right i j (omega arith)

  transpose_submit-Writes : (r c : ℕ) → r < n → c < m → Writes (c * n + r) (transpose_submit m n a)
  unfolding transpose_submit
  transpose_submit-Writes r c hr hc =
      Writes-for_up _ ((n + 7) / 8) 0 _ (r / 8) (omega arith) (omega arith) (
        Writes-for_up _ ((m + 7) / 8) 0 _ (c / 8) (omega arith) (omega arith) (
          tile-Covers (r / 8) (c / 8) (omega arith) r c hr hc (omega arith) (omega arith)
            (omega arith) (omega arith)))

  -- For all sizes, behind `transpose_submit`, and behind `trans`, the element of `B` in the row `c`
  -- and the column `r` is the one of `A` in the row `r` and the column `c`, whatever `B` held.
  pub transpose_submit-transposed :
      (b : Matrix) (r c : ℕ)
      → r < n
      → c < m
      → (store (transpose_submit m n a) b (c * n + r) ≡ a (r * m + c))
        × (store (trans m n a) b (c * n + r) ≡ a (r * m + c))
  transpose_submit-transposed b r c hr hc =
      let value = sym (transposed-at m n a r c hr) in
      (
        store-Valued _ (c * n + r) (transpose_submit m n a) b transpose_submit-Right
              (transpose_submit-Writes r c hr hc)
            ∙ value,
        store-Valued _ (c * n + r) (trans m n a) b (trans-Right m n a)
              (trans-Writes m n a r c hr hc)
            ∙ value,
      )
