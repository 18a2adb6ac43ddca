-- ===== src/Trans/Transposed.antt =====
-- Every transposition of ASSN/ASSN4/trans.c stores the transposed matrix.
use Prim.Native.Nat.{min}
use mathlib.Core.Path.{subst}
use csed.Prelude.{
  ℕ, zero, suc, ◌+◌, ◌-◌, ◌*◌, ◌≤◌, ◌<◌, refl, ap, [], ◌∷◌, ◌++◌, arith, ◌==◌, ltb, if◌then◌else◌,
  inl, inr, Bool-cases,
}
use csed.Trans.{
  Matrix, Stores, for_up, for_down, move, trans, blocking_diag, blocking, four, blocking_64,
}
use csed.Trans.Stores.{
  Writes, Valued, Valued-append, Valued-for_up, Valued-for_down, Writes-left, Writes-right,
  Writes-for_up, Writes-for_down, transposed, transposed-at,
}

module _ (m n : ℕ) (a : Matrix) where
  abbrev pub Right : Stores → Type 0
  Right = Valued (transposed m n a)

  -- The block at `(row0, col0)` is written.
  abbrev pub Covers : ℕ → ℕ → Stores → Type 0
  Covers row0 col0 ss =
      (r c : ℕ)
      → r < n
      → c < m
      → row0 ≤ r
      → r < row0 + 8
      → col0 ≤ c
      → c < col0 + 8
      → Writes (c * n + r) ss

  moved : (r c : ℕ) → r < n → Right (move m n a r c ∷ [])
  moved r c h = (transposed-at m n a r c h, tt)

  pub trans-Right : Right (trans m n a)
  unfolding trans
  trans-Right =
      Valued-for_up _ n 0 _ λ i le lt. Valued-for_up _ m 0 _ λ j le' lt'. moved i j (omega arith)

  pub trans-Writes : (r c : ℕ) → r < n → c < m → Writes (c * n + r) (trans m n a)
  unfolding trans
  trans-Writes r c hr hc =
      Writes-for_up _ n 0 _ r (omega arith) (omega arith)
        (Writes-for_up _ m 0 _ c (omega arith) (omega arith) (inl refl))

  diag_inner : (row col : ℕ) → row < n → Right (if row == col then [] else move m n a row col ∷ [])
  diag_inner row col h = elim (Bool-cases (row == col)) [
    | inl same ↦ rw same tt
    | inr other ↦ rw other (moved row col h)
  ]

  blocking_diag-Right : (row0 col0 : ℕ) → Right (blocking_diag m n a row0 col0)
  unfolding blocking_diag
  blocking_diag-Right row0 col0 = Valued-for_up _ (min 8 (n - row0)) row0 _ λ row le lt.
      Valued-append _ (for_up (min 8 (m - col0)) col0 _) (move m n a row row ∷ [])
        (Valued-for_up _ (min 8 (m - col0)) col0 _ λ col le' lt'. diag_inner row col (omega arith))
        (moved row row (omega arith))

  blocking_diag-Covers : (row0 col0 : ℕ) → Covers row0 col0 (blocking_diag m n a row0 col0)
  unfolding blocking_diag
  blocking_diag-Covers row0 col0 r c hr hc lo hi lo' hi' =
      Writes-for_up _ (min 8 (n - row0)) row0 _ r lo (omega arith) (elim (Bool-cases (r == c)) [
        | inl same ↦
            Writes-right _ (for_up (min 8 (m - col0)) col0 _) (move m n a r r ∷ [])
              (inl (ap (λ x. x * n + r) (ground arith)))
        | inr other ↦
            Writes-left _ (for_up (min 8 (m - col0)) col0 _) (move m n a r r ∷ [])
              (Writes-for_up _ (min 8 (m - col0)) col0 _ c lo' (omega arith) (rw other (inl refl)))
      ])

  pub blocking-Right : (row0 col0 : ℕ) → Right (blocking m n a row0 col0)
  unfolding blocking
  blocking-Right row0 col0 = elim (Bool-cases (row0 == col0)) [
    | inl diag ↦ rw diag (blocking_diag-Right row0 col0)
    | inr other ↦ rw other (
        Valued-for_up _ (min 8 (m - col0)) col0 _ λ row le lt.
          Valued-for_up _ (min 8 (n - row0)) row0 _ λ col le' lt'. moved col row (omega arith))
  ]

  pub blocking-Covers : (row0 col0 : ℕ) → Covers row0 col0 (blocking m n a row0 col0)
  unfolding blocking
  blocking-Covers row0 col0 r c hr hc lo hi lo' hi' = elim (Bool-cases (row0 == col0)) [
    | inl diag ↦ rw diag (blocking_diag-Covers row0 col0 r c hr hc lo hi lo' hi')
    | inr other ↦ rw other (
        Writes-for_up _ (min 8 (m - col0)) col0 _ c lo' (omega arith)
          (Writes-for_up _ (min 8 (n - row0)) row0 _ r lo (omega arith) (inl refl)))
  ]

  four-Right : (r c : ℕ) → r < n → Right (four m n a r c)
  unfolding four
  four-Right r c h = (
    transposed-at m n a r c h,
    (
      transposed-at m n a r (c + 1) h,
      (transposed-at m n a r (c + 2) h, (transposed-at m n a r (c + 3) h, tt)),
    ),
  )

  four-Writes : (r c d : ℕ) → c ≤ d → d < c + 4 → Writes (d * n + r) (four m n a r c)
  unfolding four
  four-Writes r c d le lt = elim (Bool-cases (d == c)) [
    | inl e ↦ inl (ap at (ground arith))
    | inr e ↦ elim (Bool-cases (d == c + 1)) [
      | inl e' ↦ inr (inl (ap at (ground arith)))
      | inr e' ↦ elim (Bool-cases (d == c + 2)) [
        | inl e'' ↦ inr (inr (inl (ap at (ground arith))))
        | inr e'' ↦ inr (inr (inr (inl (ap at (ground arith)))))
      ]
    ]
  ]
    where
      at : ℕ → ℕ
      at x = x * n + r

  module _ (row0 col0 : ℕ) (inside : row0 + 8 ≤ n) where
    abbrev left : Stores
    left = for_up 8 0 (λ i. four m n a (row0 + i) col0)

    abbrev right : Stores
    right = for_down 7 (λ i. four m n a (row0 + i) (col0 + 4))

    abbrev top : Stores
    top = four m n a row0 (col0 + 4)

    pub blocking_64-Right : Right (blocking_64 m n a row0 col0)
    unfolding blocking_64
    blocking_64-Right =
        Valued-append _ left (right ++ top)
          (Valued-for_up _ 8 0 _ λ i le lt. four-Right (row0 + i) col0 (omega arith))
          (Valued-append _ right top
            (Valued-for_down _ 7 _ λ i le. four-Right (row0 + i) (col0 + 4) (omega arith))
            (four-Right row0 (col0 + 4) (omega arith)))

    -- The row `row0 + i` of the block.
    row_at :
        (i c : ℕ)
        → i < 8
        → col0 ≤ c
        → c < col0 + 8
        → Writes (c * n + (row0 + i)) (blocking_64 m n a row0 col0)
    unfolding blocking_64
    row_at zero c hi lo' hi' = elim (Bool-cases (ltb c (col0 + 4))) [
      | inl west ↦ Writes-left _ left (right ++ top) (
          Writes-for_up _ 8 0 _ 0 (omega arith) (omega arith)
            (four-Writes (row0 + 0) col0 c lo' (ground arith)))
      | inr east ↦ Writes-right _ left (right ++ top) (
          Writes-right _ right top (
            subst (λ x. Writes (c * n + x) top) (omega arith)
              (four-Writes row0 (col0 + 4) c (ground arith) (omega arith))))
    ]
    row_at (suc i) c hi lo' hi' = elim (Bool-cases (ltb c (col0 + 4))) [
      | inl west ↦ Writes-left _ left (right ++ top) (
          Writes-for_up _ 8 0 _ (suc i) (omega arith) (omega arith)
            (four-Writes (row0 + suc i) col0 c lo' (ground arith)))
      | inr east ↦ Writes-right _ left (right ++ top) (
          Writes-left _ right top (
            Writes-for_down _ 7 _ (suc i) (omega arith) (omega arith)
              (four-Writes (row0 + suc i) (col0 + 4) c (ground arith) (omega arith))))
    ]

    pub blocking_64-Covers : Covers row0 col0 (blocking_64 m n a row0 col0)
    blocking_64-Covers r c hr hc lo hi lo' hi' =
        subst (λ x. Writes (c * n + x) (blocking_64 m n a row0 col0)) (omega arith)
          (row_at (r - row0) c (omega arith) lo' hi')
