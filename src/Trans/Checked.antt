-- ===== src/Trans/Checked.antt =====
-- `is_transpose` of ASSN/ASSN4/trans.c decides whether a matrix is the transposed one.
use csed.Prelude.{
  refl, zero, suc, true, false, ℕ, ◌+◌, ◌*◌, ◌≤◌, ◌<◌, ◌≡◌, ◌≢◌, ◌⊎◌, arith, ◌==◌, inl, inr, Bool,
  Bool-cases,
}
use csed.Trans.{for_all, is_transpose, Matrix}

-- What a loop of tests gives: all of them hold, or one does not.
abbrev Tested : ℕ → ℕ → (ℕ → Bool) → Bool → Type 0
Tested count lo test result =
    ◌⊎◌ ((result ≡ true) × ((i : ℕ) → lo ≤ i → i < lo + count → test i ≡ true))
      ((result ≡ false) × ((i : ℕ) × (lo ≤ i) × (i < lo + count) × (test i ≡ false)))

for_all-Tested : (count lo : ℕ) (test : ℕ → Bool) → Tested count lo test (for_all count lo test)
unfolding for_all
for_all-Tested zero lo test = inl (refl, λ i le lt. absurd (omega arith))
for_all-Tested (suc count) lo test = elim (Bool-cases (test lo)) [
  | inr bad ↦ rw bad (inr (refl, (lo, omega arith, omega arith, bad)))
  | inl good ↦ rw good (elim (for_all-Tested count (lo + 1) test) [
    | inr (failed, (i, le, lt, bad)) ↦ inr (failed, (i, omega arith, omega arith, bad))
    | inl (passed, all) ↦ inl (passed, λ i le lt. at_or_behind all i le lt good)
  ])
]
  where
    at_or_behind :
        ((i : ℕ) → lo + 1 ≤ i → i < lo + 1 + count → test i ≡ true)
        → (i : ℕ) → lo ≤ i
        → i < lo + suc count
        → test lo ≡ true
        → test i ≡ true
    at_or_behind all i le lt good = elim (Bool-cases (i == lo)) [
      | inl here ↦ let same : i ≡ lo = ground arith in rw same good
      | inr other ↦ all i (ground arith) (omega arith)
    ]

module _ (m n : ℕ) (a b : Matrix) where
  abbrev row_test : ℕ → Bool
  row_test i = for_all m 0 λ j. a (i * m + j) == b (j * n + i)

  -- For all sizes, is_transpose either accepts, and then every element of B is the one of A in the
  -- exchanged row and column, or refuses, and then one of them differs.
  pub is_transpose-Decided :
      ◌⊎◌
        ((is_transpose m n a b ≡ true)
          × ((r c : ℕ) → r < n → c < m → b (c * n + r) ≡ a (r * m + c)))
        ((is_transpose m n a b ≡ false)
          × ((r : ℕ) × (c : ℕ) × (r < n) × (c < m) × (b (c * n + r) ≢ a (r * m + c))))
  unfolding is_transpose
  is_transpose-Decided = elim (for_all-Tested n 0 row_test) [
    | inl (passed, rows) ↦
        inl (passed, λ r c hr hc. equal r c hc (rows r (omega arith) (omega arith)))
    | inr (failed, (r, le, lt, bad)) ↦
        elim (for_all-Tested m 0 (λ j. a (r * m + j) == b (j * n + r))) [
          | inl (good, _) ↦ cc
          | inr (_, (c, le', lt', differs)) ↦
              inr (failed, (r, c, omega arith, omega arith, λ same. unequal r c differs same))
        ]
  ]
    where
      equal : (r c : ℕ) → c < m → row_test r ≡ true → b (c * n + r) ≡ a (r * m + c)
      equal r c hc passed = elim (for_all-Tested m 0 (λ j. a (r * m + j) == b (j * n + r))) [
        | inl (_, all) ↦ let e = all c (omega arith) (omega arith) in ground (arith, e)
        | inr (bad, _) ↦ cc
      ]

      unequal : (r c : ℕ) → (a (r * m + c) == b (c * n + r)) ≡ false → b (c * n + r) ≢ a (r * m + c)
      unequal r c differs same = absurd (ground (arith, differs, same))
