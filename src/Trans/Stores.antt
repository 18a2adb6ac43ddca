-- ===== src/Trans/Stores.antt =====
-- Lists of stores of ASSN/ASSN4/trans.c: which indices they write, and with which values.
use native.Mathlib.Nat.{mod-eq_of_lt, div-eq_of_lt, mul-add-div_right, mul-add-mod_self_right}
use mathlib.Core.Path.{subst}
use csed.Prelude.{
  ℕ, zero, suc, ◌+◌, ◌*◌, ◌/◌, ◌%◌, ◌≤◌, ◌<◌, ◌≡◌, refl, ◌⊎◌, ◌∙◌, sym, ap, true, false, [], ◌∷◌,
  ◌++◌, arith, ◌==◌, if◌then◌else◌, inl, inr, All, Bool-cases,
}
use csed.Trans.{Matrix, Stores, store, for_up, for_down}

-- Some store writes the index.
abbrev pub Writes : ℕ → Stores → Type 0
Writes k [] = false ≡ true
Writes k ((q, v) ∷ ss) = ◌⊎◌ (q ≡ k) (Writes k ss)

-- Each store writes the value of `f` at its index.
abbrev pub Valued : (ℕ → ℕ) → Stores → Type 0
Valued f = All (λ (q, v). v ≡ f q)

module _ (f : ℕ → ℕ) where
  store-kept : (k : ℕ) (ss : Stores) (b : Matrix) → Valued f ss → b k ≡ f k → store ss b k ≡ f k
  unfolding store
  store-kept k [] b all h = h
  store-kept k ((q, v) ∷ ss) b all h = store-kept k ss _ all.1 (written (Bool-cases (k == q)))
    where
      written : ◌⊎◌ ((k == q) ≡ true) ((k == q) ≡ false) → (if k == q then v else b k) ≡ f k
      written (inl here) = let same : k ≡ q = ground arith in rw here (all.0 ∙ ap f (sym same))
      written (inr other) = rw other h

  pub store-Valued :
      (k : ℕ) (ss : Stores) (b : Matrix) → Valued f ss → Writes k ss → store ss b k ≡ f k
  unfolding store
  store-Valued k [] b all w = absurd (cc w)
  store-Valued k ((q, v) ∷ ss) b all (inr w) = store-Valued k ss _ all.1 w
  store-Valued k ((q, v) ∷ ss) b all (inl same) =
      let here : (k == q) ≡ true = ground (arith, same) in
      store-kept k ss _ all.1 (rw here (all.0 ∙ ap f same))

  pub Valued-append : (ss ts : Stores) → Valued f ss → Valued f ts → Valued f (ss ++ ts)
  Valued-append [] ts h k = k
  Valued-append (s ∷ ss) ts h k = (h.0, Valued-append ss ts h.1 k)

  pub Valued-for_up :
      (count lo : ℕ) (body : ℕ → Stores)
      → ((i : ℕ) → lo ≤ i → i < lo + count → Valued f (body i))
      → Valued f (for_up count lo body)
  unfolding for_up
  Valued-for_up zero lo body h = tt
  Valued-for_up (suc count) lo body h =
      Valued-append (body lo) (for_up count (lo + 1) body) (h lo (omega arith) (omega arith))
        (Valued-for_up count (lo + 1) body (λ i le lt. h i (omega arith) (omega arith)))

  pub Valued-for_down :
      (i : ℕ) (body : ℕ → Stores)
      → ((j : ℕ) → j ≤ i → Valued f (body j))
      → Valued f (for_down i body)
  unfolding for_down
  Valued-for_down zero body h = tt
  Valued-for_down (suc i) body h =
      Valued-append (body (suc i)) (for_down i body) (h (suc i) (omega arith))
        (Valued-for_down i body (λ j le. h j (omega arith)))

module _ (k : ℕ) where
  pub Writes-left : (ss ts : Stores) → Writes k ss → Writes k (ss ++ ts)
  Writes-left [] ts w = absurd (cc w)
  Writes-left (s ∷ ss) ts (inl same) = inl same
  Writes-left (s ∷ ss) ts (inr w) = inr (Writes-left ss ts w)

  pub Writes-right : (ss ts : Stores) → Writes k ts → Writes k (ss ++ ts)
  Writes-right [] ts w = w
  Writes-right (s ∷ ss) ts w = inr (Writes-right ss ts w)

  pub Writes-for_up :
      (count lo : ℕ) (body : ℕ → Stores) (i : ℕ)
      → lo ≤ i
      → i < lo + count
      → Writes k (body i)
      → Writes k (for_up count lo body)
  unfolding for_up
  Writes-for_up zero lo body i le lt w = absurd (omega arith)
  Writes-for_up (suc count) lo body i le lt w = elim (Bool-cases (i == lo)) [
    | inl here ↦
        Writes-left (body lo) (for_up count (lo + 1) body)
          (subst (λ j. Writes k (body j)) (ground arith) w)
    | inr later ↦
        Writes-right (body lo) (for_up count (lo + 1) body)
          (Writes-for_up count (lo + 1) body i (ground arith) (omega arith) w)
  ]

  pub Writes-for_down :
      (i : ℕ) (body : ℕ → Stores) (j : ℕ)
      → 0 < j
      → j ≤ i
      → Writes k (body j)
      → Writes k (for_down i body)
  unfolding for_down
  Writes-for_down zero body j pos le w = absurd (omega arith)
  Writes-for_down (suc i) body j pos le w = elim (Bool-cases (j == suc i)) [
    | inl here ↦
        Writes-left (body (suc i)) (for_down i body)
          (subst (λ x. Writes k (body x)) (ground arith) w)
    | inr later ↦
        Writes-right (body (suc i)) (for_down i body)
          (Writes-for_down i body j pos (ground arith) w)
  ]

-- The element that belongs at an index of the transposed matrix.
unfoldable pub transposed : ℕ → ℕ → Matrix → ℕ → ℕ
transposed m n a k = a (k % n * m + k / n)

pub transposed-at :
    (m n : ℕ) (a : Matrix) (r c : ℕ) → r < n → a (r * m + c) ≡ transposed m n a (c * n + r)
unfolding transposed
transposed-at m n a r c h =
    let row : (c * n + r) % n ≡ r = mul-add-mod_self_right c n r ∙ mod-eq_of_lt h in
    let none_over : r / n ≡ 0 = div-eq_of_lt h in
    let col : (c * n + r) / n ≡ c =
      mul-add-div_right (omega arith) c r ∙ omega (arith, none_over) in
    rw (row, col) refl
