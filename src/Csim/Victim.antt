-- ===== src/Csim/Victim.antt =====
-- The second loop of `cacheAccess` (ASSN/ASSN4/csim.c) chooses a block with the least counter.
use csed.Prelude.{
  ℕ, suc, ◌+◌, ◌-◌, ◌^◌, ◌≤◌, ◌<◌, ◌≡◌, refl, ◌⊎◌, inl, inr, some, List, [], ◌∷◌, arith, ltb,
  Bool-cases, get_elem?, All, All-get_elem?,
}
use csed.Csim.{Block, eviction_loop}
use csed.Prelude.Words.{u64_of_int}

-- What the loop compares.
abbrev key : Block → ℕ
key x = u64_of_int x.lru_count

-- The outcome `r` of the loop over `xs`, started at the index `idx` with a choice of key `lru`.
abbrev Chosen : ℕ → ℕ → ℕ → List Block → ℕ → Type 0
Chosen idx best lru xs r =
    (r ≡ best) × All (λ y. lru ≤ key y) xs
    ⊎ ((j : ℕ) × (x : Block) × (r ≡ idx + j)
        × (get_elem? xs j ≡ some x)
        × (key x < lru)
        × All (λ y. key x ≤ key y) xs)

Chosen-smaller :
    (idx best lru r : ℕ) (x : Block) (xs : List Block)
    → key x < lru
    → Chosen (idx + 1) idx (key x) xs r
    → Chosen idx best lru (x ∷ xs) r
Chosen-smaller idx best lru r x xs lt (inl (e, all)) =
    inr (0, x, omega arith, refl, lt, (omega arith, all))
Chosen-smaller idx best lru r x xs lt (inr (j, y, e, at, less, all)) =
    inr (suc j, y, omega arith, at, omega arith, (omega arith, all))

Chosen-other :
    (idx best lru r : ℕ) (x : Block) (xs : List Block)
    → lru ≤ key x
    → Chosen (idx + 1) best lru xs r
    → Chosen idx best lru (x ∷ xs) r
Chosen-other idx best lru r x xs le (inl (e, all)) = inl (e, (le, all))
Chosen-other idx best lru r x xs le (inr (j, y, e, at, less, all)) =
    inr (suc j, y, omega arith, at, less, (omega arith, all))

eviction_loop-Chosen :
    (idx best lru : ℕ) (xs : List Block) → Chosen idx best lru xs (eviction_loop idx best lru xs)
unfolding eviction_loop
eviction_loop-Chosen idx best lru [] = inl (refl, tt)
eviction_loop-Chosen idx best lru (x ∷ xs) = elim (Bool-cases (ltb (key x) lru)) [
  | inl less ↦ rw less (
      Chosen-smaller idx best lru _ x xs (ground arith)
        (eviction_loop-Chosen (idx + 1) idx (key x) xs))
  | inr other ↦
      rw other (
        Chosen-other idx best lru _ x xs (ground arith)
          (eviction_loop-Chosen (idx + 1) best lru xs))
]

abbrev pub victim : List Block → ℕ
victim = eviction_loop 0 0 (2 ^ 64 - 1)

key-small : (x : Block) → x.lru_count < 2 ^ 31 → key x ≡ x.lru_count
unfolding u64_of_int
key-small x h = ground arith

least :
    (x : Block) (xs : List Block)
    → x.lru_count < 2 ^ 31
    → All (λ y. y.lru_count < 2 ^ 31) xs
    → All (λ y. key x ≤ key y) xs
    → All (λ y. x.lru_count ≤ y.lru_count) xs
least x [] h small all = tt
least x (y ∷ xs) h small all =
    (omega (arith, key-small x h, key-small y small.0), least x xs h small.1 all.1)

-- In a set with a line the loop ends at a block whose counter no other block's is below.
pub victim-least :
    (x : Block) (xs : List Block)
    → All (λ y. y.lru_count < 2 ^ 31) (x ∷ xs)
    → (y : Block) × (get_elem? (x ∷ xs) (victim (x ∷ xs)) ≡ some y)
      × All (λ z. y.lru_count ≤ z.lru_count) (x ∷ xs)
victim-least x xs small =
    of_chosen (victim (x ∷ xs)) (eviction_loop-Chosen 0 0 (2 ^ 64 - 1) (x ∷ xs))
  where
    of_chosen :
        (r : ℕ)
        → Chosen 0 0 (2 ^ 64 - 1) (x ∷ xs) r
        → (y : Block) × (get_elem? (x ∷ xs) r ≡ some y)
          × All (λ z. y.lru_count ≤ z.lru_count) (x ∷ xs)
    of_chosen r (inl (e, all)) = absurd (omega (arith, key-small x small.0))
    of_chosen r (inr (j, y, e, at, less, all)) =
        let low : y.lru_count < 2 ^ 31 =
          All-get_elem? (λ z. z.lru_count < 2 ^ 31) (x ∷ xs) j small at in
        let same : r ≡ j = omega arith in (y, rw same at, least y (x ∷ xs) low small all)
