-- ===== src/Lab11/Best.antt =====
-- `best` of Lab/LAB11/lab11.c chooses a smallest block that has room.
use mathlib.Core.Option
use mathlib.Core.Option.{some-injective}
use mathlib.Core.Path.{subst}
use csed.Prelude.{
  ℕ, zero, suc, ◌+◌, ◌≤◌, ◌<◌, ◌≡◌, refl, ◌⊎◌, ◌∙◌, sym, ap, Bool, true, false, ◌&&◌, Option, none,
  some, List, [], ◌∷◌, arith, ltb, leb, if◌then◌else◌, inl, inr, Bool-cases, get_elem?, All,
}
use csed.Lab11.{best_block, choose_best}
use csed.Lab11.Choice.{Full}

abbrev Choice : Type 0
Choice = Option (ℕ × ℕ)

-- The chosen block is no larger than `n`.
abbrev AtMost : ℕ → Choice → Type 0
AtMost n none = false ≡ true
AtMost n (some (i, x)) = x ≤ n

abbrev is_better : ℕ → Choice → Bool
is_better x none = true
is_better x (some (i, y)) = ltb x y

-- The size is below the one of the chosen block.
abbrev Beats : ℕ → Choice → Type 0
Beats x old = (n : ℕ) → AtMost n old → x < n

-- Every block before the index `i` that has room is larger than `x`.
abbrev pub LargerBefore : ℕ → ℕ → ℕ → List ℕ → Type 0
LargerBefore size x i xs = (j y : ℕ) → j < i → get_elem? xs j ≡ some y → size ≤ y → x < y

-- The loop over `xs`, whose first index is `k`, from the choice `old`.
record Looped (size k : ℕ) (xs : List ℕ) (old new : Choice) : Type 0 where
  origin : ◌⊎◌ (new ≡ old) (
      (i : ℕ) × (x : ℕ) × (new ≡ some (k + i, x))
      × (get_elem? xs i ≡ some x)
      × (size ≤ x)
      × Beats x old
      × LargerBefore size x i xs)
  as_good : (n : ℕ) → AtMost n old → AtMost n new
  least : All (λ x. size ≤ x → AtMost x new) xs

abbrev next_choice : ℕ → ℕ → ℕ → Choice → Choice
next_choice size k x old = if leb size x && is_better x old then some (k, x) else old

is_better-false : (x : ℕ) (old : Choice) → is_better x old ≡ false → AtMost x old
is_better-false x none h = sym h
is_better-false x (some (i, y)) h = ground arith

is_better-true : (x n : ℕ) (old : Choice) → is_better x old ≡ true → AtMost n old → x < n
is_better-true x n none h m = absurd (cc m)
is_better-true x n (some (i, y)) h m = ground arith

module _ (size k x : ℕ) (xs : List ℕ) (old new : Choice)
    (l : Looped size (k + 1) xs (next_choice size k x old) new) where
  next_choice-AtMost : (n : ℕ) → AtMost n old → AtMost n (next_choice size k x old)
  next_choice-AtMost n m = elim (Bool-cases (leb size x && is_better x old)) [
    | inl taken ↦
        let less = is_better-true x n old (ground arith) m in rw taken (omega (arith, less))
    | inr kept ↦ rw kept m
  ]

  next_choice-least : size ≤ x → AtMost x (next_choice size k x old)
  next_choice-least room =
      let fits : leb size x ≡ true = ground arith in
      elim (Bool-cases (is_better x old)) [
        | inl taken ↦ rw (fits, taken) (omega arith)
        | inr kept ↦ rw (fits, kept) (is_better-false x old kept)
      ]

  larger_cons :
      (y i : ℕ)
      → Beats y (next_choice size k x old)
      → LargerBefore size y i xs
      → LargerBefore size y (suc i) (x ∷ xs)
  larger_cons y i beats larger zero z lt at room =
      let same : x ≡ z = some-injective _ _ at in
      subst (λ (w : ℕ). y < w) same (beats x (next_choice-least (omega arith)))
  larger_cons y i beats larger (suc j) z lt at room = larger j z (omega arith) at room

  cons_origin : ◌⊎◌ (new ≡ old) (
      (i : ℕ) × (y : ℕ) × (new ≡ some (k + i, y))
      × (get_elem? (x ∷ xs) i ≡ some y)
      × (size ≤ y)
      × Beats y old
      × LargerBefore size y i (x ∷ xs))
  cons_origin = elim l.origin [
    | inr (i, y, e, at, room, beats, larger) ↦ inr (
      suc i,
      y,
      e ∙ ap (λ j. some (j, y)) (omega arith),
      at,
      room,
      λ n m. beats n (next_choice-AtMost n m),
      larger_cons y i beats larger,
    )
    | inl same ↦ elim (Bool-cases (leb size x && is_better x old)) [
      | inl taken ↦ inr (
        0,
        x,
        (rw taken at same) ∙ ap (λ j. some (j, x)) (omega arith),
        refl,
        ground arith,
        λ n m. is_better-true x n old (ground arith) m,
        λ j y lt. absurd (omega arith),
      )
      | inr kept ↦ inl (rw kept at same)
    ]
  ]

  Looped-cons : Looped size k (x ∷ xs) old new
  Looped-cons = record {
    origin = cons_origin;
    as_good = λ n m. l.as_good n (next_choice-AtMost n m);
    least = (λ room. l.as_good x (next_choice-least room), l.least);
  }

best_block-step :
    (size k x : ℕ) (xs : List ℕ) (old : Choice)
    → best_block size k old (x ∷ xs) ≡ best_block size (k + 1) (next_choice size k x old) xs
unfolding best_block
best_block-step size k x xs none = refl
best_block-step size k x xs (some (i, y)) = refl

best_block-Looped :
    (size k : ℕ) (xs : List ℕ) (old : Choice) → Looped size k xs old (best_block size k old xs)
best_block-Looped size k [] old =
    unfold best_block in record { origin = inl refl; as_good = λ n m. m; least = tt }
best_block-Looped size k (x ∷ xs) old =
    subst (Looped size k (x ∷ xs) old) (sym (best_block-step size k x xs old))
      (Looped-cons size k x xs old _ (best_block-Looped size (k + 1) xs (next_choice size k x old)))

Full-of_none : (size : ℕ) (xs : List ℕ) → All (λ x. size ≤ x → AtMost x none) xs → Full size xs
Full-of_none size [] h = tt
Full-of_none size (x ∷ xs) h = (under, Full-of_none size xs h.1)
  where
    under : x < size
    under = elim (Bool-cases (leb size x)) [
      | inl room ↦ absurd (cc (h.0 (ground arith)))
      | inr full ↦ ground arith
    ]

-- What the choice of a smallest block gives.
abbrev pub Smallest : ℕ → List ℕ → Option ℕ → Type 0
Smallest size blocks r = ◌⊎◌ ((r ≡ none) × Full size blocks) (
    (i : ℕ) × (x : ℕ) × (r ≡ some i)
    × (get_elem? blocks i ≡ some x)
    × (size ≤ x)
    × All (λ y. size ≤ y → x ≤ y) blocks
    × LargerBefore size x i blocks)

-- `best` takes the first smallest one of the blocks that have room for the process, and none only where no
-- block has.
pub choose_best-Smallest :
    (size : ℕ) (blocks : List ℕ) → Smallest size blocks (choose_best size blocks)
unfolding choose_best
choose_best-Smallest size blocks =
    by_choice (best_block size 0 none blocks) (best_block-Looped size 0 blocks none)
  where
    by_choice :
        (c : Choice)
        → Looped size 0 blocks none c
        → Smallest size blocks (Option.map (λ (i, x). i) c)
    by_choice none l = inl (refl, Full-of_none size blocks l.least)
    by_choice (some (j, y)) l = elim l.origin [
      | inl same ↦ absurd (cc same)
      | inr (i, x, e, at, room, beats, larger) ↦
          let same_j : j ≡ 0 + i = ap (λ c. elim c [ none ↦ 0 | some (a, b) ↦ a ]) e in
          let same_i : j ≡ i = omega (arith, same_j) in
          let same_x : y ≡ x = ap (λ c. elim c [ none ↦ 0 | some (a, b) ↦ b ]) e in
          inr (
            i,
            x,
            ap some same_i,
            at,
            room,
            subst (λ z. All (λ w. size ≤ w → z ≤ w) blocks) same_x l.least,
            larger,
          )
    ]
