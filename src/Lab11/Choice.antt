-- ===== src/Lab11/Choice.antt =====
-- The blocks that `first` and `best` of Lab/LAB11/lab11.c choose.
use mathlib.Core.Option
use csed.Prelude.{
  ℕ, zero, suc, ◌+◌, ◌≤◌, ◌<◌, ◌≡◌, refl, ◌⊎◌, ap, Option, none, some, List, [], ◌∷◌, arith, leb,
  inl, inr, Bool-cases, get_elem?, All,
}
use csed.Lab11.{first_block}

-- A block of the list that has room.
abbrev pub HasRoom : ℕ → List ℕ → ℕ → Type 0
HasRoom size blocks i = (x : ℕ) × (get_elem? blocks i ≡ some x) × (size ≤ x)

abbrev pub Full : ℕ → List ℕ → Type 0
Full size = All (λ x. x < size)

-- What a choice gives: nothing where no block has room, or else a block that has.
abbrev pub Chosen : ℕ → List ℕ → Option ℕ → Type 0
Chosen size blocks r =
    ◌⊎◌ ((r ≡ none) × Full size blocks) ((i : ℕ) × (r ≡ some i) × HasRoom size blocks i)

-- No block before the index `i` has room.
abbrev pub FullBefore : ℕ → ℕ → List ℕ → Type 0
FullBefore size i [] = Unit
FullBefore size zero (x ∷ xs) = Unit
FullBefore size (suc i) (x ∷ xs) = (x < size) × FullBefore size i xs

abbrev pub FirstRoom : ℕ → List ℕ → Option ℕ → Type 0
FirstRoom size blocks r =
    ◌⊎◌ ((r ≡ none) × Full size blocks)
      ((i : ℕ) × (r ≡ some i) × HasRoom size blocks i × FullBefore size i blocks)

FirstRoom-skip :
    (size x : ℕ) (xs : List ℕ) (r : Option ℕ)
    → x < size
    → FirstRoom size xs r
    → FirstRoom size (x ∷ xs) (Option.map (λ i. i + 1) r)
FirstRoom-skip size x xs r lt (inl (e, full)) = inl (rw e refl, (lt, full))
FirstRoom-skip size x xs r lt (inr (i, e, (y, at, room), before)) =
    inr (suc i, rw e (ap some (omega arith)), (y, at, room), (lt, before))

-- `first` takes the first block that has room for the process, and none only where no block has.
pub first_block-FirstRoom :
    (size : ℕ) (blocks : List ℕ) → FirstRoom size blocks (first_block size blocks)
unfolding first_block
first_block-FirstRoom size [] = inl (refl, tt)
first_block-FirstRoom size (x ∷ xs) = elim (Bool-cases (leb size x)) [
  | inl room ↦ rw room (inr (0, refl, (x, refl, ground arith), tt))
  | inr full ↦ rw full (
      FirstRoom-skip size x xs (first_block size xs) (ground arith) (first_block-FirstRoom size xs))
]
