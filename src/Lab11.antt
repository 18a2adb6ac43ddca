-- ===== src/Lab11.antt =====
-- The allocation of processes to blocks of Lab/LAB11/lab11.c. A size is a non-negative `int`.
pub mod Choice
pub mod Best
pub mod Room
mod Tests
use mathlib.Core.Option
use csed.Prelude.{
  ℕ, ◌+◌, ◌-◌, Bool, true, false, ◌&&◌, Option, none, some, List, [], ◌∷◌, ltb, leb, if◌then◌else◌,
  get_elem?, set,
}

-- The inner loop of `first`: the block at which it breaks. `none` is `block == arr`.
unfoldable pub first_block : ℕ → List ℕ → Option ℕ
first_block size [] = none
first_block size (x ∷ xs) =
    if leb size x then some 0 else Option.map (λ i. i + 1) (first_block size xs)

-- The inner loop of `best` from the block `block`: `best` is `bestBlock` with the size of that
-- block, `none` for -1.
unfoldable pub best_block : ℕ → ℕ → Option (ℕ × ℕ) → List ℕ → Option (ℕ × ℕ)
best_block size block best [] = best
best_block size block best (x ∷ xs) =
    let better : Bool = elim best [ none ↦ true | some (i, y) ↦ ltb x y ] in
    best_block size (block + 1) (if leb size x && better then some (block, x) else best) xs

-- The choice of a block for a process, of `first` and of `best`.
unfoldable pub choose_first : ℕ → List ℕ → Option ℕ
choose_first size blocks = first_block size blocks

unfoldable pub choose_best : ℕ → List ℕ → Option ℕ
choose_best size blocks = Option.map (λ (i, x). i) (best_block size 0 none blocks)

-- `n_arraySize[i] -= size`.
unfoldable pub take_from : ℕ → ℕ → List ℕ → List ℕ
take_from i size blocks = elim (get_elem? blocks i) [
  | none ↦ blocks
  | some x ↦ set blocks i (x - size)
]

-- The outer loop: the allocation of each process, `none` for -1, and what is left of the blocks.
unfoldable pub allocate : (ℕ → List ℕ → Option ℕ) → List ℕ → List ℕ → List (Option ℕ) × List ℕ
allocate choose [] blocks = ([], blocks)
allocate choose (size ∷ sizes) blocks = elim (choose size blocks) [
  | none ↦ let (rest, left) = allocate choose sizes blocks in (none ∷ rest, left)
  | some i ↦
      let (rest, left) = allocate choose sizes (take_from i size blocks) in (some i ∷ rest, left)
]

unfoldable pub first : List ℕ → List ℕ → List (Option ℕ)
first blocks sizes = (allocate choose_first sizes blocks).0

unfoldable pub best : List ℕ → List ℕ → List (Option ℕ)
best blocks sizes = (allocate choose_best sizes blocks).0
