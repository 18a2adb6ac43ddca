-- ===== src/Lab11/Tests.antt =====
-- Runs of Lab/LAB11/lab11.c, and the theorems at them.
use csed.Prelude.{ℕ, ◌≡◌, refl, some, List, [], ◌∷◌}
use csed.Lab11.{
  first_block, best_block, choose_first, choose_best, take_from, allocate, first, best,
}
use csed.Lab11.Choice.{FirstRoom}
use csed.Lab11.Best.{Smallest}
use csed.Lab11.Room.{Allocation, allocate-Allocation}

program : Unit {0}
unfolding first_block best_block choose_first choose_best take_from allocate first best
program = tt

-- The arguments that `main` gives.
abbrev array_size : List ℕ
array_size = 30 ∷ 50 ∷ 40 ∷ 10 ∷ 20 ∷ []

abbrev process_size : List ℕ
process_size = 41 ∷ 4 ∷ 24 ∷ 15 ∷ 19 ∷ []

run_first : first array_size process_size ≡ some 1 ∷ some 0 ∷ some 0 ∷ some 2 ∷ some 2 ∷ []
unfolding program
run_first = refl

run_best : best array_size process_size ≡ some 1 ∷ some 1 ∷ some 0 ∷ some 4 ∷ some 2 ∷ []
unfolding program
run_best = refl

allocate-Allocation_example :
    Allocation FirstRoom process_size array_size
      (allocate choose_first process_size array_size).0
      (allocate choose_first process_size array_size).1
    × Allocation Smallest process_size array_size
        (allocate choose_best process_size array_size).0
        (allocate choose_best process_size array_size).1
allocate-Allocation_example = allocate-Allocation process_size array_size
