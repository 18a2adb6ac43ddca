-- ===== src/Csim/Tests.antt =====
-- Runs of the simulator of ASSN/ASSN4/csim.c, and the theorems at them.
use csed.Prelude.{
  ℕ, ◌*◌, ◌^◌, ◌≡◌, ◌≢◌, refl, ◌∙◌, sym, replicate, some, List, [], ◌∷◌, arith, true,
}
use csed.Prelude.Words.{int_inc, u64_of_int}
use csed.Csim.{
  Block, Set, empty_block, Globals, Line, summary, failed, index_of, tag_of, put_blocks,
  access_blocks, count, find_block, eviction_loop, cache_access, simulate_line, simulate, start,
  init_cache, int_pow2, loop_count, main,
}
use csed.Csim.Totals.{IsWell}
use csed.Csim.Simulate.{total_accesses, accesses_of, IsSummary, main-IsSummary, started}
use csed.Csim.Policy.{SetValid, Replaced, cache_access-Replaced}
use csed.Csim.Sets.{first_access-SetValid, simulate-SetValid}
use csed.Csim.FirstAccess.{loads, main-first_access}
use mathlib.Core.Option
use mathlib.Core.Option.{some-injective}
use mathlib.Core.Path.{subst}

program : Unit {0}
unfolding index_of tag_of put_blocks access_blocks count find_block eviction_loop cache_access
    simulate_line simulate start init_cache int_pow2 loop_count main int_inc u64_of_int Option.bind
program = tt

abbrev line : ℕ → ℕ → Line
line opt addr = record { opt = opt; addr = addr }

-- traces/yi.trace, without the sizes.
abbrev yi : List Line
yi =
    line b'L' 0x10
    ∷ line b'M' 0x20
    ∷ line b'L' 0x22
    ∷ line b'S' 0x18
    ∷ line b'L' 0x110
    ∷ line b'L' 0x210
    ∷ line b'M' 0x12
    ∷ []

-- The counts that the assignment gives for `-s 4 -E 1 -b 4`.
main-yi : main 4 1 4 (some yi) ≡ summary 4 5 3
unfolding program
main-yi = refl

main_no_lines : main 4 0 4 (some yi) ≡ failed
unfolding program
main_no_lines = refl

main-IsSummary_example :
    (h : ℕ) × (m : ℕ) × (v : ℕ) × (main 4 1 4 (some yi) ≡ summary h m v)
    × IsSummary (2 ^ 4 * 1) (total_accesses yi) h m v
unfolding total_accesses accesses_of
main-IsSummary_example =
    main-IsSummary 4 1 4 yi (omega arith) (omega arith) (omega arith) (omega arith) (omega arith)
      (omega arith) (omega arith)

main-first_access_example : main 4 2 4 (some (loads 0x10 0x110)) ≡ summary 0 2 1
main-first_access_example =
    main-first_access 4 1 4 0x10 0x110 (omega arith) (omega arith) refl (omega arith) (omega arith)
      (omega arith) (omega arith)

-- The state after one access to the set 1, in a cache of 2 lines for each of 16 sets.
abbrev untouched : Set
untouched = record { block_list = empty_block ∷ empty_block ∷ [] }

abbrev touched : Set
touched = record { block_list = record { valid = true; tag = 0; lru_count = 0 } ∷ empty_block ∷ [] }

abbrev one_load : Globals
one_load = record {
  cache = record {
    num_set = 16;
    num_line = 2;
    set_list = untouched ∷ touched ∷ replicate 14 untouched;
  };
  s = 4;
  e = 2;
  b = 4;
  lru = 1;
  hits = 0;
  misses = 1;
  evictions = 0;
}

run_one : cache_access 0x10 (started 4 2 4) ≡ some one_load
unfolding program
run_one = refl

differs : index_of 0x10 (started 4 2 4) ≢ 2
unfolding program
differs = omega arith

first_access-SetValid_example :
    (g : Globals) × (cache_access 0x10 (started 4 2 4) ≡ some g)
    × IsWell g
    × (g.lru ≡ 1)
    × SetValid g 2
first_access-SetValid_example =
    first_access-SetValid 4 2 4 0x10 2 (omega arith) (omega arith) differs

one_load-valid : IsWell one_load × SetValid one_load 2
one_load-valid =
    let (g, run, well, time, valid) = first_access-SetValid_example in
    let same : g ≡ one_load = some-injective _ _ (sym run ∙ run_one) in
    (subst IsWell same well, subst (λ x. SetValid x 2) same valid)

index_20 : index_of 0x20 one_load ≡ 2
unfolding program
index_20 = refl

cache_access-Replaced_example :
    (g : Globals) × (cache_access 0x20 one_load ≡ some g) × Replaced 0x20 one_load g
cache_access-Replaced_example =
    cache_access-Replaced 0x20 one_load one_load-valid.0 (omega arith)
      (subst (SetValid one_load) (sym index_20) one_load-valid.1) (omega arith)

-- A load and a modification of the set 2.
abbrev later : List Line
later = line b'L' 0x20 ∷ line b'M' 0x120 ∷ []

abbrev block : ℕ → ℕ → Block
block tag lru_count = record { valid = true; tag = tag; lru_count = lru_count }

abbrev after_later : Globals
after_later = record one_load {
  cache = record (one_load.cache) {
    set_list =
        untouched
        ∷ touched
        ∷ record { block_list = block 0 1 ∷ block 1 3 ∷ [] }
        ∷ replicate 13 untouched;
  };
  lru = 4;
  hits = 1;
  misses = 3;
}

run_later : simulate later one_load ≡ some after_later
unfolding program
run_later = refl

later_accesses : total_accesses later ≡ 3
unfolding total_accesses accesses_of
later_accesses = refl

simulate-SetValid_example : SetValid after_later 2
simulate-SetValid_example =
    simulate-SetValid 2 later one_load after_later one_load-valid.0 (omega arith)
      (omega (arith, later_accesses)) run_later one_load-valid.1
