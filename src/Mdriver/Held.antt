-- ===== src/Mdriver/Held.antt =====
-- The sizes of the blocks that a trace of ASSN/ASSN6/mdriver.c holds, and their high water mark.
use Prim.Native.Nat.{max}
use csed.Prelude.{
  ℕ, zero, suc, ◌+◌, ◌^◌, ◌<◌, ◌≡◌, refl, arith, Option, none, some, List, [], ◌∷◌, get_elem?, set,
  replicate,
}
use csed.Prelude.Words.{int_lt-small}
use csed.Mdriver.{Op, alloc, realloc, free}
use csed.Mdriver.Util.{int_max}

-- The size of the block that each index holds, `none` for no block.
abbrev pub Live : Type 0
Live = List (Option ℕ)

abbrev pub held_size : Option ℕ → ℕ
held_size none = 0
held_size (some n) = n

unfoldable pub sum_live : Live → ℕ
sum_live [] = 0
sum_live (x ∷ xs) = held_size x + sum_live xs

unfoldable pub live_after : Op → Live → Live
live_after (alloc i n) live = set live i (some n)
live_after (realloc i n) live = set live i (some n)
live_after (free i) live = set live i none

-- The largest sum that is met, `m` being the largest before.
unfoldable pub high_water : ℕ → Live → List Op → ℕ
high_water m live [] = m
high_water m live (op ∷ ops) =
    high_water (max m (sum_live (live_after op live))) (live_after op live) ops

-- A request that fits the blocks that are held.
abbrev pub OpOk : Op → Live → Type 0
OpOk (alloc i n) live = get_elem? live i ≡ some none
OpOk (realloc i n) live = (old : ℕ) × (get_elem? live i ≡ some (some old))
OpOk (free i) live = (old : ℕ) × (get_elem? live i ≡ some (some old))

-- A trace whose requests fit, and whose sizes sum to an `int` at all times.
abbrev pub TraceOk : Live → List Op → Type 0
TraceOk live [] = Unit {0}
TraceOk live (op ∷ ops) =
    OpOk op live × (sum_live (live_after op live) < 2 ^ 31) × TraceOk (live_after op live) ops

pub sum_live-set :
    (live : Live) (i : ℕ) {old : Option ℕ} (new : Option ℕ)
    → get_elem? live i ≡ some old
    → sum_live (set live i new) + held_size old ≡ sum_live live + held_size new
unfolding sum_live
sum_live-set [] i new h = cc
sum_live-set (x ∷ xs) zero new h = ground (arith, h)
sum_live-set (x ∷ xs) (suc i) new h = omega (arith, sum_live-set xs i new h)

pub sum_live-none : (k : ℕ) → sum_live (replicate k none) ≡ 0
unfolding sum_live
sum_live-none zero = refl
sum_live-none (suc k) = omega (arith, sum_live-none k)

pub none_held : (k i n : ℕ) → get_elem? (replicate k none) i ≡ some (some n) → ⊥
none_held zero i n h = cc h
none_held (suc k) zero n h = cc h
none_held (suc k) (suc i) n h = none_held k i n h

pub int_max-max : (a b : ℕ) → a < 2 ^ 31 → b < 2 ^ 31 → int_max a b ≡ max b a
int_max-max a b ha hb = unfold int_max in rw (int_lt-small b a hb ha) (ground arith)
