-- ===== src/Csim.antt =====
-- The cache simulator of ASSN/ASSN4/csim.c: its structures, its global state and its functions.
pub mod Blocks
pub mod Victim
pub mod Lru
pub mod Shape
pub mod Access
pub mod Totals
pub mod Simulate
pub mod Policy
pub mod Sets
pub mod FirstAccess
mod Tests
use mathlib.Core.Option
use csed.Prelude.Words.{int_inc, u64_of_int}
use csed.Prelude.{
  ℕ, ◌+◌, ◌-◌, ◌/◌, ◌%◌, ◌^◌, Bool, true, false, ◌&&◌, ◌||◌, Option, none, some, List, [], ◌∷◌, ltb,
  ◌==◌, if◌then◌else◌, get_elem?, set, replicate,
}

pub record Block : Type 0 where
  pub valid : Bool
  pub tag : ℕ
  pub lru_count : ℕ

pub record Set : Type 0 where
  pub block_list : List Block

pub record Cache : Type 0 where
  pub num_set : ℕ
  pub num_line : ℕ
  pub set_list : List Set

-- The global variables. An `int` is its 32-bit pattern.
pub record Globals : Type 0 where
  pub cache : Cache
  pub s : ℕ
  pub e : ℕ
  pub b : ℕ
  pub lru : ℕ
  pub hits : ℕ
  pub misses : ℕ
  pub evictions : ℕ

abbrev pub empty_block : Block
empty_block = record { valid = false; tag = 0; lru_count = 0 }

-- How often a loop `for (int i = 0; i < n; ++i)` runs: not at all for a negative `n`.
unfoldable pub loop_count : ℕ → ℕ
loop_count n = if ltb n (2 ^ 31) then n else 0

-- `(int) pow(2.0, s)`: out of the range of `int` the conversion gives the least one.
unfoldable pub int_pow2 : ℕ → ℕ
int_pow2 s = if ltb s 31 then 2 ^ s else 2 ^ 31

-- `malloc` is taken to give the memory of each set and of its lines. Where a number is negative,
-- the array has no elements.
unfoldable pub init_cache : Globals → Globals
init_cache g =
    let num_set = int_pow2 g.s in
    record g {
      cache = record {
        num_set = num_set;
        num_line = g.e;
        set_list =
            replicate (loop_count num_set)
              (record { block_list = replicate (loop_count g.e) empty_block });
      };
    }

-- The first loop of `cacheAccess`: the index at which it breaks, if it does.
unfoldable pub find_block : ℕ → List Block → Option ℕ
find_block tag [] = none
find_block tag (x ∷ xs) =
    if tag == x.tag && x.valid then some 0 else Option.map (λ i. i + 1) (find_block tag xs)

-- The second loop: `block_idx` is the index of the list's head.
unfoldable pub eviction_loop : ℕ → ℕ → ℕ → List Block → ℕ
unfolding u64_of_int
eviction_loop block_idx eviction_block eviction_lru [] = eviction_block
eviction_loop block_idx eviction_block eviction_lru (x ∷ xs) =
    let smaller = ltb (u64_of_int x.lru_count) eviction_lru in
    eviction_loop (block_idx + 1) (if smaller then block_idx else eviction_block)
      (if smaller then u64_of_int x.lru_count else eviction_lru) xs

pub data Outcome : Type 0 where
  hit miss eviction : Outcome

-- What `cacheAccess` does to the blocks of the set: a hit, a miss on an invalid block, or a miss
-- that evicts a valid one. `none` is the access out of bounds that a set without lines makes.
unfoldable pub access_blocks : ℕ → ℕ → List Block → Option (Outcome × List Block)
access_blocks tag lru blocks = elim (find_block tag blocks) [
  | some i ↦
      Option.map (λ x. (hit, set blocks i (record x { lru_count = lru }))) (get_elem? blocks i)
  | none ↦
      let i = eviction_loop 0 0 (2 ^ 64 - 1) blocks in
      Option.map
        (λ x. (
          if x.valid then eviction else miss,
          set blocks i (record { valid = true; tag = tag; lru_count = lru }),
        ))
        (get_elem? blocks i)
]

-- The counters that an access advances.
unfoldable pub count : Outcome → Globals → Globals
unfolding int_inc
count hit g = record g { hits = int_inc g.hits; lru = int_inc g.lru }
count miss g = record g { misses = int_inc g.misses; lru = int_inc g.lru }
count eviction g = record g {
  evictions = int_inc g.evictions;
  misses = int_inc g.misses;
  lru = int_inc g.lru;
}

-- `(addr >> b) & (pow(2, s) - 1)`, and `addr >> (s + b)`.
unfoldable pub index_of : ℕ → Globals → ℕ
index_of addr g = addr / 2 ^ g.b % 2 ^ g.s

unfoldable pub tag_of : ℕ → Globals → ℕ
tag_of addr g = addr / 2 ^ (g.s + g.b)

unfoldable pub put_blocks : Globals → ℕ → List Block → Globals
put_blocks g i blocks = record g {
  cache = record (g.cache) { set_list = set g.cache.set_list i (record { block_list = blocks }) };
}

unfoldable pub cache_access : ℕ → Globals → Option Globals
cache_access addr g = elim (get_elem? g.cache.set_list (index_of addr g)) [
  | none ↦ none
  | some x ↦
      Option.map (λ (outcome, blocks). count outcome (put_blocks g (index_of addr g) blocks))
        (access_blocks (tag_of addr g) g.lru x.block_list)
]

-- A line of the trace: the letter and the address.
pub record Line : Type 0 where
  pub opt : ℕ
  pub addr : ℕ

unfoldable pub simulate_line : Line → Globals → Option Globals
simulate_line l g =
    if l.opt == b'I'
    then some g
    else if l.opt == b'M'
    then Option.bind (cache_access l.addr g) (cache_access l.addr)
    else cache_access l.addr g

unfoldable pub simulate : List Line → Globals → Option Globals
simulate [] g = some g
simulate (l ∷ ls) g = Option.bind (simulate_line l g) (simulate ls)

-- What `main` has done when it returns: the exit status 1, or the summary that it printed. The
-- arguments are the values that `getopt` and `atoi` give, and `file` is what `fopen` opens.
pub data Exit : Type 0 where
  failed : Exit
  summary : ℕ → ℕ → ℕ → Exit
  out_of_bounds : Exit

unfoldable pub start : ℕ → ℕ → ℕ → Globals
start s e b = init_cache (record {
  cache = record { num_set = 0; num_line = 0; set_list = [] };
  s = s;
  e = e;
  b = b;
  lru = 0;
  hits = 0;
  misses = 0;
  evictions = 0;
})

unfoldable pub main : ℕ → ℕ → ℕ → Option (List Line) → Exit
main s e b none = failed
main s e b (some lines) =
    if s == 0 || e == 0 || b == 0 then failed else elim (simulate lines (start s e b)) [
      | none ↦ out_of_bounds
      | some g ↦ summary g.hits g.misses g.evictions
    ]
