-- ===== src/Csim/FirstAccess.antt =====
-- The first access of a run of ASSN/ASSN4/csim.c stamps its block with the count 0 that invalid
-- blocks have, so that the next miss in its set takes it for the victim.
use mathlib.Core.Option
use csed.Csim.Access.{cache_access-some, index_of-lt}
use csed.Csim.Lru.{access_blocks-miss}
use csed.Csim.Simulate.{main-some, started, start-eq}
use csed.Csim.Sets.{get_elem?-replicate}
use csed.Prelude.{
  ◌/◌, ◌%◌, get_elem?-set_self, length-replicate, ℕ, zero, suc, ◌+◌, ◌-◌, ◌^◌, ◌≡◌, refl, ◌∙◌, ap,
  ◌<◌, ◌≢◌, none, some, List, [], ◌∷◌, arith, true, replicate, get_elem?,
}
use csed.Csim.{
  Block, empty_block, Globals, Line, simulate, simulate_line, main, summary, cache_access, count,
  put_blocks, index_of, tag_of, find_block, eviction_loop, access_blocks, miss, eviction,
}

eviction_loop-zero : (idx best : ℕ) (xs : List Block) → eviction_loop idx best 0 xs ≡ best
unfolding eviction_loop
eviction_loop-zero idx best [] = refl
eviction_loop-zero idx best (x ∷ xs) = ground (arith, eviction_loop-zero (idx + 1) best xs)

find_block-empty : (t n : ℕ) → find_block t (replicate n empty_block) ≡ none
unfolding find_block
find_block-empty t zero = refl
find_block-empty t (suc n) = ground (arith, find_block-empty t n)

abbrev empties : ℕ → List Block
empties n = replicate n empty_block

abbrev pub stamped_zero : ℕ → Block
stamped_zero tag = record { valid = true; tag = tag; lru_count = 0 }

first_victim :
    (x : Block) (xs : List Block) → x.lru_count ≡ 0 → eviction_loop 0 0 (2 ^ 64 - 1) (x ∷ xs) ≡ 0
unfolding eviction_loop
first_victim x xs h = rw h (eviction_loop-zero 1 0 xs)

first_load :
    (tag n : ℕ) → access_blocks tag 0 (empties (suc n)) ≡ some (miss, stamped_zero tag ∷ empties n)
unfolding access_blocks
first_load tag n = rw (find_block-empty tag (suc n), access_blocks) (rw first_victim refl)

loaded_miss : (tag tag' n : ℕ) → tag' ≢ tag → find_block tag' (stamped_zero tag ∷ empties n) ≡ none
unfolding find_block
loaded_miss tag tag' n ne = ground (arith, find_block-empty tag' n)

second_load :
    (tag tag' now n : ℕ)
    → tag' ≢ tag
    → access_blocks tag' now (stamped_zero tag ∷ empties n)
      ≡ some (eviction, record { valid = true; tag = tag'; lru_count = now } ∷ empties n)
second_load tag tag' now n ne =
    let first = first_victim (stamped_zero tag) (empties n) refl in
    access_blocks-miss tag' now (stamped_zero tag ∷ empties n) {x = stamped_zero tag}
      (loaded_miss tag tag' n ne) (rw first)
    ∙ rw first

abbrev pub loads : ℕ → ℕ → List Line
loads addr addr' = record { opt = b'L'; addr = addr } ∷ record { opt = b'L'; addr = addr' } ∷ []

simulate-loads :
    (addr addr' : ℕ) (g g' g'' : Globals)
    → cache_access addr g ≡ some g'
    → cache_access addr' g' ≡ some g''
    → simulate (loads addr addr') g ≡ some g''
unfolding simulate simulate_line Option.bind
simulate-loads addr addr' g g' g'' first second = rw (first, second)

module _ (s n b : ℕ) where
  -- The state after the first access.
  abbrev one : ℕ → Globals
  one addr =
      let g = started s (suc n) b in
      count miss (put_blocks g (index_of addr g) (stamped_zero (tag_of addr g) ∷ empties n))

  first_access : (addr : ℕ) → cache_access addr (started s (suc n) b) ≡ some (one addr)
  first_access addr =
      let g = started s (suc n) b in
      cache_access-some addr g (record { block_list = empties (suc n) }) miss
        (stamped_zero (tag_of addr g) ∷ empties n)
        (get_elem?-replicate (2 ^ s) (index_of addr g) _ (index_of-lt addr g))
        (first_load (tag_of addr g) n)

  second_at :
      (addr addr' : ℕ)
      → addr' / 2 ^ b % 2 ^ s ≡ addr / 2 ^ b % 2 ^ s
      → get_elem? (one addr).cache.set_list (index_of addr' (one addr))
        ≡ some
            (record { block_list = stamped_zero (tag_of addr (started s (suc n) b)) ∷ empties n })
  unfolding count put_blocks index_of
  second_at addr addr' same = rw same (
      get_elem?-set_self _ (addr / 2 ^ b % 2 ^ s) _
        (rw length-replicate (index_of-lt addr (started s (suc n) b))))

  second_access :
      (addr addr' : ℕ)
      → addr' / 2 ^ b % 2 ^ s ≡ addr / 2 ^ b % 2 ^ s
      → addr' / 2 ^ (s + b) ≢ addr / 2 ^ (s + b)
      → (g : Globals) × (cache_access addr' (one addr) ≡ some g)
        × (g.hits ≡ 0)
        × (g.misses ≡ 2)
        × (g.evictions ≡ 1)
  unfolding count put_blocks tag_of
  second_access addr addr' same other =
      let g = one addr in
      let loaded = second_load (addr / 2 ^ (s + b)) (addr' / 2 ^ (s + b)) g.lru n other in
      (
        count eviction (put_blocks g (index_of addr' g) _),
        cache_access-some addr' g _ eviction _ (second_at addr addr' same) loaded,
        refl,
        refl,
        refl,
      )

  -- For nonzero numbers of bits of the set index, fewer than 31, and of the offset, at most 63
  -- together, and at least one and fewer than 2 ^ 31 lines for each set, with the memory that
  -- malloc is asked for: a run over two loads whose addresses have one set and different tags
  -- reports no hit, two misses and one eviction, also where the set has lines that have never been
  -- used.
  pub main-first_access :
      (addr addr' : ℕ)
      → s ≢ 0
      → b ≢ 0
      → addr' / 2 ^ b % 2 ^ s ≡ addr / 2 ^ b % 2 ^ s
      → addr' / 2 ^ (s + b) ≢ addr / 2 ^ (s + b)
      → s < 31
      → suc n < 2 ^ 31
      → s + b < 64
      → main s (suc n) b (some (loads addr addr')) ≡ summary 0 2 1
  main-first_access addr addr' hs hb same other few_sets few_lines shift =
      let (g, run, h, m, v) = second_access addr addr' same other in
      main-some s (suc n) b (loads addr addr') g hs (omega arith) hb (
        ap (simulate (loads addr addr')) (start-eq s (suc n) b few_sets few_lines)
        ∙ simulate-loads addr addr' _ (one addr) g (first_access addr) run)
      ∙ rw (h, m, v)
