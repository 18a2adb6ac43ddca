-- ===== src/Csim/Totals.antt =====
-- The totals that the simulator reports (ASSN/ASSN4/csim.c), over a whole trace.
use csed.Prelude.{
  ℕ, zero, suc, ◌+◌, ◌*◌, ◌^◌, ◌≤◌, ◌<◌, ◌≡◌, ◌∙◌, some, List, [], ◌∷◌, arith, length, get_elem?,
  set, All, length-set, get_elem?-some_of_lt, All-get_elem?, All-set,
}
use csed.Csim.{
  Block, Set, Globals, hit, miss, eviction, Outcome, count, put_blocks, index_of, tag_of,
  cache_access,
}
use csed.Csim.Blocks.{count_valid, count_valid-le}
use csed.Csim.Shape.{IsShaped, gain, Kept, access_blocks-KeptBy, past_later}
use csed.Csim.Access.{index_of-lt, cache_access-some, Counted, count-Counted}

-- How many blocks of the cache are valid.
unfoldable pub total_valid : List Set → ℕ
total_valid [] = 0
total_valid (x ∷ xs) = count_valid x.block_list + total_valid xs

total_valid-set :
    (xs : List Set) (i : ℕ) (new : Set) {old : Set}
    → get_elem? xs i ≡ some old
    → total_valid (set xs i new) + count_valid old.block_list
      ≡ total_valid xs + count_valid new.block_list
unfolding total_valid
total_valid-set [] i new h = cc
total_valid-set (x ∷ xs) zero new h = ground arith
total_valid-set (x ∷ xs) (suc i) new h = omega (arith, total_valid-set xs i new h)

abbrev pub SetShaped : ℕ → ℕ → Set → Type 0
SetShaped lines now x = IsShaped lines now x.block_list

pub total_valid-le :
    (lines now : ℕ) (xs : List Set)
    → All (SetShaped lines now) xs
    → total_valid xs ≤ length xs * lines
unfolding total_valid
total_valid-le lines now [] s = omega arith
total_valid-le lines now (x ∷ xs) s =
    omega (arith, total_valid-le lines now xs s.1, count_valid-le x.block_list, s.0.lines_eq)

SetShaped-later :
    (lines now : ℕ) (xs : List Set)
    → All (SetShaped lines now) xs
    → All (SetShaped lines (now + 1)) xs
SetShaped-later lines now [] s = tt
SetShaped-later lines now (x ∷ xs) s = (
  record {
    lines_eq = s.0.lines_eq;
    distinct = s.0.distinct;
    past = past_later now x.block_list s.0.past;
  },
  SetShaped-later lines now xs s.1,
)

-- The simulator's state between two accesses.
pub record IsWell (g : Globals) : Type 0 where
  pub sets_eq : length g.cache.set_list ≡ 2 ^ g.s
  pub some_line : 0 < g.e
  pub shaped : All (SetShaped g.e g.lru) g.cache.set_list
  pub accesses : g.hits + g.misses ≡ g.lru
  pub filled : g.misses ≡ g.evictions + total_valid g.cache.set_list

-- What an access leaves: it succeeds, and only the time and the cache have moved.
pub record Advanced (n : ℕ) (g g' : Globals) : Type 0 where
  pub well : IsWell g'
  pub lru : g'.lru ≡ g.lru + n
  pub s : g'.s ≡ g.s
  pub e : g'.e ≡ g.e

Counted-sums :
    (o : Outcome) (g g' : Globals)
    → Counted o g g'
    → (g'.hits + g'.misses ≡ g.hits + g.misses + 1)
      × (g'.misses + g.evictions ≡ g.misses + g'.evictions + gain o)
Counted-sums hit g g' c = (omega (arith, c.hits, c.misses), omega (arith, c.misses, c.evictions))
Counted-sums miss g g' c = (omega (arith, c.hits, c.misses), omega (arith, c.misses, c.evictions))
Counted-sums eviction g g' c =
    (omega (arith, c.hits, c.misses), omega (arith, c.misses, c.evictions))

module _ (addr : ℕ) (g : Globals) (w : IsWell g) (small : g.lru + 1 < 2 ^ 31) where
  abbrev sets_after : List Block → List Set
  sets_after ys = set g.cache.set_list (index_of addr g) (record { block_list = ys })

  sets_after-All :
      (ys : List Block)
      → IsShaped g.e (g.lru + 1) ys
      → All (SetShaped g.e (g.lru + 1)) (sets_after ys)
  sets_after-All ys k =
      All-set (SetShaped g.e (g.lru + 1)) g.cache.set_list (index_of addr g)
        (record { block_list = ys }) (SetShaped-later g.e g.lru g.cache.set_list w.shaped) k

  accessed-IsWell :
      (x : Set) (o : Outcome) (ys : List Block)
      → get_elem? g.cache.set_list (index_of addr g) ≡ some x
      → Kept g.e g.lru x.block_list o ys
      → Advanced 1 g (count o (put_blocks g (index_of addr g) ys))
  unfolding put_blocks
  accessed-IsWell x o ys at k =
      let g0 = put_blocks g (index_of addr g) ys in
      let c =
        count-Counted o g0 small (omega (arith, w.accesses)) (omega (arith, w.accesses))
          (omega (arith, w.accesses, w.filled)) in
      let (total, spare) = Counted-sums o g0 (count o g0) c in
      record {
        well = record {
          sets_eq = rw (c.cache, c.s) (length-set g.cache.set_list (index_of addr g) _ ∙ w.sets_eq);
          some_line = rw c.e w.some_line;
          shaped = rw (c.cache, c.e, c.lru) (sets_after-All ys k.shaped);
          accesses = omega (arith, total, c.lru, w.accesses);
          filled = rw c.cache (
              omega (
                arith,
                spare,
                total_valid-set g.cache.set_list (index_of addr g) (record { block_list = ys }) at,
                k.count,
                w.filled,
              ));
        };
        lru = c.lru;
        s = c.s;
        e = c.e;
      }

  pub cache_access-Advanced : (g' : Globals) × (cache_access addr g ≡ some g') × Advanced 1 g g'
  cache_access-Advanced =
      let (x, at) =
        get_elem?-some_of_lt g.cache.set_list (index_of addr g)
          (omega (arith, index_of-lt addr g, w.sets_eq)) in
      let shaped =
        All-get_elem? (SetShaped g.e g.lru) g.cache.set_list (index_of addr g) w.shaped at in
      let (o, ys, step, k) =
        access_blocks-KeptBy g.e (tag_of addr g) g.lru x.block_list shaped w.some_line
          (omega arith) in
      (
        count o (put_blocks g (index_of addr g) ys),
        cache_access-some addr g x o ys at step,
        accessed-IsWell x o ys at k,
      )
