-- ===== src/Csim/Access.antt =====
-- `cacheAccess` and its set (ASSN/ASSN4/csim.c): the access is the one of the set at the index.
use native.Mathlib.Nat.{mod-lt, one-le-pow}
use csed.Prelude.{ℕ, ◌+◌, ◌/◌, ◌^◌, ◌<◌, ◌≡◌, refl, some, List, arith, get_elem?}
use csed.Prelude.Words.{int_inc-small}
use csed.Csim.{
  Block, Set, Globals, Outcome, hit, miss, eviction, count, access_blocks, index_of, tag_of,
  put_blocks, cache_access,
}

pub index_of-lt : (addr : ℕ) (g : Globals) → index_of addr g < 2 ^ g.s
unfolding index_of
index_of-lt addr g = mod-lt (addr / 2 ^ g.b) (one-le-pow g.s 2 (omega arith))

pub cache_access-some :
    (addr : ℕ) (g : Globals) (x : Set) (o : Outcome) (ys : List Block)
    → get_elem? g.cache.set_list (index_of addr g) ≡ some x
    → access_blocks (tag_of addr g) g.lru x.block_list ≡ some (o, ys)
    → cache_access addr g ≡ some (count o (put_blocks g (index_of addr g) ys))
unfolding cache_access
cache_access-some addr g x o ys at step = ground arith

-- The counters after an access, while they fit in an `int`.
pub record Counted (o : Outcome) (g g' : Globals) : Type 0 where
  pub lru : g'.lru ≡ g.lru + 1
  pub hits : g'.hits ≡ (elim o [ hit ↦ g.hits + 1 | _ ↦ g.hits ])
  pub misses : g'.misses ≡ (elim o [ hit ↦ g.misses | _ ↦ g.misses + 1 ])
  pub evictions : g'.evictions ≡ (elim o [ eviction ↦ g.evictions + 1 | _ ↦ g.evictions ])
  pub cache : g'.cache ≡ g.cache
  pub s : g'.s ≡ g.s
  pub e : g'.e ≡ g.e
  pub b : g'.b ≡ g.b

pub count-Counted :
    (o : Outcome) (g : Globals)
    → g.lru + 1 < 2 ^ 31
    → g.hits + 1 < 2 ^ 31
    → g.misses + 1 < 2 ^ 31
    → g.evictions + 1 < 2 ^ 31
    → Counted o g (count o g)
unfolding count
count-Counted hit g l h m e = record {
  lru = int_inc-small g.lru l;
  hits = int_inc-small g.hits h;
  misses = refl;
  evictions = refl;
  cache = refl;
  s = refl;
  e = refl;
  b = refl;
}
count-Counted miss g l h m e = record {
  lru = int_inc-small g.lru l;
  hits = refl;
  misses = int_inc-small g.misses m;
  evictions = refl;
  cache = refl;
  s = refl;
  e = refl;
  b = refl;
}
count-Counted eviction g l h m e = record {
  lru = int_inc-small g.lru l;
  hits = refl;
  misses = int_inc-small g.misses m;
  evictions = int_inc-small g.evictions e;
  cache = refl;
  s = refl;
  e = refl;
  b = refl;
}
