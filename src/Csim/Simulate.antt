-- ===== src/Csim/Simulate.antt =====
-- `simulate` and `main` of ASSN/ASSN4/csim.c over a whole trace.
use mathlib.Core.Option
use native.Mathlib.Nat.{pow-le-pow_right}
use mathlib.Core.Path.{subst, ap₂}
use csed.Prelude.{
  ℕ, zero, suc, ◌+◌, ◌*◌, ◌^◌, ◌≤◌, ◌<◌, ◌≡◌, refl, ap, ◌∙◌, ◌≢◌, Option, some, List, [], ◌∷◌,
  arith, ◌==◌, if◌then◌else◌, Bool-cases, inl, inr, replicate, ltb, lt→ltb, true, length-replicate,
  All-replicate,
}
use csed.Csim.{
  empty_block, Globals, Line, init_cache, int_pow2, loop_count, simulate_line, simulate, start,
  main, summary,
}
use csed.Csim.Shape.{count_valid-empty, empty-IsShaped}
use csed.Csim.Totals.{
  total_valid, total_valid-le, SetShaped, IsWell, Advanced, cache_access-Advanced,
}

-- How often a line accesses the cache.
unfoldable pub accesses_of : Line → ℕ
accesses_of l = if l.opt == b'I' then 0 else if l.opt == b'M' then 2 else 1

unfoldable pub total_accesses : List Line → ℕ
total_accesses [] = 0
total_accesses (l ∷ ls) = accesses_of l + total_accesses ls

Advanced-trans :
    {m n : ℕ} {f g h : Globals} → Advanced m f g → Advanced n g h → Advanced (m + n) f h
Advanced-trans a b = record {
  well = b.well;
  lru = omega (arith, a.lru, b.lru);
  s = b.s ∙ a.s;
  e = b.e ∙ a.e;
}

abbrev Advances : ℕ → Globals → Option Globals → Type 0
Advances n g r = (g' : Globals) × (r ≡ some g') × Advanced n g g'

Advances-bind :
    {m n : ℕ} {f : Globals} {r : Option Globals} {k : Globals → Option Globals}
    → Advances m f r
    → ((g : Globals) → Advanced m f g → Advances n g (k g))
    → Advances (m + n) f (Option.bind r k)
unfolding Option.bind
Advances-bind {k} (g, e, a) next = let (h, e', b) = next g a in (h, rw e e', Advanced-trans a b)

pub simulate_line-Advances :
    (l : Line) (g : Globals)
    → IsWell g
    → g.lru + accesses_of l < 2 ^ 31
    → Advances (accesses_of l) g (simulate_line l g)
unfolding simulate_line accesses_of
simulate_line-Advances l g w small = elim (Bool-cases (l.opt == b'I')) [
  | inl fetch ↦ rw fetch (g, refl, record { well = w; lru = omega arith; s = refl; e = refl })
  | inr data_access ↦ rw data_access (elim (Bool-cases (l.opt == b'M')) [
    | inl modify ↦
        let two_left : g.lru + 2 < 2 ^ 31 = ground arith in
        rw modify (
          Advances-bind (cache_access-Advanced l.addr g w (omega arith))
            λ g' a. cache_access-Advanced l.addr g' a.well (omega (arith, a.lru)))
    | inr other ↦ rw other (cache_access-Advanced l.addr g w (ground arith))
  ])
]

pub simulate-Advances :
    (ls : List Line) (g : Globals)
    → IsWell g
    → g.lru + total_accesses ls < 2 ^ 31
    → (g' : Globals) × (simulate ls g ≡ some g') × Advanced (total_accesses ls) g g'
unfolding simulate total_accesses
simulate-Advances [] g w small =
    (g, refl, record { well = w; lru = omega arith; s = refl; e = refl })
simulate-Advances (l ∷ ls) g w small =
    Advances-bind (simulate_line-Advances l g w (omega arith))
      λ g' a. simulate-Advances ls g' a.well (omega (arith, a.lru))

total_valid-replicate :
    (n lines : ℕ)
    → total_valid (replicate n (record { block_list = replicate lines empty_block })) ≡ 0
unfolding total_valid
total_valid-replicate zero lines = refl
total_valid-replicate (suc n) lines =
    omega (arith, total_valid-replicate n lines, count_valid-empty lines)

-- The state behind `init_cache`, where the numbers of sets and lines fit an `int`.
abbrev pub started : ℕ → ℕ → ℕ → Globals
started s e b = record {
  cache = record {
    num_set = 2 ^ s;
    num_line = e;
    set_list = replicate (2 ^ s) (record { block_list = replicate e empty_block });
  };
  s = s;
  e = e;
  b = b;
  lru = 0;
  hits = 0;
  misses = 0;
  evictions = 0;
}

pub start-eq : (s e b : ℕ) → s < 31 → e < 2 ^ 31 → start s e b ≡ started s e b
unfolding start init_cache int_pow2 loop_count
start-eq s e b hs he =
    let sets : ltb s 31 ≡ true = lt→ltb s 31 hs in
    let some_sets : ltb (2 ^ s) (2 ^ 31) ≡ true =
      lt→ltb (2 ^ s) (2 ^ 31)
        (omega (arith, pow-le-pow_right {n = 2} (omega arith) {i = s} {j = 30} (omega arith))) in
    let lines : ltb e (2 ^ 31) ≡ true = lt→ltb e (2 ^ 31) he in rw (sets, lines) (rw some_sets refl)

pub start-IsWell : (s e b : ℕ) → 0 < e → IsWell (started s e b)
start-IsWell s e b h = record {
  sets_eq = length-replicate (2 ^ s) _;
  some_line = h;
  shaped = All-replicate (SetShaped e 0) (2 ^ s) _ (empty-IsShaped e 0);
  accesses = omega arith;
  filled = omega (arith, total_valid-replicate (2 ^ s) e);
}

-- What the summary of a run says: the counters add up to the accesses, and the misses that evict
-- nothing fill at most the cache's lines.
pub record IsSummary (lines accesses h m v : ℕ) : Type 0 where
  pub all : h + m ≡ accesses
  pub evicted : v ≤ m
  pub filled : m ≤ v + lines

pub main-some :
    (s e b : ℕ) (ls : List Line) (g : Globals)
    → s ≢ 0
    → e ≢ 0
    → b ≢ 0
    → simulate ls (start s e b) ≡ some g
    → main s e b (some ls) ≡ summary g.hits g.misses g.evictions
unfolding main
main-some s e b ls g hs he hb run = ground arith

IsSummary-of_Advanced :
    (s e b n : ℕ) (g : Globals)
    → Advanced n (started s e b) g
    → IsSummary (2 ^ s * e) n g.hits g.misses g.evictions
IsSummary-of_Advanced s e b n g a = record {
  all = omega (arith, a.well.accesses, a.lru);
  evicted = omega (arith, a.well.filled);
  filled = omega (arith, a.well.filled, lines_le);
}
  where
    lines_le : total_valid g.cache.set_list ≤ 2 ^ s * e
    lines_le =
        subst (λ t. total_valid g.cache.set_list ≤ t)
          (ap₂ ◌*◌ (a.well.sets_eq ∙ ap (λ t. 2 ^ t) a.s) a.e)
          (total_valid-le g.e g.lru g.cache.set_list a.well.shaped)

-- For fewer than 31 bits of set index, at least one and fewer than 2 ^ 31 lines, offset bits other
-- than 0, at most 63 bits of both, and a trace of less than 2 ^ 31 accesses, with the memory that
-- malloc is asked for, main ends with a summary: no access leaves the bounds of the cache, hits
-- and misses add up to the accesses that the trace makes, no more blocks are evicted than accesses
-- miss, and the misses without an eviction are at most the lines of the cache.
pub main-IsSummary :
    (s e b : ℕ) (ls : List Line)
    → s ≢ 0
    → e ≢ 0
    → b ≢ 0
    → s < 31
    → e < 2 ^ 31
    → s + b < 64
    → total_accesses ls < 2 ^ 31
    → (h m v : ℕ) × (main s e b (some ls) ≡ summary h m v)
      × IsSummary (2 ^ s * e) (total_accesses ls) h m v
main-IsSummary s e b ls hs he hb few_sets few_lines shift small =
    let (g, run, a) =
      simulate-Advances ls (started s e b) (start-IsWell s e b (omega arith)) (omega arith) in
    (
      g.hits,
      g.misses,
      g.evictions,
      main-some s e b ls g hs he hb (ap (simulate ls) (start-eq s e b few_sets few_lines) ∙ run),
      IsSummary-of_Advanced s e b (total_accesses ls) g a,
    )
