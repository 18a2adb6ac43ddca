-- ===== src/Csim/Sets.antt =====
-- Which sets of the cache keep the policy over a whole run of ASSN/ASSN4/csim.c.
use mathlib.Core.Option
use mathlib.Core.Option.{some-injective}
use mathlib.Core.Path.{subst}
use csed.Prelude.{
  ℕ, zero, suc, ◌+◌, ◌^◌, ◌<◌, ◌≡◌, refl, ◌∙◌, ◌≢◌, some, List, [], ◌∷◌, arith, ◌==◌, Bool-cases,
  bind-eq-some, inl, inr, get_elem?, replicate, All-replicate, sym,
}
use csed.Csim.{empty_block, Set, Globals, Line, index_of, cache_access, simulate_line, simulate}
use csed.Csim.Lru.{IsValid}
use csed.Csim.Blocks.{Stamped}
use csed.Csim.Shape.{empty-IsShaped}
use csed.Csim.Totals.{IsWell, Advanced, cache_access-Advanced}
use csed.Csim.Simulate.{total_accesses, accesses_of, started, start-IsWell, simulate_line-Advances}
use csed.Csim.Policy.{SetValid, SetValid-eq, cache_access-SetValid, cache_access-others}

empty-IsValid : (lines : ℕ) → IsValid lines 0 (replicate lines empty_block)
empty-IsValid lines = record {
  lines_eq = (empty-IsShaped lines 0).lines_eq;
  distinct = (empty-IsShaped lines 0).distinct;
  stamped = All-replicate (Stamped 0) lines empty_block (ground arith, λ h. refl, omega arith);
}

pub get_elem?-replicate : (n i : ℕ) (x : Set) → i < n → get_elem? (replicate n x) i ≡ some x
get_elem?-replicate zero i x h = elim h [ ]
get_elem?-replicate (suc n) zero x h = refl
get_elem?-replicate (suc n) (suc i) x h = get_elem?-replicate n i x (omega arith)

start-SetValid : (s e b j : ℕ) → j < 2 ^ s → SetValid (started s e b) j
start-SetValid s e b j h = record {
  found = record { block_list = replicate e empty_block };
  at = get_elem?-replicate (2 ^ s) j _ h;
  valid = empty-IsValid e;
}

-- In a cache with lines, the first access succeeds and leaves a well-formed state at time 1, in
-- which every set but the accessed one keeps the invariant of the policy.
pub first_access-SetValid :
    (s e b addr j : ℕ)
    → 0 < e
    → j < 2 ^ s
    → index_of addr (started s e b) ≢ j
    → (g : Globals) × (cache_access addr (started s e b) ≡ some g)
      × IsWell g
      × (g.lru ≡ 1)
      × SetValid g j
first_access-SetValid s e b addr j he hj ne =
    let g0 = started s e b in
    let (g, run, a) = cache_access-Advanced addr g0 (start-IsWell s e b he) (omega arith) in
    (
      g,
      run,
      a.well,
      omega (arith, a.lru),
      SetValid-eq g0 g j a.lru a.e (cache_access-others addr g0 g j run ne)
          (start-SetValid s e b j hj),
    )

module _ (j : ℕ) where
  modify_SetValid :
      (addr : ℕ) (f g h : Globals)
      → IsWell f
      → 0 < f.lru
      → f.lru + 2 < 2 ^ 31
      → cache_access addr f ≡ some g
      → cache_access addr g ≡ some h
      → SetValid f j
      → SetValid h j
  modify_SetValid addr f g h w pos small first second v =
      let (g', first', a) = cache_access-Advanced addr f w (omega arith) in
      let same : g' ≡ g = some-injective _ _ (sym first' ∙ first) in
      let a' = subst (Advanced 1 f) same a in
      cache_access-SetValid addr g h j a'.well (omega (arith, a'.lru)) (omega (arith, a'.lru))
        second (cache_access-SetValid addr f g j w pos (omega arith) first v)

  simulate_line-SetValid :
      (l : Line) (g g' : Globals)
      → IsWell g
      → 0 < g.lru
      → g.lru + accesses_of l < 2 ^ 31
      → simulate_line l g ≡ some g'
      → SetValid g j
      → SetValid g' j
  unfolding simulate_line accesses_of
  simulate_line-SetValid l g g' w pos small run v = elim (Bool-cases (l.opt == b'I')) [
    | inl fetch ↦ subst (λ x. SetValid x j) (ground arith) v
    | inr other ↦ elim (Bool-cases (l.opt == b'M')) [
      | inl modify ↦
          let twice : Option.bind (cache_access l.addr g) (cache_access l.addr) ≡ some g' =
            ground arith in
          let (h, first, second) = bind-eq-some _ (cache_access l.addr) twice in
          modify_SetValid l.addr g h g' w pos (ground arith) first second v
      | inr load ↦ cache_access-SetValid l.addr g g' j w pos (ground arith) (ground arith) v
    ]
  ]

  -- From a well-formed state after at least one access, over a trace whose accesses keep the time
  -- in an `int`, a set that keeps the invariant of the policy keeps it to the end of a run that
  -- succeeds.
  pub simulate-SetValid :
      (ls : List Line) (g g' : Globals)
      → IsWell g
      → 0 < g.lru
      → g.lru + total_accesses ls < 2 ^ 31
      → simulate ls g ≡ some g'
      → SetValid g j
      → SetValid g' j
  unfolding simulate total_accesses
  simulate-SetValid [] g g' w pos small run v = subst (λ x. SetValid x j) (some-injective _ _ run) v
  simulate-SetValid (l ∷ ls) g g' w pos small run v =
      let (h, step, rest) = bind-eq-some _ (simulate ls) run in
      let (h', step', a') = simulate_line-Advances l g w (omega arith) in
      let a = subst (Advanced _ g) (some-injective _ _ (sym step' ∙ step)) a' in
      simulate-SetValid ls h g' a.well (omega (arith, a.lru)) (omega (arith, a.lru)) rest
        (simulate_line-SetValid l g h w pos (omega arith) step v)
