-- ===== src/Csim/Policy.antt =====
-- The replacement policy of the whole cache (ASSN/ASSN4/csim.c), access by access.
use mathlib.Core.Option.{some-injective}
use csed.Prelude.{
  ==-refl, ==-ne, set, ◌==◌, if◌then◌else◌, ℕ, ◌+◌, ◌^◌, ◌<◌, ◌≡◌, refl, ◌∙◌, ◌≢◌, some, List,
  arith, Option-cases, inl, inr, get_elem?, lt_of_get_elem?, get_elem?-set_self, get_elem?-set_ne,
  sym, ap,
}
use mathlib.Core.Path.{subst}
use native.Mathlib.Decide.{ℕ_discrete}
use csed.Csim.{
  Block, Set, Globals, Outcome, hit, miss, eviction, count, put_blocks, index_of, tag_of,
  cache_access, access_blocks,
}
use csed.Csim.Lru.{view, LruStep, IsValid, Stepped, Stamped-later, access_blocks-Stepped}
use csed.Csim.Access.{cache_access-some, Counted, count-Counted}
use csed.Csim.Totals.{IsWell, cache_access-Advanced}

-- The set `j` keeps the invariant of the abstract set.
pub record SetValid (g : Globals) (j : ℕ) : Type 0 where
  pub found : Set
  pub at : get_elem? g.cache.set_list j ≡ some found
  pub valid : IsValid g.e g.lru found.block_list

-- An access to `addr`: the set at its index makes a step of the abstract set, the counters say
-- which, and every other set is as before.
pub record Replaced (addr : ℕ) (g g' : Globals) : Type 0 where
  pub outcome : Outcome
  pub before : Set
  pub after : Set
  pub before_at : get_elem? g.cache.set_list (index_of addr g) ≡ some before
  pub step :
      LruStep g.e (tag_of addr g) g.lru (view before.block_list) (view after.block_list) outcome
  pub valid : IsValid g'.e g'.lru after.block_list
  pub counted : Counted outcome (record g { cache = g'.cache }) g'
  pub others :
      (j : ℕ)
      → get_elem? g'.cache.set_list j
        ≡ (if index_of addr g == j then some after else get_elem? g.cache.set_list j)

module _ (addr : ℕ) (g : Globals) (w : IsWell g) (small : g.lru + 1 < 2 ^ 31)
    (v : SetValid g (index_of addr g)) where
  abbrev i : ℕ
  i = index_of addr g

  abbrev new : List Block → Set
  new ys = record { block_list = ys }

  set_at :
      (ys : List Block) (j : ℕ)
      → get_elem? (set g.cache.set_list i (new ys)) j
        ≡ (if i == j then some (new ys) else get_elem? g.cache.set_list j)
  set_at ys j = elim (ℕ_discrete i j) [
    | yes same ↦
        rw (← same, ==-refl i)
          (get_elem?-set_self g.cache.set_list i (new ys) (lt_of_get_elem? g.cache.set_list i v.at))
    | no ne ↦ rw (==-ne i j ne) (get_elem?-set_ne g.cache.set_list i j (new ys) ne)
  ]

  Stepped-Replaced :
      (o : Outcome) (ys : List Block)
      → Stepped g.e (tag_of addr g) g.lru v.found.block_list o ys
      → Replaced addr g (count o (put_blocks g i ys))
  unfolding put_blocks
  Stepped-Replaced o ys st =
      let g0 = put_blocks g i ys in
      let c =
        count-Counted o g0 small (omega (arith, w.accesses)) (omega (arith, w.accesses))
          (omega (arith, w.accesses, w.filled)) in
      record {
        outcome = o;
        before = v.found;
        after = new ys;
        before_at = v.at;
        step = st.step;
        valid = rw (c.e, c.lru) st.valid;
        counted = record {
          lru = c.lru;
          hits = c.hits;
          misses = c.misses;
          evictions = c.evictions;
          cache = refl;
          s = c.s;
          e = c.e;
          b = c.b;
        };
        others = λ j. rw c.cache (set_at ys j);
      }

  -- After at least one access, in a well-formed state whose time stays in an `int`, an access to
  -- an address whose set keeps the invariant succeeds: that set makes a step of the abstract set
  -- with least-recently-used replacement and keeps its invariant, the counters advance as the
  -- outcome says, and every other set is as before.
  pub cache_access-Replaced :
      0 < g.lru → (g' : Globals) × (cache_access addr g ≡ some g') × Replaced addr g g'
  cache_access-Replaced pos =
      let (o, ys, e, st) =
        access_blocks-Stepped g.e (tag_of addr g) g.lru v.found.block_list v.valid w.some_line pos
          (omega arith) in
      (
        count o (put_blocks g i ys),
        cache_access-some addr g v.found o ys v.at e,
        Stepped-Replaced o ys st,
      )

set_list-count : (o : Outcome) (g : Globals) → (count o g).cache.set_list ≡ g.cache.set_list
unfolding count
set_list-count hit g = refl
set_list-count miss g = refl
set_list-count eviction g = refl

-- An access touches only the set at its index.
pub cache_access-others :
    (addr : ℕ) (g g' : Globals) (j : ℕ)
    → cache_access addr g ≡ some g'
    → index_of addr g ≢ j
    → get_elem? g'.cache.set_list j ≡ get_elem? g.cache.set_list j
unfolding cache_access put_blocks
cache_access-others addr g g' j run ne =
    elim (Option-cases (get_elem? g.cache.set_list (index_of addr g))) [
      | inl out ↦ ground arith
      | inr (x, at) ↦ elim (Option-cases (access_blocks (tag_of addr g) g.lru x.block_list)) [
        | inl bad ↦ ground arith
        | inr ((o, ys), e) ↦
            let same = some-injective _ _ (sym run ∙ cache_access-some addr g x o ys at e) in
            rw (same, set_list-count o (put_blocks g (index_of addr g) ys))
              (get_elem?-set_ne g.cache.set_list (index_of addr g) j (record { block_list = ys })
                ne)
      ]
    ]

pub SetValid-eq :
    (g g' : Globals) (j : ℕ)
    → g'.lru ≡ g.lru + 1
    → g'.e ≡ g.e
    → get_elem? g'.cache.set_list j ≡ get_elem? g.cache.set_list j
    → SetValid g j
    → SetValid g' j
SetValid-eq g g' j time lines same v = record {
  found = v.found;
  at = same ∙ v.at;
  valid = record {
    lines_eq = v.valid.lines_eq ∙ sym lines;
    distinct = v.valid.distinct;
    stamped = rw time (Stamped-later g.lru v.found.block_list v.valid.stamped);
  };
}

Replaced-SetValid : (addr : ℕ) (g g' : Globals) → Replaced addr g g' → SetValid g' (index_of addr g)
Replaced-SetValid addr g g' r = record {
  found = r.after;
  at = r.others (index_of addr g) ∙ rw (==-refl (index_of addr g));
  valid = r.valid;
}

-- Every set that keeps the invariant keeps it over any access.
pub cache_access-SetValid :
    (addr : ℕ) (g g' : Globals) (j : ℕ)
    → IsWell g
    → 0 < g.lru
    → g.lru + 1 < 2 ^ 31
    → cache_access addr g ≡ some g'
    → SetValid g j
    → SetValid g' j
cache_access-SetValid addr g g' j w pos small run v =
    let (h, run', a) = cache_access-Advanced addr g w small in
    let same : h ≡ g' = some-injective _ _ (sym run' ∙ run) in
    elim (ℕ_discrete (index_of addr g) j) [
      | no ne ↦
          SetValid-eq g g' j (ap (λ x. x.lru) (sym same) ∙ a.lru) (ap (λ x. x.e) (sym same) ∙ a.e)
            (cache_access-others addr g g' j run ne) v
      | yes at ↦
          let v' = subst (SetValid g) (sym at) v in
          let (k, run'', r) = cache_access-Replaced addr g w small v' pos in
          let same' : k ≡ g' = some-injective _ _ (sym run'' ∙ run) in
          subst (SetValid g') at
            (subst (λ x. SetValid x (index_of addr g)) same' (Replaced-SetValid addr g k r))
    ]
