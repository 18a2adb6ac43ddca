-- ===== src/Mm/Invariant.antt =====
-- The invariant of the heap of ASSN/ASSN6/mm.c, and what `find_fit` finds in such a heap.
use mathlib.Core.Option
use mathlib.Core.Path.{subst}
use csed.Prelude.{
  ℕ, ◌+◌, ◌-◌, ◌%◌, ◌^◌, ◌≤◌, ◌<◌, ◌≡◌, refl, ◌⊎◌, ap, true, false, Option, none, some, List, [],
  ◌∷◌, ◌++◌, arith, inl, inr, Bool-cases, length, All,
}
use csed.Mm.{Memory, State, size_of, alloc_bit}
use csed.Mm.Heap.{next_fit, Best, best_fit, find_fit}
use csed.Mm.Blocks.{Block, Blocks}
use csed.Mm.Fit.{fitting, NoneFits, Found, FirstFit, next_fit-NextFit}
use csed.Mm.BestFit.{AtMost, BestFit, best_fit-BestFit}

abbrev pub prologue : Block
prologue = record { size = 8; alloc = true; tag = false }

-- The heap holds the blocks `pre` up to the current block and `post` from there to the epilogue.
pub record IsHeap (s : State) (pre post : List Block) : Type 0 where
  pub low : 8 ≤ s.heap_listp
  pub aligned : s.heap_listp % 8 ≡ 0
  pub pre_at : Blocks s.mem s.heap_listp pre s.current_block
  pub post_at : Blocks s.mem s.current_block post s.brk
  pub begin : (rest : List Block) × (pre ++ post ≡ prologue ∷ rest)
  pub end_size : size_of (s.mem (s.brk - 4)) ≡ 0
  pub end_alloc : alloc_bit (s.mem (s.brk - 4)) ≡ true
  pub in_bounds : s.brk ≤ s.max_addr
  pub max_small : s.max_addr < 2 ^ 31

pub Blocks-length :
    (mem : Memory) (p q : ℕ) (bs : List Block) → Blocks mem p bs q → p + length bs ≤ q
Blocks-length mem p q [] h = omega arith
Blocks-length mem p q (b ∷ bs) h =
    let big = h.0.is_size.big in omega (arith, Blocks-length mem (p + b.size) q bs h.1)

-- A smallest block that fits, among the ones before the current block.
pub record LeastFit (asize : ℕ) (s : State) (pre : List Block) (r : ℕ) : Type 0 where
  pub found : Found s.mem s.heap_listp pre s.current_block r
  pub fit : fitting asize found.block ≡ true
  pub least : All (λ b. fitting asize b ≡ true → found.block.size ≤ b.size) pre

-- What `find_fit` returns: the first block from the current one that fits, or else a smallest one
-- before the current block, or else nothing.
abbrev pub Fit : ℕ → State → List Block → List Block → Option (Option ℕ × State) → Type 0
Fit asize s pre post result =
    ◌⊎◌
      ((r : ℕ) × (result ≡ some (some r, record s { current_block = r }))
        × FirstFit asize s.mem s.current_block post s.brk r)
      (NoneFits asize post
        × ◌⊎◌ ((r : ℕ) × (result ≡ some (some r, s)) × LeastFit asize s pre r)
            ((result ≡ some (none, s)) × NoneFits asize pre))

NoneFits-of_none :
    (asize : ℕ) (bs : List Block)
    → All (λ b. fitting asize b ≡ true → AtMost b.size none) bs
    → NoneFits asize bs
NoneFits-of_none asize [] h = tt
NoneFits-of_none asize (b ∷ bs) h = (unfit, NoneFits-of_none asize bs h.1)
  where
    unfit : fitting asize b ≡ false
    unfit = elim (Bool-cases (fitting asize b)) [
      | inl good ↦ absurd (cc (h.0 good))
      | inr bad ↦ bad
    ]

module _ (asize : ℕ) (s : State) (pre post : List Block) (h : IsHeap s pre post) where
  abbrev fuel : ℕ
  fuel = s.brk + 1

  find_fit-next :
      (r : ℕ)
      → next_fit fuel asize s.current_block s.mem ≡ some (true, r)
      → find_fit asize s ≡ some (some r, record s { current_block = r })
  unfolding find_fit
  find_fit-next r run = rw (run, find_fit) refl

  find_fit-best :
      (q : ℕ) (best : Best)
      → next_fit fuel asize s.current_block s.mem ≡ some (false, q)
      → best_fit fuel asize s.heap_listp s.current_block none s.mem ≡ some (best, s.current_block)
      → find_fit asize s ≡ some (Option.map (λ (bp, size). bp) best, s)
  unfolding find_fit
  find_fit-best q best run run' = rw (run, find_fit) (rw (run', find_fit) refl)

  best_cases :
      (best : Best) (result : Option (Option ℕ × State))
      → result ≡ some (Option.map (λ (bp, size). bp) best, s)
      → BestFit asize s.mem s.heap_listp pre s.current_block none best
      → ◌⊎◌
          ((r : ℕ) × (result ≡ some (some r, s)) × LeastFit asize s pre r)
          ((result ≡ some (none, s)) × NoneFits asize pre)
  best_cases none result e k = inr (e, NoneFits-of_none asize pre k.least)
  best_cases (some (r, m)) result e k = elim k.origin [
    | inl same ↦ absurd (cc same)
    | inr (r', f, fit, same) ↦
        let same_r : r ≡ r' = ap (λ x. elim x [ none ↦ 0 | some (y, z) ↦ y ]) same in
        let same_m : m ≡ f.block.size = ap (λ x. elim x [ none ↦ 0 | some (y, z) ↦ z ]) same in
        inl (
          r',
          rw e (ap (λ x. some (some x, s)) same_r),
          record {
            found = f;
            fit = fit;
            least = subst (λ x. All (λ b. fitting asize b ≡ true → x ≤ b.size) pre) same_m k.least;
          },
        )
  ]

  -- In a well-formed heap `find_fit` returns: it finds the first block from the current one that
  -- is free, has no tag and is large enough, and makes it the current one. If there is none, it
  -- finds a smallest such block before the current one, and if there is none either, nothing; the
  -- current block is then as before.
  pub find_fit-Fit : Fit asize s pre post (find_fit asize s)
  find_fit-Fit =
      let n = Blocks-length s.mem s.current_block s.brk post h.post_at in
      let n' = Blocks-length s.mem s.heap_listp s.current_block pre h.pre_at in
      elim (next_fit-NextFit asize s.mem fuel s.current_block post s.brk h.end_size (omega arith)
        h.post_at) [
          | inr (r, run, f) ↦ inl (r, find_fit-next r run, f)
          | inl (run, none_fits) ↦
              let (best, run', k) =
                best_fit-BestFit asize s.mem fuel s.heap_listp pre s.current_block none
                  (omega arith) h.pre_at tt in
              inr (none_fits, best_cases best _ (find_fit-best s.brk best run run') k)
        ]
