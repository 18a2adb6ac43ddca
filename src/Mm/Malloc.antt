-- ===== src/Mm/Malloc.antt =====
-- `mm_malloc` of ASSN/ASSN6/mm.c where the heap has a block that fits.
use csed.Prelude.{
  append_assoc, ℕ, ◌+◌, ◌-◌, ◌^◌, ◌≤◌, ◌<◌, ◌≡◌, refl, ◌≢◌, ◌⊎◌, ◌∙◌, sym, ap, true, false, some,
  List, [], ◌∷◌, ◌++◌, arith, none, ◌==◌, inl, inr, ==-ne,
}
use csed.Mm.{State, size_of, alloc_bit, adjust}
use csed.Mm.Heap.{find_fit, place, malloc_at, mm_malloc}
use csed.Mm.Blocks.{Block, IsSize, Blocks, Blocks-le, Blocks-Agree, Blocks-append}
use csed.Mm.Place.{split, Within}
use csed.Mm.Fit.{fitting, NoneFits, Found, FirstFit}
use csed.Mm.Invariant.{prologue, IsHeap, LeastFit, find_fit-Fit}
use csed.Mm.Placed.{placed-Blocks, placed-low, placed-high, placed-swap, placed-rest}

-- What an allocation of `asize` bytes does to a heap of the blocks `all`: a free block that fits
-- is split, and nothing else changes.
pub record Allocated (asize : ℕ) (s : State) (all : List Block) (r : ℕ) (s' : State) : Type 0 where
  pub before : List Block
  pub block : Block
  pub after : List Block
  pub whole : all ≡ before ++ block ∷ after
  pub located : Blocks s.mem s.heap_listp before r
  pub kept : Blocks s'.mem s'.heap_listp before r
  pub fit : fitting asize block ≡ true
  pub pre : List Block
  pub post : List Block
  pub heap : IsHeap s' pre post
  pub whole' : pre ++ post ≡ before ++ (split asize block ++ after)
  pub unchanged : Within (r - 4) (r + block.size - 4) s.mem s'.mem

-- The prologue is allocated, and so no block that fits comes before it.
pub begin_swap :
    (asize : ℕ) (head block : Block) (before after rest : List Block)
    → head.alloc ≡ true
    → fitting asize block ≡ true
    → before ++ block ∷ after ≡ head ∷ rest
    → (rest' : List Block) × (before ++ (split asize block ++ after) ≡ head ∷ rest')
unfolding fitting
begin_swap asize head block [] after rest alloc fit e =
    let same : block ≡ head = ap (λ xs. elim xs [ [] ↦ block | x ∷ ys ↦ x ]) e in
    let taken : block.alloc ≡ true = ap (λ x. x.alloc) same ∙ alloc in absurd (ground arith)
begin_swap asize head block (b ∷ before) after rest alloc fit e =
    let same : b ≡ head = ap (λ xs. elim xs [ [] ↦ block | x ∷ ys ↦ x ]) e in
    (
      before ++ (split asize block ++ after),
      ap (λ x. x ∷ (before ++ (split asize block ++ after))) same,
    )

module _ (asize : ℕ) (s : State) (pre post : List Block) (h : IsHeap s pre post)
    (ok : IsSize asize) where
  module _ (r : ℕ) (k : FirstFit asize s.mem s.current_block post s.brk r) where
    abbrev f : Found s.mem s.current_block post s.brk r
    f = k.found

    abbrev s1 : State
    s1 = record s { mem = place r asize s.mem; current_block = r }

    abbrev new_post : List Block
    new_post = split asize f.block ++ f.after

    next_whole : pre ++ post ≡ (pre ++ f.before) ++ f.block ∷ f.after
    next_whole = ap (λ x. pre ++ x) f.whole ∙ sym (append_assoc pre f.before (f.block ∷ f.after))

    next_bounds :
        (s.heap_listp ≤ s.current_block) × (s.current_block ≤ r) × (r + f.block.size ≤ s.brk)
    next_bounds = (
      Blocks-le s.mem s.heap_listp s.current_block pre h.pre_at,
      Blocks-le s.mem s.current_block r f.before f.up_to,
      Blocks-le s.mem (r + f.block.size) s.brk f.after f.behind,
    )

    low_current : 8 ≤ s.current_block
    low_current = omega (arith, h.low, next_bounds.0)

    next_end : s1.mem (s.brk - 4) ≡ s.mem (s.brk - 4)
    next_end =
        placed-high asize s.mem s.current_block post s.brk r low_current f ok k.fit (s.brk - 4)
          (omega (arith, next_bounds.2))

    next-IsHeap : IsHeap s1 (pre ++ f.before) new_post
    next-IsHeap =
        let low = placed-low asize s.mem s.current_block post s.brk r low_current f ok k.fit in
        let located =
          Blocks-append s.mem s.heap_listp s.current_block r pre f.before h.pre_at f.up_to in
        let (rest, begin) = h.begin in
        let (rest', begin') =
          begin_swap asize prologue f.block (pre ++ f.before) f.after rest refl k.fit
            (sym next_whole ∙ begin) in
        record {
          low = h.low;
          aligned = h.aligned;
          pre_at =
              Blocks-Agree s.mem s1.mem s.heap_listp r (pre ++ f.before) (omega (arith, h.low))
                (λ x lo hi. low x hi) located;
          post_at = placed-rest asize s.mem s.current_block post s.brk r low_current f ok k.fit;
          begin = (rest', begin');
          end_size = ap size_of next_end ∙ h.end_size;
          end_alloc = ap alloc_bit next_end ∙ h.end_alloc;
          in_bounds = h.in_bounds;
          max_small = h.max_small;
        }

    next-Allocated : Allocated asize s (pre ++ post) r s1
    next-Allocated = record {
      before = pre ++ f.before;
      block = f.block;
      after = f.after;
      whole = next_whole;
      located = Blocks-append s.mem s.heap_listp s.current_block r pre f.before h.pre_at f.up_to;
      kept = next-IsHeap.pre_at;
      fit = k.fit;
      pre = pre ++ f.before;
      post = new_post;
      heap = next-IsHeap;
      whole' = refl;
      unchanged = (placed-Blocks asize s.mem s.current_block post s.brk r low_current f ok k.fit).1;
    }

  module _ (r : ℕ) (k : LeastFit asize s pre r) where
    abbrev g : Found s.mem s.heap_listp pre s.current_block r
    g = k.found

    abbrev s2 : State
    s2 = record s { mem = place r asize s.mem }

    abbrev new_pre : List Block
    new_pre = g.before ++ (split asize g.block ++ g.after)

    least_whole : pre ++ post ≡ g.before ++ g.block ∷ (g.after ++ post)
    least_whole = ap (λ x. x ++ post) g.whole ∙ append_assoc g.before (g.block ∷ g.after) post

    new_whole : new_pre ++ post ≡ g.before ++ (split asize g.block ++ (g.after ++ post))
    new_whole =
        append_assoc g.before (split asize g.block ++ g.after) post
        ∙ ap (λ x. g.before ++ x) (append_assoc (split asize g.block) g.after post)

    least_bounds : (r + g.block.size ≤ s.current_block) × (s.current_block ≤ s.brk)
    least_bounds = (
      Blocks-le s.mem (r + g.block.size) s.current_block g.after g.behind,
      Blocks-le s.mem s.current_block s.brk post h.post_at,
    )

    least-IsHeap : IsHeap s2 new_pre post
    least-IsHeap =
        let high = placed-high asize s.mem s.heap_listp pre s.current_block r h.low g ok k.fit in
        let end : s2.mem (s.brk - 4) ≡ s.mem (s.brk - 4) =
          high (s.brk - 4) (omega (arith, least_bounds.0, least_bounds.1)) in
        let le = Blocks-le s.mem s.heap_listp s.current_block pre h.pre_at in
        let (rest, begin) = h.begin in
        let (rest', begin') =
          begin_swap asize prologue g.block g.before (g.after ++ post) rest refl k.fit
            (sym least_whole ∙ begin) in
        record {
          low = h.low;
          aligned = h.aligned;
          pre_at = placed-swap asize s.mem s.heap_listp pre s.current_block r h.low g ok k.fit;
          post_at =
              Blocks-Agree s.mem s2.mem s.current_block s.brk post (omega (arith, h.low, le))
                (λ x lo hi. high x (omega (arith, least_bounds.0))) h.post_at;
          begin = (rest', new_whole ∙ begin');
          end_size = ap size_of end ∙ h.end_size;
          end_alloc = ap alloc_bit end ∙ h.end_alloc;
          in_bounds = h.in_bounds;
          max_small = h.max_small;
        }

    least-Allocated : Allocated asize s (pre ++ post) r s2
    least-Allocated = record {
      before = g.before;
      block = g.block;
      after = g.after ++ post;
      whole = least_whole;
      located = g.up_to;
      kept =
          Blocks-Agree s.mem s2.mem s.heap_listp r g.before (omega (arith, h.low))
            (λ x lo hi.
              placed-low asize s.mem s.heap_listp pre s.current_block r h.low g ok k.fit x hi)
            g.up_to;
      fit = k.fit;
      pre = new_pre;
      post = post;
      heap = least-IsHeap;
      whole' = new_whole;
      unchanged = (placed-Blocks asize s.mem s.heap_listp pre s.current_block r h.low g ok k.fit).1;
    }

  malloc_at-found :
      (r : ℕ) (s' : State)
      → find_fit asize s ≡ some (some r, s')
      → malloc_at asize s ≡ some (some r, record s' { mem = place r asize s'.mem })
  unfolding malloc_at
  malloc_at-found r s' run = rw (run, malloc_at) refl

  -- Unless no block of the heap fits, the allocation succeeds in one that does.
  pub malloc_at-Allocated :
      ◌⊎◌
        ((r : ℕ) × (s' : State) × (malloc_at asize s ≡ some (some r, s'))
          × Allocated asize s (pre ++ post) r s')
        ((find_fit asize s ≡ some (none, s)) × NoneFits asize pre × NoneFits asize post)
  malloc_at-Allocated = elim (find_fit-Fit asize s pre post h) [
    | inl (r, run, k) ↦ inl (r, s1 r k, malloc_at-found r _ run, next-Allocated r k)
    | inr (none_post, inl (r, run, k)) ↦
        inl (r, s2 r k, malloc_at-found r s run, least-Allocated r k)
    | inr (none_post, inr (run, none_pre)) ↦ inr (run, none_pre, none_post)
  ]

  -- The allocation of more than no bytes.
  pub mm_malloc-at :
      (size : ℕ) → size ≢ 0 → adjust size ≡ asize → mm_malloc size s ≡ malloc_at asize s
  unfolding mm_malloc
  mm_malloc-at size ne e =
      let test : (size == 0) ≡ false = ==-ne size 0 ne in
      let there : (s.heap_listp == 0) ≡ false = ==-ne s.heap_listp 0 (omega (arith, h.low)) in
      rw (test, there, e) refl

pub adjust-bounds :
    (size : ℕ) → size ≢ 0 → size + 15 < 2 ^ 31 → IsSize (adjust size) × (size + 8 ≤ adjust size)
unfolding adjust
adjust-bounds size ne small =
    (record { aligned = ground arith; big = ground arith; small = ground arith }, ground arith)

-- In a well-formed heap, a request of at least one byte and below 2 GB is answered from the heap
-- whenever a free block without a tag has room for its adjusted size, which leaves room for the
-- request and 8 bytes more: such a block is split or taken whole, every other block stays where it
-- is, no word outside of the block changes, and the heap is well formed again.
pub mm_malloc-Allocated :
    (size : ℕ) (s : State) (pre post : List Block)
    → IsHeap s pre post
    → size ≢ 0
    → size + 15 < 2 ^ 31
    → (size + 8 ≤ adjust size)
      × ◌⊎◌
          ((r : ℕ) × (s' : State) × (mm_malloc size s ≡ some (some r, s'))
            × Allocated (adjust size) s (pre ++ post) r s')
          (NoneFits (adjust size) pre × NoneFits (adjust size) post)
mm_malloc-Allocated size s pre post h ne small =
    let (ok, room) = adjust-bounds size ne small in
    let same = mm_malloc-at (adjust size) s pre post h ok size ne refl in
    (
      room,
      elim (malloc_at-Allocated (adjust size) s pre post h ok) [
        | inl (r, s', run, k) ↦ inl (r, s', same ∙ run, k)
        | inr (_, none_pre, none_post) ↦ inr (none_pre, none_post)
      ],
    )
