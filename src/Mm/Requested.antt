-- ===== src/Mm/Requested.antt =====
-- `mm_malloc` of ASSN/ASSN6/mm.c in every well-formed heap.
use Prim.Native.Nat.{max}
use csed.Prelude.{
  ℕ, ◌+◌, ◌^◌, ◌≤◌, ◌<◌, ◌≡◌, ◌≢◌, ◌⊎◌, inl, inr, refl, ◌∙◌, ap, Option, none, some, List, ◌++◌,
  arith, lt-cases,
}
use csed.Mm.{State, mem_sbrk, align, chunk_size, adjust}
use csed.Mm.Heap.{find_fit, extend_heap, place, malloc_at, mm_malloc}
use csed.Mm.Blocks.{Block, IsSize}
use csed.Mm.Invariant.{IsHeap}
use csed.Mm.Fit.{NoneFits}
use csed.Mm.Malloc.{Allocated, malloc_at-Allocated, mm_malloc-at, adjust-bounds}
use csed.Mm.Opened.{align-IsSize}
use csed.Mm.Answered.{extend_heap-Enlarged, Answered, answered}

-- The bytes by which the heap grows for a block of `asize` bytes.
abbrev pub growth : ℕ → ℕ
growth asize = max asize chunk_size

-- How a request of `asize` bytes ends in a heap of the blocks `all`, for the run `run`: a block
-- that fits is split; if there is none, the heap grows and the block is split from its end, or the
-- break has no room and the answer is the null pointer, in the heap as it was.
abbrev pub Requested : ℕ → State → List Block → List Block → Option (Option ℕ × State) → Type 0
Requested asize s pre post run =
    ◌⊎◌ ((r : ℕ) × (s' : State) × (run ≡ some (some r, s')) × Allocated asize s (pre ++ post) r s')
      ((NoneFits asize pre × NoneFits asize post)
        × ◌⊎◌
            ((s.brk + growth asize ≤ s.max_addr)
              × ((r : ℕ) × (s' : State) × (run ≡ some (some r, s'))
                  × Answered asize (growth asize) s (pre ++ post) r s'))
            ((s.max_addr < s.brk + growth asize) × (run ≡ some (none, s))))

module _ (asize : ℕ) (s : State) (ok : IsSize asize) where
  growth-IsSize : IsSize (growth asize)
  growth-IsSize =
      let a = ok.aligned in
      let small = ok.small in
      record { aligned = omega arith; big = omega arith; small = omega arith }

  mem_sbrk-full : s.max_addr < s.brk + growth asize → mem_sbrk (align (growth asize)) s ≡ none
  mem_sbrk-full full =
      ap (λ n. mem_sbrk n s) (align-IsSize (growth asize) growth-IsSize)
      ∙ unfold mem_sbrk in ground arith

  extend_heap-full : s.max_addr < s.brk + growth asize → extend_heap (growth asize) s ≡ none
  unfolding extend_heap
  extend_heap-full full = rw (mem_sbrk-full full, extend_heap) refl

  malloc_at-full :
      find_fit asize s ≡ some (none, s)
      → extend_heap (growth asize) s ≡ none
      → malloc_at asize s ≡ some (none, s)
  unfolding malloc_at
  malloc_at-full run full = rw (run, malloc_at) (rw full refl)

  malloc_at-grown :
      (r : ℕ) (s' : State)
      → find_fit asize s ≡ some (none, s)
      → extend_heap (growth asize) s ≡ some (r, s')
      → malloc_at asize s ≡ some (some r, record s' { mem = place r asize s'.mem })
  unfolding malloc_at
  malloc_at-grown r s' run grown = rw (run, malloc_at) (rw grown refl)

  module _ (pre post : List Block) (h : IsHeap s pre post) where
    malloc_at-extends :
        find_fit asize s ≡ some (none, s)
        → (NoneFits asize pre × NoneFits asize post)
        → Requested asize s pre post (malloc_at asize s)
    malloc_at-extends run none_fits = inr (
      none_fits,
      elim (lt-cases s.max_addr (s.brk + growth asize)) [
        | inl full ↦ inr (full, malloc_at-full run (extend_heap-full full))
        | inr room ↦
            let (r, s', grown, e) =
              extend_heap-Enlarged (growth asize) s pre post h growth-IsSize room in
            inl (
              room,
              (
                r,
                record s' { mem = place r asize s'.mem },
                malloc_at-grown r s' run grown,
                answered asize (growth asize) s (pre ++ post) r s' e ok (omega arith),
              ),
            )
      ],
    )

    malloc_at-Requested : Requested asize s pre post (malloc_at asize s)
    malloc_at-Requested = elim (malloc_at-Allocated asize s pre post h ok) [
      | inl found ↦ inl found
      | inr (run, none_pre, none_post) ↦ malloc_at-extends run (none_pre, none_post)
    ]

-- In a well-formed heap, a request of at least one byte and below 2 GB is answered: from a free
-- block without a tag with room for the adjusted size, which is at least 8 bytes above the
-- request, if there is one; or else the heap grows by the adjusted size, at least by CHUNKSIZE,
-- the new space is joined with a last block that is free and has no tag, and the block is split
-- from it; the other blocks stay, no word before the split block changes, and the heap is well
-- formed again. Only if none fits and the break has no room for that is the answer the null
-- pointer, and then nothing changes.
pub mm_malloc-Requested :
    (size : ℕ) (s : State) (pre post : List Block)
    → IsHeap s pre post
    → size ≢ 0
    → size + 15 < 2 ^ 31
    → (size + 8 ≤ adjust size) × Requested (adjust size) s pre post (mm_malloc size s)
mm_malloc-Requested size s pre post h ne small =
    let (ok, room) = adjust-bounds size ne small in
    (
      room,
      rw (mm_malloc-at (adjust size) s pre post h ok size ne refl)
          (malloc_at-Requested (adjust size) s ok pre post h),
    )
