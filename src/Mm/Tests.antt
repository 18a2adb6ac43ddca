-- ===== src/Mm/Tests.antt =====
-- Runs of the allocator of ASSN/ASSN6/mm.c, and the theorems at them.
use csed.Prelude.{
  ℕ, List, ◌++◌, ◌≡◌, ◌≤◌, refl, true, false, some, [], ◌∷◌, ◌==◌, if◌then◌else◌, arith,
}
use csed.Mm.{
  Memory, State, sub32, size_of, alloc_bit, tag_bit, pack, with_tag, without_tag, put, put_with_tag,
  put_tag, delete_tag, ftrp, next_blkp, prev_blkp, is_block_allocated, mem_sbrk, align, adjust,
}
use csed.Mm.Heap.{
  mm_init, settle, put_block, put_new_block, merge_prev, merge_both, coalesce, extend_heap, fits,
  next_fit, better, best_fit, find_fit, place, malloc_at, mm_malloc, mm_free,
}
use csed.Mm.Realloc.{
  Reply, reply, undefined, mix, memmove, recycle, extend_heap_recycle, negative, finish, finish_at,
  grow, move, grow_back, mm_realloc,
}
use csed.Mm.Blocks.{Block, IsSize, BlockAt, Blocks}
use csed.Mm.Place.{Within}
use csed.Mm.Invariant.{IsHeap, prologue, Fit, find_fit-Fit}
use csed.Mm.Requested.{Requested, mm_malloc-Requested}
use csed.Mm.Coalesce.{free_block}
use csed.Mm.Merged.{merged}
use csed.Mm.Free.{mm_free-merged}
use csed.Mm.Coalesced.{joined}
use csed.Mm.Untagged.{untag_first}
use csed.Mm.Freed.{mm_free-IsHeap}
use csed.Mm.Kept.{HasRoom, in_next, KeepsData, mm_realloc-KeepsData}
use csed.Mm.Init.{mm_init-IsHeap}

program : Unit {0}
unfolding sub32 size_of alloc_bit tag_bit pack with_tag without_tag put put_with_tag put_tag
    delete_tag ftrp next_blkp prev_blkp is_block_allocated mem_sbrk align adjust mm_init settle
    put_block put_new_block merge_prev merge_both coalesce extend_heap fits next_fit better best_fit
    find_fit place malloc_at mm_malloc mm_free mix memmove recycle extend_heap_recycle negative
    finish finish_at grow move grow_back mm_realloc
program = tt

abbrev state : Memory → ℕ → State
state mem brk = record {
  mem = mem;
  mem_start_brk = 8;
  brk = brk;
  max_addr = 0x1400000;
  heap_listp = 16;
  current_block = 16;
}

abbrev empty : State
empty = record {
  mem = λ a. 0;
  mem_start_brk = 8;
  brk = 8;
  max_addr = 0x1400000;
  heap_listp = 0;
  current_block = 0;
}

mm_init-IsHeap_example : ((mm_init empty).0 ≡ true) × IsHeap (mm_init empty).1 [] (prologue ∷ [])
mm_init-IsHeap_example = mm_init-IsHeap empty refl (omega arith) (omega arith)

-- The prologue and one free block.
abbrev free_words : Memory
free_words a =
    if a == 12
    then 9
    else if a == 16
    then 9
    else if a == 20
    then 4096
    else if a == 4112
    then 4096
    else if a == 4116
    then 1
    else 0

abbrev large : Block
large = free_block 4096 false

abbrev free_heap : State
free_heap = state free_words 4120

prologue_at : BlockAt free_words 16 prologue
unfolding program
prologue_at = record {
  is_size = record { aligned = refl; big = omega arith; small = omega arith };
  header = refl;
  foot_size = refl;
  foot_alloc = refl;
}

large_at : BlockAt free_words 24 large
unfolding program
large_at = record {
  is_size = record { aligned = refl; big = omega arith; small = omega arith };
  header = refl;
  foot_size = refl;
  foot_alloc = refl;
}

free_heap-IsHeap : IsHeap free_heap [] (prologue ∷ large ∷ [])
unfolding program
free_heap-IsHeap = record {
  low = omega arith;
  aligned = refl;
  pre_at = refl;
  post_at = (prologue_at, (large_at, refl));
  begin = (large ∷ [], refl);
  end_size = refl;
  end_alloc = refl;
  in_bounds = omega arith;
  max_small = omega arith;
}

find_fit-Fit_example : Fit 112 free_heap [] (prologue ∷ large ∷ []) (find_fit 112 free_heap)
find_fit-Fit_example = find_fit-Fit 112 free_heap [] (prologue ∷ large ∷ []) free_heap-IsHeap

-- Before the first request the heap has no block, and grows.
abbrev initial_heap : State
initial_heap = (mm_init empty).1

mm_malloc-Requested_example :
    (108 ≤ adjust 100)
    × Requested (adjust 100) initial_heap [] (prologue ∷ []) (mm_malloc 100 initial_heap)
mm_malloc-Requested_example =
    mm_malloc-Requested 100 initial_heap [] (prologue ∷ [])
      (mm_init-IsHeap empty refl (omega arith) (omega arith)).1 (omega arith) (omega arith)

-- Behind the prologue an allocated block, a free one and an allocated one.
abbrev mixed_words : Memory
mixed_words a =
    if a == 12
    then 9
    else if a == 16
    then 9
    else if a == 20
    then 17
    else if a == 32
    then 17
    else if a == 36
    then 16
    else if a == 48
    then 16
    else if a == 52
    then 17
    else if a == 64
    then 17
    else if a == 68
    then 1
    else 0

abbrev mixed_heap : State
mixed_heap = state mixed_words 72

abbrev taken_block : Block
taken_block = record { size = 16; alloc = true; tag = false }

small_IsSize : IsSize 16
small_IsSize = record { aligned = refl; big = omega arith; small = omega arith }

mixed_prologue : BlockAt mixed_words 16 prologue
unfolding program
mixed_prologue = record {
  is_size = record { aligned = refl; big = omega arith; small = omega arith };
  header = refl;
  foot_size = refl;
  foot_alloc = refl;
}

mixed_blocks :
    BlockAt mixed_words 24 taken_block
    × BlockAt mixed_words 40 (free_block 16 false)
    × BlockAt mixed_words 56 taken_block
unfolding program
mixed_blocks = (
  record { is_size = small_IsSize; header = refl; foot_size = refl; foot_alloc = refl },
  record { is_size = small_IsSize; header = refl; foot_size = refl; foot_alloc = refl },
  record { is_size = small_IsSize; header = refl; foot_size = refl; foot_alloc = refl },
)

mixed_heap-IsHeap :
    IsHeap mixed_heap [] (prologue ∷ taken_block ∷ free_block 16 false ∷ taken_block ∷ [])
unfolding program
mixed_heap-IsHeap = record {
  low = omega arith;
  aligned = refl;
  pre_at = refl;
  post_at = (mixed_prologue, (mixed_blocks.0, (mixed_blocks.1, (mixed_blocks.2, refl))));
  begin = (taken_block ∷ free_block 16 false ∷ taken_block ∷ [], refl);
  end_size = refl;
  end_alloc = refl;
  in_bounds = omega arith;
  max_small = omega arith;
}

-- The last block is freed: the epilogue is behind it.
mm_free-IsHeap_example :
    (pre' : List Block) × (post' : List Block) × IsHeap (mm_free (some 56) mixed_heap) pre' post'
    × (pre' ++ post'
        ≡ prologue ∷ taken_block ∷ joined (free_block 16 false) (free_block 16 false) [])
unfolding untag_first
mm_free-IsHeap_example =
    mm_free-IsHeap mixed_heap [] (prologue ∷ taken_block ∷ free_block 16 false ∷ taken_block ∷ [])
      (prologue ∷ taken_block ∷ []) [] (free_block 16 false) taken_block 40 mixed_heap-IsHeap refl
      (mixed_prologue, (mixed_blocks.0, refl))

mm_free-merged_example :
    Blocks
      (mm_free (some 24) mixed_heap).mem
      16
      (merged prologue (free_block 16 false) (free_block 16 false))
      56
    × Within 12 52 mixed_words (mm_free (some 24) mixed_heap).mem
mm_free-merged_example =
    mm_free-merged mixed_heap 16 prologue taken_block (free_block 16 false) (omega arith)
      (omega arith) mixed_prologue mixed_blocks.0 mixed_blocks.1 (omega arith)

-- The header that `mm_realloc` gives the block at 24, where the free block behind it is too small:
-- the new size reaches over the allocated block at 56.
abbrev header_after : Reply → ℕ
header_after (reply p s) = s.mem 20
header_after undefined = 0

mm_realloc-overlaps : header_after (mm_realloc 24 100 mixed_heap) ≡ 4129
unfolding program
mm_realloc-overlaps = refl

-- An allocated block of 16 bytes in front of a free one of 160 and an allocated one.
abbrev roomy_words : Memory
roomy_words a =
    if a == 12
    then 9
    else if a == 16
    then 9
    else if a == 20
    then 17
    else if a == 32
    then 17
    else if a == 36
    then 160
    else if a == 192
    then 160
    else if a == 196
    then 17
    else if a == 208
    then 17
    else if a == 212
    then 1
    else 0

abbrev roomy_heap : State
roomy_heap = state roomy_words 216

roomy_first : BlockAt roomy_words 24 taken_block
unfolding program
roomy_first = record { is_size = small_IsSize; header = refl; foot_size = refl; foot_alloc = refl }

roomy_HasRoom : HasRoom 24 8 taken_block roomy_words
unfolding program
roomy_HasRoom =
    in_next (free_block 160 false) taken_block
      (record {
        is_size = record { aligned = refl; big = omega arith; small = omega arith };
        header = refl;
        foot_size = refl;
        foot_alloc = refl;
      })
      (record { is_size = small_IsSize; header = refl; foot_size = refl; foot_alloc = refl }) refl
      (omega arith) (omega arith) (omega arith) (omega arith)

mm_realloc-KeepsData_example : KeepsData 24 8 taken_block roomy_heap (mm_realloc 24 8 roomy_heap)
mm_realloc-KeepsData_example =
    mm_realloc-KeepsData 24 8 taken_block roomy_heap (omega arith) roomy_first refl (omega arith)
      (omega arith) roomy_HasRoom
