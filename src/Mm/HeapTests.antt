-- ===== src/Mm/HeapTests.antt =====
-- A run of the allocator of ASSN/ASSN6/mm.c: a request, and the block of it is freed.
use csed.Prelude.{ℕ, Option, ◌≡◌, refl, true, false, some, none, List, [], ◌∷◌, arith}
use csed.Mm.{
  State, sub32, size_of, alloc_bit, tag_bit, pack, with_tag, without_tag, put, put_with_tag,
  put_tag, delete_tag, ftrp, next_blkp, prev_blkp, mem_sbrk, align, adjust,
}
use csed.Mm.Heap.{
  mm_init, settle, put_block, put_new_block, merge_prev, merge_both, coalesce, extend_heap, fits,
  next_fit, better, best_fit, find_fit, place, malloc_at, mm_malloc, mm_free,
}
use csed.Mm.Blocks.{Block}
use csed.Mm.Invariant.{IsHeap, prologue}
use csed.Mm.Coalesce.{free_block}
use csed.Mm.Usable.{IsUsable, mm_malloc-IsUsable}
use csed.Mm.Reached.{IsBlock, Reached, initial, malloc, free, Reached-IsHeap}

program : Unit {0}
unfolding sub32 size_of alloc_bit tag_bit pack with_tag without_tag put put_with_tag put_tag
    delete_tag ftrp next_blkp prev_blkp mem_sbrk align adjust mm_init settle put_block put_new_block
    merge_prev merge_both coalesce extend_heap fits next_fit better best_fit find_fit place
    malloc_at mm_malloc mm_free
program = tt

abbrev before_init : State
before_init = record {
  mem = λ a. 0;
  mem_start_brk = 8;
  brk = 8;
  max_addr = 0x1400000;
  heap_listp = 0;
  current_block = 0;
}

abbrev after_init : State
after_init = (mm_init before_init).1

-- The answer to a request of 100 bytes.
abbrev answer : Option ℕ × State
answer = elim (mm_malloc 100 after_init) [ none ↦ (none, after_init) | some result ↦ result ]

answer-run : mm_malloc 100 after_init ≡ some (some 24, answer.1)
unfolding program
answer-run = refl

abbrev in_use : Block
in_use = record { size = 112; alloc = true; tag = false }

answer-IsBlock : IsBlock answer.1 24
unfolding program
answer-IsBlock = record {
  front = [];
  prev = prologue;
  block = in_use;
  tail = free_block 3984 false ∷ [];
  start = 16;
  front_at = refl;
  blocks_at = (
    record {
      is_size = record { aligned = refl; big = omega arith; small = omega arith };
      header = refl;
      foot_size = refl;
      foot_alloc = refl;
    },
    (
      record {
        is_size = record { aligned = refl; big = omega arith; small = omega arith };
        header = refl;
        foot_size = refl;
        foot_alloc = refl;
      },
      (
        record {
          is_size = record { aligned = refl; big = omega arith; small = omega arith };
          header = refl;
          foot_size = refl;
          foot_alloc = refl;
        },
        refl,
      ),
    ),
  );
  is_start = refl;
}

answer-Reached : Reached before_init (mm_free (some 24) answer.1)
answer-Reached =
    free 24 answer.1 (malloc 100 after_init answer.1 (some 24) initial (omega arith) answer-run)
      answer-IsBlock

Reached-IsHeap_example :
    (pre : List Block) × (post : List Block) × IsHeap (mm_free (some 24) answer.1) pre post
Reached-IsHeap_example =
    Reached-IsHeap before_init refl (omega arith) (omega arith) (mm_free (some 24) answer.1)
      answer-Reached

mm_malloc-IsUsable_example : IsUsable answer.1 24 108
mm_malloc-IsUsable_example =
    mm_malloc-IsUsable before_init refl (omega arith) (omega arith) 100 after_init answer.1 24
      initial (omega arith) (omega arith) answer-run
