-- ===== src/Mdriver/Tests.antt =====
-- Runs of the driver of ASSN/ASSN6/mdriver.c, and the theorems at them.
use csed.Prelude.{
  none, replicate, length, All, ℕ, ◌+◌, ◌*◌, ◌/◌, ◌≡◌, refl, true, some, List, [], ◌∷◌, arith,
}
use csed.Mm.{
  State, sub32, size_of, alloc_bit, tag_bit, pack, with_tag, without_tag, put, put_with_tag,
  put_tag, delete_tag, ftrp, next_blkp, prev_blkp, is_block_allocated, mem_reset_brk, mem_heap_lo,
  mem_heap_hi, mem_heapsize, mem_sbrk, align, adjust,
}
use csed.Mm.Heap.{
  mm_init, settle, put_block, put_new_block, merge_prev, merge_both, coalesce, extend_heap, fits,
  next_fit, better, best_fit, find_fit, place, malloc_at, mm_malloc, mm_free,
}
use csed.Mm.Realloc.{
  mix, memmove, recycle, extend_heap_recycle, negative, finish, finish_at, grow, move, grow_back,
  mm_realloc,
}
use csed.Mdriver.OnMm.{byte_of, set_byte, memset, malloc_result, realloc_result, mm_package}
use csed.Mdriver.{
  Range, overlaps, overlaps_any, lies_outside, add_range, added, remove_range, Op, alloc, realloc,
  Package, Run, valid, int_of_char, all_bytes,
}
use csed.Mdriver.Valid.{
  remember, valid_alloc, moved, valid_realloc, valid_free, valid_op, valid_ops, eval_mm_valid,
}
use csed.Mdriver.Ranges.{Acceptable, Loose, add_range-accepts}
use csed.Mdriver.Checked.{eval_mm_valid-Loose}
use csed.Mdriver.{free}
use csed.Prelude.Words.{int_add, int_neg, int_lt}
use csed.Mdriver.Util.{
  finished, int_max, count_block, util_alloc, util_realloc, util_free, util_op, util_ops,
  eval_mm_util, eval_mm_speed,
}
use csed.Mdriver.Held.{TraceOk, sum_live, live_after, high_water}
use csed.Mdriver.Peak.{Evaluated, eval_mm_util-Evaluated}
use csed.Mdriver.Trace.{
  Request, op_of, next_max, read_ops, read, read_trace, InRange, read_trace-InRange,
}

program : Unit {0}
unfolding overlaps overlaps_any lies_outside add_range remove_range int_of_char all_bytes remember
    valid_alloc moved valid_realloc valid_free valid_op valid_ops eval_mm_valid
program = tt

-- An allocator that hands out the memory from 8 on; its state is the next address.
abbrev bump : Package ℕ
bump = record {
  mem_reset_brk = λ s. 8;
  heap_lo = λ s. 8;
  heap_hi = λ s. 4095;
  byte = λ s a. 0;
  memset = λ p val size s. s;
  mm_init = λ s. (true, s);
  mm_malloc = λ size s. (some s, s + (size + 7) / 8 * 8);
  mm_realloc = λ p size s. (some s, s + (size + 7) / 8 * 8);
  mm_free = λ p s. s;
}

abbrev before_run : Run ℕ
before_run = record { heap = 0; ranges = []; blocks = 0 ∷ 0 ∷ []; block_sizes = 0 ∷ 0 ∷ [] }

abbrev after_run : Run ℕ
after_run = record {
  heap = 56;
  ranges = record { lo = 32; hi = 52 } ∷ record { lo = 24; hi = 31 } ∷ [];
  blocks = 32 ∷ 24 ∷ [];
  block_sizes = 21 ∷ 8 ∷ [];
}

abbrev trace : List Op
trace = alloc 0 16 ∷ alloc 1 8 ∷ realloc 0 21 ∷ []

run_trace : eval_mm_valid bump trace before_run ≡ valid after_run
unfolding program
run_trace = refl

eval_mm_valid-Loose_example : Loose after_run.ranges
eval_mm_valid-Loose_example = eval_mm_valid-Loose bump trace before_run after_run run_trace

abbrev small_range : Range
small_range = record { lo = 16; hi = 23 }

add_range-accepts_example :
    (Acceptable (small_range ∷ []) 8 32 0 4095
      → add_range (small_range ∷ []) 8 32 0 4095
        ≡ added (record { lo = 8; hi = 39 } ∷ small_range ∷ []))
    × ((new : List Range)
        → add_range (small_range ∷ []) 8 32 0 4095 ≡ added new
        → Acceptable (small_range ∷ []) 8 32 0 4095
          × (new ≡ record { lo = 8; hi = 39 } ∷ small_range ∷ []))
add_range-accepts_example = add_range-accepts (small_range ∷ []) 8 32 0 4095 (omega arith)

-- A payload around another one is accepted.
add_range-encloses :
    add_range (small_range ∷ []) 8 32 0 4095 ≡ added (record { lo = 8; hi = 39 } ∷ small_range ∷ [])
unfolding program
add_range-encloses = refl

-- A free request of an index that no array has is accepted.
abbrev requests : List Request
requests =
    record { letter = b'a'; index = 0; size = 16 }
    ∷ record { letter = b'f'; index = 7; size = 0 }
    ∷ []

run_requests : read_trace 1 2 requests ≡ read (alloc 0 16 ∷ free 7 ∷ [])
unfolding op_of next_max read_ops read_trace
run_requests = refl

read_trace-InRange_example :
    (length (alloc 0 16 ∷ free 7 ∷ []) ≡ 2) × All (InRange 1) (alloc 0 16 ∷ free 7 ∷ [])
read_trace-InRange_example =
    read_trace-InRange 1 2 requests (alloc 0 16 ∷ free 7 ∷ []) (omega arith) (omega arith)
      run_requests

-- Three blocks, one of them moved, and one released.
abbrev measured : List Op
measured = alloc 0 16 ∷ alloc 1 8 ∷ realloc 0 21 ∷ free 1 ∷ []

measured-TraceOk : TraceOk (replicate 2 none) measured
unfolding sum_live live_after
measured-TraceOk = (
  refl,
  omega arith,
  (refl, omega arith, ((16, refl), omega arith, ((8, refl), omega arith, tt))),
)

-- The memory that mem_init gives, from the address 8 on.
abbrev empty_heap : State
empty_heap = record {
  mem = λ a. 0;
  mem_start_brk = 8;
  brk = 8;
  max_addr = 0x1400008;
  heap_listp = 0;
  current_block = 0;
}

eval_mm_util-Evaluated_example :
    Evaluated mm_package mem_heapsize
      (high_water 0 (replicate 2 none) measured)
      (eval_mm_util mm_package mem_heapsize measured empty_heap (0 ∷ 0 ∷ []) (0 ∷ 0 ∷ []))
      (eval_mm_speed mm_package measured empty_heap (0 ∷ 0 ∷ []))
eval_mm_util-Evaluated_example =
    eval_mm_util-Evaluated mm_package mem_heapsize measured empty_heap (0 ∷ 0 ∷ []) (0 ∷ 0 ∷ [])
      refl measured-TraceOk

allocator : Unit {0}
unfolding sub32 size_of alloc_bit tag_bit pack with_tag without_tag put put_with_tag put_tag
    delete_tag ftrp next_blkp prev_blkp is_block_allocated mem_reset_brk mem_heap_lo mem_heap_hi
    mem_heapsize mem_sbrk align adjust int_lt int_add int_neg mm_init settle put_block put_new_block
    merge_prev merge_both coalesce extend_heap fits next_fit better best_fit find_fit place
    malloc_at mm_malloc mm_free mix memmove recycle extend_heap_recycle negative finish finish_at
    grow move grow_back mm_realloc byte_of set_byte memset malloc_result realloc_result int_max
    count_block util_alloc util_realloc util_free util_op util_ops eval_mm_util
allocator = tt

-- The driver on the allocator of mm.c: 4112 bytes serve the trace, which holds 29 at most.
mm_utilization :
    eval_mm_util mm_package mem_heapsize measured empty_heap (0 ∷ 0 ∷ []) (0 ∷ 0 ∷ [])
    ≡ finished (29, 4112)
unfolding allocator
mm_utilization = refl

utilization :
    (eval_mm_util bump (λ s. s) measured 0 (0 ∷ 0 ∷ []) (0 ∷ 0 ∷ []) ≡ finished (29, 56))
    × (high_water 0 (replicate 2 none) measured ≡ 29)
unfolding int_add int_neg int_lt int_max count_block util_alloc util_realloc util_free util_op
    util_ops eval_mm_util sum_live live_after high_water
utilization = (refl, refl)
