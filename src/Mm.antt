-- ===== src/Mm.antt =====
-- The allocator of ASSN/ASSN6/mm.c on the heap of ASSN/ASSN6/memlib.c: the words of a heap, its
-- macros, and the state.
pub mod Heap
pub mod Blocks
pub mod Place
pub mod Fit
pub mod BestFit
pub mod Invariant
pub mod Placed
pub mod Malloc
pub mod Coalesce
pub mod Merged
pub mod Opened
pub mod Extended
pub mod LastBlock
pub mod Enlarged
pub mod Answered
pub mod Requested
pub mod Layout
pub mod Settled
pub mod NextTaken
pub mod NextFree
pub mod Coalesced
pub mod Untagged
pub mod Freed
pub mod Reached
pub mod Usable
pub mod Free
pub mod Init
pub mod Realloc
pub mod Resized
pub mod Grown
pub mod Kept
mod Tests
mod HeapTests
use csed.Prelude.{
  ℕ, ◌+◌, ◌-◌, ◌*◌, ◌/◌, ◌%◌, ◌^◌, Bool, true, false, ◌&&◌, ◌||◌, not, Option, none, some, ltb, leb,
  ◌==◌, if◌then◌else◌,
}

-- The words of the memory by their addresses, which are multiples of 4.
abbrev pub Memory : Type 0
Memory = ℕ → ℕ

-- `a - b` on `unsigned int`.
unfoldable pub sub32 : ℕ → ℕ → ℕ
sub32 a b = (a + 2 ^ 32 - b) % 2 ^ 32

-- `w & ~0x7u`, `w & 0x1u` and `w & 0x2u`.
unfoldable pub size_of : ℕ → ℕ
size_of w = w - w % 8

unfoldable pub alloc_bit : ℕ → Bool
alloc_bit w = w % 2 == 1

unfoldable pub tag_bit : ℕ → Bool
tag_bit w = w / 2 % 2 == 1

-- `size | alloc`.
unfoldable pub pack : ℕ → Bool → ℕ
pack size alloc = if alloc && size % 2 == 0 then size + 1 else size

-- `w | 0x2u` and `w & ~0x2u`.
unfoldable pub with_tag : ℕ → ℕ
with_tag w = if tag_bit w then w else w + 2

unfoldable pub without_tag : ℕ → ℕ
without_tag w = if tag_bit w then w - 2 else w

unfoldable pub put : ℕ → ℕ → Memory → Memory
put p val mem q = if q == p then val else mem q

unfoldable pub put_with_tag : ℕ → ℕ → Memory → Memory
put_with_tag p val mem = put p (if tag_bit (mem p) then with_tag val else val) mem

unfoldable pub put_tag : ℕ → Memory → Memory
put_tag p mem = put p (with_tag (mem p)) mem

unfoldable pub delete_tag : ℕ → Memory → Memory
delete_tag p mem = put p (without_tag (mem p)) mem

abbrev pub hdrp : ℕ → ℕ
hdrp bp = bp - 4

unfoldable pub ftrp : ℕ → Memory → ℕ
ftrp bp mem = bp + size_of (mem (hdrp bp)) - 8

unfoldable pub next_blkp : ℕ → Memory → ℕ
next_blkp bp mem = bp + size_of (mem (bp - 4))

unfoldable pub prev_blkp : ℕ → Memory → ℕ
prev_blkp bp mem = bp - size_of (mem (bp - 8))

unfoldable pub is_block_allocated : ℕ → Memory → Bool
is_block_allocated bp mem = alloc_bit (mem (hdrp bp)) && not (size_of (mem (hdrp bp)) == 0)

-- The static variables of both files. The value 0 of `heap_listp` is the null pointer.
pub record State : Type 0 where
  pub mem : Memory
  pub mem_start_brk : ℕ
  pub brk : ℕ
  pub max_addr : ℕ
  pub heap_listp : ℕ
  pub current_block : ℕ

-- `mem_init`, with what `malloc` returns for `max_heap` bytes; `none` is the exit.
abbrev pub max_heap : ℕ
max_heap = 20 * 2 ^ 20

unfoldable pub mem_init : Option ℕ → State → Option State
mem_init none s = none
mem_init (some p) s = some (record s { mem_start_brk = p; max_addr = p + max_heap; brk = p })

unfoldable pub mem_reset_brk : State → State
mem_reset_brk s = record s { brk = s.mem_start_brk }

unfoldable pub mem_heap_lo : State → ℕ
mem_heap_lo s = s.mem_start_brk

unfoldable pub mem_heap_hi : State → ℕ
mem_heap_hi s = s.brk - 1

unfoldable pub mem_heapsize : State → ℕ
mem_heapsize s = s.brk - s.mem_start_brk

-- `mem_sbrk`, whose argument is an `int`.
unfoldable pub mem_sbrk : ℕ → State → Option (ℕ × State)
mem_sbrk incr s =
    if leb (2 ^ 31) incr || ltb s.max_addr (s.brk + incr)
    then none
    else some (s.brk, record s { brk = s.brk + incr })

-- `ALIGN`, and the size of a block for a request, as `mm_malloc` and `mm_realloc` compute them.
unfoldable pub align : ℕ → ℕ
align size = (size + 7) % 2 ^ 32 / 8 * 8

unfoldable pub adjust : ℕ → ℕ
adjust size = if leb size 8 then 16 else (size + 15) % 2 ^ 32 / 8 * 8

abbrev pub chunk_size : ℕ
chunk_size = 4096
