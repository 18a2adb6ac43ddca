-- ===== src/Mdriver/OnMm.antt =====
-- The allocator of ASSN/ASSN6/mm.c and the memory of ASSN/ASSN6/memlib.c as the driver of
-- ASSN/ASSN6/mdriver.c calls them.
use csed.Prelude.{
  ℕ, ◌+◌, ◌-◌, ◌*◌, ◌/◌, ◌%◌, ◌^◌, Option, none, some, ltb, leb, ◌&&◌, if◌then◌else◌,
}
use csed.Mm.{Memory, State, mem_reset_brk, mem_heap_lo, mem_heap_hi}
use csed.Mm.Heap.{mm_init, mm_malloc, mm_free}
use csed.Mm.Realloc.{Reply, reply, undefined, mm_realloc}
use csed.Mdriver.{Package}

-- A byte of a word in little-endian order.
unfoldable pub byte_of : Memory → ℕ → ℕ
byte_of mem a = mem (a - a % 4) / 256 ^ (a % 4) % 256

-- The word at `a` when `size` bytes from `p` on are set to `val`, by its bytes.
unfoldable pub set_byte : Memory → ℕ → ℕ → ℕ → ℕ → ℕ
set_byte mem p val size a = if leb p a && ltb a (p + size) then val else byte_of mem a

unfoldable pub memset : ℕ → ℕ → ℕ → Memory → Memory
memset p val size mem a =
    set_byte mem p val size a
    + 256 * set_byte mem p val size (a + 1)
    + 256 ^ 2 * set_byte mem p val size (a + 2)
    + 256 ^ 3 * set_byte mem p val size (a + 3)

-- Where a loop of the allocator runs out of fuel or it goes on with a null pointer, no block.
unfoldable pub malloc_result : State → Option (Option ℕ × State) → Option ℕ × State
malloc_result s none = (none, s)
malloc_result s (some r) = r

unfoldable pub realloc_result : State → Reply → Option ℕ × State
realloc_result s (reply p s') = (p, s')
realloc_result s undefined = (none, s)

abbrev pub mm_package : Package State
mm_package = record {
  mem_reset_brk = mem_reset_brk;
  heap_lo = mem_heap_lo;
  heap_hi = mem_heap_hi;
  byte = λ s. byte_of s.mem;
  memset = λ p val size s. record s { mem = memset p val size s.mem };
  mm_init = mm_init;
  mm_malloc = λ size s. malloc_result s (mm_malloc size s);
  mm_realloc = λ p size s. realloc_result s (mm_realloc p size s);
  mm_free = λ p. mm_free (some p);
}
