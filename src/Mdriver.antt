-- ===== src/Mdriver.antt =====
-- The driver of ASSN/ASSN6/mdriver.c that checks an allocator: the list of payload ranges and the
-- run of a trace.
pub mod Ranges
pub mod Valid
pub mod Checked
pub mod Trace
pub mod OnMm
pub mod Util
pub mod Held
pub mod Steps
pub mod Peak
mod Tests
use csed.Prelude.{
  ℕ, zero, suc, ◌+◌, ◌-◌, ◌%◌, ◌^◌, Bool, true, false, ◌&&◌, ◌||◌, not, Option, none, some, List,
  [], ◌∷◌, ltb, leb, ◌==◌, if◌then◌else◌, get_elem?, set,
}

pub record Range : Type 0 where
  pub lo : ℕ
  pub hi : ℕ

-- The messages of `malloc_error`.
pub data Fault : Type 0 where
  misaligned outside overlapping init_failed malloc_failed realloc_failed data_lost : Fault

-- What `add_range` does: it returns 1 with the new list, or 0, or its assertion fails.
pub data Added : Type 0 where
  added : List Range → Added
  refused : Fault → Added
  aborted : Added

-- The test of the loop: whether an end of the payload lies in the range.
unfoldable pub overlaps : ℕ → ℕ → Range → Bool
overlaps lo hi p = (leb p.lo lo && leb lo p.hi) || (leb p.lo hi && leb hi p.hi)

unfoldable pub overlaps_any : ℕ → ℕ → List Range → Bool
overlaps_any lo hi [] = false
overlaps_any lo hi (p ∷ ps) = overlaps lo hi p || overlaps_any lo hi ps

unfoldable pub lies_outside : ℕ → ℕ → ℕ → ℕ → Bool
lies_outside lo hi heap_lo heap_hi =
    ltb lo heap_lo || ltb heap_hi lo || ltb hi heap_lo || ltb heap_hi hi

-- The size is an `int`, as its 32-bit pattern; `heap_lo` and `heap_hi` are what `mem_heap_lo` and
-- `mem_heap_hi` return.
unfoldable pub add_range : List Range → ℕ → ℕ → ℕ → ℕ → Added
add_range ranges lo size heap_lo heap_hi =
    let hi = lo + size - 1 in
    if size == 0 || leb (2 ^ 31) size
    then aborted
    else if not (lo % 8 == 0)
    then refused misaligned
    else if lies_outside lo hi heap_lo heap_hi
    then refused outside
    else if overlaps_any lo hi ranges
    then refused overlapping
    else added (record { lo = lo; hi = hi } ∷ ranges)

unfoldable pub remove_range : List Range → ℕ → List Range
remove_range [] lo = []
remove_range (p ∷ ps) lo = if p.lo == lo then ps else p ∷ remove_range ps lo

-- The requests of a trace, with the index and the size.
pub data Op : Type 0 where
  alloc : ℕ → ℕ → Op
  realloc : ℕ → ℕ → Op
  free : ℕ → Op

-- The allocator that is checked, with the simulated memory: what the driver calls of both.
pub record Package (S : Type 0) : Type 0 where
  pub mem_reset_brk : S → S
  pub heap_lo : S → ℕ
  pub heap_hi : S → ℕ
  pub byte : S → ℕ → ℕ
  pub memset : ℕ → ℕ → ℕ → S → S
  pub mm_init : S → Bool × S
  pub mm_malloc : ℕ → S → Option ℕ × S
  pub mm_realloc : ℕ → ℕ → S → Option ℕ × S
  pub mm_free : ℕ → S → S

-- The state of a run, with the arrays of the trace.
pub record Run (S : Type 0) : Type 0 where
  pub heap : S
  pub ranges : List Range
  pub blocks : List ℕ
  pub block_sizes : List ℕ

-- How a run ends. An index behind the arrays is undefined, and so is a failed assertion.
pub data Verdict (S : Type 0) : Type 0 where
  valid : Run S → Verdict S
  invalid : Fault → Verdict S
  undefined : Verdict S

-- The `int` of a byte that is read as a `char`.
unfoldable pub int_of_char : ℕ → ℕ
int_of_char b = if ltb b 128 then b else b + (2 ^ 32 - 256)

-- `for (j = 0; j < oldsize; j++) if (newp[j] != (index & 0xFF)) …`, from the last byte down.
-- `newp` points to `char`, which is signed: the comparison extends the sign to an `int`.
unfoldable pub all_bytes : (ℕ → ℕ) → ℕ → ℕ → ℕ → Bool
all_bytes read p val zero = true
all_bytes read p val (suc n) = int_of_char (read (p + n)) == val && all_bytes read p val n
