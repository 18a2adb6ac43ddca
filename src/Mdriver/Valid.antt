-- ===== src/Mdriver/Valid.antt =====
-- `eval_mm_valid` of ASSN/ASSN6/mdriver.c.
use csed.Prelude.{
  ℕ, ◌%◌, true, false, none, some, List, [], ◌∷◌, ltb, if◌then◌else◌, get_elem?, set,
}
use csed.Mdriver.{
  Range, init_failed, malloc_failed, realloc_failed, data_lost, Added, added, refused, aborted,
  add_range, remove_range, Op, alloc, realloc, free, Package, Run, Verdict, valid, invalid,
  undefined, all_bytes,
}

module _ {S : Type 0} (mm : Package S) where
  -- `add_range` for a payload in the heap of the run.
  abbrev pub check : S → List Range → ℕ → ℕ → Added
  check heap ranges p size = add_range ranges p size (mm.heap_lo heap) (mm.heap_hi heap)

  -- The payload is filled with the low byte of the index, and the block is remembered.
  unfoldable pub remember : ℕ → ℕ → ℕ → List Range → S → Run S → Run S
  remember index size p ranges heap r = record {
    heap = mm.memset p (index % 256) size heap;
    ranges = ranges;
    blocks = set r.blocks index p;
    block_sizes = set r.block_sizes index size;
  }

  unfoldable pub valid_alloc : ℕ → ℕ → Run S → Verdict S
  valid_alloc index size r =
      let (block, heap) = mm.mm_malloc size r.heap in
      elim block [
        | none ↦ invalid malloc_failed
        | some p ↦ elim (check heap r.ranges p size) [
          | aborted ↦ undefined
          | refused fault ↦ invalid fault
          | added ranges ↦ valid (remember index size p ranges heap r)
        ]
      ]

  -- The part of the request behind the call of `mm_realloc`.
  unfoldable pub moved : ℕ → ℕ → ℕ → ℕ → ℕ → S → Run S → Verdict S
  moved index size oldp old_size newp heap r =
      elim (check heap (remove_range r.ranges oldp) newp size) [
        | aborted ↦ undefined
        | refused fault ↦ invalid fault
        | added ranges ↦
            let kept = if ltb size old_size then size else old_size in
            if all_bytes (mm.byte heap) newp (index % 256) kept
            then valid (remember index size newp ranges heap r)
            else invalid data_lost
      ]

  unfoldable pub valid_realloc : ℕ → ℕ → ℕ → ℕ → Run S → Verdict S
  valid_realloc index size oldp old_size r =
      let (block, heap) = mm.mm_realloc oldp size r.heap in
      elim block [
        | none ↦ invalid realloc_failed
        | some newp ↦ moved index size oldp old_size newp heap r
      ]

  unfoldable pub valid_free : ℕ → Run S → Run S
  valid_free p r = record r { heap = mm.mm_free p r.heap; ranges = remove_range r.ranges p }

  unfoldable pub valid_op : Op → Run S → Verdict S
  valid_op (alloc index size) r = elim (get_elem? r.blocks index) [
    | none ↦ undefined
    | some p ↦ valid_alloc index size r
  ]
  valid_op (realloc index size) r = elim (get_elem? r.blocks index) [
    | none ↦ undefined
    | some oldp ↦ elim (get_elem? r.block_sizes index) [
      | none ↦ undefined
      | some old_size ↦ valid_realloc index size oldp old_size r
    ]
  ]
  valid_op (free index) r = elim (get_elem? r.blocks index) [
    | none ↦ undefined
    | some p ↦ valid (valid_free p r)
  ]

  unfoldable pub valid_ops : List Op → Run S → Verdict S
  valid_ops [] r = valid r
  valid_ops (op ∷ ops) r = elim (valid_op op r) [
    | valid r' ↦ valid_ops ops r'
    | invalid fault ↦ invalid fault
    | undefined ↦ undefined
  ]

  -- The ranges of an earlier run are cleared.
  unfoldable pub eval_mm_valid : List Op → Run S → Verdict S
  eval_mm_valid ops r =
      let (ok, heap) = mm.mm_init (mm.mem_reset_brk r.heap) in
      elim ok [
        | false ↦ invalid init_failed
        | true ↦ valid_ops ops (record r { heap = heap; ranges = [] })
      ]
