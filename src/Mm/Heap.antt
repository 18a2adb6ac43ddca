-- ===== src/Mm/Heap.antt =====
-- The functions of ASSN/ASSN6/mm.c.
use mathlib.Core.Option
use Prim.Native.Nat.{max}
use csed.Prelude.{
  ℕ, zero, suc, ◌+◌, ◌-◌, ◌%◌, ◌^◌, Bool, true, false, ◌&&◌, ◌||◌, not, Option, none, some, ltb,
  leb, ◌==◌, if◌then◌else◌,
}
use csed.Prelude.Words.{int_lt}
use csed.Mm.{
  Memory, State, sub32, size_of, alloc_bit, tag_bit, pack, put, put_with_tag, delete_tag, hdrp,
  ftrp, next_blkp, prev_blkp, mem_sbrk, align, adjust, chunk_size,
}

unfoldable pub mm_init : State → Bool × State
mm_init s = elim (mem_sbrk 16 s) [
  | none ↦ (false, record s { heap_listp = 2 ^ 32 - 1 })
  | some (p, s') ↦ (
    true,
    record s' {
      mem =
          put (p + 12) (pack 0 true)
            (put (p + 8) (pack 8 true) (put (p + 4) (pack 8 true) (put p 0 s'.mem)));
      heap_listp = p + 8;
      current_block = p + 8;
    },
  )
]

-- `PUT_WITH_TAG(HDRP(bp), …); PUT_WITH_TAG(FTRP(bp), …)`, and the same with `PUT`.
unfoldable pub put_block : ℕ → ℕ → Bool → Memory → Memory
put_block bp size alloc mem =
    let mem' = put_with_tag (hdrp bp) (pack size alloc) mem in
    put_with_tag (ftrp bp mem') (pack size alloc) mem'

unfoldable pub put_new_block : ℕ → ℕ → Bool → Memory → Memory
put_new_block bp size alloc mem =
    let mem' = put (hdrp bp) (pack size alloc) mem in put (ftrp bp mem') (pack size alloc) mem'

-- The last test of `coalesce`.
unfoldable pub settle : ℕ → State → ℕ × State
settle bp s =
    let inside = ltb bp s.current_block && ltb s.current_block (next_blkp bp s.mem) in
    (bp, record s { current_block = if inside then bp else s.current_block })

-- The two writes of a branch of `coalesce`, the second one at an address that is read behind the
-- first.
unfoldable pub merge_prev : ℕ → ℕ → Memory → Memory
merge_prev bp size mem =
    let mem' = put_with_tag (ftrp bp mem) (pack size false) mem in
    put_with_tag (hdrp (prev_blkp bp mem')) (pack size false) mem'

unfoldable pub merge_both : ℕ → ℕ → Memory → Memory
merge_both bp size mem =
    let mem' = put_with_tag (hdrp (prev_blkp bp mem)) (pack size false) mem in
    let next = next_blkp bp mem' in put_with_tag (ftrp next mem') (pack size false) mem'

unfoldable pub coalesce : ℕ → State → ℕ × State
coalesce bp s =
    let mem = s.mem in
    let prev = prev_blkp bp mem in
    let next = next_blkp bp mem in
    let prev_alloc = alloc_bit (mem (ftrp prev mem)) || tag_bit (mem (hdrp prev)) in
    let next_alloc = alloc_bit (mem (hdrp next)) in
    let size = size_of (mem (hdrp bp)) in
    if prev_alloc && next_alloc
    then (bp, s)
    else if prev_alloc
    then (let size' = (size + size_of (mem (hdrp next))) % 2 ^ 32 in
        settle bp (record s { mem = put_block bp size' false mem }))
    else if next_alloc
    then (let mem' = merge_prev bp ((size + size_of (mem (hdrp prev))) % 2 ^ 32) mem in
        settle (prev_blkp bp mem') (record s { mem = mem' }))
    else (let size' =
          (size + (size_of (mem (hdrp prev)) + size_of (mem (ftrp next mem)))) % 2 ^ 32 in
        let mem' = merge_both bp size' mem in settle (prev_blkp bp mem') (record s { mem = mem' }))

unfoldable pub extend_heap : ℕ → State → Option (ℕ × State)
extend_heap words s = elim (mem_sbrk (align words) s) [
  | none ↦ none
  | some (bp, s') ↦
      let size = align words in
      let mem = put_new_block bp size false s'.mem in
      some (coalesce bp (record s' { mem = put (hdrp (next_blkp bp mem)) (pack 0 true) mem }))
]

unfoldable pub fits : ℕ → ℕ → Bool
fits asize word = leb asize (size_of word) && not (alloc_bit word) && not (tag_bit word)

-- The first loop of `find_fit`: whether it found a block, and where `current_block` is then.
-- `none` means that the fuel ran out.
unfoldable pub next_fit : ℕ → ℕ → ℕ → Memory → Option (Bool × ℕ)
next_fit zero asize cur mem = none
next_fit (suc f) asize cur mem = elim (size_of (mem (hdrp cur)) == 0) [
  | true ↦ some (false, cur)
  | false ↦ elim (fits asize (mem (hdrp cur))) [
    | true ↦ some (true, cur)
    | false ↦ next_fit f asize (next_blkp cur mem) mem
  ]
]

-- The best block of the second loop, and its size.
abbrev pub Best : Type 0
Best = Option (ℕ × ℕ)

unfoldable pub better : ℕ → Best → Bool
better size none = true
better size (some (bp, size_best)) = int_lt size size_best

unfoldable pub best_fit : ℕ → ℕ → ℕ → ℕ → Best → Memory → Option (Best × ℕ)
best_fit zero asize cur backup best mem = none
best_fit (suc f) asize cur backup best mem = elim (ltb cur backup) [
  | false ↦ some (best, cur)
  | true ↦
      let word = mem (hdrp cur) in
      best_fit f asize (next_blkp cur mem) backup
        (if fits asize word && better (size_of word) best then some (cur, size_of word) else best)
        mem
]

-- Both loops. The fuel is the number of words up to the break.
unfoldable pub find_fit : ℕ → State → Option (Option ℕ × State)
find_fit asize s =
    let fuel = s.brk + 1 in
    elim (next_fit fuel asize s.current_block s.mem) [
      | none ↦ none
      | some (true, cur) ↦ some (some cur, record s { current_block = cur })
      | some (false, cur) ↦ elim (best_fit fuel asize s.heap_listp s.current_block none s.mem) [
        | none ↦ none
        | some (best, cur') ↦
            some (Option.map (λ (bp, size). bp) best, record s { current_block = cur' })
      ]
    ]

unfoldable pub place : ℕ → ℕ → Memory → Memory
place bp asize mem =
    let ptr_size = size_of (mem (hdrp bp)) in
    let remainder = sub32 ptr_size asize in
    if leb 16 remainder
    then (let mem1 = put_block bp asize true mem in
        let mem2 = put (hdrp (next_blkp bp mem1)) (pack remainder false) mem1 in
        put (ftrp (next_blkp bp mem2) mem2) (pack remainder false) mem2)
    else put_block bp ptr_size true mem

abbrev pub start_heap : State → State
start_heap s = if s.heap_listp == 0 then (mm_init s).1 else s

-- The pointer that `mm_malloc` returns, `none` for the null pointer. The outer `none` means that
-- the fuel of `find_fit` ran out.
unfoldable pub malloc_at : ℕ → State → Option (Option ℕ × State)
malloc_at asize s = elim (find_fit asize s) [
  | none ↦ none
  | some (some bp, s') ↦ some (some bp, record s' { mem = place bp asize s'.mem })
  | some (none, s') ↦ elim (extend_heap (max asize chunk_size) s') [
    | none ↦ some (none, s')
    | some (bp, s'') ↦ some (some bp, record s'' { mem = place bp asize s''.mem })
  ]
]

unfoldable pub mm_malloc : ℕ → State → Option (Option ℕ × State)
mm_malloc size s =
    if size == 0 then some (none, start_heap s) else malloc_at (adjust size) (start_heap s)

-- `mm_free` of a pointer; for the null pointer it does nothing.
unfoldable pub mm_free : Option ℕ → State → State
mm_free none s = s
mm_free (some bp) s =
    let size = size_of (s.mem (hdrp bp)) in
    let s' = start_heap s in
    let mem1 = delete_tag (hdrp (next_blkp bp s'.mem)) s'.mem in
    (coalesce bp (record s' { mem = put_block bp size false mem1 })).1
