-- ===== src/Mm/Realloc.antt =====
-- `mm_realloc` and `extend_heap_recycle` of ASSN/ASSN6/mm.c, and `memmove` on the words of the
-- memory.
use Prim.Native.Nat.{min, max}
use csed.Prelude.{
  ℕ, zero, suc, ◌+◌, ◌-◌, ◌*◌, ◌/◌, ◌%◌, ◌^◌, Bool, true, false, ◌&&◌, not, Option, none, some, ltb,
  leb, ◌==◌, if◌then◌else◌,
}
use csed.Mm.{
  Memory, State, sub32, size_of, put_tag, hdrp, next_blkp, prev_blkp, is_block_allocated, align,
  adjust, chunk_size,
}
use csed.Mm.Heap.{put_new_block, extend_heap, mm_malloc, mm_free}

-- What a call returns: a pointer, `none` for the null pointer. A call that goes on with a null
-- pointer, or whose fuel runs out, is undefined.
pub data Reply : Type 0 where
  reply : Option ℕ → State → Reply
  undefined : Reply

-- The word of which the lowest `n` bytes come from `new` and the others from `old`.
unfoldable pub mix : ℕ → ℕ → ℕ → ℕ
mix n new old = new % 256 ^ n + old / 256 ^ n * 256 ^ n

unfoldable pub memmove : ℕ → ℕ → ℕ → Memory → Memory
memmove dst src n mem a =
    if leb dst a && ltb a (dst + n)
    then mix (min 4 (dst + n - a)) (mem (src + (a - dst))) (mem a)
    else mem a

-- The loop of `extend_heap_recycle`; `result` is an `int`, which is compared as unsigned.
unfoldable pub recycle : ℕ → ℕ → ℕ → ℕ → Memory → Option ℕ
recycle zero size cur result mem = none
recycle (suc f) size cur result mem =
    elim (not (is_block_allocated cur mem) && not (size_of (mem (hdrp cur)) == 0)) [
      | false ↦ some result
      | true ↦
          let result' = (result + size_of (mem (hdrp cur))) % 2 ^ 32 in
          elim (ltb size result') [
            | true ↦ some result'
            | false ↦ recycle f size (next_blkp cur mem) result' mem
          ]
    ]

unfoldable pub extend_heap_recycle : ℕ → ℕ → State → Option ℕ
extend_heap_recycle ptr size s = recycle (s.brk + 1) (align size) (next_blkp ptr s.mem) 0 s.mem

-- `x < 0` on an `int`.
unfoldable pub negative : ℕ → Bool
negative x = leb (2 ^ 31) x

-- The tag behind the new block, when less than two paddings are left in it.
unfoldable pub finish : ℕ → ℕ → State → Reply
finish new_ptr remaining s =
    if ltb remaining 256
    then reply (some new_ptr) (record s { mem = put_tag (hdrp (next_blkp new_ptr s.mem)) s.mem })
    else reply (some new_ptr) s

-- The end of the branch that reallocates: `remaining_size` is computed anew.
unfoldable pub finish_at : ℕ → ℕ → State → Reply
finish_at new_ptr body s = finish new_ptr (sub32 (size_of (s.mem (hdrp new_ptr))) body) s

-- The block grows over the free ones behind it, and over new space where they are not enough.
unfoldable pub grow : ℕ → ℕ → ℕ → State → Reply
grow ptr body remaining s = elim (extend_heap_recycle ptr (sub32 0 remaining) s) [
  | none ↦ undefined
  | some recycled ↦
      let expandable = (remaining + recycled) % 2 ^ 32 in
      if negative expandable
      then (let extendsize = max (sub32 0 expandable) chunk_size in
          elim (extend_heap extendsize s) [
            | none ↦ reply none s
            | some (bp, s') ↦
                let size = (body + (expandable + extendsize) % 2 ^ 32) % 2 ^ 32 in
                finish_at ptr body (record s' { mem = put_new_block ptr size true s'.mem })
          ])
      else (let size = (body + expandable) % 2 ^ 32 in
          finish_at ptr body (record s { mem = put_new_block ptr size true s.mem }))
]

-- A new block is allocated and the old one freed.
unfoldable pub move : ℕ → ℕ → ℕ → State → Reply
move ptr size body s = elim (mm_malloc (body - 8) s) [
  | none ↦ undefined
  | some (none, s') ↦ undefined
  | some (some new_ptr, s') ↦
      let s'' =
        mm_free (some ptr) (record s' { mem = memmove new_ptr ptr (min size body) s'.mem }) in
      finish_at new_ptr body s''
]

-- The block grows over the one before it, when that is large enough.
unfoldable pub grow_back : ℕ → ℕ → ℕ → ℕ → State → Reply
grow_back ptr size body remaining s =
    let new_ptr = prev_blkp ptr s.mem in
    let expandable = (remaining + size_of (s.mem (hdrp new_ptr))) % 2 ^ 32 in
    if negative expandable
    then move ptr size body s
    else (let mem = put_new_block new_ptr ((body + expandable) % 2 ^ 32) true s.mem in
        finish_at new_ptr body (record s { mem = memmove new_ptr ptr (min size body) mem }))

-- `mm_realloc` of a pointer that is not null.
unfoldable pub mm_realloc : ℕ → ℕ → State → Reply
mm_realloc ptr size s =
    let body = (adjust size + 128) % 2 ^ 32 in
    let remaining = sub32 (size_of (s.mem (hdrp ptr))) body in
    if size == 0
    then reply none s
    else if not (negative remaining)
    then finish ptr remaining s
    else if not (is_block_allocated (next_blkp ptr s.mem) s.mem)
    then grow ptr body remaining s
    else if not (is_block_allocated (prev_blkp ptr s.mem) s.mem)
    then grow_back ptr size body remaining s
    else move ptr size body s
