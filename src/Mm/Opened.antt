-- ===== src/Mm/Opened.antt =====
-- `extend_heap` of ASSN/ASSN6/mm.c up to its call of `coalesce`: a free block between the last
-- block and a new epilogue.
use mathlib.Core.Path.{subst}
use csed.Prelude.{ℕ, ◌+◌, ◌-◌, ◌≤◌, ◌<◌, ◌≡◌, refl, sym, ◌∙◌, ap, true, false, some, arith}
use csed.Mm.{Memory, State, size_of, alloc_bit, put, pack, ftrp, next_blkp, mem_sbrk, align}
use csed.Mm.Heap.{put_new_block, coalesce, extend_heap}
use csed.Mm.Blocks.{
  IsSize, BlockAt, BlockAt-Agree, size_of-word, alloc_bit-word, pack-word, put_self, put-other,
}
use csed.Mm.Place.{with_words, with_words-BlockAt, with_words-Only}
use csed.Mm.Coalesce.{free_block}

-- The memory with the new block and the new epilogue.
abbrev pub opened_mem : ℕ → State → Memory
opened_mem n s =
    put (s.brk + n - 4) (pack 0 true) (with_words s.brk n (pack n false) (pack n false) s.mem)

abbrev pub opened : ℕ → State → State
opened n s = record s { mem = opened_mem n s; brk = s.brk + n }

module _ (n : ℕ) (ok : IsSize n) where
  pub align-IsSize : align n ≡ n
  align-IsSize = let a = ok.aligned in let small = ok.small in unfold align in omega arith

  module _ (s : State) (low : 8 ≤ s.brk) (room : s.brk + n ≤ s.max_addr) where
    sbrk-room : mem_sbrk n s ≡ some (s.brk, record s { brk = s.brk + n })
    sbrk-room = unfold mem_sbrk in ground (arith, ok.small)

    pack-size : size_of (pack n false) ≡ n
    pack-size = ap size_of (pack-word n ok.aligned false) ∙ size_of-word n ok.aligned false false

    new_block-eq :
        put_new_block s.brk n false s.mem ≡ with_words s.brk n (pack n false) (pack n false) s.mem
    new_block-eq =
        unfold put_new_block ftrp in rw (put_self (s.brk - 4) (pack n false) s.mem, pack-size) refl

    next-eq : next_blkp s.brk (with_words s.brk n (pack n false) (pack n false) s.mem) ≡ s.brk + n
    next-eq =
        unfold next_blkp in
        let big = ok.big in
        rw
          (
            put-other (s.brk + n - 8) (pack n false) (s.brk - 4)
                (put (s.brk - 4) (pack n false) s.mem) (omega arith),
            put_self (s.brk - 4) (pack n false) s.mem,
            pack-size,
          )
          refl

    pub aligned_room : mem_sbrk (align n) s ≡ some (s.brk, record s { brk = s.brk + n })
    aligned_room = ap (λ (k : ℕ). mem_sbrk k s) align-IsSize ∙ sbrk-room

    pub extend_heap-opened : extend_heap n s ≡ some (coalesce s.brk (opened n s))
    unfolding extend_heap
    extend_heap-opened =
        rw (aligned_room, extend_heap) (rw (align-IsSize, new_block-eq) (rw next-eq refl))

    -- The words before the old epilogue do not change.
    pub opened-below : (x : ℕ) → x < s.brk - 4 → opened_mem n s x ≡ s.mem x
    opened-below x h =
        let big = ok.big in
        put-other (s.brk + n - 4) (pack 0 true) x _ (omega arith)
        ∙ with_words-Only s.brk n (pack n false) (pack n false) s.mem x (omega arith) (omega arith)

    pub opened-above : (x : ℕ) → s.brk + n ≤ x → opened_mem n s x ≡ s.mem x
    opened-above x h =
        let big = ok.big in
        put-other (s.brk + n - 4) (pack 0 true) x _ (omega arith)
        ∙ with_words-Only s.brk n (pack n false) (pack n false) s.mem x (omega arith) (omega arith)

    pub opened-epilogue : opened_mem n s (s.brk + n - 4) ≡ pack 0 true
    opened-epilogue = put_self (s.brk + n - 4) (pack 0 true) _

    pub opened-BlockAt : BlockAt (opened_mem n s) s.brk (free_block n false)
    opened-BlockAt =
        let big = ok.big in
        BlockAt-Agree (with_words s.brk n (pack n false) (pack n false) s.mem) (opened_mem n s)
          s.brk (free_block n false) (omega arith)
          (λ x lo hi. put-other (s.brk + n - 4) (pack 0 true) x _ (omega arith)) written
      where
        written :
            BlockAt
              (with_words s.brk n (pack n false) (pack n false) s.mem)
              s.brk
              (free_block n false)
        written =
            subst
              (λ w. BlockAt (with_words s.brk n w (pack n false) s.mem) s.brk (free_block n false))
              (sym (pack-word n ok.aligned false))
              (with_words-BlockAt s.brk (free_block n false) (pack n false) s.mem (omega arith) ok
                pack-size
                (ap alloc_bit (pack-word n ok.aligned false)
                  ∙ alloc_bit-word n ok.aligned false false))
