-- ===== src/Mm/Grown.antt =====
-- `mm_realloc` of ASSN/ASSN6/mm.c where the block grows over the free block behind it.
use csed.Prelude.{
  ℕ, suc, ◌+◌, ◌-◌, ◌%◌, ◌^◌, ◌≤◌, ◌<◌, ◌≡◌, ◌≢◌, refl, ap, ◌∙◌, true, false, some, arith, ◌==◌,
  lt→ltb,
}
use csed.Mm.{
  Memory, State, sub32, size_of, alloc_bit, pack, put, ftrp, next_blkp, is_block_allocated, align,
}
use csed.Mm.Heap.{put_new_block}
use csed.Mm.Blocks.{
  Block, word_of, IsSize, BlockAt, BlockAt-Agree, size_of-word, alloc_bit-word, pack-word,
  size_of_header, alloc_bit_header, put_self, put-other,
}
use csed.Mm.Realloc.{
  reply, recycle, extend_heap_recycle, negative, finish, finish_at, grow, mm_realloc,
}
use csed.Mm.Resized.{Resized, body_size, with_spare, finish-Resized}

-- The block grows over the free block `m` behind it, which is larger than what is missing.
module _ (ptr : ℕ) (b m n : Block) (s : State) (low : 8 ≤ ptr) (bat : BlockAt s.mem ptr b)
    (mat : BlockAt s.mem (ptr + b.size) m) (nat : BlockAt s.mem (ptr + b.size + m.size) n)
    (free : m.alloc ≡ false) (both : b.size + m.size < 2 ^ 31) where
  abbrev grown : Block
  grown = record { size = b.size + m.size; alloc = true; tag = false }

  abbrev grown_word : ℕ
  grown_word = pack (b.size + m.size) true

  abbrev head_put : Memory
  head_put = put (ptr - 4) grown_word s.mem

  abbrev grown_mem : Memory
  grown_mem = put (ptr + (b.size + m.size) - 8) grown_word head_put

  grown-IsSize : IsSize (b.size + m.size)
  grown-IsSize =
      let aligned = bat.is_size.aligned in
      let aligned' = mat.is_size.aligned in
      let big = bat.is_size.big in record { aligned = omega arith; big = omega arith; small = both }

  grown_word-eq : grown_word ≡ word_of grown
  grown_word-eq = pack-word (b.size + m.size) grown-IsSize.aligned true

  grown_size : size_of grown_word ≡ b.size + m.size
  grown_size =
      ap size_of grown_word-eq ∙ size_of-word (b.size + m.size) grown-IsSize.aligned true false

  put_new_block-grown : put_new_block ptr (b.size + m.size) true s.mem ≡ grown_mem
  put_new_block-grown =
      unfold put_new_block ftrp in rw (put_self (ptr - 4) grown_word s.mem, grown_size) refl

  grown-BlockAt : BlockAt grown_mem ptr grown
  grown-BlockAt =
      let big = bat.is_size.big in
      let big' = mat.is_size.big in
      let foot : grown_mem (ptr + (b.size + m.size) - 8) ≡ word_of grown =
        put_self (ptr + (b.size + m.size) - 8) _ head_put ∙ grown_word-eq in
      record {
        is_size = grown-IsSize;
        header =
            put-other (ptr + (b.size + m.size) - 8) _ (ptr - 4) head_put (omega arith)
            ∙ put_self (ptr - 4) _ s.mem
            ∙ grown_word-eq;
        foot_size =
            ap size_of foot ∙ size_of-word (b.size + m.size) grown-IsSize.aligned true false;
        foot_alloc =
            ap alloc_bit foot ∙ alloc_bit-word (b.size + m.size) grown-IsSize.aligned true false;
      }

  same_end : ptr + (b.size + m.size) ≡ ptr + b.size + m.size
  same_end = omega arith

  grown-kept : (a : ℕ) → a ≢ ptr - 4 → a ≢ ptr + (b.size + m.size) - 8 → grown_mem a ≡ s.mem a
  grown-kept a p q = put-other _ grown_word a head_put q ∙ put-other _ grown_word a s.mem p

  grown-behind : BlockAt grown_mem (ptr + (b.size + m.size)) n
  grown-behind =
      let big = bat.is_size.big in
      let big' = nat.is_size.big in
      BlockAt-Agree s.mem grown_mem (ptr + (b.size + m.size)) n (omega arith)
        (λ a lo hi. grown-kept a (omega arith) (omega arith)) (rw same_end nat)

  next-eq : next_blkp ptr s.mem ≡ ptr + b.size
  next-eq = unfold next_blkp in rw (size_of_header s.mem ptr b bat) refl

  next_free : is_block_allocated (ptr + b.size) s.mem ≡ false
  next_free =
      unfold is_block_allocated in rw (alloc_bit_header s.mem (ptr + b.size) m mat, free) refl

  next_nonzero : (m.size == 0) ≡ false
  next_nonzero = let big = mat.is_size.big in ground arith

  first_sum : (0 + m.size) % 2 ^ 32 ≡ m.size
  first_sum = let small = mat.is_size.small in omega arith

  -- `extend_heap_recycle` stops behind the first free block.
  recycle-first :
      (f need : ℕ) → need < m.size → recycle (suc f) need (ptr + b.size) 0 s.mem ≡ some m.size
  recycle-first f need h =
      unfold recycle in
      rw
        (
          next_free,
          size_of_header s.mem (ptr + b.size) m mat,
          next_nonzero,
          size_of_header s.mem (ptr + b.size) m mat,
          first_sum,
          lt→ltb need m.size h,
          recycle,
          size_of_header s.mem (ptr + b.size) m mat,
        )
        (ap some first_sum)

  extend_heap_recycle-first :
      (need : ℕ) → align need < m.size → extend_heap_recycle ptr need s ≡ some m.size
  extend_heap_recycle-first need h =
      unfold extend_heap_recycle in
      rw next-eq (
        ap (λ (f : ℕ). recycle f (align need) (ptr + b.size) 0 s.mem) fuel-eq
        ∙ recycle-first s.brk (align need) h)
    where
      fuel-eq : s.brk + 1 ≡ suc s.brk
      fuel-eq = omega arith

  module _ (size : ℕ) (pos : 0 < size) (short : b.size < body_size size)
      (enough : align (body_size size - b.size) < m.size)
      (room : body_size size ≤ b.size + m.size) where
    -- The negative `remaining_size`, as its pattern.
    abbrev missing : ℕ
    missing = b.size + 2 ^ 32 - body_size size

    grows : mm_realloc ptr size s ≡ grow ptr (body_size size) missing s
    grows =
        unfold mm_realloc in
        rw (size_of_header s.mem ptr b bat, remaining-eq, negative-eq, pos-eq, next-eq, next_free)
          refl
      where
        remaining-eq : sub32 b.size (body_size size) ≡ missing
        remaining-eq = unfold sub32 in omega (arith, both)

        negative-eq : negative missing ≡ true
        negative-eq = unfold negative in ground (arith, both)

        pos-eq : (size == 0) ≡ false
        pos-eq = ground arith

    grow-eq :
        grow ptr (body_size size) missing s
        ≡ finish_at ptr
            (body_size size)
            (record s { mem = put_new_block ptr (b.size + m.size) true s.mem })
    grow-eq =
        unfold grow in
        rw (need-eq, extend_heap_recycle-first _ enough, sum-eq, fits-eq, size-eq, grow) refl
      where
        need-eq : sub32 0 missing ≡ body_size size - b.size
        need-eq = unfold sub32 in omega (arith, both)

        sum-eq : (missing + m.size) % 2 ^ 32 ≡ b.size + m.size - body_size size
        sum-eq = omega (arith, both)

        fits-eq : negative (b.size + m.size - body_size size) ≡ false
        fits-eq = unfold negative in ground (arith, both)

        size-eq : (body_size size + (b.size + m.size - body_size size)) % 2 ^ 32 ≡ b.size + m.size
        size-eq = omega (arith, both)

    grown_state : State
    grown_state = record s { mem = grown_mem }

    finish_at-eq :
        finish_at ptr
          (body_size size)
          (record s { mem = put_new_block ptr (b.size + m.size) true s.mem })
        ≡ finish ptr (b.size + m.size - body_size size) (record s { mem = grown_mem })
    finish_at-eq =
        unfold finish_at in
        rw (put_new_block-grown, size_of_header grown_mem ptr grown grown-BlockAt, spare-eq) refl
      where
        spare-eq : sub32 (b.size + m.size) (body_size size) ≡ b.size + m.size - body_size size
        spare-eq = unfold sub32 in omega (arith, both)

    tail :
        Resized ptr grown
          (with_spare (b.size + m.size - body_size size) n)
          grown_mem
          grown_state
          (finish ptr (b.size + m.size - body_size size) grown_state)
    unfolding grown_state
    tail =
        finish-Resized ptr grown n grown_state low grown-BlockAt grown-behind
          (b.size + m.size - body_size size)

    pub mm_realloc-grown :
        (after : Memory) × (mm_realloc ptr size s ≡ reply (some ptr) (record s { mem = after }))
        × BlockAt after ptr grown
        × BlockAt after (ptr + (b.size + m.size)) (with_spare (b.size + m.size - body_size size) n)
        × ((a : ℕ)
            → a ≢ ptr - 4
            → a ≢ ptr + (b.size + m.size) - 8
            → a ≢ ptr + (b.size + m.size) - 4
            → after a ≡ s.mem a)
    unfolding grown_state
    mm_realloc-grown = (
      tail.after,
      grows ∙ grow-eq ∙ finish_at-eq ∙ tail.returned,
      tail.block,
      tail.behind,
      λ a p q r. tail.kept a r ∙ grown-kept a p q,
    )
