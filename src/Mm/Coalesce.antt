-- ===== src/Mm/Coalesce.antt =====
-- `coalesce` of ASSN/ASSN6/mm.c: which blocks it merges.
use csed.Prelude.{
  ℕ, ◌+◌, ◌-◌, ◌*◌, ◌%◌, ◌^◌, ◌≤◌, ◌≡◌, refl, ◌≢◌, ◌∙◌, ap, Bool, false, ◌||◌, ◌&&◌, arith,
  if◌then◌else◌,
}
use csed.Mm.{
  Memory, State, size_of, alloc_bit, tag_bit, put, put_with_tag, pack, ftrp, next_blkp, prev_blkp,
}
use csed.Mm.Heap.{put_block, merge_prev, merge_both, settle, coalesce}
use csed.Mm.Blocks.{
  Block, bit, word_of, IsSize, BlockAt, size_of-word, alloc_bit-word, size_of_header,
  tag_bit_header, put_self, put-other,
}
use csed.Mm.Place.{tagged, tagged-word, Only, put_block-BlockAt}

-- A block that a free block behind it does not merge with.
abbrev pub keeps : Block → Bool
keeps x = x.alloc || x.tag

-- A free block of the size `n`.
abbrev pub free_block : ℕ → Bool → Block
free_block n tag = record { size = n; alloc = false; tag = tag }

-- A header and a footer that `PUT_WITH_TAG` has written make a free block.
merged-BlockAt :
    (m : Memory) (p n old : ℕ) (tag : Bool)
    → IsSize n
    → m (p - 4) ≡ word_of (free_block n tag)
    → m (p + n - 8) ≡ tagged (pack n false) old
    → BlockAt m p (free_block n tag)
merged-BlockAt m p n old tag ok head foot =
    let word = foot ∙ tagged-word n false old ok.aligned in
    record {
      is_size = ok;
      header = head;
      foot_size = ap size_of word ∙ size_of-word n ok.aligned false (tag_bit old);
      foot_alloc = ap alloc_bit word ∙ alloc_bit-word n ok.aligned false (tag_bit old);
    }

module _ (mem : Memory) (p : ℕ) (x b : Block) (low : 8 ≤ p) (xat : BlockAt mem p x)
    (bat : BlockAt mem (p + x.size) b) where
  abbrev bp : ℕ
  bp = p + x.size

  abbrev next : ℕ
  next = bp + b.size

  footer_at : (p + x.size - 8 ≡ bp - 8) × (bp - x.size ≡ p)
  footer_at = (refl, omega arith)

  pub prev-block : (m : Memory) → m (bp - 8) ≡ mem (bp - 8) → prev_blkp bp m ≡ p
  unfolding prev_blkp
  prev-block m same = rw (same, xat.foot_size) (omega arith)

  next-block : (m : Memory) → m (bp - 4) ≡ mem (bp - 4) → next_blkp bp m ≡ next
  unfolding next_blkp
  next-block m same = rw (same, size_of_header mem bp b bat) refl

  prev_footer : ftrp p mem ≡ bp - 8
  unfolding ftrp
  prev_footer = rw (size_of_header mem p x xat) refl

  -- Both tests of `coalesce`, and the size that it reads.
  prev-keeps : (alloc_bit (mem (ftrp p mem)) || tag_bit (mem (p - 4))) ≡ keeps x
  prev-keeps = rw (prev_footer, tag_bit_header mem p x xat, xat.foot_alloc) refl

  module _ (s : State) (is_mem : s.mem ≡ mem) where
    -- The call, with what it reads.
    pub coalesce-reads :
        (next_alloc : Bool)
        → alloc_bit (mem (next - 4)) ≡ next_alloc
        → coalesce bp s ≡ (
            if keeps x && next_alloc
            then (bp, s)
            else if keeps x
            then (let size' = (b.size + size_of (mem (next - 4))) % 2 ^ 32 in
                settle bp (record s { mem = put_block bp size' false mem }))
            else if next_alloc
            then (let mem' = merge_prev bp ((b.size + x.size) % 2 ^ 32) mem in
                settle (prev_blkp bp mem') (record s { mem = mem' }))
            else (let size' = (b.size + (x.size + size_of (mem (ftrp next mem)))) % 2 ^ 32 in
                let mem' = merge_both bp size' mem in
                settle (prev_blkp bp mem') (record s { mem = mem' })))
    unfolding coalesce
    coalesce-reads next_alloc e =
        rw (is_mem, prev-block mem refl, next-block mem refl)
          (rw (prev-keeps, e, size_of_header mem bp b bat, size_of_header mem p x xat) refl)

  -- The next block is free.
  pub merge_next-BlockAt :
      (n : ℕ)
      → IsSize n
      → BlockAt (put_block bp n false mem) bp (free_block n b.tag)
        × Only bp n mem (put_block bp n false mem)
  merge_next-BlockAt n ok =
      rw (← tag_bit_header mem bp b bat) (put_block-BlockAt bp n false mem (omega arith) ok)

  -- The words that a merge writes for the block at `p`: `old` is the footer that was there.
  abbrev header_word : ℕ → ℕ
  header_word n = tagged (pack n false) (mem (p - 4))

  header_word-eq : (n : ℕ) → IsSize n → header_word n ≡ word_of (free_block n x.tag)
  header_word-eq n ok =
      tagged-word n false (mem (p - 4)) ok.aligned
      ∙ ap (λ t. n + 0 + 2 * bit t) (tag_bit_header mem p x xat)

  module _ (n : ℕ) (ok : IsSize n) where
    abbrev prev1 : Memory
    prev1 = put (next - 8) (tagged (pack n false) (mem (next - 8))) mem

    merge_prev-eq : merge_prev bp n mem ≡ put (p - 4) (header_word n) prev1
    unfolding merge_prev put_with_tag ftrp
    merge_prev-eq =
        let big = xat.is_size.big in
        let big' = bat.is_size.big in
        let keep : prev1 (bp - 8) ≡ mem (bp - 8) =
          put-other (next - 8) _ (bp - 8) mem (omega arith) in
        let keep' : prev1 (p - 4) ≡ mem (p - 4) =
          put-other (next - 8) _ (p - 4) mem (omega arith) in
        rw (size_of_header mem bp b bat) (rw (prev-block prev1 keep) (rw keep' refl))

    pub merge_prev-BlockAt :
        n ≡ b.size + x.size
        → BlockAt (merge_prev bp n mem) p (free_block n x.tag) × Only p n mem (merge_prev bp n mem)
    merge_prev-BlockAt sum =
        let big = xat.is_size.big in
        let big' = bat.is_size.big in
        let at : p + n - 8 ≡ next - 8 = omega arith in
        let head = put_self (p - 4) (header_word n) prev1 ∙ header_word-eq n ok in
        let apart : next - 8 ≢ p - 4 = omega arith in
        let foot =
          put-other (p - 4) (header_word n) (next - 8) prev1 apart ∙ put_self (next - 8) _ mem in
        rw merge_prev-eq (
          merged-BlockAt _ p n (mem (next - 8)) x.tag ok head (rw at foot),
          λ w h f.
              put-other (p - 4) (header_word n) w prev1 h
              ∙ put-other (next - 8) _ w mem (omega (arith, f, at)),
        )

    abbrev both1 : Memory
    both1 = put (p - 4) (header_word n) mem

    module _ (y : Block) (yat : BlockAt mem next y) where
      merge_both-eq :
          merge_both bp n mem
          ≡ put (next + y.size - 8) (tagged (pack n false) (both1 (next + y.size - 8))) both1
      unfolding merge_both put_with_tag ftrp
      merge_both-eq =
          let big = xat.is_size.big in
          let big' = bat.is_size.big in
          let keep : both1 (bp - 4) ≡ mem (bp - 4) =
            put-other (p - 4) _ (bp - 4) mem (omega arith) in
          let keep' : both1 (next - 4) ≡ mem (next - 4) =
            put-other (p - 4) _ (next - 4) mem (omega arith) in
          rw (prev-block mem refl)
            (rw (next-block both1 keep) (rw (keep', size_of_header mem next y yat) refl))

      pub merge_both-BlockAt :
          n ≡ b.size + (x.size + y.size)
          → BlockAt (merge_both bp n mem) p (free_block n x.tag)
            × Only p n mem (merge_both bp n mem)
      merge_both-BlockAt sum =
          let big = xat.is_size.big in
          let big' = bat.is_size.big in
          let big'' = yat.is_size.big in
          let f = next + y.size - 8 in
          let at : p + n - 8 ≡ f = omega arith in
          let apart : p - 4 ≢ f = omega arith in
          let head =
            put-other f _ (p - 4) both1 apart
            ∙ put_self (p - 4) (header_word n) mem
            ∙ header_word-eq n ok in
          let foot = put_self f _ both1 in
          rw merge_both-eq (
            merged-BlockAt _ p n (both1 f) x.tag ok head (rw at foot),
            λ w h g.
                put-other f _ w both1 (omega (arith, g, at))
                ∙ put-other (p - 4) (header_word n) w mem h,
          )
