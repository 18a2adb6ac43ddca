-- ===== src/Mm/Extended.antt =====
-- `extend_heap` of ASSN/ASSN6/mm.c: the new block and its merge with the last block of the heap.
use mathlib.Core.Path.{subst}
use csed.Prelude.{
  ℕ, ◌+◌, ◌-◌, ◌%◌, ◌^◌, ◌≤◌, ◌<◌, ◌≡◌, refl, sym, ◌∙◌, ap, true, false, some, ltb, ◌&&◌, arith,
  if◌then◌else◌,
}
use csed.Mm.{Memory, State, alloc_bit, pack, next_blkp, prev_blkp}
use csed.Mm.Heap.{merge_prev, settle, coalesce, extend_heap}
use csed.Mm.Blocks.{Block, IsSize, BlockAt, BlockAt-Agree, size_of_header}
use csed.Mm.Place.{Only}
use csed.Mm.Coalesce.{keeps, free_block, coalesce-reads, prev-block, merge_prev-BlockAt}
use csed.Mm.Opened.{
  opened_mem, opened, extend_heap-opened, opened-below, opened-epilogue, opened-BlockAt,
}

-- The state in which the new block is merged with the last one, `x` at `p`. The merged block
-- becomes the current one, if it holds the old one inside.
abbrev pub merged_mem : ℕ → State → ℕ → Block → Memory
merged_mem n s p x = merge_prev (p + x.size) (n + x.size) (opened_mem n s)

abbrev pub merged_current : ℕ → State → ℕ → ℕ
merged_current n s p =
    if ltb p s.current_block && ltb s.current_block (s.brk + n) then p else s.current_block

abbrev pub merged_state : ℕ → State → ℕ → Block → State
merged_state n s p x = record s {
  mem = merged_mem n s p x;
  brk = s.brk + n;
  current_block = merged_current n s p;
}

module _ (n : ℕ) (ok : IsSize n) (s : State) (p : ℕ) (x : Block) (low : 8 ≤ p)
    (at : p + x.size ≡ s.brk) (xat : BlockAt s.mem p x) (room : s.brk + n ≤ s.max_addr)
    (small : s.max_addr < 2 ^ 31) where
  low_brk : 8 ≤ s.brk
  low_brk = omega arith

  abbrev wide : Memory
  wide = opened_mem n s

  abbrev next_state : State
  next_state = opened n s

  wide-last : BlockAt wide p x
  wide-last =
      BlockAt-Agree s.mem wide p x (omega arith)
        (λ a lo hi. opened-below n ok s low_brk room a (omega arith)) xat

  wide-new : BlockAt wide (p + x.size) (free_block n false)
  wide-new =
      subst (λ b. BlockAt wide b (free_block n false)) (sym at) (opened-BlockAt n ok s low_brk room)

  wide-end : wide (p + x.size + n - 4) ≡ pack 0 true
  wide-end = ap (λ (b : ℕ). wide (b + n - 4)) at ∙ opened-epilogue n ok s low_brk room

  wide-next : alloc_bit (wide (p + x.size + n - 4)) ≡ true
  wide-next = ap alloc_bit wide-end ∙ unfold alloc_bit pack in refl

  -- The last block is allocated, or has a tag.
  pub extend_heap-keeps : keeps x ≡ true → extend_heap n s ≡ some (s.brk, opened n s)
  extend_heap-keeps k =
      extend_heap-opened n ok s low_brk room
      ∙ ap some (
          ap (λ (b : ℕ). coalesce b next_state) (sym at)
          ∙ reads
          ∙ ap (λ (b : ℕ). (b, next_state)) at)
    where
      reads : coalesce (p + x.size) next_state ≡ (p + x.size, next_state)
      reads =
          coalesce-reads wide p x (free_block n false) low wide-last wide-new next_state refl true
            wide-next
          ∙ rw k refl

  sum-IsSize : IsSize (n + x.size)
  sum-IsSize =
      let a = ok.aligned in
      let b = xat.is_size.aligned in
      let c = ok.big in record { aligned = omega arith; big = omega arith; small = omega arith }

  pub merged_at :
      BlockAt (merged_mem n s p x) p (free_block (n + x.size) x.tag)
      × Only p (n + x.size) wide (merged_mem n s p x)
  merged_at =
      merge_prev-BlockAt wide p x (free_block n false) low wide-last wide-new (n + x.size)
        sum-IsSize refl

  merged_prev : prev_blkp (p + x.size) (merged_mem n s p x) ≡ p
  merged_prev =
      let big = xat.is_size.big in
      let big' = ok.big in
      prev-block wide p x (free_block n false) low wide-last wide-new (merged_mem n s p x)
        (merged_at.1 (p + x.size - 8) (omega arith) (omega arith))

  merged_next : next_blkp p (merged_mem n s p x) ≡ s.brk + n
  merged_next =
      unfold next_blkp in
      rw (size_of_header (merged_mem n s p x) p (free_block (n + x.size) x.tag) merged_at.0)
        (omega arith)

  settled :
      settle
        (prev_blkp (p + x.size) (merged_mem n s p x))
        (record next_state { mem = (merged_mem n s p x) })
      ≡ (p, (merged_state n s p x))
  settled = unfold settle in rw (merged_prev, merged_next) refl

  pub extend_heap-merges : keeps x ≡ false → extend_heap n s ≡ some (p, (merged_state n s p x))
  extend_heap-merges k =
      extend_heap-opened n ok s low_brk room
      ∙ ap some (ap (λ (b : ℕ). coalesce b next_state) (sym at) ∙ reads ∙ settled)
    where
      wrap : (n + x.size) % 2 ^ 32 ≡ (n + x.size)
      wrap = omega (arith, sum-IsSize.small)

      reads :
          coalesce (p + x.size) next_state
          ≡ settle
              (prev_blkp (p + x.size) (merged_mem n s p x))
              (record next_state { mem = (merged_mem n s p x) })
      reads =
          coalesce-reads wide p x (free_block n false) low wide-last wide-new next_state refl true
            wide-next
          ∙ rw k (rw wrap refl)
