-- ===== src/Mm/NextFree.antt =====
-- `coalesce` of ASSN/ASSN6/mm.c in a heap, where the next block is free.
use mathlib.Core.Path.{subst}
use csed.Prelude.{
  append_assoc, ℕ, ◌+◌, ◌-◌, ◌^◌, ◌≤◌, ◌<◌, ◌≡◌, inl, inr, refl, sym, ◌∙◌, true, false, List, [],
  ◌∷◌, ◌++◌, arith, if◌then◌else◌, Bool-cases,
}
use csed.Mm.{Memory, State, prev_blkp}
use csed.Mm.Heap.{settle, coalesce, put_block, merge_both}
use csed.Mm.Blocks.{Block, IsSize, Blocks, Blocks-le, Blocks-append}
use csed.Mm.Coalesce.{keeps, free_block, prev-block, merge_next-BlockAt, merge_both-BlockAt}
use csed.Mm.Merged.{merged, coalesce-next, coalesce-both}
use csed.Mm.Layout.{Layout}
use csed.Mm.Settled.{settle-Layout}
use csed.Mm.NextTaken.{mid_at, bounds, begin-first, begin-other}

module _ (s : State) (p : ℕ) (x b y : Block) (front after : List Block)
    (l : Layout s (front ++ x ∷ b ∷ y ∷ after)) (front_at : Blocks s.mem s.heap_listp front p)
    (free : y.alloc ≡ false) where
  abbrev place_of : ℕ
  place_of = p + x.size

  abbrev behind : ℕ
  behind = place_of + b.size

  abbrev mids : Blocks s.mem p (x ∷ b ∷ y ∷ after) s.brk
  mids = mid_at s p x b front (y ∷ after) l front_at

  limits : (8 ≤ p) × (behind + y.size ≤ s.brk) × (behind + y.size < 2 ^ 31)
  limits =
      let le = bounds s p x b front (y ∷ after) l front_at in
      let le' = Blocks-le s.mem (behind + y.size) s.brk after mids.1.1.1 in
      (le.0, le', omega (arith, le))

  abbrev next_size : ℕ
  next_size = b.size + y.size

  abbrev all_size : ℕ
  all_size = b.size + (x.size + y.size)

  sizes : IsSize next_size × IsSize all_size
  sizes =
      let ax = mids.0.is_size.aligned in
      let ab = mids.1.0.is_size.aligned in
      let ay = mids.1.1.0.is_size.aligned in
      let big = mids.1.0.is_size.big in
      (
        record { aligned = omega arith; big = omega arith; small = omega (arith, limits) },
        record { aligned = omega arith; big = omega arith; small = omega (arith, limits) },
      )

  abbrev next_mem : Memory
  next_mem = put_block place_of (b.size + y.size) false s.mem

  next-Layout :
      keeps x ≡ true
      → Layout (coalesce place_of s).1 (front ++ x ∷ free_block (b.size + y.size) b.tag ∷ after)
  next-Layout k =
      let whole = free_block (b.size + y.size) b.tag in
      let (rest, begin) = l.begin in
      let (rest', begin') = begin-first front rest x (b ∷ y ∷ after) (whole ∷ after) begin in
      let same = append_assoc front (x ∷ []) (b ∷ y ∷ after) in
      let same' = append_assoc front (x ∷ []) (whole ∷ after) in
      let (at, only) =
        merge_next-BlockAt s.mem p x b limits.0 mids.0 mids.1.0 (b.size + y.size) sizes.0 in
      rw (coalesce-next s p x b y limits.0 mids.0 mids.1.0 mids.1.1.0 limits.2 k free) (
        subst (λ all. Layout (settle place_of (record s { mem = next_mem })).1 all) same'
          (settle-Layout s (front ++ x ∷ []) (b ∷ y ∷ []) after place_of (behind + y.size)
            (subst (λ all. Layout s all) (sym same) l)
            (Blocks-append s.mem s.heap_listp p place_of front (x ∷ []) front_at (mids.0, refl))
            (mids.1.0, (mids.1.1.0, refl)) whole next_mem at only (omega arith) rest'
            (same' ∙ begin')))

  abbrev all_mem : Memory
  all_mem = merge_both place_of (b.size + (x.size + y.size)) s.mem

  all-Layout :
      keeps x ≡ false
      → Layout
          (coalesce place_of s).1
          (front ++ free_block (b.size + (x.size + y.size)) x.tag ∷ after)
  all-Layout k =
      let whole = free_block (b.size + (x.size + y.size)) x.tag in
      let (rest, begin) = l.begin in
      let (rest', begin') = begin-other front rest x (b ∷ y ∷ after) (whole ∷ after) k begin in
      let big = mids.0.is_size.big in
      let big' = mids.1.0.is_size.big in
      let (at, only) =
        merge_both-BlockAt s.mem p x b limits.0 mids.0 mids.1.0 (b.size + (x.size + y.size)) sizes.1
          y mids.1.1.0 refl in
      let start : prev_blkp place_of all_mem ≡ p =
        prev-block s.mem p x b limits.0 mids.0 mids.1.0 all_mem
          (only (place_of - 8) (omega (arith, limits)) (omega arith)) in
      rw (coalesce-both s p x b y limits.0 mids.0 mids.1.0 mids.1.1.0 limits.2 k free, start)
        (settle-Layout s front (x ∷ b ∷ y ∷ []) after p (behind + y.size) l front_at
          (mids.0, (mids.1.0, (mids.1.1.0, refl))) whole all_mem at only (omega arith) rest' begin')

  merged-free : merged x b y ++ after ≡ (
      if keeps x
      then x ∷ free_block (b.size + y.size) b.tag ∷ after
      else free_block (b.size + (x.size + y.size)) x.tag ∷ after)
  unfolding merged
  merged-free = elim (Bool-cases (keeps x)) [
    | inl k ↦ simp (k, free) refl
    | inr k ↦ simp (k, free) refl
  ]

  pub open-Layout : Layout (coalesce place_of s).1 (front ++ (merged x b y ++ after))
  open-Layout = elim (Bool-cases (keeps x)) [
    | inl k ↦ rw (merged-free, k) (next-Layout k)
    | inr k ↦ rw (merged-free, k) (all-Layout k)
  ]
