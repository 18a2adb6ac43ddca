-- ===== src/Mm/Merged.antt =====
-- `coalesce` of ASSN/ASSN6/mm.c: the blocks that it leaves.
use mathlib.Core.Path.{subst}
use csed.Prelude.{
  ℕ, ◌+◌, ◌-◌, ◌%◌, ◌^◌, ◌≤◌, ◌<◌, ◌≡◌, refl, ◌∙◌, Bool, true, false, ◌&&◌, List, [], ◌∷◌, arith,
  if◌then◌else◌, inl, inr, Bool-cases,
}
use csed.Mm.{Memory, State, size_of, alloc_bit, ftrp, prev_blkp}
use csed.Mm.Heap.{put_block, merge_prev, merge_both, settle, coalesce}
use csed.Mm.Blocks.{Block, IsSize, BlockAt, Blocks, size_of_header, alloc_bit_header, BlockAt-Agree}
use csed.Mm.Place.{Only, Within}
use csed.Mm.Coalesce.{
  keeps, free_block, coalesce-reads, prev-block, merge_next-BlockAt, merge_prev-BlockAt,
  merge_both-BlockAt,
}

-- What becomes of a free block `b` between two others.
unfoldable pub merged : Block → Block → Block → List Block
merged x b y =
    if keeps x && y.alloc
    then x ∷ b ∷ y ∷ []
    else if keeps x
    then x ∷ free_block (b.size + y.size) b.tag ∷ []
    else if y.alloc
    then free_block (b.size + x.size) x.tag ∷ y ∷ []
    else free_block (b.size + (x.size + y.size)) x.tag ∷ []

settle-start : (bp : ℕ) (s : State) → (settle bp s).0 ≡ bp
unfolding settle
settle-start bp s = refl

settle-mem : (bp : ℕ) (s : State) → (settle bp s).1.mem ≡ s.mem
unfolding settle
settle-mem bp s = refl

module _ (s : State) (p : ℕ) (x b y : Block) (low : 8 ≤ p) (xat : BlockAt s.mem p x)
    (bat : BlockAt s.mem (p + x.size) b) (yat : BlockAt s.mem (p + x.size + b.size) y)
    (small : p + x.size + b.size + y.size < 2 ^ 31) where
  abbrev bp : ℕ
  bp = p + x.size

  abbrev next : ℕ
  next = bp + b.size

  -- What the call returns and leaves: the start of the block, and its blocks.
  abbrev Merged : ℕ × State → List Block → ℕ → Type 0
  Merged r blocks start =
      (r.0 ≡ start)
      × Blocks r.1.mem p blocks (next + y.size)
      × Within (p - 4) (next + y.size - 4) s.mem r.1.mem

  size-sum :
      (IsSize (b.size + y.size))
      × (IsSize (b.size + x.size))
      × (IsSize (b.size + (x.size + y.size)))
  size-sum =
      let ax = xat.is_size.aligned in
      let ab = bat.is_size.aligned in
      let ay = yat.is_size.aligned in
      let big = bat.is_size.big in
      (
        record { aligned = omega arith; big = omega arith; small = omega arith },
        record { aligned = omega arith; big = omega arith; small = omega arith },
        record { aligned = omega arith; big = omega arith; small = omega arith },
      )

  reads : alloc_bit (s.mem (next - 4)) ≡ y.alloc
  reads = alloc_bit_header s.mem next y yat

  ysize : size_of (s.mem (next - 4)) ≡ y.size
  ysize = size_of_header s.mem next y yat

  wrap : (n : ℕ) → n < 2 ^ 31 → n % 2 ^ 32 ≡ n
  wrap n h = omega arith

  pub coalesce-none : keeps x ≡ true → y.alloc ≡ true → coalesce bp s ≡ (bp, s)
  coalesce-none k a = coalesce-reads s.mem p x b low xat bat s refl true (reads ∙ a) ∙ rw k refl

  pub coalesce-next :
      keeps x ≡ true
      → y.alloc ≡ false
      → coalesce bp s ≡ settle bp (record s { mem = put_block bp (b.size + y.size) false s.mem })
  coalesce-next k a =
      coalesce-reads s.mem p x b low xat bat s refl false (reads ∙ a)
      ∙ rw k (rw (ysize, wrap (b.size + y.size) size-sum.0.small) refl)

  coalesce-prev :
      keeps x ≡ false
      → y.alloc ≡ true
      → coalesce bp s ≡ (
          let mem' = merge_prev bp (b.size + x.size) s.mem in
          settle (prev_blkp bp mem') (record s { mem = mem' }))
  coalesce-prev k a =
      coalesce-reads s.mem p x b low xat bat s refl true (reads ∙ a)
      ∙ rw k (rw (wrap (b.size + x.size) size-sum.1.small) refl)

  pub coalesce-both :
      keeps x ≡ false
      → y.alloc ≡ false
      → coalesce bp s ≡ (
          let mem' = merge_both bp (b.size + (x.size + y.size)) s.mem in
          settle (prev_blkp bp mem') (record s { mem = mem' }))
  unfolding ftrp
  coalesce-both k a =
      let foot : size_of (s.mem (ftrp next s.mem)) ≡ y.size = rw ysize yat.foot_size in
      coalesce-reads s.mem p x b low xat bat s refl false (reads ∙ a)
      ∙ rw k (rw (foot, wrap (b.size + (x.size + y.size)) size-sum.2.small) refl)

  Merged-settle :
      (r : ℕ) (m : Memory) (blocks : List Block) (start : ℕ)
      → r ≡ start
      → Blocks m p blocks (next + y.size)
      → Within (p - 4) (next + y.size - 4) s.mem m
      → Merged (settle r (record s { mem = m })) blocks start
  unfolding settle
  Merged-settle r m blocks start e k w = (e, k, w)

  next-Merged :
      Merged
        (settle bp (record s { mem = put_block bp (b.size + y.size) false s.mem }))
        (x ∷ free_block (b.size + y.size) b.tag ∷ [])
        bp
  next-Merged =
      let n = b.size + y.size in
      let m = put_block bp n false s.mem in
      let big = xat.is_size.big in
      let big' = bat.is_size.big in
      let (at, only) = merge_next-BlockAt s.mem p x b low xat bat n size-sum.0 in
      let xat' =
        BlockAt-Agree s.mem m p x (omega arith) (λ w lo hi. only w (omega arith) (omega arith))
          xat in
      Merged-settle bp m (x ∷ free_block (b.size + y.size) b.tag ∷ []) bp refl
        (xat', (at, omega arith)) (λ w out. only w (ground arith) (ground arith))

  module _ (n : ℕ) (m : Memory) (only : Only p n s.mem m) where
    prev_start : n ≡ b.size + x.size → prev_blkp bp m ≡ p
    prev_start sum =
        let big = xat.is_size.big in
        let big' = bat.is_size.big in
        prev-block s.mem p x b low xat bat m (only (bp - 8) (omega arith) (omega arith))

    both_start : n ≡ b.size + (x.size + y.size) → prev_blkp bp m ≡ p
    both_start sum =
        let big = xat.is_size.big in
        let big' = bat.is_size.big in
        prev-block s.mem p x b low xat bat m (only (bp - 8) (omega arith) (omega arith))

  prev-Merged :
      let m = merge_prev bp (b.size + x.size) s.mem in
      Merged
        (settle (prev_blkp bp m) (record s { mem = m }))
        (free_block (b.size + x.size) x.tag ∷ y ∷ [])
        p
  prev-Merged =
      let n = b.size + x.size in
      let m = merge_prev bp n s.mem in
      let big = bat.is_size.big in
      let big' = xat.is_size.big in
      let big'' = yat.is_size.big in
      let (at, only) = merge_prev-BlockAt s.mem p x b low xat bat n size-sum.1 refl in
      let yat' : BlockAt m next y =
        BlockAt-Agree s.mem m next y (omega arith) (λ w lo hi. only w (omega arith) (omega arith))
          yat in
      let same : next ≡ p + n = omega arith in
      Merged-settle (prev_blkp bp m) m (free_block (b.size + x.size) x.tag ∷ y ∷ []) p
        (prev_start n m only refl) (at, (subst (λ z. BlockAt m z y) same yat', omega arith))
        (λ w out. only w (ground arith) (ground arith))

  both-Merged :
      let m = merge_both bp (b.size + (x.size + y.size)) s.mem in
      Merged
        (settle (prev_blkp bp m) (record s { mem = m }))
        (free_block (b.size + (x.size + y.size)) x.tag ∷ [])
        p
  both-Merged =
      let n = b.size + (x.size + y.size) in
      let m = merge_both bp n s.mem in
      let big = bat.is_size.big in
      let big' = xat.is_size.big in
      let (at, only) = merge_both-BlockAt s.mem p x b low xat bat n size-sum.2 y yat refl in
      Merged-settle (prev_blkp bp m) m (free_block (b.size + (x.size + y.size)) x.tag ∷ []) p
        (both_start n m only refl) (at, omega arith) (λ w out. only w (ground arith) (ground arith))

  Merged-eq :
      (r r' : ℕ × State) (blocks blocks' : List Block) (start start' : ℕ)
      → r ≡ r'
      → blocks ≡ blocks'
      → start ≡ start'
      → Merged r' blocks' start'
      → Merged r blocks start
  Merged-eq r r' blocks blocks' start start' e e' e'' h = rw (e, e', e'') h

  module _ (k a : Bool) (ek : keeps x ≡ k) (ea : y.alloc ≡ a) where
    start-eq : (if keeps x then bp else p) ≡ (if k then bp else p)
    start-eq = rw ek refl

    merged-eq : merged x b y ≡ (
        if k && a
        then x ∷ b ∷ y ∷ []
        else if k
        then x ∷ free_block (b.size + y.size) b.tag ∷ []
        else if a
        then free_block (b.size + x.size) x.tag ∷ y ∷ []
        else free_block (b.size + (x.size + y.size)) x.tag ∷ [])
    unfolding merged
    merged-eq = simp (ek, ea) refl

  -- In a heap below 2 GB, a free block between two others merges with the ones that are free, but
  -- not with a block before it that has a tag: the blocks from the first to the last one are the
  -- merged ones, the pointer to the merged block is returned, and no word outside of the three
  -- blocks changes.
  pub coalesce-merged :
      ((coalesce bp s).0 ≡ (if keeps x then bp else p))
      × Blocks (coalesce bp s).1.mem p (merged x b y) (next + y.size)
      × Within (p - 4) (next + y.size - 4) s.mem (coalesce bp s).1.mem
  coalesce-merged = elim (Bool-cases (keeps x)) [
    | inl k ↦ elim (Bool-cases y.alloc) [
      | inl a ↦
          Merged-eq (coalesce bp s) _ (merged x b y) _ _ _ (coalesce-none k a)
            (merged-eq true true k a) (start-eq true true k a)
            (refl, (xat, (bat, (yat, refl))), λ w out. refl)
      | inr a ↦
          Merged-eq (coalesce bp s) _ (merged x b y) _ _ _ (coalesce-next k a)
            (merged-eq true false k a) (start-eq true false k a) next-Merged
    ]
    | inr k ↦ elim (Bool-cases y.alloc) [
      | inl a ↦
          Merged-eq (coalesce bp s) _ (merged x b y) _ _ _ (coalesce-prev k a)
            (merged-eq false true k a) (start-eq false true k a) prev-Merged
      | inr a ↦
          Merged-eq (coalesce bp s) _ (merged x b y) _ _ _ (coalesce-both k a)
            (merged-eq false false k a) (start-eq false false k a) both-Merged
    ]
  ]
