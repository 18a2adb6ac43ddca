-- ===== src/Mm/NextTaken.antt =====
-- `coalesce` of ASSN/ASSN6/mm.c in a heap, where an allocated block or the epilogue is next.
use csed.Prelude.{
  ℕ, ◌+◌, ◌-◌, ◌%◌, ◌^◌, ◌≤◌, ◌<◌, ◌≡◌, inl, inr, refl, ◌∙◌, ap, true, false, List, [], ◌∷◌, ◌++◌,
  arith, if◌then◌else◌, Bool-cases,
}
use csed.Mm.{Memory, State, alloc_bit, prev_blkp}
use csed.Mm.Heap.{settle, coalesce, merge_prev}
use csed.Mm.Blocks.{Block, IsSize, BlockAt, Blocks, Blocks-le}
use csed.Mm.Invariant.{prologue}
use csed.Mm.Place.{Only}
use csed.Mm.Coalesce.{keeps, free_block, coalesce-reads, prev-block, merge_prev-BlockAt}
use csed.Mm.Layout.{Layout, Blocks-rest}
use csed.Mm.Settled.{settle-Layout}

first_of : Block → List Block → Block
first_of b [] = b
first_of b (x ∷ xs) = x

pub begin-first :
    (front rest : List Block) (x : Block) (ys zs : List Block)
    → front ++ x ∷ ys ≡ prologue ∷ rest
    → (rest' : List Block) × (front ++ x ∷ zs ≡ prologue ∷ rest')
unfolding first_of
begin-first [] rest x ys zs e = (zs, ap (λ b. b ∷ zs) (ap (first_of x) e))
begin-first (f ∷ front) rest x ys zs e =
    (front ++ x ∷ zs, ap (λ b. b ∷ (front ++ x ∷ zs)) (ap (first_of x) e))

pub begin-other :
    (front rest : List Block) (x : Block) (ys zs : List Block)
    → keeps x ≡ false
    → front ++ x ∷ ys ≡ prologue ∷ rest
    → (rest' : List Block) × (front ++ zs ≡ prologue ∷ rest')
unfolding first_of
begin-other [] rest x ys zs k e =
    let same : x ≡ prologue = ap (first_of x) e in
    let taken : x.alloc ≡ true = ap (λ b. b.alloc) same in absurd (ground arith)
begin-other (f ∷ front) rest x ys zs k e =
    (front ++ zs, ap (λ b. b ∷ (front ++ zs)) (ap (first_of x) e))

module _ (s : State) (p : ℕ) (x b : Block) (front tail : List Block)
    (l : Layout s (front ++ x ∷ b ∷ tail)) (front_at : Blocks s.mem s.heap_listp front p) where
  abbrev bp : ℕ
  bp = p + x.size

  abbrev next : ℕ
  next = bp + b.size

  pub mid_at : Blocks s.mem p (x ∷ b ∷ tail) s.brk
  mid_at = Blocks-rest s.mem s.heap_listp p s.brk front (x ∷ b ∷ tail) front_at l.all_at

  abbrev xat : BlockAt s.mem p x
  xat = mid_at.0

  abbrev bat : BlockAt s.mem bp b
  bat = mid_at.1.0

  pub bounds : (8 ≤ p) × (next ≤ s.brk) × (s.brk < 2 ^ 31)
  bounds =
      let le = Blocks-le s.mem s.heap_listp p front front_at in
      (
        omega (arith, l.low),
        Blocks-le s.mem next s.brk tail mid_at.1.1,
        omega (arith, l.in_bounds, l.max_small),
      )

  -- The next block is allocated.
  module _ (closed : alloc_bit (s.mem (next - 4)) ≡ true) where
    kept : keeps x ≡ true → coalesce bp s ≡ (bp, s)
    kept k = coalesce-reads s.mem p x b bounds.0 xat bat s refl true closed ∙ rw k refl

    abbrev n : ℕ
    n = b.size + x.size

    abbrev m : Memory
    m = merge_prev bp n s.mem

    n-IsSize : IsSize n
    n-IsSize =
        let ax = xat.is_size.aligned in
        let ab = bat.is_size.aligned in
        let big = bat.is_size.big in
        record { aligned = omega arith; big = omega arith; small = omega (arith, bounds) }

    made : BlockAt m p (free_block n x.tag) × Only p n s.mem m
    made = merge_prev-BlockAt s.mem p x b bounds.0 xat bat n n-IsSize refl

    start-eq : prev_blkp bp m ≡ p
    start-eq =
        let big = xat.is_size.big in
        let big' = bat.is_size.big in
        prev-block s.mem p x b bounds.0 xat bat m
          (made.1 (bp - 8) (omega (arith, bounds)) (omega arith))

    taken : keeps x ≡ false → coalesce bp s ≡ settle p (record s { mem = m })
    taken k =
        let wrap : n % 2 ^ 32 ≡ n = omega (arith, n-IsSize.small) in
        coalesce-reads s.mem p x b bounds.0 xat bat s refl true closed
        ∙ rw k (rw wrap (ap (λ (r : ℕ). settle r (record s { mem = m })) start-eq))

    taken-Layout : keeps x ≡ false → Layout (coalesce bp s).1 (front ++ free_block n x.tag ∷ tail)
    taken-Layout k =
        let (rest, begin) = l.begin in
        let (rest', begin') =
          begin-other front rest x (b ∷ tail) (free_block n x.tag ∷ tail) k begin in
        rw (taken k) (
          settle-Layout s front (x ∷ b ∷ []) tail p next l front_at (xat, (bat, refl))
            (free_block n x.tag) m made.0 made.1 (omega arith) rest' begin')

    pub closed-Layout :
        (tail' : List Block)
        → tail' ≡ (if keeps x then x ∷ b ∷ tail else free_block n x.tag ∷ tail)
        → Layout (coalesce bp s).1 (front ++ tail')
    closed-Layout tail' e = elim (Bool-cases (keeps x)) [
      | inl k ↦ rw (e, k, kept k) l
      | inr k ↦ rw (e, k) (taken-Layout k)
    ]
