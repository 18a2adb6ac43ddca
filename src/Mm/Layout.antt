-- ===== src/Mm/Layout.antt =====
-- The heap of ASSN/ASSN6/mm.c as one list of blocks with a mark at the current one.
use mathlib.Core.Path.{subst}
use csed.Prelude.{
  ℕ, ◌+◌, ◌-◌, ◌%◌, ◌^◌, ◌≤◌, ◌<◌, ◌≡◌, ◌⊎◌, inl, inr, refl, sym, ◌∙◌, ap, true, List, [], ◌∷◌,
  ◌++◌, arith,
}
use csed.Mm.{Memory, State, size_of, alloc_bit}
use csed.Mm.Blocks.{Block, Blocks, Blocks-le, Blocks-append}
use csed.Mm.Invariant.{prologue, IsHeap}

-- The address `c` is where a block of the list starts that begins at `p`, or its end.
unfoldable pub Starts : ℕ → List Block → ℕ → Type 0
Starts p [] c = c ≡ p
Starts p (b ∷ bs) c = ◌⊎◌ (c ≡ p) (Starts (p + b.size) bs c)

pub record Layout (s : State) (all : List Block) : Type 0 where
  pub low : 8 ≤ s.heap_listp
  pub aligned : s.heap_listp % 8 ≡ 0
  pub all_at : Blocks s.mem s.heap_listp all s.brk
  pub current : Starts s.heap_listp all s.current_block
  pub begin : (rest : List Block) × (all ≡ prologue ∷ rest)
  pub end_size : size_of (s.mem (s.brk - 4)) ≡ 0
  pub end_alloc : alloc_bit (s.mem (s.brk - 4)) ≡ true
  pub in_bounds : s.brk ≤ s.max_addr
  pub max_small : s.max_addr < 2 ^ 31

module _ (mem : Memory) where
  Starts-first : (p : ℕ) (bs : List Block) → Starts p bs p
  unfolding Starts
  Starts-first p [] = refl
  Starts-first p (b ∷ bs) = inl refl

  Starts-append : (p c : ℕ) (xs ys : List Block) → Blocks mem p xs c → Starts p (xs ++ ys) c
  unfolding Starts
  Starts-append p c [] ys h = subst (λ c. Starts p ys c) h (Starts-first p ys)
  Starts-append p c (x ∷ xs) ys h = inr (Starts-append (p + x.size) c xs ys h.1)

  pub Blocks-rest :
      (p q r : ℕ) (xs ys : List Block)
      → Blocks mem p xs q
      → Blocks mem p (xs ++ ys) r
      → Blocks mem q ys r
  Blocks-rest p q r [] ys h k = subst (λ q. Blocks mem q ys r) h k
  Blocks-rest p q r (x ∷ xs) ys h k = Blocks-rest (p + x.size) q r xs ys h.1 k.1

  Cut : ℕ → List Block → ℕ → ℕ → Type 0
  Cut p bs q c =
      (pre : List Block) × (post : List Block) × (bs ≡ pre ++ post)
      × Blocks mem p pre c
      × Blocks mem c post q

  cut : (p q c : ℕ) (bs : List Block) → Blocks mem p bs q → Starts p bs c → Cut p bs q c
  unfolding Cut Starts
  cut p q c [] h start = ([], [], refl, sym start, start ∙ h)
  cut p q c (b ∷ bs) h (inl start) =
      ([], b ∷ bs, refl, sym start, subst (λ c. Blocks mem c (b ∷ bs) q) (sym start) h)
  cut p q c (b ∷ bs) h (inr start) =
      let (pre, post, whole, pre_at, post_at) = cut (p + b.size) q c bs h.1 start in
      (b ∷ pre, post, ap (◌∷◌ b) whole, (h.0, pre_at), post_at)

  -- Either `c` is before the end of the first blocks, or among the others.
  pub Starts-split :
      (p q c : ℕ) (xs ys : List Block)
      → Blocks mem p xs q
      → Starts p (xs ++ ys) c
      → ◌⊎◌ ((p ≤ c) × (c < q)) (Starts q ys c)
  unfolding Starts
  Starts-split p q c [] ys h start = inr (subst (λ q. Starts q ys c) h start)
  Starts-split p q c (x ∷ xs) ys h (inl start) =
      let big = h.0.is_size.big in
      let le = Blocks-le mem (p + x.size) q xs h.1 in inl (omega arith, omega arith)
  Starts-split p q c (x ∷ xs) ys h (inr start) =
      elim (Starts-split (p + x.size) q c xs ys h.1 start) [
        | inl (lo, hi) ↦ inl (omega arith, hi)
        | inr rest ↦ inr rest
      ]

  -- The blocks behind `q` are replaced, and the mark with them.
  pub Starts-replace :
      (p q c c' : ℕ) (xs ys ys' : List Block)
      → Blocks mem p xs q
      → (c < q → c' ≡ c)
      → (Starts q ys c → Starts q ys' c')
      → Starts p (xs ++ ys) c
      → Starts p (xs ++ ys') c'
  unfolding Starts
  Starts-replace p q c c' [] ys ys' h same f start =
      subst (λ q. Starts q ys' c') (sym h) (f (subst (λ q. Starts q ys c) h start))
  Starts-replace p q c c' (x ∷ xs) ys ys' h same f (inl start) =
      let big = h.0.is_size.big in
      let le = Blocks-le mem (p + x.size) q xs h.1 in inl (same (omega arith) ∙ start)
  Starts-replace p q c c' (x ∷ xs) ys ys' h same f (inr start) =
      inr (Starts-replace (p + x.size) q c c' xs ys ys' h.1 same f start)

  pub Starts-le : (p q c : ℕ) (bs : List Block) → Blocks mem p bs q → Starts p bs c → p ≤ c
  unfolding Starts
  Starts-le p q c [] h start = omega arith
  Starts-le p q c (b ∷ bs) h (inl start) = omega arith
  Starts-le p q c (b ∷ bs) h (inr start) =
      let le = Starts-le (p + b.size) q c bs h.1 start in omega arith

pub IsHeap-Layout : (s : State) (pre post : List Block) → IsHeap s pre post → Layout s (pre ++ post)
IsHeap-Layout s pre post h = record {
  low = h.low;
  aligned = h.aligned;
  all_at = Blocks-append s.mem s.heap_listp s.current_block s.brk pre post h.pre_at h.post_at;
  current = Starts-append s.mem s.heap_listp s.current_block pre post h.pre_at;
  begin = h.begin;
  end_size = h.end_size;
  end_alloc = h.end_alloc;
  in_bounds = h.in_bounds;
  max_small = h.max_small;
}

pub Layout-IsHeap :
    (s : State) (all : List Block)
    → Layout s all
    → (pre : List Block) × (post : List Block) × (all ≡ pre ++ post) × IsHeap s pre post
unfolding Cut
Layout-IsHeap s all l =
    let (pre, post, whole, pre_at, post_at) =
      cut s.mem s.heap_listp s.brk s.current_block all l.all_at l.current in
    let (rest, begin) = l.begin in
    (
      pre,
      post,
      whole,
      record {
        low = l.low;
        aligned = l.aligned;
        pre_at = pre_at;
        post_at = post_at;
        begin = (rest, sym whole ∙ begin);
        end_size = l.end_size;
        end_alloc = l.end_alloc;
        in_bounds = l.in_bounds;
        max_small = l.max_small;
      },
    )
