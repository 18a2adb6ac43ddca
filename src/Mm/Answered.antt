-- ===== src/Mm/Answered.antt =====
-- `mm_malloc` of ASSN/ASSN6/mm.c where no block fits: the heap is extended.
use csed.Prelude.{
  append_assoc, append-nil, ℕ, ◌+◌, ◌-◌, ◌≤◌, ◌<◌, ◌≡◌, ◌⊎◌, inl, inr, refl, sym, ◌∙◌, ap, true,
  false, some, List, [], ◌∷◌, ◌++◌, arith,
}
use csed.Mm.{State, size_of, alloc_bit}
use csed.Mm.Heap.{extend_heap, place}
use csed.Mm.Blocks.{Block, IsSize, Blocks, Blocks-le, Blocks-Agree, Blocks-append}
use csed.Mm.Invariant.{prologue, IsHeap}
use csed.Mm.Coalesce.{keeps, free_block}
use csed.Mm.Place.{split, Within}
use csed.Mm.Fit.{fitting, Found}
use csed.Mm.Placed.{placed-low, placed-high, placed-swap}
use csed.Mm.Malloc.{begin_swap}
use csed.Mm.Extended.{merged_current}
use csed.Mm.LastBlock.{last_of}
use csed.Mm.Enlarged.{Enlarged, enlarged}

module _ (n : ℕ) (s : State) where
  -- The extension of a well-formed heap.
  pub extend_heap-Enlarged :
      (pre post : List Block)
      → IsHeap s pre post
      → IsSize n
      → s.brk + n ≤ s.max_addr
      → (r : ℕ) × (s' : State) × (extend_heap n s ≡ some (r, s')) × Enlarged n s (pre ++ post) r s'
  extend_heap-Enlarged [] [] h ok room = absurd (cc h.begin.1)
  extend_heap-Enlarged (b ∷ pre) [] h ok room =
      let l = last_of s.mem s.heap_listp s.current_block b pre h.pre_at in
      let at_end : l.start + l.last.size ≡ s.brk = l.ends ∙ h.post_at in
      let le = Blocks-le s.mem s.heap_listp l.start l.front l.front_at in
      let big = l.last_at.is_size.big in
      let big' = ok.big in
      let current : merged_current n s l.start ≡ l.start = ground (arith, l.ends, h.post_at) in
      enlarged n s (b ∷ pre) [] h room ok l.start l.last (omega (arith, h.low, le)) at_end l.last_at
        l.start l.front [] current l.front_at refl
        (append-nil (b ∷ pre) ∙ l.whole ∙ ap (λ xs. xs ++ l.last ∷ []) (sym (append-nil l.front)))
  extend_heap-Enlarged pre (b ∷ post) h ok room =
      let l = last_of s.mem s.current_block s.brk b post h.post_at in
      let le = Blocks-le s.mem s.current_block l.start l.front l.front_at in
      let le' = Blocks-le s.mem s.heap_listp s.current_block pre h.pre_at in
      let current : merged_current n s l.start ≡ s.current_block = ground (arith, le) in
      enlarged n s pre (b ∷ post) h room ok l.start l.last (omega (arith, h.low, le, le')) l.ends
        l.last_at s.current_block pre l.front current h.pre_at l.front_at
        (ap (λ xs. pre ++ xs) l.whole ∙ sym (append_assoc pre l.front (l.last ∷ [])))

-- The answer to a request for which the heap of the blocks `all` is extended by `n` bytes: the
-- block is split at the end of the heap, and the blocks before it stay.
pub record Answered (asize n : ℕ) (s : State) (all : List Block) (r : ℕ) (s' : State) : Type 0 where
  pub pre : List Block
  pub post : List Block
  pub heap : IsHeap s' pre post
  pub before : List Block
  pub block : Block
  pub whole : pre ++ post ≡ before ++ split asize block
  pub located : Blocks s'.mem s'.heap_listp before r
  pub enough : asize ≤ block.size
  pub origin : ◌⊎◌ ((all ≡ before) × (block ≡ free_block n false) × (r ≡ s.brk)) (
      (x : Block) × (all ≡ before ++ x ∷ [])
      × (keeps x ≡ false)
      × (block ≡ free_block (n + x.size) false)
      × (r + x.size ≡ s.brk))
  pub new_brk : s'.brk ≡ s.brk + n
  pub unchanged : Within (r - 4) (s.brk + n) s.mem s'.mem

module _ (asize n : ℕ) (s : State) (all : List Block) (r : ℕ) (s' : State)
    (e : Enlarged n s all r s') (ok : IsSize asize) (le_n : asize ≤ n) where
  block_facts : (n ≤ e.block.size) × (e.block.alloc ≡ false) × (e.block.tag ≡ false)
  block_facts = elim e.origin [
    | inl (_, same, _) ↦ rw same (omega arith, refl, refl)
    | inr (x, _, _, same, _) ↦ rw same (omega arith, refl, refl)
  ]

  fit : fitting asize e.block ≡ true
  fit = unfold fitting in ground (arith, block_facts)

  abbrev found : Found s'.mem s'.current_block (e.front ++ e.block ∷ []) s'.brk r
  found = record {
    before = e.front;
    block = e.block;
    after = [];
    whole = refl;
    up_to = e.front_at;
    at = e.block_at;
    behind = e.ends;
  }

  bounds : (8 ≤ s'.current_block) × (s'.current_block ≤ r) × (s'.heap_listp ≤ s'.current_block)
  bounds =
      let le = Blocks-le s'.mem s'.heap_listp s'.current_block e.pre e.heap.pre_at in
      let le' = Blocks-le s'.mem s'.current_block r e.front e.front_at in
      (omega (arith, e.heap.low), le', le)

  abbrev placed : State
  placed = record s' { mem = place r asize s'.mem }

  low : (a : ℕ) → a < r - 4 → placed.mem a ≡ s'.mem a
  low =
      placed-low asize s'.mem s'.current_block (e.front ++ e.block ∷ []) s'.brk r bounds.0 found ok
        fit

  high : (a : ℕ) → s'.brk - 4 ≤ a → placed.mem a ≡ s'.mem a
  high a h =
      placed-high asize s'.mem s'.current_block (e.front ++ e.block ∷ []) s'.brk r bounds.0 found ok
        fit a (omega (arith, e.ends))

  pre_same : Blocks placed.mem s'.heap_listp e.pre s'.current_block
  pre_same =
      Blocks-Agree s'.mem placed.mem s'.heap_listp s'.current_block e.pre
        (omega (arith, e.heap.low)) (λ a lo hi. low a (omega (arith, bounds))) e.heap.pre_at

  front_same : Blocks placed.mem s'.current_block e.front r
  front_same =
      Blocks-Agree s'.mem placed.mem s'.current_block r e.front (omega (arith, bounds))
        (λ a lo hi. low a hi) e.front_at

  end_same : placed.mem (s'.brk - 4) ≡ s'.mem (s'.brk - 4)
  end_same = high (s'.brk - 4) (omega arith)

  abbrev new_post : List Block
  new_post = e.front ++ (split asize e.block ++ [])

  new_whole : e.pre ++ new_post ≡ (e.pre ++ e.front) ++ split asize e.block
  new_whole =
      sym (append_assoc e.pre e.front (split asize e.block ++ []))
      ∙ ap (λ l. (e.pre ++ e.front) ++ l) (append-nil (split asize e.block))

  placed-IsHeap : IsHeap placed e.pre new_post
  placed-IsHeap =
      let (rest, begin) = e.heap.begin in
      let (rest', begin') =
        begin_swap asize prologue e.block (e.pre ++ e.front) [] rest refl fit
          (append_assoc e.pre e.front (e.block ∷ []) ∙ begin) in
      record {
        low = e.heap.low;
        aligned = e.heap.aligned;
        pre_at = pre_same;
        post_at =
            placed-swap asize s'.mem s'.current_block (e.front ++ e.block ∷ []) s'.brk r bounds.0
              found ok fit;
        begin = (rest', sym (append_assoc e.pre e.front (split asize e.block ++ [])) ∙ begin');
        end_size = ap size_of end_same ∙ e.heap.end_size;
        end_alloc = ap alloc_bit end_same ∙ e.heap.end_alloc;
        in_bounds = e.heap.in_bounds;
        max_small = e.heap.max_small;
      }

  pub answered : Answered asize n s all r placed
  answered = record {
    pre = e.pre;
    post = new_post;
    heap = placed-IsHeap;
    before = e.pre ++ e.front;
    block = e.block;
    whole = new_whole;
    located =
        Blocks-append placed.mem s'.heap_listp s'.current_block r e.pre e.front pre_same front_same;
    enough = omega (arith, block_facts.0);
    origin = e.origin;
    new_brk = e.new_brk;
    unchanged = λ a out. elim out [
      | inl lo ↦ low a lo ∙ e.unchanged a (inl lo)
      | inr hi ↦ high a (omega (arith, e.new_brk)) ∙ e.unchanged a (inr hi)
    ];
  }
