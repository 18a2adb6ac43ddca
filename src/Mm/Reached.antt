-- ===== src/Mm/Reached.antt =====
-- The heaps that `mm_init`, `mm_malloc` and `mm_free` of ASSN/ASSN6/mm.c make together.
use mathlib.Core.Path.{subst}
use mathlib.Core.Option.{some-injective}
use csed.Prelude.{
  ℕ, zero, suc, ◌+◌, ◌%◌, ◌^◌, ◌≤◌, ◌<◌, ◌≡◌, inl, inr, refl, sym, ◌∙◌, ap, Bool, false, none, some,
  Option, List, [], ◌∷◌, ◌++◌, arith, ◌==◌, ==-ne,
}
use csed.Mm.{Memory, State, adjust}
use csed.Mm.Heap.{mm_init, mm_malloc, mm_free}
use csed.Mm.Blocks.{
  Block, BlockAt, Blocks, Blocks-le, Blocks-append, size_of_header, alloc_bit_header,
  tag_bit_header,
}
use csed.Mm.Invariant.{prologue, IsHeap}
use csed.Mm.Init.{mm_init-IsHeap}
use csed.Mm.Requested.{Requested, mm_malloc-Requested}
use csed.Mm.Layout.{IsHeap-Layout}
use csed.Mm.Freed.{mm_free-IsHeap}

-- The pointer `bp` is to a block of the heap behind the prologue.
pub record IsBlock (s : State) (bp : ℕ) : Type 0 where
  pub front : List Block
  pub prev : Block
  pub block : Block
  pub tail : List Block
  pub start : ℕ
  pub front_at : Blocks s.mem s.heap_listp front start
  pub blocks_at : Blocks s.mem start (prev ∷ block ∷ tail) s.brk
  pub is_start : start + prev.size ≡ bp

-- The states that calls make from a state before `mm_init`.
pub data Reached (s0 : State) : State → Type 0 where
  initial : Reached s0 (mm_init s0).1
  malloc :
      (size : ℕ) (s s' : State) (r : Option ℕ)
      → Reached s0 s
      → size + 15 < 2 ^ 31
      → mm_malloc size s ≡ some (r, s')
      → Reached s0 s'
  free : (bp : ℕ) (s : State) → Reached s0 s → IsBlock s bp → Reached s0 (mm_free (some bp) s)

module _ (mem : Memory) where
  Block-eq : (p : ℕ) (a b : Block) → BlockAt mem p a → BlockAt mem p b → a ≡ b
  Block-eq p a b h k =
      let size = sym (size_of_header mem p a h) ∙ size_of_header mem p b k in
      let alloc = sym (alloc_bit_header mem p a h) ∙ alloc_bit_header mem p b k in
      let tag = sym (tag_bit_header mem p a h) ∙ tag_bit_header mem p b k in
      let made : ℕ → Bool → Bool → Block = λ n x t. record { size = n; alloc = x; tag = t } in
      ap (λ n. made n a.alloc a.tag) size
      ∙ ap (λ x. made b.size x a.tag) alloc
      ∙ ap (λ t. made b.size b.alloc t) tag

  -- The memory determines the blocks.
  Blocks-eq : (p q : ℕ) (xs ys : List Block) → Blocks mem p xs q → Blocks mem p ys q → xs ≡ ys
  Blocks-eq p q [] [] h k = refl
  Blocks-eq p q [] (y ∷ ys) h k =
      let big = k.0.is_size.big in
      let le = Blocks-le mem (p + y.size) q ys k.1 in absurd (omega arith)
  Blocks-eq p q (x ∷ xs) [] h k =
      let big = h.0.is_size.big in
      let le = Blocks-le mem (p + x.size) q xs h.1 in absurd (omega arith)
  Blocks-eq p q (x ∷ xs) (y ∷ ys) h k =
      let same = Block-eq p x y h.0 k.0 in
      let k' = subst (λ (n : ℕ). Blocks mem (p + n) ys q) (sym (ap (λ b. b.size) same)) k.1 in
      ap (λ b. b ∷ xs) same ∙ ap (λ l. y ∷ l) (Blocks-eq (p + x.size) q xs ys h.1 k')

abbrev IsValid : State → Type 0
IsValid s = (pre : List Block) × (post : List Block) × IsHeap s pre post

mm_malloc-nothing : (s : State) → 8 ≤ s.heap_listp → mm_malloc 0 s ≡ some (none, s)
unfolding mm_malloc
mm_malloc-nothing s low =
    let there : (s.heap_listp == 0) ≡ false = ==-ne s.heap_listp 0 (omega arith) in rw there refl

Requested-IsValid :
    (asize : ℕ) (s : State) (pre post : List Block)
    → IsHeap s pre post
    → (run : Option (Option ℕ × State)) → Requested asize s pre post run
    → (r : Option ℕ) × (s' : State) × (run ≡ some (r, s')) × IsValid s'
Requested-IsValid asize s pre post h run (inl (r, s', done, k)) =
    (some r, s', done, (k.pre, k.post, k.heap))
Requested-IsValid asize s pre post h run (inr (_, inl (_, (r, s', done, k)))) =
    (some r, s', done, (k.pre, k.post, k.heap))
Requested-IsValid asize s pre post h run (inr (_, inr (_, done))) = (none, s, done, (pre, post, h))

mm_malloc-IsValid :
    (size : ℕ) (s : State)
    → size + 15 < 2 ^ 31
    → IsValid s
    → (r : Option ℕ) × (s' : State) × (mm_malloc size s ≡ some (r, s')) × IsValid s'
mm_malloc-IsValid zero s small (pre, post, h) = (none, s, mm_malloc-nothing s h.low, (pre, post, h))
mm_malloc-IsValid (suc size) s small (pre, post, h) =
    Requested-IsValid (adjust (suc size)) s pre post h (mm_malloc (suc size) s)
      (mm_malloc-Requested (suc size) s pre post h (omega arith) small).1

mm_free-IsValid : (bp : ℕ) (s : State) → IsBlock s bp → IsValid s → IsValid (mm_free (some bp) s)
mm_free-IsValid bp s k (pre, post, h) =
    let all = k.front ++ k.prev ∷ k.block ∷ k.tail in
    let same =
      Blocks-eq s.mem s.heap_listp s.brk (pre ++ post) all (IsHeap-Layout s pre post h).all_at (
        Blocks-append s.mem s.heap_listp k.start s.brk k.front (k.prev ∷ k.block ∷ k.tail)
          k.front_at k.blocks_at) in
    let (pre', post', h', _) =
      mm_free-IsHeap s pre post k.front k.tail k.prev k.block k.start h same k.front_at in
    subst (λ (p : ℕ). IsValid (mm_free (some p) s)) k.is_start (pre', post', h')

module _ (s0 : State) (aligned : s0.brk % 8 ≡ 0) (room : s0.brk + 16 ≤ s0.max_addr)
    (small : s0.max_addr < 2 ^ 31) where
  -- From an aligned break with 16 bytes left below 2 GB, after mm_init, calls of mm_malloc for
  -- requests below 2 GB, answered or not, and calls of mm_free for blocks of the heap behind the
  -- prologue, in any order, leave a well-formed heap.
  pub Reached-IsHeap :
      (s : State) → Reached s0 s → (pre : List Block) × (post : List Block) × IsHeap s pre post
  Reached-IsHeap _ initial = ([], prologue ∷ [], (mm_init-IsHeap s0 aligned room small).1)
  Reached-IsHeap _ (malloc size s s' r reached bound run) =
      let (r', s'', run', valid) = mm_malloc-IsValid size s bound (Reached-IsHeap s reached) in
      subst IsValid (ap (λ x. x.1) (some-injective _ _ (sym run' ∙ run))) valid
  Reached-IsHeap _ (free bp s reached k) = mm_free-IsValid bp s k (Reached-IsHeap s reached)
