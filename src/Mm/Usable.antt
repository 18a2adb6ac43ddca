-- ===== src/Mm/Usable.antt =====
-- The pointers that `mm_malloc` of ASSN/ASSN6/mm.c returns.
use mathlib.Core.Path.{subst}
use mathlib.Core.Option.{some-injective, some-ne-none}
use csed.Prelude.{
  append-nil, ℕ, ◌+◌, ◌-◌, ◌%◌, ◌^◌, ◌≤◌, ◌<◌, ◌≡◌, ◌≢◌, inl, inr, refl, sym, ◌∙◌, ap, true, false,
  some, List, [], ◌∷◌, ◌++◌, arith, leb, Bool-cases,
}
use csed.Mm.{State, adjust}
use csed.Mm.Heap.{mm_malloc}
use csed.Mm.Blocks.{Block, Blocks}
use csed.Mm.Place.{split}
use csed.Mm.Fit.{fitting}
use csed.Mm.Invariant.{prologue, IsHeap}
use csed.Mm.Malloc.{adjust-bounds}
use csed.Mm.Requested.{Requested, mm_malloc-Requested}
use csed.Mm.Layout.{Layout, IsHeap-Layout, Blocks-rest}
use csed.Mm.LastBlock.{last_of}
use csed.Mm.Reached.{IsBlock, Reached, Reached-IsHeap}

-- The pointer `r` is to an allocated block of at least `n` bytes, which `mm_free` may free.
pub record IsUsable (s : State) (r n : ℕ) : Type 0 where
  pub is_block : IsBlock s r
  pub allocated : is_block.block.alloc ≡ true
  pub enough : n ≤ is_block.block.size

split-first :
    (asize : ℕ) (b : Block)
    → asize ≤ b.size
    → (c : Block) × (rest : List Block) × (split asize b ≡ c ∷ rest)
      × (c.alloc ≡ true)
      × (asize ≤ c.size)
unfolding split
split-first asize b le = elim (Bool-cases (leb 16 (b.size - asize))) [
  | inl big ↦
      let rest : Block = record { size = b.size - asize; alloc = false; tag = false } in
      (
        record { size = asize; alloc = true; tag = b.tag },
        rest ∷ [],
        rw big refl,
        refl,
        omega arith,
      )
  | inr small ↦ (record { size = b.size; alloc = true; tag = b.tag }, [], rw small refl, refl, le)
]

module _ (s : State) (r n : ℕ) (c : Block) (tail : List Block) (alloc : c.alloc ≡ true)
    (enough : n ≤ c.size) (big : 8 < n) where
  IsUsable-at :
      (before : List Block)
      → Layout s (before ++ c ∷ tail)
      → Blocks s.mem s.heap_listp before r
      → IsUsable s r n
  IsUsable-at [] l at =
      let (rest, begin) = l.begin in
      let same : c ≡ prologue = ap (λ bs. elim bs [ [] ↦ c | x ∷ xs ↦ x ]) begin in
      let small : c.size ≡ 8 = ap (λ b. b.size) same in absurd (omega arith)
  IsUsable-at (b ∷ bs) l at =
      let k = last_of s.mem s.heap_listp r b bs at in
      let here = Blocks-rest s.mem s.heap_listp r s.brk (b ∷ bs) (c ∷ tail) at l.all_at in
      record {
        is_block = record {
          front = k.front;
          prev = k.last;
          block = c;
          tail = tail;
          start = k.start;
          front_at = k.front_at;
          blocks_at = (k.last_at, subst (λ q. Blocks s.mem q (c ∷ tail) s.brk) (sym k.ends) here);
          is_start = k.ends;
        };
        allocated = alloc;
        enough = enough;
      }

IsUsable-split :
    (s : State) (r asize : ℕ) (block : Block) (pre post before after : List Block)
    → IsHeap s pre post
    → pre ++ post ≡ before ++ (split asize block ++ after)
    → Blocks s.mem s.heap_listp before r
    → asize ≤ block.size
    → 8 < asize
    → IsUsable s r asize
IsUsable-split s r asize block pre post before after h whole at le big =
    let (c, rest, first, alloc, enough) = split-first asize block le in
    let whole' = whole ∙ ap (λ bs. before ++ (bs ++ after)) first in
    IsUsable-at s r asize c (rest ++ after) alloc enough big before
      (subst (λ all. Layout s all) whole' (IsHeap-Layout s pre post h)) at

enough_of_fit : (asize : ℕ) (b : Block) → fitting asize b ≡ true → asize ≤ b.size
unfolding fitting
enough_of_fit asize b fit = ground (arith, fit)

Requested-IsUsable :
    (asize : ℕ) (s : State) (pre post : List Block) (r : ℕ) (s' : State)
    → Requested asize s pre post (some (some r, s'))
    → 8 < asize
    → IsUsable s' r asize
Requested-IsUsable asize s pre post r s' (inl (r', s'', done, k)) big =
    let same = some-injective _ _ (sym done) in
    let there = some-injective _ _ (ap (λ x. x.0) same) in
    subst (λ (q : ℕ). IsUsable s' q asize) there
      (subst (λ z. IsUsable z r' asize) (ap (λ x. x.1) same)
        (IsUsable-split s'' r' asize k.block k.pre k.post k.before k.after k.heap k.whole' k.kept
          (enough_of_fit asize k.block k.fit) big))
Requested-IsUsable asize s pre post r s' (inr (_, inl (_, (r', s'', done, k)))) big =
    let same = some-injective _ _ (sym done) in
    let there = some-injective _ _ (ap (λ x. x.0) same) in
    subst (λ (q : ℕ). IsUsable s' q asize) there
      (subst (λ z. IsUsable z r' asize) (ap (λ x. x.1) same)
        (IsUsable-split s'' r' asize k.block k.pre k.post k.before [] k.heap
          (k.whole ∙ ap (λ bs. k.before ++ bs) (sym (append-nil (split asize k.block)))) k.located
          k.enough big))
Requested-IsUsable asize s pre post r s' (inr (_, inr (_, done))) big =
    absurd (some-ne-none r (ap (λ x. x.0) (some-injective _ _ done)))

module _ (s0 : State) (aligned : s0.brk % 8 ≡ 0) (room : s0.brk + 16 ≤ s0.max_addr)
    (small : s0.max_addr < 2 ^ 31) where
  -- From an aligned break with 16 bytes left below 2 GB, after mm_init and any calls of mm_malloc
  -- for requests below 2 GB and of mm_free for blocks of the heap behind the prologue: if
  -- mm_malloc answers a request of at least one byte and below 2 GB with a pointer, it is to an
  -- allocated block of the heap behind the prologue, at least 8 bytes larger than the request.
  pub mm_malloc-IsUsable :
      (size : ℕ) (s s' : State) (r : ℕ)
      → Reached s0 s
      → size ≢ 0
      → size + 15 < 2 ^ 31
      → mm_malloc size s ≡ some (some r, s')
      → IsUsable s' r (size + 8)
  mm_malloc-IsUsable size s s' r reached ne bound run =
      let (pre, post, h) = Reached-IsHeap s0 aligned room small s reached in
      let (room, requested) = mm_malloc-Requested size s pre post h ne bound in
      let big = (adjust-bounds size ne bound).0.big in
      let k =
        Requested-IsUsable (adjust size) s pre post r s' (rw (← run) requested)
          (omega (arith, room, ne)) in
      record {
        is_block = k.is_block;
        allocated = k.allocated;
        enough = omega (arith, k.enough, room);
      }
