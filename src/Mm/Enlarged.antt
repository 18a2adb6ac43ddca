-- ===== src/Mm/Enlarged.antt =====
-- The heap of ASSN/ASSN6/mm.c after `extend_heap`: a free block is its last one.
use mathlib.Core.Path.{subst}
use csed.Prelude.{
  append_assoc, ℕ, ◌+◌, ◌-◌, ◌≤◌, ◌<◌, ◌≡◌, ◌≢◌, ◌⊎◌, inl, inr, refl, sym, ◌∙◌, ap, true, false,
  some, List, [], ◌∷◌, ◌++◌, arith, Bool-cases,
}
use csed.Mm.{Memory, State, size_of, alloc_bit, pack}
use csed.Mm.Heap.{extend_heap}
use csed.Mm.Blocks.{Block, IsSize, BlockAt, Blocks, Blocks-le, Blocks-Agree, Blocks-append}
use csed.Mm.Place.{Within}
use csed.Mm.Coalesce.{keeps, free_block}
use csed.Mm.Invariant.{prologue, IsHeap}
use csed.Mm.Opened.{opened_mem, opened, opened-below, opened-above, opened-epilogue, opened-BlockAt}
use csed.Mm.Extended.{
  merged_mem, merged_current, merged_state, merged_at, extend_heap-keeps, extend_heap-merges,
}

-- What `extend_heap` by `n` bytes makes of a heap of the blocks `all`: a free block of `n` bytes at
-- the old end, or one that the last block is part of, if that is free and has no tag.
pub record Enlarged (n : ℕ) (s : State) (all : List Block) (r : ℕ) (s' : State) : Type 0 where
  pub pre : List Block
  pub front : List Block
  pub block : Block
  pub heap : IsHeap s' pre (front ++ block ∷ [])
  pub front_at : Blocks s'.mem s'.current_block front r
  pub block_at : BlockAt s'.mem r block
  pub ends : r + block.size ≡ s'.brk
  pub origin : ◌⊎◌ ((all ≡ pre ++ front) × (block ≡ free_block n false) × (r ≡ s.brk)) (
      (x : Block) × (all ≡ (pre ++ front) ++ x ∷ [])
      × (keeps x ≡ false)
      × (block ≡ free_block (n + x.size) false)
      × (r + x.size ≡ s.brk))
  pub new_brk : s'.brk ≡ s.brk + n
  pub unchanged : Within (r - 4) (s.brk + n) s.mem s'.mem

-- The prologue stays the first block, since it is no free block that is replaced.
replace_last :
    (ys rest : List Block) (x b : Block)
    → ys ++ x ∷ [] ≡ prologue ∷ rest
    → keeps x ≡ false
    → (rest' : List Block) × (ys ++ b ∷ [] ≡ prologue ∷ rest')
replace_last [] rest x b e k =
    let same : x ≡ prologue = ap (λ xs. elim xs [ [] ↦ x | y ∷ ys ↦ y ]) e in
    absurd (cc (k, ap keeps same))
replace_last (y ∷ ys) rest x b e k =
    let same : y ≡ prologue = ap (λ xs. elim xs [ [] ↦ x | z ∷ zs ↦ z ]) e in
    (ys ++ b ∷ [], ap (λ z. z ∷ (ys ++ b ∷ [])) same)

module _ (n : ℕ) (s : State) (pre post : List Block) (h : IsHeap s pre post)
    (room : s.brk + n ≤ s.max_addr) where
  enlarged-IsHeap :
      (m : Memory) (c r : ℕ) (pre' front : List Block) (block : Block)
      → Blocks m s.heap_listp pre' c
      → Blocks m c front r
      → BlockAt m r block
      → r + block.size ≡ s.brk + n
      → m (s.brk + n - 4) ≡ pack 0 true
      → (rest : List Block) × ((pre' ++ front) ++ block ∷ [] ≡ prologue ∷ rest)
      → IsHeap (record s { mem = m; brk = s.brk + n; current_block = c }) pre' (front ++ block ∷ [])
  enlarged-IsHeap m c r pre' front block pre_at front_at at ends end begin = record {
    low = h.low;
    aligned = h.aligned;
    pre_at = pre_at;
    post_at = Blocks-append m c r (s.brk + n) front (block ∷ []) front_at (at, ends);
    begin = (begin.0, sym (append_assoc pre' front (block ∷ [])) ∙ begin.1);
    end_size = ap size_of end ∙ unfold size_of pack in refl;
    end_alloc = ap alloc_bit end ∙ unfold alloc_bit pack in refl;
    in_bounds = room;
    max_small = h.max_small;
  }

  module _ (ok : IsSize n) (p : ℕ) (x : Block) (low : 8 ≤ p) (at : p + x.size ≡ s.brk)
      (xat : BlockAt s.mem p x) where
    abbrev pub Result : Type 0
    Result =
        (r : ℕ) × (s' : State) × (extend_heap n s ≡ some (r, s')) × Enlarged n s (pre ++ post) r s'

    low_end : 8 ≤ s.brk
    low_end = omega arith

    kept : keeps x ≡ true → Result
    kept k = (
      s.brk,
      opened n s,
      extend_heap-keeps n ok s p x low at xat room h.max_small k,
      record {
        pre = pre;
        front = post;
        block = free_block n false;
        heap =
            enlarged-IsHeap (opened_mem n s) s.current_block s.brk pre post (free_block n false)
              pre_same post_same new_at refl (opened-epilogue n ok s low_end room) begin;
        front_at = post_same;
        block_at = new_at;
        ends = refl;
        origin = inl (refl, refl, refl);
        new_brk = refl;
        unchanged = λ a out. elim out [
          | inl lo ↦ opened-below n ok s low_end room a lo
          | inr hi ↦ opened-above n ok s low_end room a hi
        ];
      },
    )
      where
        le : s.current_block ≤ s.brk
        le = Blocks-le s.mem s.current_block s.brk post h.post_at

        le' : s.heap_listp ≤ s.current_block
        le' = Blocks-le s.mem s.heap_listp s.current_block pre h.pre_at

        pre_same : Blocks (opened_mem n s) s.heap_listp pre s.current_block
        pre_same =
            Blocks-Agree s.mem (opened_mem n s) s.heap_listp s.current_block pre
              (omega (arith, h.low))
              (λ a lo hi. opened-below n ok s low_end room a (omega (arith, le))) h.pre_at

        post_same : Blocks (opened_mem n s) s.current_block post s.brk
        post_same =
            Blocks-Agree s.mem (opened_mem n s) s.current_block s.brk post
              (omega (arith, h.low, le')) (λ a lo hi. opened-below n ok s low_end room a hi)
              h.post_at

        new_at : BlockAt (opened_mem n s) s.brk (free_block n false)
        new_at = opened-BlockAt n ok s low_end room

        begin : (rest : List Block) × ((pre ++ post) ++ free_block n false ∷ [] ≡ prologue ∷ rest)
        begin =
            let (rest, e) = h.begin in
            (rest ++ free_block n false ∷ [], ap (λ l. l ++ free_block n false ∷ []) e)

    module _ (c : ℕ) (pre' front : List Block) (current : merged_current n s p ≡ c)
        (pre_at : Blocks s.mem s.heap_listp pre' c) (front_at : Blocks s.mem c front p)
        (whole : pre ++ post ≡ (pre' ++ front) ++ x ∷ []) where
      merged : keeps x ≡ false → Result
      merged k = (
        p,
        merged_state n s p x,
        extend_heap-merges n ok s p x low at xat room h.max_small k,
        record {
          pre = pre';
          front = front;
          block = free_block (n + x.size) false;
          heap =
              subst
                (λ d.
                  IsHeap (record s { mem = merged_mem n s p x; brk = s.brk + n; current_block = d })
                    pre' (front ++ free_block (n + x.size) false ∷ []))
                (sym current)
                (enlarged-IsHeap (merged_mem n s p x) c p pre' front (free_block (n + x.size) false)
                  pre_same front_same new_at (omega arith) end begin);
          front_at = subst (λ d. Blocks (merged_mem n s p x) d front p) (sym current) front_same;
          block_at = new_at;
          ends = omega arith;
          origin = inr (x, whole, k, refl, at);
          new_brk = refl;
          unchanged = λ a out. elim out [ inl lo ↦ below a lo | inr hi ↦ above a hi ];
        },
      )
        where
          big : 8 ≤ x.size
          big = xat.is_size.big

          big' : 8 ≤ n
          big' = ok.big

          no_tag : x.tag ≡ false
          no_tag = ground (arith, k)

          written : BlockAt (merged_mem n s p x) p (free_block (n + x.size) x.tag)
          written = (merged_at n ok s p x low at xat room h.max_small).0

          new_at : BlockAt (merged_mem n s p x) p (free_block (n + x.size) false)
          new_at =
              subst (λ t. BlockAt (merged_mem n s p x) p (free_block (n + x.size) t)) no_tag written

          same :
              (a : ℕ)
              → a ≢ p - 4
              → a ≢ p + (n + x.size) - 8
              → merged_mem n s p x a ≡ opened_mem n s a
          same = (merged_at n ok s p x low at xat room h.max_small).1

          below : (a : ℕ) → a < p - 4 → merged_mem n s p x a ≡ s.mem a
          below a lo =
              same a (omega arith) (omega arith) ∙ opened-below n ok s low_end room a (omega arith)

          above : (a : ℕ) → s.brk + n ≤ a → merged_mem n s p x a ≡ s.mem a
          above a hi = same a (omega arith) (omega arith) ∙ opened-above n ok s low_end room a hi

          end : merged_mem n s p x (s.brk + n - 4) ≡ pack 0 true
          end =
              same (s.brk + n - 4) (omega arith) (omega arith) ∙ opened-epilogue n ok s low_end room

          le : c ≤ p
          le = Blocks-le s.mem c p front front_at

          le' : s.heap_listp ≤ c
          le' = Blocks-le s.mem s.heap_listp c pre' pre_at

          pre_same : Blocks (merged_mem n s p x) s.heap_listp pre' c
          pre_same =
              Blocks-Agree s.mem (merged_mem n s p x) s.heap_listp c pre' (omega (arith, h.low))
                (λ a lo hi. below a (omega (arith, le))) pre_at

          front_same : Blocks (merged_mem n s p x) c front p
          front_same =
              Blocks-Agree s.mem (merged_mem n s p x) c p front (omega (arith, h.low, le'))
                (λ a lo hi. below a hi) front_at

          begin :
              (rest : List Block) × ((pre' ++ front) ++ free_block (n + x.size) false ∷ []
                ≡ prologue ∷ rest)
          begin =
              let (rest, e) = h.begin in
              replace_last (pre' ++ front) rest x (free_block (n + x.size) false) (sym whole ∙ e) k

      pub enlarged : Result
      enlarged = elim (Bool-cases (keeps x)) [ inl k ↦ kept k | inr k ↦ merged k ]
