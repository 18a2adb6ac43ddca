-- ===== src/Mm/Coalesced.antt =====
-- `coalesce` of ASSN/ASSN6/mm.c in a heap: the epilogue may be the next block.
use csed.Prelude.{
  ℕ, ◌+◌, ◌-◌, ◌≡◌, inl, inr, refl, ◌∙◌, ap, true, List, [], ◌∷◌, ◌++◌, if◌then◌else◌, Bool-cases,
}
use csed.Mm.{State, alloc_bit}
use csed.Mm.Heap.{coalesce}
use csed.Mm.Blocks.{Block, Blocks, alloc_bit_header}
use csed.Mm.Coalesce.{keeps, free_block}
use csed.Mm.Merged.{merged}
use csed.Mm.Layout.{Layout}
use csed.Mm.NextTaken.{mid_at, closed-Layout}
use csed.Mm.NextFree.{open-Layout}

-- The blocks from `x` on after the free block `b` behind it is merged. The blocks behind `b` are
-- `tail`; if there is none, the epilogue is behind it.
unfoldable pub joined : Block → Block → List Block → List Block
joined x b [] = if keeps x then x ∷ b ∷ [] else free_block (b.size + x.size) x.tag ∷ []
joined x b (y ∷ after) = merged x b y ++ after

merged-taken :
    (x b y : Block) (after : List Block)
    → y.alloc ≡ true
    → merged x b y ++ after
      ≡ (if keeps x then x ∷ b ∷ y ∷ after else free_block (b.size + x.size) x.tag ∷ y ∷ after)
unfolding merged
merged-taken x b y after taken = elim (Bool-cases (keeps x)) [
  | inl k ↦ simp (k, taken) refl
  | inr k ↦ simp (k, taken) refl
]

-- The call of `coalesce` for the block `b` behind `x`.
pub coalesce-Layout :
    (s : State) (p : ℕ) (x b : Block) (front tail : List Block)
    → Layout s (front ++ x ∷ b ∷ tail)
    → Blocks s.mem s.heap_listp front p
    → Layout (coalesce (p + x.size) s).1 (front ++ joined x b tail)
unfolding joined
coalesce-Layout s p x b front [] l front_at =
    let ends = (mid_at s p x b front [] l front_at).1.1 in
    closed-Layout s p x b front [] l front_at
      (ap (λ (q : ℕ). alloc_bit (s.mem (q - 4))) ends ∙ l.end_alloc) (joined x b []) refl
coalesce-Layout s p x b front (y ∷ after) l front_at =
    let yat = (mid_at s p x b front (y ∷ after) l front_at).1.1.0 in
    elim (Bool-cases y.alloc) [
      | inl taken ↦
          closed-Layout s p x b front (y ∷ after) l front_at
            (alloc_bit_header s.mem (p + x.size + b.size) y yat ∙ taken) (merged x b y ++ after)
            (merged-taken x b y after taken)
      | inr free ↦ open-Layout s p x b y front after l front_at free
    ]
