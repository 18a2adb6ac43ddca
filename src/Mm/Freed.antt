-- ===== src/Mm/Freed.antt =====
-- `mm_free` of ASSN/ASSN6/mm.c in a well-formed heap.
use mathlib.Core.Path.{subst}
use csed.Prelude.{
  ℕ, ◌+◌, ◌-◌, ◌≤◌, ◌<◌, ◌≡◌, ◌≢◌, inl, inr, refl, sym, ◌∙◌, true, false, some, List, ◌∷◌, ◌++◌,
  arith,
}
use csed.Mm.{Memory, State, size_of, alloc_bit, delete_tag}
use csed.Mm.Heap.{put_block, mm_free}
use csed.Mm.Blocks.{
  Block, BlockAt, Blocks, Blocks-le, Blocks-append, Blocks-Agree, BlockAt-Agree, tag_bit_header,
  put-other,
}
use csed.Mm.Invariant.{IsHeap}
use csed.Mm.Place.{Only, put_block-BlockAt}
use csed.Mm.Coalesce.{free_block}
use csed.Mm.Free.{mm_free-calls}
use csed.Mm.Layout.{Starts, Layout, Starts-replace, IsHeap-Layout, Layout-IsHeap}
use csed.Mm.NextTaken.{mid_at, begin-first}
use csed.Mm.Coalesced.{joined, coalesce-Layout}
use csed.Mm.Untagged.{untag_first, tail_cleared, tail_end, Starts-untag}

module _ (s : State) (p : ℕ) (x b : Block) (front tail : List Block)
    (l : Layout s (front ++ x ∷ b ∷ tail)) (front_at : Blocks s.mem s.heap_listp front p) where
  abbrev bp : ℕ
  bp = p + x.size

  abbrev next : ℕ
  next = bp + b.size

  abbrev mids : Blocks s.mem p (x ∷ b ∷ tail) s.brk
  mids = mid_at s p x b front tail l front_at

  bounds : (8 ≤ p) × (s.heap_listp ≤ p) × (next ≤ s.brk) × (8 ≤ b.size) × (8 ≤ x.size)
  bounds =
      let le = Blocks-le s.mem s.heap_listp p front front_at in
      let big = mids.0.is_size.big in
      let big' = mids.1.0.is_size.big in
      (omega (arith, l.low), le, Blocks-le s.mem next s.brk tail mids.1.1, omega arith, omega arith)

  abbrev cleared : Memory
  cleared = delete_tag (next - 4) s.mem

  abbrev marked : Memory
  marked = put_block bp b.size false cleared

  abbrev marked_state : State
  marked_state = record s { mem = marked }

  cleared-other : (w : ℕ) → w ≢ next - 4 → cleared w ≡ s.mem w
  unfolding delete_tag
  cleared-other w ne = put-other (next - 4) _ w s.mem ne

  made : BlockAt marked bp (free_block b.size b.tag) × Only bp b.size cleared marked
  made =
      let bat1 =
        BlockAt-Agree s.mem cleared bp b (omega (arith, bounds))
          (λ w lo hi. cleared-other w (omega (arith, bounds))) mids.1.0 in
      let (bat2, only) =
        put_block-BlockAt bp b.size false cleared (omega (arith, bounds)) mids.1.0.is_size in
      (
        subst (λ t. BlockAt marked bp (free_block b.size t)) (tag_bit_header cleared bp b bat1)
            bat2,
        only,
      )

  marked-below : (w : ℕ) → w < bp - 4 → marked w ≡ s.mem w
  marked-below w lo =
      made.1 w (omega (arith, bounds)) (omega (arith, bounds))
      ∙ cleared-other w (omega (arith, bounds))

  marked-above : (w : ℕ) → next - 4 ≤ w → marked w ≡ cleared w
  marked-above w lo = made.1 w (omega (arith, bounds)) (omega (arith, bounds))

  front_same : Blocks marked s.heap_listp front p
  front_same =
      Blocks-Agree s.mem marked s.heap_listp p front (omega (arith, l.low))
        (λ w lo hi. marked-below w (omega (arith, bounds))) front_at

  x_same : BlockAt marked p x
  x_same =
      BlockAt-Agree s.mem marked p x (omega (arith, bounds))
        (λ w lo hi. marked-below w (omega (arith, bounds))) mids.0

module _ (s : State) (p : ℕ) (x b : Block) (front tail : List Block)
    (l : Layout s (front ++ x ∷ b ∷ tail)) (front_at : Blocks s.mem s.heap_listp front p) where
  abbrev list : List Block
  list = front ++ x ∷ free_block b.size b.tag ∷ untag_first tail

  abbrev wide : Memory
  wide = marked s p x b front tail l front_at

  abbrev start : ℕ
  start = p + x.size

  abbrev end : ℕ
  end = start + b.size

  same_above : (w : ℕ) → end - 4 ≤ w → wide w ≡ cleared s p x b front tail l front_at w
  same_above = marked-above s p x b front tail l front_at

  low : 8 ≤ end
  low = omega (arith, (bounds s p x b front tail l front_at).0)

  tail_at : Blocks s.mem end tail s.brk
  tail_at = (mids s p x b front tail l front_at).1.1

  tail_same : Blocks wide end (untag_first tail) s.brk
  tail_same =
      Blocks-Agree _ wide end s.brk (untag_first tail) (omega (arith, low))
        (λ w lo hi. same_above w lo) (tail_cleared s.mem end s.brk tail low tail_at)

  list_at : Blocks wide s.heap_listp list s.brk
  list_at =
      Blocks-append wide s.heap_listp p s.brk front (x ∷ free_block b.size b.tag ∷ untag_first tail)
        (front_same s p x b front tail l front_at)
        (x_same s p x b front tail l front_at, ((made s p x b front tail l front_at).0, tail_same))

  ends : (size_of (wide (s.brk - 4)) ≡ 0) × (alloc_bit (wide (s.brk - 4)) ≡ true)
  ends =
      let at = same_above (s.brk - 4) (omega (arith, (bounds s p x b front tail l front_at).2)) in
      rw at (tail_end s.mem end s.brk tail low tail_at l.end_size l.end_alloc)

  list_current : Starts s.heap_listp list s.current_block
  unfolding Starts
  list_current =
      Starts-replace s.mem s.heap_listp p s.current_block s.current_block front (x ∷ b ∷ tail)
        (x ∷ free_block b.size b.tag ∷ untag_first tail) front_at (λ lo. refl)
        (λ at. elim at [
          | inl here ↦ inl here
          | inr (inl here) ↦ inr (inl here)
          | inr (inr rest) ↦ inr (inr (Starts-untag end s.current_block tail rest))
        ])
        l.current

  marked-Layout : Layout (record s { mem = wide }) list
  marked-Layout =
      let (rest, begin) = l.begin in
      record {
        low = l.low;
        aligned = l.aligned;
        all_at = list_at;
        current = list_current;
        begin =
            begin-first front rest x (b ∷ tail) (free_block b.size b.tag ∷ untag_first tail) begin;
        end_size = ends.0;
        end_alloc = ends.1;
        in_bounds = l.in_bounds;
        max_small = l.max_small;
      }

  mm_free-Layout :
      Layout
        (mm_free (some (p + x.size)) s)
        (front ++ joined x (free_block b.size b.tag) (untag_first tail))
  mm_free-Layout =
      rw (mm_free-calls s start b (omega (arith, l.low)) (mids s p x b front tail l front_at).1.0) (
        coalesce-Layout (record s { mem = wide }) p x (free_block b.size b.tag) front
          (untag_first tail) marked-Layout (front_same s p x b front tail l front_at))

-- In a well-formed heap, freeing a block behind a block x makes it free, takes the tag from the
-- block behind it, if there is one, and merges it with that block if it is free, and with x if
-- that is free and has no tag; before the epilogue only with x. The other blocks stay, and the
-- heap is well formed again: the current block, if it became a part of another one, is the merged
-- block.
pub mm_free-IsHeap :
    (s : State) (pre post front tail : List Block) (x b : Block) (p : ℕ)
    → IsHeap s pre post
    → pre ++ post ≡ front ++ x ∷ b ∷ tail
    → Blocks s.mem s.heap_listp front p
    → (pre' : List Block) × (post' : List Block) × IsHeap (mm_free (some (p + x.size)) s) pre' post'
      × (pre' ++ post' ≡ front ++ joined x (free_block b.size b.tag) (untag_first tail))
mm_free-IsHeap s pre post front tail x b p h whole front_at =
    let l = subst (λ all. Layout s all) whole (IsHeap-Layout s pre post h) in
    let (pre', post', whole', h') =
      Layout-IsHeap (mm_free (some (p + x.size)) s) _
        (mm_free-Layout s p x b front tail l front_at) in
    (pre', post', h', sym whole')
