-- ===== src/Mm/Settled.antt =====
-- A merge of blocks in ASSN/ASSN6/mm.c, with the last test of `coalesce`.
use mathlib.Core.Path.{subst}
use csed.Prelude.{
  ℕ, ◌+◌, ◌-◌, ◌≤◌, ◌<◌, ◌≡◌, inl, inr, refl, sym, ◌∙◌, ap, List, ◌∷◌, ◌++◌, arith, if◌then◌else◌,
  ltb, ◌&&◌,
}
use csed.Mm.{Memory, State, size_of, alloc_bit, next_blkp}
use csed.Mm.Heap.{settle}
use csed.Mm.Blocks.{Block, BlockAt, Blocks, Blocks-le, Blocks-append, Blocks-Agree, size_of_header}
use csed.Mm.Invariant.{prologue}
use csed.Mm.Place.{Only}
use csed.Mm.Layout.{Starts, Layout, Blocks-rest, Starts-split, Starts-replace, Starts-le}

-- The blocks `joined` from `r` to `e` become the block `whole`.
module _ (s : State) (before joined after : List Block) (r e : ℕ)
    (l : Layout s (before ++ (joined ++ after))) (before_at : Blocks s.mem s.heap_listp before r)
    (joined_at : Blocks s.mem r joined e) (whole : Block) (m : Memory) (at : BlockAt m r whole)
    (only : Only r whole.size s.mem m) (ends : r + whole.size ≡ e) where
  after_at : Blocks s.mem e after s.brk
  after_at =
      Blocks-rest s.mem r e s.brk joined after joined_at
        (Blocks-rest s.mem s.heap_listp r s.brk before (joined ++ after) before_at l.all_at)

  bounds : (s.heap_listp ≤ r) × (r + 8 ≤ e) × (e ≤ s.brk)
  bounds =
      let big = at.is_size.big in
      (
        Blocks-le s.mem s.heap_listp r before before_at,
        omega arith,
        Blocks-le s.mem e s.brk after after_at,
      )

  abbrev current' : ℕ
  current' = if ltb r s.current_block && ltb s.current_block e then r else s.current_block

  abbrev settled : State
  settled = record s { mem = m; current_block = current' }

  pub settle-eq : settle r (record s { mem = m }) ≡ (r, settled)
  unfolding settle next_blkp
  settle-eq = rw (size_of_header m r whole at) (rw ends refl)

  settled_at : Blocks m s.heap_listp (before ++ whole ∷ after) s.brk
  settled_at =
      let low = l.low in
      Blocks-append m s.heap_listp r s.brk before (whole ∷ after)
        (Blocks-Agree s.mem m s.heap_listp r before (omega arith)
          (λ w lo hi. only w (omega arith) (omega (arith, bounds))) before_at)
        (
          at,
          subst (λ q. Blocks m q after s.brk) (sym ends)
              (Blocks-Agree s.mem m e s.brk after (omega (arith, bounds))
                (λ w lo hi. only w (omega (arith, bounds)) (omega (arith, bounds))) after_at),
        )

  inside : (r ≤ s.current_block) → s.current_block < e → current' ≡ r
  inside lo hi = ground arith

  outside : e ≤ s.current_block → current' ≡ s.current_block
  outside hi = ground arith

  below : s.current_block < r → current' ≡ s.current_block
  below lo = ground arith

  settled_current : Starts s.heap_listp (before ++ whole ∷ after) current'
  unfolding Starts
  settled_current =
      Starts-replace s.mem s.heap_listp r s.current_block current' before (joined ++ after)
        (whole ∷ after) before_at below
        (λ start. elim (Starts-split s.mem r e s.current_block joined after joined_at start) [
          | inl (lo, hi) ↦ inl (inside lo hi)
          | inr rest ↦
              let le = Starts-le s.mem e s.brk s.current_block after after_at rest in
              inr (
                subst (λ q. Starts q after current') (sym ends)
                  (subst (λ c. Starts e after c) (sym (outside le)) rest))
        ])
        l.current

  end_same : m (s.brk - 4) ≡ s.mem (s.brk - 4)
  end_same = only (s.brk - 4) (omega (arith, bounds)) (omega (arith, bounds))

  pub settle-Layout :
      (rest : List Block)
      → before ++ whole ∷ after ≡ prologue ∷ rest
      → Layout (settle r (record s { mem = m })).1 (before ++ whole ∷ after)
  settle-Layout rest begin =
      subst (λ (x : ℕ × State). Layout x.1 (before ++ whole ∷ after)) (sym settle-eq)
        (record {
          low = l.low;
          aligned = l.aligned;
          all_at = settled_at;
          current = settled_current;
          begin = (rest, begin);
          end_size = ap size_of end_same ∙ l.end_size;
          end_alloc = ap alloc_bit end_same ∙ l.end_alloc;
          in_bounds = l.in_bounds;
          max_small = l.max_small;
        })
