-- ===== src/Mm/Free.antt =====
-- `mm_free` and `mm_init` of ASSN/ASSN6/mm.c.
use mathlib.Core.Path.{subst}
use csed.Prelude.{
  ℕ, ◌+◌, ◌-◌, ◌*◌, ◌%◌, ◌^◌, ◌≤◌, ◌<◌, ◌≡◌, refl, ◌≢◌, ◌∙◌, ap, Bool, true, false, some, arith,
  ◌==◌, ==-ne,
}
use csed.Mm.{Memory, State, size_of, alloc_bit, tag_bit, without_tag, delete_tag, next_blkp}
use csed.Mm.Heap.{put_block, coalesce, mm_free, start_heap}
use csed.Mm.Blocks.{
  Block, bit, BlockAt, Blocks, size_of_header, tag_bit_header, BlockAt-Agree, put_self, put-other,
}
use csed.Mm.Place.{Within, put_block-BlockAt}
use csed.Mm.Coalesce.{free_block}
use csed.Mm.Merged.{merged, coalesce-merged}

without_tag-word :
    (n : ℕ)
    → n % 8 ≡ 0
    → (a t : Bool) → without_tag (n + bit a + 2 * bit t) ≡ n + bit a + 2 * bit false
unfolding without_tag tag_bit
without_tag-word n aligned true true = ground arith
without_tag-word n aligned true false = ground arith
without_tag-word n aligned false true = ground arith
without_tag-word n aligned false false = ground arith

abbrev pub untagged : Block → Block
untagged y = record { size = y.size; alloc = y.alloc; tag = false }

pub delete_tag-BlockAt :
    (mem : Memory) (p : ℕ) (y : Block)
    → 8 ≤ p
    → BlockAt mem p y
    → BlockAt (delete_tag (p - 4) mem) p (untagged y)
      × ((w : ℕ) → w ≢ p - 4 → delete_tag (p - 4) mem w ≡ mem w)
unfolding delete_tag
delete_tag-BlockAt mem p y low at =
    let big = at.is_size.big in
    let new = without_tag (mem (p - 4)) in
    let foot = put-other (p - 4) new (p + y.size - 8) mem (omega arith) in
    (
      record {
        is_size = at.is_size;
        header =
            put_self (p - 4) new mem
            ∙ ap without_tag at.header
            ∙ without_tag-word y.size at.is_size.aligned y.alloc y.tag;
        foot_size = ap size_of foot ∙ at.foot_size;
        foot_alloc = ap alloc_bit foot ∙ at.foot_alloc;
      },
      λ w ne. put-other (p - 4) new w mem ne,
    )

-- The state in which `mm_free` calls `coalesce`.
module _ (s : State) (bp : ℕ) (b : Block) (ready : s.heap_listp ≢ 0)
    (bat : BlockAt s.mem bp b) where
  start_heap-ready : start_heap s ≡ s
  start_heap-ready =
      let there : (s.heap_listp == 0) ≡ false = ==-ne s.heap_listp 0 ready in rw there refl

  abbrev freed : State → ℕ → State
  freed s' size =
      let mem = delete_tag (bp + size_of (s'.mem (bp - 4)) - 4) s'.mem in
      (coalesce bp (record s' { mem = put_block bp size false mem })).1

  abbrev with_next : ℕ → State
  with_next size =
      (coalesce bp
        (record s { mem = put_block bp b.size false (delete_tag (bp + size - 4) s.mem) })).1

  pub mm_free-calls :
      mm_free (some bp) s
      ≡ (coalesce bp
          (record s { mem = put_block bp b.size false (delete_tag (bp + b.size - 4) s.mem) })).1
  unfolding mm_free next_blkp
  mm_free-calls =
      ap (λ s'. freed s' (size_of (s.mem (bp - 4)))) start_heap-ready
      ∙ ap (λ size. freed s size) (size_of_header s.mem bp b bat)
      ∙ ap (λ size. with_next size) (size_of_header s.mem bp b bat)

module _ (s : State) (p : ℕ) (x b y : Block) (low : 8 ≤ p) (ready : s.heap_listp ≢ 0)
    (xat : BlockAt s.mem p x) (bat : BlockAt s.mem (p + x.size) b)
    (yat : BlockAt s.mem (p + x.size + b.size) y)
    (small : p + x.size + b.size + y.size < 2 ^ 31) where
  abbrev bp : ℕ
  bp = p + x.size

  abbrev next : ℕ
  next = bp + b.size

  abbrev cleared : Memory
  cleared = delete_tag (next - 4) s.mem

  abbrev marked : Memory
  marked = put_block bp b.size false cleared

  marked-Blocks :
      BlockAt marked p x
      × BlockAt marked bp (free_block b.size b.tag)
      × BlockAt marked next (untagged y)
      × Within (p - 4) (next + y.size - 4) s.mem marked
  marked-Blocks =
      let bx = xat.is_size.big in
      let bb = bat.is_size.big in
      let by = yat.is_size.big in
      let (yat', only) = delete_tag-BlockAt s.mem next y (omega arith) yat in
      let xat1 =
        BlockAt-Agree s.mem cleared p x (omega arith) (λ w lo hi. only w (omega arith)) xat in
      let bat1 =
        BlockAt-Agree s.mem cleared bp b (omega arith) (λ w lo hi. only w (omega arith)) bat in
      let (bat2, only') = put_block-BlockAt bp b.size false cleared (omega arith) bat.is_size in
      (
        BlockAt-Agree cleared marked p x (omega arith)
            (λ w lo hi. only' w (omega arith) (omega arith)) xat1,
        subst (λ t. BlockAt marked bp (free_block b.size t)) (tag_bit_header cleared bp b bat1)
            bat2,
        BlockAt-Agree cleared marked next (untagged y) (omega arith)
            (λ w lo hi. only' w (omega arith) (omega arith)) yat',
        λ w out. only' w (ground arith) (ground arith) ∙ only w (ground arith),
      )

  -- In a heap below 2 GB, freeing a block between two others makes it free, takes the tag from the
  -- block behind it and merges it with the ones of the two that are free, but not with a block
  -- before it that has a tag. No word outside of the three blocks changes.
  pub mm_free-merged :
      Blocks
        (mm_free (some bp) s).mem
        p
        (merged x (free_block b.size b.tag) (untagged y))
        (next + y.size)
      × Within (p - 4) (next + y.size - 4) s.mem (mm_free (some bp) s).mem
  mm_free-merged =
      let (xat', bat', yat', within) = marked-Blocks in
      let (start, blocks, within') =
        coalesce-merged (record s { mem = marked }) p x (free_block b.size b.tag) (untagged y) low
          xat' bat' yat' small in
      rw (mm_free-calls s bp b ready bat) (blocks, λ w out. within' w out ∙ within w out)
