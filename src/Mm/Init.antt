-- ===== src/Mm/Init.antt =====
-- `mm_init` of ASSN/ASSN6/mm.c sets up a well-formed heap.
use mathlib.Core.Path.{subst}
use csed.Prelude.{
  ℕ, ◌+◌, ◌-◌, ◌%◌, ◌^◌, ◌≤◌, ◌<◌, ◌≡◌, refl, ◌∙◌, sym, ap, true, false, some, [], ◌∷◌, arith, ltb,
}
use csed.Mm.{Memory, State, size_of, alloc_bit, put, mem_sbrk, pack}
use csed.Mm.Heap.{mm_init}
use csed.Mm.Blocks.{BlockAt, put_self, put-other}
use csed.Mm.Invariant.{IsHeap, prologue}

module _ (p : ℕ) (mem : Memory) where
  abbrev initial : Memory
  initial =
      put (p + 12) (pack 0 true)
        (put (p + 8) (pack 8 true) (put (p + 4) (pack 8 true) (put p 0 mem)))

  initial-header : initial (p + 4) ≡ pack 8 true
  initial-header =
      put-other (p + 12) _ (p + 4) _ (omega arith)
      ∙ put-other (p + 8) _ (p + 4) _ (omega arith)
      ∙ put_self (p + 4) _ _

  initial-footer : initial (p + 8) ≡ pack 8 true
  initial-footer = put-other (p + 12) _ (p + 8) _ (omega arith) ∙ put_self (p + 8) _ _

  initial-epilogue : initial (p + 12) ≡ pack 0 true
  initial-epilogue = put_self (p + 12) _ _

  initial-prologue : BlockAt initial (p + 8) prologue
  unfolding pack size_of alloc_bit
  initial-prologue = record {
    is_size = record { aligned = refl; big = omega arith; small = omega arith };
    header = ap initial (omega arith) ∙ initial-header;
    foot_size = ap (λ x. size_of (initial x)) (omega arith) ∙ ap size_of initial-footer;
    foot_alloc = ap (λ x. alloc_bit (initial x)) (omega arith) ∙ ap alloc_bit initial-footer;
  }

module _ (p : ℕ) (mem : Memory) where
  end_at : initial p mem (p + 16 - 4) ≡ pack 0 true
  end_at = ap (initial p mem) (omega arith) ∙ initial-epilogue p mem

  end_at-size : size_of (initial p mem (p + 16 - 4)) ≡ 0
  unfolding size_of pack
  end_at-size = ap size_of end_at

  end_at-alloc : alloc_bit (initial p mem (p + 16 - 4)) ≡ true
  unfolding alloc_bit pack
  end_at-alloc = ap alloc_bit end_at

abbrev after_init : State → State
after_init s = record s {
  mem = initial s.brk s.mem;
  brk = s.brk + 16;
  heap_listp = s.brk + 8;
  current_block = s.brk + 8;
}

mem_sbrk-room :
    (s : State)
    → s.brk + 16 ≤ s.max_addr
    → mem_sbrk 16 s ≡ some (s.brk, record s { brk = s.brk + 16 })
unfolding mem_sbrk
mem_sbrk-room s room = let fits : ltb s.max_addr (s.brk + 16) ≡ false = ground arith in rw fits refl

mm_init-eq : (s : State) → s.brk + 16 ≤ s.max_addr → mm_init s ≡ (true, after_init s)
unfolding mm_init
mm_init-eq s room = rw (mem_sbrk-room s room, mm_init) refl

-- On an aligned break with 16 bytes left below 2 GB, `mm_init` succeeds and leaves a well-formed
-- heap that holds the prologue alone.
pub mm_init-IsHeap :
    (s : State)
    → s.brk % 8 ≡ 0
    → s.brk + 16 ≤ s.max_addr
    → s.max_addr < 2 ^ 31
    → ((mm_init s).0 ≡ true) × IsHeap (mm_init s).1 [] (prologue ∷ [])
mm_init-IsHeap s aligned room small =
    subst (λ r. (r.0 ≡ true) × IsHeap r.1 [] (prologue ∷ [])) (sym (mm_init-eq s room))
      (
        refl,
        record {
          low = omega arith;
          aligned = omega arith;
          pre_at = refl;
          post_at = (initial-prologue s.brk s.mem, omega arith);
          begin = ([], refl);
          end_size = end_at-size s.brk s.mem;
          end_alloc = end_at-alloc s.brk s.mem;
          in_bounds = room;
          max_small = small;
        },
      )
