-- ===== src/Mm/Resized.antt =====
-- `mm_realloc` of ASSN/ASSN6/mm.c where the block is large enough, and the tag that it leaves behind
-- the block.
use csed.Prelude.{
  ℕ, ◌+◌, ◌-◌, ◌*◌, ◌%◌, ◌^◌, ◌≤◌, ◌<◌, ◌≡◌, ◌≢◌, refl, ap, ◌∙◌, Bool, true, false, ◌||◌, some,
  arith, ltb, inl, inr, Bool-cases,
}
use csed.Mm.{Memory, State, sub32, tag_bit, put, with_tag, put_tag, next_blkp, adjust}
use csed.Mm.Blocks.{Block, bit, BlockAt, BlockAt-Agree, size_of_header, put_self, put-other}
use csed.Mm.Realloc.{Reply, reply, negative, finish, mm_realloc}

-- The size of a block for a request of `mm_realloc`.
abbrev pub body_size : ℕ → ℕ
body_size size = (adjust size + 128) % 2 ^ 32

-- The block with a tag, if less than 256 bytes are to spare in front of it.
abbrev pub with_spare : ℕ → Block → Block
with_spare spare n = record n { tag = ltb spare 256 || n.tag }

with_tag-any :
    (n : ℕ) → n % 8 ≡ 0 → (a t : Bool) → with_tag (n + bit a + 2 * bit t) ≡ n + bit a + 2 * bit true
unfolding with_tag tag_bit
with_tag-any n aligned true true = ground arith
with_tag-any n aligned true false = ground arith
with_tag-any n aligned false true = ground arith
with_tag-any n aligned false false = ground arith

-- What `mm_realloc` leaves: the same pointer, the block `b` there, the block `n` behind it, and
-- each other word as in `mem`.
pub record Resized (ptr : ℕ) (b n : Block) (mem : Memory) (s : State) (result : Reply)
    : Type 0 where
  pub after : Memory
  pub returned : result ≡ reply (some ptr) (record s { mem = after })
  pub block : BlockAt after ptr b
  pub behind : BlockAt after (ptr + b.size) n
  pub kept : (a : ℕ) → a ≢ ptr + b.size - 4 → after a ≡ mem a

module _ (ptr : ℕ) (b n : Block) (s : State) (low : 8 ≤ ptr) (bat : BlockAt s.mem ptr b)
    (nat : BlockAt s.mem (ptr + b.size) n) where
  abbrev tagged_mem : Memory
  tagged_mem = put (ptr + b.size - 4) (with_tag (s.mem (ptr + b.size - 4))) s.mem

  tagged-block : BlockAt tagged_mem ptr b
  tagged-block =
      BlockAt-Agree s.mem tagged_mem ptr b (omega arith)
        (λ a lo hi. put-other (ptr + b.size - 4) _ a s.mem (omega arith)) bat

  tagged-behind : BlockAt tagged_mem (ptr + b.size) (record n { tag = true })
  tagged-behind =
      let big = nat.is_size.big in
      let keep : tagged_mem (ptr + b.size + n.size - 8) ≡ s.mem (ptr + b.size + n.size - 8) =
        put-other (ptr + b.size - 4) _ _ s.mem (omega arith) in
      record {
        is_size = nat.is_size;
        header =
            put_self (ptr + b.size - 4) _ s.mem
            ∙ ap with_tag nat.header
            ∙ with_tag-any n.size nat.is_size.aligned n.alloc n.tag;
        foot_size = rw keep nat.foot_size;
        foot_alloc = rw keep nat.foot_alloc;
      }

  finish-tag :
      (spare : ℕ)
      → ltb spare 256 ≡ true
      → finish ptr spare s ≡ reply (some ptr) (record s { mem = tagged_mem })
  finish-tag spare e =
      unfold finish put_tag next_blkp in rw (e, size_of_header s.mem ptr b bat) refl

  finish-none : (spare : ℕ) → ltb spare 256 ≡ false → finish ptr spare s ≡ reply (some ptr) s
  finish-none spare e = unfold finish in rw e refl

  pub finish-Resized : (spare : ℕ) → Resized ptr b (with_spare spare n) s.mem s (finish ptr spare s)
  finish-Resized spare = elim (Bool-cases (ltb spare 256)) [
    | inl e ↦ record {
      after = tagged_mem;
      returned = finish-tag spare e;
      block = tagged-block;
      behind = rw e tagged-behind;
      kept = λ a ne. put-other (ptr + b.size - 4) _ a s.mem ne;
    }
    | inr e ↦ record {
      after = s.mem;
      returned = finish-none spare e;
      block = bat;
      behind = rw e nat;
      kept = λ a ne. refl;
    }
  ]

  -- The block is large enough.
  in_place-eq :
      (size : ℕ)
      → 0 < size
      → body_size size ≤ b.size
      → mm_realloc ptr size s ≡ finish ptr (b.size - body_size size) s
  in_place-eq size pos fits =
      unfold mm_realloc in
      rw (size_of_header s.mem ptr b bat, remaining-eq) (unfold negative in ground (arith, small))
    where
      small : b.size < 2 ^ 31
      small = bat.is_size.small

      remaining-eq : sub32 b.size (body_size size) ≡ b.size - body_size size
      remaining-eq = unfold sub32 in omega (arith, small)

  pub mm_realloc-in_place :
      (size : ℕ)
      → 0 < size
      → body_size size ≤ b.size
      → Resized ptr b (with_spare (b.size - body_size size) n) s.mem s (mm_realloc ptr size s)
  mm_realloc-in_place size pos fits =
      rw (in_place-eq size pos fits) (finish-Resized (b.size - body_size size))
