-- ===== src/Mm/Kept.antt =====
-- `mm_realloc` of ASSN/ASSN6/mm.c keeps the data of a block that has room to grow.
use csed.Prelude.{ℕ, ◌+◌, ◌-◌, ◌^◌, ◌≤◌, ◌<◌, ◌≡◌, refl, true, false, some, arith}
use csed.Mm.{Memory, State, align, adjust}
use csed.Mm.Blocks.{Block, BlockAt}
use csed.Mm.Realloc.{Reply, reply, mm_realloc}
use csed.Mm.Resized.{body_size, mm_realloc-in_place}
use csed.Mm.Grown.{mm_realloc-grown}

-- Where `mm_realloc` has room without moving the data: in the block `b`, or also in a free block
-- behind it that is larger than what is missing, with another block `n` behind that.
pub data HasRoom (ptr size : ℕ) (b : Block) (mem : Memory) : Type 0 where
  in_block :
      (n : Block) → BlockAt mem (ptr + b.size) n → body_size size ≤ b.size → HasRoom ptr size b mem
  in_next :
      (m n : Block)
      → BlockAt mem (ptr + b.size) m
      → BlockAt mem (ptr + b.size + m.size) n
      → m.alloc ≡ false
      → b.size + m.size < 2 ^ 31
      → b.size < body_size size
      → align (body_size size - b.size) < m.size
      → body_size size ≤ b.size + m.size
      → HasRoom ptr size b mem

-- The pointer stays, its block has the size that is asked for, and the payload keeps its words.
pub record KeepsData (ptr size : ℕ) (b : Block) (s : State) (result : Reply) : Type 0 where
  after : Memory
  returned : result ≡ reply (some ptr) (record s { mem = after })
  new_block : Block
  block : BlockAt after ptr new_block
  allocated : new_block.alloc ≡ true
  large : size + 136 ≤ new_block.size
  payload : (a : ℕ) → ptr ≤ a → a + 8 ≤ ptr + b.size → after a ≡ s.mem a

body_size-le : (size : ℕ) → size + 143 < 2 ^ 32 → size + 136 ≤ body_size size
unfolding adjust
body_size-le size small = ground arith

-- For a positive size below 2 ^ 32 - 143, an allocated block, and room for the adjusted size in
-- the block itself, with a block behind it that is not the epilogue, or in it and a free block
-- behind it, which is larger than what is missing, together below 2 GB, with such a block behind
-- that one: mm_realloc returns the same pointer, to an allocated block at least 136 bytes larger
-- than the size, and every word of the old payload keeps its value.
pub mm_realloc-KeepsData :
    (ptr size : ℕ) (b : Block) (s : State)
    → 8 ≤ ptr
    → BlockAt s.mem ptr b
    → b.alloc ≡ true
    → 0 < size
    → size + 143 < 2 ^ 32
    → HasRoom ptr size b s.mem
    → KeepsData ptr size b s (mm_realloc ptr size s)
mm_realloc-KeepsData ptr size b s low bat held pos small (in_block n nat fits) =
    let r = mm_realloc-in_place ptr b n s low bat nat size pos fits in
    record {
      after = r.after;
      returned = r.returned;
      new_block = b;
      block = r.block;
      allocated = held;
      large = omega (arith, fits, body_size-le size small);
      payload = λ a lo hi. r.kept a (omega arith);
    }
mm_realloc-KeepsData ptr size b s low bat held pos small
      (in_next m n mat nat free both short enough room) =
    let (after, returned, block, behind, kept) =
      mm_realloc-grown ptr b m n s low bat mat nat free both size pos short enough room in
    let big = mat.is_size.big in
    record {
      after = after;
      returned = returned;
      new_block = record { size = b.size + m.size; alloc = true; tag = false };
      block = block;
      allocated = refl;
      large = omega (arith, room, body_size-le size small);
      payload = λ a lo hi. kept a (omega arith) (omega arith) (omega arith);
    }
