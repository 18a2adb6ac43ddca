-- ===== src/Mm/Place.antt =====
-- `place` of ASSN/ASSN6/mm.c: what becomes of the block.
use csed.Prelude.{
  ℕ, ◌+◌, ◌-◌, ◌*◌, ◌%◌, ◌^◌, ◌≤◌, ◌<◌, ◌≡◌, refl, ◌≢◌, ◌⊎◌, ◌∙◌, ap, Bool, true, false, List, [],
  ◌∷◌, arith, leb, if◌then◌else◌, inl, inr, Bool-cases,
}
use csed.Mm.{
  Memory, size_of, alloc_bit, tag_bit, put, put_with_tag, with_tag, pack, ftrp, next_blkp, sub32,
}
use csed.Mm.Heap.{put_block, place}
use csed.Mm.Blocks.{
  Block, bit, word_of, IsSize, BlockAt, Blocks, size_of-word, alloc_bit-word, pack-word,
  with_tag-word, size_of_header, tag_bit_header, BlockAt-Agree, put_self, put-other,
}

-- What `PUT_WITH_TAG` writes over a word.
abbrev pub tagged : ℕ → ℕ → ℕ
tagged v old = if tag_bit old then with_tag v else v

pub tagged-word :
    (n : ℕ) (a : Bool) (old : ℕ)
    → n % 8 ≡ 0
    → tagged (pack n a) old ≡ n + bit a + 2 * bit (tag_bit old)
tagged-word n a old aligned = elim (Bool-cases (tag_bit old)) [
  | inl on ↦ rw on (with_tag-word n aligned a)
  | inr off ↦ rw off (pack-word n aligned a)
]

-- Only the words at the header and the footer of a block of the size `n` may differ.
abbrev pub Only : ℕ → ℕ → Memory → Memory → Type 0
Only p n mem mem' = (x : ℕ) → x ≢ p - 4 → x ≢ p + n - 8 → mem' x ≡ mem x

-- A header and a footer for the block `b` are written.
abbrev pub with_words : ℕ → ℕ → ℕ → ℕ → Memory → Memory
with_words p n header footer mem = put (p + n - 8) footer (put (p - 4) header mem)

pub with_words-BlockAt :
    (p : ℕ) (b : Block) (footer : ℕ) (mem : Memory)
    → 4 ≤ p
    → IsSize b.size
    → size_of footer ≡ b.size
    → alloc_bit footer ≡ b.alloc
    → BlockAt (with_words p b.size (word_of b) footer mem) p b
with_words-BlockAt p b footer mem low ok size alloc =
    let big = ok.big in
    let apart : p - 4 ≢ p + b.size - 8 = omega arith in
    let at = put_self (p + b.size - 8) footer (put (p - 4) (word_of b) mem) in
    record {
      is_size = ok;
      header = put-other (p + b.size - 8) footer (p - 4) _ apart ∙ put_self (p - 4) (word_of b) mem;
      foot_size = ap size_of at ∙ size;
      foot_alloc = ap alloc_bit at ∙ alloc;
    }

pub with_words-Only :
    (p n header footer : ℕ) (mem : Memory) → Only p n mem (with_words p n header footer mem)
with_words-Only p n header footer mem x h f =
    put-other (p + n - 8) footer x _ f ∙ put-other (p - 4) header x mem h

module _ (p n : ℕ) (a : Bool) (mem : Memory) (low : 4 ≤ p) (ok : IsSize n) where
  abbrev pub written : Block
  written = record { size = n; alloc = a; tag = tag_bit (mem (p - 4)) }

  pub put_block-eq :
      (footer : ℕ) × (put_block p n a mem ≡ with_words p n (word_of written) footer mem)
      × (size_of footer ≡ n)
      × (alloc_bit footer ≡ a)
  unfolding put_block put_with_tag ftrp
  put_block-eq =
      let head = tagged-word n a (mem (p - 4)) ok.aligned in
      let mem1 : Memory = put (p - 4) (word_of written) mem in
      let size : size_of (mem1 (p - 4)) ≡ n =
        rw (put_self (p - 4) (word_of written) mem) (size_of-word n ok.aligned a written.tag) in
      let old = mem1 (p + n - 8) in
      let foot = tagged-word n a old ok.aligned in
      (
        tagged (pack n a) old,
        rw (head, size) refl,
        rw foot (size_of-word n ok.aligned a (tag_bit old)),
        rw foot (alloc_bit-word n ok.aligned a (tag_bit old)),
      )

  -- The pair of writes leaves a block that keeps the tag of the header.
  pub put_block-BlockAt :
      BlockAt (put_block p n a mem) p written × Only p n mem (put_block p n a mem)
  put_block-BlockAt =
      let (footer, e, size, alloc) = put_block-eq in
      rw e (
        with_words-BlockAt p written footer mem low ok size alloc,
        with_words-Only p n (word_of written) footer mem,
      )

-- What becomes of a block in which `asize` bytes are allocated.
unfoldable pub split : ℕ → Block → List Block
split asize b =
    if leb 16 (b.size - asize)
    then record { size = asize; alloc = true; tag = b.tag }
      ∷ record { size = b.size - asize; alloc = false; tag = false }
      ∷ []
    else record { size = b.size; alloc = true; tag = b.tag } ∷ []

-- Only words of the memory from `lo` up to `hi` may differ.
abbrev pub Within : ℕ → ℕ → Memory → Memory → Type 0
Within lo hi mem mem' = (x : ℕ) → ◌⊎◌ (x < lo) (hi ≤ x) → mem' x ≡ mem x

module _ (p asize : ℕ) (b : Block) (mem : Memory) (low : 8 ≤ p) (at : BlockAt mem p b)
    (ok : IsSize asize) (fit : asize ≤ b.size) where
  abbrev rest : Block
  rest = record { size = b.size - asize; alloc = false; tag = false }

  abbrev first : Block
  first = record { size = asize; alloc = true; tag = b.tag }

  abbrev mem1 : Memory
  mem1 = put_block p asize true mem

  first-BlockAt : BlockAt mem1 p first × Only p asize mem mem1
  first-BlockAt =
      rw (← tag_bit_header mem p b at) (put_block-BlockAt p asize true mem (omega arith) ok)

  module _ (room : 16 ≤ b.size - asize) where
    rest-IsSize : IsSize rest.size
    rest-IsSize =
        let aligned = at.is_size.aligned in
        let small = at.is_size.small in
        let aligned' = ok.aligned in
        record { aligned = omega arith; big = omega arith; small = omega arith }

    place-split :
        place p asize mem
        ≡ with_words (p + asize) rest.size (word_of rest) (pack rest.size false) mem1
    unfolding place sub32 next_blkp ftrp
    place-split =
        let big = ok.big in
        let small = at.is_size.small in
        let small' = ok.small in
        let size = size_of_header mem p b at in
        let sub : (b.size + 2 ^ 32 - asize) % 2 ^ 32 ≡ rest.size = omega arith in
        let test : leb 16 rest.size ≡ true = ground arith in
        let next = size_of_header mem1 p first first-BlockAt.0 in
        let word = pack-word rest.size rest-IsSize.aligned false in
        let mem2 : Memory = put (p + asize - 4) (word_of rest) mem1 in
        let keep : mem2 (p - 4) ≡ mem1 (p - 4) =
          put-other (p + asize - 4) _ (p - 4) mem1 (omega arith) in
        let size2 : size_of (mem2 (p + asize - 4)) ≡ rest.size =
          rw (put_self (p + asize - 4) (word_of rest) mem1)
            (size_of-word rest.size rest-IsSize.aligned false false) in
        rw (size, sub, test) (rw (next, word) (rw (keep, next, size2) refl))

    abbrev mem2 : Memory
    mem2 = with_words (p + asize) rest.size (word_of rest) (pack rest.size false) mem1

    split-BlockAt : BlockAt mem2 p first × BlockAt mem2 (p + asize) rest
    split-BlockAt =
        let big = ok.big in
        let footer = pack-word rest.size rest-IsSize.aligned false in
        let only =
          with_words-Only (p + asize) rest.size (word_of rest) (pack rest.size false) mem1 in
        (
          BlockAt-Agree mem1 mem2 p first (omega arith)
              (λ x lo hi. only x (omega arith) (omega arith)) first-BlockAt.0,
          with_words-BlockAt (p + asize) rest (pack rest.size false) mem1 (omega arith) rest-IsSize
              (rw footer (size_of-word rest.size rest-IsSize.aligned false false))
              (rw footer (alloc_bit-word rest.size rest-IsSize.aligned false false)),
        )

    split-Within : Within (p - 4) (p + b.size - 4) mem mem2
    split-Within x out =
        let big = ok.big in
        let only =
          with_words-Only (p + asize) rest.size (word_of rest) (pack rest.size false) mem1 in
        only x (ground arith) (ground arith) ∙ first-BlockAt.1 x (ground arith) (ground arith)

  abbrev all : Block
  all = record { size = b.size; alloc = true; tag = b.tag }

  all-BlockAt :
      BlockAt (put_block p b.size true mem) p all × Only p b.size mem (put_block p b.size true mem)
  all-BlockAt =
      rw (← tag_bit_header mem p b at)
        (put_block-BlockAt p b.size true mem (omega arith) at.is_size)

  place-all : b.size - asize < 16 → place p asize mem ≡ put_block p b.size true mem
  unfolding place sub32
  place-all short =
      let big = ok.big in
      let small = at.is_size.small in
      let small' = ok.small in
      let sub : (b.size + 2 ^ 32 - asize) % 2 ^ 32 ≡ b.size - asize = omega arith in
      let test : leb 16 (b.size - asize) ≡ false = ground arith in
      rw (size_of_header mem p b at, sub, test) refl

  -- Allocating in a block splits it in two when 16 bytes or more are left, or else marks all of it
  -- as allocated. The first block keeps the tag, and no word outside of the block changes.
  pub place-Blocks :
      Blocks (place p asize mem) p (split asize b) (p + b.size)
      × Within (p - 4) (p + b.size - 4) mem (place p asize mem)
  unfolding split
  place-Blocks = elim (Bool-cases (leb 16 (b.size - asize))) [
    | inl splits ↦
        let room : 16 ≤ b.size - asize = ground arith in
        rw (splits, place-split room)
          (((split-BlockAt room).0, ((split-BlockAt room).1, omega arith)), split-Within room)
    | inr whole ↦
        let short : b.size - asize < 16 = ground arith in
        let big = at.is_size.big in
        rw (whole, place-all short)
          ((all-BlockAt.0, refl), λ x out. all-BlockAt.1 x (ground arith) (ground arith))
  ]
