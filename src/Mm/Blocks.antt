-- ===== src/Mm/Blocks.antt =====
-- The heap of ASSN/ASSN6/mm.c as a list of blocks: what words a block has, and where a list of
-- blocks lies.
use csed.Prelude.{
  ℕ, ◌+◌, ◌-◌, ◌*◌, ◌%◌, ◌^◌, ◌≤◌, ◌<◌, ◌≡◌, refl, ◌≢◌, Bool, true, false, List, [], ◌∷◌, ◌++◌,
  arith, ==-ne, ==-refl,
}
use csed.Mm.{Memory, size_of, alloc_bit, tag_bit, put, with_tag, pack}

pub record Block : Type 0 where
  pub size : ℕ
  pub alloc : Bool
  pub tag : Bool

abbrev pub bit : Bool → ℕ
bit true = 1
bit false = 0

abbrev pub word_of : Block → ℕ
word_of b = b.size + bit b.alloc + 2 * bit b.tag

pub record IsSize (size : ℕ) : Type 0 where
  pub aligned : size % 8 ≡ 0
  pub big : 8 ≤ size
  pub small : size < 2 ^ 31

-- A block with its payload at `p`: the header, and the size and the first bit of the footer, whose
-- other bit no function reads.
pub record BlockAt (mem : Memory) (p : ℕ) (b : Block) : Type 0 where
  pub is_size : IsSize b.size
  pub header : mem (p - 4) ≡ word_of b
  pub foot_size : size_of (mem (p + b.size - 8)) ≡ b.size
  pub foot_alloc : alloc_bit (mem (p + b.size - 8)) ≡ b.alloc

-- The blocks lie one behind the other from `p` to `q`.
abbrev pub Blocks : Memory → ℕ → List Block → ℕ → Type 0
Blocks mem p [] q = p ≡ q
Blocks mem p (b ∷ bs) q = BlockAt mem p b × Blocks mem (p + b.size) bs q

module _ (n : ℕ) (aligned : n % 8 ≡ 0) where
  pub size_of-word : (a t : Bool) → size_of (n + bit a + 2 * bit t) ≡ n
  unfolding size_of
  size_of-word true true = omega arith
  size_of-word true false = omega arith
  size_of-word false true = omega arith
  size_of-word false false = omega arith

  pub alloc_bit-word : (a t : Bool) → alloc_bit (n + bit a + 2 * bit t) ≡ a
  unfolding alloc_bit
  alloc_bit-word true true = ground arith
  alloc_bit-word true false = ground arith
  alloc_bit-word false true = ground arith
  alloc_bit-word false false = ground arith

  pub tag_bit-word : (a t : Bool) → tag_bit (n + bit a + 2 * bit t) ≡ t
  unfolding tag_bit
  tag_bit-word true true = ground arith
  tag_bit-word true false = ground arith
  tag_bit-word false true = ground arith
  tag_bit-word false false = ground arith

  pub pack-word : (a : Bool) → pack n a ≡ n + bit a + 2 * bit false
  unfolding pack
  pack-word true = ground arith
  pack-word false = omega arith

  pub with_tag-word : (a : Bool) → with_tag (pack n a) ≡ n + bit a + 2 * bit true
  unfolding with_tag tag_bit pack
  with_tag-word true = ground arith
  with_tag-word false = ground arith

pub size_of_header :
    (mem : Memory) (p : ℕ) (b : Block) → BlockAt mem p b → size_of (mem (p - 4)) ≡ b.size
size_of_header mem p b h = rw h.header (size_of-word b.size h.is_size.aligned b.alloc b.tag)

pub alloc_bit_header :
    (mem : Memory) (p : ℕ) (b : Block) → BlockAt mem p b → alloc_bit (mem (p - 4)) ≡ b.alloc
alloc_bit_header mem p b h = rw h.header (alloc_bit-word b.size h.is_size.aligned b.alloc b.tag)

pub tag_bit_header :
    (mem : Memory) (p : ℕ) (b : Block) → BlockAt mem p b → tag_bit (mem (p - 4)) ≡ b.tag
tag_bit_header mem p b h = rw h.header (tag_bit-word b.size h.is_size.aligned b.alloc b.tag)

-- Two memories with the same words from `lo` up to `hi`.
abbrev pub Agree : ℕ → ℕ → Memory → Memory → Type 0
Agree lo hi mem mem' = (a : ℕ) → lo ≤ a → a < hi → mem' a ≡ mem a

pub BlockAt-Agree :
    (mem mem' : Memory) (p : ℕ) (b : Block)
    → 4 ≤ p
    → Agree (p - 4) (p + b.size - 4) mem mem'
    → BlockAt mem p b
    → BlockAt mem' p b
BlockAt-Agree mem mem' p b low same h =
    let big = h.is_size.big in
    record {
      is_size = h.is_size;
      header = rw (same (p - 4) (omega arith) (omega arith)) h.header;
      foot_size = rw (same (p + b.size - 8) (omega arith) (omega arith)) h.foot_size;
      foot_alloc = rw (same (p + b.size - 8) (omega arith) (omega arith)) h.foot_alloc;
    }

pub Blocks-le : (mem : Memory) (p q : ℕ) (bs : List Block) → Blocks mem p bs q → p ≤ q
Blocks-le mem p q [] h = omega arith
Blocks-le mem p q (b ∷ bs) h = omega (arith, Blocks-le mem (p + b.size) q bs h.1)

pub Blocks-Agree :
    (mem mem' : Memory) (p q : ℕ) (bs : List Block)
    → 4 ≤ p
    → Agree (p - 4) (q - 4) mem mem'
    → Blocks mem p bs q
    → Blocks mem' p bs q
Blocks-Agree mem mem' p q [] low same h = h
Blocks-Agree mem mem' p q (b ∷ bs) low same h =
    let le = Blocks-le mem (p + b.size) q bs h.1 in
    let big = h.0.is_size.big in
    (
      BlockAt-Agree mem mem' p b low (λ a lo hi. same a lo (omega arith)) h.0,
      Blocks-Agree mem mem' (p + b.size) q bs (omega arith) (λ a lo hi. same a (omega arith) hi)
          h.1,
    )

pub Blocks-append :
    (mem : Memory) (p q r : ℕ) (xs ys : List Block)
    → Blocks mem p xs q
    → Blocks mem q ys r
    → Blocks mem p (xs ++ ys) r
Blocks-append mem p q r [] ys h k = rw h k
Blocks-append mem p q r (x ∷ xs) ys h k = (h.0, Blocks-append mem (p + x.size) q r xs ys h.1 k)

pub put_self : (a v : ℕ) (mem : Memory) → put a v mem a ≡ v
unfolding put
put_self a v mem = rw (==-refl a) refl

pub put-other : (a v b : ℕ) (mem : Memory) → b ≢ a → put a v mem b ≡ mem b
unfolding put
put-other a v b mem ne = rw (==-ne b a ne) refl
