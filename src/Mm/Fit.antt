-- ===== src/Mm/Fit.antt =====
-- `find_fit` of ASSN/ASSN6/mm.c: which block it finds.
use mathlib.Core.Path.{subst}
use csed.Prelude.{
  ℕ, zero, suc, ◌+◌, ◌-◌, ◌<◌, ◌≡◌, refl, ◌⊎◌, ◌∙◌, sym, ap, Bool, true, false, ◌&&◌, not, Option,
  some, List, [], ◌∷◌, ◌++◌, arith, ◌==◌, leb, inl, inr, Bool-cases, length, All,
}
use csed.Mm.{Memory, size_of, next_blkp}
use csed.Mm.Heap.{fits, next_fit}
use csed.Mm.Blocks.{Block, BlockAt, Blocks, size_of_header, alloc_bit_header, tag_bit_header}

-- A free block without a tag that is large enough.
unfoldable pub fitting : ℕ → Block → Bool
fitting asize b = leb asize b.size && not b.alloc && not b.tag

abbrev pub NoneFits : ℕ → List Block → Type 0
NoneFits asize = All (λ b. fitting asize b ≡ false)

pub fits-fitting :
    (asize : ℕ) (mem : Memory) (p : ℕ) (b : Block)
    → BlockAt mem p b
    → fits asize (mem (p - 4)) ≡ fitting asize b
unfolding fits fitting
fits-fitting asize mem p b at =
    rw (size_of_header mem p b at, alloc_bit_header mem p b at, tag_bit_header mem p b at) refl

pub next_blkp-header :
    (mem : Memory) (p : ℕ) (b : Block) → BlockAt mem p b → next_blkp p mem ≡ p + b.size
unfolding next_blkp
next_blkp-header mem p b at = rw (size_of_header mem p b at) refl

-- The block at `r`, among blocks that lie from `p` to `q`.
pub record Found (mem : Memory) (p : ℕ) (bs : List Block) (q : ℕ) (r : ℕ) : Type 0 where
  pub before : List Block
  pub block : Block
  pub after : List Block
  pub whole : bs ≡ before ++ block ∷ after
  pub up_to : Blocks mem p before r
  pub at : BlockAt mem r block
  pub behind : Blocks mem (r + block.size) after q

abbrev pub found_head :
    (mem : Memory) (p : ℕ) (b : Block) (bs : List Block) (q : ℕ)
    → Blocks mem p (b ∷ bs) q
    → Found mem p (b ∷ bs) q p
found_head mem p b bs q h = record {
  before = [];
  block = b;
  after = bs;
  whole = refl;
  up_to = refl;
  at = h.0;
  behind = h.1;
}

abbrev pub found_tail :
    (mem : Memory) (p : ℕ) (b : Block) (bs : List Block) (q r : ℕ)
    → BlockAt mem p b
    → Found mem (p + b.size) bs q r
    → Found mem p (b ∷ bs) q r
found_tail mem p b bs q r at f = record {
  before = b ∷ f.before;
  block = f.block;
  after = f.after;
  whole = ap (◌∷◌ b) f.whole;
  up_to = (at, f.up_to);
  at = f.at;
  behind = f.behind;
}

-- The first block that fits, if there is one.
pub record FirstFit (asize : ℕ) (mem : Memory) (p : ℕ) (bs : List Block) (q r : ℕ) : Type 0 where
  pub found : Found mem p bs q r
  pub fit : fitting asize found.block ≡ true
  pub first : NoneFits asize found.before

module _ (asize : ℕ) (mem : Memory) where
  next_fit-end :
      (f p : ℕ) → size_of (mem (p - 4)) ≡ 0 → next_fit (suc f) asize p mem ≡ some (false, p)
  unfolding next_fit
  next_fit-end f p h = rw (h, next_fit) refl

  module _ (f p : ℕ) (b : Block) (at : BlockAt mem p b) where
    nonzero : (size_of (mem (p - 4)) == 0) ≡ false
    nonzero = let size = size_of_header mem p b at in let big = at.is_size.big in ground arith

    next_fit-here : fitting asize b ≡ true → next_fit (suc f) asize p mem ≡ some (true, p)
    unfolding next_fit
    next_fit-here h = rw (nonzero, fits-fitting asize mem p b at ∙ h, next_fit) refl

    next_fit-skip :
        fitting asize b ≡ false → next_fit (suc f) asize p mem ≡ next_fit f asize (p + b.size) mem
    unfolding next_fit
    next_fit-skip h =
        rw (nonzero, fits-fitting asize mem p b at ∙ h, next_fit)
          (ap (λ x. next_fit f asize x mem) (next_blkp-header mem p b at))

  -- The first loop of `find_fit` from `p`, over the blocks up to the epilogue at `q`.
  abbrev pub NextFit : ℕ → List Block → ℕ → Option (Bool × ℕ) → Type 0
  NextFit p bs q r =
      ◌⊎◌ ((r ≡ some (false, q)) × NoneFits asize bs)
        ((x : ℕ) × (r ≡ some (true, x)) × FirstFit asize mem p bs q x)

  NextFit-cons :
      (p : ℕ) (b : Block) (bs : List Block) (q : ℕ) (r : Option (Bool × ℕ))
      → BlockAt mem p b
      → fitting asize b ≡ false
      → NextFit (p + b.size) bs q r
      → NextFit p (b ∷ bs) q r
  NextFit-cons p b bs q r at unfit (inl (e, none_fits)) = inl (e, (unfit, none_fits))
  NextFit-cons p b bs q r at unfit (inr (x, e, f)) = inr (
    x,
    e,
    record { found = found_tail mem p b bs q x at f.found; fit = f.fit; first = (unfit, f.first) },
  )

  pub next_fit-NextFit :
      (f p : ℕ) (bs : List Block) (q : ℕ)
      → size_of (mem (q - 4)) ≡ 0
      → length bs < f
      → Blocks mem p bs q
      → NextFit p bs q (next_fit f asize p mem)
  next_fit-NextFit zero p bs q end fuel h = absurd (omega arith)
  next_fit-NextFit (suc f) p [] q end fuel h =
      inl (next_fit-end f p (rw h end) ∙ ap (λ x. some (false, x)) h, tt)
  next_fit-NextFit (suc f) p (b ∷ bs) q end fuel h = elim (Bool-cases (fitting asize b)) [
    | inl good ↦ inr (
      p,
      next_fit-here f p b h.0 good,
      record { found = found_head mem p b bs q h; fit = good; first = tt },
    )
    | inr unfit ↦ subst (NextFit p (b ∷ bs) q) (sym (next_fit-skip f p b h.0 unfit)) (
        NextFit-cons p b bs q _ h.0 unfit
          (next_fit-NextFit f (p + b.size) bs q end (omega arith) h.1))
  ]
