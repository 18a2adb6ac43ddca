-- ===== src/Mm/Placed.antt =====
-- The heap of ASSN/ASSN6/mm.c after `place` in a block that `find_fit` found.
use csed.Prelude.{ℕ, ◌+◌, ◌-◌, ◌≤◌, ◌<◌, ◌≡◌, true, List, ◌++◌, arith, inl, inr}
use csed.Mm.{Memory}
use csed.Mm.Heap.{place}
use csed.Mm.Blocks.{Block, IsSize, Blocks, Blocks-le, Blocks-Agree, Blocks-append}
use csed.Mm.Place.{split, Within, place-Blocks}
use csed.Mm.Fit.{fitting, Found}

module _ (asize : ℕ) (mem : Memory) (p : ℕ) (bs : List Block) (q r : ℕ) (low : 8 ≤ p)
    (f : Found mem p bs q r) (ok : IsSize asize) (fit : fitting asize f.block ≡ true) where
  abbrev placed : Memory
  placed = place r asize mem

  abbrev behind_block : ℕ
  behind_block = r + f.block.size

  reach : (p ≤ r) × (behind_block ≤ q) × (asize ≤ f.block.size)
  unfolding fitting
  reach = (
    Blocks-le mem p r f.before f.up_to,
    Blocks-le mem behind_block q f.after f.behind,
    ground arith,
  )

  pub placed-Blocks :
      Blocks placed r (split asize f.block) behind_block
      × Within (r - 4) (behind_block - 4) mem placed
  placed-Blocks = place-Blocks r asize f.block mem (omega (arith, reach.0)) f.at ok reach.2

  -- Words up to the block and from its end on are as before.
  pub placed-low : (x : ℕ) → x < r - 4 → placed x ≡ mem x
  placed-low x h = placed-Blocks.1 x (inl h)

  pub placed-high : (x : ℕ) → behind_block - 4 ≤ x → placed x ≡ mem x
  placed-high x h = placed-Blocks.1 x (inr h)

  placed-before : Blocks placed p f.before r
  placed-before =
      Blocks-Agree mem placed p r f.before (omega arith) (λ x lo hi. placed-low x hi) f.up_to

  placed-after : Blocks placed behind_block f.after q
  placed-after =
      Blocks-Agree mem placed behind_block q f.after (omega (arith, reach.0))
        (λ x lo hi. placed-high x lo) f.behind

  -- The block is replaced by the ones that it is split into, and the others stay.
  pub placed-swap : Blocks placed p (f.before ++ (split asize f.block ++ f.after)) q
  placed-swap = Blocks-append placed p r q f.before (split asize f.block ++ f.after) placed-before (
      Blocks-append placed r behind_block q (split asize f.block) f.after placed-Blocks.0
        placed-after)

  pub placed-rest : Blocks placed r (split asize f.block ++ f.after) q
  placed-rest =
      Blocks-append placed r behind_block q (split asize f.block) f.after placed-Blocks.0
        placed-after
