-- ===== src/Mm/LastBlock.antt =====
-- The last block of a heap of ASSN/ASSN6/mm.c.
use csed.Prelude.{ℕ, ◌+◌, ◌≡◌, refl, ap, List, [], ◌∷◌, ◌++◌}
use csed.Mm.{Memory}
use csed.Mm.Blocks.{Block, BlockAt, Blocks}

-- The last block of a list.
pub record LastOf (mem : Memory) (p : ℕ) (bs : List Block) (q : ℕ) : Type 0 where
  pub front : List Block
  pub last : Block
  pub start : ℕ
  pub whole : bs ≡ front ++ last ∷ []
  pub front_at : Blocks mem p front start
  pub last_at : BlockAt mem start last
  pub ends : start + last.size ≡ q

pub last_of :
    (mem : Memory) (p q : ℕ) (b : Block) (bs : List Block)
    → Blocks mem p (b ∷ bs) q
    → LastOf mem p (b ∷ bs) q
last_of mem p q b [] h = record {
  front = [];
  last = b;
  start = p;
  whole = refl;
  front_at = refl;
  last_at = h.0;
  ends = h.1;
}
last_of mem p q b (c ∷ bs) h =
    let l = last_of mem (p + b.size) q c bs h.1 in
    record {
      front = b ∷ l.front;
      last = l.last;
      start = l.start;
      whole = ap (◌∷◌ b) l.whole;
      front_at = (h.0, l.front_at);
      last_at = l.last_at;
      ends = l.ends;
    }
