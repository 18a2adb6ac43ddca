-- ===== src/Mm/Untagged.antt =====
-- The blocks behind a block that `mm_free` of ASSN/ASSN6/mm.c frees: the first one loses its tag.
use csed.Prelude.{ℕ, ◌+◌, ◌-◌, ◌≤◌, ◌≡◌, ◌∙◌, ap, true, List, [], ◌∷◌, arith}
use csed.Mm.{Memory, size_of, alloc_bit, tag_bit, delete_tag, without_tag}
use csed.Mm.Blocks.{Block, Blocks, Blocks-le, Blocks-Agree, put_self, put-other}
use csed.Mm.Free.{untagged, delete_tag-BlockAt}
use csed.Mm.Layout.{Starts}

-- The tag of the first block is taken away.
unfoldable pub untag_first : List Block → List Block
untag_first [] = []
untag_first (y ∷ after) = untagged y ∷ after

untagged-end :
    (w : ℕ)
    → size_of w ≡ 0
    → alloc_bit w ≡ true
    → (size_of (without_tag w) ≡ 0) × (alloc_bit (without_tag w) ≡ true)
unfolding size_of alloc_bit without_tag tag_bit
untagged-end w size alloc = (ground arith, ground arith)

pub tail_cleared :
    (mem : Memory) (p q : ℕ) (tail : List Block)
    → 8 ≤ p
    → Blocks mem p tail q
    → Blocks (delete_tag (p - 4) mem) p (untag_first tail) q
unfolding untag_first
tail_cleared mem p q [] low h = h
tail_cleared mem p q (y ∷ after) low h =
    let (at, only) = delete_tag-BlockAt mem p y low h.0 in
    let big = h.0.is_size.big in
    (
      at,
      Blocks-Agree mem _ (p + y.size) q after (omega arith) (λ w lo hi. only w (omega arith)) h.1,
    )

pub tail_end :
    (mem : Memory) (p q : ℕ) (tail : List Block)
    → 8 ≤ p
    → Blocks mem p tail q
    → size_of (mem (q - 4)) ≡ 0
    → alloc_bit (mem (q - 4)) ≡ true
    → (size_of (delete_tag (p - 4) mem (q - 4)) ≡ 0)
      × (alloc_bit (delete_tag (p - 4) mem (q - 4)) ≡ true)
unfolding delete_tag
tail_end mem p q [] low h size alloc =
    let at = ap (λ (r : ℕ). r - 4) h in
    rw (← at, put_self (p - 4) (without_tag (mem (p - 4))) mem)
      (untagged-end (mem (p - 4)) (ap (λ (r : ℕ). size_of (mem (r - 4))) h ∙ size)
        (ap (λ (r : ℕ). alloc_bit (mem (r - 4))) h ∙ alloc))
tail_end mem p q (y ∷ after) low h size alloc =
    let big = h.0.is_size.big in
    let le = Blocks-le mem (p + y.size) q after h.1 in
    let same = put-other (p - 4) (without_tag (mem (p - 4))) (q - 4) mem (omega arith) in
    (ap size_of same ∙ size, ap alloc_bit same ∙ alloc)

pub Starts-untag : (p c : ℕ) (tail : List Block) → Starts p tail c → Starts p (untag_first tail) c
unfolding Starts untag_first
Starts-untag p c [] h = h
Starts-untag p c (y ∷ after) h = h
