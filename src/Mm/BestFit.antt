-- ===== src/Mm/BestFit.antt =====
-- The second loop of `find_fit` of ASSN/ASSN6/mm.c finds a smallest block that fits.
use csed.Prelude.Words.{int_lt-small}
use csed.Prelude.{
  ℕ, zero, suc, ◌+◌, ◌^◌, ◌≤◌, ◌<◌, ◌≡◌, refl, ◌⊎◌, ◌∙◌, sym, true, false, ◌&&◌, none, some, List,
  [], ◌∷◌, arith, ltb, if◌then◌else◌, inl, inr, Bool-cases, length, All,
}
use csed.Mm.{Memory}
use csed.Mm.Heap.{Best, better, best_fit}
use csed.Mm.Blocks.{Block, BlockAt, Blocks, Blocks-le, size_of_header}
use csed.Mm.Fit.{fitting, fits-fitting, next_blkp-header, Found, found_head, found_tail}

-- The best block so far is no larger than `n`.
abbrev pub AtMost : ℕ → Best → Type 0
AtMost n none = false ≡ true
AtMost n (some (r, m)) = m ≤ n

abbrev pub IsSmall : Best → Type 0
IsSmall none = Unit
IsSmall (some (r, m)) = m < 2 ^ 31

-- The best block is the old one, or one of the blocks from `p` to `q` that fit.
abbrev pub Origin : ℕ → Memory → ℕ → List Block → ℕ → Best → Best → Type 0
Origin asize mem p bs q best best' = ◌⊎◌ (best' ≡ best) (
    (r : ℕ) × (f : Found mem p bs q r) × (fitting asize f.block ≡ true)
    × (best' ≡ some (r, f.block.size)))

-- What the loop makes of the best block: no worse than the old one and than any block that fits.
pub record BestFit (asize : ℕ) (mem : Memory) (p : ℕ) (bs : List Block) (q : ℕ) (best best' : Best)
    : Type 0 where
  pub origin : Origin asize mem p bs q best best'
  pub as_good : (n : ℕ) → AtMost n best → AtMost n best'
  pub least : All (λ b. fitting asize b ≡ true → AtMost b.size best') bs

abbrev pub improve : ℕ → ℕ → Block → Best → Best
improve asize p b best = if fitting asize b && better b.size best then some (p, b.size) else best

better-false :
    (size : ℕ) (best : Best)
    → size < 2 ^ 31
    → IsSmall best
    → better size best ≡ false
    → AtMost size best
unfolding better
better-false size none small ok h = sym h
better-false size (some (r, m)) small ok h = let e = int_lt-small size m small ok in ground arith

better-true :
    (size n : ℕ) (best : Best)
    → size < 2 ^ 31
    → IsSmall best
    → better size best ≡ true
    → AtMost n best
    → size ≤ n
unfolding better
better-true size n none small ok h m = absurd (cc m)
better-true size n (some (r, k)) small ok h m = let e = int_lt-small size k small ok in ground arith

module _ (asize : ℕ) (mem : Memory) (p : ℕ) (b : Block) (at : BlockAt mem p b) where
  improve-IsSmall : (best : Best) → IsSmall best → IsSmall (improve asize p b best)
  improve-IsSmall best ok = elim (Bool-cases (fitting asize b && better b.size best)) [
    | inl new ↦ rw new at.is_size.small
    | inr old ↦ rw old ok
  ]

  improve-as_good :
      (best : Best) (n : ℕ) → IsSmall best → AtMost n best → AtMost n (improve asize p b best)
  improve-as_good best n ok m = elim (Bool-cases (fitting asize b && better b.size best)) [
    | inl new ↦ rw new (better-true b.size n best at.is_size.small ok (ground arith) m)
    | inr old ↦ rw old m
  ]

  improve-least :
      (best : Best) → IsSmall best → fitting asize b ≡ true → AtMost b.size (improve asize p b best)
  improve-least best ok fit = elim (Bool-cases (better b.size best)) [
    | inl new ↦ rw (fit, new) (omega arith)
    | inr old ↦ rw (fit, old) (better-false b.size best at.is_size.small ok old)
  ]

  module _ (bs : List Block) (q : ℕ) (h : Blocks mem p (b ∷ bs) q) (best best' : Best)
      (ok : IsSmall best)
      (k : BestFit asize mem (p + b.size) bs q (improve asize p b best) best') where
    cons-Origin : Origin asize mem p (b ∷ bs) q best best'
    cons-Origin = elim k.origin [
      | inr (r, f, fit, e) ↦ inr (r, found_tail mem p b bs q r at f, fit, e)
      | inl same ↦ elim (Bool-cases (fitting asize b && better b.size best)) [
        | inl new ↦ inr (p, found_head mem p b bs q h, ground arith, rw new at same)
        | inr old ↦ inl (rw old at same)
      ]
    ]

    BestFit-cons : BestFit asize mem p (b ∷ bs) q best best'
    BestFit-cons = record {
      origin = cons-Origin;
      as_good = λ n m. k.as_good n (improve-as_good best n ok m);
      least = (λ fit. k.as_good b.size (improve-least best ok fit), k.least);
    }

module _ (asize : ℕ) (mem : Memory) where
  best_fit-stop : (f q : ℕ) (best : Best) → best_fit (suc f) asize q q best mem ≡ some (best, q)
  unfolding best_fit
  best_fit-stop f q best = let stop : ltb q q ≡ false = ground arith in rw (stop, best_fit) refl

  best_fit-step :
      (f p q : ℕ) (b : Block) (best : Best)
      → BlockAt mem p b
      → p < q
      → best_fit (suc f) asize p q best mem
        ≡ best_fit f asize (p + b.size) q (improve asize p b best) mem
  unfolding best_fit
  best_fit-step f p q b best at lt =
      let go : ltb p q ≡ true = ground arith in
      rw (go, best_fit)
        (rw (fits-fitting asize mem p b at, size_of_header mem p b at, next_blkp-header mem p b at)
          refl)

  -- The second loop of `find_fit` over the blocks up to the old `current_block`.
  pub best_fit-BestFit :
      (f p : ℕ) (bs : List Block) (q : ℕ) (best : Best)
      → length bs < f
      → Blocks mem p bs q
      → IsSmall best
      → (best' : Best) × (best_fit f asize p q best mem ≡ some (best', q))
        × BestFit asize mem p bs q best best'
  best_fit-BestFit zero p bs q best fuel h ok = absurd (omega arith)
  best_fit-BestFit (suc f) p [] q best fuel h ok = (
    best,
    rw h (best_fit-stop f q best),
    record { origin = inl refl; as_good = λ n m. m; least = tt },
  )
  best_fit-BestFit (suc f) p (b ∷ bs) q best fuel h ok =
      let big = h.0.is_size.big in
      let le = Blocks-le mem (p + b.size) q bs h.1 in
      let (best', run, k) =
        best_fit-BestFit f (p + b.size) bs q (improve asize p b best) (omega arith) h.1
          (improve-IsSmall asize mem p b h.0 best ok) in
      (
        best',
        best_fit-step f p q b best h.0 (omega arith) ∙ run,
        BestFit-cons asize mem p b h.0 bs q h best best' ok k,
      )
