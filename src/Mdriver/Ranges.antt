-- ===== src/Mdriver/Ranges.antt =====
-- The list of payload ranges of ASSN/ASSN6/mdriver.c: what `add_range` accepts, and what holds of
-- the ranges of a run.
use mathlib.Core.Path.{subst}
use csed.Prelude.{
  ℕ, ◌+◌, ◌-◌, ◌%◌, ◌^◌, ◌≤◌, ◌<◌, ◌≡◌, refl, ◌⊎◌, sym, ap, true, false, ◌||◌, List, [], ◌∷◌, arith,
  leb, ltb, ◌==◌, inl, inr, Bool-cases, All,
}
use csed.Mdriver.{
  Range, overlaps, overlaps_any, lies_outside, Added, added, refused, aborted, add_range,
  remove_range,
}

-- Two payloads have no byte in common.
abbrev pub Apart : Range → Range → Type 0
Apart x p = ◌⊎◌ (x.hi < p.lo) (p.hi < x.lo)

-- The payload `x` reaches beyond both ends of `p`.
abbrev pub Encloses : Range → Range → Type 0
Encloses x p = (x.lo < p.lo) × (p.hi < x.hi)

-- Each range of the list is aligned and not empty, and is apart from the older ones or encloses
-- them.
abbrev pub Checked : Range → Type 0
Checked x = (x.lo % 8 ≡ 0) × (x.lo ≤ x.hi)

abbrev pub Loose : List Range → Type 0
Loose [] = Unit
Loose (x ∷ xs) = Checked x × All (λ p. ◌⊎◌ (Apart x p) (Encloses x p)) xs × Loose xs

overlaps-false :
    (lo hi : ℕ) (p : Range)
    → lo ≤ hi
    → overlaps lo hi p ≡ false
    → ◌⊎◌ (Apart (record { lo = lo; hi = hi }) p) (Encloses (record { lo = lo; hi = hi }) p)
unfolding overlaps
overlaps-false lo hi p le h = elim (Bool-cases (ltb hi p.lo)) [
  | inl below ↦ inl (inl (ground arith))
  | inr above ↦ elim (Bool-cases (ltb p.hi lo)) [
    | inl behind ↦ inl (inr (ground arith))
    | inr before ↦ inr (ground arith, ground arith)
  ]
]

overlaps-of_Apart :
    (lo hi : ℕ) (p : Range)
    → lo ≤ hi
    → ◌⊎◌ (Apart (record { lo = lo; hi = hi }) p) (Encloses (record { lo = lo; hi = hi }) p)
    → overlaps lo hi p ≡ false
unfolding overlaps
overlaps-of_Apart lo hi p le (inl (inl h)) = ground arith
overlaps-of_Apart lo hi p le (inl (inr h)) = ground arith
overlaps-of_Apart lo hi p le (inr h) = ground (arith, h.0, h.1)

overlaps_any-All :
    (lo hi : ℕ) (ps : List Range)
    → lo ≤ hi
    → overlaps_any lo hi ps ≡ false
    → All
        (λ p.
          ◌⊎◌ (Apart (record { lo = lo; hi = hi }) p) (Encloses (record { lo = lo; hi = hi }) p))
        ps
unfolding overlaps_any
overlaps_any-All lo hi [] le h = tt
overlaps_any-All lo hi (p ∷ ps) le h =
    (overlaps-false lo hi p le (ground arith), overlaps_any-All lo hi ps le (ground arith))

overlaps_any-of_All :
    (lo hi : ℕ) (ps : List Range)
    → lo ≤ hi
    → All
        (λ p.
          ◌⊎◌ (Apart (record { lo = lo; hi = hi }) p) (Encloses (record { lo = lo; hi = hi }) p))
        ps
    → overlaps_any lo hi ps ≡ false
unfolding overlaps_any
overlaps_any-of_All lo hi [] le h = refl
overlaps_any-of_All lo hi (p ∷ ps) le h =
    let head = overlaps-of_Apart lo hi p le h.0 in
    let tail = overlaps_any-of_All lo hi ps le h.1 in ground arith

-- What `add_range` asks of a payload of `size` bytes at `lo`.
pub record Acceptable (ranges : List Range) (lo size heap_lo heap_hi : ℕ) : Type 0 where
  pub nonempty : 0 < size
  pub aligned : lo % 8 ≡ 0
  pub above : heap_lo ≤ lo
  pub below : lo + size - 1 ≤ heap_hi
  pub loose :
      All
        (λ p.
          ◌⊎◌
            (Apart (record { lo = lo; hi = lo + size - 1 }) p)
            (Encloses (record { lo = lo; hi = lo + size - 1 }) p))
        ranges

module _ (ranges : List Range) (lo size heap_lo heap_hi : ℕ) where
  abbrev hi : ℕ
  hi = lo + size - 1

  abbrev call : Added
  call = add_range ranges lo size heap_lo heap_hi

  accept :
      size < 2 ^ 31
      → Acceptable ranges lo size heap_lo heap_hi
      → call ≡ added (record { lo = lo; hi = hi } ∷ ranges)
  unfolding add_range lies_outside
  accept small a =
      let (pos, above, below, aligned) = bounds in
      let none_over = overlaps_any-of_All lo hi ranges (omega arith) a.loose in ground arith
    where
      bounds : (0 < size) × (heap_lo ≤ lo) × (hi ≤ heap_hi) × (lo % 8 ≡ 0)
      bounds = (a.nonempty, a.above, a.below, a.aligned)

  -- The tests that an accepted payload has passed.
  accepted_tests :
      (new : List Range)
      → call ≡ added new
      → ((size == 0) ≡ false)
        × ((lo % 8 == 0) ≡ true)
        × (lies_outside lo hi heap_lo heap_hi ≡ false)
        × (overlaps_any lo hi ranges ≡ false)
        × (added (record { lo = lo; hi = hi } ∷ ranges) ≡ added new)
  unfolding add_range
  accepted_tests new h = elim (Bool-cases (size == 0 || leb (2 ^ 31) size)) [
    | inl a ↦ absurd (cc (rw a at h))
    | inr a ↦ elim (Bool-cases (lo % 8 == 0)) [
      | inr b ↦ absurd (cc (rw (a, b) at h))
      | inl b ↦ elim (Bool-cases (lies_outside lo hi heap_lo heap_hi)) [
        | inl c ↦ absurd (cc (rw (a, b, c) at h))
        | inr c ↦ elim (Bool-cases (overlaps_any lo hi ranges)) [
          | inl d ↦ absurd (cc (rw (a, b, c, d) at h))
          | inr d ↦ (ground arith, b, c, d, rw (a, b, c, d) at h)
        ]
      ]
    ]
  ]

  accepted :
      (new : List Range)
      → call ≡ added new
      → Acceptable ranges lo size heap_lo heap_hi × (new ≡ record { lo = lo; hi = hi } ∷ ranges)
  unfolding lies_outside
  accepted new h =
      let (a, b, c, d, e) = accepted_tests new h in
      let pos : 0 < size = ground arith in
      (
        record {
          nonempty = pos;
          aligned = ground arith;
          above = ground arith;
          below = ground arith;
          loose = overlaps_any-All lo hi ranges (omega arith) d;
        },
        ap (λ r. elim r [ added xs ↦ xs | refused fault ↦ ranges | aborted ↦ ranges ]) (sym e),
      )

  -- For a size in the range of an `int`, `add_range` accepts a payload exactly when it is not
  -- empty, is aligned, lies in the heap, and has with each payload of the list no byte in common
  -- or encloses it at both ends. The new payload is then put in front of the list.
  pub add_range-accepts :
      size < 2 ^ 31
      → (Acceptable ranges lo size heap_lo heap_hi
          → call ≡ added (record { lo = lo; hi = hi } ∷ ranges))
        × ((new : List Range)
            → call ≡ added new
            → Acceptable ranges lo size heap_lo heap_hi
              × (new ≡ record { lo = lo; hi = hi } ∷ ranges))
  add_range-accepts small = (accept small, accepted)

  -- An accepted payload leaves the ranges aligned, not empty, and each apart from the older ones or
  -- enclosing them.
  pub add_range-Loose : (new : List Range) → call ≡ added new → Loose ranges → Loose new
  add_range-Loose new h l =
      let (a, e) = accepted new h in
      let n = a.nonempty in subst Loose (sym e) ((a.aligned, omega arith), a.loose, l)

module _ (p : Range) (ps : List Range) (lo : ℕ) where
  remove_here : (p.lo == lo) ≡ true → remove_range (p ∷ ps) lo ≡ ps
  unfolding remove_range
  remove_here h = rw h refl

  remove_behind : (p.lo == lo) ≡ false → remove_range (p ∷ ps) lo ≡ p ∷ remove_range ps lo
  unfolding remove_range
  remove_behind h = rw h refl

remove_range-All :
    (P : Range → Type 0) (ps : List Range) (lo : ℕ) → All P ps → All P (remove_range ps lo)
remove_range-All P [] lo h = unfold remove_range in tt
remove_range-All P (p ∷ ps) lo h = elim (Bool-cases (p.lo == lo)) [
  | inl here ↦ subst (All P) (sym (remove_here p ps lo here)) h.1
  | inr on ↦ subst (All P) (sym (remove_behind p ps lo on)) (h.0, remove_range-All P ps lo h.1)
]

pub remove_range-Loose : (ps : List Range) (lo : ℕ) → Loose ps → Loose (remove_range ps lo)
remove_range-Loose [] lo h = unfold remove_range in tt
remove_range-Loose (p ∷ ps) lo h = elim (Bool-cases (p.lo == lo)) [
  | inl here ↦ subst Loose (sym (remove_here p ps lo here)) h.2
  | inr on ↦
      subst Loose (sym (remove_behind p ps lo on))
        (h.0, remove_range-All _ ps lo h.1, remove_range-Loose ps lo h.2)
]
