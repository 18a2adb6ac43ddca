-- ===== src/Csim/Blocks.antt =====
-- The blocks of a set (ASSN/ASSN4/csim.c) seen as a map from tags to the time of their last use.
use csed.Prelude.{
  ℕ, zero, suc, ◌+◌, ◌≤◌, ◌<◌, ◌≡◌, refl, ◌≢◌, ◌⊎◌, inl, inr, true, false, ◌&&◌, Option, none, some,
  List, [], ◌∷◌, arith, ◌==◌, Bool-cases, if◌then◌else◌, length, get_elem?, set, All,
}
use csed.Csim.{Block, find_block}

-- The time of the last use of each tag that the set holds.
abbrev pub Contents : Type 0
Contents = ℕ → Option ℕ

unfoldable pub contents : List Block → Contents
contents [] t = none
contents (x ∷ xs) t = if t == x.tag && x.valid then some x.lru_count else contents xs t

-- How many blocks are valid.
unfoldable pub count_valid : List Block → ℕ
count_valid [] = 0
count_valid (x ∷ xs) = (if x.valid then 1 else 0) + count_valid xs

-- No tag stands in two valid blocks.
abbrev pub TagsDistinct : List Block → Type 0
TagsDistinct [] = Unit
TagsDistinct (x ∷ xs) = (x.valid ≡ true → contents xs x.tag ≡ none) × TagsDistinct xs

-- A valid block was used before `now` and after time 0; an invalid one has the count 0.
abbrev pub Stamped : ℕ → Block → Type 0
Stamped now x =
    (x.valid ≡ true → 0 < x.lru_count) × (x.valid ≡ false → x.lru_count ≡ 0) × (x.lru_count ≤ now)

pub count_valid-le : (xs : List Block) → count_valid xs ≤ length xs
unfolding count_valid
count_valid-le [] = omega arith
count_valid-le (x ∷ xs) = ground (arith, count_valid-le xs)

-- The search fails exactly on the tags that the set does not hold.
pub find_block-none : (t : ℕ) (xs : List Block) → find_block t xs ≡ none → contents xs t ≡ none
unfolding find_block contents
find_block-none t [] h = refl
find_block-none t (x ∷ xs) h = ground (arith, find_block-none t xs)

-- Where it succeeds, the block found is valid and has the tag.
pub find_block-some :
    (t : ℕ) (xs : List Block) (i : ℕ)
    → find_block t xs ≡ some i
    → (x : Block) × (get_elem? xs i ≡ some x)
      × (x.valid ≡ true)
      × (x.tag ≡ t)
      × (contents xs t ≡ some x.lru_count)
unfolding find_block contents
find_block-some t [] i h = cc
find_block-some t (x ∷ xs) zero h = elim (Bool-cases (t == x.tag && x.valid)) [
  | inl hit ↦ (x, refl, ground arith, ground arith, ground arith)
  | inr other ↦ absurd (ground arith)
]
find_block-some t (x ∷ xs) (suc i) h =
    let later : find_block t xs ≡ some i = ground arith in
    let (y, at, v, e, c) = find_block-some t xs i later in (y, at, v, e, ground arith)

-- A valid block's tag is held.
pub contents-get_elem? :
    (xs : List Block) (i : ℕ) {x : Block}
    → get_elem? xs i ≡ some x
    → x.valid ≡ true
    → contents xs x.tag ≢ none
unfolding contents
contents-get_elem? [] i h v = cc
contents-get_elem? (y ∷ xs) zero h v = ground arith
contents-get_elem? (y ∷ xs) (suc i) h v = ground (arith, contents-get_elem? xs i h v)

pub count_valid-set :
    (xs : List Block) (i : ℕ) {old : Block} (new : Block)
    → get_elem? xs i ≡ some old
    → count_valid (set xs i new) + (if old.valid then 1 else 0)
      ≡ count_valid xs + (if new.valid then 1 else 0)
unfolding count_valid
count_valid-set [] i new h = cc
count_valid-set (y ∷ xs) zero new h = ground arith
count_valid-set (y ∷ xs) (suc i) new h = omega (arith, count_valid-set xs i new h)

-- Writing a valid block over `old`, when no other block holds the new tag.
abbrev pub Free : Block → List Block → Block → Type 0
Free new xs old = (contents xs new.tag ≡ none) ⊎ (old.valid ≡ true) × (old.tag ≡ new.tag)

module _ (new : Block) (valid : new.valid ≡ true) where
  Free-tail :
      (y : Block) (xs : List Block) (i : ℕ) {old : Block}
      → get_elem? xs i ≡ some old
      → TagsDistinct (y ∷ xs)
      → Free new (y ∷ xs) old
      → Free new xs old
        × (y.valid ≡ true → y.tag ≢ new.tag)
        × (y.valid ≡ true → old.valid ≡ true → y.tag ≢ old.tag)
  unfolding contents
  Free-tail y xs i h d (inl absent) =
      (inl (ground arith), ground arith, ground (arith, contents-get_elem? xs i h))
  Free-tail y xs i h d (inr same) = (
    inr same,
    ground (arith, contents-get_elem? xs i h),
    ground (arith, contents-get_elem? xs i h),
  )

  pub contents-set :
      (xs : List Block) (i : ℕ) {old : Block}
      → get_elem? xs i ≡ some old
      → TagsDistinct xs
      → Free new xs old
      → (t : ℕ)
      → contents (set xs i new) t ≡ (
          if t == new.tag
          then some new.lru_count
          else if t == old.tag && old.valid
          then none
          else contents xs t)
  unfolding contents
  contents-set [] i h d free t = cc
  contents-set (y ∷ xs) zero h d free t = ground arith
  contents-set (y ∷ xs) (suc i) h d free t =
      let (rest, apart, apart') = Free-tail y xs i h d free in
      ground (arith, contents-set xs i h d.1 rest t)

  pub TagsDistinct-set :
      (xs : List Block) (i : ℕ) {old : Block}
      → get_elem? xs i ≡ some old
      → TagsDistinct xs
      → Free new xs old
      → TagsDistinct (set xs i new)
  unfolding contents
  TagsDistinct-set [] i h d free = cc
  TagsDistinct-set (y ∷ xs) zero h d free = (ground arith, d.1)
  TagsDistinct-set (y ∷ xs) (suc i) h d free =
      let (rest, apart, apart') = Free-tail y xs i h d free in
      (ground (arith, contents-set xs i h d.1 rest y.tag), TagsDistinct-set xs i h d.1 rest)

-- What a valid block holds is what the map says of its tag.
pub contents-valid :
    (xs : List Block) (i : ℕ) {x : Block}
    → TagsDistinct xs
    → get_elem? xs i ≡ some x
    → x.valid ≡ true
    → contents xs x.tag ≡ some x.lru_count
unfolding contents
contents-valid [] i d h v = cc
contents-valid (y ∷ xs) zero d h v = ground arith
contents-valid (y ∷ xs) (suc i) d h v =
    ground (arith, contents-valid xs i d.1 h v, contents-get_elem? xs i h)

pub All-contents :
    (c : ℕ) (xs : List Block) (t d : ℕ)
    → All (λ y. c ≤ y.lru_count) xs
    → contents xs t ≡ some d
    → c ≤ d
unfolding contents
All-contents c [] t d all h = cc
All-contents c (y ∷ xs) t d all h = ground (arith, All-contents c xs t d all.1)

-- With an invalid block there is room, and with valid blocks alone there is none.
pub count_valid-lt :
    (xs : List Block) (i : ℕ) {x : Block}
    → get_elem? xs i ≡ some x
    → x.valid ≡ false
    → count_valid xs < length xs
unfolding count_valid
count_valid-lt [] i h v = cc
count_valid-lt (y ∷ xs) zero h v = ground (arith, count_valid-le xs)
count_valid-lt (y ∷ xs) (suc i) h v = ground (arith, count_valid-lt xs i h v)

pub count_valid-full :
    (now c : ℕ) (xs : List Block)
    → All (Stamped now) xs
    → 0 < c
    → All (λ y. c ≤ y.lru_count) xs
    → count_valid xs ≡ length xs
unfolding count_valid
count_valid-full now c [] s p all = omega arith
count_valid-full now c (y ∷ xs) s p all = ground (arith, count_valid-full now c xs s.1 p all.1)
