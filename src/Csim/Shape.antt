-- ===== src/Csim/Shape.antt =====
-- What every access of a set (ASSN/ASSN4/csim.c) preserves, the first one included.
use csed.Prelude.{
  ℕ, zero, suc, ◌+◌, ◌^◌, ◌≤◌, ◌<◌, ◌≡◌, refl, ◌∙◌, inl, inr, true, none, some, List, [], ◌∷◌,
  arith, Bool-cases, Option-cases, length, get_elem?, set, All, length-set, All-set, replicate,
  length-replicate, All-replicate,
}
use csed.Csim.{Block, empty_block, find_block, Outcome, hit, miss, eviction, access_blocks}
use csed.Csim.Blocks.{
  contents, count_valid, TagsDistinct, find_block-none, find_block-some, TagsDistinct-set,
  count_valid-set,
}
use csed.Csim.Victim.{victim, victim-least}
use csed.Csim.Lru.{access_blocks-hit, access_blocks-miss}

-- A set of `lines` lines, before the access at the time `now`.
pub record IsShaped (lines now : ℕ) (xs : List Block) : Type 0 where
  pub lines_eq : length xs ≡ lines
  pub distinct : TagsDistinct xs
  pub past : All (λ x. x.lru_count ≤ now) xs

-- How many more blocks are valid after an access.
abbrev pub gain : Outcome → ℕ
gain hit = 0
gain miss = 1
gain eviction = 0

pub record Kept (lines now : ℕ) (xs : List Block) (o : Outcome) (ys : List Block) : Type 0 where
  pub shaped : IsShaped lines (now + 1) ys
  pub count : count_valid ys ≡ count_valid xs + gain o

pub past_later :
    (now : ℕ) (xs : List Block)
    → All (λ x. x.lru_count ≤ now) xs
    → All (λ x. x.lru_count ≤ now + 1) xs
past_later now [] p = tt
past_later now (x ∷ xs) p = (omega arith, past_later now xs p.1)

small_of_past :
    (now : ℕ) (xs : List Block)
    → now < 2 ^ 31
    → All (λ x. x.lru_count ≤ now) xs
    → All (λ y. y.lru_count < 2 ^ 31) xs
small_of_past now [] h s = tt
small_of_past now (x ∷ xs) h s = (omega arith, small_of_past now xs h s.1)

abbrev pub KeptBy : ℕ → ℕ → ℕ → List Block → Type 0
KeptBy lines tag now xs =
    (o : Outcome) × (ys : List Block) × (access_blocks tag now xs ≡ some (o, ys))
    × Kept lines now xs o ys

module _ (lines tag now : ℕ) (xs : List Block) (v : IsShaped lines now xs) where
  KeptBy-found : (i : ℕ) → find_block tag xs ≡ some i → KeptBy lines tag now xs
  KeptBy-found i found =
      let (x, at, valid, same, held) = find_block-some tag xs i found in
      let new : Block = record x { lru_count = now } in
      (
        hit,
        set xs i new,
        access_blocks-hit tag now xs i found at,
        record {
          shaped = record {
            lines_eq = length-set xs i new ∙ v.lines_eq;
            distinct = TagsDistinct-set new valid xs i at v.distinct (inr (valid, refl));
            past =
                All-set (λ x. x.lru_count ≤ now + 1) xs i new (past_later now xs v.past)
                  (omega arith);
          };
          count = ground (arith, count_valid-set xs i new at);
        },
      )

  module _ (x : Block) (found : find_block tag xs ≡ none)
      (at : get_elem? xs (victim xs) ≡ some x) where
    abbrev loaded : Block
    loaded = record { valid = true; tag = tag; lru_count = now }

    loaded-IsShaped : IsShaped lines (now + 1) (set xs (victim xs) loaded)
    loaded-IsShaped = record {
      lines_eq = length-set xs (victim xs) loaded ∙ v.lines_eq;
      distinct =
          TagsDistinct-set loaded refl xs (victim xs) at v.distinct
            (inl (find_block-none tag xs found));
      past =
          All-set (λ x. x.lru_count ≤ now + 1) xs (victim xs) loaded (past_later now xs v.past)
            (omega arith);
    }

    KeptBy-absent : KeptBy lines tag now xs
    KeptBy-absent = elim (Bool-cases x.valid) [
      | inl valid ↦ (
        eviction,
        set xs (victim xs) loaded,
        rw (access_blocks-miss tag now xs found at, valid),
        record {
          shaped = loaded-IsShaped;
          count = ground (arith, count_valid-set xs (victim xs) loaded at);
        },
      )
      | inr invalid ↦ (
        miss,
        set xs (victim xs) loaded,
        rw (access_blocks-miss tag now xs found at, invalid),
        record {
          shaped = loaded-IsShaped;
          count = ground (arith, count_valid-set xs (victim xs) loaded at);
        },
      )
    ]

-- The access succeeds, keeps the shape, and adds a valid block exactly on a miss that evicts none.
pub access_blocks-KeptBy :
    (lines tag now : ℕ) (xs : List Block)
    → IsShaped lines now xs
    → 0 < lines
    → now < 2 ^ 31
    → KeptBy lines tag now xs
access_blocks-KeptBy lines tag now [] v some_line small = absurd (omega (arith, v.lines_eq))
access_blocks-KeptBy lines tag now (y ∷ xs) v some_line small =
    elim (Option-cases (find_block tag (y ∷ xs))) [
      | inr (i, found) ↦ KeptBy-found lines tag now (y ∷ xs) v i found
      | inl absent ↦
          let (x, at, least) = victim-least y xs (small_of_past now (y ∷ xs) small v.past) in
          KeptBy-absent lines tag now (y ∷ xs) v x absent at
    ]

-- The blocks as `initCache` leaves them.
contents-empty : (n t : ℕ) → contents (replicate n empty_block) t ≡ none
unfolding contents
contents-empty zero t = refl
contents-empty (suc n) t = ground (arith, contents-empty n t)

empty-distinct : (n : ℕ) → TagsDistinct (replicate n empty_block)
empty-distinct zero = tt
empty-distinct (suc n) = (λ h. cc, empty-distinct n)

pub count_valid-empty : (n : ℕ) → count_valid (replicate n empty_block) ≡ 0
unfolding count_valid
count_valid-empty zero = refl
count_valid-empty (suc n) = omega (arith, count_valid-empty n)

pub empty-IsShaped : (n now : ℕ) → IsShaped n now (replicate n empty_block)
empty-IsShaped n now = record {
  lines_eq = length-replicate n empty_block;
  distinct = empty-distinct n;
  past = All-replicate (λ x. x.lru_count ≤ now) n empty_block (omega arith);
}
