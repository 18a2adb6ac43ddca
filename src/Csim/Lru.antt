-- ===== src/Csim/Lru.antt =====
-- What a set of the cache (ASSN/ASSN4/csim.c) promises: it replaces the least recently used tag.
use csed.Prelude.{
  ℕ, ◌+◌, ◌^◌, ◌≤◌, ◌<◌, ◌≡◌, refl, ◌∙◌, ◌≢◌, inl, inr, true, false, none, some, List, [], ◌∷◌,
  arith, ◌==◌, if◌then◌else◌, Bool-cases, Option-cases, length, get_elem?, set, All, length-set,
  All-get_elem?, All-set,
}
use csed.Csim.{Block, find_block, Outcome, hit, miss, eviction, access_blocks}
use csed.Csim.Blocks.{
  Contents, contents, count_valid, TagsDistinct, Stamped, find_block-none, find_block-some,
  contents-set, TagsDistinct-set, count_valid-set, contents-valid, All-contents, count_valid-lt,
  count_valid-full,
}
use csed.Csim.Victim.{victim, victim-least}

-- The abstract set: the time of the last use of each tag that it holds, and how many it holds.
pub record LruSet : Type 0 where
  pub last_use : Contents
  pub size : ℕ

unfoldable pub view : List Block → LruSet
view xs = record { last_use = contents xs; size = count_valid xs }

-- The tag is used now, and nothing else has changed.
abbrev pub Used : ℕ → ℕ → Contents → Contents → Type 0
Used tag now m m' = (t : ℕ) → m' t ≡ (if t == tag then some now else m t)

-- An access to `tag` at the time `now`, in a set of `lines` lines.
pub data LruStep (lines tag now : ℕ) (a b : LruSet) : Outcome → Type 0 where
  reuse :
      a.last_use tag ≢ none
      → Used tag now a.last_use b.last_use
      → b.size ≡ a.size
      → LruStep lines tag now a b hit
  fill :
      a.last_use tag ≡ none
      → a.size < lines
      → Used tag now a.last_use b.last_use
      → b.size ≡ a.size + 1
      → LruStep lines tag now a b miss
  replace :
      (old time : ℕ)
      → a.last_use tag ≡ none
      → a.size ≡ lines
      → a.last_use old ≡ some time
      → ((t d : ℕ) → a.last_use t ≡ some d → time ≤ d)
      → ((t : ℕ)
          → b.last_use t ≡ (if t == tag then some now else if t == old then none else a.last_use t))
      → b.size ≡ a.size
      → LruStep lines tag now a b eviction

-- The invariant of a set of `lines` lines before the access at the time `now`.
pub record IsValid (lines now : ℕ) (xs : List Block) : Type 0 where
  pub lines_eq : length xs ≡ lines
  pub distinct : TagsDistinct xs
  pub stamped : All (Stamped now) xs

small_of_Stamped :
    (now : ℕ) (xs : List Block)
    → now < 2 ^ 31
    → All (Stamped now) xs
    → All (λ y. y.lru_count < 2 ^ 31) xs
small_of_Stamped now [] h s = tt
small_of_Stamped now (x ∷ xs) h s = (omega arith, small_of_Stamped now xs h s.1)

pub Stamped-later : (now : ℕ) (xs : List Block) → All (Stamped now) xs → All (Stamped (now + 1)) xs
Stamped-later now [] s = tt
Stamped-later now (x ∷ xs) s = ((s.0.0, s.0.1, omega arith), Stamped-later now xs s.1)

-- A step together with the invariant after it.
pub record Stepped (lines tag now : ℕ) (xs : List Block) (o : Outcome) (ys : List Block)
    : Type 0 where
  pub step : LruStep lines tag now (view xs) (view ys) o
  pub valid : IsValid lines (now + 1) ys

module _ (lines tag now : ℕ) (xs : List Block) (v : IsValid lines now xs) (pos : 0 < now) where
  hit-Stepped :
      (i : ℕ) (x : Block)
      → get_elem? xs i ≡ some x
      → x.valid ≡ true
      → x.tag ≡ tag
      → contents xs tag ≡ some x.lru_count
      → Stepped lines tag now xs hit (set xs i (record x { lru_count = now }))
  unfolding view
  hit-Stepped i x at valid same held =
      let new : Block = record x { lru_count = now } in
      record {
        step =
            reuse (ground arith)
              (λ t. ground (arith, contents-set new valid xs i at v.distinct (inr (valid, refl)) t))
              (ground (arith, count_valid-set xs i new at));
        valid = record {
          lines_eq = length-set xs i new ∙ v.lines_eq;
          distinct = TagsDistinct-set new valid xs i at v.distinct (inr (valid, refl));
          stamped =
              All-set (Stamped (now + 1)) xs i new (Stamped-later now xs v.stamped)
                (ground arith, ground arith, omega arith);
        };
      }

  module _ (i : ℕ) (x : Block) (at : get_elem? xs i ≡ some x)
      (absent : contents xs tag ≡ none) where
    abbrev loaded : Block
    loaded = record { valid = true; tag = tag; lru_count = now }

    loaded-IsValid : IsValid lines (now + 1) (set xs i loaded)
    loaded-IsValid = record {
      lines_eq = length-set xs i loaded ∙ v.lines_eq;
      distinct = TagsDistinct-set loaded refl xs i at v.distinct (inl absent);
      stamped =
          All-set (Stamped (now + 1)) xs i loaded (Stamped-later now xs v.stamped)
            (ground arith, ground arith, omega arith);
    }

    miss-Stepped : x.valid ≡ false → Stepped lines tag now xs miss (set xs i loaded)
    unfolding view
    miss-Stepped invalid = record {
      step =
          fill absent (omega (arith, count_valid-lt xs i at invalid, v.lines_eq))
            (λ t. ground (arith, contents-set loaded refl xs i at v.distinct (inl absent) t))
            (ground (arith, count_valid-set xs i loaded at));
      valid = loaded-IsValid;
    }

    eviction-Stepped :
        x.valid ≡ true
        → All (λ y. x.lru_count ≤ y.lru_count) xs
        → Stepped lines tag now xs eviction (set xs i loaded)
    unfolding view
    eviction-Stepped valid least =
        let used : 0 < x.lru_count = (All-get_elem? (Stamped now) xs i v.stamped at).0 valid in
        record {
          step =
              replace x.tag x.lru_count absent
                (count_valid-full now x.lru_count xs v.stamped used least ∙ v.lines_eq)
                (contents-valid xs i v.distinct at valid)
                (λ t d. All-contents x.lru_count xs t d least)
                (λ t. ground (arith, contents-set loaded refl xs i at v.distinct (inl absent) t))
                (ground (arith, count_valid-set xs i loaded at));
          valid = loaded-IsValid;
        }

pub access_blocks-hit :
    (tag now : ℕ) (xs : List Block) (i : ℕ) {x : Block}
    → find_block tag xs ≡ some i
    → get_elem? xs i ≡ some x
    → access_blocks tag now xs ≡ some (hit, set xs i (record x { lru_count = now }))
unfolding access_blocks
access_blocks-hit tag now xs i found at = ground arith

pub access_blocks-miss :
    (tag now : ℕ) (xs : List Block) {x : Block}
    → find_block tag xs ≡ none
    → get_elem? xs (victim xs) ≡ some x
    → access_blocks tag now xs
      ≡ some (
        if x.valid then eviction else miss,
        set xs (victim xs) (record { valid = true; tag = tag; lru_count = now }),
      )
unfolding access_blocks
access_blocks-miss tag now xs found at = ground arith

-- The result of an access: it succeeds, and is a step of the abstract set.
abbrev pub Accessed : ℕ → ℕ → ℕ → List Block → Type 0
Accessed lines tag now xs =
    (o : Outcome) × (ys : List Block) × (access_blocks tag now xs ≡ some (o, ys))
    × Stepped lines tag now xs o ys

module _ (lines tag now : ℕ) (xs : List Block) (v : IsValid lines now xs) (pos : 0 < now) where
  Accessed-found : (i : ℕ) → find_block tag xs ≡ some i → Accessed lines tag now xs
  Accessed-found i found =
      let (x, at, valid, same, held) = find_block-some tag xs i found in
      (
        hit,
        set xs i (record x { lru_count = now }),
        access_blocks-hit tag now xs i found at,
        hit-Stepped lines tag now xs v pos i x at valid same held,
      )

  Accessed-absent :
      (x : Block)
      → find_block tag xs ≡ none
      → get_elem? xs (victim xs) ≡ some x
      → All (λ y. x.lru_count ≤ y.lru_count) xs
      → Accessed lines tag now xs
  Accessed-absent x missing at least =
      let absent = find_block-none tag xs missing in
      let ys = set xs (victim xs) (record { valid = true; tag = tag; lru_count = now }) in
      elim (Bool-cases x.valid) [
        | inl valid ↦ (
          eviction,
          ys,
          rw (access_blocks-miss tag now xs missing at, valid),
          eviction-Stepped lines tag now xs v pos (victim xs) x at absent valid least,
        )
        | inr invalid ↦ (
          miss,
          ys,
          rw (access_blocks-miss tag now xs missing at, invalid),
          miss-Stepped lines tag now xs v pos (victim xs) x at absent invalid,
        )
      ]

pub access_blocks-Stepped :
    (lines tag now : ℕ) (xs : List Block)
    → IsValid lines now xs
    → 0 < lines
    → 0 < now
    → now < 2 ^ 31
    → Accessed lines tag now xs
access_blocks-Stepped lines tag now [] v some_line pos small = absurd (omega (arith, v.lines_eq))
access_blocks-Stepped lines tag now (y ∷ xs) v some_line pos small =
    elim (Option-cases (find_block tag (y ∷ xs))) [
      | inr (i, found) ↦ Accessed-found lines tag now (y ∷ xs) v pos i found
      | inl absent ↦
          let (x, at, least) = victim-least y xs (small_of_Stamped now (y ∷ xs) small v.stamped) in
          Accessed-absent lines tag now (y ∷ xs) v pos x absent at least
    ]
