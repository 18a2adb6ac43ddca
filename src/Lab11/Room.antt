-- ===== src/Lab11/Room.antt =====
-- The loop over the processes of Lab/LAB11/lab11.c: each one takes its size from the block that the
-- strategy chooses.
use mathlib.Core.Option.{some-injective, some-ne-none}
use mathlib.Core.Path.{subst}
use csed.Prelude.{
  ℕ, ◌+◌, ◌-◌, ◌≡◌, ◌≢◌, refl, sym, ◌∙◌, Option, none, some, List, [], ◌∷◌, arith, inl, inr,
  Option-cases, length, get_elem?, set, length-set, get_elem?-set_self, get_elem?-set_ne,
  lt_of_get_elem?,
}
use csed.Lab11.{choose_first, choose_best, take_from, allocate}
use csed.Lab11.Choice.{HasRoom, FirstRoom, first_block-FirstRoom}
use csed.Lab11.Best.{Smallest, choose_best-Smallest}

-- The block `i` has lost `size`, and the others are as before.
pub record Taken (size i : ℕ) (before after : List ℕ) : Type 0 where
  pub left : ℕ
  pub at : get_elem? before i ≡ some (left + size)
  pub at' : get_elem? after i ≡ some left
  pub others : (j : ℕ) → j ≢ i → get_elem? after j ≡ get_elem? before j
  pub same_length : length after ≡ length before

-- The processes of the sizes in the list, one after the other: what is picked for each of them,
-- and what is left of the blocks.
pub data Allocation (Pick : ℕ → List ℕ → Option ℕ → Type 0)
    : List ℕ → List ℕ → List (Option ℕ) → List ℕ → Type 0 where
  done : (blocks : List ℕ) → Allocation Pick [] blocks [] blocks
  refused :
      (size : ℕ) (sizes blocks left : List ℕ) (rs : List (Option ℕ))
      → Pick size blocks none
      → Allocation Pick sizes blocks rs left
      → Allocation Pick (size ∷ sizes) blocks (none ∷ rs) left
  placed :
      (size i : ℕ) (sizes blocks next left : List ℕ) (rs : List (Option ℕ))
      → Pick size blocks (some i)
      → Taken size i blocks next
      → Allocation Pick sizes next rs left
      → Allocation Pick (size ∷ sizes) blocks (some i ∷ rs) left

take_from-Taken :
    (size i : ℕ) (blocks : List ℕ)
    → HasRoom size blocks i
    → Taken size i blocks (take_from i size blocks)
unfolding take_from
take_from-Taken size i blocks (x, at, room) = subst (Taken size i blocks) (sym taken) (record {
  left = x - size;
  at = at ∙ whole;
  at' = get_elem?-set_self blocks i (x - size) (lt_of_get_elem? blocks i at);
  others = λ j ne. get_elem?-set_ne blocks i j (x - size) (λ e. ne (sym e));
  same_length = length-set blocks i (x - size);
})
  where
    taken : take_from i size blocks ≡ set blocks i (x - size)
    taken = rw (at, take_from) refl

    whole : some x ≡ some (x - size + size)
    whole = let e : x ≡ x - size + size = omega arith in rw (← e) refl

-- A choice that keeps to `Pick`, which only picks blocks with room.
module _ (Pick : ℕ → List ℕ → Option ℕ → Type 0) (choose : ℕ → List ℕ → Option ℕ)
    (picks : (size : ℕ) (blocks : List ℕ) → Pick size blocks (choose size blocks))
    (has_room : (size i : ℕ) (blocks : List ℕ)
      → Pick size blocks (some i)
      → HasRoom size blocks i) where
  abbrev Allocates : List ℕ → List ℕ → List (Option ℕ) × List ℕ → Type 0
  Allocates sizes blocks r = Allocation Pick sizes blocks r.0 r.1

  allocate-skip :
      (size : ℕ) (sizes blocks : List ℕ)
      → choose size blocks ≡ none
      → allocate choose (size ∷ sizes) blocks
        ≡ (none ∷ (allocate choose sizes blocks).0, (allocate choose sizes blocks).1)
  unfolding allocate
  allocate-skip size sizes blocks e = rw (e, allocate) refl

  allocate-take :
      (size i : ℕ) (sizes blocks : List ℕ)
      → choose size blocks ≡ some i
      → allocate choose (size ∷ sizes) blocks ≡ (
        some i ∷ (allocate choose sizes (take_from i size blocks)).0,
        (allocate choose sizes (take_from i size blocks)).1,
      )
  unfolding allocate
  allocate-take size i sizes blocks e = rw (e, allocate) refl

  allocate-Allocates :
      (sizes blocks : List ℕ) → Allocates sizes blocks (allocate choose sizes blocks)
  allocate-Allocates [] blocks = unfold allocate in done blocks
  allocate-Allocates (size ∷ sizes) blocks = elim (Option-cases (choose size blocks)) [
    | inl e ↦ subst (Allocates (size ∷ sizes) blocks) (sym (allocate-skip size sizes blocks e)) (
        refused size sizes blocks _ _ (subst (Pick size blocks) e (picks size blocks))
          (allocate-Allocates sizes blocks))
    | inr (i, e) ↦
        let pick = subst (Pick size blocks) e (picks size blocks) in
        subst (Allocates (size ∷ sizes) blocks) (sym (allocate-take size i sizes blocks e)) (
          placed size i sizes blocks (take_from i size blocks) _ _ pick
            (take_from-Taken size i blocks (has_room size i blocks pick))
            (allocate-Allocates sizes (take_from i size blocks)))
  ]

choose_first-FirstRoom :
    (size : ℕ) (blocks : List ℕ) → FirstRoom size blocks (choose_first size blocks)
unfolding choose_first
choose_first-FirstRoom = first_block-FirstRoom

FirstRoom-HasRoom :
    (size i : ℕ) (blocks : List ℕ) → FirstRoom size blocks (some i) → HasRoom size blocks i
FirstRoom-HasRoom size i blocks (inl (e, full)) = absurd (some-ne-none i e)
FirstRoom-HasRoom size i blocks (inr (j, e, room, before)) =
    subst (HasRoom size blocks) (sym (some-injective i j e)) room

Smallest-HasRoom :
    (size i : ℕ) (blocks : List ℕ) → Smallest size blocks (some i) → HasRoom size blocks i
Smallest-HasRoom size i blocks (inl (e, full)) = absurd (some-ne-none i e)
Smallest-HasRoom size i blocks (inr (j, x, e, at, room, least, larger)) =
    subst (HasRoom size blocks) (sym (some-injective i j e)) (x, at, room)

-- Both strategies serve the processes one after the other, and each process that gets a block
-- takes its size from that block alone: first gives it the first block with room, best the first
-- of the smallest blocks with room, and a process gets none only where no block has room then.
pub allocate-Allocation :
    (sizes blocks : List ℕ)
    → Allocation FirstRoom sizes blocks
        (allocate choose_first sizes blocks).0
        (allocate choose_first sizes blocks).1
      × Allocation Smallest sizes blocks
          (allocate choose_best sizes blocks).0
          (allocate choose_best sizes blocks).1
allocate-Allocation sizes blocks = (
  allocate-Allocates FirstRoom choose_first choose_first-FirstRoom FirstRoom-HasRoom sizes blocks,
  allocate-Allocates Smallest choose_best choose_best-Smallest Smallest-HasRoom sizes blocks,
)
