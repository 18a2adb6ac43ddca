-- ===== src/Mdriver/Trace.antt =====
-- `read_trace` of ASSN/ASSN6/mdriver.c. The requests are what `fscanf` reads: the first letter, the
-- index and the size.
use mathlib.Core.Option.{some-injective}
use mathlib.Core.Path.{subst}
use csed.Prelude.{
  ℕ, ◌+◌, ◌-◌, ◌%◌, ◌^◌, ◌≤◌, ◌<◌, ◌≡◌, refl, ◌∙◌, sym, ap, Bool, true, ◌&&◌, Option, none, some,
  List, [], ◌∷◌, arith, ltb, ◌==◌, if◌then◌else◌, inl, inr, Bool-cases, Option-cases, All, length,
}
use csed.Mdriver.{Op, alloc, realloc, free}

pub record Request : Type 0 where
  pub letter : ℕ
  pub index : ℕ
  pub size : ℕ

-- The operation of a request, none where the letter is bogus.
unfoldable pub op_of : Request → Option Op
op_of q =
    if q.letter == b'a'
    then some (alloc q.index q.size)
    else if q.letter == b'r'
    then some (realloc q.index q.size)
    else if q.letter == b'f'
    then some (free q.index)
    else none

-- `max_index` behind an operation: the index of `free` does not count.
unfoldable pub next_max : ℕ → Op → ℕ
next_max max (alloc index size) = if ltb max index then index else max
next_max max (realloc index size) = if ltb max index then index else max
next_max max (free index) = max

-- The loop: the operations, and the last `max_index`.
unfoldable pub read_ops : ℕ → List Request → Option (List Op × ℕ)
read_ops max [] = some ([], max)
read_ops max (q ∷ qs) = elim (op_of q) [
  | none ↦ none
  | some op ↦ elim (read_ops (next_max max op) qs) [ none ↦ none | some r ↦ some (op ∷ r.0, r.1) ]
]

-- The trace that is returned, or the exit on a bogus letter, or a failed assertion. More requests
-- than `num_ops` are stored behind the array before the assertion fails.
pub data Reading : Type 0 where
  read : List Op → Reading
  bogus failed : Reading

unfoldable pub read_trace : ℕ → ℕ → List Request → Reading
read_trace num_ids num_ops requests = elim (read_ops 0 requests) [
  | none ↦ bogus
  | some r ↦
      if r.1 == (num_ids + 2 ^ 32 - 1) % 2 ^ 32 && num_ops == length r.0 then read r.0 else failed
]

-- The block of an allocation stands in an array of `n` blocks.
abbrev pub InRange : ℕ → Op → Type 0
InRange n (alloc index size) = index < n
InRange n (realloc index size) = index < n
InRange n (free index) = Unit

-- The last `max_index` is at least the first one and the indices of the allocations.
abbrev Bounded : ℕ → List Op × ℕ → Type 0
Bounded max r = (max ≤ r.1) × All (InRange (r.1 + 1)) r.0

next_max-bounds :
    (max top : ℕ) (op : Op) → next_max max op ≤ top → (max ≤ top) × InRange (top + 1) op
unfolding next_max
next_max-bounds max top (alloc index size) h = (ground arith, ground arith)
next_max-bounds max top (realloc index size) h = (ground arith, ground arith)
next_max-bounds max top (free index) h = (h, tt)

read_ops-cons :
    (max : ℕ) (q : Request) (qs : List Request) (op : Op) (r : List Op × ℕ)
    → op_of q ≡ some op
    → read_ops (next_max max op) qs ≡ some r
    → read_ops max (q ∷ qs) ≡ some (op ∷ r.0, r.1)
unfolding read_ops
read_ops-cons max q qs op r e e' = rw (e, read_ops) (rw (e', read_ops) refl)

read_ops-bogus :
    (max : ℕ) (q : Request) (qs : List Request) → op_of q ≡ none → read_ops max (q ∷ qs) ≡ none
unfolding read_ops
read_ops-bogus max q qs e = rw (e, read_ops) refl

read_ops-late :
    (max : ℕ) (q : Request) (qs : List Request) (op : Op)
    → op_of q ≡ some op
    → read_ops (next_max max op) qs ≡ none
    → read_ops max (q ∷ qs) ≡ none
unfolding read_ops
read_ops-late max q qs op e e' = rw (e, read_ops) (rw (e', read_ops) refl)

read_ops-Bounded :
    (max : ℕ) (qs : List Request) (r : List Op × ℕ) → read_ops max qs ≡ some r → Bounded max r
unfolding read_ops
read_ops-Bounded max [] r h = subst (Bounded max) (some-injective _ _ h) (omega arith, tt)
read_ops-Bounded max (q ∷ qs) r h = elim (Option-cases (op_of q)) [
  | inl bad ↦ absurd (cc (read_ops-bogus max q qs bad))
  | inr (op, e) ↦ elim (Option-cases (read_ops (next_max max op) qs)) [
    | inl bad ↦ absurd (cc (read_ops-late max q qs op e bad))
    | inr (r', e') ↦
        let (le, all) = read_ops-Bounded (next_max max op) qs r' e' in
        let (low, here) = next_max-bounds max r'.1 op le in
        subst (Bounded max) (some-injective _ _ (sym (read_ops-cons max q qs op r' e e') ∙ h))
          (low, (here, all))
  ]
]

module _ (num_ids num_ops : ℕ) (requests : List Request) where
  -- Both assertions.
  abbrev holds : List Op × ℕ → Bool
  holds r = r.1 == (num_ids + 2 ^ 32 - 1) % 2 ^ 32 && num_ops == length r.0

  read_trace-eq :
      (r : List Op × ℕ)
      → read_ops 0 requests ≡ some r
      → read_trace num_ids num_ops requests ≡ (if holds r then read r.0 else failed)
  unfolding read_trace
  read_trace-eq r e = rw (e, read_trace) refl

  read_trace-bogus : read_ops 0 requests ≡ none → read_trace num_ids num_ops requests ≡ bogus
  unfolding read_trace
  read_trace-bogus e = rw (e, read_trace) refl

  read_injective : (ops ops' : List Op) → read ops ≡ read ops' → ops ≡ ops'
  read_injective ops ops' h = ap (λ x. elim x [ read xs ↦ xs | bogus ↦ [] | failed ↦ [] ]) h

  read_trace-read :
      (ops : List Op)
      → read_trace num_ids num_ops requests ≡ read ops
      → (r : List Op × ℕ) × (read_ops 0 requests ≡ some r) × (holds r ≡ true) × (r.0 ≡ ops)
  read_trace-read ops h = elim (Option-cases (read_ops 0 requests)) [
    | inl bad ↦ absurd (cc (sym (read_trace-bogus bad) ∙ h))
    | inr (r, e) ↦ elim (Bool-cases (holds r)) [
      | inr bad ↦
          let wrong : failed ≡ read ops = rw bad at (sym (read_trace-eq r e) ∙ h) in
          absurd (cc wrong)
      | inl good ↦
          let same : read r.0 ≡ read ops = rw good at (sym (read_trace-eq r e) ∙ h) in
          (r, e, good, read_injective r.0 ops same)
    ]
  ]

  -- When `read_trace` returns a trace with a positive number of identifiers below 2^31, it has the
  -- number of operations that the file promises, and each allocation and reallocation has an index
  -- below the number of identifiers.
  pub read_trace-InRange :
      (ops : List Op)
      → 0 < num_ids
      → num_ids < 2 ^ 31
      → read_trace num_ids num_ops requests ≡ read ops
      → (length ops ≡ num_ops) × All (InRange num_ids) ops
  read_trace-InRange ops pos small h =
      let (r, e, good, same) = read_trace-read ops h in
      let count : length r.0 ≡ num_ops = ground arith in
      let last : r.1 + 1 ≡ num_ids = ground arith in
      let all : All (InRange (r.1 + 1)) r.0 = (read_ops-Bounded 0 requests r e).1 in
      (
        ap length (sym same) ∙ count,
        subst (All (InRange num_ids)) same (subst (λ x. All (InRange x) r.0) last all),
      )
