-- ===== src/Mdriver/Checked.antt =====
-- A trace that `eval_mm_valid` of ASSN/ASSN6/mdriver.c finds valid.
use mathlib.Core.Path.{subst}
use csed.Prelude.{
  ℕ, ◌≡◌, refl, Bool, true, false, Option, none, some, List, [], ◌∷◌, ltb, ◌%◌, if◌then◌else◌,
  get_elem?,
}
use csed.Mdriver.{
  Range, Fault, Added, added, refused, aborted, remove_range, Op, alloc, realloc, free, Package,
  Run, Verdict, valid, invalid, undefined, all_bytes,
}
use csed.Mdriver.Ranges.{Loose, add_range-Loose, remove_range-Loose}
use csed.Mdriver.Valid.{
  check, remember, valid_alloc, moved, valid_realloc, valid_free, valid_op, valid_ops,
  eval_mm_valid,
}

-- What is left of a run that is valid so far.
abbrev pub KeepsLoose : {S : Type 0} → Verdict S → Type 0
KeepsLoose (valid r) = Loose r.ranges
KeepsLoose (invalid fault) = Unit
KeepsLoose undefined = Unit

module _ {S : Type 0} (mm : Package S) where
  -- A payload that is checked before the run goes on.
  module _ (heap : S) (ranges : List Range) (p size : ℕ) (l : Loose ranges) where
    checked-KeepsLoose :
        (a : Added)
        → check mm heap ranges p size ≡ a
        → (next : List Range → Verdict S) → ((new : List Range) → Loose new → KeepsLoose (next new))
        → KeepsLoose
            (elim a [ aborted ↦ undefined | refused fault ↦ invalid fault | added new ↦ next new ])
    checked-KeepsLoose aborted e next k = tt
    checked-KeepsLoose (refused fault) e next k = tt
    checked-KeepsLoose (added new) e next k =
        k new (add_range-Loose ranges p size (mm.heap_lo heap) (mm.heap_hi heap) new e l)

  remember-Loose :
      (index size p : ℕ) (ranges : List Range) (heap : S) (r : Run S)
      → Loose ranges
      → KeepsLoose (valid (remember mm index size p ranges heap r))
  unfolding remember
  remember-Loose index size p ranges heap r l = l

  module _ (r : Run S) (l : Loose r.ranges) where
    valid_alloc-KeepsLoose : (index size : ℕ) → KeepsLoose (valid_alloc mm index size r)
    unfolding valid_alloc
    valid_alloc-KeepsLoose index size = by_block (mm.mm_malloc size r.heap).0
      where
        by_block :
            (block : Option ℕ)
            → KeepsLoose (elim block [
              | none ↦ invalid Fault.malloc_failed
              | some p ↦ elim (check mm (mm.mm_malloc size r.heap).1 r.ranges p size) [
                | aborted ↦ undefined
                | refused fault ↦ invalid fault
                | added ranges ↦
                    valid (remember mm index size p ranges (mm.mm_malloc size r.heap).1 r)
              ]
            ])
        by_block none = tt
        by_block (some p) =
            checked-KeepsLoose (mm.mm_malloc size r.heap).1 r.ranges p size l _ refl _
              λ new l'. remember-Loose index size p new _ r l'

    data_KeepsLoose :
        (kept : Bool) (r' : Run S)
        → Loose r'.ranges
        → KeepsLoose (if kept then valid r' else invalid Fault.data_lost)
    data_KeepsLoose true r' l' = l'
    data_KeepsLoose false r' l' = tt

    moved-KeepsLoose :
        (index size oldp old_size newp : ℕ) (heap : S)
        → KeepsLoose (moved mm index size oldp old_size newp heap r)
    unfolding moved
    moved-KeepsLoose index size oldp old_size newp heap =
        checked-KeepsLoose heap (remove_range r.ranges oldp) newp size
          (remove_range-Loose r.ranges oldp l) _ refl _
          λ new l'.
            data_KeepsLoose
              (all_bytes (mm.byte heap) newp (index % 256)
                (if ltb size old_size then size else old_size))
              _ (remember-Loose index size newp new heap r l')

    valid_realloc-KeepsLoose :
        (index size oldp old_size : ℕ) → KeepsLoose (valid_realloc mm index size oldp old_size r)
    unfolding valid_realloc
    valid_realloc-KeepsLoose index size oldp old_size = by_block (mm.mm_realloc oldp size r.heap).0
      where
        by_block :
            (block : Option ℕ)
            → KeepsLoose (elim block [
              | none ↦ invalid Fault.realloc_failed
              | some newp ↦
                  moved mm index size oldp old_size newp (mm.mm_realloc oldp size r.heap).1 r
            ])
        by_block none = tt
        by_block (some newp) = moved-KeepsLoose index size oldp old_size newp _

    valid_free-KeepsLoose : (p : ℕ) → KeepsLoose (valid (valid_free mm p r))
    unfolding valid_free
    valid_free-KeepsLoose p = remove_range-Loose r.ranges p l

    valid_op-KeepsLoose : (op : Op) → KeepsLoose (valid_op mm op r)
    unfolding valid_op
    valid_op-KeepsLoose (alloc index size) = by_slot (get_elem? r.blocks index)
      where
        by_slot :
            (slot : Option ℕ)
            → KeepsLoose (elim slot [ none ↦ undefined | some p ↦ valid_alloc mm index size r ])
        by_slot none = tt
        by_slot (some p) = valid_alloc-KeepsLoose index size
    valid_op-KeepsLoose (realloc index size) =
        by_slot (get_elem? r.blocks index) (get_elem? r.block_sizes index)
      where
        by_slot :
            (slot slot' : Option ℕ)
            → KeepsLoose (elim slot [
              | none ↦ undefined
              | some oldp ↦ elim slot' [
                | none ↦ undefined
                | some old_size ↦ valid_realloc mm index size oldp old_size r
              ]
            ])
        by_slot none slot' = tt
        by_slot (some oldp) none = tt
        by_slot (some oldp) (some old_size) = valid_realloc-KeepsLoose index size oldp old_size
    valid_op-KeepsLoose (free index) = by_slot (get_elem? r.blocks index)
      where
        by_slot :
            (slot : Option ℕ)
            → KeepsLoose (elim slot [ none ↦ undefined | some p ↦ valid (valid_free mm p r) ])
        by_slot none = tt
        by_slot (some p) = valid_free-KeepsLoose p

  valid_ops-KeepsLoose :
      (ops : List Op) (r : Run S) → Loose r.ranges → KeepsLoose (valid_ops mm ops r)
  unfolding valid_ops
  valid_ops-KeepsLoose [] r l = l
  valid_ops-KeepsLoose (op ∷ ops) r l =
      by_step (valid_ops-KeepsLoose ops) (valid_op mm op r) (valid_op-KeepsLoose r l op)
    where
      by_step :
          ((r' : Run S) → Loose r'.ranges → KeepsLoose (valid_ops mm ops r'))
          → (v : Verdict S) → KeepsLoose v
          → KeepsLoose (elim v [
            | valid r' ↦ valid_ops mm ops r'
            | invalid fault ↦ invalid fault
            | undefined ↦ undefined
          ])
      by_step rest (valid r') l' = rest r' l'
      by_step rest (invalid fault) l' = tt
      by_step rest undefined l' = tt

  -- Whatever the allocator does, when `eval_mm_valid` finds a trace valid, the payloads that are
  -- then live are aligned and not empty, and each is apart from the ones before it in time or
  -- encloses them at both ends.
  pub eval_mm_valid-Loose :
      (ops : List Op) (r r' : Run S) → eval_mm_valid mm ops r ≡ valid r' → Loose r'.ranges
  unfolding eval_mm_valid
  eval_mm_valid-Loose ops r r' h =
      subst KeepsLoose h (by_init (mm.mm_init (mm.mem_reset_brk r.heap)).0)
    where
      by_init :
          (ok : Bool)
          → KeepsLoose (elim ok [
            | false ↦ invalid Fault.init_failed
            | true ↦
                valid_ops mm ops
                  (record r { heap = (mm.mm_init (mm.mem_reset_brk r.heap)).1; ranges = [] })
          ])
      by_init false = tt
      by_init true = valid_ops-KeepsLoose ops _ tt
