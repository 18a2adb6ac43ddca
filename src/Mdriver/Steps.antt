-- ===== src/Mdriver/Steps.antt =====
-- A request of `eval_mm_util` and `eval_mm_speed` of ASSN/ASSN6/mdriver.c against the blocks that are
-- held.
use Prim.Native.Nat.{max}
use mathlib.Core.Path.{subst}
use csed.Prelude.{
  ℕ, ◌^◌, ◌≤◌, ◌<◌, ◌≡◌, refl, sym, ap, ◌∙◌, arith, Option, none, some, List, get_elem?, set,
  length, length-set, get_elem?-set_self, get_elem?-set_ne, get_elem?-some_of_lt, lt_of_get_elem?,
}
use mathlib.Core.Option.{some-injective}
use native.Mathlib.Decide.{ℕ_discrete}
use csed.Prelude.Words.{int_add, int_neg}
use csed.Mdriver.{Op, alloc, realloc, free, Package}
use csed.Mdriver.Util.{
  Usage, Outcome, finished, app_error, undefined, int_max, count_block, util_alloc, util_realloc,
  util_free, util_op, speed_op,
}
use csed.Mdriver.Held.{Live, sum_live, live_after, OpOk, sum_live-set, int_max-max}

module _ {S : Type 0} (mm : Package S) where
  -- The variables of `eval_mm_util` against the blocks that are held.
  pub record Tracks (live : Live) (u : Usage S) : Type 0 where
    pub blocks_length : length u.blocks ≡ length live
    pub sizes_length : length u.block_sizes ≡ length live
    pub sizes : (i n : ℕ) → get_elem? live i ≡ some (some n) → get_elem? u.block_sizes i ≡ some n
    pub total : u.total_size ≡ sum_live live
    pub below : sum_live live ≤ u.max_total_size
    pub small : u.max_total_size < 2 ^ 31

  -- A step that `eval_mm_util` and `eval_mm_speed` make together.
  abbrev pub Steps : Live → ℕ → Outcome (Usage S) → Outcome (S × List ℕ) → Type 0
  Steps live m (finished u) s =
      Tracks live u × (u.max_total_size ≡ max m (sum_live live)) × (s ≡ finished (u.heap, u.blocks))
  Steps live m app_error s = s ≡ app_error
  Steps live m undefined s = ⊥

  sizes-set :
      (live : Live) (sizes : List ℕ) (i n : ℕ)
      → length sizes ≡ length live
      → i < length live
      → ((j m : ℕ) → get_elem? live j ≡ some (some m) → get_elem? sizes j ≡ some m)
      → (j m : ℕ) → get_elem? (set live i (some n)) j ≡ some (some m)
      → get_elem? (set sizes i n) j ≡ some m
  sizes-set live sizes i n len lt h j m at = elim (ℕ_discrete i j) [
    | yes same ↦
        subst (λ k. get_elem? (set sizes i n) k ≡ some m) same
          (self (subst (λ k. get_elem? (set live i (some n)) k ≡ some (some m)) (sym same) at))
    | no ne ↦
        get_elem?-set_ne sizes i j n ne ∙ h j m (sym (get_elem?-set_ne live i j (some n) ne) ∙ at)
  ]
    where
      self :
          get_elem? (set live i (some n)) i ≡ some (some m) → get_elem? (set sizes i n) i ≡ some m
      self e =
          get_elem?-set_self sizes i n (omega (arith, len, lt))
          ∙ some-injective _ _ (sym (get_elem?-set_self live i (some n) lt) ∙ e)

  count_block-Tracks :
      (live : Live) (u : Usage S) (i n p : ℕ) (heap : S) {old : Option ℕ} (total : ℕ)
      → Tracks live u
      → get_elem? live i ≡ some old
      → total ≡ sum_live (set live i (some n))
      → sum_live (set live i (some n)) < 2 ^ 31
      → Tracks (set live i (some n)) (count_block mm i n p total heap u)
        × ((count_block mm i n p total heap u).max_total_size
            ≡ max u.max_total_size (sum_live (set live i (some n))))
  unfolding count_block
  count_block-Tracks live u i n p heap total t at e small = (
    record {
      blocks_length = length-set u.blocks i p ∙ t.blocks_length ∙ sym (length-set live i (some n));
      sizes_length =
          length-set u.block_sizes i n ∙ t.sizes_length ∙ sym (length-set live i (some n));
      sizes = sizes-set live u.block_sizes i n t.sizes_length (lt_of_get_elem? live i at) t.sizes;
      total = e;
      below = omega (arith, peak);
      small = omega (arith, peak, t.small);
    },
    peak,
  )
    where
      peak : int_max total u.max_total_size ≡ max u.max_total_size (sum_live (set live i (some n)))
      peak =
          ap (λ (k : ℕ). int_max k u.max_total_size) e
          ∙ int_max-max (sum_live (set live i (some n))) u.max_total_size small t.small

  module _ (live : Live) (u : Usage S) (t : Tracks live u) (i : ℕ) where
    -- The slot of an index that the trace uses.
    block_at :
        {o : Option ℕ} → get_elem? live i ≡ some o → (p : ℕ) × (get_elem? u.blocks i ≡ some p)
    block_at at =
        get_elem?-some_of_lt u.blocks i (omega (arith, t.blocks_length, lt_of_get_elem? live i at))

    alloc-Steps :
        (n : ℕ)
        → get_elem? live i ≡ some none
        → sum_live (set live i (some n)) < 2 ^ 31
        → Steps
            (set live i (some n))
            u.max_total_size
            (util_op mm (alloc i n) u)
            (speed_op mm (alloc i n) (u.heap, u.blocks))
    unfolding util_op util_alloc speed_op
    alloc-Steps n at small =
        let (q, held) = block_at at in by_block (mm.mm_malloc n u.heap).0 q held
      where
        sums : int_add u.total_size n ≡ sum_live (set live i (some n))
        sums = unfold int_add in omega (arith, t.total, sum_live-set live i (some n) at)

        by_block :
            (b : Option ℕ) (q : ℕ)
            → get_elem? u.blocks i ≡ some q
            → Steps
                (set live i (some n))
                u.max_total_size
                (elim b [
                  | none ↦ app_error
                  | some p ↦ elim (get_elem? u.blocks i) [
                    | none ↦ undefined
                    | some q ↦
                        finished (
                          count_block mm i n p (int_add u.total_size n) (mm.mm_malloc n u.heap).1 u)
                  ]
                ])
                (elim b [
                  | none ↦ app_error
                  | some p ↦ elim (get_elem? u.blocks i) [
                    | none ↦ undefined
                    | some q ↦ finished ((mm.mm_malloc n u.heap).1, set u.blocks i p)
                  ]
                ])
        by_block none q held = refl
        by_block (some p) q held = rw held (
            let (tracks, peak) =
              count_block-Tracks live u i n p (mm.mm_malloc n u.heap).1 (int_add u.total_size n) t
                at sums small in
            (tracks, peak, unfold count_block in refl))

    abbrev moved_total : ℕ → ℕ → ℕ → ℕ
    moved_total total n old = int_add total (int_add n (int_neg old))

    realloc-Steps :
        (n old : ℕ)
        → get_elem? live i ≡ some (some old)
        → sum_live (set live i (some n)) < 2 ^ 31
        → Steps
            (set live i (some n))
            u.max_total_size
            (util_op mm (realloc i n) u)
            (speed_op mm (realloc i n) (u.heap, u.blocks))
    unfolding util_realloc
    realloc-Steps n old at small =
        let (q, held) = block_at at in
        let util_eq : util_op mm (realloc i n) u ≡ util_realloc mm i n q old u =
          unfold util_op in rw (held, t.sizes i old at, util_op) refl in
        let speed_eq : speed_op mm (realloc i n) (u.heap, u.blocks)
            ≡ elim (mm.mm_realloc q n u.heap).0 [
              | none ↦ app_error
              | some p ↦ finished ((mm.mm_realloc q n u.heap).1, set u.blocks i p)
            ] =
          unfold speed_op in rw (held, speed_op) refl in
        rw (util_eq, speed_eq) (by_block q (mm.mm_realloc q n u.heap).0)
      where
        sums : moved_total u.total_size n old ≡ sum_live (set live i (some n))
        sums =
            unfold int_add int_neg in
            omega (
              arith,
              t.total,
              t.below,
              t.small,
              sum_live-set live i (some n) at,
              sum_live-set live i none at,
            )

        by_block :
            (q : ℕ) (b : Option ℕ)
            → Steps
                (set live i (some n))
                u.max_total_size
                (elim b [
                  | none ↦ app_error
                  | some p ↦ finished (
                      count_block mm i n p
                        (moved_total u.total_size n old)
                        (mm.mm_realloc q n u.heap).1
                        u)
                ])
                (elim b [
                  | none ↦ app_error
                  | some p ↦ finished ((mm.mm_realloc q n u.heap).1, set u.blocks i p)
                ])
        by_block q none = refl
        by_block q (some p) =
            let (tracks, peak) =
              count_block-Tracks live u i n p (mm.mm_realloc q n u.heap).1
                (moved_total u.total_size n old) t at sums small in
            (tracks, peak, unfold count_block in refl)

    free-sizes :
        {old : Option ℕ}
        → get_elem? live i ≡ some old
        → (j m : ℕ) → get_elem? (set live i none) j ≡ some (some m)
        → get_elem? u.block_sizes j ≡ some m
    free-sizes held j m at = elim (ℕ_discrete i j) [
      | yes same ↦
          absurd (freed (subst (λ k. get_elem? (set live i none) k ≡ some (some m)) (sym same) at))
      | no ne ↦ t.sizes j m (sym (get_elem?-set_ne live i j none ne) ∙ at)
    ]
      where
        freed : get_elem? (set live i none) i ≡ some (some m) → ⊥
        freed e = cc (sym (get_elem?-set_self live i none (lt_of_get_elem? live i held)) ∙ e)

    free-Tracks :
        (q old : ℕ)
        → get_elem? live i ≡ some (some old)
        → Tracks (set live i none) (util_free mm q old u)
    unfolding util_free
    free-Tracks q old at = record {
      blocks_length = t.blocks_length ∙ sym (length-set live i none);
      sizes_length = t.sizes_length ∙ sym (length-set live i none);
      sizes = free-sizes at;
      total =
          unfold int_add int_neg in
          omega (arith, t.total, t.below, t.small, sum_live-set live i none at);
      below = omega (arith, t.below, sum_live-set live i none at);
      small = t.small;
    }

    free-Steps :
        (old : ℕ)
        → get_elem? live i ≡ some (some old)
        → Steps
            (set live i none)
            u.max_total_size
            (util_op mm (free i) u)
            (speed_op mm (free i) (u.heap, u.blocks))
    free-Steps old at =
        let (q, held) = block_at at in
        let util_eq : util_op mm (free i) u ≡ finished (util_free mm q old u) =
          unfold util_op in rw (held, t.sizes i old at, util_op) refl in
        let speed_eq : speed_op mm (free i) (u.heap, u.blocks)
            ≡ finished (mm.mm_free q u.heap, u.blocks) =
          unfold speed_op in rw (held, speed_op) refl in
        rw (util_eq, speed_eq)
          (
            free-Tracks q old at,
            unfold util_free in omega (arith, t.below, sum_live-set live i none at),
            unfold util_free in refl,
          )

  pub Steps-op :
      (op : Op) (live : Live) (u : Usage S)
      → Tracks live u
      → OpOk op live
      → sum_live (live_after op live) < 2 ^ 31
      → Steps
          (live_after op live)
          u.max_total_size
          (util_op mm op u)
          (speed_op mm op (u.heap, u.blocks))
  unfolding live_after
  Steps-op (alloc i n) live u t ok small = alloc-Steps live u t i n ok small
  Steps-op (realloc i n) live u t ok small = realloc-Steps live u t i n ok.0 ok.1 small
  Steps-op (free i) live u t ok small = free-Steps live u t i ok.0 ok.1
