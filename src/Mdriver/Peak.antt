-- ===== src/Mdriver/Peak.antt =====
-- The high water mark that `eval_mm_util` of ASSN/ASSN6/mdriver.c computes, against the sizes of
-- the blocks that a trace holds.
use Prim.Native.Nat.{max}
use mathlib.Core.Path.{subst}
use csed.Prelude.{
  ℕ, ◌≡◌, refl, sym, ◌∙◌, arith, Bool, true, false, none, List, [], ◌∷◌, length, replicate,
  length-replicate,
}
use csed.Mdriver.{Op, Package}
use csed.Mdriver.Util.{
  Usage, Outcome, finished, app_error, undefined, ◌>>=◌, util_op, util_ops, eval_mm_util, speed_op,
  speed_ops, eval_mm_speed,
}
use csed.Mdriver.Held.{Live, sum_live, live_after, high_water, TraceOk, sum_live-none, none_held}
use csed.Mdriver.Steps.{Tracks, Steps, Steps-op}

module _ {S : Type 0} (mm : Package S) where
  -- The requests end with the high water mark of the trace, in both functions with the same heap
  -- and blocks, or both with the exit of `app_error`.
  abbrev pub IsMeasured : ℕ → Outcome (Usage S) → Outcome (S × List ℕ) → Type 0
  IsMeasured n (finished u) s = (u.max_total_size ≡ n) × (s ≡ finished (u.heap, u.blocks))
  IsMeasured n app_error s = s ≡ app_error
  IsMeasured n undefined s = ⊥

  -- The same for the two results of a whole evaluation.
  abbrev pub Evaluated : (S → ℕ) → ℕ → Outcome (ℕ × ℕ) → Outcome (S × List ℕ) → Type 0
  Evaluated mem_heapsize n (finished (peak, size)) s =
      (peak ≡ n)
      × (heap : S) × (blocks : List ℕ) × (s ≡ finished (heap, blocks))
      × (size ≡ mem_heapsize heap)
  Evaluated mem_heapsize n app_error s = s ≡ app_error
  Evaluated mem_heapsize n undefined s = ⊥

  util_ops-IsMeasured :
      (ops : List Op) (live : Live) (u : Usage S)
      → Tracks mm live u
      → TraceOk live ops
      → IsMeasured
          (high_water u.max_total_size live ops)
          (util_ops mm ops u)
          (speed_ops mm ops (u.heap, u.blocks))
  unfolding util_ops speed_ops high_water
  util_ops-IsMeasured [] live u t ok = (refl, refl)
  util_ops-IsMeasured (op ∷ ops) live u t ok =
      by_step (util_op mm op u) (speed_op mm op (u.heap, u.blocks))
        (Steps-op mm op live u t ok.0 ok.1)
        (λ u' t'. util_ops-IsMeasured ops (live_after op live) u' t' ok.2)
    where
      by_step :
          (r : Outcome (Usage S)) (s : Outcome (S × List ℕ))
          → Steps mm (live_after op live) u.max_total_size r s
          → ((u' : Usage S)
              → Tracks mm (live_after op live) u'
              → IsMeasured
                  (high_water u'.max_total_size (live_after op live) ops)
                  (util_ops mm ops u')
                  (speed_ops mm ops (u'.heap, u'.blocks)))
          → IsMeasured
              (high_water
                (max u.max_total_size (sum_live (live_after op live)))
                (live_after op live)
                ops)
              (r >>= util_ops mm ops)
              (s >>= speed_ops mm ops)
      by_step (finished u') s (t', peak, same) next = rw same (
          subst
            (λ m.
              IsMeasured (high_water m (live_after op live) ops) (util_ops mm ops u')
                (speed_ops mm ops (u'.heap, u'.blocks)))
            peak (next u' t'))
      by_step app_error s same next = rw same refl
      by_step undefined s no_way next = absurd no_way

  -- The variables at the start, when no block is held.
  abbrev started : S → List ℕ → List ℕ → Usage S
  started heap blocks sizes = record {
    heap = heap;
    blocks = blocks;
    block_sizes = sizes;
    total_size = 0;
    max_total_size = 0;
  }

  started-Tracks :
      (heap : S) (blocks sizes : List ℕ)
      → length sizes ≡ length blocks
      → Tracks mm (replicate (length blocks) none) (started heap blocks sizes)
  started-Tracks heap blocks sizes len = record {
    blocks_length = sym (length-replicate (length blocks) none);
    sizes_length = len ∙ sym (length-replicate (length blocks) none);
    sizes = λ i n at. absurd (none_held (length blocks) i n at);
    total = sym (sum_live-none (length blocks));
    below = omega (arith, sum_live-none (length blocks));
    small = omega arith;
  }

  measure-Evaluated :
      (mem_heapsize : S → ℕ) (n : ℕ) (r : Outcome (Usage S)) (s : Outcome (S × List ℕ))
      → IsMeasured n r s
      → Evaluated mem_heapsize n (r >>= λ u. finished (u.max_total_size, mem_heapsize u.heap)) s
  measure-Evaluated mem_heapsize n (finished u) s (peak, same) =
      (peak, u.heap, u.blocks, same, refl)
  measure-Evaluated mem_heapsize n app_error s same = same
  measure-Evaluated mem_heapsize n undefined s no_way = no_way

  -- For every allocator and every trace that allocates free indices, moves and frees held ones,
  -- and whose held sizes always sum to less than 2 ^ 31: eval_mm_util and eval_mm_speed use no
  -- index behind the arrays, and either both exit with app_error, or eval_mm_util returns the high
  -- water mark of the sizes that the trace holds, over the size of the heap in which eval_mm_speed
  -- ends.
  pub eval_mm_util-Evaluated :
      (mem_heapsize : S → ℕ) (ops : List Op) (heap : S) (blocks sizes : List ℕ)
      → length sizes ≡ length blocks
      → TraceOk (replicate (length blocks) none) ops
      → Evaluated mem_heapsize
          (high_water 0 (replicate (length blocks) none) ops)
          (eval_mm_util mm mem_heapsize ops heap blocks sizes)
          (eval_mm_speed mm ops heap blocks)
  unfolding eval_mm_util eval_mm_speed
  eval_mm_util-Evaluated mem_heapsize ops heap blocks sizes len ok =
      by_init (mm.mm_init (mm.mem_reset_brk heap)).0
    where
      heap' : S
      heap' = (mm.mm_init (mm.mem_reset_brk heap)).1

      by_init :
          (b : Bool)
          → Evaluated mem_heapsize
              (high_water 0 (replicate (length blocks) none) ops)
              (elim b [
                | false ↦ app_error
                | true ↦ util_ops mm ops (started heap' blocks sizes) >>= λ u.
                    finished (u.max_total_size, mem_heapsize u.heap)
              ])
              (elim b [ false ↦ app_error | true ↦ speed_ops mm ops (heap', blocks) ])
      by_init false = refl
      by_init true = measure-Evaluated mem_heapsize _ _ _ (
          util_ops-IsMeasured ops _ (started heap' blocks sizes)
            (started-Tracks heap' blocks sizes len) ok)
