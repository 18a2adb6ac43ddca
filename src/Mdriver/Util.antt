-- ===== src/Mdriver/Util.antt =====
-- `eval_mm_util` and `eval_mm_speed` of ASSN/ASSN6/mdriver.c.
use csed.Prelude.{ℕ, true, false, none, some, List, [], ◌∷◌, if◌then◌else◌, get_elem?, set}
use csed.Prelude.Words.{int_add, int_neg, int_lt}
use csed.Mdriver.{Op, alloc, realloc, free, Package}

-- The local variables of `eval_mm_util`, with the heap and the arrays of the trace.
pub record Usage (S : Type 0) : Type 0 where
  pub heap : S
  pub blocks : List ℕ
  pub block_sizes : List ℕ
  pub total_size : ℕ
  pub max_total_size : ℕ

-- How the requests end: `app_error` exits, and an index behind the arrays is undefined.
pub data Outcome (A : Type 0) : Type 0 where
  finished : A → Outcome A
  app_error : Outcome A
  undefined : Outcome A

infixl 5 ◌>>=◌
abbrev pub ◌>>=◌ : {A B : Type 0} → Outcome A → (A → Outcome B) → Outcome B
finished a >>= k = k a
app_error >>= k = app_error
undefined >>= k = undefined

-- `max_total_size = (total_size > max_total_size) ? total_size : max_total_size`, on `int`s.
unfoldable pub int_max : ℕ → ℕ → ℕ
int_max a b = if int_lt b a then a else b

module _ {S : Type 0} (mm : Package S) where
  -- The region and the size are remembered, and the sizes that are held are counted.
  unfoldable pub count_block : ℕ → ℕ → ℕ → ℕ → S → Usage S → Usage S
  count_block index size p total heap u = record {
    heap = heap;
    blocks = set u.blocks index p;
    block_sizes = set u.block_sizes index size;
    total_size = total;
    max_total_size = int_max total u.max_total_size;
  }

  unfoldable pub util_alloc : ℕ → ℕ → Usage S → Outcome (Usage S)
  util_alloc index size u =
      let (block, heap) = mm.mm_malloc size u.heap in
      elim block [
        | none ↦ app_error
        | some p ↦ elim (get_elem? u.blocks index) [
          | none ↦ undefined
          | some q ↦ finished (count_block index size p (int_add u.total_size size) heap u)
        ]
      ]

  unfoldable pub util_realloc : ℕ → ℕ → ℕ → ℕ → Usage S → Outcome (Usage S)
  util_realloc index newsize oldp oldsize u =
      let (block, heap) = mm.mm_realloc oldp newsize u.heap in
      elim block [
        | none ↦ app_error
        | some newp ↦ finished (
            count_block index newsize newp
              (int_add u.total_size (int_add newsize (int_neg oldsize))) heap u)
      ]

  unfoldable pub util_free : ℕ → ℕ → Usage S → Usage S
  util_free p size u = record u {
    heap = mm.mm_free p u.heap;
    total_size = int_add u.total_size (int_neg size);
  }

  unfoldable pub util_op : Op → Usage S → Outcome (Usage S)
  util_op (alloc index size) u = util_alloc index size u
  util_op (realloc index newsize) u = elim (get_elem? u.blocks index) [
    | none ↦ undefined
    | some oldp ↦ elim (get_elem? u.block_sizes index) [
      | none ↦ undefined
      | some oldsize ↦ util_realloc index newsize oldp oldsize u
    ]
  ]
  util_op (free index) u = elim (get_elem? u.blocks index) [
    | none ↦ undefined
    | some p ↦ elim (get_elem? u.block_sizes index) [
      | none ↦ undefined
      | some size ↦ finished (util_free p size u)
    ]
  ]

  unfoldable pub util_ops : List Op → Usage S → Outcome (Usage S)
  util_ops [] u = finished u
  util_ops (op ∷ ops) u = util_op op u >>= util_ops ops

  -- The quotient that is returned, as its two numbers.
  unfoldable pub eval_mm_util : (S → ℕ) → List Op → S → List ℕ → List ℕ → Outcome (ℕ × ℕ)
  eval_mm_util mem_heapsize ops heap blocks block_sizes =
      let (ok, heap') = mm.mm_init (mm.mem_reset_brk heap) in
      elim ok [
        | false ↦ app_error
        | true ↦
            util_ops ops (record {
              heap = heap';
              blocks = blocks;
              block_sizes = block_sizes;
              total_size = 0;
              max_total_size = 0;
            })
            >>= λ u. finished (u.max_total_size, mem_heapsize u.heap)
      ]

  -- `eval_mm_speed` makes the calls alone. Its state is the heap and the array `blocks`.
  unfoldable pub speed_op : Op → S × List ℕ → Outcome (S × List ℕ)
  speed_op (alloc index size) (heap, blocks) =
      let (block, heap') = mm.mm_malloc size heap in
      elim block [
        | none ↦ app_error
        | some p ↦ elim (get_elem? blocks index) [
          | none ↦ undefined
          | some q ↦ finished (heap', set blocks index p)
        ]
      ]
  speed_op (realloc index newsize) (heap, blocks) = elim (get_elem? blocks index) [
    | none ↦ undefined
    | some oldp ↦
        let (block, heap') = mm.mm_realloc oldp newsize heap in
        elim block [ none ↦ app_error | some newp ↦ finished (heap', set blocks index newp) ]
  ]
  speed_op (free index) (heap, blocks) = elim (get_elem? blocks index) [
    | none ↦ undefined
    | some block ↦ finished (mm.mm_free block heap, blocks)
  ]

  unfoldable pub speed_ops : List Op → S × List ℕ → Outcome (S × List ℕ)
  speed_ops [] state = finished state
  speed_ops (op ∷ ops) state = speed_op op state >>= speed_ops ops

  unfoldable pub eval_mm_speed : List Op → S → List ℕ → Outcome (S × List ℕ)
  eval_mm_speed ops heap blocks =
      let (ok, heap') = mm.mm_init (mm.mem_reset_brk heap) in
      elim ok [ false ↦ app_error | true ↦ speed_ops ops (heap', blocks) ]
