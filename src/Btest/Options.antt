-- ===== src/Btest/Options.antt =====
-- The command line of ASSN/ASSN1/btest.c: `get_num_val`, and the loop over the options in `main`.
use csed.Prelude.{
  ℕ, ◌+◌, ◌-◌, ◌/◌, ◌%◌, ◌^◌, ◌≤◌, ◌<◌, ◌≡◌, ◌≢◌, ◌⊎◌, inl, inr, refl, arith, Bool, true, false,
  not, ◌&&◌, ◌||◌, Option, none, some, List, [], ◌∷◌, ltb, ◌==◌, if◌then◌else◌, Bool-cases,
  lt-cases,
}
use csed.Prelude.Words.{int_lt}
use csed.Btest.{Text, Flags}
use csed.Btest.Run.{TestRec, System, Ran, run_tests}

-- What the C library reads in a text: the pattern of the `float` with the rest behind it, the
-- 64-bit pattern of the `long long` with the rest behind it, and the `int`.
pub record Numbers : Type 0 where
  pub strtof : Text → ℕ × Text
  pub strtoll : Text → ℕ × Text
  pub atoi : Text → ℕ

-- The loop over the characters of `sval`, with `ishex` and `isfloat`.
unfoldable pub is_float : Bool → Bool → Text → Bool
is_float ishex isfloat [] = isfloat
is_float ishex isfloat (c ∷ cs) =
    let hex = ishex || (c == b'x' || c == b'X') in
    let exponent = (c == b'e' || c == b'E') && not ishex in
    is_float hex (isfloat || (exponent || c == b'.')) cs

-- `llval >> 31`, which keeps the sign.
unfoldable pub upper_bits : ℕ → ℕ
upper_bits llval = if ltb llval (2 ^ 63) then llval / 2 ^ 31 else llval / 2 ^ 31 + (2 ^ 64 - 2 ^ 33)

-- The value, or `none` for the result 0. The first argument is what `*valp` holds.
unfoldable pub get_num_val : Numbers → ℕ → Text → Option ℕ
get_num_val numbers val sval =
    if is_float false false sval
    then (let (fval, rest) = numbers.strtof sval in elim rest [ [] ↦ some fval | _ ∷ _ ↦ none ])
    else let (llval, rest) = numbers.strtoll sval in
      let upperbits = upper_bits llval in
      if (val == 0) && (upperbits == 0 || upperbits == 2 ^ 64 - 1 || upperbits == 1)
      then some (llval % 2 ^ 32)
      else none

-- What `getopt` returns: the letter of the option and its argument.
pub record Given : Type 0 where
  pub letter : ℕ
  pub optarg : Text

-- How `main` ends: after the tests, by `usage`, or at a bad argument.
pub data Exit : Type 0 where
  tests_done : Ran → Exit
  usage_shown : Exit
  bad_argument : Text → Exit

abbrev pub update {ℓ} : {A : Type ℓ} → (ℕ → A) → ℕ → A → ℕ → A
update f i a j = if j == i then a else f j

-- The options `-1`, `-2` and `-3`, on the argument `i`.
unfoldable pub set_arg : Numbers → ℕ → Text → Flags → Option Flags
set_arg numbers i optarg flags = elim (get_num_val numbers (flags.argval i) optarg) [
  | none ↦ none
  | some val ↦
      some
        (record flags { has_arg = update flags.has_arg i true; argval = update flags.argval i val })
]

-- One round of the loop over the options.
unfoldable pub read_option : Numbers → Given → Flags → Flags ⊎ Exit
read_option numbers o flags =
    let number : ℕ → Flags ⊎ Exit = λ i. elim (set_arg numbers i o.optarg flags) [
      | none ↦ inr (bad_argument o.optarg)
      | some flags' ↦ inl flags'
    ] in
    if o.letter == b'g'
    then inl (record flags { grade = true })
    else if o.letter == b'f'
    then inl (record flags { test_fname = some o.optarg })
    else if o.letter == b'r'
    then (if int_lt (numbers.atoi o.optarg) 0
        then inr usage_shown
        else inl (record flags { global_rating = numbers.atoi o.optarg }))
    else if o.letter == b'1'
    then number 0
    else if o.letter == b'2'
    then number 1
    else if o.letter == b'3'
    then number 2
    else if o.letter == b'T'
    then inl (record flags { timeout_limit = numbers.atoi o.optarg })
    else inr usage_shown

unfoldable pub read_options : Numbers → List Given → Flags → Flags ⊎ Exit
read_options numbers [] flags = inl flags
read_options numbers (o ∷ os) flags = elim (read_option numbers o flags) [
  | inl flags' ↦ read_options numbers os flags'
  | inr exit ↦ inr exit
]

abbrev pub start_flags : Flags
start_flags = record {
  grade = false;
  timeout_limit = 10;
  test_fname = none;
  has_arg = λ _. false;
  argval = λ _. 0;
  global_rating = 0;
}

unfoldable pub btest_main : Numbers → (ℕ → System) → List TestRec → List Given → Exit
btest_main numbers sys test_set options = elim (read_options numbers options start_flags) [
  | inl flags ↦ tests_done (run_tests sys flags test_set)
  | inr exit ↦ exit
]

-- The numbers that fit an `int` or an `unsigned`.
abbrev pub FitsWord : ℕ → Type 0
FitsWord v = (v < 2 ^ 32) ⊎ (2 ^ 64 - 2 ^ 31 ≤ v)

abbrev fits : ℕ → Bool
fits upperbits = upperbits == 0 || upperbits == 2 ^ 64 - 1 || upperbits == 1

upper_bits-fits :
    (v : ℕ)
    → v < 2 ^ 64
    → FitsWord v × (fits (upper_bits v) ≡ true)
      ⊎ ((2 ^ 32 ≤ v) × (v < 2 ^ 64 - 2 ^ 31)) × (fits (upper_bits v) ≡ false)
unfolding upper_bits
upper_bits-fits v h = elim (lt-cases v (2 ^ 32)) [
  | inl p ↦ inl (inl p, ground arith)
  | inr p ↦ elim (lt-cases v (2 ^ 64 - 2 ^ 31)) [
    | inl q ↦ inr ((p, q), ground arith)
    | inr q ↦ inl (inr q, ground arith)
  ]
]

-- What becomes of a number, from the value before: accepted, or refused.
abbrev pub IsDecided : ℕ → ℕ → Option ℕ → Type 0
IsDecided val llval result =
    (val ≡ 0) × FitsWord llval × (result ≡ some (llval % 2 ^ 32))
    ⊎ ((val ≢ 0) ⊎ ((2 ^ 32 ≤ llval) × (llval < 2 ^ 64 - 2 ^ 31))) × (result ≡ none)

module _ (numbers : Numbers) (val : ℕ) (sval : Text) (int : is_float false false sval ≡ false) where
  abbrev llval : ℕ
  llval = (numbers.strtoll sval).0

  -- A text that is not read as a float, whose number strtoll gives in 64 bits, is accepted exactly
  -- if the value before is 0 and the number fits an int or an unsigned, and then gives its low 32
  -- bits, whatever stands behind the number.
  pub get_num_val-IsDecided : llval < 2 ^ 64 → IsDecided val llval (get_num_val numbers val sval)
  unfolding get_num_val
  get_num_val-IsDecided h = rw int (by_value (upper_bits-fits llval h))
    where
      by_value :
          FitsWord llval × (fits (upper_bits llval) ≡ true)
            ⊎ ((2 ^ 32 ≤ llval) × (llval < 2 ^ 64 - 2 ^ 31)) × (fits (upper_bits llval) ≡ false)
          → IsDecided val llval
              (if (val == 0) && fits (upper_bits llval) then some (llval % 2 ^ 32) else none)
      by_value (inl (p, e)) = elim (Bool-cases (val == 0)) [
        | inl z ↦ inl (ground arith, p, rw (z, e) refl)
        | inr z ↦ inr (inl (ground arith), rw z refl)
      ]
      by_value (inr (p, e)) = inr (inr p, rw e (ground arith))
