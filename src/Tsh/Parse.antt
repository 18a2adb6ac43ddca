-- ===== src/Tsh/Parse.antt =====
-- `parseline` of ASSN/ASSN5/tsh.c. A text ends where the C string has its null byte.
use mathlib.Core.Option
use csed.Prelude.{
  ℕ, zero, suc, ◌+◌, ◌<◌, ◌≡◌, Bool, true, false, Option, none, some, List, [], ◌∷◌, arith, ltb,
  leb, ◌==◌, if◌then◌else◌, Option-cases, inl, inr, length,
}
use csed.Tsh.Jobs.{Text}

abbrev pub max_line : ℕ
max_line = 1024

abbrev pub max_args : ℕ
max_args = 128

-- `while (*buf && (*buf == ' ')) buf++;`
unfoldable pub skip_spaces : Text → Text
skip_spaces [] = []
skip_spaces (c ∷ cs) = if c == b' ' then skip_spaces cs else c ∷ cs

-- `delim = strchr(buf, c); *delim = '\0'; buf = delim + 1`: the text before and behind `delim`.
unfoldable pub break_at : ℕ → Text → Option (Text × Text)
break_at c [] = none
break_at c (x ∷ xs) =
    if x == c then some ([], xs) else Option.map (λ (w, rest). (x ∷ w, rest)) (break_at c xs)

-- The next argument and the text behind it, if a delimiter is found.
unfoldable pub next_arg : Text → Option (Text × Text)
next_arg [] = none
next_arg (c ∷ cs) = if c == b'\'' then break_at b'\'' cs else break_at b' ' (c ∷ cs)

-- The loop that builds the argument list; `none` means that the fuel ran out.
unfoldable pub split_args : ℕ → Text → Option (List Text)
split_args zero buf = none
split_args (suc f) buf = elim (next_arg buf) [
  | none ↦ some []
  | some (arg, rest) ↦ Option.map (◌∷◌ arg) (split_args f (skip_spaces rest))
]

-- `buf[strlen(buf)-1] = ' '`; on an empty text it writes in front of the buffer.
unfoldable pub replace_last : Text → Option Text
replace_last [] = none
replace_last (c ∷ []) = some (b' ' ∷ [])
replace_last (c ∷ d ∷ cs) = Option.map (◌∷◌ c) (replace_last (d ∷ cs))

abbrev pub is_background : Text → Bool
is_background [] = false
is_background (c ∷ cs) = c == b'&'

-- `if ((bg = (*argv[argc-1] == '&')) != 0) argv[--argc] = NULL;`
unfoldable pub take_background : List Text → Bool × List Text
take_background [] = (true, [])
take_background (a ∷ []) = if is_background a then (true, []) else (false, a ∷ [])
take_background (a ∷ b ∷ r) = let (bg, args) = take_background (b ∷ r) in (bg, a ∷ args)

-- The value that `parseline` returns and the arguments that it stores.
pub data Parsed : Type 0 where
  parsed : Bool → List Text → Parsed
  out_of_bounds : Parsed

-- The arguments are stored in an array of `max_args` pointers, the last one `NULL`.
unfoldable pub store_args : List Text → Parsed
store_args args =
    if ltb (length args) max_args
    then (let (bg, rest) = take_background args in parsed bg rest)
    else out_of_bounds

-- The line is copied to an array of `max_line` bytes, with its null byte.
unfoldable pub parseline : Text → Parsed
parseline cmdline =
    if leb max_line (length cmdline) then out_of_bounds else elim (replace_last cmdline) [
      | none ↦ out_of_bounds
      | some line ↦ elim (split_args (length line + 1) (skip_spaces line)) [
        | none ↦ out_of_bounds
        | some args ↦ store_args args
      ]
    ]

length-skip_spaces : (t : Text) → length (skip_spaces t) < length t + 1
unfolding skip_spaces
length-skip_spaces [] = omega arith
length-skip_spaces (c ∷ cs) = ground (arith, length-skip_spaces cs)

length-break_at : (c : ℕ) (t w rest : Text) → break_at c t ≡ some (w, rest) → length rest < length t
unfolding break_at
length-break_at c [] w rest h = cc
length-break_at c (x ∷ xs) w rest h = elim (Option-cases (break_at c xs)) [
  | inl end ↦ ground arith
  | inr ((w', rest'), e) ↦ ground (arith, length-break_at c xs w' rest' e)
]

length-next_arg : (t w rest : Text) → next_arg t ≡ some (w, rest) → length rest < length t
unfolding next_arg
length-next_arg [] w rest h = cc
length-next_arg (c ∷ cs) w rest h =
    ground (arith, length-break_at b'\'' cs w rest, length-break_at b' ' (c ∷ cs) w rest)

-- The loop that builds the argument list ends: fuel above the length of the text is enough.
pub split_args-total :
    (f : ℕ) (t : Text) → length t < f → (args : List Text) × (split_args f t ≡ some args)
unfolding split_args
split_args-total zero t h = absurd (omega arith)
split_args-total (suc f) t h = elim (Option-cases (next_arg t)) [
  | inl end ↦ ([], rw (end, split_args))
  | inr ((w, rest), e) ↦
      let (args, run) =
        split_args-total f (skip_spaces rest)
          (omega (arith, length-skip_spaces rest, length-next_arg t w rest e)) in
      (w ∷ args, rw (e, split_args) (rw run))
]
