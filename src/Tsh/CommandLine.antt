-- ===== src/Tsh/CommandLine.antt =====
-- Command lines as they are typed at the shell of ASSN/ASSN5/tsh.c, and what `parseline` reads.
use csed.Prelude.{
  ℕ, zero, suc, ◌+◌, ◌<◌, ◌≡◌, refl, ◌≢◌, ◌∙◌, ap, true, false, none, some, List, [], ◌∷◌, ◌++◌,
  arith, if◌then◌else◌, inl, inr, length, length-append, All, map, Bool-cases, lt→ltb, leb,
}
use csed.Tsh.Jobs.{Text}
use csed.Tsh.Parse.{
  max_args, max_line, skip_spaces, break_at, next_arg, split_args, replace_last, take_background,
  is_background, parsed, store_args, parseline,
}

-- A plain word, or a text in single quotes.
pub data Word : Type 0 where
  plain : ℕ → Text → Word
  quoted : Text → Word

abbrev pub Without : ℕ → Text → Type 0
Without c = All (λ x. x ≢ c)

-- A plain word has no space and does not begin with a quote, a quoted one holds no quote.
abbrev pub IsWord : Word → Type 0
IsWord (plain c cs) = (c ≢ b'\'') × Without b' ' (c ∷ cs)
IsWord (quoted t) = Without b'\'' t

abbrev pub arg_of : Word → Text
arg_of (plain c cs) = c ∷ cs
arg_of (quoted t) = t

-- A word as it is typed, with `rest` behind it.
abbrev pub typed : Word → Text → Text
typed (plain c cs) rest = c ∷ (cs ++ rest)
typed (quoted t) rest = b'\'' ∷ (t ++ b'\'' ∷ rest)

-- The words, each with a space behind it.
unfoldable pub spaced : List Word → Text
spaced [] = []
spaced (w ∷ ws) = typed w (b' ' ∷ spaced ws)

-- The words with spaces between them, and the newline that `fgets` leaves at the end.
unfoldable pub command_line : List Word → Word → Text
command_line [] last = typed last (b'\n' ∷ [])
command_line (w ∷ ws) last = typed w (b' ' ∷ command_line ws last)

break_at-append :
    (c : ℕ) (w rest : Text) → Without c w → break_at c (w ++ c ∷ rest) ≡ some (w, rest)
unfolding break_at
break_at-append c [] rest h = ground arith
break_at-append c (x ∷ w) rest h = ground (arith, break_at-append c w rest h.1)

-- The next argument of typed words is the first word's, and the rest begins behind it.
next_arg-typed :
    (w : Word) (ws : List Word)
    → IsWord w
    → (rest : Text) × (next_arg (spaced (w ∷ ws)) ≡ some (arg_of w, rest))
      × (skip_spaces rest ≡ skip_spaces (spaced ws))
unfolding next_arg spaced skip_spaces
next_arg-typed (plain c cs) ws h =
    (spaced ws, ground (arith, h.0, break_at-append b' ' (c ∷ cs) (spaced ws) h.1), refl)
next_arg-typed (quoted t) ws h =
    (b' ' ∷ spaced ws, ground (arith, break_at-append b'\'' t (b' ' ∷ spaced ws) h), refl)

skip_spaces-spaced : (ws : List Word) → All IsWord ws → skip_spaces (spaced ws) ≡ spaced ws
unfolding skip_spaces spaced
skip_spaces-spaced [] h = refl
skip_spaces-spaced (plain c cs ∷ ws) h = ground (arith, h.0.1.0)
skip_spaces-spaced (quoted t ∷ ws) h = refl

next_arg-nil : next_arg (spaced []) ≡ none
unfolding next_arg spaced
next_arg-nil = refl

split_args-spaced :
    (f : ℕ) (ws : List Word)
    → All IsWord ws
    → length ws < f
    → split_args f (spaced ws) ≡ some (map arg_of ws)
unfolding split_args
split_args-spaced zero ws h fuel = absurd (omega arith)
split_args-spaced (suc f) [] h fuel = rw (next_arg-nil, split_args)
split_args-spaced (suc f) (w ∷ ws) h fuel =
    let (rest, e, same) = next_arg-typed w ws h.0 in
    let next : skip_spaces rest ≡ spaced ws = same ∙ skip_spaces-spaced ws h.1 in
    rw (e, split_args) (rw (next, split_args-spaced f ws h.1 (omega arith)))

replace_last-cons :
    (x : ℕ) (t : Text) {t' : Text} → replace_last t ≡ some t' → replace_last (x ∷ t) ≡ some (x ∷ t')
unfolding replace_last
replace_last-cons x [] h = cc
replace_last-cons x (y ∷ t) h = rw h

replace_last-append :
    (xs t : Text) {t' : Text} → replace_last t ≡ some t' → replace_last (xs ++ t) ≡ some (xs ++ t')
replace_last-append [] t h = h
replace_last-append (x ∷ xs) t h = replace_last-cons x (xs ++ t) (replace_last-append xs t h)

replace_last-typed :
    (w : Word) (t : Text) {t' : Text}
    → replace_last t ≡ some t'
    → replace_last (typed w t) ≡ some (typed w t')
replace_last-typed (plain c cs) t h = replace_last-append (c ∷ cs) t h
replace_last-typed (quoted q) t h =
    replace_last-cons b'\'' (q ++ b'\'' ∷ t)
      (replace_last-append q (b'\'' ∷ t) (replace_last-cons b'\'' t h))

replace_last-command_line :
    (ws : List Word) (last : Word)
    → replace_last (command_line ws last) ≡ some (spaced (ws ++ last ∷ []))
unfolding command_line spaced
replace_last-command_line [] last = replace_last-typed last (b'\n' ∷ []) replace_last-newline
  where
    replace_last-newline : replace_last (b'\n' ∷ []) ≡ some (b' ' ∷ [])
    replace_last-newline = unfold replace_last in refl
replace_last-command_line (w ∷ ws) last =
    replace_last-typed w _
      (replace_last-cons b' ' (command_line ws last) (replace_last-command_line ws last))

length-typed : (w : Word) (t : Text) → length t < length (typed w t)
length-typed (plain c cs) t = omega (arith, length-append cs t)
length-typed (quoted q) t = omega (arith, length-append q (b'\'' ∷ t))

length-spaced : (ws : List Word) → length ws < length (spaced ws) + 1
unfolding spaced
length-spaced [] = omega arith
length-spaced (w ∷ ws) = omega (arith, length-spaced ws, length-typed w (b' ' ∷ spaced ws))

All-append_one : (ws : List Word) (w : Word) → All IsWord ws → IsWord w → All IsWord (ws ++ w ∷ [])
All-append_one [] w all h = (h, tt)
All-append_one (v ∷ ws) w all h = (all.0, All-append_one ws w all.1 h)

take_background-append :
    (args : List Text) (a : Text)
    → take_background (args ++ a ∷ [])
      ≡ (if is_background a then (true, args) else (false, args ++ a ∷ []))
unfolding take_background
take_background-append [] a = refl
take_background-append (b ∷ []) a = elim (Bool-cases (is_background a)) [
  | inl bg ↦ rw bg
  | inr fg ↦ rw fg
]
take_background-append (b ∷ c ∷ args) a = elim (Bool-cases (is_background a)) [
  | inl bg ↦ rw (take_background-append (c ∷ args) a, bg)
  | inr fg ↦ rw (take_background-append (c ∷ args) a, fg)
]

args-append :
    (ws : List Word) (w : Word) → map arg_of (ws ++ w ∷ []) ≡ map arg_of ws ++ arg_of w ∷ []
args-append [] w = refl
args-append (v ∷ ws) w = ap (◌∷◌ (arg_of v)) (args-append ws w)

length-args : (ws : List Word) (w : Word) → length (map arg_of (ws ++ w ∷ [])) ≡ length ws + 1
length-args [] w = refl
length-args (v ∷ ws) w = omega (arith, length-args ws w)

store_args-words :
    (ws : List Word) (last : Word)
    → length ws + 1 < max_args
    → store_args (map arg_of (ws ++ last ∷ [])) ≡ (
        if is_background (arg_of last)
        then parsed true (map arg_of ws)
        else parsed false (map arg_of ws ++ arg_of last ∷ []))
unfolding store_args
store_args-words ws last few =
    let fits =
      lt→ltb (length (map arg_of (ws ++ last ∷ []))) max_args
        (omega (arith, length-args ws last)) in
    let taken = take_background-append (map arg_of ws) (arg_of last) in
    elim (Bool-cases (is_background (arg_of last))) [
      | inl bg ↦ rw (fits, args-append ws last, taken, bg)
      | inr fg ↦ rw (fits, args-append ws last, taken, fg)
    ]

-- Fewer than max_args words, typed with a space between them in a line of fewer than 1024 bytes,
-- are read back as the arguments: plain words that have no space and do not begin with a quote,
-- and quoted texts that hold no quote. The line asks for a background job exactly when the last
-- word begins with &, and that word is then no argument.
pub parseline-command_line :
    (ws : List Word) (last : Word)
    → All IsWord ws
    → IsWord last
    → length ws + 1 < max_args
    → length (command_line ws last) < max_line
    → parseline (command_line ws last) ≡ (
        if is_background (arg_of last)
        then parsed true (map arg_of ws)
        else parsed false (map arg_of ws ++ arg_of last ∷ []))
unfolding parseline
parseline-command_line ws last all h few short =
    let words = ws ++ last ∷ [] in
    let good = All-append_one ws last all h in
    let line = spaced words in
    let fits : leb max_line (length (command_line ws last)) ≡ false = ground arith in
    rw (fits, replace_last-command_line ws last, parseline)
      (rw
        (
          skip_spaces-spaced words good,
          split_args-spaced (length line + 1) words good (length-spaced words),
        )
        (store_args-words ws last few))
