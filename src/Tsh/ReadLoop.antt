-- ===== src/Tsh/ReadLoop.antt =====
-- The read and evaluate loop of `main` of ASSN/ASSN5/tsh.c ends with its input.
use csed.Prelude.{
  ◌++◌, ◌≢◌, All, ℕ, zero, suc, ◌+◌, ◌≤◌, ◌<◌, ◌≡◌, refl, Bool, true, false, Option, none, some,
  List, [], ◌∷◌, arith, ◌==◌, if◌then◌else◌, inl, inr, Bool-cases, length,
}
use csed.Tsh.Jobs.{Text, Shell, emit, usage_printed, initjobs}
use csed.Tsh.Handlers.{
  Run, running, exited, blocked, crashed, ◌>>=◌, Signal, unix_error, System, handle,
}
use csed.Tsh.Parse.{parseline, out_of_bounds}
use csed.Tsh.NoCrash.{no_crash, bind-no_crash, handle-no_crash, eval-no_crash}
use csed.Tsh.Main.{
  Ending, end_of_file, read_error, take_line, Round, stop, main_loop, read_options, tsh_main,
  deliver,
}

-- The shell has exited, or waits for a job: it has not crashed, and is not in its loop.
unfoldable pub has_ended : {A : Type 0} → Run A → Bool
has_ended (running a) = false
has_ended (exited code sh) = true
has_ended (blocked sh) = true
has_ended crashed = false

bind-has_ended :
    {A B : Type 0} (r : Run A) (k : A → Run B)
    → no_crash r ≡ true
    → ((a : A) → has_ended (k a) ≡ true)
    → has_ended (r >>= k) ≡ true
unfolding has_ended no_crash
bind-has_ended (running a) k safe h = h a
bind-has_ended (exited code sh) k safe h = refl
bind-has_ended (blocked sh) k safe h = refl
bind-has_ended crashed k safe h = safe

stop-has_ended :
    (A : Type 0) (ending : Ending) (sh : Shell) → has_ended (stop {A = A} ending sh) ≡ true
unfolding has_ended stop
stop-has_ended A end_of_file sh = refl
stop-has_ended A read_error sh = refl

deliver-no_crash :
    (sys : System) (ss : List Signal) (sh : Shell) → no_crash (deliver sys ss sh) ≡ true
unfolding deliver no_crash
deliver-no_crash sys [] sh = refl
deliver-no_crash sys (s ∷ ss) sh =
    bind-no_crash (handle sys s sh) _ (handle-no_crash sys s sh)
      (λ sh'. deliver-no_crash sys ss sh')

-- The lines that `fgets` reads of the input before it meets the end.
unfoldable pub lines_of : ℕ → Text → List Text
lines_of zero input = []
lines_of (suc fuel) input =
    let (line, rest, eof) = take_line 1023 input in
    let lines : List Text = lines_of fuel rest in if eof then [] else line ∷ lines

-- A call of `fgets` that does not meet the end takes a byte at least.
rest-le : (n : ℕ) (s : Text) → length (take_line n s).1 ≤ length s
unfolding take_line
rest-le zero s = omega arith
rest-le (suc n) [] = omega arith
rest-le (suc n) (c ∷ cs) = elim (Bool-cases (c == b'\n')) [
  | inl ends ↦ rw ends (omega arith)
  | inr more ↦ rw more (omega (arith, rest-le n cs))
]

rest-lt :
    (n : ℕ) (s : Text) → (take_line (suc n) s).2 ≡ false → length (take_line (suc n) s).1 < length s
unfolding take_line
rest-lt n [] h = cc
rest-lt n (c ∷ cs) h = elim (Bool-cases (c == b'\n')) [
  | inl ends ↦ rw ends (omega arith)
  | inr more ↦ rw more (omega (arith, rest-le n cs))
]

-- The line does not overrun an array of `parseline`.
abbrev pub Fits : Text → Type 0
Fits line = parseline line ≢ out_of_bounds

module _ (rounds : ℕ → Round) (emit_prompt : Bool) (ending : Ending) where
  -- The loop ends, by the end of the input at the latest.
  pub main_loop-ends :
      (fuel k : ℕ) (input : Text) (left : List Signal) (sh : Shell)
      → length input < fuel
      → All Fits (lines_of fuel input)
      → has_ended (main_loop rounds emit_prompt ending fuel k input left sh) ≡ true
  unfolding main_loop lines_of
  main_loop-ends zero k input left sh h fits = absurd (omega arith)
  main_loop-ends (suc fuel) k input left sh h fits =
      bind-has_ended _ _ (deliver-no_crash (rounds k).system (left ++ (rounds k).at_prompt) _)
        λ sh1. elim (Bool-cases (take_line 1023 input).2) [
          | inl ends ↦ rw ends (stop-has_ended _ ending sh1)
          | inr more ↦
              let here = rw more at fits in
              rw more (
                bind-has_ended _ _
                  (eval-no_crash (rounds k).system (take_line 1023 input).0 (rounds k).later sh1
                    here.0)
                  λ (sh2, left').
                    main_loop-ends fuel (k + 1) (take_line 1023 input).1 left' sh2
                      (omega (arith, rest-lt 1022 input more)) here.1)
        ]

-- With more rounds than the input has bytes, and lines of the input that do not overrun the arrays
-- of parseline, main does not stay in its loop and does not crash: it exits, or waits for a job in
-- the foreground, whatever signals arrive.
pub tsh_main-ends :
    (rounds : ℕ → Round) (install_ok : Bool) (options : List ℕ) (ending : Ending) (fuel : ℕ)
    (input : Text) (sh : Shell)
    → length input < fuel
    → All Fits (lines_of fuel input)
    → has_ended (tsh_main rounds install_ok options ending fuel input sh) ≡ true
unfolding tsh_main has_ended
tsh_main-ends rounds install_ok options ending fuel input sh h fits =
    by_options (read_options sh.verbose true options) install_ok
  where
    by_options :
        (o : Option (Bool × Bool)) (b : Bool)
        → has_ended (elim o [
          | none ↦ exited 1 (emit usage_printed sh)
          | some (verbose, emit_prompt) ↦
              if b
              then main_loop rounds emit_prompt ending fuel 0 input []
                  (record sh { verbose = verbose; jobs = initjobs sh.jobs })
              else unix_error (record sh { verbose = verbose })
        ])
          ≡ true
    by_options none b = refl
    by_options (some (verbose, emit_prompt)) true =
        main_loop-ends rounds emit_prompt ending fuel 0 input [] _ h fits
    by_options (some (verbose, emit_prompt)) false = refl
