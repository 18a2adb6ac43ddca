-- ===== src/Tsh/Main.antt =====
-- The routine `main` of ASSN/ASSN5/tsh.c: the options, and the read and evaluate loop over the
-- bytes of the standard input, which has no NUL.
use csed.Prelude.{
  ℕ, zero, suc, ◌+◌, Bool, true, false, Option, none, some, List, [], ◌∷◌, ◌++◌, ◌==◌,
  if◌then◌else◌,
}
use csed.Tsh.Jobs.{Text, Shell, emit, prompted, usage_printed, app_error_message, initjobs}
use csed.Tsh.Handlers.{Run, running, exited, unix_error, ◌>>=◌, System, Signal, handle}
use csed.Tsh.Shell.{Result, eval}

-- How the input ends.
pub data Ending : Type 0 where
  end_of_file read_error : Ending

-- What `fgets` reads, at most that many bytes: the line, the rest, and whether it met the end.
unfoldable pub take_line : ℕ → Text → Text × Text × Bool
take_line zero s = ([], s, false)
take_line (suc n) [] = ([], [], true)
take_line (suc n) (c ∷ cs) =
    let (line, rest, eof) = take_line n cs in
    if c == b'\n' then (c ∷ [], cs, false) else (c ∷ line, rest, eof)

-- The system during a round of the loop, the signals that arrive while the shell reads, and those
-- that arrive later.
pub record Round : Type 0 where
  pub system : System
  pub at_prompt : List Signal
  pub later : List Signal

-- Signals that are delivered while the shell reads.
unfoldable pub deliver : System → List Signal → Shell → Run Shell
deliver sys [] sh = running sh
deliver sys (s ∷ ss) sh = handle sys s sh >>= deliver sys ss

-- The end of the input: `ferror` is tested before `feof`.
unfoldable pub stop : {A : Type 0} → Ending → Shell → Run A
stop end_of_file sh = exited 0 sh
stop read_error sh = exited 1 (emit app_error_message sh)

-- A signal is delivered in the first wait after it arrives, so those that an `eval` leaves come
-- while the next line is read.
unfoldable pub show_prompt : Bool → Shell → Shell
show_prompt emit_prompt sh = if emit_prompt then emit prompted sh else sh

unfoldable pub main_loop : (ℕ → Round) → Bool → Ending → ℕ → ℕ → Text → List Signal → Shell → Result
main_loop rounds emit_prompt ending zero k input left sh = running (sh, left)
main_loop rounds emit_prompt ending (suc fuel) k input left sh =
    let r : Round = rounds k in
    let (line, rest, eof) = take_line 1023 input in
    deliver r.system (left ++ r.at_prompt) (show_prompt emit_prompt sh) >>= λ sh1.
    if eof
    then stop ending sh1
    else (eval r.system line r.later sh1 >>= λ (sh2, left').
        main_loop rounds emit_prompt ending fuel (k + 1) rest left' sh2)

-- The options that `getopt` returns: `verbose` and `emit_prompt`, or `usage`.
unfoldable pub read_options : Bool → Bool → List ℕ → Option (Bool × Bool)
read_options verbose emit_prompt [] = some (verbose, emit_prompt)
read_options verbose emit_prompt (c ∷ cs) =
    if c == b'v'
    then read_options true emit_prompt cs
    else if c == b'p'
    then read_options verbose false cs
    else none

unfoldable pub tsh_main : (ℕ → Round) → Bool → List ℕ → Ending → ℕ → Text → Shell → Result
tsh_main rounds install_ok options ending fuel input sh =
    elim (read_options sh.verbose true options) [
      | none ↦ exited 1 (emit usage_printed sh)
      | some (verbose, emit_prompt) ↦
          if install_ok
          then main_loop rounds emit_prompt ending fuel 0 input []
              (record sh { verbose = verbose; jobs = initjobs sh.jobs })
          else unix_error (record sh { verbose = verbose })
    ]
