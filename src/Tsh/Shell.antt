-- ===== src/Tsh/Shell.antt =====
-- The commands of ASSN/ASSN5/tsh.c: the built-in ones, and `eval`.
use Prim.Native.Nat.{min}
use csed.Prelude.{
  ℕ, ◌+◌, ◌-◌, ◌*◌, ◌%◌, ◌^◌, Bool, true, ◌&&◌, ◌||◌, not, Option, none, some, List, [], ◌∷◌, leb,
  ◌==◌, if◌then◌else◌, get_elem?,
}
unfoldable pub use csed.Prelude.Texts.{text_eq}
use csed.Tsh.Jobs.{
  Job, fg, bg, Effect, background, requires_argument, bad_argument, no_such_job, no_such_process,
  internal_error, killed, Text, Shell, emit, addjob, getjobpid, getjobjid, pid2jid, listjobs,
}
use csed.Tsh.Parse.{parsed, out_of_bounds, parseline}
use csed.Tsh.Handlers.{
  Run, running, exited, crashed, unix_error, mark, System, Signal, sig_cont, waitfg,
}

abbrev pub quit_text : Text
quit_text = b'q' ∷ b'u' ∷ b'i' ∷ b't' ∷ []

abbrev pub fg_text : Text
fg_text = b'f' ∷ b'g' ∷ []

abbrev pub bg_text : Text
bg_text = b'b' ∷ b'g' ∷ []

abbrev pub jobs_text : Text
jobs_text = b'j' ∷ b'o' ∷ b'b' ∷ b's' ∷ []

unfoldable pub is_digit : ℕ → Bool
is_digit c = leb b'0' c && leb c b'9'

unfoldable pub all_digits : Text → Bool
all_digits [] = true
all_digits (c ∷ cs) = is_digit c && all_digits cs

-- `(int) strtol(digits, NULL, 10)`: the value stops at `LONG_MAX`, and keeps its low 32 bits.
unfoldable pub value_from : ℕ → Text → ℕ
value_from n [] = n
value_from n (c ∷ cs) = value_from (n * 10 + (c - b'0')) cs

unfoldable pub int_of_text : Text → ℕ
int_of_text digits = min (value_from 0 digits) (2 ^ 63 - 1) % 2 ^ 32

-- The job that the argument of `fg` and `bg` names, or the message that there is none.
pub data Found : Type 0 where
  slot : ℕ → Found
  message : (Text → Effect) → Found

unfoldable pub find_job : Text → List Job → Found
find_job [] jobs = elim (getjobpid jobs (int_of_text [])) [
  | none ↦ message λ cmd. no_such_process (int_of_text [])
  | some i ↦ slot i
]
find_job (c ∷ cs) jobs =
    if c == b'%'
    then if all_digits cs
      then elim (getjobjid jobs (int_of_text cs)) [
        | none ↦ message λ cmd. no_such_job (int_of_text cs)
        | some i ↦ slot i
      ]
      else message bad_argument
    else if all_digits (c ∷ cs)
    then elim (getjobpid jobs (int_of_text (c ∷ cs))) [
      | none ↦ message λ cmd. no_such_process (int_of_text (c ∷ cs))
      | some i ↦ slot i
    ]
    else message bad_argument

abbrev pub Result : Type 0
Result = Run (Shell × List Signal)

module _ (sys : System) where
  -- The end of `do_bgfg`, for the job of the slot `i`.
  unfoldable pub resume : Bool → ℕ → Job → List Signal → Shell → Result
  resume is_fg_cmd i job ss sh =
      let sent = emit (killed job.pid sig_cont) sh in
      if not (sys.kill_ok job.pid sig_cont)
      then unix_error sh
      else if is_fg_cmd
      then waitfg sys job.pid ss (mark i fg sent)
      else running (emit (background job.jid job.pid job.cmdline) (mark i bg sent), ss)

  unfoldable pub resume_found : Text → Found → List Signal → Shell → Result
  resume_found cmd (message m) ss sh = running (emit (m cmd) sh, ss)
  resume_found cmd (slot i) ss sh = elim (get_elem? sh.jobs i) [
    | none ↦ crashed
    | some job ↦ resume (text_eq cmd fg_text) i job ss sh
  ]

  unfoldable pub do_bgfg : List Text → List Signal → Shell → Result
  do_bgfg [] ss sh = exited 0 (emit internal_error sh)
  do_bgfg (cmd ∷ []) ss sh =
      if text_eq cmd fg_text || text_eq cmd bg_text
      then running (emit (requires_argument cmd) sh, ss)
      else exited 0 (emit internal_error sh)
  do_bgfg (cmd ∷ param ∷ args) ss sh =
      if text_eq cmd fg_text || text_eq cmd bg_text
      then resume_found cmd (find_job param sh.jobs) ss sh
      else exited 0 (emit internal_error sh)

  -- Whether the command was a built-in one, and its result if it was.
  unfoldable pub builtin_cmd : Text → List Text → List Signal → Shell → Option Result
  builtin_cmd cmd args ss sh =
      if text_eq cmd quit_text
      then some (exited 0 sh)
      else if text_eq cmd fg_text || text_eq cmd bg_text
      then some (do_bgfg (cmd ∷ args) ss sh)
      else if text_eq cmd jobs_text
      then some (running (record sh { effects = listjobs sh.jobs sh.effects }, ss))
      else none

  -- `eval` from `sigprocmask` on. While the signals are blocked none is delivered.
  unfoldable pub launch : Bool → Text → List Signal → Shell → Result
  launch is_background_job cmdline ss sh =
      if not sys.block_ok || leb (2 ^ 31) sys.fork
      then unix_error sh
      else let sh' = (addjob sys.fork (if is_background_job then bg else fg) cmdline sh).1 in
        if not sys.unblock_ok
        then unix_error sh'
        else if is_background_job
        then running (emit (background (pid2jid sh'.jobs sys.fork) sys.fork cmdline) sh', ss)
        else waitfg sys sys.fork ss sh'

  unfoldable pub eval_args : Bool → List Text → Text → List Signal → Shell → Result
  eval_args is_background_job [] cmdline ss sh = running (sh, ss)
  eval_args is_background_job (cmd ∷ args) cmdline ss sh = elim (builtin_cmd cmd args ss sh) [
    | some r ↦ r
    | none ↦ launch is_background_job cmdline ss sh
  ]

  unfoldable pub eval : Text → List Signal → Shell → Result
  eval cmdline ss sh = elim (parseline cmdline) [
    | out_of_bounds ↦ crashed
    | parsed background_job args ↦ eval_args background_job args cmdline ss sh
  ]
