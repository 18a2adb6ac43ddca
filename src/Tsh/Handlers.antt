-- ===== src/Tsh/Handlers.antt =====
-- The signal handlers of ASSN/ASSN5/tsh.c and the wait for a foreground job.
use csed.Prelude.{
  ℕ, Bool, true, false, none, some, List, [], ◌∷◌, ◌==◌, if◌then◌else◌, get_elem?, set,
}
use csed.Tsh.Jobs.{
  Job, JobState, st, is_fg, lost_track, stopped_by, terminated_by, error_message, terminating,
  killed, Shell, emit, deletejob, fgpid, getjobpid, pid2jid,
}

-- How a run goes on: it returns, the shell has exited, it waits for a signal that does not come, or
-- it has written out of bounds.
pub data Run (A : Type 0) : Type 0 where
  running : A → Run A
  exited : ℕ → Shell → Run A
  blocked : Shell → Run A
  crashed : Run A

infixl 5 ◌>>=◌
abbrev pub ◌>>=◌ : {A B : Type 0} → Run A → (A → Run B) → Run B
running a >>= k = k a
exited code sh >>= k = exited code sh
blocked sh >>= k = blocked sh
crashed >>= k = crashed

-- The status of a child as `waitpid` reports it.
pub data Status : Type 0 where
  stopped : ℕ → Status
  exit_code : ℕ → Status
  signaled : ℕ → Status

-- `WTERMSIG`, which is 0 for a child that has exited.
abbrev pub wtermsig : Status → ℕ
wtermsig (stopped sig) = 0x7f
wtermsig (exit_code c) = 0
wtermsig (signaled sig) = sig

-- A signal that is delivered to the shell. With `SIGCHLD` come the results that the calls of
-- `waitpid` give before one that is not positive.
pub data Signal : Type 0 where
  sigchld : List (ℕ × Status) → Signal
  sigint sigtstp sigquit : Signal

-- `unix_error`.
abbrev pub unix_error : {A : Type 0} → Shell → Run A
unix_error sh = exited 1 (emit error_message sh)

-- `job->state = state` through a pointer to the slot `i`.
unfoldable pub mark : ℕ → JobState → Shell → Shell
mark i state sh = elim (get_elem? sh.jobs i) [
  | none ↦ sh
  | some job ↦ record sh { jobs = set sh.jobs i (record job { state = state }) }
]

abbrev pub jid_at : List Job → ℕ → ℕ
jid_at jobs i = elim (get_elem? jobs i) [ none ↦ 0 | some job ↦ job.jid ]

-- The body of the loop of `sigchld_handler` for a child that has not stopped.
unfoldable pub reap_ended : ℕ → Status → Shell → Run Shell
reap_ended pid (stopped sig) sh = running sh
reap_ended pid (exit_code c) sh =
    if wtermsig (exit_code c) == 0 then running (deletejob pid sh).1 else unix_error sh
reap_ended pid (signaled sig) sh =
    running (deletejob pid (emit (terminated_by (pid2jid sh.jobs pid) pid sig) sh)).1

unfoldable pub stop_job : ℕ → ℕ → ℕ → Shell → Shell
stop_job i pid sig sh = emit (stopped_by (jid_at sh.jobs i) pid sig) (mark i st sh)

unfoldable pub sigchld_handler : List (ℕ × Status) → Shell → Run Shell
sigchld_handler [] sh = running sh
sigchld_handler ((pid, stopped sig) ∷ rest) sh = elim (getjobpid sh.jobs pid) [
  | none ↦ running (emit (lost_track pid) sh)
  | some i ↦ sigchld_handler rest (stop_job i pid sig sh)
]
sigchld_handler ((pid, exit_code c) ∷ rest) sh =
    reap_ended pid (exit_code c) sh >>= sigchld_handler rest
sigchld_handler ((pid, signaled sig) ∷ rest) sh =
    reap_ended pid (signaled sig) sh >>= sigchld_handler rest

-- What the shell asks of the system: whether `kill(-pid, sig)` succeeds, whether the calls that
-- block the signals and the one that unblocks them do, and what `fork` returns in the parent.
pub record System : Type 0 where
  pub kill_ok : ℕ → ℕ → Bool
  pub block_ok : Bool
  pub unblock_ok : Bool
  pub fork : ℕ

abbrev pub sig_int : ℕ
sig_int = 2

abbrev pub sig_cont : ℕ
sig_cont = 18

abbrev pub sig_tstp : ℕ
sig_tstp = 20

-- Whether the job of the slot is in the foreground.
abbrev pub fg_at : ℕ → List Job → Bool
fg_at i jobs = elim (get_elem? jobs i) [ none ↦ false | some job ↦ is_fg job.state ]

module _ (sys : System) where
  -- `sigint_handler` and `sigtstp_handler`, which differ in the signal alone.
  unfoldable pub forward : ℕ → Shell → Run Shell
  forward sig sh =
      let pid = fgpid sh.jobs in
      if pid == 0
      then running sh
      else if sys.kill_ok pid sig
      then running (emit (killed pid sig) sh)
      else unix_error sh

  unfoldable pub handle : Signal → Shell → Run Shell
  handle (sigchld children) sh = sigchld_handler children sh
  handle sigint sh = forward sig_int sh
  handle sigtstp sh = forward sig_tstp sh
  handle sigquit sh = exited 1 (emit terminating sh)

  -- `while (job->state == FG) sleep(1);` with the signals that arrive, in their order.
  unfoldable pub wait_loop : ℕ → List Signal → Shell → Run (Shell × List Signal)
  wait_loop i [] sh = if fg_at i sh.jobs then blocked sh else running (sh, [])
  wait_loop i (s ∷ ss) sh = elim (fg_at i sh.jobs) [
    | true ↦ handle s sh >>= wait_loop i ss
    | false ↦ running (sh, s ∷ ss)
  ]

  unfoldable pub waitfg : ℕ → List Signal → Shell → Run (Shell × List Signal)
  waitfg pid ss sh = elim (getjobpid sh.jobs pid) [
    | none ↦ running (sh, ss)
    | some i ↦ wait_loop i ss sh
  ]
