-- ===== src/Tsh/NoCrash.antt =====
-- The commands of ASSN/ASSN5/tsh.c write behind no array, but for the one of the arguments.
use csed.Prelude.{
  ℕ, ◌^◌, ◌≡◌, ◌≢◌, refl, Bool, true, false, not, ◌||◌, ◌==◌, none, some, Option, List, [], ◌∷◌,
  leb, if◌then◌else◌, inl, inr, Bool-cases, Option-cases, get_elem?,
}
use csed.Tsh.Jobs.{Job, Text, Shell, find_slot, getjobpid, getjobjid, lt_one, fgpid}
use csed.Tsh.Slots.{find_slot-some}
use csed.Tsh.Parse.{Parsed, parsed, out_of_bounds, parseline}
use csed.Tsh.Handlers.{
  Run, running, exited, blocked, crashed, ◌>>=◌, System, Signal, sigchld, sigint, sigtstp, sigquit,
  forward, handle, wait_loop, waitfg, fg_at, sig_cont, sig_int, sig_tstp,
}
use csed.Tsh.Waiting.{sigchld_handler-returns}
use csed.Tsh.Shell.{
  Found, slot, message, find_job, resume, resume_found, do_bgfg, builtin_cmd, launch, eval_args,
  eval, text_eq, fg_text, bg_text, jobs_text, quit_text, all_digits, int_of_text,
}

unfoldable pub no_crash : {A : Type 0} → Run A → Bool
no_crash (running a) = true
no_crash (exited code sh) = true
no_crash (blocked sh) = true
no_crash crashed = false

pub bind-no_crash :
    {A B : Type 0} (r : Run A) (k : A → Run B)
    → no_crash r ≡ true
    → ((a : A) → no_crash (k a) ≡ true)
    → no_crash (r >>= k) ≡ true
unfolding no_crash
bind-no_crash (running a) k safe h = h a
bind-no_crash (exited code sh) k safe h = refl
bind-no_crash (blocked sh) k safe h = refl
bind-no_crash crashed k safe h = safe

if-no_crash :
    {A : Type 0} (b : Bool) (r r' : Run A)
    → no_crash r ≡ true
    → no_crash r' ≡ true
    → no_crash (if b then r else r') ≡ true
if-no_crash true r r' h h' = h
if-no_crash false r r' h h' = h'

-- A slot that was found is there.
abbrev IsFound : List Job → Found → Type 0
IsFound jobs (message m) = Unit
IsFound jobs (slot i) = (x : Job) × (get_elem? jobs i ≡ some x)

searched :
    (test : Job → Bool) (jobs : List Job) (b : Bool) (m : Text → _)
    → IsFound jobs
        (elim (if b then none else find_slot test jobs) [ none ↦ message m | some i ↦ slot i ])
searched test jobs true m = tt
searched test jobs false m = by_result (find_slot test jobs) (λ i e. e)
  where
    by_result :
        (r : Option ℕ)
        → ((i : ℕ) → r ≡ some i → find_slot test jobs ≡ some i)
        → IsFound jobs (elim r [ none ↦ message m | some i ↦ slot i ])
    by_result none h = tt
    by_result (some i) h = let (x, at, hit) = find_slot-some test jobs i (h i refl) in (x, at)

find_job-IsFound : (param : Text) (jobs : List Job) → IsFound jobs (find_job param jobs)
unfolding find_job getjobpid getjobjid
find_job-IsFound [] jobs = searched _ jobs (lt_one (int_of_text [])) _
find_job-IsFound (c ∷ cs) jobs = elim (Bool-cases (c == b'%')) [
  | inl p ↦ elim (Bool-cases (all_digits cs)) [
    | inl digits ↦ rw (p, digits) (searched _ jobs (lt_one (int_of_text cs)) _)
    | inr other ↦ rw (p, other) tt
  ]
  | inr p ↦ elim (Bool-cases (all_digits (c ∷ cs))) [
    | inl digits ↦ rw (p, digits) (searched _ jobs (lt_one (int_of_text (c ∷ cs))) _)
    | inr other ↦ rw (p, other) tt
  ]
]

module _ (sys : System) where
  forward-no_crash : (sig : ℕ) (sh : Shell) → no_crash (forward sys sig sh) ≡ true
  unfolding forward no_crash
  forward-no_crash sig sh =
      if-no_crash (fgpid sh.jobs == 0) _ _ refl
        (if-no_crash (sys.kill_ok (fgpid sh.jobs) sig) _ _ refl refl)

  pub handle-no_crash : (s : Signal) (sh : Shell) → no_crash (handle sys s sh) ≡ true
  unfolding handle no_crash
  handle-no_crash (sigchld cs) sh = let (sh', run) = sigchld_handler-returns cs sh in rw run refl
  handle-no_crash sigint sh = forward-no_crash sig_int sh
  handle-no_crash sigtstp sh = forward-no_crash sig_tstp sh
  handle-no_crash sigquit sh = refl

  wait_loop-no_crash :
      (i : ℕ) (ss : List Signal) (sh : Shell) → no_crash (wait_loop sys i ss sh) ≡ true
  unfolding wait_loop no_crash
  wait_loop-no_crash i [] sh = if-no_crash (fg_at i sh.jobs) _ _ refl refl
  wait_loop-no_crash i (s ∷ ss) sh = elim (Bool-cases (fg_at i sh.jobs)) [
    | inl on ↦
        rw (on, wait_loop)
          (bind-no_crash (handle sys s sh) _ (handle-no_crash s sh)
            (λ sh'. wait_loop-no_crash i ss sh'))
    | inr off ↦ rw (off, wait_loop) refl
  ]

  waitfg-no_crash :
      (pid : ℕ) (ss : List Signal) (sh : Shell) → no_crash (waitfg sys pid ss sh) ≡ true
  unfolding waitfg no_crash
  waitfg-no_crash pid ss sh = elim (Option-cases (getjobpid sh.jobs pid)) [
    | inl missing ↦ rw (missing, waitfg) refl
    | inr (i, found) ↦ rw (found, waitfg) (wait_loop-no_crash i ss sh)
  ]

  resume-no_crash :
      (is_fg_cmd : Bool) (i : ℕ) (job : Job) (ss : List Signal) (sh : Shell)
      → no_crash (resume sys is_fg_cmd i job ss sh) ≡ true
  unfolding resume no_crash
  resume-no_crash is_fg_cmd i job ss sh =
      if-no_crash (not (sys.kill_ok job.pid sig_cont)) _ _ refl
        (if-no_crash is_fg_cmd _ _ (waitfg-no_crash job.pid ss _) refl)

  resume_found-no_crash :
      (cmd : Text) (f : Found) (ss : List Signal) (sh : Shell)
      → IsFound sh.jobs f
      → no_crash (resume_found sys cmd f ss sh) ≡ true
  unfolding resume_found no_crash
  resume_found-no_crash cmd (message m) ss sh h = refl
  resume_found-no_crash cmd (slot i) ss sh (x, at) =
      rw (at, resume_found) (resume-no_crash (text_eq cmd fg_text) i x ss sh)

  do_bgfg-no_crash :
      (args : List Text) (ss : List Signal) (sh : Shell) → no_crash (do_bgfg sys args ss sh) ≡ true
  unfolding do_bgfg no_crash
  do_bgfg-no_crash [] ss sh = refl
  do_bgfg-no_crash (cmd ∷ []) ss sh =
      if-no_crash (text_eq cmd fg_text || text_eq cmd bg_text) _ _ refl refl
  do_bgfg-no_crash (cmd ∷ param ∷ args) ss sh =
      if-no_crash (text_eq cmd fg_text || text_eq cmd bg_text) _ _
        (resume_found-no_crash cmd (find_job param sh.jobs) ss sh (find_job-IsFound param sh.jobs))
        refl

  launch-no_crash :
      (background_job : Bool) (line : Text) (ss : List Signal) (sh : Shell)
      → no_crash (launch sys background_job line ss sh) ≡ true
  unfolding launch no_crash
  launch-no_crash background_job line ss sh =
      if-no_crash (not sys.block_ok || leb (2 ^ 31) sys.fork) _ _ refl (
        if-no_crash (not sys.unblock_ok) _ _ refl
          (if-no_crash background_job _ _ refl (waitfg-no_crash sys.fork ss _)))

  eval_args-no_crash :
      (background_job : Bool) (args : List Text) (line : Text) (ss : List Signal) (sh : Shell)
      → no_crash (eval_args sys background_job args line ss sh) ≡ true
  unfolding eval_args builtin_cmd no_crash
  eval_args-no_crash background_job [] line ss sh = refl
  eval_args-no_crash background_job (cmd ∷ args) line ss sh =
      elim (Bool-cases (text_eq cmd quit_text)) [
        | inl quit ↦ rw (quit, eval_args, builtin_cmd) refl
        | inr no_quit ↦ elim (Bool-cases (text_eq cmd fg_text || text_eq cmd bg_text)) [
          | inl moves ↦
              rw (no_quit, moves, eval_args, builtin_cmd) (do_bgfg-no_crash (cmd ∷ args) ss sh)
          | inr no_move ↦ elim (Bool-cases (text_eq cmd jobs_text)) [
            | inl lists ↦ rw (no_quit, no_move, lists, eval_args, builtin_cmd) refl
            | inr other ↦
                rw (no_quit, no_move, other, eval_args, builtin_cmd)
                  (launch-no_crash background_job line ss sh)
          ]
        ]
      ]

  -- A line whose arguments fit the arrays.
  pub eval-no_crash :
      (line : Text) (ss : List Signal) (sh : Shell)
      → parseline line ≢ out_of_bounds
      → no_crash (eval sys line ss sh) ≡ true
  unfolding eval no_crash
  eval-no_crash line ss sh fits = by_parse (parseline line) (λ e. fits e)
    where
      by_parse :
          (q : Parsed)
          → q ≢ out_of_bounds
          → no_crash (elim q [
            | out_of_bounds ↦ crashed
            | parsed background_job args ↦ eval_args sys background_job args line ss sh
          ])
            ≡ true
      by_parse out_of_bounds h = absurd (h refl)
      by_parse (parsed background_job args) h = eval_args-no_crash background_job args line ss sh
