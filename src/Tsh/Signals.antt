-- ===== src/Tsh/Signals.antt =====
-- What the handlers of ASSN/ASSN5/tsh.c do to the job list, and when the wait ends.
use mathlib.Core.Path.{subst}
use csed.Prelude.{
  ℕ, zero, suc, ◌≡◌, refl, ◌≢◌, ◌∙◌, sym, false, none, some, List, [], ◌∷◌, arith, ◌==◌, inl, inr,
  Bool-cases, Option-cases, get_elem?, set, All, length-set, All-set, All-get_elem?,
}
use csed.Tsh.Jobs.{
  Job, JobState, st, is_fg, Effect, Shell, emit, lt_one, find_slot, clear_slot, clearjob, deletejob,
  getjobpid, fgpid, lost_track,
}
use csed.Tsh.Slots.{job_of, SlotOk, PidsDistinct-set, find_slot-some}
use csed.Tsh.JobMap.{IsWell, IsPid}
use csed.Tsh.Deletion.{deletejob-erase, deletejob-absent}
use csed.Tsh.Handlers.{
  Run, running, exited, blocked, crashed, Status, stopped, exit_code, signaled, Signal, sigchld,
  sigint, sigtstp, sigquit, mark, reap_ended, stop_job, sigchld_handler, System, forward, handle,
  fg_at,
}

-- No slot is newly in the foreground.
abbrev pub Quieter : Shell → Shell → Type 0
Quieter sh sh' = (j : ℕ) → fg_at j sh.jobs ≡ false → fg_at j sh'.jobs ≡ false

pub record Keeps (sh sh' : Shell) : Type 0 where
  pub well : IsWell sh'
  pub quieter : Quieter sh sh'

pub fg_at-set :
    (xs : List Job) (i j : ℕ) (new : Job)
    → is_fg new.state ≡ false
    → fg_at j xs ≡ false
    → fg_at j (set xs i new) ≡ false
fg_at-set [] i j new idle h = refl
fg_at-set (x ∷ xs) zero zero new idle h = idle
fg_at-set (x ∷ xs) zero (suc j) new idle h = h
fg_at-set (x ∷ xs) (suc i) zero new idle h = h
fg_at-set (x ∷ xs) (suc i) (suc j) new idle h = fg_at-set xs i j new idle h

-- A pointer that `getjobpid` returns leads to a job with that process id.
pub getjobpid-some :
    (jobs : List Job) (pid i : ℕ)
    → getjobpid jobs pid ≡ some i
    → (x : Job) × (get_elem? jobs i ≡ some x) × (x.pid ≡ pid) × (pid ≢ 0)
unfolding getjobpid lt_one
getjobpid-some jobs pid i h =
    let found : find_slot (λ j. j.pid == pid) jobs ≡ some i = ground arith in
    let (x, at, test) = find_slot-some (λ j. j.pid == pid) jobs i found in
    (x, at, ground arith, ground arith)

pub mark-set :
    (i : ℕ) (state : JobState) (sh : Shell) {x : Job}
    → get_elem? sh.jobs i ≡ some x
    → mark i state sh ≡ record sh { jobs = set sh.jobs i (record x { state = state }) }
unfolding mark
mark-set i state sh at = rw (at, mark)

-- The state of a live job changes, and nothing else.
pub mark-IsWell :
    (i : ℕ) (state : JobState) (sh : Shell) (x : Job)
    → IsWell sh
    → get_elem? sh.jobs i ≡ some x
    → x.pid ≢ 0
    → IsWell (mark i state sh)
mark-IsWell i state sh x w at live =
    let new : Job = record x { state = state } in
    let ok = All-get_elem? SlotOk sh.jobs i w.each at in
    rw (mark-set i state sh at) (record {
      slots = length-set sh.jobs i new ∙ w.slots;
      distinct = PidsDistinct-set new sh.jobs i at w.distinct (inr (inr refl));
      each = All-set SlotOk sh.jobs i new w.each (record {
        pid_small = ok.pid_small;
        jid_small = ok.jid_small;
        free = λ none. absurd (live none);
      });
      next_small = w.next_small;
      next_pos = w.next_pos;
    })

pub mark-Quieter :
    (i : ℕ) (state : JobState) (sh : Shell) (x : Job)
    → get_elem? sh.jobs i ≡ some x
    → is_fg state ≡ false
    → Quieter sh (mark i state sh)
mark-Quieter i state sh x at idle j h =
    rw (mark-set i state sh at) (fg_at-set sh.jobs i j (record x { state = state }) idle h)

clear_slot-fg_at :
    (i j : ℕ) (xs : List Job) → fg_at j xs ≡ false → fg_at j (clear_slot i xs) ≡ false
unfolding clear_slot clearjob
clear_slot-fg_at i j xs h = elim (Option-cases (get_elem? xs i)) [
  | inl out ↦ rw (out, clear_slot) h
  | inr (x, at) ↦ rw (at, clear_slot) (fg_at-set xs i j (clearjob x) refl h)
]

deletejob-Quieter : (pid : ℕ) (sh : Shell) → Quieter sh (deletejob pid sh).1
unfolding deletejob
deletejob-Quieter pid sh j h = elim (Bool-cases (lt_one pid)) [
  | inl refused ↦ rw refused h
  | inr pos ↦ elim (Option-cases (find_slot (λ x. x.pid == pid) sh.jobs)) [
    | inl missing ↦ rw (pos, missing) h
    | inr (i, found) ↦ rw (pos, found) (clear_slot-fg_at i j sh.jobs h)
  ]
]

pub deletejob-IsWell : (pid : ℕ) (sh : Shell) → IsWell sh → IsPid pid → IsWell (deletejob pid sh).1
deletejob-IsWell pid sh w p = elim (Option-cases (job_of sh.jobs pid)) [
  | inl absent ↦ rw (deletejob-absent pid sh w p absent) w
  | inr (x, held) ↦ (deletejob-erase pid sh w p x held).1
]

pub emit-IsWell : (e : Effect) (sh : Shell) → IsWell sh → IsWell (emit e sh)
unfolding emit
emit-IsWell e sh w = record {
  slots = w.slots;
  distinct = w.distinct;
  each = w.each;
  next_small = w.next_small;
  next_pos = w.next_pos;
}

emit-Keeps : (e : Effect) (sh sh' : Shell) → Keeps sh sh' → Keeps sh (emit e sh')
unfolding emit
emit-Keeps e sh sh' k = record { well = emit-IsWell e sh' k.well; quieter = k.quieter }

Keeps-trans : (f g h : Shell) → Keeps f g → Keeps g h → Keeps f h
Keeps-trans f g h a b = record { well = b.well; quieter = λ j q. b.quieter j (a.quieter j q) }

pub Keeps-refl : (sh : Shell) → IsWell sh → Keeps sh sh
Keeps-refl sh w = record { well = w; quieter = λ j q. q }

stop_job-Keeps :
    (i pid sig : ℕ) (sh : Shell)
    → IsWell sh
    → getjobpid sh.jobs pid ≡ some i
    → Keeps sh (stop_job i pid sig sh)
unfolding stop_job
stop_job-Keeps i pid sig sh w found =
    let (x, at, same, ne) = getjobpid-some sh.jobs pid i found in
    emit-Keeps _ sh (mark i st sh) (record {
      well = mark-IsWell i st sh x w at (λ none. ne (omega arith));
      quieter = mark-Quieter i st sh x at refl;
    })

delete-Keeps :
    (pid : ℕ) (sh sh' : Shell) → IsPid pid → Keeps sh sh' → Keeps sh (deletejob pid sh').1
delete-Keeps pid sh sh' p k =
    Keeps-trans sh sh' _ k
      (record { well = deletejob-IsWell pid sh' k.well p; quieter = deletejob-Quieter pid sh' })

abbrev pub ArePids : List (ℕ × Status) → Type 0
ArePids = All (λ c. IsPid c.0)

-- A run keeps what the shell had, if it returns.
abbrev pub RunKeeps : Shell → Run Shell → Type 0
RunKeeps sh (running sh') = Keeps sh sh'
RunKeeps sh (exited code sh') = Unit
RunKeeps sh (blocked sh') = Unit
RunKeeps sh crashed = Unit

pub RunKeeps-trans : (f g : Shell) (r : Run Shell) → Keeps f g → RunKeeps g r → RunKeeps f r
RunKeeps-trans f g (running h) a b = Keeps-trans f g h a b
RunKeeps-trans f g (exited code h) a b = tt
RunKeeps-trans f g (blocked h) a b = tt
RunKeeps-trans f g crashed a b = tt

sigchld_handler-lost :
    (pid sig : ℕ) (cs : List (ℕ × Status)) (sh : Shell)
    → getjobpid sh.jobs pid ≡ none
    → sigchld_handler ((pid, stopped sig) ∷ cs) sh ≡ running (emit (lost_track pid) sh)
unfolding sigchld_handler
sigchld_handler-lost pid sig cs sh lost = rw (lost, sigchld_handler)

pub sigchld_handler-stopped :
    (pid sig i : ℕ) (cs : List (ℕ × Status)) (sh : Shell)
    → getjobpid sh.jobs pid ≡ some i
    → sigchld_handler ((pid, stopped sig) ∷ cs) sh ≡ sigchld_handler cs (stop_job i pid sig sh)
unfolding sigchld_handler
sigchld_handler-stopped pid sig i cs sh found = rw (found, sigchld_handler)

-- The handler of `SIGCHLD` keeps the invariant, and brings no job to the foreground.
pub sigchld_handler-Keeps :
    (cs : List (ℕ × Status)) (sh : Shell)
    → IsWell sh
    → ArePids cs
    → RunKeeps sh (sigchld_handler cs sh)
unfolding sigchld_handler reap_ended
sigchld_handler-Keeps [] sh w p = Keeps-refl sh w
sigchld_handler-Keeps ((pid, stopped sig) ∷ cs) sh w p =
    elim (Option-cases (getjobpid sh.jobs pid)) [
      | inl lost ↦
          subst (RunKeeps sh) (sym (sigchld_handler-lost pid sig cs sh lost))
            (emit-Keeps (lost_track pid) sh sh (Keeps-refl sh w))
      | inr (i, found) ↦
          let k = stop_job-Keeps i pid sig sh w found in
          subst (RunKeeps sh) (sym (sigchld_handler-stopped pid sig i cs sh found))
            (RunKeeps-trans sh _ _ k (sigchld_handler-Keeps cs _ k.well p.1))
    ]
sigchld_handler-Keeps ((pid, exit_code c) ∷ cs) sh w p =
    let k = delete-Keeps pid sh sh p.0 (Keeps-refl sh w) in
    RunKeeps-trans sh _ _ k (sigchld_handler-Keeps cs _ k.well p.1)
sigchld_handler-Keeps ((pid, signaled sig) ∷ cs) sh w p =
    let k = delete-Keeps pid sh _ p.0 (emit-Keeps _ sh sh (Keeps-refl sh w)) in
    RunKeeps-trans sh _ _ k (sigchld_handler-Keeps cs _ k.well p.1)

-- A signal of the shell, with process ids that `waitpid` can give.
abbrev pub SignalOk : Signal → Type 0
SignalOk (sigchld cs) = ArePids cs
SignalOk sigint = Unit
SignalOk sigtstp = Unit
SignalOk sigquit = Unit

module _ (sys : System) where
  forward-Keeps : (sig : ℕ) (sh : Shell) → IsWell sh → RunKeeps sh (forward sys sig sh)
  unfolding forward
  forward-Keeps sig sh w = elim (Bool-cases (fgpid sh.jobs == 0)) [
    | inl none_fg ↦ rw none_fg (Keeps-refl sh w)
    | inr pos ↦ elim (Bool-cases (sys.kill_ok (fgpid sh.jobs) sig)) [
      | inl sent ↦ rw (pos, sent) (emit-Keeps _ sh sh (Keeps-refl sh w))
      | inr refused ↦ rw (pos, refused) tt
    ]
  ]

  -- A handler that returns, of a signal that reports process ids, keeps the invariant of the job
  -- list and brings no job to the foreground.
  pub handle-Keeps :
      (s : Signal) (sh : Shell) → IsWell sh → SignalOk s → RunKeeps sh (handle sys s sh)
  unfolding handle
  handle-Keeps (sigchld cs) sh w p = sigchld_handler-Keeps cs sh w p
  handle-Keeps sigint sh w p = forward-Keeps 2 sh w
  handle-Keeps sigtstp sh w p = forward-Keeps 20 sh w
  handle-Keeps sigquit sh w p = tt
