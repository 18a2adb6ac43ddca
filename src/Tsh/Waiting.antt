-- ===== src/Tsh/Waiting.antt =====
-- The wait of ASSN/ASSN5/tsh.c for a foreground job ends when the job has ended or stopped.
use mathlib.Core.Option.{some-injective}
use mathlib.Core.Path.{subst}
use csed.Prelude.{
  ◌++◌, false, sym, inl, inr, Bool-cases, Option-cases, All, All-get_elem?, get_elem?-set_ne, ℕ,
  ◌≡◌, refl, ◌≢◌, ◌∙◌, ap, true, false, some, List, [], ◌∷◌, arith, ◌==◌, get_elem?,
  get_elem?-set_self, lt_of_get_elem?,
}
use csed.Tsh.Jobs.{
  Job, fg, st, Shell, emit, find_slot, lt_one, getjobpid, is_fg, clearjob, deletejob, pid2jid,
  terminated_by, lost_track, Effect,
}
use csed.Tsh.Slots.{SlotOk, find_slot-some}
use csed.Tsh.JobMap.{IsWell, IsPid}
use csed.Tsh.Deletion.{clear_slot-set}
use csed.Tsh.Handlers.{
  running, ◌>>=◌, Status, stopped, exit_code, signaled, Signal, sigchld, stop_job, reap_ended,
  sigchld_handler, System, handle, fg_at, wait_loop, waitfg,
}
use csed.Tsh.Signals.{
  ArePids, RunKeeps, sigchld_handler-Keeps, deletejob-IsWell, mark-IsWell, emit-IsWell,
  sigchld_handler-stopped,
}
use csed.Tsh.Foreground.{wait_loop-on, wait_loop-off}
use csed.Tsh.Resume.{getjobpid-live, mark-at, waitfg-found}

fg_at-some :
    (jobs : List Job) (i : ℕ) {x : Job} → get_elem? jobs i ≡ some x → fg_at i jobs ≡ is_fg x.state
fg_at-some jobs i at = rw (at, fg_at)

find_slot-live :
    (sh : Shell) (i : ℕ) (x : Job)
    → IsWell sh
    → get_elem? sh.jobs i ≡ some x
    → x.pid ≢ 0
    → (lt_one x.pid ≡ false) × (find_slot (λ j. j.pid == x.pid) sh.jobs ≡ some i)
unfolding getjobpid
find_slot-live sh i x w at ne = let found = getjobpid-live sh i x w at ne in ground arith

deletejob-off :
    (sh : Shell) (i : ℕ) (x : Job)
    → IsWell sh
    → get_elem? sh.jobs i ≡ some x
    → x.pid ≢ 0
    → fg_at i (deletejob x.pid sh).1.jobs ≡ false
unfolding deletejob clearjob
deletejob-off sh i x w at ne =
    let (pos, found) = find_slot-live sh i x w at ne in
    let new = get_elem?-set_self sh.jobs i (clearjob x) (lt_of_get_elem? sh.jobs i at) in
    rw (pos, found) (rw (clear_slot-set sh.jobs i at) (fg_at-some _ i new))

-- The handler of `SIGCHLD` returns, keeps the invariant, and brings no job to the foreground.
pub sigchld_handler-returns :
    (cs : List (ℕ × Status)) (sh : Shell) → (sh' : Shell) × (sigchld_handler cs sh ≡ running sh')
unfolding sigchld_handler reap_ended
sigchld_handler-returns [] sh = (sh, refl)
sigchld_handler-returns ((pid, stopped sig) ∷ cs) sh = elim (Option-cases (getjobpid sh.jobs pid)) [
  | inl lost ↦ (emit (lost_track pid) sh, rw (lost, sigchld_handler) refl)
  | inr (i, found) ↦
      let (sh', run) = sigchld_handler-returns cs (stop_job i pid sig sh) in
      (sh', sigchld_handler-stopped pid sig i cs sh found ∙ run)
]
sigchld_handler-returns ((pid, exit_code c) ∷ cs) sh = sigchld_handler-returns cs _
sigchld_handler-returns ((pid, signaled sig) ∷ cs) sh = sigchld_handler-returns cs _

-- The report of a child other than `pid` that has ended.
abbrev pub EndedOther : ℕ → ℕ × Status → Type 0
EndedOther pid (q, stopped sig) = false ≡ true
EndedOther pid (q, exit_code c) = IsPid q × (q ≢ pid)
EndedOther pid (q, signaled sig) = IsPid q × (q ≢ pid)

module _ (i : ℕ) (x : Job) where
  -- The slot of the job, in a well-formed state.
  record Holds (sh : Shell) : Type 0 where
    well : IsWell sh
    at : get_elem? sh.jobs i ≡ some x

  deletejob-Holds : (q : ℕ) (sh : Shell) → IsPid q → q ≢ x.pid → Holds sh → Holds (deletejob q sh).1
  unfolding deletejob
  deletejob-Holds q sh p ne h = record { well = deletejob-IsWell q sh h.well p; at = kept }
    where
      kept : get_elem? (deletejob q sh).1.jobs i ≡ some x
      kept = elim (Bool-cases (lt_one q)) [
        | inl refused ↦ rw refused h.at
        | inr pos ↦ elim (Option-cases (find_slot (λ j. j.pid == q) sh.jobs)) [
          | inl missing ↦ rw (pos, missing) h.at
          | inr (k, found) ↦
              let (y, at, test) = find_slot-some (λ j. j.pid == q) sh.jobs k found in
              let apart : k ≢ i = λ same. ne (
                let here : some y ≡ some x = sym at ∙ ap (get_elem? sh.jobs) same ∙ h.at in
                let same_pid : y.pid ≡ x.pid = ap (λ j. j.pid) (some-injective y x here) in
                ground (arith, test, same_pid)) in
              rw (pos, found)
                (rw (clear_slot-set sh.jobs k at)
                  (get_elem?-set_ne sh.jobs k i (clearjob y) apart ∙ h.at))
        ]
      ]

  emit-Holds : (e : Effect) (sh : Shell) → Holds sh → Holds (emit e sh)
  unfolding emit
  emit-Holds e sh h = record { well = emit-IsWell e sh h.well; at = h.at }

  -- The reports of other children that have ended come first.
  skipped :
      (before rest : List (ℕ × Status)) (sh : Shell)
      → Holds sh
      → All (EndedOther x.pid) before
      → (sh' : Shell) × Holds sh' × (sigchld_handler (before ++ rest) sh ≡ sigchld_handler rest sh')
  unfolding sigchld_handler reap_ended
  skipped [] rest sh h ok = (sh, h, refl)
  skipped ((q, stopped sig) ∷ before) rest sh h ok = absurd (cc (ok.0))
  skipped ((q, exit_code c) ∷ before) rest sh h ok =
      skipped before rest _ (deletejob-Holds q sh ok.0.0 ok.0.1 h) ok.1
  skipped ((q, signaled sig) ∷ before) rest sh h ok =
      skipped before rest _ (deletejob-Holds q _ ok.0.0 ok.0.1 (emit-Holds _ sh h)) ok.1

  module _ (ne : x.pid ≢ 0) where
    -- The report of the job itself: the slot has left the foreground.
    Reaped : Status → List (ℕ × Status) → Shell → Type 0
    Reaped status after sh =
        (sh' : Shell) × (sigchld_handler ((x.pid, status) ∷ after) sh ≡ sigchld_handler after sh')
        × IsWell sh'
        × (fg_at i sh'.jobs ≡ false)

    x-IsPid : (sh : Shell) → Holds sh → IsPid x.pid
    x-IsPid sh h =
        let ok = All-get_elem? SlotOk sh.jobs i h.well.each h.at in (omega arith, ok.pid_small)

    reported :
        (status : Status) (after : List (ℕ × Status)) (sh : Shell)
        → Holds sh
        → Reaped status after sh
    unfolding Reaped sigchld_handler reap_ended stop_job
    reported (stopped sig) after sh h = (
      stop_job i x.pid sig sh,
      sigchld_handler-stopped x.pid sig i after sh (getjobpid-live sh i x h.well h.at ne),
      emit-IsWell _ _ (mark-IsWell i st sh x h.well h.at ne),
      unfold emit in fg_at-some _ i (mark-at i st sh x h.at),
    )
    reported (exit_code c) after sh h = (
      (deletejob x.pid sh).1,
      refl,
      deletejob-IsWell x.pid sh h.well (x-IsPid sh h),
      deletejob-off sh i x h.well h.at ne,
    )
    reported (signaled sig) after sh h =
        let told = emit (terminated_by (pid2jid sh.jobs x.pid) x.pid sig) sh in
        let k = emit-Holds (terminated_by (pid2jid sh.jobs x.pid) x.pid sig) sh h in
        (
          (deletejob x.pid told).1,
          refl,
          deletejob-IsWell x.pid told k.well (x-IsPid sh h),
          deletejob-off told i x k.well k.at ne,
        )

    handled :
        (status : Status) (before after : List (ℕ × Status)) (sh : Shell)
        → Holds sh
        → All (EndedOther x.pid) before
        → ArePids after
        → (sh' : Shell) × (sigchld_handler (before ++ (x.pid, status) ∷ after) sh ≡ running sh')
          × (fg_at i sh'.jobs ≡ false)
    unfolding Reaped
    handled status before after sh h ok pids =
        let (sh1, h1, first) = skipped before ((x.pid, status) ∷ after) sh h ok in
        let (sh2, second, w, off) = reported status after sh1 h1 in
        let (sh3, third) = sigchld_handler-returns after sh2 in
        let k = subst (RunKeeps sh2) third (sigchld_handler-Keeps after sh2 w pids) in
        (sh3, first ∙ second ∙ third, k.quieter i off)

wait_loop-done :
    (sys : System) (i : ℕ) (ss : List Signal) (sh : Shell)
    → fg_at i sh.jobs ≡ false
    → wait_loop sys i ss sh ≡ running (sh, ss)
unfolding wait_loop
wait_loop-done sys i [] sh off = rw off
wait_loop-done sys i (s ∷ ss) sh off = wait_loop-off sys i s ss sh off

-- In a well-formed state, waitfg for a process whose job is in the foreground returns when the
-- next signal is a SIGCHLD that reports that process, whatever its status, if all children
-- reported before it are other ones that have ended, not stopped; whatever children are reported
-- after it. The later signals are still to come, and the job has left the foreground.
pub waitfg-reaped :
    (i : ℕ) (x : Job) (sh : Shell) (sys : System) (status : Status)
    (before after : List (ℕ × Status)) (ss : List Signal)
    → IsWell sh
    → get_elem? sh.jobs i ≡ some x
    → x.pid ≢ 0
    → x.state ≡ fg
    → All (EndedOther x.pid) before
    → ArePids after
    → (sh' : Shell) × (waitfg sys x.pid (sigchld (before ++ (x.pid, status) ∷ after) ∷ ss) sh
        ≡ running (sh', ss))
      × (fg_at i sh'.jobs ≡ false)
unfolding handle
waitfg-reaped i x sh sys status before after ss w at ne in_fg ok pids =
    let (sh', run, off) =
      handled i x ne status before after sh (record { well = w; at = at }) ok pids in
    let on : fg_at i sh.jobs ≡ true = fg_at-some sh.jobs i at ∙ ap is_fg in_fg in
    (
      sh',
      waitfg-found sys x.pid i _ sh (getjobpid-live sh i x w at ne)
          ∙ wait_loop-on sys i _ ss sh on
          ∙ ap (λ r. r >>= wait_loop sys i ss) run
          ∙ wait_loop-done sys i ss sh' off,
      off,
    )
