-- ===== src/Tsh/Resume.antt =====
-- The commands `fg` and `bg` of ASSN/ASSN5/tsh.c, and the wait for the process that they resume.
use mathlib.Core.Path.{subst}
use csed.Prelude.{
  ℕ, zero, suc, ◌≡◌, refl, ◌≢◌, sym, ap, Bool, true, false, some, List, [], ◌∷◌, arith, ◌==◌,
  if◌then◌else◌, inl, inr, Bool-cases, Option-cases, get_elem?, All, All-get_elem?,
  get_elem?-set_self, lt_of_get_elem?,
}
use csed.Tsh.Jobs.{
  Job, JobState, fg, bg, Effect, Shell, emit, lt_one, find_slot, getjobpid, getjobjid, Text, killed,
  background,
}
use csed.Tsh.Slots.{PidsDistinct, SlotOk, find_slot-some, find_slot-none, job_of-get_elem?}
use csed.Tsh.JobMap.{IsWell, IsPid, lt_one-IsPid}
use csed.Tsh.Handlers.{running, Signal, mark, System, waitfg, wait_loop, sig_cont}
use csed.Tsh.Signals.{SignalOk, getjobpid-some, mark-IsWell, mark-set, mark-Quieter, emit-IsWell}
use csed.Tsh.Foreground.{OnlyFg-set, NoFg, OnlyFg, AtPrompt, ToPrompt, wait_loop-ToPrompt}
use csed.Tsh.Shell.{slot, find_job, int_of_text, resume}

-- A process id stands in one slot.
slot_unique :
    (xs : List Job) (i k : ℕ) {x y : Job}
    → PidsDistinct xs
    → get_elem? xs i ≡ some x
    → get_elem? xs k ≡ some y
    → x.pid ≡ y.pid
    → x.pid ≢ 0
    → i ≡ k
slot_unique [] i k d h h' same ne = cc
slot_unique (z ∷ xs) zero zero d h h' same ne = refl
slot_unique (z ∷ xs) zero (suc k) d h h' same ne =
    absurd (job_of-get_elem? xs k h' (ground (arith, d.0)))
slot_unique (z ∷ xs) (suc i) zero d h h' same ne =
    absurd (job_of-get_elem? xs i h (ground (arith, d.0)))
slot_unique (z ∷ xs) (suc i) (suc k) d h h' same ne = ap suc (slot_unique xs i k d.1 h h' same ne)

-- The pointer to a live job is found by its process id.
pub getjobpid-live :
    (sh : Shell) (i : ℕ) (x : Job)
    → IsWell sh
    → get_elem? sh.jobs i ≡ some x
    → x.pid ≢ 0
    → getjobpid sh.jobs x.pid ≡ some i
unfolding getjobpid
getjobpid-live sh i x w at ne =
    let p : IsPid x.pid = (omega arith, (All-get_elem? SlotOk sh.jobs i w.each at).pid_small) in
    elim (Option-cases (find_slot (λ j. j.pid == x.pid) sh.jobs)) [
      | inl missing ↦
          let test = find_slot-none (λ j. j.pid == x.pid) sh.jobs i missing at in
          absurd (ground arith)
      | inr (k, found) ↦
          let (y, at', test) = find_slot-some (λ j. j.pid == x.pid) sh.jobs k found in
          let one : i ≡ k = slot_unique sh.jobs i k w.distinct at at' (ground arith) ne in
          rw (lt_one-IsPid x.pid p, found, one)
    ]

mark-OnlyFg :
    (i : ℕ) (state : JobState) (sh : Shell) (x : Job)
    → get_elem? sh.jobs i ≡ some x
    → NoFg sh.jobs
    → OnlyFg i (mark i state sh).jobs
mark-OnlyFg i state sh x at idle j ne =
    rw (mark-set i state sh at) (OnlyFg-set sh.jobs i _ idle j ne)

pub mark-at :
    (i : ℕ) (state : JobState) (sh : Shell) (x : Job)
    → get_elem? sh.jobs i ≡ some x
    → get_elem? (mark i state sh).jobs i ≡ some (record x { state = state })
mark-at i state sh x at =
    rw (mark-set i state sh at) (get_elem?-set_self sh.jobs i _ (lt_of_get_elem? sh.jobs i at))

module _ (sys : System) where
  pub waitfg-found :
      (pid i : ℕ) (ss : List Signal) (sh : Shell)
      → getjobpid sh.jobs pid ≡ some i
      → waitfg sys pid ss sh ≡ wait_loop sys i ss sh
  unfolding waitfg
  waitfg-found pid i ss sh found = rw (found, waitfg)

  -- The wait for the process of the one slot that may be in the foreground.
  pub waitfg-ToPrompt :
      (i : ℕ) (x : Job) (ss : List Signal) (sh : Shell)
      → IsWell sh
      → get_elem? sh.jobs i ≡ some x
      → x.pid ≢ 0
      → OnlyFg i sh.jobs
      → All SignalOk ss
      → ToPrompt (waitfg sys x.pid ss sh)
  waitfg-ToPrompt i x ss sh w at ne only ok =
      subst ToPrompt (sym (waitfg-found x.pid i ss sh (getjobpid-live sh i x w at ne)))
        (wait_loop-ToPrompt sys i ss sh w only ok)

  module _ (i : ℕ) (x : Job) (ss : List Signal) (sh : Shell) (a : AtPrompt sh)
      (at : get_elem? sh.jobs i ≡ some x) (ne : x.pid ≢ 0) (ok : All SignalOk ss) where
    abbrev told : Shell
    told = emit (killed x.pid sig_cont) sh

    told-IsWell : IsWell told
    told-IsWell = emit-IsWell _ sh a.well

    told-at : get_elem? told.jobs i ≡ some x
    unfolding emit
    told-at = at

    told-idle : NoFg told.jobs
    unfolding emit
    told-idle = a.idle

    resume-fg : ToPrompt (waitfg sys x.pid ss (mark i fg told))
    resume-fg =
        waitfg-ToPrompt i (record x { state = fg }) ss (mark i fg told)
          (mark-IsWell i fg told x told-IsWell told-at ne) (mark-at i fg told x told-at) ne
          (mark-OnlyFg i fg told x told-at told-idle) ok

    resume-bg : (e : Effect) → AtPrompt (emit e (mark i bg told))
    resume-bg e = record {
      well = emit-IsWell e _ (mark-IsWell i bg told x told-IsWell told-at ne);
      idle = λ j. unfold emit in mark-Quieter i bg told x told-at refl j (told-idle j);
    }

    -- Resuming a live job ends at the prompt again, where it returns.
    pub resume-ToPrompt : (is_fg_cmd : Bool) → ToPrompt (resume sys is_fg_cmd i x ss sh)
    unfolding resume
    resume-ToPrompt is_fg_cmd = elim (Bool-cases (sys.kill_ok x.pid sig_cont)) [
      | inr refused ↦ rw refused tt
      | inl sent ↦ rw sent (by_command is_fg_cmd)
    ]
      where
        by_command :
            (b : Bool)
            → ToPrompt (
                if b
                then waitfg sys x.pid ss (mark i fg told)
                else running (emit (background x.jid x.pid x.cmdline) (mark i bg told), ss))
        by_command true = resume-fg
        by_command false = (resume-bg _, ok)

getjobjid-live :
    (sh : Shell) (jid i : ℕ)
    → IsWell sh
    → getjobjid sh.jobs jid ≡ some i
    → (x : Job) × (get_elem? sh.jobs i ≡ some x) × (x.pid ≢ 0)
unfolding getjobjid lt_one
getjobjid-live sh jid i w h =
    let found : find_slot (λ j. j.jid == jid) sh.jobs ≡ some i = ground arith in
    let (x, at, test) = find_slot-some (λ j. j.jid == jid) sh.jobs i found in
    let live : jid ≢ 0 = ground arith in
    let ok = All-get_elem? SlotOk sh.jobs i w.each at in
    (x, at, λ none. live (ground (arith, (ok.free none).0)))

getjobpid-slot :
    (sh : Shell) (pid i : ℕ)
    → getjobpid sh.jobs pid ≡ some i
    → (x : Job) × (get_elem? sh.jobs i ≡ some x) × (x.pid ≢ 0)
getjobpid-slot sh pid i h =
    let (x, at, same, ne) = getjobpid-some sh.jobs pid i h in (x, at, λ none. ne (omega arith))

-- A slot that the argument of `fg` or `bg` names holds a live job.
pub find_job-live :
    (param : Text) (sh : Shell) (i : ℕ)
    → IsWell sh
    → find_job param sh.jobs ≡ slot i
    → (x : Job) × (get_elem? sh.jobs i ≡ some x) × (x.pid ≢ 0)
unfolding find_job
find_job-live [] sh i w h = getjobpid-slot sh (int_of_text []) i (ground arith)
find_job-live (c ∷ cs) sh i w h = elim (Bool-cases (c == b'%')) [
  | inl percent ↦ getjobjid-live sh (int_of_text cs) i w (ground arith)
  | inr other ↦ getjobpid-slot sh (int_of_text (c ∷ cs)) i (ground arith)
]
