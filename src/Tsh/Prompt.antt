-- ===== src/Tsh/Prompt.antt =====
-- `eval` of ASSN/ASSN5/tsh.c leads from prompt to prompt.
use mathlib.Core.Path.{subst}
use mathlib.Core.Option.{some-injective}
use csed.Prelude.{
  ℕ, ◌+◌, ◌^◌, ◌<◌, ◌≡◌, refl, ◌≢◌, sym, Bool, true, false, not, ◌||◌, none, some, List, [], ◌∷◌,
  arith, ◌==◌, leb, if◌then◌else◌, inl, inr, Bool-cases, Option-cases, get_elem?, All,
  get_elem?-set_self, lt_of_get_elem?,
}
use csed.Tsh.Jobs.{
  Job, JobState, fg, bg, Shell, emit, find_slot, getjobpid, Text, addjob, fill_slot, too_many_jobs,
  listjobs,
}
use csed.Tsh.Slots.{job_of, find_slot-some, job_of-get_elem?}
use csed.Tsh.JobMap.{IsPid, added, fill_slot-jobs, fill_slot-IsWell, addjob-fill, addjob-full}
use csed.Tsh.Parse.{Parsed, parsed, out_of_bounds, parseline}
use csed.Tsh.Handlers.{crashed, Signal, System, waitfg}
use csed.Tsh.Signals.{SignalOk, fg_at-set, getjobpid-some}
use csed.Tsh.Foreground.{OnlyFg-set, emit-AtPrompt, AtPrompt, ToPrompt}
use csed.Tsh.Resume.{waitfg-ToPrompt, resume-ToPrompt, find_job-live}
use csed.Tsh.Shell.{
  Found, slot, message, find_job, resume, resume_found, do_bgfg, Result, builtin_cmd, launch,
  eval_args, eval, text_eq, quit_text, fg_text, bg_text, jobs_text,
}

module _ (sys : System) (ss : List Signal) (sh : Shell) (a : AtPrompt sh)
    (ok : All SignalOk ss) where
  resume_found-slot :
      (cmd : Text) (i : ℕ) (x : Job)
      → get_elem? sh.jobs i ≡ some x
      → resume_found sys cmd (slot i) ss sh ≡ resume sys (text_eq cmd fg_text) i x ss sh
  unfolding resume_found
  resume_found-slot cmd i x at = rw (at, resume_found)

  resume_found-ToPrompt :
      (cmd : Text) (f : Found)
      → ((i : ℕ) → f ≡ slot i → (x : Job) × (get_elem? sh.jobs i ≡ some x) × (x.pid ≢ 0))
      → ToPrompt (resume_found sys cmd f ss sh)
  unfolding resume_found
  resume_found-ToPrompt cmd (message m) live = (emit-AtPrompt _ sh a, ok)
  resume_found-ToPrompt cmd (slot i) live =
      let (x, at, ne) = live i refl in
      subst ToPrompt (sym (resume_found-slot cmd i x at))
        (resume-ToPrompt sys i x ss sh a at ne ok (text_eq cmd fg_text))

  do_bgfg-ToPrompt : (args : List Text) → ToPrompt (do_bgfg sys args ss sh)
  unfolding do_bgfg
  do_bgfg-ToPrompt [] = tt
  do_bgfg-ToPrompt (cmd ∷ []) = elim (Bool-cases (text_eq cmd fg_text || text_eq cmd bg_text)) [
    | inl named ↦ rw named (emit-AtPrompt _ sh a, ok)
    | inr other ↦ rw other tt
  ]
  do_bgfg-ToPrompt (cmd ∷ param ∷ args) =
      elim (Bool-cases (text_eq cmd fg_text || text_eq cmd bg_text)) [
        | inl named ↦ rw named (
            resume_found-ToPrompt cmd (find_job param sh.jobs)
              (λ i. find_job-live param sh i a.well))
        | inr other ↦ rw other tt
      ]

  builtin_cmd-ToPrompt :
      (cmd : Text) (args : List Text) {r : Result}
      → builtin_cmd sys cmd args ss sh ≡ some r
      → ToPrompt r
  unfolding builtin_cmd
  builtin_cmd-ToPrompt cmd args h = elim (Bool-cases (text_eq cmd quit_text)) [
    | inl quits ↦ subst ToPrompt (some-injective _ _ (rw quits at h)) tt
    | inr stays ↦ elim (Bool-cases (text_eq cmd fg_text || text_eq cmd bg_text)) [
      | inl resumes ↦
          subst ToPrompt (some-injective _ _ (rw (stays, resumes) at h))
            (do_bgfg-ToPrompt (cmd ∷ args))
      | inr other ↦ elim (Bool-cases (text_eq cmd jobs_text)) [
        | inl lists ↦
            subst ToPrompt (some-injective _ _ (rw (stays, other, lists) at h)) (listed, ok)
        | inr unknown ↦ cc (rw (stays, other, unknown) at h)
      ]
    ]
  ]
    where
      listed : AtPrompt (record sh { effects = listjobs sh.jobs sh.effects })
      listed = record {
        well = record {
          slots = a.well.slots;
          distinct = a.well.distinct;
          each = a.well.each;
          next_small = a.well.next_small;
          next_pos = a.well.next_pos;
        };
        idle = a.idle;
      }

  -- The new process is not known to the shell, as `fork` promises.
  module _ (p : IsPid sys.fork) (new : job_of sh.jobs sys.fork ≡ none)
      (small : sh.nextjid + 1 < 2 ^ 31) where
    -- The state behind the call of `addjob`, from which a background job returns and a foreground
    -- job is waited for.
    abbrev Launched : Bool → Shell → Type 0
    Launched true sh' = AtPrompt sh'
    Launched false sh' = ToPrompt (waitfg sys sys.fork ss sh')

    abbrev kind : Bool → JobState
    kind b = if b then bg else fg

    full-Launched : (b : Bool) → Launched b (emit too_many_jobs sh)
    unfolding waitfg emit
    full-Launched true = emit-AtPrompt too_many_jobs sh a
    full-Launched false = elim (Option-cases (getjobpid sh.jobs sys.fork)) [
      | inl missing ↦ rw (missing, waitfg) (emit-AtPrompt too_many_jobs sh a, ok)
      | inr (i, found) ↦
          let (x, at, same, ne) = getjobpid-some sh.jobs sys.fork i found in
          absurd (job_of-get_elem? sh.jobs i at (rw same new))
    ]

    module _ (i : ℕ) (x : Job) (line : Text) (at : get_elem? sh.jobs i ≡ some x) where
      fill-Launched : (b : Bool) → Launched b (fill_slot i sys.fork (kind b) line sh)
      fill-Launched true = record {
        well = fill_slot-IsWell sys.fork bg line sh i x a.well p new small at;
        idle = λ j.
            rw (fill_slot-jobs i sys.fork bg line sh) (fg_at-set sh.jobs i j _ refl (a.idle j));
      }
      fill-Launched false =
          waitfg-ToPrompt sys i (added sys.fork fg line sh) ss _
            (fill_slot-IsWell sys.fork fg line sh i x a.well p new small at)
            (rw (fill_slot-jobs i sys.fork fg line sh)
              (get_elem?-set_self sh.jobs i _ (lt_of_get_elem? sh.jobs i at)))
            (λ none. absurd (omega arith))
            (λ j ne. rw (fill_slot-jobs i sys.fork fg line sh) (OnlyFg-set sh.jobs i _ a.idle j ne))
            ok

    addjob-Launched : (b : Bool) (line : Text) → Launched b (addjob sys.fork (kind b) line sh).1
    addjob-Launched b line = elim (Option-cases (find_slot (λ j. j.pid == 0) sh.jobs)) [
      | inl full ↦
          subst (λ r. Launched b r.1) (sym (addjob-full sys.fork (kind b) line sh p full))
            (full-Launched b)
      | inr (i, free) ↦
          let (x, at, test) = find_slot-some (λ j. j.pid == 0) sh.jobs i free in
          subst (λ r. Launched b r.1) (sym (addjob-fill sys.fork (kind b) line sh i p free))
            (fill-Launched i x line at b)
    ]

    launch-ToPrompt : (b : Bool) (line : Text) → ToPrompt (launch sys b line ss sh)
    unfolding launch
    launch-ToPrompt true line = elim (Bool-cases (not sys.block_ok || leb (2 ^ 31) sys.fork)) [
      | inl failed ↦ rw failed tt
      | inr done ↦ elim (Bool-cases (not sys.unblock_ok)) [
        | inl stuck ↦ rw (done, stuck) tt
        | inr free ↦ rw (done, free) (emit-AtPrompt _ _ (addjob-Launched true line), ok)
      ]
    ]
    launch-ToPrompt false line = elim (Bool-cases (not sys.block_ok || leb (2 ^ 31) sys.fork)) [
      | inl failed ↦ rw failed tt
      | inr done ↦ elim (Bool-cases (not sys.unblock_ok)) [
        | inl stuck ↦ rw (done, stuck) tt
        | inr free ↦ rw (done, free) (addjob-Launched false line)
      ]
    ]

    eval_args-ToPrompt :
        (b : Bool) (args : List Text) (line : Text) → ToPrompt (eval_args sys b args line ss sh)
    unfolding eval_args
    eval_args-ToPrompt b [] line = (a, ok)
    eval_args-ToPrompt b (cmd ∷ args) line = elim (Option-cases (builtin_cmd sys cmd args ss sh)) [
      | inl external ↦
          let e : eval_args sys b (cmd ∷ args) line ss sh ≡ launch sys b line ss sh =
            rw (external, eval_args) in
          subst ToPrompt (sym e) (launch-ToPrompt b line)
      | inr (r, builtin) ↦
          let e : eval_args sys b (cmd ∷ args) line ss sh ≡ r = rw (builtin, eval_args) in
          subst ToPrompt (sym e) (builtin_cmd-ToPrompt cmd args builtin)
    ]

    -- At the prompt the job list keeps its invariant and no job is in the foreground. From there,
    -- with signals that report process ids, a `fork` that gives a process id which the list does
    -- not hold, and a next job id in range, a command line that `eval` returns from leads to the
    -- prompt again.
    pub eval-ToPrompt : (line : Text) → ToPrompt (eval sys line ss sh)
    unfolding eval
    eval-ToPrompt line = by_parse (parseline line)
      where
        by_parse :
            (q : Parsed)
            → ToPrompt (elim q [
              | out_of_bounds ↦ crashed
              | parsed background_job args ↦ eval_args sys background_job args line ss sh
            ])
        by_parse out_of_bounds = tt
        by_parse (parsed background_job args) = eval_args-ToPrompt background_job args line
