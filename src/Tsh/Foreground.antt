-- ===== src/Tsh/Foreground.antt =====
-- At most one job of ASSN/ASSN5/tsh.c is in the foreground, and none at the prompt.
use csed.Prelude.{
  Option, none, some, arith, Bool, get_elem?, set, get_elem?-set_ne, ap, ◌∙◌, ℕ, ◌≡◌, ◌≢◌, sym,
  true, false, List, [], ◌∷◌, inl, inr, Bool-cases, All,
}
use mathlib.Core.Path.{subst}
use native.Mathlib.Decide.{ℕ_discrete}
use csed.Tsh.Jobs.{Effect, emit, is_fg, Job, Shell}
use csed.Tsh.JobMap.{IsWell}
use csed.Tsh.Handlers.{
  Run, running, exited, blocked, crashed, ◌>>=◌, Signal, System, handle, fg_at, wait_loop,
}
use csed.Tsh.Signals.{Keeps, RunKeeps, SignalOk, handle-Keeps, emit-IsWell}

-- No job is in the foreground; none but that of the slot `i` is.
abbrev pub NoFg : List Job → Type 0
NoFg jobs = (j : ℕ) → fg_at j jobs ≡ false

abbrev pub OnlyFg : ℕ → List Job → Type 0
OnlyFg i jobs = (j : ℕ) → j ≢ i → fg_at j jobs ≡ false

-- The shell between two commands.
pub record AtPrompt (sh : Shell) : Type 0 where
  pub well : IsWell sh
  pub idle : NoFg sh.jobs

-- A command that returns, returns to the prompt, with signals left that were to come.
abbrev pub ToPrompt : Run (Shell × List Signal) → Type 0
ToPrompt (running (sh, ss)) = AtPrompt sh × All SignalOk ss
ToPrompt (exited code sh) = Unit
ToPrompt (blocked sh) = Unit
ToPrompt crashed = Unit

NoFg-of_OnlyFg : (i : ℕ) (jobs : List Job) → OnlyFg i jobs → fg_at i jobs ≡ false → NoFg jobs
NoFg-of_OnlyFg i jobs only off j = elim (ℕ_discrete j i) [
  | yes same ↦ rw same off
  | no ne ↦ only j ne
]

fg_of : Option Job → Bool
fg_of none = false
fg_of (some job) = is_fg job.state

fg_at-fg_of : (j : ℕ) (jobs : List Job) → fg_at j jobs ≡ fg_of (get_elem? jobs j)
unfolding fg_of
fg_at-fg_of j jobs = ground arith

-- A write to the slot `i` leaves every other slot out of the foreground.
pub OnlyFg-set : (jobs : List Job) (i : ℕ) (new : Job) → NoFg jobs → OnlyFg i (set jobs i new)
OnlyFg-set jobs i new idle j ne =
    fg_at-fg_of j (set jobs i new)
    ∙ ap fg_of (get_elem?-set_ne jobs i j new (λ e. ne (sym e)))
    ∙ sym (fg_at-fg_of j jobs)
    ∙ idle j

pub emit-AtPrompt : (e : Effect) (sh : Shell) → AtPrompt sh → AtPrompt (emit e sh)
emit-AtPrompt e sh a = record { well = emit-IsWell e sh a.well; idle = unfold emit in a.idle }

module _ (sys : System) (i : ℕ) where
  pub wait_loop-off :
      (s : Signal) (ss : List Signal) (sh : Shell)
      → fg_at i sh.jobs ≡ false
      → wait_loop sys i (s ∷ ss) sh ≡ running (sh, s ∷ ss)
  unfolding wait_loop
  wait_loop-off s ss sh off = rw (off, wait_loop)

  pub wait_loop-on :
      (s : Signal) (ss : List Signal) (sh : Shell)
      → fg_at i sh.jobs ≡ true
      → wait_loop sys i (s ∷ ss) sh ≡ (handle sys s sh >>= wait_loop sys i ss)
  unfolding wait_loop
  wait_loop-on s ss sh on = rw (on, wait_loop)

  wait_loop-nil : (sh : Shell) → IsWell sh → OnlyFg i sh.jobs → ToPrompt (wait_loop sys i [] sh)
  unfolding wait_loop
  wait_loop-nil sh w only = elim (Bool-cases (fg_at i sh.jobs)) [
    | inl on ↦ rw on tt
    | inr off ↦ rw off (record { well = w; idle = NoFg-of_OnlyFg i sh.jobs only off }, tt)
  ]

  -- The wait ends only when the job of the slot has left the foreground.
  pub wait_loop-ToPrompt :
      (ss : List Signal) (sh : Shell)
      → IsWell sh
      → OnlyFg i sh.jobs
      → All SignalOk ss
      → ToPrompt (wait_loop sys i ss sh)
  wait_loop-ToPrompt [] sh w only ok = wait_loop-nil sh w only
  wait_loop-ToPrompt (s ∷ ss) sh w only ok = elim (Bool-cases (fg_at i sh.jobs)) [
    | inr off ↦
        subst ToPrompt (sym (wait_loop-off s ss sh off))
          (record { well = w; idle = NoFg-of_OnlyFg i sh.jobs only off }, ok)
    | inl on ↦ subst ToPrompt (sym (wait_loop-on s ss sh on)) (
        go (handle sys s sh) (handle-Keeps sys s sh w ok.0)
          (λ sh' k. wait_loop-ToPrompt ss sh' k.well (λ j ne. k.quieter j (only j ne)) ok.1))
  ]
    where
      go :
          (r : Run Shell)
          → RunKeeps sh r
          → ((sh' : Shell) → Keeps sh sh' → ToPrompt (wait_loop sys i ss sh'))
          → ToPrompt (r >>= wait_loop sys i ss)
      go (running sh') k next = next sh' k
      go (exited code sh') k next = tt
      go (blocked sh') k next = tt
      go crashed k next = tt
