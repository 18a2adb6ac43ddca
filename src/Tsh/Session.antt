-- ===== src/Tsh/Session.antt =====
-- Sessions of ASSN/ASSN5/tsh.c: the read and evaluate loop of `main` shows each prompt with no job
-- in the foreground.
use mathlib.Core.Path.{subst}
use native.Mathlib.Nat.{zero-add}
use csed.Prelude.{
  ℕ, zero, suc, ◌+◌, ◌^◌, ◌<◌, ◌≡◌, refl, ap, ◌∙◌, Bool, true, false, none, List, [], ◌∷◌, ◌++◌,
  arith, All, All-append, All-replicate, replicate,
}
use csed.Tsh.Jobs.{Text, Shell, prompted, cleared}
use csed.Tsh.Slots.{job_of, SlotOk, PidsDistinct}
use csed.Tsh.JobMap.{IsPid, IsWell}
use csed.Tsh.Handlers.{Run, running, exited, blocked, crashed, ◌>>=◌, System, Signal, handle, fg_at}
use csed.Tsh.Signals.{Keeps, RunKeeps, Keeps-refl, RunKeeps-trans, SignalOk, handle-Keeps}
use csed.Tsh.Foreground.{AtPrompt, ToPrompt, emit-AtPrompt}
use csed.Tsh.Prompt.{eval-ToPrompt}
use csed.Tsh.Shell.{eval}
use csed.Tsh.Main.{Ending, take_line, Round, deliver, show_prompt, main_loop}

show_prompt-AtPrompt : (b : Bool) (sh : Shell) → AtPrompt sh → AtPrompt (show_prompt b sh)
unfolding show_prompt
show_prompt-AtPrompt true sh a = emit-AtPrompt prompted sh a
show_prompt-AtPrompt false sh a = a

module _ (sys : System) where
  -- The handlers that run while the shell reads.
  deliver-Keeps :
      (ss : List Signal) (sh : Shell)
      → IsWell sh
      → All SignalOk ss
      → RunKeeps sh (deliver sys ss sh)
  unfolding deliver
  deliver-Keeps [] sh w ok = Keeps-refl sh w
  deliver-Keeps (s ∷ ss) sh w ok =
      go (handle sys s sh) (handle-Keeps sys s sh w ok.0)
        (λ sh' k. deliver-Keeps ss sh' k.well ok.1)
    where
      go :
          (r : Run Shell)
          → RunKeeps sh r
          → ((sh' : Shell) → Keeps sh sh' → RunKeeps sh' (deliver sys ss sh'))
          → RunKeeps sh (r >>= deliver sys ss)
      go (running sh') k next = RunKeeps-trans sh sh' _ k (next sh' k)
      go (exited code sh') k next = tt
      go (blocked sh') k next = tt
      go crashed k next = tt

  deliver-AtPrompt :
      (ss : List Signal) (sh sh1 : Shell)
      → AtPrompt sh
      → All SignalOk ss
      → deliver sys ss sh ≡ running sh1
      → AtPrompt sh1
  deliver-AtPrompt ss sh sh1 a ok d =
      let k : Keeps sh sh1 = subst (RunKeeps sh) d (deliver-Keeps ss sh a.well ok) in
      record { well = k.well; idle = λ j. k.quieter j (a.idle j) }

cleared-NoFg : (n j : ℕ) → fg_at j (replicate n cleared) ≡ false
cleared-NoFg zero j = refl
cleared-NoFg (suc n) zero = refl
cleared-NoFg (suc n) (suc j) = cleared-NoFg n j

pub cleared-PidsDistinct : (n : ℕ) → PidsDistinct (replicate n cleared)
cleared-PidsDistinct zero = tt
cleared-PidsDistinct (suc n) = (λ ne. absurd (ne refl), cleared-PidsDistinct n)

pub cleared-All : (n : ℕ) → All SlotOk (replicate n cleared)
cleared-All n =
    All-replicate SlotOk n cleared
      (record { pid_small = omega arith; jid_small = omega arith; free = λ h. (refl, refl) })

module _ (rounds : ℕ → Round) (emit_prompt : Bool) (ending : Ending) where
  -- The start of `main`: the static job list is empty, and no job id is taken.
  module _ (verbose : Bool) (input : Text) where
    abbrev fresh : Shell
    fresh = record { jobs = replicate 16 cleared; nextjid = 1; verbose = verbose; effects = [] }

    -- What the system promises for a command: `fork` gives a new process id, signals report
    -- process ids, and job ids stay in the range of an `int`.
    pub record Promised (r : Round) (sh : Shell) : Type 0 where
      pub at_prompt_ok : All SignalOk r.at_prompt
      pub later_ok : All SignalOk r.later
      pub fork_ok : IsPid r.system.fork
      pub fork_new : job_of sh.jobs r.system.fork ≡ none
      pub jid_small : sh.nextjid + 1 < 2 ^ 31

    -- The states in which round `k` of the loop begins, with the input that is left.
    pub data Reached : ℕ → Text → List Signal → Shell → Type 0 where
      begins : Reached 0 input [] fresh
      next :
          (k : ℕ) (text : Text) (left left' : List Signal) (sh sh1 sh2 : Shell)
          → Reached k text left sh
          → deliver (rounds k).system (left ++ (rounds k).at_prompt) (show_prompt emit_prompt sh)
            ≡ running sh1
          → (take_line 1023 text).2 ≡ false
          → Promised (rounds k) sh1
          → eval (rounds k).system (take_line 1023 text).0 (rounds k).later sh1
            ≡ running (sh2, left')
          → Reached (k + 1) (take_line 1023 text).1 left' sh2

    main_loop-round :
        (fuel k : ℕ) (text : Text) (left left' : List Signal) (sh sh1 sh2 : Shell)
        → deliver (rounds k).system (left ++ (rounds k).at_prompt) (show_prompt emit_prompt sh)
          ≡ running sh1
        → (take_line 1023 text).2 ≡ false
        → eval (rounds k).system (take_line 1023 text).0 (rounds k).later sh1 ≡ running (sh2, left')
        → main_loop rounds emit_prompt ending (suc fuel) k text left sh
          ≡ main_loop rounds emit_prompt ending fuel (k + 1) (take_line 1023 text).1 left' sh2
    unfolding main_loop
    main_loop-round fuel k text left left' sh sh1 sh2 d e v = rw (d, e, v) refl

    -- These states are what the loop goes through.
    Reached-main_loop :
        {k : ℕ} {text : Text} {left : List Signal} {sh : Shell} (fuel : ℕ)
        → Reached k text left sh
        → main_loop rounds emit_prompt ending (k + fuel) 0 input [] fresh
          ≡ main_loop rounds emit_prompt ending fuel k text left sh
    Reached-main_loop fuel begins =
        ap (λ (n : ℕ). main_loop rounds emit_prompt ending n 0 input [] fresh) (zero-add fuel)
    Reached-main_loop fuel (next k text left left' sh sh1 sh2 r d e p v) =
        ap (λ (n : ℕ). main_loop rounds emit_prompt ending n 0 input [] fresh) count
        ∙ Reached-main_loop (suc fuel) r
        ∙ main_loop-round fuel k text left left' sh sh1 sh2 d e v
      where
        count : k + 1 + fuel ≡ k + suc fuel
        count = omega arith

    fresh-AtPrompt : AtPrompt fresh
    fresh-AtPrompt = record {
      well = record {
        slots = refl;
        distinct = cleared-PidsDistinct 16;
        each = cleared-All 16;
        next_small = omega arith;
        next_pos = omega arith;
      };
      idle = cleared-NoFg 16;
    }

    Reached-AtPrompt :
        {k : ℕ} {text : Text} {left : List Signal} {sh : Shell}
        → Reached k text left sh
        → AtPrompt sh × All SignalOk left
    Reached-AtPrompt begins = (fresh-AtPrompt, tt)
    Reached-AtPrompt (next k text left left' sh sh1 sh2 r d e p v) =
        let (a, ok) = Reached-AtPrompt r in
        let a1 : AtPrompt sh1 =
          deliver-AtPrompt (rounds k).system (left ++ (rounds k).at_prompt)
            (show_prompt emit_prompt sh) sh1 (show_prompt-AtPrompt emit_prompt sh a)
            (All-append SignalOk left (rounds k).at_prompt ok p.at_prompt_ok) d in
        subst ToPrompt v (
          eval-ToPrompt (rounds k).system (rounds k).later sh1 a1 p.later_ok p.fork_ok p.fork_new
            p.jid_small (take_line 1023 text).0)

    -- In each state in which a round of the read loop begins, where fork gives process ids that
    -- the job list does not hold, signals report process ids and job ids stay in the range of an
    -- int: the job list keeps its invariant, no job is in the foreground, and the run of the loop
    -- from the empty job list has come to that state.
    pub session :
        {k : ℕ} {text : Text} {left : List Signal} {sh : Shell}
        → Reached k text left sh
        → (AtPrompt sh × All SignalOk left)
          × ((fuel : ℕ)
              → main_loop rounds emit_prompt ending (k + fuel) 0 input [] fresh
                ≡ main_loop rounds emit_prompt ending fuel k text left sh)
    session r = (Reached-AtPrompt r, λ fuel. Reached-main_loop fuel r)
