-- ===== src/Tsh/Tests.antt =====
-- Runs of the shell of ASSN/ASSN5/tsh.c, and the theorems at them.
use csed.Prelude.Words.{int_inc, int_lt}
use csed.Prelude.{
  ℕ, zero, suc, ◌+◌, ◌<◌, ◌≡◌, ◌≢◌, refl, true, false, none, some, List, [], ◌∷◌, ◌==◌,
  if◌then◌else◌, arith, replicate, All, is_some, All-replicate,
}
use csed.Tsh.Session.{cleared-PidsDistinct, cleared-All}
use csed.Tsh.Jobs.{
  Job, JobState, fg, bg, cleared, Shell, emit, lt_one, find_slot, fill_slot, addjob, clear_slot,
  clearjob, deletejob, maxjid, maxjid_from, getjobpid, fgpid, pid2jid, emit,
}
use csed.Tsh.Slots.{job_of, find_process, SlotOk, count_fg}
use csed.Tsh.JobMap.{IsWell, IsPid, added, addjob-insert}
use csed.Tsh.Deletion.{deletejob-erase}
use csed.Tsh.Jids.{JidsDistinct, JidsBelow, job_ids-JidsBelow, addjob-reuses_jid}
use csed.Tsh.Parse.{parseline, parsed}
use csed.Tsh.CommandLine.{Word, plain, quoted, command_line, parseline-command_line}
use csed.Tsh.Handlers.{stopped, sigchld, signaled, exit_code, running, System, waitfg, fg_at}
use csed.Tsh.Waiting.{waitfg-reaped}
use csed.Tsh.Foreground.{AtPrompt, ToPrompt}
use csed.Tsh.Shell.{eval}
use csed.Tsh.Prompt.{eval-ToPrompt}

abbrev job : ℕ → ℕ → JobState → Job
job pid jid state = record { pid = pid; jid = jid; state = state; cmdline = b'a' ∷ [] }

abbrev shell : List Job → ℕ → Shell
shell jobs nextjid = record { jobs = jobs; nextjid = nextjid; verbose = false; effects = [] }

-- No job, one job in the foreground, and the jobs 1 and 15 when the ones between have ended.
abbrev fresh : Shell
fresh = shell (replicate 16 cleared) 1

abbrev waiting : Shell
waiting = shell (job 100 1 fg ∷ replicate 15 cleared) 2

abbrev busy : Shell
busy = shell (job 100 1 bg ∷ job 115 15 bg ∷ replicate 14 cleared) 16

cleared-JidsDistinct : (n : ℕ) → JidsDistinct (replicate n cleared)
cleared-JidsDistinct zero = tt
cleared-JidsDistinct (suc n) = (λ ne. absurd (ne refl), cleared-JidsDistinct n)

job-SlotOk :
    (pid jid : ℕ) (state : JobState) → IsPid pid → jid + 1 < 2147483648 → SlotOk (job pid jid state)
job-SlotOk pid jid state p small = record {
  pid_small = p.1;
  jid_small = small;
  free = λ h. absurd (omega arith);
}

job_of-cleared : (n q : ℕ) → q ≢ 0 → job_of (replicate n cleared) q ≡ none
unfolding job_of
job_of-cleared zero q ne = refl
job_of-cleared (suc n) q ne = ground (arith, job_of-cleared n q ne)

pid : (n : ℕ) → 0 < n → n < 2147483648 → IsPid n
pid n pos small = (pos, small)

fresh-IsWell : IsWell fresh
fresh-IsWell = record {
  slots = refl;
  distinct = cleared-PidsDistinct 16;
  each = cleared-All 16;
  next_small = omega arith;
  next_pos = omega arith;
}

waiting-IsWell : IsWell waiting
waiting-IsWell = record {
  slots = refl;
  distinct = (λ ne. job_of-cleared 15 100 (omega arith), cleared-PidsDistinct 15);
  each = (job-SlotOk 100 1 fg (omega arith, omega arith) (omega arith), cleared-All 15);
  next_small = omega arith;
  next_pos = omega arith;
}

busy-IsWell : IsWell busy
unfolding job_of
busy-IsWell = record {
  slots = refl;
  distinct = (
    λ ne. job_of-cleared 14 100 (omega arith),
    (λ ne. job_of-cleared 14 115 (omega arith), cleared-PidsDistinct 14),
  );
  each = (
    job-SlotOk 100 1 bg (omega arith, omega arith) (omega arith),
    (job-SlotOk 115 15 bg (omega arith, omega arith) (omega arith), cleared-All 14),
  );
  next_small = omega arith;
  next_pos = omega arith;
}

program : Unit {0}
unfolding job_of find_process find_slot lt_one int_inc int_lt fill_slot addjob clear_slot clearjob
    deletejob maxjid maxjid_from emit fgpid pid2jid getjobpid
program = tt

all_free : (q : ℕ) → q ≢ 0 → job_of fresh.jobs q ≡ none
all_free q ne = job_of-cleared 16 q ne

room_fresh : is_some (find_slot (λ j. j.pid == 0) fresh.jobs) ≡ true
unfolding program
room_fresh = refl

addjob-insert_example :
    ((addjob 100 fg [] fresh).0 ≡ true)
    × IsWell (addjob 100 fg [] fresh).1
    × ((q : ℕ)
        → find_process (addjob 100 fg [] fresh).1.jobs q
          ≡ (if 100 == q then some (added 100 fg [] fresh) else find_process fresh.jobs q))
    × (count_fg (addjob 100 fg [] fresh).1.jobs ≡ count_fg fresh.jobs + 1)
    × ((addjob 100 fg [] fresh).1.nextjid ≡ 2)
addjob-insert_example =
    addjob-insert 100 fg [] fresh fresh-IsWell (omega arith, omega arith)
      (all_free 100 (omega arith)) (omega arith) room_fresh

held_100 : job_of waiting.jobs 100 ≡ some (job 100 1 fg)
unfolding program
held_100 = refl

deletejob-erase_example :
    ((deletejob 100 waiting).0 ≡ true)
    × IsWell (deletejob 100 waiting).1
    × ((q : ℕ)
        → find_process (deletejob 100 waiting).1.jobs q
          ≡ (if 100 == q then none else find_process waiting.jobs q))
    × (count_fg (deletejob 100 waiting).1.jobs + 1 ≡ count_fg waiting.jobs)
    × All (λ y. y.jid < (deletejob 100 waiting).1.nextjid) (deletejob 100 waiting).1.jobs
deletejob-erase_example =
    deletejob-erase 100 waiting waiting-IsWell (omega arith, omega arith) (job 100 1 fg) held_100

-- The shell without the job 15: the next job id is 2.
abbrev calm : Shell
calm = shell (job 100 1 bg ∷ replicate 15 cleared) 2

calm-IsWell : IsWell calm
unfolding job_of
calm-IsWell = record {
  slots = refl;
  distinct = (λ ne. job_of-cleared 15 100 (omega arith), cleared-PidsDistinct 15);
  each = (job-SlotOk 100 1 bg (omega arith, omega arith) (omega arith), cleared-All 15);
  next_small = omega arith;
  next_pos = omega arith;
}

calm-JidsBelow : JidsBelow calm
calm-JidsBelow = record {
  distinct =
      (λ ne. All-replicate (λ y. y.jid ≢ 1) 15 cleared (omega arith), cleared-JidsDistinct 15);
  below = (omega arith, All-replicate (λ y. y.jid < 2) 15 cleared (omega arith));
}

job_ids-JidsBelow_example : JidsBelow (addjob 116 bg [] calm).1 × JidsBelow (deletejob 100 calm).1
job_ids-JidsBelow_example =
    job_ids-JidsBelow 116 100 bg [] calm calm-IsWell calm-JidsBelow (omega arith)
      (omega arith, omega arith)

busy_first : find_process busy.jobs 100 ≡ some (job 100 1 bg)
unfolding program
busy_first = refl

not_busy : (q : ℕ) → q ≢ 0 → q ≢ 100 → q ≢ 115 → job_of busy.jobs q ≡ none
unfolding job_of
not_busy q ne ne' ne'' = ground (arith, job_of-cleared 14 q ne)

room_busy : is_some (find_slot (λ j. j.pid == 0) busy.jobs) ≡ true
unfolding program
room_busy = refl

room_after : is_some (find_slot (λ j. j.pid == 0) (addjob 116 bg [] busy).1.jobs) ≡ true
unfolding program
room_after = refl

-- The jobs 1 and 15 run when two more are started.
addjob-reuses_jid_example :
    (y : Job) × (find_process (addjob 117 bg [] (addjob 116 bg [] busy).1).1.jobs 117 ≡ some y)
    × (y.jid ≡ 1)
    × (find_process (addjob 117 bg [] (addjob 116 bg [] busy).1).1.jobs 100 ≡ some (job 100 1 bg))
    × ◌≢◌ {A = ℕ} 100 117
addjob-reuses_jid_example =
    addjob-reuses_jid busy 116 117 bg bg [] [] 100 (job 100 1 bg) busy-IsWell
      (omega arith, omega arith) (omega arith, omega arith) (omega arith) (omega arith) busy_first
      refl (not_busy 116 (omega arith) (omega arith) (omega arith))
      (not_busy 117 (omega arith) (omega arith) (omega arith)) (omega arith) room_busy room_after

-- `echo 'a b' &`
abbrev echo_words : List Word
echo_words = plain b'e' (b'c' ∷ b'h' ∷ b'o' ∷ []) ∷ quoted (b'a' ∷ b' ' ∷ b'b' ∷ []) ∷ []

parseline-command_line_example :
    parseline (command_line echo_words (plain b'&' []))
    ≡ parsed true ((b'e' ∷ b'c' ∷ b'h' ∷ b'o' ∷ []) ∷ (b'a' ∷ b' ' ∷ b'b' ∷ []) ∷ [])
unfolding command_line
parseline-command_line_example =
    parseline-command_line echo_words (plain b'&' [])
      (
        (omega arith, (omega arith, (omega arith, (omega arith, (omega arith, tt))))),
        ((omega arith, (omega arith, (omega arith, tt))), tt),
      )
      (omega arith, (omega arith, tt)) (omega arith) (omega arith)

-- A system in which every call succeeds and `fork` returns 116.
abbrev system : System
system = record { kill_ok = λ pid sig. true; block_ok = true; unblock_ok = true; fork = 116 }

-- With the signal comes first a child that no job has, and last one that is not reaped.
waitfg-reaped_example :
    (sh : Shell) × (waitfg system 100
        (sigchld ((55, exit_code 0) ∷ (100, signaled 2) ∷ (77, stopped 20) ∷ []) ∷ [])
        waiting
      ≡ running (sh, []))
    × (fg_at 0 sh.jobs ≡ false)
waitfg-reaped_example =
    waitfg-reaped 0 (job 100 1 fg) waiting system (signaled 2) ((55, exit_code 0) ∷ [])
      ((77, stopped 20) ∷ []) [] waiting-IsWell refl (omega arith) refl
      (((omega arith, omega arith), omega arith), tt) ((omega arith, omega arith), tt)

busy-AtPrompt : AtPrompt busy
busy-AtPrompt = record { well = busy-IsWell; idle = idle }
  where
    none_of_rest : (n j : ℕ) → fg_at j (replicate n cleared) ≡ false
    none_of_rest zero j = refl
    none_of_rest (suc n) zero = refl
    none_of_rest (suc n) (suc j) = none_of_rest n j

    idle : (j : ℕ) → fg_at j busy.jobs ≡ false
    idle zero = refl
    idle (suc zero) = refl
    idle (suc (suc j)) = none_of_rest 14 j

eval-ToPrompt_example :
    ToPrompt (eval system (b'l' ∷ b's' ∷ b'\n' ∷ []) (sigchld ((116, exit_code 0) ∷ []) ∷ []) busy)
eval-ToPrompt_example =
    eval-ToPrompt system (sigchld ((116, exit_code 0) ∷ []) ∷ []) busy busy-AtPrompt
      (((omega arith, omega arith), tt), tt) (omega arith, omega arith)
      (not_busy 116 (omega arith) (omega arith) (omega arith)) (omega arith)
      (b'l' ∷ b's' ∷ b'\n' ∷ [])
