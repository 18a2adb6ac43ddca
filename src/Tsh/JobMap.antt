-- ===== src/Tsh/JobMap.antt =====
-- `addjob` of ASSN/ASSN5/tsh.c as an operation of a map from process
-- ids to jobs, with the invariant of the job list.
use csed.Prelude.Words.{int_inc, int_lt-small}
use csed.Prelude.{
  ℕ, ◌+◌, ◌%◌, ◌^◌, ◌<◌, ◌≡◌, refl, ◌≢◌, ◌∙◌, inl, inr, true, false, none, some, arith, ltb, ◌==◌,
  if◌then◌else◌, is_some, Bool-cases, Option-cases, length, get_elem?, set, All, length-set,
  All-set, All-get_elem?,
}
use csed.Tsh.Jobs.{
  Job, JobState, is_fg, Text, Shell, emit, lt_one, find_slot, fill_slot, addjob, too_many_jobs,
  max_jobs,
}
use csed.Tsh.Slots.{
  find_process, job_of, PidsDistinct, SlotOk, count_fg, find_slot-some, job_of-set,
  PidsDistinct-set, count_fg-set,
}

-- The invariant of the job list between two operations.
pub record IsWell (sh : Shell) : Type 0 where
  pub slots : length sh.jobs ≡ max_jobs
  pub distinct : PidsDistinct sh.jobs
  pub each : All SlotOk sh.jobs
  pub next_small : sh.nextjid < 2 ^ 31
  pub next_pos : 0 < sh.nextjid

-- A process id as `fork` and `waitpid` give it.
abbrev pub IsPid : ℕ → Type 0
IsPid pid = (0 < pid) × (pid < 2 ^ 31)

pub lt_one-IsPid : (pid : ℕ) → IsPid pid → lt_one pid ≡ false
unfolding lt_one
lt_one-IsPid pid h = ground arith

pub fill_slot-jobs :
    (i pid : ℕ) (state : JobState) (cmdline : Text) (sh : Shell)
    → (fill_slot i pid state cmdline sh).jobs
      ≡ set sh.jobs i (record { pid = pid; jid = sh.nextjid; state = state; cmdline = cmdline })
unfolding fill_slot emit
fill_slot-jobs i pid state cmdline sh = ground arith

pub fill_slot-nextjid :
    (i pid : ℕ) (state : JobState) (cmdline : Text) (sh : Shell)
    → sh.nextjid + 1 < 2 ^ 31
    → (fill_slot i pid state cmdline sh).nextjid
      ≡ (if ltb max_jobs (sh.nextjid + 1) then 1 else sh.nextjid + 1)
unfolding fill_slot emit int_inc
fill_slot-nextjid i pid state cmdline sh small =
    let inc : (sh.nextjid + 1) % 2 ^ 32 ≡ sh.nextjid + 1 = omega arith in
    let test = int_lt-small max_jobs (sh.nextjid + 1) (omega arith) small in
    elim (Bool-cases sh.verbose) [ inl on ↦ rw (on, inc, test) | inr off ↦ rw (off, inc, test) ]

-- What `addjob` does with a free slot.
module _ (pid : ℕ) (state : JobState) (cmdline : Text) (sh : Shell) where
  abbrev pub added : Job
  added = record { pid = pid; jid = sh.nextjid; state = state; cmdline = cmdline }

  pub fill_slot-IsWell :
      (i : ℕ) (x : Job)
      → IsWell sh
      → IsPid pid
      → job_of sh.jobs pid ≡ none
      → sh.nextjid + 1 < 2 ^ 31
      → get_elem? sh.jobs i ≡ some x
      → IsWell (fill_slot i pid state cmdline sh)
  fill_slot-IsWell i x w p new small at =
      let jobs = fill_slot-jobs i pid state cmdline sh in
      let next = fill_slot-nextjid i pid state cmdline sh small in
      record {
        slots = rw jobs (length-set sh.jobs i added ∙ w.slots);
        distinct = rw jobs (PidsDistinct-set added sh.jobs i at w.distinct (inr (inl new)));
        each = rw jobs (
            All-set SlotOk sh.jobs i added w.each (record {
              pid_small = p.1;
              jid_small = small;
              free = λ zero_pid. absurd (omega arith);
            }));
        next_small = rw next (ground arith);
        next_pos = rw next (ground arith);
      }

  fill_slot-job_of :
      (i : ℕ) (x : Job)
      → IsWell sh
      → job_of sh.jobs pid ≡ none
      → get_elem? sh.jobs i ≡ some x
      → x.pid ≡ 0
      → (q : ℕ) → q ≢ 0
      → job_of (fill_slot i pid state cmdline sh).jobs q
        ≡ (if pid == q then some added else job_of sh.jobs q)
  fill_slot-job_of i x w new at clear q ne =
      rw (fill_slot-jobs i pid state cmdline sh)
        (ground (arith, job_of-set added sh.jobs i at w.distinct (inr (inl new)) q ne))

  fill_slot-find_process :
      (i : ℕ) (x : Job)
      → IsWell sh
      → IsPid pid
      → job_of sh.jobs pid ≡ none
      → get_elem? sh.jobs i ≡ some x
      → x.pid ≡ 0
      → (q : ℕ)
      → find_process (fill_slot i pid state cmdline sh).jobs q
        ≡ (if pid == q then some added else find_process sh.jobs q)
  unfolding find_process
  fill_slot-find_process i x w p new at clear q =
      ground (arith, fill_slot-job_of i x w new at clear q)

  fill_slot-count_fg :
      (i : ℕ) (x : Job)
      → IsWell sh
      → get_elem? sh.jobs i ≡ some x
      → x.pid ≡ 0
      → count_fg (fill_slot i pid state cmdline sh).jobs
        ≡ count_fg sh.jobs + (if is_fg state then 1 else 0)
  fill_slot-count_fg i x w at clear =
      let ok = All-get_elem? SlotOk sh.jobs i w.each at in
      let idle : is_fg x.state ≡ false = rw (ok.free clear).1 refl in
      rw (fill_slot-jobs i pid state cmdline sh)
        (ground (arith, count_fg-set sh.jobs i added at, idle))

  pub addjob-fill :
      (i : ℕ)
      → IsPid pid
      → find_slot (λ j. j.pid == 0) sh.jobs ≡ some i
      → addjob pid state cmdline sh ≡ (true, fill_slot i pid state cmdline sh)
  unfolding addjob
  addjob-fill i p free = rw (lt_one-IsPid pid p, free)

  -- In a well-formed state with a free slot and a next job id in range, a process that the list
  -- does not hold is added: its job is then found, with the next job id, every other process has
  -- the job it had, the invariant holds, a foreground job is counted once more, and the next job
  -- id is the following one, or 1 behind `max_jobs`.
  pub addjob-insert :
      IsWell sh
      → IsPid pid
      → job_of sh.jobs pid ≡ none
      → sh.nextjid + 1 < 2 ^ 31
      → is_some (find_slot (λ j. j.pid == 0) sh.jobs) ≡ true
      → ((addjob pid state cmdline sh).0 ≡ true)
        × IsWell (addjob pid state cmdline sh).1
        × ((q : ℕ)
            → find_process (addjob pid state cmdline sh).1.jobs q
              ≡ (if pid == q then some added else find_process sh.jobs q))
        × (count_fg (addjob pid state cmdline sh).1.jobs
            ≡ count_fg sh.jobs + (if is_fg state then 1 else 0))
        × ((addjob pid state cmdline sh).1.nextjid
            ≡ (if ltb max_jobs (sh.nextjid + 1) then 1 else sh.nextjid + 1))
  addjob-insert w p new small room = elim (Option-cases (find_slot (λ j. j.pid == 0) sh.jobs)) [
    | inl full ↦ absurd (ground arith)
    | inr (i, free) ↦
        let (x, at, test) = find_slot-some (λ j. j.pid == 0) sh.jobs i free in
        let clear : x.pid ≡ 0 = ground arith in
        rw (addjob-fill i p free) (
          refl,
          fill_slot-IsWell i x w p new small at,
          (λ q. fill_slot-find_process i x w p new at clear q),
          fill_slot-count_fg i x w at clear,
          fill_slot-nextjid i pid state cmdline sh small,
        )
  ]

  -- With no free slot nothing is added, and the shell says so.
  pub addjob-full :
      IsPid pid
      → find_slot (λ j. j.pid == 0) sh.jobs ≡ none
      → addjob pid state cmdline sh ≡ (false, emit too_many_jobs sh)
  unfolding addjob
  addjob-full p full = rw (lt_one-IsPid pid p, full)
