-- ===== src/Tsh/Jobs.antt =====
-- The job list of ASSN/ASSN5/tsh.c and the routines that manipulate it.
use mathlib.Core.Option
use csed.Prelude.Words.{int_inc, int_lt}
use csed.Prelude.{
  ℕ, ◌+◌, ◌^◌, Bool, true, false, ◌||◌, Option, none, some, List, [], ◌∷◌, map, leb, ◌==◌,
  if◌then◌else◌, get_elem?, set,
}

pub data JobState : Type 0 where
  undef fg bg st : JobState

abbrev pub is_fg : JobState → Bool
is_fg fg = true
is_fg _ = false

abbrev pub Text : Type 0
Text = List ℕ

-- A `pid_t` and an `int` are 32-bit patterns.
pub record Job : Type 0 where
  pub pid : ℕ
  pub jid : ℕ
  pub state : JobState
  pub cmdline : Text

abbrev pub max_jobs : ℕ
max_jobs = 16

-- What the shell prints, and the signals that it sends.
pub data Effect : Type 0 where
  added_job : ℕ → ℕ → Text → Effect
  too_many_jobs : Effect
  job_line : ℕ → ℕ → JobState → Text → Effect
  background : ℕ → ℕ → Text → Effect
  lost_track : ℕ → Effect
  stopped_by : ℕ → ℕ → ℕ → Effect
  terminated_by : ℕ → ℕ → ℕ → Effect
  requires_argument : Text → Effect
  bad_argument : Text → Effect
  no_such_job : ℕ → Effect
  no_such_process : ℕ → Effect
  internal_error : Effect
  error_message : Effect
  terminating : Effect
  killed : ℕ → ℕ → Effect
  prompted : Effect
  usage_printed : Effect
  app_error_message : Effect

-- The global variables. The effects stand with the latest first.
pub record Shell : Type 0 where
  pub jobs : List Job
  pub nextjid : ℕ
  pub verbose : Bool
  pub effects : List Effect

unfoldable pub emit : Effect → Shell → Shell
emit e sh = record sh { effects = e ∷ sh.effects }

-- `pid < 1` on an `int`.
unfoldable pub lt_one : ℕ → Bool
lt_one pid = pid == 0 || leb (2 ^ 31) pid

abbrev pub cleared : Job
cleared = record { pid = 0; jid = 0; state = undef; cmdline = [] }

unfoldable pub clearjob : Job → Job
clearjob job = record job { pid = 0; jid = 0; state = undef; cmdline = [] }

unfoldable pub initjobs : List Job → List Job
initjobs jobs = map clearjob jobs

-- `for (i = 0; i < MAXJOBS; i++) if (jobs[i] …) return i;`
unfoldable pub find_slot : (Job → Bool) → List Job → Option ℕ
find_slot test [] = none
find_slot test (x ∷ xs) = if test x then some 0 else Option.map (λ i. i + 1) (find_slot test xs)

unfoldable pub maxjid_from : ℕ → List Job → ℕ
maxjid_from max [] = max
maxjid_from max (x ∷ xs) = maxjid_from (if int_lt max x.jid then x.jid else max) xs

unfoldable pub maxjid : List Job → ℕ
maxjid jobs = maxjid_from 0 jobs

-- The body of `addjob` for the free slot `i`.
unfoldable pub fill_slot : ℕ → ℕ → JobState → Text → Shell → Shell
fill_slot i pid state cmdline sh =
    let next = int_inc sh.nextjid in
    let job : Job = record { pid = pid; jid = sh.nextjid; state = state; cmdline = cmdline } in
    let sh' = record sh {
      jobs = set sh.jobs i job;
      nextjid = if int_lt max_jobs next then 1 else next;
    } in
    if sh.verbose then emit (added_job job.jid job.pid job.cmdline) sh' else sh'

unfoldable pub addjob : ℕ → JobState → Text → Shell → Bool × Shell
addjob pid state cmdline sh =
    if lt_one pid then (false, sh) else elim (find_slot (λ j. j.pid == 0) sh.jobs) [
      | none ↦ (false, emit too_many_jobs sh)
      | some i ↦ (true, fill_slot i pid state cmdline sh)
    ]

-- `clearjob(&jobs[i])`.
unfoldable pub clear_slot : ℕ → List Job → List Job
clear_slot i jobs = elim (get_elem? jobs i) [ none ↦ jobs | some job ↦ set jobs i (clearjob job) ]

unfoldable pub deletejob : ℕ → Shell → Bool × Shell
deletejob pid sh =
    if lt_one pid then (false, sh) else elim (find_slot (λ j. j.pid == pid) sh.jobs) [
      | none ↦ (false, sh)
      | some i ↦
          let jobs = clear_slot i sh.jobs in
          (true, record sh { jobs = jobs; nextjid = int_inc (maxjid jobs) })
    ]

unfoldable pub fgpid : List Job → ℕ
fgpid jobs = elim (find_slot (λ j. is_fg j.state) jobs) [
  | none ↦ 0
  | some i ↦ elim (get_elem? jobs i) [ none ↦ 0 | some job ↦ job.pid ]
]

-- A pointer into the array is the index of the slot.
unfoldable pub getjobpid : List Job → ℕ → Option ℕ
getjobpid jobs pid = if lt_one pid then none else find_slot (λ j. j.pid == pid) jobs

unfoldable pub getjobjid : List Job → ℕ → Option ℕ
getjobjid jobs jid = if lt_one jid then none else find_slot (λ j. j.jid == jid) jobs

unfoldable pub pid2jid : List Job → ℕ → ℕ
pid2jid jobs pid = if lt_one pid then 0 else elim (find_slot (λ j. j.pid == pid) jobs) [
  | none ↦ 0
  | some i ↦ elim (get_elem? jobs i) [ none ↦ 0 | some job ↦ job.jid ]
]

unfoldable pub listjobs : List Job → List Effect → List Effect
listjobs [] out = out
listjobs (x ∷ xs) out =
    listjobs xs (if x.pid == 0 then out else job_line x.jid x.pid x.state x.cmdline ∷ out)
