-- ===== src/Tsh/Errors.antt =====
-- The errors of `do_bgfg` of ASSN/ASSN5/tsh.c.
use csed.Prelude.{
  ℕ, ◌≡◌, ◌≢◌, ◌<◌, ==-ne, arith, refl, Bool, true, false, ◌&&◌, ◌||◌, none, List, [], ◌∷◌, ◌==◌,
  if◌then◌else◌, inl, inr, Bool-cases, All, All-map,
}
use csed.Tsh.Jobs.{
  Job, Effect, Text, Shell, emit, lt_one, find_slot, getjobpid, getjobjid, bad_argument,
  no_such_job, no_such_process,
}
use csed.Tsh.Slots.{SlotOk}
use csed.Tsh.JobMap.{IsWell}
use csed.Tsh.Handlers.{running, System, Signal}
use csed.Tsh.Shell.{
  text_eq, fg_text, bg_text, all_digits, int_of_text, message, find_job, resume_found, do_bgfg,
}

-- Whether an argument of `fg` or `bg` names a job: `%` and a job id, or a process id.
unfoldable pub names : Text → Job → Bool
names [] x = x.pid == int_of_text []
names (c ∷ cs) x =
    if c == b'%'
    then all_digits cs && (x.jid == int_of_text cs)
    else all_digits (c ∷ cs) && (x.pid == int_of_text (c ∷ cs))

-- The message for an argument that names no job.
unfoldable pub complaint : Text → Text → Effect
complaint cmd [] = no_such_process (int_of_text [])
complaint cmd (c ∷ cs) =
    if c == b'%'
    then if all_digits cs then no_such_job (int_of_text cs) else bad_argument cmd
    else if all_digits (c ∷ cs)
    then no_such_process (int_of_text (c ∷ cs))
    else bad_argument cmd

find_slot-missing :
    (test : Job → Bool) (jobs : List Job)
    → All (λ x. test x ≡ false) jobs
    → find_slot test jobs ≡ none
unfolding find_slot
find_slot-missing test [] h = refl
find_slot-missing test (x ∷ xs) h = rw (h.0, find_slot-missing test xs h.1) refl

-- A property of the live jobs that free slots have as well.
All-live :
    (P : Job → Type 0) (xs : List Job)
    → All SlotOk xs
    → All (λ x. x.pid ≢ 0 → P x) xs
    → ((x : Job) → SlotOk x → x.pid ≡ 0 → P x)
    → All P xs
All-live P [] ok h free = tt
All-live P (x ∷ xs) ok h free = (here, All-live P xs ok.1 h.1 free)
  where
    here : P x
    here = elim (Bool-cases (x.pid == 0)) [
      | inl zero_pid ↦ free x ok.0 (ground arith)
      | inr live ↦ h.0 (ground arith)
    ]

lt_one-pos : (n : ℕ) → lt_one n ≡ false → 0 < n
unfolding lt_one
lt_one-pos n h = ground arith

getjobjid-missing :
    (jobs : List Job) (jid : ℕ)
    → All SlotOk jobs
    → All (λ x. x.pid ≢ 0 → (x.jid == jid) ≡ false) jobs
    → getjobjid jobs jid ≡ none
unfolding getjobjid
getjobjid-missing jobs jid ok h = elim (Bool-cases (lt_one jid)) [
  | inl refused ↦ rw refused refl
  | inr pos ↦ rw pos (find_slot-missing _ jobs (All-live _ jobs ok h (free pos)))
]
  where
    free : lt_one jid ≡ false → (x : Job) → SlotOk x → x.pid ≡ 0 → (x.jid == jid) ≡ false
    free pos x k zero_pid =
        let p = lt_one-pos jid pos in
        let none_there = (k.free zero_pid).0 in ==-ne x.jid jid (omega arith)

getjobpid-missing :
    (jobs : List Job) (pid : ℕ)
    → All SlotOk jobs
    → All (λ x. x.pid ≢ 0 → (x.pid == pid) ≡ false) jobs
    → getjobpid jobs pid ≡ none
unfolding getjobpid
getjobpid-missing jobs pid ok h = elim (Bool-cases (lt_one pid)) [
  | inl refused ↦ rw refused refl
  | inr pos ↦ rw pos (find_slot-missing _ jobs (All-live _ jobs ok h (free pos)))
]
  where
    free : lt_one pid ≡ false → (x : Job) → SlotOk x → x.pid ≡ 0 → (x.pid == pid) ≡ false
    free pos x k zero_pid = let p = lt_one-pos pid pos in ==-ne x.pid pid (omega arith)

-- The answer of `find_job` is a message, which says what `complaint` says.
abbrev Complains : Text → Text → List Job → Type 0
Complains cmd param jobs =
    (m : Text → Effect) × (find_job param jobs ≡ message m) × (m cmd ≡ complaint cmd param)

abbrev NamesNone : Text → List Job → Type 0
NamesNone param jobs = All (λ x. x.pid ≢ 0 → names param x ≡ false) jobs

module _ (cmd : Text) (c : ℕ) (cs : Text) (jobs : List Job) (ok : All SlotOk jobs) where
  jid-Complains : NamesNone (c ∷ cs) jobs → (c == b'%') ≡ true → Complains cmd (c ∷ cs) jobs
  jid-Complains h p = elim (Bool-cases (all_digits cs)) [
    | inl digits ↦
        let missing : getjobjid jobs (int_of_text cs) ≡ none =
          getjobjid-missing jobs (int_of_text cs) ok
            (All-map _ _ jobs (λ x live ne. jid_differs x digits (live ne)) h) in
        (
          (λ cmd. no_such_job (int_of_text cs)),
          unfold find_job in rw (p, digits, missing) refl,
          unfold complaint in rw (p, digits) refl,
        )
    | inr other ↦ (
      bad_argument,
      unfold find_job in rw (p, other) refl,
      unfold complaint in rw (p, other) refl,
    )
  ]
    where
      jid_differs :
          (x : Job)
          → all_digits cs ≡ true
          → names (c ∷ cs) x ≡ false
          → (x.jid == int_of_text cs) ≡ false
      jid_differs x digits n = unfold names in rw (p, digits) at n

  pid-Complains : NamesNone (c ∷ cs) jobs → (c == b'%') ≡ false → Complains cmd (c ∷ cs) jobs
  pid-Complains h p = elim (Bool-cases (all_digits (c ∷ cs))) [
    | inl digits ↦
        let missing : getjobpid jobs (int_of_text (c ∷ cs)) ≡ none =
          getjobpid-missing jobs (int_of_text (c ∷ cs)) ok
            (All-map _ _ jobs (λ x live ne. pid_differs x digits (live ne)) h) in
        (
          (λ cmd. no_such_process (int_of_text (c ∷ cs))),
          unfold find_job in rw (p, digits, missing) refl,
          unfold complaint in rw (p, digits) refl,
        )
    | inr other ↦ (
      bad_argument,
      unfold find_job in rw (p, other) refl,
      unfold complaint in rw (p, other) refl,
    )
  ]
    where
      pid_differs :
          (x : Job)
          → all_digits (c ∷ cs) ≡ true
          → names (c ∷ cs) x ≡ false
          → (x.pid == int_of_text (c ∷ cs)) ≡ false
      pid_differs x digits n = unfold names in rw (p, digits) at n

find_job-Complains :
    (cmd param : Text) (jobs : List Job)
    → All SlotOk jobs
    → NamesNone param jobs
    → Complains cmd param jobs
find_job-Complains cmd [] jobs ok h =
    let missing : getjobpid jobs (int_of_text []) ≡ none =
      getjobpid-missing jobs (int_of_text []) ok
        (All-map _ _ jobs (λ x live ne. pid_differs x (live ne)) h) in
    (
      (λ cmd. no_such_process (int_of_text [])),
      unfold find_job in rw (missing, find_job) refl,
      unfold complaint in refl,
    )
  where
    pid_differs : (x : Job) → names [] x ≡ false → (x.pid == int_of_text []) ≡ false
    pid_differs x n = unfold names in n
find_job-Complains cmd (c ∷ cs) jobs ok h = elim (Bool-cases (c == b'%')) [
  | inl p ↦ jid-Complains cmd c cs jobs ok h p
  | inr p ↦ pid-Complains cmd c cs jobs ok h p
]

-- In a well-formed state, if the command is fg or bg and no live job has the job id (after %) or
-- the process id that the argument gives, 0 included, or the argument is no number, do_bgfg prints
-- the one message for that case; it sends no signal, and the job list and the pending signals
-- stay.
pub do_bgfg-complaint :
    (sys : System) (cmd param : Text) (args : List Text) (ss : List Signal) (sh : Shell)
    → (text_eq cmd fg_text || text_eq cmd bg_text) ≡ true
    → IsWell sh
    → All (λ x. x.pid ≢ 0 → names param x ≡ false) sh.jobs
    → do_bgfg sys (cmd ∷ param ∷ args) ss sh ≡ running (emit (complaint cmd param) sh, ss)
unfolding do_bgfg
do_bgfg-complaint sys cmd param args ss sh known w h =
    let (m, found, says) = find_job-Complains cmd param sh.jobs w.each h in
    rw (known, found) (unfold resume_found in rw says refl)
