-- ===== src/Tsh/Deletion.antt =====
-- `deletejob` of ASSN/ASSN5/tsh.c as the removal of a process from the map of jobs.
use mathlib.Core.Option.{some-injective}
use mathlib.Core.Path.{subst}
use csed.Prelude.Words.{int_inc, int_inc-small, int_lt, int_lt-small}
use csed.Prelude.{
  ℕ, ◌+◌, ◌^◌, ◌≤◌, ◌<◌, ◌≡◌, refl, ◌≢◌, ◌∙◌, inl, inr, true, false, none, some, List, [], ◌∷◌,
  arith, ltb, ltb→lt, sym, ◌==◌, if◌then◌else◌, Bool-cases, Option-cases, get_elem?, set, All,
  length-set, All-set,
}
use csed.Tsh.Jobs.{
  Job, is_fg, Shell, find_slot, clear_slot, clearjob, maxjid, maxjid_from, deletejob,
}
use csed.Tsh.Slots.{
  find_process, job_of, SlotOk, count_fg, find_slot-some, find_slot-job_of, find_slot-job_of-none,
  job_of-set, PidsDistinct-set, count_fg-set,
}
use csed.Tsh.JobMap.{IsWell, IsPid, lt_one-IsPid}

abbrev pub Bounded : ℕ → List Job → Type 0
Bounded top = All (λ x. x.jid ≤ top)

Bounded-mono : (a b : ℕ) (xs : List Job) → a ≤ b → Bounded a xs → Bounded b xs
Bounded-mono a b [] h all = tt
Bounded-mono a b (x ∷ xs) h all = (omega arith, Bounded-mono a b xs h all.1)

maxjid_from-above :
    (max : ℕ) (x : Job) (xs : List Job)
    → int_lt max x.jid ≡ true
    → maxjid_from max (x ∷ xs) ≡ maxjid_from x.jid xs
unfolding maxjid_from
maxjid_from-above max x xs h = rw h

maxjid_from-below :
    (max : ℕ) (x : Job) (xs : List Job)
    → int_lt max x.jid ≡ false
    → maxjid_from max (x ∷ xs) ≡ maxjid_from max xs
unfolding maxjid_from
maxjid_from-below max x xs h = rw h

maxjid_from-nil : (max : ℕ) → maxjid_from max [] ≡ max
unfolding maxjid_from
maxjid_from-nil max = refl

-- The result `m` of the loop of `maxjid` over `xs`, started at `max`.
abbrev MaxOk : ℕ → List Job → ℕ → Type 0
MaxOk max xs m = (max ≤ m) × (m + 1 < 2 ^ 31) × Bounded m xs

maxjid_from-bounds :
    (max : ℕ) (xs : List Job) → max + 1 < 2 ^ 31 → All SlotOk xs → MaxOk max xs (maxjid_from max xs)
maxjid_from-bounds max [] h all =
    (omega (arith, maxjid_from-nil max), omega (arith, maxjid_from-nil max), tt)
maxjid_from-bounds max (x ∷ xs) h all =
    let test = int_lt-small max x.jid (omega arith) (omega (arith, all.0.jid_small)) in
    elim (Bool-cases (ltb max x.jid)) [
      | inl above ↦
          let (low, high, rest) = maxjid_from-bounds x.jid xs all.0.jid_small all.1 in
          subst (MaxOk max (x ∷ xs)) (sym (maxjid_from-above max x xs (test ∙ above)))
            (omega (arith, low, ltb→lt max x.jid above), high, (low, rest))
      | inr below ↦
          let (low, high, rest) = maxjid_from-bounds max xs h all.1 in
          let under : x.jid ≤ max = ground arith in
          subst (MaxOk max (x ∷ xs)) (sym (maxjid_from-below max x xs (test ∙ below)))
            (low, high, (omega (arith, low, under), rest))
    ]

cleared-SlotOk : (x : Job) → SlotOk (clearjob x)
unfolding clearjob
cleared-SlotOk x = record {
  pid_small = omega arith;
  jid_small = omega arith;
  free = λ h. (refl, refl);
}

pub clear_slot-set :
    (xs : List Job) (i : ℕ) {x : Job}
    → get_elem? xs i ≡ some x
    → clear_slot i xs ≡ set xs i (clearjob x)
unfolding clear_slot
clear_slot-set xs i at = rw (at, clear_slot)

Bounded-lt :
    (top next : ℕ) (xs : List Job) → next ≡ top + 1 → Bounded top xs → All (λ y. y.jid < next) xs
Bounded-lt top next [] e all = tt
Bounded-lt top next (x ∷ xs) e all = (omega arith, Bounded-lt top next xs e all.1)

module _ (pid : ℕ) (sh : Shell) (w : IsWell sh) (p : IsPid pid) where
  -- The job list without the job of the slot `i`.
  abbrev without : ℕ → Shell
  without i =
      let jobs = clear_slot i sh.jobs in record sh { jobs = jobs; nextjid = int_inc (maxjid jobs) }

  pub deletejob-found :
      (i : ℕ)
      → find_slot (λ j. j.pid == pid) sh.jobs ≡ some i
      → deletejob pid sh ≡ (true, without i)
  unfolding deletejob
  deletejob-found i found = rw (lt_one-IsPid pid p, found)

  module _ (i : ℕ) (x : Job) (at : get_elem? sh.jobs i ≡ some x) where
    abbrev rest : List Job
    rest = set sh.jobs i (clearjob x)

    rest-SlotOk : All SlotOk rest
    rest-SlotOk = All-set SlotOk sh.jobs i (clearjob x) w.each (cleared-SlotOk x)

    without-nextjid :
        ((without i).nextjid ≡ maxjid rest + 1)
        × (maxjid rest + 1 < 2 ^ 31)
        × Bounded (maxjid rest) rest
    unfolding maxjid
    without-nextjid =
        let (low, high, all) = maxjid_from-bounds 0 rest (omega arith) rest-SlotOk in
        (rw (clear_slot-set sh.jobs i at) (int_inc-small _ high), high, all)

    without-IsWell : IsWell (without i)
    unfolding clearjob
    without-IsWell =
        let (next, high, all) = without-nextjid in
        let jobs = clear_slot-set sh.jobs i at in
        record {
          slots = rw jobs (length-set sh.jobs i (clearjob x) ∙ w.slots);
          distinct = rw jobs (PidsDistinct-set (clearjob x) sh.jobs i at w.distinct (inl refl));
          each = rw jobs rest-SlotOk;
          next_small = omega (arith, next, high);
          next_pos = omega (arith, next);
        }

    without-job_of :
        x.pid ≡ pid
        → (q : ℕ) → q ≢ 0
        → job_of (without i).jobs q ≡ (if pid == q then none else job_of sh.jobs q)
    unfolding clearjob
    without-job_of same q ne =
        rw (clear_slot-set sh.jobs i at)
          (ground (arith, job_of-set (clearjob x) sh.jobs i at w.distinct (inl refl) q ne))

    without-find_process :
        x.pid ≡ pid
        → (q : ℕ)
        → find_process (without i).jobs q ≡ (if pid == q then none else find_process sh.jobs q)
    unfolding find_process
    without-find_process same q = ground (arith, without-job_of same q)

    without-count_fg :
        count_fg (without i).jobs + (if is_fg x.state then 1 else 0) ≡ count_fg sh.jobs
    unfolding clearjob
    without-count_fg =
        rw (clear_slot-set sh.jobs i at) (ground (arith, count_fg-set sh.jobs i (clearjob x) at))

    without-below : All (λ y. y.jid < (without i).nextjid) (without i).jobs
    without-below =
        let (next, high, all) = without-nextjid in
        subst (All (λ y. y.jid < (without i).nextjid)) (sym (clear_slot-set sh.jobs i at))
          (Bounded-lt (maxjid rest) (without i).nextjid rest next all)

  -- In a well-formed state, deleting the job of a process that the list holds removes it: every
  -- other process has the job it had, the invariant holds, a foreground job is counted once less,
  -- and the next job id is above every job id of the list.
  pub deletejob-erase :
      (x : Job)
      → job_of sh.jobs pid ≡ some x
      → ((deletejob pid sh).0 ≡ true)
        × IsWell (deletejob pid sh).1
        × ((q : ℕ)
            → find_process (deletejob pid sh).1.jobs q
              ≡ (if pid == q then none else find_process sh.jobs q))
        × (count_fg (deletejob pid sh).1.jobs + (if is_fg x.state then 1 else 0) ≡ count_fg sh.jobs)
        × All (λ y. y.jid < (deletejob pid sh).1.nextjid) (deletejob pid sh).1.jobs
  deletejob-erase x held = elim (Option-cases (find_slot (λ j. j.pid == pid) sh.jobs)) [
    | inl missing ↦ cc (find_slot-job_of-none pid sh.jobs missing)
    | inr (i, found) ↦
        let (y, at, test) = find_slot-some (λ j. j.pid == pid) sh.jobs i found in
        let same : x ≡ y =
          some-injective _ _ (sym held ∙ find_slot-job_of pid sh.jobs i found at) in
        let pid_eq : y.pid ≡ pid = ground arith in
        rw (deletejob-found i found, same)
          (
            refl,
            without-IsWell i y at,
            (λ q. without-find_process i y at pid_eq q),
            without-count_fg i y at,
            without-below i y at,
          )
  ]

  -- Deleting a process that the list does not hold changes nothing.
  pub deletejob-absent : job_of sh.jobs pid ≡ none → deletejob pid sh ≡ (false, sh)
  unfolding deletejob
  deletejob-absent absent = elim (Option-cases (find_slot (λ j. j.pid == pid) sh.jobs)) [
    | inl missing ↦ rw (lt_one-IsPid pid p, missing)
    | inr (i, found) ↦
        let (y, at, test) = find_slot-some (λ j. j.pid == pid) sh.jobs i found in
        cc (find_slot-job_of pid sh.jobs i found at)
  ]
