-- ===== src/Tsh/Jids.antt =====
-- The job ids that ASSN/ASSN5/tsh.c gives out.
use csed.Prelude.{
  ◌∙◌, ℕ, zero, suc, ◌+◌, ◌^◌, ◌≤◌, ◌<◌, ◌≡◌, refl, ◌≢◌, inl, inr, true, none, some, List, [], ◌∷◌,
  arith, ltb, false, ◌==◌, is_some, Bool-cases, Option-cases, get_elem?, set, All, All-set,
}
use csed.Tsh.Jobs.{
  Job, JobState, Text, Shell, lt_one, find_slot, clear_slot, clearjob, addjob, fill_slot, deletejob,
  emit, max_jobs,
}
use csed.Tsh.Slots.{job_of, find_process, find_process-job_of}
use csed.Tsh.Deletion.{deletejob-erase, deletejob-absent}
use csed.Tsh.JobMap.{IsWell, IsPid, fill_slot-jobs, fill_slot-nextjid, addjob-insert, added}

-- No job id but the 0 of a free slot stands in two slots.
abbrev pub JidsDistinct : List Job → Type 0
JidsDistinct [] = Unit
JidsDistinct (x ∷ xs) = (x.jid ≢ 0 → All (λ y. y.jid ≢ x.jid) xs) × JidsDistinct xs

ne_of_lt : (n : ℕ) (xs : List Job) → All (λ y. y.jid < n) xs → All (λ y. y.jid ≢ n) xs
ne_of_lt n [] all = tt
ne_of_lt n (x ∷ xs) all = (omega arith, ne_of_lt n xs all.1)

JidsDistinct-set :
    (xs : List Job) (i : ℕ) (new : Job)
    → JidsDistinct xs
    → (new.jid ≢ 0 → All (λ y. y.jid ≢ new.jid) xs)
    → JidsDistinct (set xs i new)
JidsDistinct-set [] i new d fresh = tt
JidsDistinct-set (x ∷ xs) zero new d fresh = (λ ne. (fresh ne).1, d.1)
JidsDistinct-set (x ∷ xs) (suc i) new d fresh = (
  λ ne.
      All-set (λ y. y.jid ≢ x.jid) xs i new (d.0 ne)
        (λ same. (fresh (λ none. ne (omega arith))).0 (omega arith)),
  JidsDistinct-set xs i new d.1 (λ ne. (fresh ne).1),
)

addjob-JidsDistinct :
    (pid : ℕ) (state : JobState) (cmdline : Text) (sh : Shell)
    → JidsDistinct sh.jobs
    → All (λ y. y.jid < sh.nextjid) sh.jobs
    → JidsDistinct (addjob pid state cmdline sh).1.jobs
unfolding addjob emit
addjob-JidsDistinct pid state cmdline sh d below = elim (Bool-cases (lt_one pid)) [
  | inl refused ↦ rw refused d
  | inr pos ↦ elim (Option-cases (find_slot (λ j. j.pid == 0) sh.jobs)) [
    | inl full ↦ rw (pos, full) d
    | inr (i, free) ↦
        rw (pos, free, fill_slot-jobs)
          (JidsDistinct-set sh.jobs i _ d (λ ne. ne_of_lt sh.nextjid sh.jobs below))
  ]
]

clear_slot-JidsDistinct : (i : ℕ) (xs : List Job) → JidsDistinct xs → JidsDistinct (clear_slot i xs)
unfolding clear_slot clearjob
clear_slot-JidsDistinct i xs d = elim (Option-cases (get_elem? xs i)) [
  | inl out ↦ rw (out, clear_slot) d
  | inr (x, at) ↦
      rw (at, clear_slot) (JidsDistinct-set xs i (clearjob x) d (λ ne. absurd (ne refl)))
]

deletejob-JidsDistinct :
    (pid : ℕ) (sh : Shell) → JidsDistinct sh.jobs → JidsDistinct (deletejob pid sh).1.jobs
unfolding deletejob
deletejob-JidsDistinct pid sh d = elim (Bool-cases (lt_one pid)) [
  | inl refused ↦ rw refused d
  | inr pos ↦ elim (Option-cases (find_slot (λ j. j.pid == pid) sh.jobs)) [
    | inl missing ↦ rw (pos, missing) d
    | inr (i, found) ↦ rw (pos, found) (clear_slot-JidsDistinct i sh.jobs d)
  ]
]

-- The job ids are distinct, and the next one is above all of them.
pub record JidsBelow (sh : Shell) : Type 0 where
  pub distinct : JidsDistinct sh.jobs
  pub below : All (λ y. y.jid < sh.nextjid) sh.jobs

All-below_later : (n : ℕ) (xs : List Job) → All (λ y. y.jid < n) xs → All (λ y. y.jid < n + 1) xs
All-below_later n [] h = tt
All-below_later n (x ∷ xs) h = (omega arith, All-below_later n xs h.1)

module _ (sh : Shell) (b : JidsBelow sh) where
  addjob-below :
      (pid : ℕ) (state : JobState) (cmdline : Text)
      → sh.nextjid < max_jobs
      → All
          (λ y. y.jid < (addjob pid state cmdline sh).1.nextjid)
          (addjob pid state cmdline sh).1.jobs
  unfolding addjob emit
  addjob-below pid state cmdline few = elim (Bool-cases (lt_one pid)) [
    | inl refused ↦ rw refused b.below
    | inr pos ↦ elim (Option-cases (find_slot (λ j. j.pid == 0) sh.jobs)) [
      | inl full ↦ rw (pos, full) b.below
      | inr (i, free) ↦
          let inside : ltb max_jobs (sh.nextjid + 1) ≡ false = ground arith in
          let next : (fill_slot i pid state cmdline sh).nextjid ≡ sh.nextjid + 1 =
            fill_slot-nextjid i pid state cmdline sh (omega arith) ∙ rw inside refl in
          rw (pos, free)
            (rw (next, fill_slot-jobs i pid state cmdline sh)
              (All-set (λ y. y.jid < sh.nextjid + 1) sh.jobs i _
                (All-below_later sh.nextjid sh.jobs b.below) (omega arith)))
    ]
  ]

  deletejob-below :
      (pid : ℕ)
      → IsWell sh
      → IsPid pid
      → All (λ y. y.jid < (deletejob pid sh).1.nextjid) (deletejob pid sh).1.jobs
  deletejob-below pid w p = elim (Option-cases (job_of sh.jobs pid)) [
    | inl absent ↦ rw (deletejob-absent pid sh w p absent) b.below
    | inr (x, held) ↦ (deletejob-erase pid sh w p x held).4
  ]

-- In a well-formed state where the job ids are distinct and below the next one, and the next one
-- is below MAXJOBS, a call of addjob leaves them distinct and below the next one, and so does a
-- call of deletejob for a process id, whatever they return.
pub job_ids-JidsBelow :
    (pid q : ℕ) (state : JobState) (cmdline : Text) (sh : Shell)
    → IsWell sh
    → JidsBelow sh
    → sh.nextjid < max_jobs
    → IsPid q
    → JidsBelow (addjob pid state cmdline sh).1 × JidsBelow (deletejob q sh).1
job_ids-JidsBelow pid q state cmdline sh w b few p = (
  record {
    distinct = addjob-JidsDistinct pid state cmdline sh b.distinct b.below;
    below = addjob-below sh b pid state cmdline few;
  },
  record { distinct = deletejob-JidsDistinct q sh b.distinct; below = deletejob-below sh b q w p },
)

module _ (sh : Shell) (first second : ℕ) (state state' : JobState) (line line' : Text) where
  -- The shell after the first addition, and after both.
  abbrev one : Shell
  one = (addjob first state line sh).1

  abbrev two : Shell
  two = (addjob second state' line' one).1

  -- In a well-formed state whose next job id has reached `max_jobs`, with a live job of job id 1
  -- and two free slots, the second of two new processes gets the job id 1, while the old job still
  -- has it.
  pub addjob-reuses_jid :
      (old : ℕ) (x : Job)
      → IsWell sh
      → IsPid first
      → IsPid second
      → max_jobs ≤ sh.nextjid
      → sh.nextjid + 1 < 2 ^ 31
      → find_process sh.jobs old ≡ some x
      → x.jid ≡ 1
      → job_of sh.jobs first ≡ none
      → job_of sh.jobs second ≡ none
      → first ≢ second
      → is_some (find_slot (λ j. j.pid == 0) sh.jobs) ≡ true
      → is_some (find_slot (λ j. j.pid == 0) one.jobs) ≡ true
      → (y : Job) × (find_process two.jobs second ≡ some y)
        × (y.jid ≡ 1)
        × (find_process two.jobs old ≡ some x)
        × (old ≢ second)
  addjob-reuses_jid old x w p q past small held jid new new' differ room room' =
      let (ok, w1, map1, count1, next1) = addjob-insert first state line sh w p new small room in
      let other = find_process-job_of sh.jobs second (omega arith) ∙ new' in
      let absent : job_of one.jobs second ≡ none =
        ground (arith, map1 second, find_process-job_of one.jobs second (omega arith)) in
      let reset : one.nextjid ≡ 1 = ground arith in
      let (ok', w2, map2, count2, next2) =
        addjob-insert second state' line' one w1 q absent (omega arith) room' in
      let apart : old ≢ second = ground arith in
      let apart' : old ≢ first =
        ground (arith, find_process-job_of sh.jobs first (omega arith) ∙ new) in
      (
        added second state' line' one,
        ground (arith, map2 second),
        reset,
        ground (arith, map2 old, map1 old),
        apart,
      )
