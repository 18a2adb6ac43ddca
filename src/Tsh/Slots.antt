-- ===== src/Tsh/Slots.antt =====
-- The job list of ASSN/ASSN5/tsh.c seen as a map from process ids to jobs.
use csed.Prelude.{
  ℕ, zero, suc, ◌+◌, ◌^◌, ◌<◌, ◌≡◌, refl, ◌≢◌, ◌⊎◌, inl, inr, Bool, true, false, Option, none, some,
  List, [], ◌∷◌, arith, ◌==◌, if◌then◌else◌, Bool-cases, get_elem?, set,
}
use csed.Tsh.Jobs.{Job, undef, is_fg, find_slot}

-- The job with the process id.
unfoldable pub job_of : List Job → ℕ → Option Job
job_of [] q = none
job_of (x ∷ xs) q = if x.pid == q then some x else job_of xs q

-- The job of a process. The process id 0 marks a free slot, and no process has it.
unfoldable pub find_process : List Job → ℕ → Option Job
find_process xs q = if q == 0 then none else job_of xs q

-- No process id stands in two slots.
abbrev pub PidsDistinct : List Job → Type 0
PidsDistinct [] = Unit
PidsDistinct (x ∷ xs) = (x.pid ≢ 0 → job_of xs x.pid ≡ none) × PidsDistinct xs

-- A slot without a process is as `clearjob` leaves it, but for its text.
pub record SlotOk (x : Job) : Type 0 where
  pub pid_small : x.pid < 2 ^ 31
  pub jid_small : x.jid + 1 < 2 ^ 31
  pub free : x.pid ≡ 0 → (x.jid ≡ 0) × (x.state ≡ undef)

unfoldable pub count_fg : List Job → ℕ
count_fg [] = 0
count_fg (x ∷ xs) = (if is_fg x.state then 1 else 0) + count_fg xs

pub find_process-job_of : (xs : List Job) (q : ℕ) → q ≢ 0 → find_process xs q ≡ job_of xs q
unfolding find_process
find_process-job_of xs q ne = ground arith

module _ (test : Job → Bool) where
  pub find_slot-some :
      (xs : List Job) (i : ℕ)
      → find_slot test xs ≡ some i
      → (x : Job) × (get_elem? xs i ≡ some x) × (test x ≡ true)
  unfolding find_slot
  find_slot-some [] i h = cc
  find_slot-some (x ∷ xs) zero h = elim (Bool-cases (test x)) [
    | inl hit ↦ (x, refl, hit)
    | inr other ↦ absurd (ground arith)
  ]
  find_slot-some (x ∷ xs) (suc i) h = find_slot-some xs i (ground arith)

  pub find_slot-none :
      (xs : List Job) (i : ℕ) {x : Job}
      → find_slot test xs ≡ none
      → get_elem? xs i ≡ some x
      → test x ≡ false
  unfolding find_slot
  find_slot-none [] i h at = cc
  find_slot-none (y ∷ xs) zero h at = ground arith
  find_slot-none (y ∷ xs) (suc i) h at = find_slot-none xs i (ground arith) at

-- The search for a process id finds the job of that process.
pub find_slot-job_of :
    (pid : ℕ) (xs : List Job) (i : ℕ) {x : Job}
    → find_slot (λ j. j.pid == pid) xs ≡ some i
    → get_elem? xs i ≡ some x
    → job_of xs pid ≡ some x
unfolding find_slot job_of
find_slot-job_of pid [] i h at = cc
find_slot-job_of pid (y ∷ xs) zero h at = ground arith
find_slot-job_of pid (y ∷ xs) (suc i) h at =
    let later : find_slot (λ j. j.pid == pid) xs ≡ some i = ground arith in
    ground (arith, find_slot-job_of pid xs i later at)

pub find_slot-job_of-none :
    (pid : ℕ) (xs : List Job) → find_slot (λ j. j.pid == pid) xs ≡ none → job_of xs pid ≡ none
unfolding find_slot job_of
find_slot-job_of-none pid [] h = refl
find_slot-job_of-none pid (y ∷ xs) h = ground (arith, find_slot-job_of-none pid xs)

pub job_of-get_elem? :
    (xs : List Job) (i : ℕ) {x : Job} → get_elem? xs i ≡ some x → job_of xs x.pid ≢ none
unfolding job_of
job_of-get_elem? [] i h = cc
job_of-get_elem? (y ∷ xs) zero h = ground arith
job_of-get_elem? (y ∷ xs) (suc i) h = ground (arith, job_of-get_elem? xs i h)

-- Writing `new` over `old`, when no other slot holds the new process id.
abbrev pub Free : Job → List Job → Job → Type 0
Free new xs old = (new.pid ≡ 0) ⊎ (job_of xs new.pid ≡ none) ⊎ (old.pid ≡ new.pid)

module _ (new : Job) where
  Free-tail :
      (y : Job) (xs : List Job) (i : ℕ) {old : Job}
      → get_elem? xs i ≡ some old
      → PidsDistinct (y ∷ xs)
      → Free new (y ∷ xs) old
      → Free new xs old × (y.pid ≢ 0 → y.pid ≢ new.pid) × (y.pid ≢ 0 → y.pid ≢ old.pid)
  unfolding job_of
  Free-tail y xs i h d (inl clear) =
      (inl clear, ground arith, ground (arith, job_of-get_elem? xs i h))
  Free-tail y xs i h d (inr (inl absent)) =
      (inr (inl (ground arith)), ground arith, ground (arith, job_of-get_elem? xs i h))
  Free-tail y xs i h d (inr (inr same)) = (
    inr (inr same),
    ground (arith, job_of-get_elem? xs i h),
    ground (arith, job_of-get_elem? xs i h),
  )

  pub job_of-set :
      (xs : List Job) (i : ℕ) {old : Job}
      → get_elem? xs i ≡ some old
      → PidsDistinct xs
      → Free new xs old
      → (q : ℕ) → q ≢ 0
      → job_of (set xs i new) q
        ≡ (if new.pid == q then some new else if old.pid == q then none else job_of xs q)
  unfolding job_of
  job_of-set [] i h d free q ne = cc
  job_of-set (y ∷ xs) zero h d free q ne = ground (arith, d.0)
  job_of-set (y ∷ xs) (suc i) h d free q ne =
      let (rest, apart, apart') = Free-tail y xs i h d free in
      ground (arith, job_of-set xs i h d.1 rest q)

  pub PidsDistinct-set :
      (xs : List Job) (i : ℕ) {old : Job}
      → get_elem? xs i ≡ some old
      → PidsDistinct xs
      → Free new xs old
      → PidsDistinct (set xs i new)
  unfolding job_of
  PidsDistinct-set [] i h d free = cc
  PidsDistinct-set (y ∷ xs) zero h d (inl clear) = (λ ne. absurd (ne clear), d.1)
  PidsDistinct-set (y ∷ xs) zero h d (inr (inl absent)) = (ground arith, d.1)
  PidsDistinct-set (y ∷ xs) zero h d (inr (inr same)) = (λ ne. ground (arith, d.0), d.1)
  PidsDistinct-set (y ∷ xs) (suc i) h d free =
      let (rest, apart, apart') = Free-tail y xs i h d free in
      (
        λ ne. ground (arith, job_of-set xs i h d.1 rest y.pid, d.0 ne),
        PidsDistinct-set xs i h d.1 rest,
      )

pub count_fg-set :
    (xs : List Job) (i : ℕ) (new : Job) {old : Job}
    → get_elem? xs i ≡ some old
    → count_fg (set xs i new) + (if is_fg old.state then 1 else 0)
      ≡ count_fg xs + (if is_fg new.state then 1 else 0)
unfolding count_fg
count_fg-set [] i new h = cc
count_fg-set (y ∷ xs) zero new h = ground arith
count_fg-set (y ∷ xs) (suc i) new h = omega (arith, count_fg-set xs i new h)
