-- ===== src/Timing.antt =====
-- The timing package of the allocator driver: the cycle counter of ASSN/ASSN6/clock.c (its code for
-- a Pentium) and the sampling of ASSN/ASSN6/fcyc.c. A `double` is a value of the parameter `A`,
-- which has the comparison `less`.
pub mod Elapsed
pub mod Insertion
pub mod KBest
pub mod Loop
mod Tests
use mathlib.Core.Option
use csed.Prelude.{
  ℕ, zero, suc, ◌+◌, ◌-◌, ◌*◌, ◌/◌, ◌%◌, ◌^◌, Bool, true, false, not, ◌&&◌, ◌||◌, ◌==◌, Option,
  none, some, List, ltb, leb, if◌then◌else◌, get_elem?, set, replicate,
}

-- The static variables of clock.c.
pub record Clock : Type 0 where
  pub cyc_hi : ℕ
  pub cyc_lo : ℕ

-- What `rdtsc` gives, at the value of the 64-bit counter: the high and the low half.
unfoldable pub access_counter : ℕ → ℕ × ℕ
access_counter cycles = (cycles / 2 ^ 32, cycles % 2 ^ 32)

unfoldable pub start_counter : ℕ → Clock
start_counter cycles = let (hi, lo) = access_counter cycles in record { cyc_hi = hi; cyc_lo = lo }

-- The nearest multiple of `unit`, the even one of two.
unfoldable pub round_to : ℕ → ℕ → ℕ
round_to unit n =
    let q = n / unit in
    let r = n % unit in
    let up = ltb unit (2 * r) || (2 * r == unit && q % 2 == 1) in (if up then q + 1 else q) * unit

-- A number below 2 ^ 64 as a `double`, which has 53 bits. The unit of the last one is at most
-- 2 ^ 11, and the fuel 11.
unfoldable pub round_double : ℕ → ℕ → ℕ → ℕ
round_double zero unit n = round_to unit n
round_double (suc f) unit n =
    let rest = round_double f (2 * unit) n in
    if ltb n (2 ^ 53 * unit) then round_to unit n else rest

unfoldable pub as_double : ℕ → ℕ
as_double n = round_double 11 1 n

-- `(double) hi * (1 << 30) * 4 + lo`: the products only change the exponent, and the sum is
-- rounded.
unfoldable pub get_counter : ℕ → Clock → ℕ
get_counter cycles c =
    let (ncyc_hi, ncyc_lo) = access_counter cycles in
    let lo : ℕ = (ncyc_lo + 2 ^ 32 - c.cyc_lo) % 2 ^ 32 in
    let borrow : ℕ = if ltb ncyc_lo lo then 1 else 0 in
    let hi : ℕ = (ncyc_hi + 2 ^ 33 - c.cyc_hi - borrow) % 2 ^ 32 in as_double (hi * 2 ^ 30 * 4 + lo)

-- The parameters of the measurement, with their default values.
pub record Settings : Type 0 where
  pub kbest : ℕ
  pub maxsamples : ℕ
  pub compensate : Bool
  pub clear_cache : Bool

abbrev pub defaults : Settings
defaults = record { kbest = 3; maxsamples = 20; compensate = false; clear_cache = false }

abbrev pub set_fcyc_clear_cache : Bool → Settings → Settings
set_fcyc_clear_cache clear p = record p { clear_cache = clear }

abbrev pub set_fcyc_compensate : Bool → Settings → Settings
set_fcyc_compensate compensate p = record p { compensate = compensate }

abbrev pub set_fcyc_k : ℕ → Settings → Settings
set_fcyc_k k p = record p { kbest = k }

abbrev pub set_fcyc_maxsamples : ℕ → Settings → Settings
set_fcyc_maxsamples n p = record p { maxsamples = n }

-- The settings that `init_fsecs` of ASSN/ASSN6/fsecs.c makes.
abbrev pub init_fsecs : Settings
init_fsecs =
    set_fcyc_k 3
      (set_fcyc_compensate true (set_fcyc_clear_cache true (set_fcyc_maxsamples 20 defaults)))

-- The samples that are kept, and the number of those that were taken.
pub record Sampler (A : Type 0) : Type 0 where
  pub values : List A
  pub samplecount : ℕ

module _ {A : Type 0} (less : A → A → Bool) (zero_value : A) where
  unfoldable pub init_sampler : ℕ → Sampler A
  init_sampler kbest = record { values = replicate kbest zero_value; samplecount = 0 }

  abbrev pub value_at : List A → ℕ → A
  value_at values i = Option.get_or (get_elem? values i) zero_value

  -- The insertion sort from `pos` down.
  unfoldable pub sift : List A → ℕ → List A
  sift values zero = values
  sift values (suc pos) =
      let temp : A = value_at values pos in
      let val : A = value_at values (suc pos) in
      if less val temp then sift (set (set values pos val) (suc pos) temp) pos else values

  -- The array with the sample in it, and the position of the sample.
  unfoldable pub put_sample : ℕ → A → Sampler A → List A × ℕ
  put_sample kbest val s =
      if ltb s.samplecount kbest
      then (set s.values s.samplecount val, s.samplecount)
      else if less val (value_at s.values (kbest - 1))
      then (set s.values (kbest - 1) val, kbest - 1)
      else (s.values, 0)

  unfoldable pub add_sample : ℕ → A → Sampler A → Sampler A
  add_sample kbest val s =
      let (values, pos) = put_sample kbest val s in
      record { values = sift values pos; samplecount = s.samplecount + 1 }

  -- `tolerant x y` is `(1 + epsilon) * x >= y`.
  module _ (tolerant : A → A → Bool) where
    unfoldable pub has_converged : ℕ → Sampler A → Bool
    has_converged kbest s =
        leb kbest s.samplecount && tolerant (value_at s.values 0) (value_at s.values (kbest - 1))

    -- The loop that measures, from the sample `i`; `none` where the rounds run out.
    unfoldable pub sample_loop : Settings → (ℕ → A) → ℕ → ℕ → Sampler A → Option (Sampler A)
    sample_loop p measure zero i s = none
    sample_loop p measure (suc fuel) i s =
        let s' = add_sample p.kbest (measure i) s in
        let later = sample_loop p measure fuel (i + 1) s' in
        if not (has_converged p.kbest s') && ltb s'.samplecount p.maxsamples then later else some s'

    -- `measure b i` is what the counter gives for the sample `i`, the compensated one if `b`.
    unfoldable pub fcyc : Settings → (Bool → ℕ → A) → ℕ → Option A
    fcyc p measure fuel =
        Option.map (λ s. value_at s.values 0)
          (sample_loop p (measure p.compensate) fuel 0 (init_sampler p.kbest))
