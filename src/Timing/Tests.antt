-- ===== src/Timing/Tests.antt =====
-- The counter and the sampling at concrete inputs, and the theorems on them at such inputs.
use Prim.Native.Nat.{max}
use csed.Prelude.{
  ℕ, ◌+◌, ◌-◌, ◌%◌, ◌^◌, ◌≤◌, ◌≡◌, ◌⊎◌, refl, arith, Bool, some, [], ◌∷◌, ltb, leb, ◌==◌,
  if◌then◌else◌,
}
use csed.Timing.{
  start_counter, get_counter, Settings, defaults, set_fcyc_maxsamples, init_sampler, sift,
  put_sample, add_sample, has_converged, sample_loop, fcyc,
}
use csed.Timing.Elapsed.{get_counter-start_counter}
use csed.Timing.Insertion.{IsOrder}
use csed.Timing.KBest.{IsKBest, init_sampler-IsKBest, add_sample-IsKBest}
use csed.Timing.Loop.{taken, IsLeast, fcyc-IsLeast}

-- The low half of the counter has wrapped around.
get_counter-start_counter_example :
    get_counter 0x100000005 (start_counter 0xfffffff0)
    ≡ (0x100000005 + 2 ^ 64 - 0xfffffff0) % 2 ^ 64
get_counter-start_counter_example =
    get_counter-start_counter 0xfffffff0 0x100000005 (omega arith) (omega arith) (omega arith)

ltb-IsOrder : IsOrder ltb
ltb-IsOrder = record { asym = λ a b h. ground arith; trans = λ a b c h k. ground arith }

add_sample-IsKBest_example : IsKBest ltb 0 2 (7 ∷ []) (add_sample ltb 0 2 7 (init_sampler ltb 0 2))
add_sample-IsKBest_example =
    add_sample-IsKBest ltb 0 ltb-IsOrder 2 7 [] (init_sampler ltb 0 2)
      (init_sampler-IsKBest ltb 0 2) (omega arith)

-- The two samples differ by at most one.
abbrev close : ℕ → ℕ → Bool
close x y = leb y (x + 1)

abbrev measured : Bool → ℕ → ℕ
measured b i = if i == 0 then 40 else if i == 1 then 30 else if i == 2 then 21 else 20

abbrev six_samples : Settings
six_samples = set_fcyc_maxsamples 6 (record defaults { kbest = 2 })

fcyc-IsLeast_example :
    (result : ℕ) × (n : ℕ) × (fcyc ltb 0 close six_samples measured 6 ≡ some result)
    × (1 ≤ n)
    × (n ≤ max 1 6)
    × ((2 ≤ n) ⊎ (6 ≤ n))
    × IsLeast ltb 0 result (taken (measured (six_samples.compensate)) n)
fcyc-IsLeast_example =
    fcyc-IsLeast ltb 0 ltb-IsOrder close six_samples (omega arith) measured 6 (omega arith)
      (omega arith)

-- The fourth sample is close to the third.
fcyc-run : fcyc ltb 0 close six_samples measured 6 ≡ some 20
unfolding fcyc sample_loop has_converged add_sample put_sample sift init_sampler
fcyc-run = refl
