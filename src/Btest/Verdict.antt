-- ===== src/Btest/Verdict.antt =====
-- What the result of `test_function` in ASSN/ASSN1/btest.c says about the function.
use csed.Prelude.{
  ℕ, zero, suc, ◌≤◌, ◌≡◌, ◌≢◌, ◌⊎◌, inl, inr, refl, ap, ◌∙◌, arith, false, ◌&&◌, ◌||◌, some, List,
  [], ◌∷◌, ◌==◌, if◌then◌else◌, All, Bool-cases,
}
use csed.Prelude.Words.{int_lt}
use csed.Btest.{Flags}
use csed.Btest.Run.{
  TestRec, failed, Errors, System, compared, try_each, vals_of, test_vals, gen_args, tested,
  test_generated, test_function,
}

module _ (flags : Flags) (t : TestRec) where
  abbrev pub Agrees : List ℕ → Type 0
  Agrees args = t.solution_funct args ≡ t.test_funct args

  -- No error, where the tested arguments all agree; or one error, of arguments that differ, which
  -- is printed unless the option -g is set.
  abbrev pub Judged : Type 0 → Errors → Type 0
  Judged Ok r =
      (Ok × (r ≡ (0, [])))
      ⊎ ((args : List ℕ) × (¬ Ok)
          × (t.solution_funct args ≢ t.test_funct args)
          × (r ≡ (
            1,
            if flags.grade
                then []
                else failed t.name args (t.solution_funct args) (t.test_funct args) ∷ [],
          )))

  compared-Judged : (args : List ℕ) → Judged (Agrees args) (compared flags t args)
  unfolding compared
  compared-Judged args = elim (Bool-cases (t.solution_funct args == t.test_funct args)) [
    | inl e ↦ inl (ground arith, rw e)
    | inr e ↦ inr (args, ground arith, ground arith, rw e)
  ]

  try_each-Judged :
      (Ok : ℕ → Type 0) (test : ℕ → Errors)
      → ((a : ℕ) → Judged (Ok a) (test a))
      → (vals : List ℕ) → Judged (All Ok vals) (try_each test vals)
  unfolding try_each
  try_each-Judged Ok test h [] = inl (tt, refl)
  try_each-Judged Ok test h (a ∷ rest) = step (h a) (try_each-Judged Ok test h rest)
    where
      step :
          Judged (Ok a) (test a)
          → Judged (All Ok rest) (try_each test rest)
          → Judged (All Ok (a ∷ rest)) (try_each test (a ∷ rest))
      step (inl (p, e)) (inl (q, f)) = inl ((p, q), rw (e, f) refl)
      step (inl (p, e)) (inr (args, no_ok, d, f)) = inr (args, (λ all. no_ok all.1), d, rw e f)
      step (inr (args, no_ok, d, e)) _ = inr (args, (λ all. no_ok all.0), d, rw e refl)

  -- The two functions agree on every combination of the values.
  abbrev pub AgreesOn : ℕ → List (List ℕ) → Type 0
  AgreesOn zero vals = Agrees []
  AgreesOn (suc zero) vals = All (λ a1. Agrees (a1 ∷ [])) (vals_of vals 0)
  AgreesOn (suc (suc zero)) vals =
      All (λ a1. All (λ a2. Agrees (a1 ∷ a2 ∷ [])) (vals_of vals 1)) (vals_of vals 0)
  AgreesOn (suc (suc (suc _))) vals =
      All
        (λ a1. All (λ a2. All (λ a3. Agrees (a1 ∷ a2 ∷ a3 ∷ [])) (vals_of vals 2)) (vals_of vals 1))
        (vals_of vals 0)

  test_vals-Judged :
      (n : ℕ) (vals : List (List ℕ))
      → n ≤ 2
      → Judged (AgreesOn (suc n) vals) (test_vals flags t (suc n) vals)
  unfolding test_vals
  test_vals-Judged zero vals h =
      try_each-Judged _ _ (λ a1. compared-Judged (a1 ∷ [])) (vals_of vals 0)
  test_vals-Judged (suc zero) vals h =
      try_each-Judged _ _
        (λ a1. try_each-Judged _ _ (λ a2. compared-Judged (a1 ∷ a2 ∷ [])) (vals_of vals 1))
        (vals_of vals 0)
  test_vals-Judged (suc (suc zero)) vals h =
      try_each-Judged _ _
        (λ a1.
          try_each-Judged _ _
            (λ a2. try_each-Judged _ _ (λ a3. compared-Judged (a1 ∷ a2 ∷ a3 ∷ [])) (vals_of vals 2))
            (vals_of vals 1))
        (vals_of vals 0)
  test_vals-Judged (suc (suc (suc n))) vals h = absurd (omega arith)

  module _ (sys : System) (in_time : (int_lt 0 flags.timeout_limit && sys.expires) ≡ false) where
    test_generated-Judged :
        (n : ℕ) (vals : List (List ℕ))
        → n ≤ 3
        → (r : Errors) × (test_generated sys flags t n vals ≡ tested r) × Judged (AgreesOn n vals) r
    unfolding test_generated
    test_generated-Judged zero vals h = (_, rw in_time refl, compared-Judged [])
    test_generated-Judged (suc n) vals h = (
      test_vals flags t (suc n) vals,
      rw in_time (ground arith),
      test_vals-Judged n vals (omega arith),
    )

    module _ (vals : List (List ℕ)) (valid : t.args ≤ 3)
        (generated : gen_args sys flags t t.args 0 ≡ some vals) where
      valid_args : (int_lt t.args 0 || int_lt 3 t.args) ≡ false
      valid_args = unfold int_lt in ground arith

      test_function-eq : test_function sys flags t ≡ test_generated sys flags t t.args vals
      test_function-eq = unfold test_function in simp (valid_args, generated)

      -- For a function of at most three arguments whose values fit their arrays, without a
      -- timeout, test_function returns: with no error, and nothing printed, if the function agrees
      -- with its reference on all combinations of the values; or else with one error, for
      -- arguments on which they differ and which are printed unless the option -g is given.
      pub test_function-Judged :
          (r : Errors) × (test_function sys flags t ≡ tested r) × Judged (AgreesOn t.args vals) r
      test_function-Judged =
          let (r, done, judged) = test_generated-Judged t.args vals valid in
          (r, test_function-eq ∙ done, judged)

      pub test_function-passes : AgreesOn t.args vals → test_function sys flags t ≡ tested (0, [])
      test_function-passes agrees = passed test_function-Judged
        where
          passed :
              ((r : Errors) × (test_function sys flags t ≡ tested r)
                × Judged (AgreesOn t.args vals) r)
              → test_function sys flags t ≡ tested (0, [])
          passed (r, done, inl (_, f)) = done ∙ ap tested f
          passed (r, done, inr (args, differ, _, _)) = absurd (differ agrees)
