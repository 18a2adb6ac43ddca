-- ===== src/Timing/Loop.antt =====
-- `fcyc` of ASSN/ASSN6/fcyc.c ends, with the smallest of the samples that it took.
use Prim.Native.Nat.{max}
use mathlib.Core.Option
use mathlib.Core.Logic.Or
use mathlib.Core.Path.{subst}
use mathlib.Core.List.Perm
use mathlib.Core.List.{Mem, mem-cons, not-mem-nil, mem-cons_self, mem-cons_of_mem, mem-append_left}
use native.Mathlib.Numerals.{add-one}
use csed.Prelude.{
  ℕ, zero, suc, ◌+◌, ◌-◌, ◌≤◌, ◌<◌, ◌≡◌, ◌⊎◌, inl, inr, refl, sym, ap, ◌∙◌, arith, Bool, true,
  false, not, ◌&&◌, some, List, [], ◌∷◌, ◌++◌, ltb, length, replicate, All, All-append, All-map,
  Bool-cases,
}
use csed.Timing.{
  Settings, Sampler, init_sampler, value_at, add_sample, has_converged, sample_loop, fcyc,
}
use csed.Timing.Insertion.{onto, IsOrder, AtMost, IsDescending}
use csed.Timing.KBest.{IsKBest, init_sampler-IsKBest, add_sample-IsKBest}

-- The first `n` samples, the last one first.
abbrev pub taken {ℓ} : {A : Type ℓ} → (ℕ → A) → ℕ → List A
taken measure zero = []
taken measure (suc n) = measure n ∷ taken measure n

module _ {A : Type 0} (less : A → A → Bool) (zero_value : A) where
  -- A sample that no other is below.
  abbrev pub IsLeast : A → List A → Type 0
  IsLeast x xs = Mem x xs × ((y : A) → Mem y xs → less y x ≡ false)

  module _ (o : IsOrder less) where
    irrefl : (a : A) → less a a ≡ false
    irrefl a = elim (Bool-cases (less a a)) [ inl e ↦ absurd (cc (e, o.asym a a e)) | inr e ↦ e ]

    -- The first element of the array is the last, and smallest, one that is held.
    first-onto :
        (p : A) (r tail : List A)
        → IsDescending less (p ∷ r)
        → (x : A) × (value_at less zero_value (onto r (p ∷ tail)) 0 ≡ x)
          × Mem x (p ∷ r)
          × All (AtMost less x) (p ∷ r)
    first-onto p [] tail desc = (p, refl, mem-cons_self, (irrefl p, tt))
    first-onto p (q ∷ r) tail desc =
        let (x, e, m, all) = first-onto q r (p ∷ tail) desc.1 in
        (x, e, mem-cons_of_mem p m, (o.trans x q p all.0 desc.0.0, all))

  All-mem : (x : A) (l : List A) → All (AtMost less x) l → (y : A) → Mem y l → less y x ≡ false
  All-mem x [] h y m = absurd (not-mem-nil m)
  All-mem x (z ∷ l) h y m = Or.elim (hlevel) (mem-cons.0 m) (λ e. rw e h.0) (All-mem x l h.1 y)

  module _ (o : IsOrder less) (k : ℕ) (xs : List A) (s : Sampler A)
      (h : IsKBest less zero_value k xs s) where
    held-IsLeast :
        (p : A) (r : List A) → h.held ≡ p ∷ r → IsLeast (value_at less zero_value s.values 0) xs
    held-IsLeast p r e =
        subst (λ y. IsLeast y xs) (sym (first-eq ∙ found.1))
          (
            Perm.subset h.all_samples _ (mem-append_left h.dropped held_mem),
            λ y m.
                All-mem found.0 (h.held ++ h.dropped)
                  (All-append _ h.held h.dropped held_all dropped_all) y
                  (Perm.subset (Perm.symm h.all_samples) _ m),
          )
      where
        desc : IsDescending less (p ∷ r)
        desc = subst (IsDescending less) e h.descending

        tail : List A
        tail = replicate (k - length h.held) zero_value

        found :
            (x : A) × (value_at less zero_value (onto r (p ∷ tail)) 0 ≡ x)
            × Mem x (p ∷ r)
            × All (AtMost less x) (p ∷ r)
        found = first-onto o p r tail desc

        first-eq :
            value_at less zero_value s.values 0 ≡ value_at less zero_value (onto r (p ∷ tail)) 0
        first-eq = ap (λ l. value_at less zero_value l 0) (h.shape ∙ ap (λ l. onto l tail) e)

        held_mem : Mem found.0 h.held
        held_mem = subst (Mem found.0) (sym e) found.2

        held_all : All (AtMost less found.0) h.held
        held_all = subst (All (AtMost less found.0)) (sym e) found.3

        dropped_all : All (AtMost less found.0) h.dropped
        dropped_all =
            All-map _ _ h.dropped (λ d q. o.trans found.0 p d found.3.0 q.0)
              (subst (λ l. All (λ d. All (λ a. AtMost less a d) l) h.dropped) e h.smallest)

    pub IsKBest-IsLeast :
        0 < k → 0 < s.samplecount → IsLeast (value_at less zero_value s.values 0) xs
    IsKBest-IsLeast pos some_taken = by_held h.held refl
      where
        by_held : (l : List A) → h.held ≡ l → IsLeast (value_at less zero_value s.values 0) xs
        by_held [] e = absurd (elim h.most [
          | inl full ↦ omega (arith, ap length e)
          | inr none_dropped ↦ omega (arith, h.counted, ap length e, ap length none_dropped)
        ])
        by_held (p ∷ r) e = held-IsLeast p r e

  module _ (o : IsOrder less) (tolerant : A → A → Bool) (p : Settings) (pos : 0 < p.kbest)
      (measure : ℕ → A) where
    -- How the loop ends: after `n` samples, in a state that holds the smallest of them.
    pub record Ends (n : ℕ) (s : Sampler A) : Type 0 where
      pub sampled : s.samplecount ≡ n
      pub best : IsKBest less zero_value p.kbest (taken measure n) s
      pub enough : (has_converged less zero_value tolerant p.kbest s ≡ true) ⊎ (p.maxsamples ≤ n)
      pub at_least : 1 ≤ n
      pub at_most : n ≤ max 1 p.maxsamples

    sample_loop-Ends :
        (fuel i : ℕ) (s : Sampler A)
        → s.samplecount ≡ i
        → IsKBest less zero_value p.kbest (taken measure i) s
        → 0 < fuel
        → p.maxsamples ≤ i + fuel
        → i < max 1 p.maxsamples
        → (n : ℕ) × (s' : Sampler A) × (sample_loop less zero_value tolerant p measure fuel i s
            ≡ some s')
          × Ends n s'
    unfolding sample_loop
    sample_loop-Ends zero i s c h f m b = absurd (omega arith)
    sample_loop-Ends (suc fuel) i s c h f m b =
        elim (Bool-cases (
          not (has_converged less zero_value tolerant p.kbest s')
          && ltb s'.samplecount p.maxsamples)) [
            | inl goes_on ↦
                let bound : i + 1 < p.maxsamples = ground (arith, counted) in
                rw goes_on (
                  sample_loop-Ends fuel (i + 1) s' counted best' (omega arith) (omega arith)
                    (omega arith))
            | inr stops ↦ (
              i + 1,
              s',
              rw stops refl,
              record {
                sampled = counted;
                best = best';
                enough = why stops;
                at_least = omega arith;
                at_most = omega arith;
              },
            )
          ]
      where
        s' : Sampler A
        s' = add_sample less zero_value p.kbest (measure i) s

        counted : s'.samplecount ≡ i + 1
        counted = unfold add_sample in omega (arith, c)

        best' : IsKBest less zero_value p.kbest (taken measure (i + 1)) s'
        best' =
            subst (λ (m : ℕ). IsKBest less zero_value p.kbest (taken measure m) s')
              (sym (add-one i))
              (add_sample-IsKBest less zero_value o p.kbest (measure i) (taken measure i) s h pos)

        why :
            (not (has_converged less zero_value tolerant p.kbest s')
                && ltb s'.samplecount p.maxsamples)
              ≡ false
            → (has_converged less zero_value tolerant p.kbest s' ≡ true) ⊎ (p.maxsamples ≤ i + 1)
        why e = ground (arith, counted)

  module _ (o : IsOrder less) (tolerant : A → A → Bool) (p : Settings) (pos : 0 < p.kbest)
      (measure : Bool → ℕ → A) where
    converged-le :
        (s : Sampler A) (n : ℕ)
        → s.samplecount ≡ n
        → has_converged less zero_value tolerant p.kbest s ≡ true
        → p.kbest ≤ n
    unfolding has_converged
    converged-le s n e c = ground arith

    -- For a positive kbest and an order as that of doubles, with as many rounds as maxsamples, and
    -- one at least, fcyc ends, whatever the counter gives: after at least one sample, at most
    -- maxsamples if that is positive, and at least kbest or maxsamples of them; and it returns a
    -- smallest one of them.
    pub fcyc-IsLeast :
        (fuel : ℕ)
        → 0 < fuel
        → p.maxsamples ≤ fuel
        → (result : A) × (n : ℕ) × (fcyc less zero_value tolerant p measure fuel ≡ some result)
          × (1 ≤ n)
          × (n ≤ max 1 p.maxsamples)
          × ((p.kbest ≤ n) ⊎ (p.maxsamples ≤ n))
          × IsLeast result (taken (measure p.compensate) n)
    unfolding fcyc
    fcyc-IsLeast fuel h m =
        let (n, s, e, ends) =
          sample_loop-Ends o tolerant p pos (measure p.compensate) fuel 0
            (init_sampler less zero_value p.kbest) (unfold init_sampler in refl)
            (init_sampler-IsKBest less zero_value p.kbest) h (omega arith) (omega arith) in
        (
          value_at less zero_value s.values 0,
          n,
          ap (Option.map (λ r. value_at less zero_value r.values 0)) e,
          ends.at_least,
          ends.at_most,
          elim ends.enough [ inl c ↦ inl (converged-le s n ends.sampled c) | inr l ↦ inr l ],
          IsKBest-IsLeast o p.kbest (taken (measure p.compensate) n) s ends.best pos
              (omega (arith, ends.at_least, ends.sampled)),
        )
