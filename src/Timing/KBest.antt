-- ===== src/Timing/KBest.antt =====
-- `add_sample` of ASSN/ASSN6/fcyc.c keeps the smallest samples, in their order.
use mathlib.Core.Option
use mathlib.Core.Path.{subst}
use mathlib.Core.List.Perm
use mathlib.Core.List.{Perm, perm_middle}
use csed.Prelude.{
  ℕ, suc, ◌+◌, ◌-◌, ◌≤◌, ◌<◌, ◌≡◌, ◌⊎◌, inl, inr, refl, sym, ap, ◌∙◌, arith, Bool, true, false,
  List, [], ◌∷◌, ◌++◌, ltb, length, set, replicate, All, All-map, Bool-cases, lt→ltb, lt-cases,
}
use csed.Timing.Insertion.{
  onto, get_elem?-onto, set-onto, IsOrder, AtMost, insert, sift-insert, length-insert, insert-perm,
  insert-All, IsDescending, insert-IsDescending,
}
use csed.Timing.{Sampler, init_sampler, value_at, sift, put_sample, add_sample}

module _ {A : Type 0} (less : A → A → Bool) (zero_value : A) where
  -- The array holds the `k` smallest of the samples, in ascending order, and what `calloc` wrote
  -- behind them; `xs` are the samples, the last one first.
  pub record IsKBest (k : ℕ) (xs : List A) (s : Sampler A) : Type 0 where
    pub held : List A
    pub dropped : List A
    pub descending : IsDescending less held
    pub smallest : All (λ d. All (λ a. AtMost less a d) held) dropped
    pub all_samples : Perm (held ++ dropped) xs
    pub most : (length held ≡ k) ⊎ (dropped ≡ [])
    pub counted : length held + length dropped ≡ s.samplecount
    pub at_most : length held ≤ k
    pub shape : s.values ≡ onto held (replicate (k - length held) zero_value)

  pub init_sampler-IsKBest : (k : ℕ) → IsKBest k [] (init_sampler less zero_value k)
  unfolding init_sampler
  init_sampler-IsKBest k = record {
    held = [];
    dropped = [];
    descending = tt;
    smallest = tt;
    all_samples = Perm.rfl;
    most = inr refl;
    counted = refl;
    at_most = omega arith;
    shape = ap (λ (n : ℕ). replicate n zero_value) (omega arith);
  }

  insert-perm-append :
      (v : A) (r ds xs : List A) → Perm (r ++ ds) xs → Perm (insert less v r ++ ds) (v ∷ xs)
  insert-perm-append v r ds xs p =
      Perm.trans (Perm.append_right ds (insert-perm less v r)) (Perm.cons v p)

  module _ (k : ℕ) (v : A) (s : Sampler A) (values : List A) (pos : ℕ) where
    add_sample-put :
        put_sample less zero_value k v s ≡ (values, pos)
        → add_sample less zero_value k v s
          ≡ record { values = sift less zero_value values pos; samplecount = s.samplecount + 1 }
    unfolding add_sample
    add_sample-put e = rw e refl

  module _ (o : IsOrder less) (k : ℕ) (v : A) (xs : List A) (s : Sampler A)
      (h : IsKBest k xs s) where
    module _ (room : s.samplecount < k) where
      none_dropped : h.dropped ≡ []
      none_dropped = elim h.most [ inl e ↦ absurd (omega (arith, h.counted)) | inr e ↦ e ]

      held_all : length h.held ≡ s.samplecount
      held_all = omega (arith, h.counted, ap length none_dropped)

      stored-eq :
          set s.values s.samplecount v
          ≡ onto h.held (v ∷ replicate (k - suc (length h.held)) zero_value)
      stored-eq =
          ap (λ l. set l s.samplecount v)
            (h.shape ∙ ap (λ (n : ℕ). onto h.held (replicate n zero_value)) more)
          ∙ set-onto h.held _ s.samplecount 0 v (omega (arith, held_all))
        where
          more : k - length h.held ≡ suc (k - suc (length h.held))
          more = omega (arith, held_all)

      added-eq : add_sample less zero_value k v s ≡ record {
        values = onto (insert less v h.held) (replicate (k - suc (length h.held)) zero_value);
        samplecount = s.samplecount + 1;
      }
      added-eq =
          add_sample-put k v s _ _ put-eq
          ∙ ap (λ l. record { values = l; samplecount = s.samplecount + 1 })
              (sift-insert less zero_value h.held _ v)
        where
          put-eq :
              put_sample less zero_value k v s
              ≡ (onto h.held (v ∷ replicate (k - suc (length h.held)) zero_value), length h.held)
          put-eq = unfold put_sample in rw (lt→ltb s.samplecount k room, stored-eq, held_all) refl

      added : IsKBest k (v ∷ xs) (add_sample less zero_value k v s)
      added = rw added-eq record {
        held = insert less v h.held;
        dropped = [];
        descending = insert-IsDescending less o v h.held h.descending;
        smallest = tt;
        all_samples =
            insert-perm-append v h.held [] xs
              (subst (λ ds. Perm (h.held ++ ds) xs) none_dropped h.all_samples);
        most = inr refl;
        counted = omega (arith, length-insert less v h.held, held_all);
        at_most = omega (arith, length-insert less v h.held, held_all);
        shape =
            ap (λ (n : ℕ). onto (insert less v h.held) (replicate (k - n) zero_value))
              (sym (length-insert less v h.held));
      }

    module _ (full : k ≤ s.samplecount) (pos : 0 < k) where
      held_full : length h.held ≡ k
      held_full = elim h.most [
        | inl e ↦ e
        | inr e ↦ omega (arith, h.counted, h.at_most, ap length e)
      ]

      -- The largest sample that is held, and the others.
      split_held : (p : A) × (r : List A) × (h.held ≡ p ∷ r)
      split_held = by_clauses h.held held_full
        where
          by_clauses : (l : List A) → length l ≡ k → (p : A) × (r : List A) × (l ≡ p ∷ r)
          by_clauses [] e = absurd (omega arith)
          by_clauses (p ∷ r) e = (p, r, refl)

      module _ (p : A) (r : List A) (e : h.held ≡ p ∷ r) where
        values-eq : s.values ≡ onto r (p ∷ [])
        values-eq =
            h.shape
            ∙ ap (onto h.held) (ap (λ (n : ℕ). replicate n zero_value) none_left)
            ∙ ap (λ l. onto l []) e
          where
            none_left : k - length h.held ≡ 0
            none_left = omega (arith, held_full)

        last-eq : value_at less zero_value s.values (k - 1) ≡ p
        last-eq =
            ap (λ l. value_at less zero_value l (k - 1)) values-eq
            ∙ ap (λ found. Option.get_or found zero_value)
                (get_elem?-onto r (p ∷ []) (k - 1) 0 (omega (arith, held_full, ap length e)))

        desc : IsDescending less (p ∷ r)
        desc = subst (IsDescending less) e h.descending

        small : All (λ d. All (λ a. AtMost less a d) (p ∷ r)) h.dropped
        small = subst (λ l. All (λ d. All (λ a. AtMost less a d) l) h.dropped) e h.smallest

        perm : Perm (p ∷ (r ++ h.dropped)) xs
        perm = subst (λ l. Perm (l ++ h.dropped) xs) e h.all_samples

        not_room : ltb s.samplecount k ≡ false
        not_room = ground arith

        replaced-eq :
            less v p ≡ true
            → add_sample less zero_value k v s
              ≡ record { values = onto (insert less v r) []; samplecount = s.samplecount + 1 }
        replaced-eq smaller =
            add_sample-put k v s _ _ put-eq
            ∙ ap (λ l. record { values = l; samplecount = s.samplecount + 1 })
                (sift-insert less zero_value r [] v)
          where
            last_index : k - 1 ≡ length r
            last_index = omega (arith, held_full, ap length e)

            stored_last : set s.values (k - 1) v ≡ onto r (v ∷ [])
            stored_last =
                ap (λ l. set l (k - 1) v) values-eq
                ∙ set-onto r (p ∷ []) (k - 1) 0 v (omega (arith, last_index))

            put-eq : put_sample less zero_value k v s ≡ (onto r (v ∷ []), length r)
            put-eq =
                unfold put_sample in rw (not_room, last-eq, smaller, stored_last, last_index) refl

        replaced : less v p ≡ true → IsKBest k (v ∷ xs) (add_sample less zero_value k v s)
        replaced smaller = rw (replaced-eq smaller) record {
          held = insert less v r;
          dropped = p ∷ h.dropped;
          descending = insert-IsDescending less o v r desc.1;
          smallest = (
            insert-All less _ v r (o.asym v p smaller) desc.0,
            All-map _ _ h.dropped
                (λ d q. insert-All less _ v r (o.trans v p d (o.asym v p smaller) q.0) q.1) small,
          );
          all_samples =
              insert-perm-append v r (p ∷ h.dropped) xs (Perm.trans (perm_middle r h.dropped) perm);
          most = inl (omega (arith, length-insert less v r, held_full, ap length e));
          counted = omega (arith, length-insert less v r, h.counted, ap length e);
          at_most = omega (arith, length-insert less v r, held_full, ap length e);
          shape = ap (λ (n : ℕ). onto (insert less v r) (replicate n zero_value)) none_left;
        }
          where
            none_left : 0 ≡ k - length (insert less v r)
            none_left = omega (arith, length-insert less v r, held_full, ap length e)

        kept-eq :
            less v p ≡ false
            → add_sample less zero_value k v s
              ≡ record { values = s.values; samplecount = s.samplecount + 1 }
        kept-eq larger = add_sample-put k v s s.values 0 put-eq ∙ (unfold sift in refl)
          where
            put-eq : put_sample less zero_value k v s ≡ (s.values, 0)
            put-eq = unfold put_sample in rw (not_room, last-eq, larger) refl

        kept : less v p ≡ false → IsKBest k (v ∷ xs) (add_sample less zero_value k v s)
        kept larger = rw (kept-eq larger) record {
          held = h.held;
          dropped = v ∷ h.dropped;
          descending = h.descending;
          smallest = (
            subst (All (λ a. AtMost less a v)) (sym e)
                (larger, All-map _ _ r (λ a q. o.trans a p v q larger) desc.0),
            h.smallest,
          );
          all_samples = Perm.trans (perm_middle h.held h.dropped) (Perm.cons v h.all_samples);
          most = inl held_full;
          counted = omega (arith, h.counted);
          at_most = h.at_most;
          shape = h.shape;
        }

      turned_away : IsKBest k (v ∷ xs) (add_sample less zero_value k v s)
      turned_away =
          let (p, r, e) = split_held in
          elim (Bool-cases (less v p)) [
            | inl smaller ↦ replaced p r e smaller
            | inr larger ↦ kept p r e larger
          ]

    -- For a positive kbest and an order as that of doubles, add_sample keeps the invariant: the
    -- array holds the kbest smallest of all samples, or all of them while there are fewer, in
    -- ascending order, with what calloc wrote behind them.
    pub add_sample-IsKBest : 0 < k → IsKBest k (v ∷ xs) (add_sample less zero_value k v s)
    add_sample-IsKBest pos = elim (lt-cases s.samplecount k) [
      | inl room ↦ added room
      | inr full ↦ turned_away full pos
    ]
