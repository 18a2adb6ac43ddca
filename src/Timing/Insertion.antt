-- ===== src/Timing/Insertion.antt =====
-- The insertion sort of `add_sample` in ASSN/ASSN6/fcyc.c moves the sample to its place.
use mathlib.Core.Option
use mathlib.Core.List.Perm
use mathlib.Core.List.{Perm}
use csed.Prelude.{
  ℕ, suc, ◌+◌, ◌≡◌, inl, inr, refl, ap, ◌∙◌, arith, Bool, true, false, List, [], ◌∷◌, if◌then◌else◌,
  length, get_elem?, set, All, All-map, Bool-cases,
}
use csed.Timing.{value_at, sift}

-- The first list in reverse, in front of the second.
abbrev pub onto {ℓ} : {A : Type ℓ} → List A → List A → List A
onto [] tail = tail
onto (x ∷ xs) tail = onto xs (x ∷ tail)

module _ {A : Type 0} where
  pub get_elem?-onto :
      (r t : List A) (n k : ℕ) → n ≡ length r + k → get_elem? (onto r t) n ≡ get_elem? t k
  get_elem?-onto [] t n k e = ap (get_elem? t) (omega arith)
  get_elem?-onto (x ∷ r) t n k e = get_elem?-onto r (x ∷ t) n (suc k) (omega arith)

  pub set-onto :
      (r t : List A) (n k : ℕ) (y : A) → n ≡ length r + k → set (onto r t) n y ≡ onto r (set t k y)
  set-onto [] t n k y e = ap (λ (m : ℕ). set t m y) (omega arith)
  set-onto (x ∷ r) t n k y e = set-onto r (x ∷ t) n (suc k) y (omega arith)

-- `less` is the order of `double`s that are no NaN.
pub record IsOrder {A : Type 0} (less : A → A → Bool) : Type 0 where
  pub asym : (a b : A) → less a b ≡ true → less b a ≡ false
  pub trans : (a b c : A) → less b a ≡ false → less c b ≡ false → less c a ≡ false

module _ {A : Type 0} (less : A → A → Bool) where
  abbrev pub AtMost : A → A → Type 0
  AtMost a b = less b a ≡ false

  -- Insertion into a list from the largest sample to the smallest.
  unfoldable pub insert : A → List A → List A
  insert v [] = v ∷ []
  insert v (p ∷ r) = if less v p then p ∷ insert v r else v ∷ p ∷ r

  pub length-insert : (v : A) (r : List A) → length (insert v r) ≡ suc (length r)
  unfolding insert
  length-insert v [] = refl
  length-insert v (p ∷ r) = ground (arith, length-insert v r)

  pub insert-perm : (v : A) (r : List A) → Perm (insert v r) (v ∷ r)
  unfolding insert
  insert-perm v [] = Perm.rfl
  insert-perm v (p ∷ r) = elim (Bool-cases (less v p)) [
    | inl e ↦ rw e (Perm.trans (Perm.cons p (insert-perm v r)) (Perm.swap v p r))
    | inr e ↦ rw e Perm.rfl
  ]

  -- From the largest to the smallest.
  abbrev pub IsDescending : List A → Type 0
  IsDescending [] = Unit
  IsDescending (p ∷ r) = All (λ a. AtMost a p) r × IsDescending r

  pub insert-All : (P : A → Type 0) (v : A) (r : List A) → P v → All P r → All P (insert v r)
  unfolding insert
  insert-All P v [] pv h = (pv, tt)
  insert-All P v (p ∷ r) pv h = elim (Bool-cases (less v p)) [
    | inl e ↦ rw e (h.0, insert-All P v r pv h.1)
    | inr e ↦ rw e (pv, h)
  ]

  module _ (o : IsOrder less) where
    pub insert-IsDescending : (v : A) (r : List A) → IsDescending r → IsDescending (insert v r)
    unfolding insert
    insert-IsDescending v [] h = (tt, tt)
    insert-IsDescending v (p ∷ r) h = elim (Bool-cases (less v p)) [
      | inl e ↦ rw e (insert-All _ v r (o.asym v p e) h.0, insert-IsDescending v r h.1)
      | inr e ↦ rw e ((e, All-map _ _ r (λ a q. o.trans a p v q e) h.0), h)
    ]

module _ {A : Type 0} (less : A → A → Bool) (zero_value : A) where
  -- The loop of swaps is an insertion into what stands in front of the sample.
  pub sift-insert :
      (r rest : List A) (v : A)
      → sift less zero_value (onto r (v ∷ rest)) (length r) ≡ onto (insert less v r) rest
  unfolding sift insert
  sift-insert [] rest v = refl
  sift-insert (p ∷ r) rest v =
      rw (val_eq, temp_eq)
        (elim (Bool-cases (less v p)) [
          | inl e ↦ rw (e, swapped) (sift-insert r (p ∷ rest) v)
          | inr e ↦ rw e refl
        ])
    where
      temp_eq : value_at less zero_value (onto r (p ∷ v ∷ rest)) (length r) ≡ p
      temp_eq =
          ap (λ o. Option.get_or o zero_value)
            (get_elem?-onto r (p ∷ v ∷ rest) (length r) 0 (omega arith))

      val_eq : value_at less zero_value (onto r (p ∷ v ∷ rest)) (suc (length r)) ≡ v
      val_eq =
          ap (λ o. Option.get_or o zero_value)
            (get_elem?-onto r (p ∷ v ∷ rest) (suc (length r)) 1 (omega arith))

      swapped :
          set (set (onto r (p ∷ v ∷ rest)) (length r) v) (suc (length r)) p ≡ onto r (v ∷ p ∷ rest)
      swapped =
          ap (λ l. set l (suc (length r)) p)
            (set-onto r (p ∷ v ∷ rest) (length r) 0 v (omega arith))
          ∙ set-onto r (v ∷ v ∷ rest) (suc (length r)) 1 p (omega arith)
