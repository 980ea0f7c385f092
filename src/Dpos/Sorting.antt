-- ===== src/Dpos/Sorting.antt =====
-- The sort of `UpdateActiveDelegates` sorts: its passes leave a permutation in descending order.
use mathlib.Core.List.{Perm, append-nil}
use mathlib.Core.Path.{subst}
use mathlib.Core.List.Perm
use tc_node_validator_go.Base.{
  ℕ, zero, suc, ◌≡◌, refl, ap, ◌∙◌, inl, inr, false, Bool-cases, List, [], ◌∷◌, ◌++◌, length,
  FloatOps, IsOrdered, arith,
}
use tc_node_validator_go.Dpos.Schedule.{DelegateScore, swapped, pass, passes, sort_scores}

-- Every element of a list satisfies a predicate.
abbrev pub Every {ℓ κ} : {A : Type ℓ} → (A → Type κ) → List A → Type κ
Every P [] = Unit
Every P (x ∷ xs) = P x × Every P xs

Every-pair {ℓ κ₁ κ₂} :
    {A : Type ℓ} (P : A → Type κ₁) (Q : A → Type κ₂) (xs : List A)
    → Every P xs
    → Every Q xs
    → Every (λ x. P x × Q x) xs
Every-pair P Q [] p q = tt
Every-pair P Q (x ∷ xs) p q = ((p.0, q.0), Every-pair P Q xs p.1 q.1)

module _ {F : Type 0} (f : FloatOps F) where
  -- The first score is not below the second.
  abbrev pub AtLeast : DelegateScore F → DelegateScore F → Type 0
  AtLeast x y = f.lt x.score y.score ≡ false

  -- Every score is at least every later one.
  abbrev pub IsDescending : List (DelegateScore F) → Type 0
  IsDescending [] = Unit
  IsDescending (x ∷ xs) = Every (AtLeast x) xs × IsDescending xs

  swapped-Perm :
      (x y : DelegateScore F) (xs : List (DelegateScore F))
      → Perm ((swapped f x y).0 ∷ (swapped f x y).1 ∷ xs) (x ∷ y ∷ xs)
  swapped-Perm x y xs = elim (Bool-cases (f.lt x.score y.score)) [
    | inl e ↦ rw e (Perm.swap x y xs)
    | inr e ↦ rw e (Perm.refl (x ∷ y ∷ xs))
  ]

  pass-Perm : (k : ℕ) (xs : List (DelegateScore F)) → Perm (pass f k xs) xs
  unfolding pass
  pass-Perm zero xs = Perm.refl xs
  pass-Perm (suc k) [] = Perm.refl []
  pass-Perm (suc k) (x ∷ []) = Perm.refl (x ∷ [])
  pass-Perm (suc k) (x ∷ y ∷ xs) =
      Perm.trans (Perm.cons (swapped f x y).0 (pass-Perm k ((swapped f x y).1 ∷ xs)))
        (swapped-Perm x y xs)

  passes-Perm : (k : ℕ) (xs : List (DelegateScore F)) → Perm (passes f k xs) xs
  unfolding passes
  passes-Perm zero xs = Perm.refl xs
  passes-Perm (suc k) xs = Perm.trans (passes-Perm k (pass f k xs)) (pass-Perm k xs)

  pub sort_scores-Perm : (xs : List (DelegateScore F)) → Perm (sort_scores f xs) xs
  unfolding sort_scores
  sort_scores-Perm xs = passes-Perm (length xs) xs

  module _ (o : IsOrdered f) where
    AtLeast-trans : (x y z : DelegateScore F) → AtLeast x y → AtLeast y z → AtLeast x z
    AtLeast-trans x y z h k = elim (Bool-cases (f.lt x.score z.score)) [
      | inr e ↦ e
      | inl e ↦
          let split = o.lt_cotrans x.score y.score z.score e in absurd (ground (arith, split, h, k))
    ]

    -- What the lower of two neighbours is at least, both of them are.
    swapped_above :
        (x y m : DelegateScore F)
        → AtLeast (swapped f x y).1 m
        → AtLeast x m × AtLeast (swapped f x y).0 m
    swapped_above x y m h = elim (Bool-cases (f.lt x.score y.score)) [
      | inl e ↦
          let low : AtLeast x m = ground (arith, h, e) in
          rw e (low, AtLeast-trans y x m (o.lt_asym x.score y.score e) low)
      | inr e ↦
          let low : AtLeast y m = ground (arith, h, e) in
          rw e (AtLeast-trans x y m e low, AtLeast-trans x y m e low)
    ]

    swapped_keeps :
        (P : DelegateScore F → Type 0) (x y : DelegateScore F)
        → P x
        → P y
        → P (swapped f x y).0 × P (swapped f x y).1
    swapped_keeps P x y p q = elim (Bool-cases (f.lt x.score y.score)) [
      | inl e ↦ rw e (q, p)
      | inr e ↦ rw e (p, q)
    ]

    -- A pass over a front of a list, from the element `x` it carries: the lowest of them ends at
    -- the end of the front, and what lies behind stays.
    record Bubbled (x : DelegateScore F) (front back result : List (DelegateScore F)) : Type 1 where
      higher : List (DelegateScore F)
      lowest : DelegateScore F
      result_eq : result ≡ higher ++ (lowest ∷ back)
      same_length : length higher ≡ length front
      first_above : AtLeast x lowest
      all_above : Every (λ y. AtLeast y lowest) higher
      keeps : (P : DelegateScore F → Type 0) → P x → Every P front → Every P higher × P lowest

    pass-Bubbled :
        (k : ℕ) (x : DelegateScore F) (front back : List (DelegateScore F))
        → length front ≡ k
        → Bubbled x front back (pass f k (x ∷ (front ++ back)))
    unfolding pass
    pass-Bubbled zero x [] back e = record {
      higher = [];
      lowest = x;
      result_eq = refl;
      same_length = refl;
      first_above = o.lt_irrefl x.score;
      all_above = tt;
      keeps = λ P p q. (tt, p);
    }
    pass-Bubbled zero x (y ∷ front) back e = absurd (omega (arith, e))
    pass-Bubbled (suc k) x [] back e = absurd (omega (arith, e))
    pass-Bubbled (suc k) x (y ∷ front) back e =
        let hi = (swapped f x y).0 in
        let lo = (swapped f x y).1 in
        let b = pass-Bubbled k lo front back (omega (arith, e)) in
        record {
          higher = hi ∷ b.higher;
          lowest = b.lowest;
          result_eq = ap (◌∷◌ hi) b.result_eq;
          same_length = ap suc b.same_length;
          first_above = (swapped_above x y b.lowest b.first_above).0;
          all_above = ((swapped_above x y b.lowest b.first_above).1, b.all_above);
          keeps = λ P p q.
              (let both = swapped_keeps P x y p q.0 in
                let rest = b.keeps P both.1 q.1 in ((both.0, rest.0), rest.1));
        }

    -- The invariant of the passes: the back is descending, and no element of the front is below one
    -- of the back.
    passes-IsDescending :
        (k : ℕ) (front back : List (DelegateScore F))
        → length front ≡ k
        → IsDescending back
        → Every (λ x. Every (AtLeast x) back) front
        → IsDescending (passes f k (front ++ back))
    unfolding passes
    passes-IsDescending zero [] back e d a = d
    passes-IsDescending zero (x ∷ front) back e d a = absurd (omega (arith, e))
    passes-IsDescending (suc k) [] back e d a = absurd (omega (arith, e))
    passes-IsDescending (suc k) (x ∷ front) back e d a =
        let b = pass-Bubbled k x front back (omega (arith, e)) in
        let kept = b.keeps (λ y. Every (AtLeast y) back) a.0 a.1 in
        rw b.result_eq (
          passes-IsDescending k b.higher (b.lowest ∷ back) (b.same_length ∙ omega (arith, e))
            (kept.1, d)
            (Every-pair (λ y. AtLeast y b.lowest) (λ y. Every (AtLeast y) back) b.higher b.all_above
              kept.0))

    pub sort_scores-IsDescending : (xs : List (DelegateScore F)) → IsDescending (sort_scores f xs)
    unfolding sort_scores
    sort_scores-IsDescending xs =
        subst (λ ys. IsDescending (passes f (length xs) ys)) (append-nil xs)
          (passes-IsDescending (length xs) xs [] refl tt (no_back xs))
      where
        no_back : (ys : List (DelegateScore F)) → Every (λ x. Every (AtLeast x) []) ys
        no_back [] = tt
        no_back (y ∷ ys) = (tt, no_back ys)
