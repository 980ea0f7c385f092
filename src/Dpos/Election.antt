-- ===== src/Dpos/Election.antt =====
-- Whom `UpdateActiveDelegates` makes active, and when `updateSchedule` finds a producer.
use mathlib.Core.List.{Perm}
use mathlib.Core.List.Perm
use mathlib.Core.Path.{subst}
use tc_node_validator_go.Base.{
  ℕ, zero, suc, ◌≤◌, ◌≡◌, refl, sym, ap, ◌∙◌, inl, inr, ◌⊎◌, String, List, [], ◌∷◌, ◌++◌, map,
  length, take, length-take-le, FloatOps, IsOrdered, arith, Dict,
}
use tc_node_validator_go.Dpos.State.{DelegateInfo, Dpos}
use tc_node_validator_go.Dpos.Schedule.{
  DelegateScore, score_of, sort_scores, elected, update_active_delegates,
}
use tc_node_validator_go.Dpos.Sorting.{
  Every, AtLeast, IsDescending, sort_scores-Perm, sort_scores-IsDescending,
}

pub length-map {ℓ} : {A B : Type ℓ} (g : A → B) (xs : List A) → length (map g xs) ≡ length xs
length-map g [] = refl
length-map g (x ∷ xs) = ap suc (length-map g xs)

module _ {F : Type 0} (f : FloatOps F) where
  -- A list of names is a choice of the highest scores: those chosen are all at least every other,
  -- and their number is a given one, or all are chosen.
  pub record IsChoice (count : ℕ) (scores : List (DelegateScore F)) (names : List String)
      : Type 0 where
    pub chosen : List (DelegateScore F)
    pub others : List (DelegateScore F)
    pub names_eq : names ≡ map (λ s. s.id) chosen
    pub all_there : Perm (chosen ++ others) scores
    pub above : Every (λ x. Every (AtLeast f x) others) chosen
    pub bounded : length names ≤ count
    pub full : (others ≡ []) ⊎ (length names ≡ count)

  -- A descending list cut at a place.
  cut :
      (n : ℕ) (xs : List (DelegateScore F))
      → IsDescending f xs
      → (others : List (DelegateScore F)) × (take n xs ++ others ≡ xs)
        × Every (λ x. Every (AtLeast f x) others) (take n xs)
        × ((others ≡ []) ⊎ (length (take n xs) ≡ n))
  cut zero xs d = (xs, refl, tt, inr refl)
  cut (suc n) [] d = ([], refl, tt, inl refl)
  cut (suc n) (x ∷ xs) d =
      let (others, same, above, full) = cut n xs d.1 in
      (
        others,
        ap (◌∷◌ x) same,
        (behind (take n xs) others (subst (Every (AtLeast f x)) (sym same) d.0), above),
        elim full [ inl e ↦ inl e | inr e ↦ inr (ap suc e) ],
      )
    where
      behind :
          (xs ys : List (DelegateScore F)) → Every (AtLeast f x) (xs ++ ys) → Every (AtLeast f x) ys
      behind [] ys e = e
      behind (y ∷ xs) ys e = behind xs ys e.1

  elected-IsChoice :
      (o : IsOrdered f) (count : ℕ) (entries : List (String × DelegateInfo F))
      → IsChoice count (map (score_of f) entries) (elected f count entries)
  unfolding elected
  elected-IsChoice o count entries =
      let scores = map (score_of f) entries in
      let ranking = sort_scores f scores in
      let (others, same, above, full) = cut count ranking (sort_scores-IsDescending f o scores) in
      record {
        chosen = take count ranking;
        others = others;
        names_eq = refl;
        all_there = subst (λ xs. Perm xs scores) (sym same) (sort_scores-Perm f scores);
        above = above;
        bounded =
            omega
              (arith, length-map (λ s. s.id) (take count ranking), length-take-le count ranking);
        full = elim full [
          | inl e ↦ inl e
          | inr e ↦ inr (length-map (λ s. s.id) (take count ranking) ∙ e)
        ];
      }

  -- In whatever order the map of delegates is read, the active delegates after an update are those
  -- with the highest scores: no other delegate has a higher score than one of them, they are no
  -- more than the round has slots, and exactly as many unless every delegate is active. (Scores are
  -- no NaN: `<` on them is a strict weak order.)
  pub update_active_delegates-IsChoice :
      (o : IsOrdered f) (order : Dict (DelegateInfo F) → List (String × DelegateInfo F))
      (now : String) (d : Dpos F)
      → ((m : Dict (DelegateInfo F)) → Perm (order m) m)
      → IsChoice d.round_length
          (map (score_of f) d.delegates)
          (update_active_delegates f order now d).active_delegates
  unfolding update_active_delegates
  update_active_delegates-IsChoice o order now d reads =
      let c = elected-IsChoice o d.round_length (order d.delegates) in
      record {
        chosen = c.chosen;
        others = c.others;
        names_eq = c.names_eq;
        all_there = Perm.trans c.all_there (Perm.map (score_of f) (reads d.delegates));
        above = c.above;
        bounded = c.bounded;
        full = c.full;
      }
