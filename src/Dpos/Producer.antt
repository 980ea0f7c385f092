-- ===== src/Dpos/Producer.antt =====
-- Whom `selectBlockProducer` takes.
use mathlib.Core.List.{Mem, mem-cons_self, mem-cons_of_mem}
use tc_node_validator_go.Base.{
  ◌≡◌, refl, ◌⊎◌, inl, inr, String, true, Option, none, some, List, [], ◌∷◌, ℤ, pos, ◌≤ℤ◌, ltb_ℤ,
  Bool-cases, Dict, arith,
}
use tc_node_validator_go.Dpos.Validators.{ValidatorSet, select_from, select_block_producer}

-- No stake is nil.
abbrev pub HasStakes : List (String × Option ℤ) → Type 0
HasStakes [] = Unit
HasStakes ((address, none) ∷ xs) = ⊥
HasStakes ((address, some s) ∷ xs) = HasStakes xs

-- No stake is above a bound.
abbrev pub AllBelow : ℤ → List (String × Option ℤ) → Type 0
AllBelow top [] = Unit
AllBelow top ((address, none) ∷ xs) = AllBelow top xs
AllBelow top ((address, some s) ∷ xs) = (s ≤ℤ top) × AllBelow top xs

abbrev Selected : ℤ → String → List (String × Option ℤ) → Type 0
Selected least first xs =
    (name : String) × (top : ℤ) × (select_from least first xs ≡ some name)
    × (least ≤ℤ top)
    × AllBelow top xs
    × (((name ≡ first) × (top ≡ least)) ⊎ ((ltb_ℤ least top ≡ true) × Mem (name, some top) xs))

select_from-Selected :
    (least : ℤ) (first : String) (xs : List (String × Option ℤ))
    → HasStakes xs
    → Selected least first xs
unfolding select_from
select_from-Selected least first [] h = (first, least, refl, omega arith, tt, inl (refl, refl))
select_from-Selected least first ((address, none) ∷ xs) h = absurd h
select_from-Selected least first ((address, some s) ∷ xs) h = elim (Bool-cases (ltb_ℤ least s)) [
  | inl e ↦
      let (name, top, found, above, below, from) = select_from-Selected s address xs h in
      (
        name,
        top,
        rw e found,
        ground (arith, e, above),
        (above, below),
        elim from [
          | inl same ↦ inr (rw same.1 e, rw (same.0, same.1) mem-cons_self)
          | inr (higher, there) ↦
              inr (ground (arith, e, higher), mem-cons_of_mem (address, some s) there)
        ],
      )
  | inr e ↦
      let (name, top, found, above, below, from) = select_from-Selected least first xs h in
      (
        name,
        top,
        rw e found,
        above,
        (ground (arith, e, above), below),
        elim from [
          | inl same ↦ inl same
          | inr (higher, there) ↦ inr (higher, mem-cons_of_mem (address, some s) there)
        ],
      )
]

-- When no validator's stake is nil, `selectBlockProducer` returns: a validator whose stake is above
-- 0 and the highest of all, or the empty name, and then no stake is above 0. (The map is read in
-- any order.)
pub select_block_producer-Selected :
    {F : Type 0} (order : Dict (Option ℤ) → List (String × Option ℤ)) (d : ValidatorSet F)
    → HasStakes (order d.validators)
    → (name : String) × (top : ℤ) × (select_block_producer order d ≡ some name)
      × (pos 0 ≤ℤ top)
      × AllBelow top (order d.validators)
      × (((name ≡ "") × (top ≡ pos 0))
          ⊎ ((ltb_ℤ (pos 0) top ≡ true) × Mem (name, some top) (order d.validators)))
unfolding select_block_producer
select_block_producer-Selected order d h = select_from-Selected (pos 0) "" (order d.validators) h
