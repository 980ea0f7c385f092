-- ===== src/Dpos/Turns.antt =====
-- The turns that `updateSchedule` gives to the active delegates.
use tc_node_validator_go.Base.{
  ℕ, zero, suc, ◌+◌, ◌-◌, ◌/◌, ◌%◌, ◌^◌, ◌≤◌, ◌<◌, String, ◌≡◌, refl, inl, inr, ◌⊎◌, false, none,
  some, Option-cases, List, [], ◌∷◌, length, get_elem?, ◌==◌, Dict, FloatOps, ok, panic, arith,
}
use tc_node_validator_go.Dpos.State.{DelegateInfo, Dpos}
use tc_node_validator_go.Dpos.Schedule.{update_schedule}

get_elem?-none {ℓ} : {A : Type ℓ} (xs : List A) (i : ℕ) → get_elem? xs i ≡ none → length xs ≤ i
get_elem?-none [] i h = omega arith
get_elem?-none (x ∷ xs) zero h = cc
get_elem?-none (x ∷ xs) (suc i) h = omega (arith, get_elem?-none xs i h)

get_elem?-some {ℓ} :
    {A : Type ℓ} (xs : List A) (i : ℕ) (a : A) → get_elem? xs i ≡ some a → i < length xs
get_elem?-some [] i a h = cc
get_elem?-some (x ∷ xs) zero a h = omega arith
get_elem?-some (x ∷ xs) (suc i) a h = omega (arith, get_elem?-some xs i a h)

-- The number of slots that have gone by at a time.
unfoldable pub slots_elapsed : {F : Type 0} → ℕ → Dpos F → ℕ
slots_elapsed clock d = (clock - d.last_block_time) / 10 ^ 9 / d.block_time

-- The slot that is current then.
unfoldable pub slot_at : {F : Type 0} → ℕ → Dpos F → ℕ
slot_at clock d = (d.current_slot + slots_elapsed clock d) % d.round_length

module _ {F : Type 0} (f : FloatOps F)
    (order : Dict (DelegateInfo F) → List (String × DelegateInfo F)) (clock : ℕ) (now : String)
    (d : Dpos F) where
  abbrev Turn : ℕ → Type 0
  Turn slot =
      let (r, d') = update_schedule f order clock now d in
      ((r ≡ ok tt)
        × (get_elem? d.active_delegates slot ≡ some d'.current_producer)
        × (slot < length d.active_delegates))
      ⊎ ((r ≡ panic) × (length d.active_delegates ≤ slot))

  -- When slots have gone by and the current slot is then not the first of a round, the schedule
  -- gives the turn to the active delegate of that slot, if there is one; if the active delegates are
  -- fewer, it panics. (Block time and round length are positive.)
  pub update_schedule-Turn :
      0 < d.block_time
      → 0 < d.round_length
      → 0 < slots_elapsed clock d
      → 0 < slot_at clock d
      → Turn (slot_at clock d)
  unfolding update_schedule slots_elapsed slot_at
  update_schedule-Turn t r s n =
      let slot = slot_at clock d in
      let timed : (d.block_time == 0) ≡ false = ground arith in
      let round : (d.round_length == 0) ≡ false = ground arith in
      let gone : (slots_elapsed clock d == 0) ≡ false = ground arith in
      let inside : (slot == 0) ≡ false = ground arith in
      elim (Option-cases (get_elem? d.active_delegates slot)) [
        | inl missing ↦
            rw (update_schedule, timed, gone, round, inside, missing)
              (inr (refl, get_elem?-none d.active_delegates slot missing))
        | inr (producer, found) ↦
            rw (update_schedule, timed, gone, round, inside, found)
              (inl (refl, refl, get_elem?-some d.active_delegates slot producer found))
      ]
