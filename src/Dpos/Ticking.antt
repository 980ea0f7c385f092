-- ===== src/Dpos/Ticking.antt =====
-- The schedule from `Initialize` on.
use mathlib.Core.List.{Perm}
use tc_node_validator_go.Base.{
  ℕ, ◌+◌, ◌-◌, ◌/◌, ◌%◌, ◌^◌, ◌≤◌, ◌<◌, ◌≡◌, refl, ap, inl, inr, String, false, List, [], ◌∷◌, map,
  length, length-append, get_elem?, get_elem?_of_lt, ◌==◌, Bool-cases, Dict, insert, FloatOps,
  IsOrdered, Outcome, ok, ◌>>◌, pure, arith, str_eq, adjust,
}
use tc_node_validator_go.Dpos.State.{DelegateInfo, Dpos, DposError, Call, new_dpos}
use tc_node_validator_go.Dpos.Schedule.{
  score_of, update_active_delegates, activate_all, reward_all, distribute_rewards, update_schedule,
  end_round, deactivate, activate, reward, produced, take_turn,
}
use tc_node_validator_go.Dpos.Election.{length-map, update_active_delegates-IsChoice}
use tc_node_validator_go.Dpos.Counting.{length-adjust, length-Perm}
use tc_node_validator_go.Dpos.Founding.{found, initialize_dpos, delegates_list}

-- Every slot of a round has an active delegate, and there are delegates for all of them.
pub record IsStaffed {F : Type 0} (d : Dpos F) : Type 0 where
  pub some_time : 0 < d.block_time
  pub some_slots : 0 < d.round_length
  pub enough : d.round_length ≤ length d.delegates
  pub all_slots : length d.active_delegates ≡ d.round_length

abbrev pub Runs : {F : Type 0} → Outcome DposError (Unit {0}) × Dpos F → Type 0
Runs (r, d) = (r ≡ ok tt) × IsStaffed d

module _ {F : Type 0} (f : FloatOps F)
    (order : Dict (DelegateInfo F) → List (String × DelegateInfo F)) where
  -- The ticks of the goroutine that `Initialize` starts, each with its time.
  unfoldable pub run_ticks : List (ℕ × String) → Call F (Unit {0})
  run_ticks [] = pure tt
  run_ticks ((clock, now) ∷ ticks) = update_schedule f order clock now >> run_ticks ticks

module _ {F : Type 0} (f : FloatOps F) (o : IsOrdered f)
    (order : Dict (DelegateInfo F) → List (String × DelegateInfo F))
    (reads : (m : Dict (DelegateInfo F)) → Perm (order m) m) where
  elects_all :
      (now : String) (d : Dpos F)
      → d.round_length ≤ length d.delegates
      → length (update_active_delegates f order now d).active_delegates ≡ d.round_length
  elects_all now d enough =
      let c = update_active_delegates-IsChoice f o order now d reads in
      let sizes = length-Perm _ _ c.all_there in
      elim c.full [
        | inr e ↦ e
        | inl e ↦ omega (
          arith,
          enough,
          c.bounded,
          sizes,
          ap length e,
          length-append c.chosen c.others,
          length-map (λ s. s.id) c.chosen,
          ap length c.names_eq,
          length-map (score_of f) d.delegates,
        )
      ]

  length-activate_all :
      (now : String) (ids : List String) (m : Dict (DelegateInfo F))
      → length (activate_all f now ids m) ≡ length m
  unfolding activate_all
  length-activate_all now [] m = refl
  length-activate_all now (id ∷ ids) m = omega (
    arith,
    length-activate_all now ids (adjust id (activate f now) m),
    length-adjust id (activate f now) m,
  )

  length-reward_all :
      (round_reward slots : F) (ids : List String) (m : Dict (DelegateInfo F))
      → length (reward_all f order round_reward slots ids m) ≡ length m
  unfolding reward_all
  length-reward_all r s [] m = refl
  length-reward_all r s (id ∷ ids) m = omega (
    arith,
    length-reward_all r s ids (adjust id (reward f order r s) m),
    length-adjust id (reward f order r s) m,
  )

  update_active_delegates-IsStaffed :
      (now : String) (d : Dpos F)
      → 0 < d.block_time
      → 0 < d.round_length
      → d.round_length ≤ length d.delegates
      → IsStaffed (update_active_delegates f order now d)
  unfolding update_active_delegates
  update_active_delegates-IsStaffed now d t s enough = record {
    some_time = t;
    some_slots = s;
    enough = omega (
      arith,
      enough,
      length-map deactivated d.delegates,
      length-activate_all now (update_active_delegates f order now d).active_delegates
          (map deactivated d.delegates),
    );
    all_slots = elects_all now d enough;
  }
    where
      deactivated : String × DelegateInfo F → String × DelegateInfo F
      deactivated = deactivate f

  distribute_rewards-IsStaffed :
      (d : Dpos F) → IsStaffed d → IsStaffed (distribute_rewards f order d)
  unfolding distribute_rewards
  distribute_rewards-IsStaffed d h = record {
    some_time = h.some_time;
    some_slots = h.some_slots;
    enough = omega (arith, h.enough, length-reward_all _ _ d.active_delegates d.delegates);
    all_slots = h.all_slots;
  }

  end_round-IsStaffed :
      (now : String) (d : Dpos F)
      → IsStaffed d
      → IsStaffed (end_round f order now d)
        × ((end_round f order now d).current_slot ≡ d.current_slot)
        × ((end_round f order now d).round_length ≡ d.round_length)
  unfolding distribute_rewards update_active_delegates
  end_round-IsStaffed now d h = elim (Bool-cases (d.current_slot == 0)) [
    | inr e ↦ rw e (h, refl, refl)
    | inl e ↦
        let next = record d { current_round = d.current_round + 1 } in
        rw e (
          distribute_rewards-IsStaffed (update_active_delegates f order now next)
              (update_active_delegates-IsStaffed now next h.some_time h.some_slots h.enough),
          refl,
          refl,
        )
  ]

  take_turn-Runs :
      (now : String) (d : Dpos F)
      → IsStaffed d
      → d.current_slot < d.round_length
      → Runs (take_turn f order now (get_elem? d.active_delegates d.current_slot) d)
  take_turn-Runs now d h inside =
      let (producer, there) =
        get_elem?_of_lt d.active_delegates d.current_slot (omega (arith, inside, h.all_slots)) in
      rw there (
        refl,
        record {
          some_time = h.some_time;
          some_slots = h.some_slots;
          enough = elim (Bool-cases (str_eq producer d.node_id)) [
            | inl e ↦ rw e (
                omega (arith, h.enough, length-adjust d.node_id (produced f order now) d.delegates))
            | inr e ↦ rw e h.enough
          ];
          all_slots = h.all_slots;
        },
      )

  -- A tick on a staffed schedule goes through and leaves it staffed.
  update_schedule-Runs :
      (clock : ℕ) (now : String) (d : Dpos F)
      → IsStaffed d
      → Runs (update_schedule f order clock now d)
  unfolding update_schedule
  update_schedule-Runs clock now d h =
      let slots = (clock - d.last_block_time) / 10 ^ 9 / d.block_time in
      let timed : (d.block_time == 0) ≡ false = ground (arith, h.some_time) in
      let round : (d.round_length == 0) ≡ false = ground (arith, h.some_slots) in
      elim (Bool-cases (slots == 0)) [
        | inl e ↦ rw (timed, e) (refl, h)
        | inr e ↦
            let moved : Dpos F = record d {
              current_slot = (d.current_slot + slots) % d.round_length;
              last_block_time = clock;
            } in
            let staffed : IsStaffed moved = record {
              some_time = h.some_time;
              some_slots = h.some_slots;
              enough = h.enough;
              all_slots = h.all_slots;
            } in
            let (kept, slot, length_) = end_round-IsStaffed now moved staffed in
            rw (timed, e, round)
              (take_turn-Runs now (end_round f order now moved) kept
                (omega (arith, slot, length_, h.some_slots)))
      ]

  run_ticks-Runs :
      (ticks : List (ℕ × String)) (d : Dpos F) → IsStaffed d → Runs (run_ticks f order ticks d)
  unfolding run_ticks
  run_ticks-Runs [] d h = (refl, h)
  run_ticks-Runs ((clock, now) ∷ ticks) d h =
      let (went, staffed) = update_schedule-Runs clock now d h in
      rw (pair_of (update_schedule f order clock now d) went)
        (run_ticks-Runs ticks (update_schedule f order clock now d).1 staffed)
    where
      pair_of : (q : Outcome DposError (Unit {0}) × Dpos F) → q.0 ≡ ok tt → q ≡ (ok tt, q.1)
      pair_of (r, d) e = rw e refl

  founded :
      (node : String) (draw : String → ℕ × ℕ) (clock : ℕ) (now : String)
      → IsStaffed (initialize_dpos f order node draw clock now (new_dpos f))
  unfolding initialize_dpos found new_dpos insert
  founded node draw clock now =
      let start : Dpos F = record (new_dpos f) { node_id = node; last_block_time = clock } in
      let h =
        update_active_delegates-IsStaffed now (found f draw now delegates_list start) (omega arith)
          (omega arith) (omega arith) in
      record {
        some_time = h.some_time;
        some_slots = h.some_slots;
        enough = h.enough;
        all_slots = h.all_slots;
      }

  -- After `Initialize` of a new `DPoS`, whatever the random stakes are and in whatever order the map
  -- of delegates is read, every sequence of ticks goes through without a panic, and leaves every
  -- slot of a round with an active delegate. (Scores are no NaN, and no delegate is unregistered.)
  pub initialize_dpos-Runs :
      (node : String) (draw : String → ℕ × ℕ) (clock : ℕ) (now : String) (ticks : List (ℕ × String))
      → Runs (run_ticks f order ticks (initialize_dpos f order node draw clock now (new_dpos f)))
  initialize_dpos-Runs node draw clock now ticks =
      run_ticks-Runs ticks (initialize_dpos f order node draw clock now (new_dpos f))
        (founded node draw clock now)
