-- ===== src/Dpos/Schedule.antt =====
-- Who is active and who produces: `UpdateActiveDelegates`, `distributeRewards`, `updateSchedule`,
-- `ValidateBlock` and `IsValidator`. `order` gives the entries of a map in the order in which a
-- `range` loop meets them.
use tc_node_validator_go.Base.{
  ℕ, zero, suc, ◌+◌, ◌-◌, ◌/◌, ◌%◌, ◌^◌, String, Bool, true, false, ◌&&◌, ◌||◌, Option, none, some,
  List, [], ◌∷◌, map, pos, length, take, get_elem?, ◌==◌, str_eq, if◌then◌else◌, Dict, lookup,
  adjust, FloatOps, ok, panic,
}
use tc_node_validator_go.Chain.Block.{Block, Platform, calculate_hash}
use tc_node_validator_go.Dpos.State.{DelegateInfo, Dpos, Call}

pub record DelegateScore (F : Type 0) : Type 0 where
  pub id : String
  pub score : F

module _ {F : Type 0} (f : FloatOps F) where
  open f use {add, mul, div, lt, of_int, decimal}

  unfoldable pub score_of : String × DelegateInfo F → DelegateScore F
  score_of (id, info) = record {
    id = id;
    score =
        add (add (mul (of_int info.votes) (decimal 10 0)) info.stake)
          (mul info.reliability (decimal 5 1));
  }

  -- Two neighbours, swapped if the first has the lower score.
  abbrev pub swapped : DelegateScore F → DelegateScore F → DelegateScore F × DelegateScore F
  swapped x y = if lt x.score y.score then (y, x) else (x, y)

  -- One pass of the sort, over a number of pairs of neighbours.
  unfoldable pub pass : ℕ → List (DelegateScore F) → List (DelegateScore F)
  pass (suc k) (x ∷ y ∷ xs) = (swapped x y).0 ∷ pass k ((swapped x y).1 ∷ xs)
  pass _ xs = xs

  -- Passes over fewer and fewer pairs; the last one is over none.
  unfoldable pub passes : ℕ → List (DelegateScore F) → List (DelegateScore F)
  passes zero xs = xs
  passes (suc k) xs = passes k (pass k xs)

  unfoldable pub sort_scores : List (DelegateScore F) → List (DelegateScore F)
  sort_scores xs = passes (length xs) xs

  abbrev pub deactivate : String × DelegateInfo F → String × DelegateInfo F
  deactivate (id, info) = (id, record info { is_active = false })

  abbrev pub activate : String → DelegateInfo F → DelegateInfo F
  activate now info = record info { is_active = true; last_active = now }

  unfoldable pub activate_all : String → List String → Dict (DelegateInfo F) → Dict (DelegateInfo F)
  activate_all now [] m = m
  activate_all now (id ∷ ids) m = activate_all now ids (adjust id (activate now) m)

  -- The names of the delegates with the highest scores.
  unfoldable pub elected : ℕ → List (String × DelegateInfo F) → List String
  elected count entries = map (λ s. s.id) (take count (sort_scores (map score_of entries)))

  module _ (order : Dict (DelegateInfo F) → List (String × DelegateInfo F)) where
    unfoldable pub update_active_delegates : String → Dpos F → Dpos F
    update_active_delegates now d =
        let active = elected d.round_length (order d.delegates) in
        record d {
          active_delegates = active;
          delegates = activate_all now active (map deactivate d.delegates);
        }

    abbrev pub reward : F → F → DelegateInfo F → DelegateInfo F
    reward round_reward slots info = record info {
      reward_accrued =
          add info.reward_accrued
            (div (mul round_reward (div info.reliability (decimal 100 0))) slots);
    }

    unfoldable pub reward_all : F → F → List String → Dict (DelegateInfo F) → Dict (DelegateInfo F)
    reward_all round_reward slots [] m = m
    reward_all round_reward slots (id ∷ ids) m =
        reward_all round_reward slots ids (adjust id (reward round_reward slots) m)

    unfoldable pub distribute_rewards : Dpos F → Dpos F
    distribute_rewards d =
        let slots = of_int (pos d.round_length) in
        record d {
          delegates = reward_all (mul (decimal 10 0) slots) slots d.active_delegates d.delegates;
        }

    -- What happens at a slot that completes a round.
    abbrev pub end_round : String → Dpos F → Dpos F
    end_round now d =
        if d.current_slot == 0
        then distribute_rewards
            (update_active_delegates now (record d { current_round = d.current_round + 1 }))
        else d

    abbrev pub produced : String → DelegateInfo F → DelegateInfo F
    produced now info = record info { blocks_created = info.blocks_created + 1; last_active = now }

    abbrev pub take_turn : String → Option String → Call F (Unit {0})
    take_turn now none d = (panic, d)
    take_turn now (some producer) d = (
      ok tt,
      record d {
        current_producer = producer;
        delegates =
            if str_eq producer d.node_id
            then adjust d.node_id (produced now) d.delegates
            else d.delegates;
      },
    )

    -- Division by a `BlockTime` or a `RoundLength` of zero panics.
    abbrev pub advance : ℕ → ℕ → String → Call F (Unit {0})
    advance slots clock now d =
        if slots == 0
        then (ok tt, d)
        else if d.round_length == 0
        then (panic, d)
        else (let d' = end_round now (record d {
          current_slot = (d.current_slot + slots) % d.round_length;
          last_block_time = clock;
        }) in
            take_turn now (get_elem? d'.active_delegates d'.current_slot) d')

    -- `clock` is the time in nanoseconds and `now` the same as a text.
    unfoldable pub update_schedule : ℕ → String → Call F (Unit {0})
    update_schedule clock now d =
        if d.block_time == 0
        then (panic, d)
        else advance ((clock - d.last_block_time) / 10 ^ 9 / d.block_time) clock now d

-- `slices.Contains`
unfoldable pub contains_name : String → List String → Bool
contains_name name [] = false
contains_name name (n ∷ ns) = str_eq name n || contains_name name ns

module _ {F J G : Type 0} (p : Platform F J) where
  unfoldable pub validate_block : Block F J → Dpos G → Bool
  validate_block b d =
      contains_name b.validator d.active_delegates && str_eq b.hash (calculate_hash p b)

unfoldable is_validator : {F : Type 0} → Dpos F → Bool
is_validator d = contains_name d.node_id d.active_delegates

-- The copies that the callers get are made field by field, in the source's list of fields.
unfoldable get_delegate_info : {F : Type 0} → String → Dpos F → Option (DelegateInfo F)
get_delegate_info node d = lookup node d.delegates

unfoldable get_all_delegates : {F : Type 0} → Dpos F → Dict (DelegateInfo F)
get_all_delegates d = d.delegates

unfoldable get_validators : {F : Type 0} → Dpos F → List String
get_validators d = d.active_delegates

unfoldable get_current_producer : {F : Type 0} → Dpos F → String
get_current_producer d = d.current_producer
