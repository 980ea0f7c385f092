-- ===== src/Dpos/Founding.antt =====
-- consensus/dpos.go: `Initialize`, and the statistics.
use tc_node_validator_go.Base.{
  ℕ, String, true, false, List, [], ◌∷◌, ℤ, pos, ◌+ℤ◌, Dict, insert, FloatOps, if◌then◌else◌,
}
use tc_node_validator_go.Dpos.State.{DelegateInfo, Dpos}
use tc_node_validator_go.Dpos.Schedule.{update_active_delegates}

abbrev pub delegates_list : List String
delegates_list =
    "localhost:3000" ∷ "localhost:3001" ∷ "localhost:3002" ∷ "localhost:3003" ∷ "localhost:3004"
    ∷ "localhost:3005" ∷ "localhost:3006" ∷ "localhost:3007" ∷ "localhost:3008" ∷ "localhost:3009"
    ∷ "localhost:3010" ∷ "localhost:3011" ∷ "localhost:3012" ∷ "localhost:3013" ∷ "localhost:3014"
    ∷ "localhost:3015" ∷ "localhost:3016" ∷ "localhost:3017" ∷ "localhost:3018" ∷ "localhost:3019"
    ∷ "localhost:3020" ∷ "localhost:3021" ∷ "localhost:3022" ∷ "localhost:3023" ∷ []

module _ {F : Type 0} (f : FloatOps F) where
  open f use {add, of_int, decimal}

  abbrev founder : String → F → F → String → DelegateInfo F
  founder id stake reliability now = record {
    node_id = id;
    stake = stake;
    votes = pos 0;
    blocks_created = 0;
    is_active = false;
    last_active = now;
    reliability = reliability;
    reward_accrued = decimal 0 0;
    voter_count = pos 0;
    missed_blocks = 0;
    creation_time = now;
    representativ_id = "";
  }

  -- The loop over the delegates; `draw` is what `rand.Intn` gives for each, for its stake and for
  -- its reliability.
  unfoldable pub found : (String → ℕ × ℕ) → String → List String → Dpos F → Dpos F
  found draw now [] d = d
  found draw now (id ∷ ids) d =
      let stake = add (decimal 100 0) (of_int (pos (draw id).0)) in
      let reliability = add (decimal 95 0) (of_int (pos (draw id).1)) in
      found draw now ids (record d {
        delegates = insert id (founder id stake reliability now) d.delegates;
        stake_by_node_id = insert id stake d.stake_by_node_id;
      })

  module _ (order : Dict (DelegateInfo F) → List (String × DelegateInfo F)) where
    abbrev first_round : (String → ℕ × ℕ) → String → Dpos F → Dpos F
    first_round draw now d =
        let elected = update_active_delegates f order now (found draw now delegates_list d) in
        record elected { initialized = true }

    -- The goroutine that it starts runs `update_schedule` at every tick.
    unfoldable pub initialize_dpos : String → (String → ℕ × ℕ) → ℕ → String → Dpos F → Dpos F
    unfolding found
    initialize_dpos node_id draw clock now d =
        if d.initialized
        then d
        else first_round draw now (record d { node_id = node_id; last_block_time = clock })

  -- The sums of `GetDelegateStats`; the other entries of its answer are fields.
  pub record DelegateStats : Type 0 where
    pub total_stake : F
    pub total_votes : ℤ
    pub active_stake : F

  unfoldable sum_stats : List (String × DelegateInfo F) → DelegateStats → DelegateStats
  sum_stats [] s = s
  sum_stats ((id, i) ∷ rest) s = sum_stats rest (record {
    total_stake = add s.total_stake i.stake;
    total_votes = s.total_votes +ℤ i.votes;
    active_stake = if i.is_active then add s.active_stake i.stake else s.active_stake;
  })

  unfoldable pub get_delegate_stats :
      (Dict (DelegateInfo F) → List (String × DelegateInfo F)) → Dpos F → DelegateStats
  unfolding sum_stats
  get_delegate_stats order d =
      sum_stats (order d.delegates)
        (record { total_stake = decimal 0 0; total_votes = pos 0; active_stake = decimal 0 0 })
