-- ===== src/Dpos/State.antt =====
-- The data of consensus/dpos.go. The mutex is not modelled: no method waits for a lock it holds.
use tc_node_validator_go.Base.{ℕ, String, Bool, false, List, [], ℤ, pos, Dict, FloatOps, Action}

pub record DelegateInfo (F : Type 0) : Type 0 where
  pub node_id : String
  pub stake : F
  pub votes : ℤ
  pub blocks_created : ℕ
  pub is_active : Bool
  pub last_active : String
  pub reliability : F
  pub reward_accrued : F
  pub voter_count : ℤ
  pub missed_blocks : ℕ
  pub creation_time : String
  pub representativ_id : String

-- `last_block_time` is a clock's reading in nanoseconds. The currency manager, the validators and
-- the bans are in ValidatorSet of Validators.antt.
pub record Dpos (F : Type 0) : Type 0 where
  pub node_id : String
  pub delegates : Dict (DelegateInfo F)
  pub active_delegates : List String
  pub current_producer : String
  pub round_length : ℕ
  pub block_time : ℕ
  pub current_round : ℕ
  pub current_slot : ℕ
  pub last_block_time : ℕ
  pub stake_by_node_id : Dict F
  pub votes_by_node_id : Dict String
  pub reward_pool : F
  pub initialized : Bool

pub data DposError : Type 0 where
  unknown_delegate unknown_kind : String → DposError
  insufficient_stake stake_not_positive : DposError
  invalid_data invalid_voter_id invalid_delegate_id invalid_node_id invalid_stake : DposError

abbrev pub Call : Type 0 → Type 0 → Type 0
Call F A = Action (Dpos F) DposError A

module _ {F : Type 0} (f : FloatOps F) where
  open f use {decimal}

  unfoldable pub new_dpos : Dpos F
  new_dpos = record {
    node_id = "";
    delegates = [];
    active_delegates = [];
    current_producer = "";
    round_length = 21;
    block_time = 3;
    current_round = 0;
    current_slot = 0;
    last_block_time = 0;
    stake_by_node_id = [];
    votes_by_node_id = [];
    reward_pool = decimal 1000 0;
    initialized = false;
  }

  -- What `RegisterDelegate` and `handleNewDelegate` make.
  abbrev pub new_delegate : String → F → String → DelegateInfo F
  new_delegate node stake now = record {
    node_id = node;
    stake = stake;
    votes = pos 0;
    blocks_created = 0;
    is_active = false;
    last_active = now;
    reliability = decimal 100 0;
    reward_accrued = decimal 0 0;
    voter_count = pos 0;
    missed_blocks = 0;
    creation_time = now;
    representativ_id = "";
  }
