-- ===== src/Pbft/State.antt =====
-- consensus/pbft.go and the messages of consensus/concensus.go: the data. The mutex is not
-- modelled: no method of `PBFT` calls another while it holds the lock that the other takes.
use tc_node_validator_go.Base.{
  ℕ, ◌*◌, ◌/◌, ◌%◌, String, Bool, Option, none, some, List, [], ◌∷◌, ℤ, Dict, Action, length,
  get_elem?,
}
use tc_node_validator_go.Chain.Block.{Block}

pub record PbftState (F J : Type 0) : Type 0 where
  pub block : Block F J
  pub pre_prepared : Bool
  pub prepare_count : ℕ
  pub commit_count : ℕ
  pub prepared : Bool
  pub committed : Bool
  pub prepared_by : Dict Bool
  pub committed_by : Dict Bool
  pub view_change_count : ℕ

-- `view_changes` gives, for a node, how often it asked for each view; a missing entry counts 0.
pub record Pbft (F J : Type 0) : Type 0 where
  pub node_id : String
  pub primary : String
  pub validators : List String
  pub block_states : Dict (PbftState F J)
  pub view : ℕ
  pub sequence_number : ℕ
  pub view_changes : Dict (ℤ → ℕ)

-- What a message's data is as a view change: no JSON object, an object with no number under
-- "view", or a number, cut to an `int`.
pub data ViewField : Type 0 where
  no_object no_number : ViewField
  number : ℤ → ViewField

-- A message as `ProcessConsensusMessage` reads it: `block` is what marshalling the data and
-- unmarshalling it as a block gives, `none` for an error.
pub record Message (F J : Type 0) : Type 0 where
  pub kind : String
  pub node_id : String
  pub block : Option (Block F J)
  pub view_field : ViewField

pub data PbftError : Type 0 where
  bad_block invalid_view_data invalid_view_number : PbftError
  not_primary invalid_block unknown_kind : String → PbftError

abbrev pub Call : Type 0 → Type 0 → Type 0 → Type 0
Call F J A = Action (Pbft F J) PbftError A

-- `2 * len(p.Validators) / 3`
unfoldable pub threshold : {F J : Type 0} → Pbft F J → ℕ
threshold p = 2 * length p.validators / 3

-- `p.Validators[view % len(p.Validators)]`; `none` is a panic.
unfoldable pub leader_of : List String → ℕ → Option String
leader_of [] view = none
leader_of (v ∷ vs) view = get_elem? (v ∷ vs) (view % length (v ∷ vs))

unfoldable pub new_pbft : {F J : Type 0} → Pbft F J
new_pbft = record {
  node_id = "";
  primary = "";
  validators = [];
  block_states = [];
  view = 0;
  sequence_number = 0;
  view_changes = [];
}

abbrev pub default_validators : List String
default_validators = "localhost:3000" ∷ "localhost:3001" ∷ "localhost:3002" ∷ "localhost:3003" ∷ []

abbrev pub with_leader : {F J : Type 0} → Option String → Pbft F J → Option (Pbft F J)
with_leader none p = none
with_leader (some leader) p = some (record p { primary = leader })

-- `Initialize`, with `none` for a panic.
unfoldable pub initialize : {F J : Type 0} → String → Pbft F J → Option (Pbft F J)
initialize id p =
    with_leader (leader_of default_validators p.view)
      (record p { node_id = id; validators = default_validators })
