-- ===== src/Pbft/Tests.antt =====
-- The consensus theorems at a node of the four default validators.
use tc_node_validator_go.Base.{
  lookup, ℕ, String, ◌≡◌, ◌≢◌, refl, ap, true, none, some, [], ◌∷◌, pos, panic, arith, eq_iff,
}
use tc_node_validator_go.Chain.Block.{Block, Platform, transaction_block}
use tc_node_validator_go.Pbft.State.{
  PbftState, Pbft, Message, no_object, number, threshold, leader_of, default_validators, initialize,
  new_pbft,
}
use tc_node_validator_go.Pbft.Handlers.{process_message}
use tc_node_validator_go.Pbft.Votes.{AllTallied, process_message-AllTallied}
use tc_node_validator_go.Pbft.Quorum.{prepares_from, strangers_prepare}
use tc_node_validator_go.Pbft.Views.{IsLed, process_message-IsLed, ask_again, lone_view_change}

abbrev toy : Platform ℕ ℕ
toy = record {
  tx_json = λ txs. "";
  cp_json = λ cps. "";
  sha256_hex = λ text. text;
  parse_time = λ text. pos 0;
  zero_fees = 0;
}

abbrev block : Block ℕ ℕ
block = record {
  index = 1;
  timestamp = "t";
  type_of = transaction_block;
  transactions = none;
  critical_processes = none;
  previous_hash = "g";
  hash = "1gt0";
  nonce = 0;
  signature = "";
  validator = "ana";
  total_fees = 0;
  extra = "";
}

abbrev node : Pbft ℕ ℕ
node = record {
  node_id = "localhost:3001";
  primary = "localhost:3000";
  validators = default_validators;
  block_states = [];
  view = 0;
  sequence_number = 0;
  view_changes = [];
}

initialize_runs : initialize "localhost:3001" new_pbft ≡ some node
unfolding initialize new_pbft leader_of
initialize_runs = refl

node-IsLed : IsLed node
unfolding leader_of
node-IsLed = refl

abbrev vote : Message ℕ ℕ
vote = record {
  kind = "Prepare";
  node_id = "localhost:3002";
  block = some block;
  view_field = no_object;
}

abbrev request : Message ℕ ℕ
request = record {
  kind = "ViewChange";
  node_id = "localhost:3002";
  block = some block;
  view_field = number (pos 3);
}

process_message-AllTallied_example : AllTallied (process_message toy vote node).1
process_message-AllTallied_example = process_message-AllTallied toy vote node tt

process_message-IsLed_example :
    IsLed (process_message toy request node).1 × ((process_message toy request node).0 ≢ panic)
process_message-IsLed_example = process_message-IsLed toy request node node-IsLed

threshold_runs : threshold node ≡ 2
unfolding threshold
threshold_runs = refl

strangers_prepare_example :
    (st : PbftState ℕ ℕ) × (lookup block.hash
        (prepares_from toy block no_object ("eve" ∷ "mallory" ∷ []) node).block_states
      ≡ some st)
    × (st.prepared ≡ true)
unfolding threshold lookup
strangers_prepare_example =
    strangers_prepare toy block no_object ("eve" ∷ "mallory" ∷ []) node refl (refl, (refl, tt))
      (omega arith) (omega arith)

others_differ : leader_of default_validators 1 ≢ leader_of default_validators 0
unfolding leader_of
others_differ e =
    let same : ◌≡◌ {A = String} "localhost:3001" "localhost:3000" =
      ap (λ o. elim o [ none ↦ "" | some x ↦ x ]) e in
    ground (arith, eq_iff "localhost:3001" "localhost:3000")

lone_view_change_example : (ask_again 2 "eve" (pos 3) node).view ≡ 3
unfolding threshold
lone_view_change_example =
    lone_view_change 2 3 "eve" node node-IsLed (omega arith) (omega arith) (omega arith)
