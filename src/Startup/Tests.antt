-- ===== src/Startup/Tests.antt =====
-- The start of a node on a database in memory.
use tc_node_validator_go.Base.{ℕ, String, ◌≡◌, refl, none, some, pos, ℤ, err}
use tc_node_validator_go.Chain.Block.{Platform}
use tc_node_validator_go.Storage.Store.{Codec}
use tc_node_validator_go.Startup.State.{Contract}
use tc_node_validator_go.Startup.Manager.{generate_contract_address, prefix_of}
use tc_node_validator_go.Startup.Deployment.{Clock}
use tc_node_validator_go.Startup.Consensus.{Chance, Consensus, new_consensus, unsupported}
use tc_node_validator_go.Currency.Setup.{new_currency_manager}
use tc_node_validator_go.Currency.Tests.{thousandths}

abbrev toy : Platform ℤ ℕ
toy = record {
  tx_json = λ txs. "";
  cp_json = λ cps. "";
  sha256_hex = λ text. "h";
  parse_time = λ text. pos 0;
  zero_fees = pos 0;
}

-- Writes every block and contract as a mark; no test reads them.
abbrev marks : Codec ℤ ℕ Contract String
marks = record {
  block_json = λ b. some "block";
  read_block = λ text. none;
  kept_fees = λ x. x;
  contract_json = λ k. some "contract";
  read_contract = λ text. none;
  contract_address = λ k. k.address;
  with_balance = λ k. k;
  value_json = λ v. some v;
  scan_uint = λ text. none;
}

abbrev clock : Clock
clock = record { governance_nanos = 1; validators_nanos = 2; rewards_nanos = 3 }

short_creator_panics : generate_contract_address "bob" 7 ≡ none
unfolding generate_contract_address prefix_of
short_creator_panics = refl

abbrev chance : Chance ℤ
chance = record { draw = λ id. (5, 3); clock = 0; now = "t0"; order = λ m. m }

unknown_kind :
    new_consensus {J = ℕ} thousandths chance "RAFT" "localhost:3000" (new_currency_manager "t0")
    ≡ err (unsupported "RAFT")
unfolding new_consensus
unknown_kind = refl
