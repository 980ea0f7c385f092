-- ===== src/Startup/Deployment.antt =====
-- blockchain/blockchain.go: `DeploySystemContracts`.
use tc_node_validator_go.Base.{
  ℕ, ◌*◌, ◌^◌, String, Option, none, some, pos, Action, ok, panic, ◌>>=◌, ◌>>◌, pure,
}
use tc_node_validator_go.Currency.State.{genesis_address}
use tc_node_validator_go.Currency.Manager.{transfer_funds}
use tc_node_validator_go.Chain.Block.{Platform}
use tc_node_validator_go.Storage.Store.{LevelDb, Codec, Stored, value, failure}
use tc_node_validator_go.Storage.Start.{record_system_contract, get_system_contract}
use tc_node_validator_go.Startup.State.{
  Contract, System, StartError, for_contracts, on_currency, attempt, unless_nil, chain_kept,
}
use tc_node_validator_go.Startup.Manager.{create_contract}
use tc_node_validator_go.Startup.Codes.{
  governance_code, governance_state, validator_code, validator_state, rewards_code, rewards_state,
}

-- `UnixNano` when each of the three contracts is created.
pub record Clock : Type 0 where
  pub governance_nanos : ℕ
  pub validators_nanos : ℕ
  pub rewards_nanos : ℕ

abbrev pub rewards_funds : ℕ
rewards_funds = 100 * 10 ^ 18

module _ {F J V D : Type 0} (p : Platform F J) (c : Codec F J Contract V) (ldb : LevelDb D) where
  -- `chain.RegisterSystemContract(name, address)`
  abbrev pub register : String → String → String → Action (System F J D) StartError (Unit {0})
  register name address now s =
      chain_kept s (record_system_contract p (for_contracts c) ldb name address now s.chain)

  -- Reading the address of a nil contract panics.
  abbrev pub register_created :
      String → String → Option Contract → Action (System F J D) StartError (Unit {0})
  register_created name now none s = (panic, s)
  register_created name now (some k) s = register name k.address now s

  unfoldable pub deploy_governance_contract :
      String → ℕ → Action (System F J D) StartError (Unit {0})
  deploy_governance_contract now nanos = do
    contract ← attempt (
        create_contract p c ldb genesis_address governance_code governance_state (some (pos 0)) now
          nanos)
    register_created "governance" now contract

  unfoldable pub deploy_validator_registry :
      String → ℕ → Action (System F J D) StartError (Unit {0})
  deploy_validator_registry now nanos = do
    contract ← attempt (
        create_contract p c ldb genesis_address validator_code validator_state (some (pos 0)) now
          nanos)
    register_created "validators" now contract

  -- The transfer to the new contract; an error is logged.
  abbrev pub fund_and_register :
      String → Option Contract → Action (System F J D) StartError (Unit {0})
  fund_and_register now none = pure tt
  fund_and_register now (some k) = do
    attempt (on_currency (transfer_funds genesis_address k.address (pos rewards_funds) now))
    register "rewards" k.address now

  unfoldable pub deploy_rewards_system : String → ℕ → Action (System F J D) StartError (Unit {0})
  deploy_rewards_system now nanos s =
      unless_nil s.currency
        (do
          contract ← attempt (
              create_contract p c ldb genesis_address rewards_code rewards_state (some (pos 0)) now
                nanos)
          fund_and_register now contract)
        s

  abbrev pub deploy_all : String → Clock → Action (System F J D) StartError (Unit {0})
  deploy_all now clock = do
    deploy_governance_contract now clock.governance_nanos
    deploy_validator_registry now clock.validators_nanos
    deploy_rewards_system now clock.rewards_nanos

  -- A governance contract that is registered ends the deployment.
  abbrev pub deploy_unless :
      String → Clock → Stored String → Action (System F J D) StartError (Unit {0})
  deploy_unless now clock (value address) s = (ok tt, s)
  deploy_unless now clock (failure e) s = unless_nil s.currency (deploy_all now clock) s

  -- The chain and the contract manager are not nil.
  unfoldable pub deploy_system_contracts :
      String → Clock → Action (System F J D) StartError (Unit {0})
  deploy_system_contracts now clock s =
      deploy_unless now clock (get_system_contract p (for_contracts c) ldb "governance" s.chain) s
