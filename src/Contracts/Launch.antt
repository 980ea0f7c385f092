-- ===== src/Contracts/Launch.antt =====
-- contracts/contracts.go: `DeploySystemContracts` of this package.
use tc_node_validator_go.Base.{
  ℕ, ◌*◌, ◌^◌, String, Option, none, some, List, ℤ, pos, Dict, Action, Outcome, ok, err, panic,
  deadlock, ◌>>=◌, ◌>>◌,
}
use tc_node_validator_go.Currency.State.{CurrencyManager}
use tc_node_validator_go.Chain.Block.{Platform}
use tc_node_validator_go.Chain.Blockchain.{Blockchain}
use tc_node_validator_go.Storage.Store.{LevelDb, Codec}
use tc_node_validator_go.Storage.Start.{record_system_contract}
use tc_node_validator_go.Contracts.Data.{Arg, ContractOperation, ContractError, Runtime}
use tc_node_validator_go.Contracts.State.{Contract, ContractManager}
use tc_node_validator_go.Contracts.Manager.{new_contract_manager}
use tc_node_validator_go.Contracts.Deployment.{create_contract}
use tc_node_validator_go.Contracts.Codes.{
  Boxes, governance_code, governance_state, validator_code, validator_state, rewards_code,
  rewards_state,
}

-- The contract manager, and the chain that the contracts are registered on. `J` is what `any` holds
-- in a contract, `K` what it holds in a block.
pub record Launch (F J K D : Type 0) : Type 0 where
  pub manager : ContractManager F J
  pub chain : Blockchain F K D

abbrev pub rewards_value : ℕ
rewards_value = 100 * 10 ^ 18

abbrev pub creator : String
creator = "GENESIS_ACCOUNT"

module _ {F J K C V D : Type 0} (r : Runtime F J) (b : Boxes F J) (p : Platform F K)
    (c : Codec F K C V) (ldb : LevelDb D) where
  -- `contract, err := cm.CreateContract(...)`, an error being logged: the contract is then nil.
  abbrev pub created :
      Blockchain F K D
      → Outcome ContractError (Contract F J) × ContractManager F J
      → Outcome ContractError (Option (Contract F J)) × Launch F J K D
  created chain (ok k, cm) = (ok (some k), record { manager = cm; chain = chain })
  created chain (err e, cm) = (ok none, record { manager = cm; chain = chain })
  created chain (panic, cm) = (panic, record { manager = cm; chain = chain })
  created chain (deadlock, cm) = (deadlock, record { manager = cm; chain = chain })

  abbrev pub creation :
      List (ContractOperation F J)
      → Dict (Arg F J)
      → ℤ
      → String
      → Action (Launch F J K D) ContractError (Option (Contract F J))
  creation code state value now l =
      created l.chain (create_contract r creator code state (some value) now l.manager)

  abbrev pub kept :
      Launch F J K D → Option (Blockchain F K D) → Outcome ContractError (Unit {0}) × Launch F J K D
  kept l none = (panic, l)
  kept l (some chain') = (ok tt, record l { chain = chain' })

  -- `chain.RegisterSystemContract(name, contract.Address)`: on a nil contract this panics.
  abbrev pub register_created :
      String → String → Option (Contract F J) → Action (Launch F J K D) ContractError (Unit {0})
  register_created name now none l = (panic, l)
  register_created name now (some k) l =
      kept l (record_system_contract p c ldb name k.address now l.chain)

  unfoldable pub deploy_governance_contract :
      String → Action (Launch F J K D) ContractError (Unit {0})
  deploy_governance_contract now =
      creation (governance_code b) governance_state (pos 0) now
      >>= register_created "governance" now

  unfoldable pub deploy_validator_registry :
      String → Action (Launch F J K D) ContractError (Unit {0})
  deploy_validator_registry now =
      creation (validator_code b) validator_state (pos 0) now >>= register_created "validators" now

  unfoldable pub deploy_rewards_system : String → Action (Launch F J K D) ContractError (Unit {0})
  deploy_rewards_system now =
      creation (rewards_code b) rewards_state (pos rewards_value) now
      >>= register_created "rewards" now

  -- The readings of the clock are those of the three deployments. On a chain without a currency
  -- manager, the first call of `CreateContract` panics.
  unfoldable pub deploy_system_contracts :
      String
      → String
      → String
      → Option CurrencyManager
      → Blockchain F K D
      → Outcome ContractError (Unit {0}) × Option (Launch F J K D)
  deploy_system_contracts first second third none chain = (panic, none)
  deploy_system_contracts first second third (some currency) chain =
      let (result, l) =
        (do
          deploy_governance_contract first
          deploy_validator_registry second
          deploy_rewards_system third)
          (record { manager = new_contract_manager currency; chain = chain }) in
      (result, some l)
