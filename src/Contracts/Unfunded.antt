-- ===== src/Contracts/Unfunded.antt =====
-- `DeploySystemContracts` of contracts/contracts.go on a new chain.
use tc_node_validator_go.Base.{
  String, ◌≡◌, ◌∙◌, ap, refl, true, false, none, some, List, [], pos, ◌≤ℤ◌, Dict, lookup, insert,
  adjust, lookup-adjust, ok, deadlock, after, after-eq, arith,
}
use tc_node_validator_go.Currency.State.{Account, CurrencyManager}
use tc_node_validator_go.Currency.Lock.{bump_nonce}
use tc_node_validator_go.Chain.Block.{Platform}
use tc_node_validator_go.Chain.Blockchain.{Blockchain}
use tc_node_validator_go.Storage.Store.{LevelDb, Codec}
use tc_node_validator_go.Storage.Registration.{HasBlocks, recorded-HasBlocks}
use tc_node_validator_go.Contracts.Data.{Arg, ContractOperation, Runtime}
use tc_node_validator_go.Contracts.State.{Contract, ContractManager}
use tc_node_validator_go.Contracts.Manager.{guarded, released, new_contract_manager}
use tc_node_validator_go.Contracts.Deployment.{
  generate_contract_address, new_contract, create_contract,
}
use tc_node_validator_go.Contracts.Funding.{account_found, create_contract_with_value_blocks}
use tc_node_validator_go.Contracts.Codes.{
  Boxes, governance_code, governance_state, validator_code, validator_state, rewards_code,
  rewards_state,
}
use tc_node_validator_go.Contracts.Launch.{
  Launch, creator, created, creation, kept, register_created, rewards_value,
  deploy_governance_contract, deploy_validator_registry, deploy_rewards_system,
  deploy_system_contracts,
}

-- The currency after a contract of the creator is made, and the manager that holds contracts.
abbrev bumped : CurrencyManager → CurrencyManager
bumped money = record money { accounts = adjust creator bump_nonce money.accounts }

module _ {F J : Type 0} (r : Runtime F J) where
  abbrev managing : CurrencyManager → Dict (Contract F J) → ContractManager F J
  managing money contracts = record (new_contract_manager money) { contracts = contracts }

  create_free :
      (code : List (ContractOperation F J)) (state : Dict (Arg F J)) (now code_bytes : String)
      (a : Account) (money : CurrencyManager) (contracts : Dict (Contract F J))
      → money.mutex ≡ false
      → lookup creator money.accounts ≡ some a
      → r.code_json code ≡ some code_bytes
      → (k : Contract F J) × (create_contract r creator code state
            (some (pos 0))
            now
            (managing money contracts)
          ≡ (ok k, managing (bumped money) (insert k.address k contracts)))
  unfolding create_contract guarded released new_contract_manager
  create_free code state now code_bytes a money contracts free found json = (
    new_contract r (generate_contract_address r creator a.nonce now) creator code code_bytes state
        (some (pos 0)) now,
    rw (account_found creator now a money free found, json) refl,
  )

module _ {F J K C V D : Type 0} (r : Runtime F J) (b : Boxes F J) (p : Platform F K)
    (c : Codec F K C V) (ldb : LevelDb D) where
  abbrev launching : CurrencyManager → Dict (Contract F J) → Blockchain F K D → Launch F J K D
  launching money contracts chain = record { manager = managing r money contracts; chain = chain }

  -- A contract without funds is created and registered.
  deploys :
      (name : String) (code : List (ContractOperation F J)) (state : Dict (Arg F J))
      (now code_bytes : String) (a : Account) (money : CurrencyManager)
      (contracts : Dict (Contract F J)) (chain : Blockchain F K D)
      → HasBlocks chain
      → money.mutex ≡ false
      → lookup creator money.accounts ≡ some a
      → r.code_json code ≡ some code_bytes
      → (contracts' : Dict (Contract F J)) × (chain' : Blockchain F K D) × (after
            (creation r b p c ldb code state (pos 0) now (launching money contracts chain))
            (register_created r b p c ldb name now)
          ≡ (ok tt, launching (bumped money) contracts' chain'))
        × HasBlocks chain'
  deploys name code state now code_bytes a money contracts chain blocks free found json =
      let (k, made) = create_free r code state now code_bytes a money contracts free found json in
      let (chain', recorded, blocks') =
        recorded-HasBlocks p c ldb name k.address now chain blocks in
      (
        insert k.address k contracts,
        chain',
        after-eq (register_created r b p c ldb name now) (ap (created r b p c ldb chain) made)
            ∙ ap (kept r b p c ldb (launching (bumped money) (insert k.address k contracts) chain))
                recorded,
        blocks',
      )

  bumped_found :
      (a : Account) (money : CurrencyManager)
      → lookup creator money.accounts ≡ some a
      → lookup creator (bumped money).accounts ≡ some (bump_nonce a)
  bumped_found a money found =
      rw (lookup-adjust creator creator bump_nonce money.accounts, found) refl

  bumped_missing :
      (address : String) (money : CurrencyManager)
      → lookup address money.accounts ≡ none
      → lookup address (bumped money).accounts ≡ none
  bumped_missing address money missing =
      rw (lookup-adjust creator address bump_nonce money.accounts, missing) refl

  -- The address of the third contract that the genesis account creates.
  abbrev pub rewards_address : Account → String → String
  rewards_address a now = generate_contract_address r creator (bump_nonce (bump_nonce a)).nonce now

  -- On a chain that has blocks, with the currency manager's lock free, a genesis account that is not
  -- frozen and holds at least 100 TCC, three contracts whose code JSON takes, and no account at the address that the
  -- rewards contract is given, `DeploySystemContracts` never returns. What it leaves is a manager
  -- whose lock and whose currency's lock are held, and the genesis account's funds are not moved.
  pub unfunded_rewards_block :
      (first second third bytes1 bytes2 bytes3 : String) (chain : Blockchain F K D) (a : Account)
      (money : CurrencyManager)
      → HasBlocks chain
      → money.mutex ≡ false
      → lookup creator money.accounts ≡ some a
      → a.frozen ≡ false
      → pos rewards_value ≤ℤ a.balance
      → lookup (rewards_address a third) money.accounts ≡ none
      → r.code_json (governance_code b) ≡ some bytes1
      → r.code_json (validator_code b) ≡ some bytes2
      → r.code_json (rewards_code b) ≡ some bytes3
      → (contracts : Dict (Contract F J)) × (chain' : Blockchain F K D) × (deploy_system_contracts r
            b p c ldb first second third
            (some money)
            chain
          ≡ (
            deadlock,
            some (record {
              manager =
                  record (managing r (record (bumped (bumped money)) { mutex = true }) contracts) {
                    mutex = true;
                  };
              chain = chain';
            }),
          ))
  unfolding deploy_system_contracts deploy_governance_contract deploy_validator_registry
      deploy_rewards_system new_contract_manager
  unfunded_rewards_block first second third bytes1 bytes2 bytes3 chain a money blocks free found
        thawed covered missing json1 json2 json3 =
      let (contracts1, chain1, made1, blocks1) =
        deploys "governance" (governance_code b) governance_state first bytes1 a money [] chain
          blocks free found json1 in
      let (contracts2, chain2, made2, blocks2) =
        deploys "validators" (validator_code b) validator_state second bytes2 (bump_nonce a)
          (bumped money) contracts1 chain1 blocks1 free (bumped_found a money found) json2 in
      let waits =
        create_contract_with_value_blocks r creator (rewards_code b) rewards_state
          (pos rewards_value) third bytes3 (bump_nonce (bump_nonce a))
          (managing r (bumped (bumped money)) contracts2) refl free
          (bumped_found (bump_nonce a) (bumped money) (bumped_found a money found)) thawed
          (omega arith) covered json3
          (bumped_missing (rewards_address a third) (bumped money)
            (bumped_missing (rewards_address a third) money missing)) in
      (
        contracts2,
        chain2,
        ap (λ q. (q.0, some q.1))
            (after-eq
                (λ _ l.
                  after (deploy_validator_registry r b p c ldb second l)
                    (λ _. deploy_rewards_system r b p c ldb third))
                made1
              ∙ after-eq (λ _. deploy_rewards_system r b p c ldb third) made2
              ∙ after-eq (register_created r b p c ldb "rewards" third)
                  (ap (created r b p c ldb chain2) waits)),
      )
