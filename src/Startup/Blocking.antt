-- ===== src/Startup/Blocking.antt =====
-- The first start of a node.
use Prim.Native.String.{◌++◌ as str_append}
use tc_node_validator_go.Base.{
  ℕ, String, ◌≡◌, ◌∙◌, ap, refl, true, false, Option, none, some, List, [], ◌∷◌, pos, ◌≤ℤ◌, Dict,
  lookup, insert, lookup-insert, eq_iff, ok, deadlock, Outcome, Action, ◌>>=◌, after, after-eq,
  arith,
}
use tc_node_validator_go.Currency.State.{Account, CurrencyManager, genesis_address}
use tc_node_validator_go.Currency.Transfer.{transfer_to_new_blocks}
use tc_node_validator_go.Chain.Block.{Platform, format_uint}
use tc_node_validator_go.Chain.Blockchain.{Blockchain}
use tc_node_validator_go.Storage.Store.{LevelDb, Codec, StoreError, value, failure, save_contract}
use tc_node_validator_go.Storage.Registration.{HasBlocks, recorded-HasBlocks}
use tc_node_validator_go.Storage.Start.{get_system_contract}
use tc_node_validator_go.Startup.State.{
  ContractOperation, Contract, System, StartError, for_contracts, new_system, attempt, attempted,
  called, chain_kept,
}
use tc_node_validator_go.Startup.Manager.{
  generate_contract_address, prefix_of, once_saved, save_new, create_contract,
}
use tc_node_validator_go.Startup.Codes.{
  governance_code, governance_state, validator_code, validator_state, rewards_code, rewards_state,
}
use tc_node_validator_go.Startup.Deployment.{
  Clock, register, register_created, fund_and_register, deploy_unless, deploy_system_contracts,
  deploy_governance_contract, deploy_validator_registry, deploy_rewards_system, rewards_funds,
}

-- The address that the genesis account's contracts get.
unfoldable pub system_address : ℕ → String
system_address nanos =
    str_append "contract_" (str_append "GENESIS_" (str_append "_" (format_uint nanos)))

genesis_contract_address :
    (nanos : ℕ) → generate_contract_address genesis_address nanos ≡ some (system_address nanos)
unfolding generate_contract_address prefix_of system_address
genesis_contract_address nanos = refl

-- How far a deployment gets when the third contract's funding blocks: that contract is in the
-- cache, and of the currency only the lock has changed, which is taken.
abbrev pub StopsAtRewards : {F J D : Type 0} → ℕ → CurrencyManager → System F J D → Type 0
StopsAtRewards nanos cm s =
    (s.currency ≡ some (record cm { mutex = true }))
    × ((k : Contract) × (lookup (system_address nanos) s.contracts ≡ some k)
        × (k.code ≡ rewards_code)
        × (k.creator ≡ genesis_address))

module _ {F J V D : Type 0} (p : Platform F J) (c : Codec F J Contract V) (ldb : LevelDb D)
    (writes : (batch : List (String × String)) (db : D)
      → (db' : D) × (ldb.write batch db ≡ some db'))
    (json : (k : Contract) → (text : String) × (c.contract_json k ≡ some text)) where
  abbrev new_contract : List ContractOperation → Dict String → String → ℕ → Contract
  new_contract code state now nanos = record {
    address = system_address nanos;
    creator = genesis_address;
    code = code;
    state = state;
    balance = some (pos 0);
    created_at = now;
    last_updated = now;
  }

  contract_saved :
      (k : Contract) (db : D)
      → (db' : D) × (save_contract (for_contracts c) ldb k db ≡ (value tt, db'))
  unfolding save_contract
  contract_saved k db =
      let (text, written) = json k in
      let (db', put) = writes ((str_append "contract_" k.address, text) ∷ []) db in
      (db', ground (arith, written, put))

  new_contract_saved :
      (k : Contract) (chain : Blockchain F J D) (contracts : Dict Contract) (cm : CurrencyManager)
      → (db' : D) × (save_new p c ldb k (new_system chain contracts cm)
          ≡ (ok k, new_system (record chain { db = db' }) (insert k.address k contracts) cm))
  unfolding save_new
  new_contract_saved k chain contracts cm =
      let (db', done_) = contract_saved k chain.db in
      (db', ap (once_saved p c ldb k (new_system chain contracts cm)) done_)

  create_free :
      (code : List ContractOperation) (state : Dict String) (now : String) (nanos : ℕ)
      (chain : Blockchain F J D) (contracts : Dict Contract) (cm : CurrencyManager)
      → (db' : D) × (create_contract p c ldb genesis_address code state
            (some (pos 0))
            now
            nanos
            (new_system chain contracts cm)
          ≡ (
            ok (new_contract code state now nanos),
            new_system
                (record chain { db = db' })
                (insert (system_address nanos) (new_contract code state now nanos) contracts)
                cm,
          ))
  unfolding create_contract
  create_free code state now nanos chain contracts cm =
      let (db', done_) =
        new_contract_saved (new_contract code state now nanos) chain contracts cm in
      (db', rw (genesis_contract_address nanos) done_)

  module _ (code : List ContractOperation) (state : Dict String) (now : String) (nanos : ℕ) where
    abbrev creation : Action (System F J D) StartError (Option Contract)
    creation = attempt (create_contract p c ldb genesis_address code state (some (pos 0)) now nanos)

    abbrev Deployed : Outcome StartError (Unit {0}) × System F J D → CurrencyManager → Type 0
    Deployed result cm =
        (chain : Blockchain F J D) × (contracts : Dict Contract) × (result
          ≡ (ok tt, new_system chain contracts cm))
        × HasBlocks chain

    -- A contract without funds is created and registered.
    deploys :
        (name : String) (chain : Blockchain F J D) (contracts : Dict Contract)
        (cm : CurrencyManager)
        → HasBlocks chain
        → Deployed
            ((creation >>= register_created p c ldb name now) (new_system chain contracts cm))
            cm
    deploys name chain contracts cm blocks =
        let (db, made) = create_free code state now nanos chain contracts cm in
        let (chain', recorded, blocks') =
          recorded-HasBlocks p (for_contracts c) ldb name (system_address nanos) now
            (record chain { db = db }) blocks in
        (
          chain',
          insert (system_address nanos) (new_contract code state now nanos) contracts,
          after-eq (register_created p c ldb name now) (ap attempted made)
              ∙ ap
                  (chain_kept (
                    new_system (record chain { db = db })
                      (insert (system_address nanos) (new_contract code state now nanos) contracts)
                      cm))
                  recorded,
          blocks',
        )

  cached_rewards :
      (nanos : ℕ) (k : Contract) (contracts : Dict Contract)
      → lookup (system_address nanos) (insert (system_address nanos) k contracts) ≡ some k
  cached_rewards nanos k contracts = ground (
    arith,
    lookup-insert (system_address nanos) (system_address nanos) k contracts,
    eq_iff (system_address nanos) (system_address nanos),
  )

  -- The transfer to the rewards contract blocks: its address has no account.
  rewards_block :
      (now : String) (nanos : ℕ) (chain : Blockchain F J D) (contracts : Dict Contract)
      (cm : CurrencyManager) (a : Account)
      → cm.mutex ≡ false
      → lookup genesis_address cm.accounts ≡ some a
      → a.frozen ≡ false
      → pos rewards_funds ≤ℤ a.balance
      → lookup (system_address nanos) cm.accounts ≡ none
      → (s : System F J D) × (deploy_rewards_system p c ldb now nanos
            (new_system chain contracts cm)
          ≡ (deadlock, s))
        × StopsAtRewards nanos cm s
  unfolding deploy_rewards_system
  rewards_block now nanos chain contracts cm a free found thawed covered missing =
      let (db, made) = create_free rewards_code rewards_state now nanos chain contracts cm in
      let k = new_contract rewards_code rewards_state now nanos in
      let s =
        new_system (record chain { db = db }) (insert (system_address nanos) k contracts) cm in
      (
        record s { currency = some (record cm { mutex = true }) },
        after-eq (fund_and_register p c ldb now) (ap attempted made)
            ∙ after-eq (λ _. register p c ldb "rewards" (system_address nanos) now)
                (ap (λ r. attempted (called s r))
                  (transfer_to_new_blocks genesis_address (system_address nanos) (pos rewards_funds)
                    now cm a free (omega arith) found thawed covered missing)),
        (refl, (k, cached_rewards nanos k contracts, refl, refl)),
      )

  -- The first two contracts are registered, and the third blocks.
  pub deploy_blocks :
      (now : String) (clock : Clock) (e : StoreError) (chain : Blockchain F J D)
      (contracts : Dict Contract) (cm : CurrencyManager) (a : Account)
      → HasBlocks chain
      → get_system_contract p (for_contracts c) ldb "governance" chain ≡ failure e
      → cm.mutex ≡ false
      → lookup genesis_address cm.accounts ≡ some a
      → a.frozen ≡ false
      → pos rewards_funds ≤ℤ a.balance
      → lookup (system_address clock.rewards_nanos) cm.accounts ≡ none
      → (s : System F J D) × (deploy_system_contracts p c ldb now clock
            (new_system chain contracts cm)
          ≡ (deadlock, s))
        × StopsAtRewards clock.rewards_nanos cm s
  unfolding deploy_system_contracts deploy_governance_contract deploy_validator_registry
  deploy_blocks now clock e chain contracts cm a blocks new_ free found thawed covered missing =
      let (chain1, contracts1, first, blocks1) =
        deploys governance_code governance_state now clock.governance_nanos "governance" chain
          contracts cm blocks in
      let (chain2, contracts2, second, blocks2) =
        deploys validator_code validator_state now clock.validators_nanos "validators" chain1
          contracts1 cm blocks1 in
      let (s, third, stopped) =
        rewards_block now clock.rewards_nanos chain2 contracts2 cm a free found thawed covered
          missing in
      (
        s,
        ap (λ q. deploy_unless p c ldb now clock q (new_system chain contracts cm)) new_
            ∙ after-eq
                (λ _ s0.
                  after (deploy_validator_registry p c ldb now clock.validators_nanos s0)
                    (λ _. deploy_rewards_system p c ldb now clock.rewards_nanos))
                first
            ∙ after-eq (λ _. deploy_rewards_system p c ldb now clock.rewards_nanos) second
            ∙ third,
        stopped,
      )
