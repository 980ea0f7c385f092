-- ===== src/Startup/Manager.antt =====
-- blockchain/blockchain.go: `NewContractManager`, `CreateContract` and `InitializeBlockchain`.
use Prim.Native.String.{◌++◌ as str_append}
use tc_node_validator_go.Base.{
  ℕ, zero, suc, String, Bool, true, false, Option, none, some, List, [], ◌∷◌, ℤ, pos, ltb_ℤ, Dict,
  insert, Action, Outcome, ok, err, panic, deadlock, ◌>>=◌, ◌>>◌, pure, fail_if,
}
use tc_node_validator_go.Currency.State.{CurrencyManager, CurrencyError}
use tc_node_validator_go.Currency.Manager.{get_balance, transfer_funds}
use tc_node_validator_go.Currency.Setup.{init_native_token}
use tc_node_validator_go.Chain.Block.{Platform, BlockType, format_uint}
use tc_node_validator_go.Chain.Blockchain.{Blockchain}
use tc_node_validator_go.Storage.Store.{
  LevelDb, Codec, Stored, value, failure, save_contract, get_all_contracts,
}
use tc_node_validator_go.Storage.Start.{new_blockchain}
use tc_node_validator_go.Startup.State.{
  ContractOperation, Contract, System, StartError, no_currency, insufficient_funds, no_database,
  save_failed, load_failed, filled_balance, for_contracts, on_currency, guard, or_panic, new_system,
}

-- The first bytes of a text, `none` when it has fewer: slicing panics.
unfoldable pub prefix_of : ℕ → String → Option String
prefix_of zero s = some ""
prefix_of (suc n) String.[] = none
prefix_of (suc n) (String.◌∷◌ c s) = elim (prefix_of n s) [
  | none ↦ none
  | some t ↦ some (String.◌∷◌ c t)
]

-- `timestamp` is `UnixNano`, which is positive since 1970.
unfoldable pub generate_contract_address : String → ℕ → Option String
unfolding prefix_of
generate_contract_address creator timestamp = elim (prefix_of 8 creator) [
  | none ↦ none
  | some front ↦
      some (str_append "contract_" (str_append front (str_append "_" (format_uint timestamp))))
]

-- The cache that the contracts of the database fill, by their addresses.
unfoldable cached : List Contract → Dict Contract → Dict Contract
cached [] m = m
cached (k ∷ ks) m = cached ks (insert k.address (filled_balance k) m)

abbrev amount_of : Option ℤ → ℤ
amount_of none = pos 0
amount_of (some b) = b

abbrev has_currency : Option CurrencyManager → Bool
has_currency none = false
has_currency (some cm) = true

module _ {F J D : Type 0} where
  -- `GetBalance` never returns nil.
  abbrev fund_creation : String → ℤ → String → Action (System F J D) StartError (Unit {0})
  fund_creation creator amount now = do
    balance ← on_currency (get_balance creator)
    fail_if (ltb_ℤ balance amount) insufficient_funds
    on_currency (transfer_funds creator "contract_creation" amount now)

  abbrev fund_if : Bool → String → ℤ → String → Action (System F J D) StartError (Unit {0})
  fund_if false creator amount now = pure tt
  fund_if true creator amount now = fund_creation creator amount now

  -- `InitNativeToken` returns no error.
  abbrev pub initialized :
      Blockchain F J D
      → Dict Contract
      → Outcome CurrencyError (Unit {0}) × CurrencyManager
      → Outcome StartError (System F J D)
  initialized chain contracts (panic, cm) = panic
  initialized chain contracts (deadlock, cm) = deadlock
  initialized chain contracts (err e, cm) = ok (new_system chain contracts cm)
  initialized chain contracts (ok done_, cm) = ok (new_system chain contracts cm)

module _ {F J V D : Type 0} (p : Platform F J) (c : Codec F J Contract V) (ldb : LevelDb D) where
  -- The contracts that `NewContractManager` starts with; an error is logged.
  unfoldable pub new_contract_manager : D → Dict Contract
  unfolding cached
  new_contract_manager db = elim (get_all_contracts (for_contracts c) ldb db) [
    | failure e ↦ []
    | value ks ↦ cached ks []
  ]

  abbrev pub loaded : String → Stored (Blockchain F J D) → Outcome StartError (System F J D)
  loaded now (failure e) = err (load_failed e)
  loaded now (value chain) =
      initialized chain (new_contract_manager chain.db) (init_native_token (pos 100000000) now)

  -- `InitializeBlockchain` with the directories made and the database open. Of the two currency
  -- managers that it makes, the second stays.
  unfoldable pub initialize_blockchain : BlockType → String → D → Outcome StartError (System F J D)
  initialize_blockchain block_type now db =
      loaded now (new_blockchain p (for_contracts c) ldb block_type now db)

  abbrev pub once_saved :
      Contract → System F J D → Stored (Unit {0}) × D → Outcome StartError Contract × System F J D
  once_saved k s (failure e, db') =
      (err (save_failed e), record s { chain = record s.chain { db = db' } })
  once_saved k s (value done_, db') = (
    ok k,
    record s { chain = record s.chain { db = db' }; contracts = insert k.address k s.contracts },
  )

  -- `SaveContract`, and then the cache.
  unfoldable pub save_new : Contract → Action (System F J D) StartError Contract
  save_new k s = once_saved k s (save_contract (for_contracts c) ldb k s.chain.db)

  unfoldable pub create_contract :
      String
      → List ContractOperation
      → Dict String
      → Option ℤ
      → String
      → ℕ
      → Action (System F J D) StartError Contract
  create_contract creator code initial_state initial_balance now nanos = do
    guard (λ s. has_currency s.currency) no_currency
    fund_if (ltb_ℤ (pos 0) (amount_of initial_balance)) creator (amount_of initial_balance) now
    address ← or_panic (generate_contract_address creator nanos)
    guard (λ s. s.has_db) no_database
    save_new (record {
      address = address;
      creator = creator;
      code = code;
      state = initial_state;
      balance = some (amount_of initial_balance);
      created_at = now;
      last_updated = now;
    })
