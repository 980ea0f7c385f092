-- ===== src/Startup/State.antt =====
-- blockchain/interfaces.go: contracts as package blockchain keeps them, and what a start builds.
use tc_node_validator_go.Base.{
  ℕ, String, Bool, true, false, Option, none, some, List, ℤ, pos, Dict, Action, Outcome, ok, err,
  panic, deadlock,
}
use tc_node_validator_go.Currency.State.{CurrencyManager, CurrencyError, Call}
use tc_node_validator_go.Chain.Blockchain.{Blockchain}
use tc_node_validator_go.Storage.Store.{Codec, StoreError}

-- `any`, as far as the code of the system contracts uses it.
pub data Value : Type 0 where
  text : String → Value
  flag : Bool → Value
  number : ℕ → Value
  fields : Dict String → Value
  numbers : Dict ℕ → Value

pub record ContractOperation : Type 0 where
  pub op_code : String
  pub args : List Value

-- `balance` is a pointer that may be nil.
pub record Contract : Type 0 where
  pub address : String
  pub creator : String
  pub code : List ContractOperation
  pub state : Dict String
  pub balance : Option ℤ
  pub created_at : String
  pub last_updated : String

-- A chain and the `ContractManager` over it. Both point to one currency manager, `none` for nil, and
-- the manager's database is the chain's, unless that pointer is nil. The manager never takes its
-- mutex.
pub record System (F J D : Type 0) : Type 0 where
  pub chain : Blockchain F J D
  pub contracts : Dict Contract
  pub currency : Option CurrencyManager
  pub has_db : Bool

pub data StartError : Type 0 where
  no_currency insufficient_funds no_database : StartError
  transfer_failed : CurrencyError → StartError
  save_failed load_failed : StoreError → StartError

abbrev pub filled_balance : Contract → Contract
filled_balance k = record k { balance = elim k.balance [ none ↦ some (pos 0) | some b ↦ some b ] }

-- The store's view of these contracts, given how JSON writes and reads them.
abbrev pub for_contracts : {F J V : Type 0} → Codec F J Contract V → Codec F J Contract V
for_contracts c = record c { contract_address = λ k. k.address; with_balance = filled_balance }

module _ {F J D : Type 0} where
  abbrev pub new_system : Blockchain F J D → Dict Contract → CurrencyManager → System F J D
  new_system chain contracts cm = record {
    chain = chain;
    contracts = contracts;
    currency = some cm;
    has_db = true;
  }

  abbrev pub called :
      {A : Type 0}
      → System F J D
      → Outcome CurrencyError A × CurrencyManager
      → Outcome StartError A × System F J D
  called s (ok a, cm) = (ok a, record s { currency = some cm })
  called s (err e, cm) = (err (transfer_failed e), record s { currency = some cm })
  called s (panic, cm) = (panic, record s { currency = some cm })
  called s (deadlock, cm) = (deadlock, record s { currency = some cm })

  -- A call of the currency manager; on nil it panics.
  abbrev pub on_currency : {A : Type 0} → Call A → Action (System F J D) StartError A
  on_currency m s = elim s.currency [ none ↦ (panic, s) | some cm ↦ called s (m cm) ]

  -- What is done when a test of the state holds, and else the error.
  abbrev pub guard :
      (System F J D → Bool) → StartError → Action (System F J D) StartError (Unit {0})
  guard test e s = elim (test s) [ true ↦ (ok tt, s) | false ↦ (err e, s) ]

  abbrev pub or_panic : {A : Type 0} → Option A → Action (System F J D) StartError A
  or_panic none s = (panic, s)
  or_panic (some a) s = (ok a, s)

  abbrev pub attempted :
      {A : Type 0}
      → Outcome StartError A × System F J D
      → Outcome StartError (Option A) × System F J D
  attempted (ok a, s) = (ok (some a), s)
  attempted (err e, s) = (ok none, s)
  attempted (panic, s) = (panic, s)
  attempted (deadlock, s) = (deadlock, s)

  -- `if err != nil { LogError }`; what the call returns with an error is nil.
  abbrev pub attempt :
      {A : Type 0}
      → Action (System F J D) StartError A
      → Action (System F J D) StartError (Option A)
  attempt m s = attempted (m s)

  abbrev pub unless_nil :
      {A : Type 0}
      → Option A
      → Action (System F J D) StartError (Unit {0})
      → Action (System F J D) StartError (Unit {0})
  unless_nil none m s = (ok tt, s)
  unless_nil (some a) m s = m s

  abbrev pub chain_kept :
      System F J D → Option (Blockchain F J D) → Outcome StartError (Unit {0}) × System F J D
  chain_kept s none = (panic, s)
  chain_kept s (some chain') = (ok tt, record s { chain = chain' })

  abbrev pub finished :
      Outcome StartError (Unit {0}) × System F J D → Outcome StartError (System F J D)
  finished (ok done_, s) = ok s
  finished (err e, s) = ok s
  finished (panic, s) = panic
  finished (deadlock, s) = deadlock
