-- ===== src/Contracts/Manager.antt =====
-- contracts/contracts.go: the methods of `ContractManager`.
use tc_node_validator_go.Base.{
  String, true, false, none, some, List, [], ◌∷◌, ◌++◌, ℤ, Dict, lookup, insert, if◌then◌else◌,
  Outcome, ok, err, panic, deadlock, ◌>>=◌, pure, gets, modify, or_fail,
}
use tc_node_validator_go.Currency.State.{CurrencyManager, Call}
use tc_node_validator_go.Contracts.Data.{Arg, ContractEvent, ContractError, contract_not_found}
use tc_node_validator_go.Contracts.State.{Contract, ContractTemplate, ContractManager, Managed}
use tc_node_validator_go.Contracts.Interpreter.{merge}

-- `mutex.Lock(); defer mutex.Unlock()` around a method's body.
unfoldable pub released :
    {F J A : Type 0} → Outcome ContractError A → ContractManager F J → ContractManager F J
released deadlock cm = cm
released (ok a) cm = record cm { mutex = false }
released (err e) cm = record cm { mutex = false }
released panic cm = record cm { mutex = false }

unfoldable pub guarded : {F J A : Type 0} → Managed F J A → Managed F J A
unfolding released
guarded body cm =
    if cm.mutex
    then (deadlock, cm)
    else (let (r, cm') = body (record cm { mutex = true }) in (r, released r cm'))

-- A call of the currency manager that the contract manager points to.
abbrev pub on_currency : {F J A : Type 0} → ContractError → Call A → Managed F J A
on_currency e call cm =
    let (r, c) = call cm.currency in
    (
      elim r [ ok a ↦ ok a | err _ ↦ err e | panic ↦ panic | deadlock ↦ deadlock ],
      record cm { currency = c },
    )

unfoldable pub new_contract_manager : {F J : Type 0} → CurrencyManager → ContractManager F J
new_contract_manager currency = record {
  contracts = [];
  currency = currency;
  templates = none;
  event_listeners = [];
  notified = [];
  mutex = false;
}

module _ {F J : Type 0} where
  unfoldable pub get_contract : String → Managed F J (Contract F J)
  unfolding guarded
  get_contract address = guarded (do
    found ← gets (λ cm. lookup address cm.contracts)
    or_fail found (contract_not_found address))

  -- `GetContractState`: a copy of the state.
  unfoldable pub get_contract_state : String → Managed F J (Dict (Arg F J))
  unfolding guarded
  get_contract_state address = guarded (do
    contract ← or_fail (← gets (λ cm. lookup address cm.contracts)) (contract_not_found address)
    pure (merge contract.state []))

  -- `GetContractEvents` stores and finds no events.
  unfoldable get_contract_events : String → String → ℤ → Managed F J (List (ContractEvent F J))
  unfolding guarded
  get_contract_events address event_name limit = guarded (pure [])

  unfoldable pub add_event_listener : String → String → Managed F J (Unit {0})
  unfolding guarded
  add_event_listener event_name listener = guarded (
      modify (λ cm. record cm {
        event_listeners =
            insert event_name
              (elim (lookup event_name cm.event_listeners) [ none ↦ [] | some ls ↦ ls ]
                ++ listener ∷ [])
              cm.event_listeners;
      }))

  unfoldable pub register_contract_template : ContractTemplate F J → Managed F J (Unit {0})
  unfolding guarded
  register_contract_template template = guarded (
      modify (λ cm. record cm {
        templates =
            some (insert template.name template (elim cm.templates [ none ↦ [] | some m ↦ m ]));
      }))
