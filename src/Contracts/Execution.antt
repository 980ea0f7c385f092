-- ===== src/Contracts/Execution.antt =====
-- contracts/contracts.go: `ExecuteContract` and `ExecuteReadOnlyCall`.
use tc_node_validator_go.Base.{
  ℕ, String, Bool, true, false, not, Option, none, some, List, [], ◌∷◌, ℤ, pos, ◌+ℤ◌, leb_ℤ, ◌==◌,
  str_eq, lookup, adjust, if◌then◌else◌, Outcome, ok, err, panic, deadlock, ◌>>=◌, ◌>>◌, pure, fail,
  modify, fail_if, or_fail,
}
use tc_node_validator_go.Currency.State.{CurrencyError, default_gas_price, default_gas_limit}
use tc_node_validator_go.Currency.Manager.{transfer_funds, calculate_transaction_fee}
use tc_node_validator_go.Contracts.Data.{
  Arg, ContractOperation, op_code, Value, ContractError, no_address, no_method_name,
  contract_not_found, out_of_fuel, invalid_value, value_not_transferred, method_not_found, Reply,
  done, failed, panicked, blocked, no_fuel, Runtime,
}
use tc_node_validator_go.Contracts.State.{
  Contract, ContractInvocation, ContractExecution, ContractManager, Session, Managed,
}
use tc_node_validator_go.Contracts.Effects.{Clock, new_balance_from_string}
use tc_node_validator_go.Contracts.Interpreter.{marks, method_operations, execute_operations}
use tc_node_validator_go.Contracts.Manager.{on_currency, get_contract}

module _ {F J : Type 0} where
  -- The loop of `ExecuteContract` that means to collect the operations of a method. It only looks at
  -- METHOD marks, and takes those that are none.
  unfoldable pub collected_operations : List (ContractOperation F J) → List (ContractOperation F J)
  collected_operations [] = []
  collected_operations (o ∷ rest) =
      let more = collected_operations rest in
      if str_eq (op_code o) "METHOD"
      then (if not (str_eq (op_code o) "METHOD") then o ∷ more else more)
      else more

  -- A method of the name is declared in the code.
  unfoldable pub declares : String → List (ContractOperation F J) → Bool
  declares name [] = false
  declares name (o ∷ rest) = let later = declares name rest in if marks name o then true else later

  abbrev pub new_execution : ContractExecution F J
  new_execution = record {
    success = false;
    gas_used = 0;
    return_value = none;
    error_message = none;
    state_updates = [];
    events = [];
    logs = [];
  }

  abbrev session_of : Contract F J → ContractManager F J → Session F J
  session_of contract cm = record {
    contract = contract;
    local = [];
    execution = new_execution;
    currency = cm.currency;
    event_listeners = cm.event_listeners;
    notified = cm.notified;
  }

  -- What a run leaves in the manager: the contract is the one that the map points to.
  abbrev keep_session : String → Session F J → ContractManager F J → ContractManager F J
  keep_session address s cm = record cm {
    contracts = adjust address (λ c. s.contract) cm.contracts;
    currency = s.currency;
    notified = s.notified;
  }

  abbrev keep_run :
      String
      → Reply F J × Session F J
      → ContractManager F J
      → Outcome ContractError (Reply F J × ContractExecution F J) × ContractManager F J
  keep_run address (panicked, s) cm = (panic, keep_session address s cm)
  keep_run address (blocked, s) cm = (deadlock, keep_session address s cm)
  keep_run address (no_fuel, s) cm = (err out_of_fuel, keep_session address s cm)
  keep_run address (reply, s) cm = (ok (reply, s.execution), keep_session address s cm)

  abbrev filled_in : Reply F J × ContractExecution F J → ContractExecution F J
  filled_in (done v gas, e) = record e { success = true; gas_used = gas; return_value = some v }
  filled_in (failed error gas, e) = record e {
    success = false;
    gas_used = gas;
    error_message = some error;
  }
  filled_in (_, e) = e

  abbrev touch_executed : String → String → Managed F J (Unit {0})
  touch_executed address now = modify (λ cm. record cm {
    contracts = adjust address (λ c. record c { last_executed = now }) cm.contracts;
  })

  abbrev read_answer : Reply F J × ContractExecution F J → Managed F J (Value F J)
  read_answer (done v gas, e) = pure v
  read_answer (failed error gas, e) = fail error
  read_answer (_, e) = fail out_of_fuel

  module _ (r : Runtime F J) (clock : Clock) where
    open clock use {now}

    -- The transfer of the value that comes with a call.
    abbrev receive : ContractInvocation F J → ℤ → Managed F J (Unit {0})
    receive invocation value =
        if leb_ℤ value (pos 0)
        then pure tt
        else on_currency value_not_transferred
            (transfer_funds invocation.caller invocation.contract_address value now)
          >> modify (λ cm. record cm {
            contracts =
                adjust invocation.contract_address (λ c. record c { balance = c.balance +ℤ value })
                  cm.contracts;
          })

    unfoldable pub receive_value : ContractInvocation F J → Managed F J (Unit {0})
    receive_value invocation =
        if str_eq invocation.value ""
        then pure tt
        else elim (new_balance_from_string r invocation.value) [
          | none ↦ fail invalid_value
          | some value ↦ receive invocation value
        ]

    abbrev pub price_of : Option ℤ → ℤ
    price_of none = pos default_gas_price
    price_of (some p) = p

    abbrev fee_answer : Outcome CurrencyError (Unit {0}) → Outcome ContractError (Unit {0})
    fee_answer (ok a) = ok tt
    fee_answer (err e) = ok tt
    fee_answer panic = panic
    fee_answer deadlock = deadlock

    -- A fee that cannot be collected is only logged.
    unfoldable pub collect_fee : ContractInvocation F J → ℕ → Managed F J (Unit {0})
    collect_fee invocation gas cm =
        let price = price_of (new_balance_from_string r invocation.gas_price) in
        let (answer, c) =
          transfer_funds invocation.caller "SYSTEM_FEES" (calculate_transaction_fee gas price) now
            cm.currency in
        (fee_answer answer, record cm { currency = c })

    -- A run of operations on the contract that the map holds.
    unfoldable pub run_on :
        ℕ
        → List (ContractOperation F J)
        → ContractInvocation F J
        → Managed F J (Reply F J × ContractExecution F J)
    run_on fuel ops invocation cm = elim (lookup invocation.contract_address cm.contracts) [
      | none ↦ (err (contract_not_found invocation.contract_address), cm)
      | some contract ↦
          keep_run invocation.contract_address
            (execute_operations r clock fuel ops invocation (session_of contract cm)) cm
    ]

    abbrev pub with_gas_limit : ContractInvocation F J → ContractInvocation F J
    with_gas_limit invocation = record invocation {
      gas_limit = if invocation.gas_limit == 0 then default_gas_limit else invocation.gas_limit;
    }

    unfoldable pub execute_contract :
        ℕ → ContractInvocation F J → Managed F J (ContractExecution F J)
    unfolding receive_value
    execute_contract fuel asked = do
      fail_if (str_eq asked.contract_address "") no_address
      fail_if (str_eq asked.method "") no_method_name
      contract ← get_contract asked.contract_address
      let invocation = with_gas_limit asked
      receive_value invocation
      fail_if (not (declares invocation.method contract.code)) (method_not_found invocation.method)
      answer ← run_on fuel (collected_operations contract.code) invocation
      touch_executed invocation.contract_address now
      collect_fee invocation (filled_in answer).gas_used
      pure (filled_in answer)

    abbrev pub read_only_invocation :
        String → String → List (Arg F J) → String → ContractInvocation F J
    read_only_invocation address method args caller = record {
      contract_address = address;
      method = method;
      args = args;
      caller = caller;
      value = "";
      gas_limit = 1000000;
      gas_price = "0";
      nonce = 0;
      timestamp = now;
      signature = "";
    }

    -- The copy of the state that the source makes is not used.
    unfoldable pub execute_read_only_call :
        ℕ → String → String → List (Arg F J) → String → Managed F J (Value F J)
    execute_read_only_call fuel address method args caller = do
      contract ← get_contract address
      ops ← or_fail (method_operations method contract.code) (method_not_found method)
      answer ← run_on fuel ops (read_only_invocation address method args caller)
      read_answer answer
