-- ===== src/Contracts/Idle.antt =====
-- What `ExecuteContract` makes of a method.
use tc_node_validator_go.Base.{
  ℕ, suc, String, ◌≡◌, refl, true, false, Option, none, some, List, [], ◌∷◌, ℤ, pos, ◌*ℤ◌, leb_ℤ,
  str_eq, eq_iff, arith, Dict, lookup, adjust, lookup-insert, lookup-adjust, ok, err,
}
use tc_node_validator_go.Currency.State.{CurrencyManager, invalid_amount}
use tc_node_validator_go.Currency.Manager.{transfer_funds, calculate_transaction_fee}
use tc_node_validator_go.Contracts.Data.{Arg, null, ContractOperation, plain, done, Runtime}
use tc_node_validator_go.Contracts.State.{
  Contract, ContractInvocation, ContractExecution, ContractManager,
}
use tc_node_validator_go.Contracts.Effects.{Clock, new_balance_from_string}
use tc_node_validator_go.Contracts.Interpreter.{merge, run_ops, left_block, execute_operations}
use tc_node_validator_go.Contracts.Manager.{guarded, get_contract}
use tc_node_validator_go.Contracts.Execution.{
  collected_operations, declares, receive_value, collect_fee, run_on, execute_contract,
  new_execution, price_of, with_gas_limit,
}

collected_nothing :
    {F J : Type 0} (code : List (ContractOperation F J)) → collected_operations code ≡ []
unfolding collected_operations
collected_nothing [] = refl
collected_nothing (o ∷ rest) = ground (arith, collected_nothing rest)

-- Merging keeps what is under the keys of both maps, the first map's values first.
pub lookup-merge {ℓ} :
    {V : Type ℓ} (key : String) (entries state : Dict V)
    → lookup key (merge entries state)
      ≡ elim (lookup key entries) [ none ↦ lookup key state | some v ↦ some v ]
unfolding merge lookup
lookup-merge key [] state = refl
lookup-merge key ((k, v) ∷ entries) state =
    ground (arith, lookup-insert k key v (merge entries state), lookup-merge key entries state)

no_fee : (price : ℤ) → leb_ℤ (calculate_transaction_fee 0 price) (pos 0) ≡ true
unfolding calculate_transaction_fee ◌*ℤ◌
no_fee price = ground arith

nothing_to_transfer :
    (from to : String) (amount : ℤ) (now : String) (cm : CurrencyManager)
    → cm.mutex ≡ false
    → leb_ℤ amount (pos 0) ≡ true
    → transfer_funds from to amount now cm ≡ (err invalid_amount, cm)
unfolding transfer_funds
nothing_to_transfer from to amount now cm free h = ground arith

module _ {F J : Type 0} (r : Runtime F J) (clock : Clock) where
  no_fee_collected :
      (inv : ContractInvocation F J) (cm : ContractManager F J)
      → cm.currency.mutex ≡ false
      → collect_fee r clock inv 0 cm ≡ (ok tt, cm)
  unfolding collect_fee
  no_fee_collected inv cm free =
      rw
        (nothing_to_transfer inv.caller "SYSTEM_FEES"
          (calculate_transaction_fee 0 (price_of r clock (new_balance_from_string r inv.gas_price)))
          clock.now cm.currency free
          (no_fee (price_of r clock (new_balance_from_string r inv.gas_price))))
        refl

  -- The contract after a run of no operations: its state is written over itself.
  abbrev idle : Contract F J → Contract F J
  idle c = record c { state = merge c.state c.state }

  abbrev pub idle_execution : Contract F J → ContractExecution F J
  idle_execution c = record {
    success = true;
    gas_used = 0;
    return_value = some (plain null);
    error_message = none;
    state_updates = merge c.state [];
    events = [];
    logs = [];
  }

  run_idle :
      (fuel : ℕ) (inv : ContractInvocation F J) (c : Contract F J) (cm : ContractManager F J)
      → lookup inv.contract_address cm.contracts ≡ some c
      → run_on r clock (suc fuel) [] inv cm ≡ (
        ok (done (plain null) 0, record new_execution { state_updates = merge c.state [] }),
        record cm { contracts = adjust inv.contract_address (λ old. idle c) cm.contracts },
      )
  unfolding run_on execute_operations run_ops left_block
  run_idle fuel inv c cm e = rw (e, run_on) refl

  -- The manager after the call.
  abbrev after_idle : String → Contract F J → ContractManager F J → ContractManager F J
  after_idle address c cm = record cm {
    contracts =
        adjust address (λ x. record x { last_executed = clock.now })
          (adjust address (λ old. idle c) cm.contracts);
  }

  execute_idle :
      (fuel : ℕ) (inv : ContractInvocation F J) (c : Contract F J) (cm : ContractManager F J)
      → cm.mutex ≡ false
      → cm.currency.mutex ≡ false
      → str_eq inv.contract_address "" ≡ false
      → str_eq inv.method "" ≡ false
      → inv.value ≡ ""
      → lookup inv.contract_address cm.contracts ≡ some c
      → declares inv.method c.code ≡ true
      → execute_contract r clock (suc fuel) inv cm
        ≡ (ok (idle_execution c), after_idle inv.contract_address c cm)
  unfolding execute_contract receive_value get_contract guarded
  execute_idle fuel inv c cm free currency_free address method no_value found declared =
      rw (address, method, free, found, no_value, declared, collected_nothing c.code)
        (rw
          (run_idle fuel (record (with_gas_limit r clock inv) { value = "" }) c
            (record cm { mutex = false }) found)
          (rw
            (no_fee_collected (record (with_gas_limit r clock inv) { value = "" })
              (record (after_idle inv.contract_address c cm) { mutex = false }) currency_free)
            refl))

-- What a contract's state holds under a key.
unfoldable pub value_at : {F J : Type 0} → String → String → ContractManager F J → Option (Arg F J)
value_at address key cm = elim (lookup address cm.contracts) [
  | none ↦ none
  | some c ↦ lookup key c.state
]

still_there :
    {F J : Type 0} (r : Runtime F J) (clock : Clock) (address key : String) (c : Contract F J)
    (cm : ContractManager F J)
    → lookup address cm.contracts ≡ some c
    → value_at address key (after_idle r clock address c cm) ≡ lookup key c.state
unfolding value_at
still_there r clock address key c cm found = ground (
  arith,
  found,
  eq_iff address address,
  lookup-adjust address address (λ (x : Contract _ _). record x { last_executed = clock.now })
      (adjust address (λ old. idle r clock c) cm.contracts),
  lookup-adjust address address (λ (old : Contract _ _). idle r clock c) cm.contracts,
  lookup-merge key c.state c.state,
)

-- With both locks free, a call without a value of a method that the contract's code declares
-- succeeds, with no gas, a nil result, no events and no logs, whatever operations the method has. The
-- state updates are a copy of the state. The currency and the listeners are left alone, and every
-- key of the contract's state holds what it held.
pub execute_contract_runs_nothing :
    {F J : Type 0} (r : Runtime F J) (clock : Clock) (fuel : ℕ) (inv : ContractInvocation F J)
    (c : Contract F J) (cm : ContractManager F J)
    → cm.mutex ≡ false
    → cm.currency.mutex ≡ false
    → str_eq inv.contract_address "" ≡ false
    → str_eq inv.method "" ≡ false
    → inv.value ≡ ""
    → lookup inv.contract_address cm.contracts ≡ some c
    → declares inv.method c.code ≡ true
    → let (answer, cm') = execute_contract r clock (suc fuel) inv cm in
      (answer ≡ ok (idle_execution r clock c))
      × (cm'.currency ≡ cm.currency)
      × (cm'.notified ≡ cm.notified)
      × ((key : String) → value_at inv.contract_address key cm' ≡ lookup key c.state)
unfolding value_at
execute_contract_runs_nothing r clock fuel inv c cm free cfree address method no_value found
      declared =
    rw (execute_idle r clock fuel inv c cm free cfree address method no_value found declared)
      (refl, refl, refl, λ key. still_there r clock inv.contract_address key c cm found)
