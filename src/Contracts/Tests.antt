-- ===== src/Contracts/Tests.antt =====
-- The contract theorems at a concrete manager, with integers of thousandths for floats.
use tc_node_validator_go.Base.{
  ℕ, String, ◌≡◌, refl, true, false, none, some, [], ◌∷◌, ℤ, pos, ok, negsuc, ◌^◌, ◌-◌, ◌-ℤ◌, ◌+ℤ◌,
  deadlock, arith, lookup,
}
use tc_node_validator_go.Currency.State.{Account, CurrencyManager}
use tc_node_validator_go.Chain.Block.{format_uint}
use tc_node_validator_go.Currency.Tests.{thousandths}
use tc_node_validator_go.Contracts.Data.{null, int, arg_list, plain, done, Runtime}
use tc_node_validator_go.Contracts.State.{Contract, ContractInvocation, ContractManager, Session}
use tc_node_validator_go.Contracts.Values.{to_int64, quotient, compute, op_div, op_add}
use tc_node_validator_go.Contracts.Effects.{Clock}
use tc_node_validator_go.Contracts.Interpreter.{marks, execute_operations}
use tc_node_validator_go.Contracts.Execution.{
  declares, new_execution, execute_contract, execute_read_only_call,
}
use tc_node_validator_go.Contracts.Deployment.{generate_contract_address, create_contract}
use tc_node_validator_go.Contracts.Gas.{EndsWell}
use tc_node_validator_go.Contracts.Nesting.{
  Risks, allows, fits_arg, fits_args, fits_op, fits_ops, all_fit,
}
use tc_node_validator_go.Contracts.Termination.{execute_operations-EndsWell}
use tc_node_validator_go.Contracts.Idle.{idle_execution, value_at, execute_contract_runs_nothing}
use tc_node_validator_go.Contracts.Writes.{guarded_store}
use tc_node_validator_go.Contracts.ReadOnly.{storing, read_only_call_writes}
use tc_node_validator_go.Contracts.Funding.{create_contract_with_value_blocks}

abbrev toy : Runtime ℤ ℕ
toy = record {
  floats = thousandths;
  float_eq = λ a b. false;
  parse_float = λ s. none;
  parse_big = λ s. none;
  format_big = λ z. "";
  arg_json = λ a. none;
  code_json = λ code. some "[]";
  same = λ a b. none;
  sha256_hex = λ s. s;
  draw = λ seed byte. pos 0;
}

abbrev clock : Clock
clock = record { now = "t"; nanos = pos 0 }

abbrev counter : Contract ℤ ℕ
counter = record {
  address = "c1";
  creator = "ana";
  code = storing "set" "n" (int (pos 7));
  state = ("n", int (pos 1)) ∷ [];
  balance = pos 0;
  created_at = "t0";
  last_executed = "t0";
  code_hash = "";
  metadata = [];
}

abbrev ana : Account
ana = record {
  address = "ana";
  balance = pos 50;
  nonce = 3;
  code_hash = "";
  storage_root = "";
  is_contract = false;
  created_at = "t0";
  last_activity = "t0";
  frozen = false;
  stake = none;
}

abbrev money : CurrencyManager
money = record {
  symbol = "TCC";
  genesis_allocated = true;
  accounts = ("ana", ana) ∷ [];
  total_supply = pos 50;
  mutex = false;
  reserved_funds = pos 0;
  gas_parameters = record { min_gas_price = pos 1; network_gas_price = pos 1; last_updated = "t0" };
}

abbrev manager : ContractManager ℤ ℕ
manager = record {
  contracts = ("c1", counter) ∷ [];
  currency = money;
  templates = none;
  event_listeners = [];
  notified = [];
  mutex = false;
}

abbrev set_call : ContractInvocation ℤ ℕ
set_call = record {
  contract_address = "c1";
  method = "set";
  args = [];
  caller = "ana";
  value = "";
  gas_limit = 1000;
  gas_price = "1";
  nonce = 0;
  timestamp = "t";
  signature = "";
}

abbrev session : Session ℤ ℕ
session = record {
  contract = counter;
  local = [];
  execution = new_execution;
  currency = money;
  event_listeners = [];
  notified = [];
}

int_division_rounds_to_zero :
    op_div toy (int (pos 7) ∷ int (negsuc 1) ∷ []) ≡ done (plain (int (negsuc 2))) 15
unfolding op_div compute to_int64 quotient ◌-ℤ◌
int_division_rounds_to_zero = refl

int_addition_wraps :
    op_add toy (int (pos (2 ^ 63 - 1)) ∷ int (pos 1) ∷ [])
    ≡ done (plain (int (negsuc (2 ^ 63 - 1)))) 15
unfolding op_add compute to_int64 ◌-ℤ◌ ◌+ℤ◌
int_addition_wraps = refl

-- Neither TRANSFER nor what can panic: the run returns.
abbrev riskless : Risks
riskless = record { transfers = false; panics = false }

execute_operations-EndsWell_example :
    EndsWell riskless 4020
      (execute_operations toy clock 2 (guarded_store "n" null ∷ []) set_call session)
unfolding fits_arg fits_args fits_op fits_ops all_fit allows
execute_operations-EndsWell_example =
    execute_operations-EndsWell toy clock set_call riskless 1 (guarded_store "n" null ∷ []) session
      refl refl

execute_contract_runs_nothing_example :
    let (answer, cm') = execute_contract toy clock 1 set_call manager in
    (answer ≡ ok (idle_execution toy clock counter))
    × (cm'.currency ≡ money)
    × (cm'.notified ≡ [])
    × ((key : String) → value_at "c1" key cm' ≡ lookup key (("n", int (pos 1)) ∷ []))
unfolding lookup declares marks arg_list
execute_contract_runs_nothing_example =
    execute_contract_runs_nothing toy clock 0 set_call counter manager refl refl refl refl refl refl
      refl

read_only_call_writes_example :
    let (answer, cm') = execute_read_only_call toy clock 1 "c1" "set" [] "eve" manager in
    (answer ≡ ok (plain null)) × (value_at "c1" "n" cm' ≡ some (int (pos 7)))
unfolding lookup
read_only_call_writes_example =
    read_only_call_writes toy clock 0 "c1" "set" "n" "eve" (int (pos 7)) [] counter manager refl
      refl refl

create_contract_with_value_blocks_example :
    create_contract toy "ana" [] [] (some (pos 5)) "t" manager
    ≡ (deadlock, record manager { mutex = true; currency = record money { mutex = true } })
unfolding lookup generate_contract_address format_uint
create_contract_with_value_blocks_example =
    create_contract_with_value_blocks toy "ana" [] [] (pos 5) "t" "[]" ana manager refl refl refl
      refl (omega arith) (omega arith) refl refl
