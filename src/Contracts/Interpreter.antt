-- ===== src/Contracts/Interpreter.antt =====
-- contracts/contracts.go: `executeOperations` and `executeOperation`, with IF and CALL, which run
-- operations inside operations. Nesting is on fuel.
use tc_node_validator_go.Base.{
  ℕ, zero, suc, ◌+◌, ◌-◌, ◌%◌, ◌^◌, String, Bool, true, false, not, ◌&&◌, Option, none, some, List,
  [], ◌∷◌, ◌++◌, leb, ◌==◌, str_eq, Dict, insert, if◌then◌else◌,
}
use Prim.Native.String.{◌++◌ as str_append}
use tc_node_validator_go.Contracts.Data.{
  Arg, null, text, block, ContractOperation, op_list, op_code, args_of, requires_auth, plain,
  unauthorized, out_of_gas, too_few_args, wrong_type, not_boolean, not_a_block, method_not_found,
  unknown_operation, call_failed, Reply, done, failed, panicked, blocked, no_fuel, Runtime, ◌+ᵤ◌,
  gas_cost_base, gas_cost_call,
}
use tc_node_validator_go.Contracts.State.{ContractInvocation, Session, Run}
use tc_node_validator_go.Contracts.Values.{
  op_add, op_sub, op_mul, op_div, op_compare, truth, op_require, op_revert, op_return,
}
use tc_node_validator_go.Contracts.Effects.{
  Clock, op_store, op_load, op_emit_event, op_transfer, op_native_call,
}

-- Writing every entry of a map into another one.
unfoldable pub merge {ℓ} : {V : Type ℓ} → Dict V → Dict V → Dict V
merge [] state = state
merge ((k, v) ∷ entries) state = insert k v (merge entries state)

module _ {F J : Type 0} where
  abbrev is_text : String → List (Arg F J) → Bool
  is_text name (text s ∷ rest) = str_eq s name
  is_text name _ = false

  -- A METHOD mark with a given name.
  unfoldable pub marks : String → ContractOperation F J → Bool
  marks name o = str_eq (op_code o) "METHOD" && is_text name (args_of o)

  unfoldable pub until_method : List (ContractOperation F J) → List (ContractOperation F J)
  until_method [] = []
  until_method (o ∷ rest) =
      let body = until_method rest in if str_eq (op_code o) "METHOD" then [] else o ∷ body

  -- The operations between a method's mark and the next one.
  unfoldable pub method_operations :
      String → List (ContractOperation F J) → Option (List (ContractOperation F J))
  method_operations name [] = none
  method_operations name (o ∷ rest) =
      let later = method_operations name rest in
      if marks name o then some (until_method rest) else later

  unfoldable pub logged : String → Session F J → Session F J
  logged code s = record s {
    execution = record s.execution {
      logs = s.execution.logs ++ str_append "Executing " (str_append code " operation") ∷ [];
    };
  }

  -- The state that a block starts from is a copy of the contract's.
  abbrev pub entered : Session F J → Session F J
  entered s = record s { local = s.contract.state }

  -- The end of a block: its state is written back when it succeeds, and the enclosing block's
  -- state is in use again.
  unfoldable pub left_block : Dict (Arg F J) → Reply F J × Session F J → Reply F J × Session F J
  left_block outer (done v gas, s) = (
    done v gas,
    record s {
      local = outer;
      contract = record s.contract { state = merge s.local s.contract.state };
      execution = record s.execution { state_updates = merge s.local s.execution.state_updates };
    },
  )
  left_block outer (failed e gas, s) = (failed e gas, record s { local = outer })
  left_block outer (panicked, s) = (panicked, s)
  left_block outer (blocked, s) = (blocked, s)
  left_block outer (no_fuel, s) = (no_fuel, s)

  -- The loop goes on after an operation, unless that failed or was a RETURN.
  abbrev pub next_op :
      (ℕ → Run F J) → String → ℕ → Reply F J × Session F J → Reply F J × Session F J
  next_op more code gas (done v g, s) =
      if str_eq code "RETURN" then (done v (gas +ᵤ g), s) else more (gas +ᵤ g) s
  next_op more code gas (failed e g, s) = (failed e gas, s)
  next_op more code gas (panicked, s) = (panicked, s)
  next_op more code gas (blocked, s) = (blocked, s)
  next_op more code gas (no_fuel, s) = (no_fuel, s)

  abbrev pub from_block : Reply F J × Session F J → Reply F J × Session F J
  from_block (done v gas, s) = (done v (gas_cost_base +ᵤ gas), s)
  from_block (failed e gas, s) = (failed e (gas_cost_base +ᵤ gas), s)
  from_block (panicked, s) = (panicked, s)
  from_block (blocked, s) = (blocked, s)
  from_block (no_fuel, s) = (no_fuel, s)

  -- The gas that is left for a call: `GasLimit - gasUsed` on a uint64.
  abbrev pub remaining_gas : ContractInvocation F J → ℕ
  remaining_gas invocation = (invocation.gas_limit + (2 ^ 64 - gas_cost_base)) % 2 ^ 64

  abbrev pub from_call : String → Reply F J × Session F J → Reply F J × Session F J
  from_call name (done v gas, s) = (done v (gas_cost_base +ᵤ gas +ᵤ gas_cost_call), s)
  from_call name (failed e gas, s) =
      (failed (call_failed name e) (gas_cost_base +ᵤ gas +ᵤ gas_cost_call), s)
  from_call name (panicked, s) = (panicked, s)
  from_call name (blocked, s) = (blocked, s)
  from_call name (no_fuel, s) = (no_fuel, s)

module _ {F J : Type 0} (r : Runtime F J) (clock : Clock) where
  -- `inner` runs the operations of a block or a method.
  module _ (inner : List (ContractOperation F J) → ContractInvocation F J → Run F J) where
    abbrev pub run_block : ContractInvocation F J → Arg F J → Run F J
    run_block invocation (block ops) s = from_block (inner (op_list ops) invocation s)
    run_block invocation a s = (failed not_a_block gas_cost_base, s)

    abbrev pub run_else : ContractInvocation F J → List (Arg F J) → Run F J
    run_else invocation [] s = (done (plain null) gas_cost_base, s)
    run_else invocation (a ∷ rest) s = run_block invocation a s

    unfoldable pub op_if : ContractInvocation F J → List (Arg F J) → Run F J
    op_if invocation (condition ∷ body ∷ rest) s = elim (truth r condition) [
      | none ↦ (failed not_boolean gas_cost_base, s)
      | some true ↦ run_block invocation body s
      | some false ↦ run_else invocation rest s
    ]
    op_if invocation _ s = (failed too_few_args gas_cost_base, s)

    abbrev pub nested_invocation :
        String → List (Arg F J) → ContractInvocation F J → String → ContractInvocation F J
    nested_invocation name args invocation address = record {
      contract_address = address;
      method = name;
      args = args;
      caller = invocation.caller;
      value = "";
      gas_limit = remaining_gas invocation;
      gas_price = invocation.gas_price;
      nonce = 0;
      timestamp = clock.now;
      signature = "";
    }

    abbrev pub call_method :
        ContractInvocation F J
        → String
        → List (Arg F J)
        → Option (List (ContractOperation F J))
        → Run F J
    call_method invocation name args none s = (failed (method_not_found name) gas_cost_base, s)
    call_method invocation name args (some ops) s =
        if remaining_gas invocation == 0
        then (failed out_of_gas gas_cost_base, s)
        else from_call name
            (inner ops (nested_invocation name args invocation s.contract.address) s)

    unfoldable pub op_call : ContractInvocation F J → List (Arg F J) → Run F J
    op_call invocation (text name ∷ args) s =
        call_method invocation name args (method_operations name s.contract.code) s
    op_call invocation (name ∷ args) s = (failed wrong_type gas_cost_base, s)
    op_call invocation [] s = (failed too_few_args gas_cost_base, s)

    -- The switch on the operation's code.
    unfoldable pub dispatch : ContractInvocation F J → String → List (Arg F J) → Run F J
    dispatch invocation code args s =
        if str_eq code "STORE"
        then op_store args s
        else if str_eq code "LOAD"
        then op_load args s
        else if str_eq code "TRANSFER"
        then op_transfer r clock args s
        else if str_eq code "EMIT_EVENT"
        then op_emit_event clock args s
        else if str_eq code "ADD"
        then (op_add r args, s)
        else if str_eq code "SUB"
        then (op_sub r args, s)
        else if str_eq code "MUL"
        then (op_mul r args, s)
        else if str_eq code "DIV"
        then (op_div r args, s)
        else if str_eq code "COMPARE"
        then (op_compare r args, s)
        else if str_eq code "REQUIRE"
        then (op_require r args, s)
        else if str_eq code "REVERT"
        then (op_revert r args, s)
        else if str_eq code "IF"
        then op_if invocation args s
        else if str_eq code "CALL"
        then op_call invocation args s
        else if str_eq code "NATIVE_CALL"
        then op_native_call r clock invocation args s
        else if str_eq code "RETURN"
        then (op_return r args, s)
        else (failed (unknown_operation code) gas_cost_base, s)

    unfoldable pub execute_operation : ContractOperation F J → ContractInvocation F J → Run F J
    unfolding logged
    execute_operation o invocation s =
        if requires_auth o && not (str_eq invocation.caller s.contract.creator)
        then (failed unauthorized gas_cost_base, logged (op_code o) s)
        else dispatch invocation (op_code o) (args_of o) (logged (op_code o) s)

    -- The loop of `executeOperations`.
    unfoldable pub run_ops : List (ContractOperation F J) → ContractInvocation F J → ℕ → Run F J
    run_ops [] invocation gas s = (done (plain null) gas, s)
    run_ops (o ∷ rest) invocation gas s =
        if leb invocation.gas_limit gas
        then (failed out_of_gas gas, s)
        else next_op (run_ops rest invocation) (op_code o) gas (execute_operation o invocation s)

  -- The fuel bounds how deep blocks and calls are nested.
  unfoldable pub execute_operations :
      ℕ → List (ContractOperation F J) → ContractInvocation F J → Run F J
  execute_operations zero ops invocation s = (no_fuel, s)
  execute_operations (suc fuel) ops invocation s =
      left_block s.local (run_ops (execute_operations fuel) ops invocation 0 (entered s))
