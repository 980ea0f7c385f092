-- ===== src/Contracts/ReadOnly.antt =====
-- What `ExecuteReadOnlyCall` leaves behind.
use tc_node_validator_go.Base.{
  ℕ, suc, String, ◌≡◌, ◌∙◌, ap, refl, leb, false, some, List, [], ◌∷◌, arith, eq_iff, lookup,
  insert, adjust, lookup-insert, lookup-adjust, ok,
}
use tc_node_validator_go.Contracts.Data.{
  Arg, text, arg, no_args, arg_list, ContractOperation, operation, plain, null, done, ◌+ᵤ◌, Runtime,
}
use tc_node_validator_go.Contracts.State.{Contract, ContractInvocation, ContractManager}
use tc_node_validator_go.Contracts.Effects.{Clock, op_store}
use tc_node_validator_go.Contracts.Interpreter.{
  marks, until_method, method_operations, merge, logged, left_block, dispatch, execute_operation,
  run_ops, execute_operations,
}
use tc_node_validator_go.Contracts.Manager.{guarded, get_contract}
use tc_node_validator_go.Contracts.Execution.{
  read_only_invocation, new_execution, run_on, execute_read_only_call,
}
use tc_node_validator_go.Contracts.Idle.{lookup-merge, value_at}
use tc_node_validator_go.Contracts.Writes.{store}

module _ {F J : Type 0} where
  -- Code whose first method makes one STORE.
  abbrev pub storing : String → String → Arg F J → List (ContractOperation F J)
  storing method key value =
      operation "METHOD" (arg (text method) no_args) false ∷ store key value ∷ []

  method_found :
      (method key : String) (value : Arg F J)
      → method_operations method (storing method key value) ≡ some (store key value ∷ [])
  unfolding method_operations marks until_method arg_list
  method_found method key value = ground (arith, eq_iff method method)

module _ {F J : Type 0} (r : Runtime F J) (clock : Clock) where
  abbrev stored : String → Arg F J → Contract F J → Contract F J
  stored key value c = record c { state = merge (insert key value c.state) c.state }

  run_store :
      (fuel : ℕ) (key : String) (value : Arg F J) (inv : ContractInvocation F J) (c : Contract F J)
      (cm : ContractManager F J)
      → leb inv.gas_limit 0 ≡ false
      → lookup inv.contract_address cm.contracts ≡ some c
      → run_on r clock (suc fuel) (store key value ∷ []) inv cm ≡ (
        ok (
          done (plain null) 110,
          record new_execution {
            state_updates = merge (insert key value c.state) [];
            logs = "Executing STORE operation" ∷ [];
          },
        ),
        record cm {
          contracts = adjust inv.contract_address (λ old. stored key value c) cm.contracts;
        },
      )
  unfolding run_on execute_operations run_ops execute_operation dispatch op_store left_block logged
      arg_list ◌+ᵤ◌
  run_store fuel key value inv c cm limit found = rw (found, run_on, limit) refl

  read_only_result :
      (fuel : ℕ) (address method key caller : String) (value : Arg F J) (args : List (Arg F J))
      (c : Contract F J) (cm : ContractManager F J)
      → cm.mutex ≡ false
      → lookup address cm.contracts ≡ some c
      → method_operations method c.code ≡ some (store key value ∷ [])
      → execute_read_only_call r clock (suc fuel) address method args caller cm ≡ (
        ok (plain null),
        record cm { contracts = adjust address (λ old. stored key value c) cm.contracts },
      )
  unfolding execute_read_only_call get_contract guarded
  read_only_result fuel address method key caller value args c cm free found code =
      rw (free, found, code)
        (rw
          (run_store fuel key value (read_only_invocation r clock address method args caller) c
            (record cm { mutex = false }) refl found)
          refl)

  -- With the lock free, a read-only call of a method that makes one STORE writes the contract's
  -- state: the key holds the stored value afterwards, in the contract that the manager keeps.
  pub read_only_call_writes :
      (fuel : ℕ) (address method key caller : String) (value : Arg F J) (args : List (Arg F J))
      (c : Contract F J) (cm : ContractManager F J)
      → cm.mutex ≡ false
      → lookup address cm.contracts ≡ some c
      → c.code ≡ storing method key value
      → let (answer, cm') =
          execute_read_only_call r clock (suc fuel) address method args caller cm in
        (answer ≡ ok (plain null)) × (value_at address key cm' ≡ some value)
  unfolding value_at
  read_only_call_writes fuel address method key caller value args c cm free found code =
      rw
        (read_only_result fuel address method key caller value args c cm free found
          (ap (method_operations method) code ∙ method_found method key value))
        (
          refl,
          ground (
            arith,
            found,
            eq_iff address address,
            eq_iff key key,
            lookup-adjust address address (λ (old : Contract F J). stored key value c) cm.contracts,
            lookup-merge key (insert key value c.state) c.state,
            lookup-insert key key value c.state,
          ),
        )
