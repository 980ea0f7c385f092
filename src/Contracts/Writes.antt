-- ===== src/Contracts/Writes.antt =====
-- What becomes of the state that operations write.
use tc_node_validator_go.Base.{
  ℕ, suc, String, ◌≡◌, refl, true, false, some, [], ◌∷◌, str_eq, arith, lookup, insert,
  lookup-insert, if◌then◌else◌, leb, ◌<◌,
}
use tc_node_validator_go.Contracts.Data.{
  Arg, text, bool, block, arg, no_args, arg_list, ContractOperation, operation, op, no_ops, Runtime,
}
use tc_node_validator_go.Contracts.State.{ContractInvocation, Session}
use tc_node_validator_go.Contracts.Effects.{Clock, op_store}
use tc_node_validator_go.Contracts.Interpreter.{
  merge, logged, left_block, dispatch, execute_operation, run_ops, execute_operations,
}
use tc_node_validator_go.Contracts.Idle.{lookup-merge}

module _ {F J : Type 0} where
  abbrev pub store : String → Arg F J → ContractOperation F J
  store key value = operation "STORE" (arg (text key) (arg value no_args)) false

  -- `IF true` around one STORE.
  abbrev pub guarded_store : String → Arg F J → ContractOperation F J
  guarded_store key value =
      operation "IF" (arg (bool true) (arg (block (op (store key value) no_ops)) no_args)) false

module _ {F J : Type 0} (r : Runtime F J) (clock : Clock) where
  store_commits :
      (fuel : ℕ) (key : String) (value : Arg F J) (inv : ContractInvocation F J) (s : Session F J)
      → leb inv.gas_limit 0 ≡ false
      → (execute_operations r clock (suc fuel) (store key value ∷ []) inv s).1.contract.state
        ≡ merge (insert key value s.contract.state) s.contract.state
  unfolding execute_operations run_ops execute_operation dispatch op_store left_block logged
      arg_list
  store_commits fuel key value inv s h = rw h refl

  -- With a gas limit above 0, a STORE by itself is kept: its key holds the new value, and every other
  -- key what it held.
  pub store_kept :
      (fuel : ℕ) (key other : String) (value : Arg F J) (inv : ContractInvocation F J)
      (s : Session F J)
      → 0 < inv.gas_limit
      → let after = execute_operations r clock (suc fuel) (store key value ∷ []) inv s in
        lookup other after.1.contract.state
        ≡ (if str_eq key other then some value else lookup other s.contract.state)
  store_kept fuel key other value inv s limit =
      rw (store_commits fuel key value inv s (ground arith)) (
        ground (
          arith,
          lookup-merge other (insert key value s.contract.state) s.contract.state,
          lookup-insert key other value s.contract.state,
        ))
