-- ===== src/Contracts/Termination.antt =====
-- How `executeOperations` ends, for code without CALL, and the gas that it uses.
use tc_node_validator_go.Base.{
  ℕ, zero, suc, ◌+◌, ◌*◌, ◌≤◌, ◌<◌, String, ◌≡◌, true, false, not, ◌&&◌, List, [], ◌∷◌, Bool-cases,
  inl, inr, Bool, Option, none, some, str_eq, arith, leb, Dict,
}
use tc_node_validator_go.Contracts.Data.{
  Arg, block, arg_list, ContractOperation, operation, op_code, Ops, op_list, Reply, done, failed,
  panicked, blocked, no_fuel, Runtime, not_boolean, gas_cost_base, ◌+ᵤ◌,
}
use tc_node_validator_go.Contracts.State.{ContractInvocation, Session}
use tc_node_validator_go.Contracts.Values.{
  op_add, op_sub, op_mul, op_div, op_revert, op_return, truth,
}
use tc_node_validator_go.Contracts.Effects.{Clock}
use tc_node_validator_go.Contracts.Interpreter.{
  from_block, run_block, run_else, op_if, dispatch, logged, execute_operation, next_op, run_ops,
  left_block, execute_operations,
}
use tc_node_validator_go.Contracts.Gas.{
  Answers, EndsWell, answered-EndsWell, risky-EndsWell, either-EndsWell, op_store-EndsWell,
  op_load-EndsWell, op_emit_event-EndsWell, compute-Answers, op_return-Answers,
  op_compare-AnswersOrPanics, op_require-Answers, op_transfer-EndsWell, op_native_call-EndsWell,
}
use tc_node_validator_go.Contracts.Nesting.{
  Risks, Allowed, fits_arg, fits_op, all_fit, args_fit, fits_op_parts, no_block-fits, block-fits,
}

module _ {F J : Type 0} (risks : Risks) where
  weaken : (a b : ℕ) (q : Reply F J × Session F J) → a ≤ b → EndsWell risks a q → EndsWell risks b q
  weaken a b (done v g, s) h w = (omega (arith, h, w.0), w.1)
  weaken a b (failed e g, s) h w = (omega (arith, h, w.0), w.1)
  weaken a b (panicked, s) h w = w
  weaken a b (blocked, s) h w = w
  weaken a b (no_fuel, s) h w = w

  from_block-EndsWell :
      (bound : ℕ) (q : Reply F J × Session F J)
      → EndsWell risks bound q
      → EndsWell risks (bound + 1010) (from_block q)
  unfolding ◌+ᵤ◌
  from_block-EndsWell bound (done v g, s) w = (omega (arith, w.0), w.1)
  from_block-EndsWell bound (failed e g, s) w = (omega (arith, w.0), w.1)
  from_block-EndsWell bound (panicked, s) w = w
  from_block-EndsWell bound (blocked, s) w = w
  from_block-EndsWell bound (no_fuel, s) w = w

  left_block-EndsWell :
      (bound : ℕ) (outer : Dict (Arg F J)) (q : Reply F J × Session F J)
      → EndsWell risks bound q
      → EndsWell risks bound (left_block outer q)
  unfolding left_block
  left_block-EndsWell bound outer (done v g, s) w = w
  left_block-EndsWell bound outer (failed e g, s) w = w
  left_block-EndsWell bound outer (panicked, s) w = w
  left_block-EndsWell bound outer (blocked, s) w = w
  left_block-EndsWell bound outer (no_fuel, s) w = w

  next_op-EndsWell :
      (bound limit : ℕ) (more : ℕ → Session F J → Reply F J × Session F J) (code : String) (gas : ℕ)
      (q : Reply F J × Session F J)
      → gas < limit
      → EndsWell risks bound q
      → ((g : ℕ) (s : Session F J)
          → g ≤ limit + bound
          → s.currency.mutex ≡ false
          → EndsWell risks (limit + bound) (more g s))
      → EndsWell risks (limit + bound) (next_op more code gas q)
  unfolding ◌+ᵤ◌
  next_op-EndsWell bound limit more code gas (done v g, s) b w go =
      either-EndsWell risks (limit + bound) (str_eq code "RETURN") _ _
        (λ e. (omega (arith, w.0), w.1)) (go _ s (omega (arith, w.0)) w.1)
  next_op-EndsWell bound limit more code gas (failed e g, s) b w go = (omega arith, w.1)
  next_op-EndsWell bound limit more code gas (panicked, s) b w go = w
  next_op-EndsWell bound limit more code gas (blocked, s) b w go = w
  next_op-EndsWell bound limit more code gas (no_fuel, s) b w go = w

-- One operation, given the bound `used` for the blocks inside it.
module _ {F J : Type 0} (r : Runtime F J) (clock : Clock)
    (inner : List (ContractOperation F J)
      → ContractInvocation F J
      → Session F J
      → Reply F J × Session F J)
    (inv : ContractInvocation F J) (risks : Risks) (depth used : ℕ)
    (inner_ok : (ops : Ops F J) (s : Session F J)
      → fits_arg risks depth (block ops) ≡ true
      → s.currency.mutex ≡ false
      → EndsWell risks used (inner (op_list ops) inv s)) where
  run_block-EndsWell :
      (a : Arg F J) (s : Session F J)
      → fits_arg risks depth a ≡ true
      → s.currency.mutex ≡ false
      → EndsWell risks (used + 1010) (run_block r clock inner inv a s)
  run_block-EndsWell (block ops) s h free =
      from_block-EndsWell risks used (inner (op_list ops) inv s) (inner_ok ops s h free)
  run_block-EndsWell a s h free = ground arith

  run_else-EndsWell :
      (args : List (Arg F J)) (s : Session F J)
      → args_fit risks depth args ≡ true
      → s.currency.mutex ≡ false
      → EndsWell risks (used + 1010) (run_else r clock inner inv args s)
  unfolding args_fit
  run_else-EndsWell [] s h free = (omega arith, free)
  run_else-EndsWell (a ∷ rest) s h free = run_block-EndsWell a s (ground (arith, h)) free

  op_if-EndsWell :
      (args : List (Arg F J)) (s : Session F J)
      → args_fit risks depth args ≡ true
      → s.currency.mutex ≡ false
      → EndsWell risks (used + 1010) (op_if r clock inner inv args s)
  unfolding op_if args_fit
  op_if-EndsWell [] s h free = (omega arith, free)
  op_if-EndsWell (a ∷ []) s h free = (omega arith, free)
  op_if-EndsWell (c ∷ b ∷ rest) s h free = by_truth (truth r c)
    where
      by_truth :
          (t : Option Bool)
          → EndsWell {F = F} {J = J} risks (used + 1010) (elim t [
            | none ↦ (failed not_boolean gas_cost_base, s)
            | some true ↦ run_block r clock inner inv b s
            | some false ↦ run_else r clock inner inv rest s
          ])
      by_truth none = (omega arith, free)
      by_truth (some true) = run_block-EndsWell b s (ground (arith, h)) free
      by_truth (some false) = run_else-EndsWell rest s (ground (arith, h)) free

  small : (q : Reply F J × Session F J) → EndsWell risks 1010 q → EndsWell risks (used + 1010) q
  small q w = weaken risks 1010 (used + 1010) q (omega arith) w

  small_answer :
      (s : Session F J)
      → s.currency.mutex ≡ false
      → (reply : Reply F J) → Answers reply
      → EndsWell risks (used + 1010) (reply, s)
  small_answer s free reply a = small (reply, s) (answered-EndsWell risks reply s free a)

  dispatch-EndsWell :
      (code : String) (args : List (Arg F J)) (s : Session F J)
      → Allowed risks code
      → args_fit risks depth args ≡ true
      → s.currency.mutex ≡ false
      → EndsWell risks (used + 1010) (dispatch r clock inner inv code args s)
  unfolding dispatch op_add op_sub op_mul op_div op_revert op_return
  dispatch-EndsWell code args s (no_call, transfers_, compares, natives) h free =
      let either = either-EndsWell {F = F} {J = J} risks (used + 1010) in
      let answered = small_answer s free in
      either (str_eq code "STORE") _ _ (λ e. small _ (op_store-EndsWell risks args s free))
        (either (str_eq code "LOAD") _ _ (λ e. small _ (op_load-EndsWell risks args s free))
          (either (str_eq code "TRANSFER") _ _
            (λ e. small _ (op_transfer-EndsWell r risks clock args s free (transfers_ e)))
            (either (str_eq code "EMIT_EVENT") _ _
              (λ e. small _ (op_emit_event-EndsWell risks clock args s free))
              (either (str_eq code "ADD") _ _ (λ e. answered _ (compute-Answers r _ args))
                (either (str_eq code "SUB") _ _ (λ e. answered _ (compute-Answers r _ args))
                  (either (str_eq code "MUL") _ _ (λ e. answered _ (compute-Answers r _ args))
                    (either (str_eq code "DIV") _ _ (λ e. answered _ (compute-Answers r _ args))
                      (either (str_eq code "COMPARE") _ _
                        (λ e. small _ (
                          risky-EndsWell risks _ s free (compares e)
                            (op_compare-AnswersOrPanics r args)))
                        (either (str_eq code "REQUIRE") _ _
                          (λ e. answered _ (op_require-Answers r args))
                          (either (str_eq code "REVERT") _ _ (λ e. (omega arith, free))
                            (either (str_eq code "IF") _ _ (λ e. op_if-EndsWell args s h free)
                              (rw no_call (
                                either (str_eq code "NATIVE_CALL") _ _
                                  (λ e. small _ (
                                    op_native_call-EndsWell r risks clock inv args s free
                                      (natives e)))
                                  (either (str_eq code "RETURN") _ _
                                    (λ e. answered _ (op_return-Answers r args))
                                    (omega arith, free)))))))))))))))

  execute_operation-EndsWell :
      (o : ContractOperation F J) (s : Session F J)
      → fits_op risks depth o ≡ true
      → s.currency.mutex ≡ false
      → EndsWell risks (used + 1010) (execute_operation r clock inner o inv s)
  unfolding execute_operation
  execute_operation-EndsWell (operation code args auth) s h free =
      let (allowed, fits) = fits_op_parts risks depth code args auth h in
      either-EndsWell risks (used + 1010) (auth && not (str_eq inv.caller s.contract.creator)) _ _
        (λ e. (omega arith, free))
        (dispatch-EndsWell code (arg_list args) (logged code s) allowed fits free)

  -- The loop, whose gas is below the limit before each operation.
  run_ops-EndsWell :
      (ops : List (ContractOperation F J)) (gas : ℕ) (s : Session F J)
      → all_fit risks depth ops ≡ true
      → gas ≤ inv.gas_limit + (used + 1010)
      → s.currency.mutex ≡ false
      → EndsWell risks (inv.gas_limit + (used + 1010)) (run_ops r clock inner ops inv gas s)
  unfolding run_ops all_fit
  run_ops-EndsWell [] gas s h b free = (b, free)
  run_ops-EndsWell (o ∷ rest) gas s h b free = elim (Bool-cases (leb inv.gas_limit gas)) [
    | inl e ↦ rw e (b, free)
    | inr e ↦ rw e (
        next_op-EndsWell risks (used + 1010) inv.gas_limit (run_ops r clock inner rest inv)
          (op_code o) gas (execute_operation r clock inner o inv s) (ground (arith, e))
          (execute_operation-EndsWell o s (ground (arith, h)) free)
          (λ g s' b' free'. run_ops-EndsWell rest g s' (ground (arith, h)) b' free'))
  ]

-- Operations that hold no CALL, run with fuel above the depth of their blocks and with the currency
-- lock free, end. They return, with a result or an error, with the lock free and the gas that is
-- reported at most the limit and 1010 more, the dearest operation, for every level of blocks: always
-- when they hold no TRANSFER, COMPARE and NATIVE_CALL either. They panic only if they may hold
-- COMPARE or NATIVE_CALL, and wait for ever only if they may hold TRANSFER, and then for the
-- currency lock.
pub execute_operations-EndsWell :
    {F J : Type 0} (r : Runtime F J) (clock : Clock) (inv : ContractInvocation F J) (risks : Risks)
    (depth : ℕ) (ops : List (ContractOperation F J)) (s : Session F J)
    → all_fit risks depth ops ≡ true
    → s.currency.mutex ≡ false
    → EndsWell risks
        (suc depth * (inv.gas_limit + 1010))
        (execute_operations r clock (suc depth) ops inv s)
unfolding execute_operations
execute_operations-EndsWell r clock inv risks zero ops s h free =
    left_block-EndsWell risks _ s.local _ (
      weaken risks (inv.gas_limit + (0 + 1010)) _ _ (omega arith) (
        run_ops-EndsWell r clock (execute_operations r clock zero) inv risks zero 0
          (λ block_ops s' f free'. absurd (no_block-fits risks block_ops f)) ops 0 _ h (omega arith)
          free))
execute_operations-EndsWell r clock inv risks (suc depth) ops s h free =
    let used = suc depth * (inv.gas_limit + 1010) in
    left_block-EndsWell risks _ s.local _ (
      weaken risks (inv.gas_limit + (used + 1010)) _ _ (omega arith) (
        run_ops-EndsWell r clock (execute_operations r clock (suc depth)) inv risks (suc depth) used
          (λ block_ops s' f free'.
            execute_operations-EndsWell r clock inv risks depth (op_list block_ops) s'
              (block-fits risks depth block_ops f) free')
          ops 0 _ h (omega arith) free))
