-- ===== src/Contracts/Gas.antt =====
-- How operations end and what gas they use.
use tc_node_validator_go.Base.{
  ℤ, Outcome, ℕ, ◌≤◌, ◌≡◌, refl, String, Bool, true, false, ltb_ℤ, ok, err, panic, deadlock,
  Option-cases, inl, inr, Option, List, [], ◌∷◌, str_eq, arith, if◌then◌else◌,
}
use tc_node_validator_go.Currency.State.{CurrencyManager, CurrencyError}
use tc_node_validator_go.Currency.Manager.{transfer_funds, get_balance}
use tc_node_validator_go.Contracts.Data.{
  Arg, text, Reply, done, failed, panicked, blocked, no_fuel, Runtime,
}
use tc_node_validator_go.Contracts.State.{ContractInvocation, Session}
use tc_node_validator_go.Contracts.Values.{
  Arithmetic, compute, op_compare, op_require, op_return, compare_equal, compare_numbers,
  compare_ordered, get_numeric_value,
}
use tc_node_validator_go.Contracts.Effects.{
  Clock, op_store, op_load, op_emit_event, op_transfer, op_native_call, native_random,
  native_sha256, balance_read, call_native, balance_address, transferred_out,
  new_balance_from_string,
}
use tc_node_validator_go.Contracts.Nesting.{Risks}

-- How operations end that started with the currency lock free: with a result or an error, the gas
-- within a bound and the lock free; with a panic only where panics are allowed; and waiting only
-- where transfers are, for the currency lock.
abbrev pub EndsWell : {F J : Type 0} → Risks → ℕ → Reply F J × Session F J → Type 0
EndsWell risks bound (done v gas, s) = (gas ≤ bound) × (s.currency.mutex ≡ false)
EndsWell risks bound (failed e gas, s) = (gas ≤ bound) × (s.currency.mutex ≡ false)
EndsWell risks bound (panicked, s) = risks.panics ≡ true
EndsWell risks bound (blocked, s) = (risks.transfers ≡ true) × (s.currency.mutex ≡ true)
EndsWell risks bound (no_fuel, s) = ⊥

-- A reply that stands for no wait, with the gas of one operation.
abbrev pub Answers : {F J : Type 0} → Reply F J → Type 0
Answers (done v gas) = gas ≤ 1010
Answers (failed e gas) = gas ≤ 1010
Answers panicked = ⊥
Answers blocked = ⊥
Answers no_fuel = ⊥

-- The same, or a panic.
abbrev pub AnswersOrPanics : {F J : Type 0} → Reply F J → Type 0
AnswersOrPanics (done v gas) = gas ≤ 1010
AnswersOrPanics (failed e gas) = gas ≤ 1010
AnswersOrPanics panicked = Unit
AnswersOrPanics blocked = ⊥
AnswersOrPanics no_fuel = ⊥

-- A currency call gives the lock back when it returns, and waits with it otherwise.
abbrev Releases : {A : Type 0} → Outcome CurrencyError A × CurrencyManager → Type 0
Releases (ok a, cm) = cm.mutex ≡ false
Releases (err e, cm) = cm.mutex ≡ false
Releases (panic, cm) = ⊥
Releases (deadlock, cm) = cm.mutex ≡ true

-- A currency call returns a value, with the lock free.
abbrev Returns : {A : Type 0} → Outcome CurrencyError A × CurrencyManager → Type 0
Returns (ok a, cm) = cm.mutex ≡ false
Returns (err e, cm) = ⊥
Returns (panic, cm) = ⊥
Returns (deadlock, cm) = ⊥

transfer_funds-Releases :
    (from to : String) (amount : ℤ) (now : String) (cm : CurrencyManager)
    → cm.mutex ≡ false
    → Releases (transfer_funds from to amount now cm)
unfolding transfer_funds
transfer_funds-Releases from to amount now cm free = ground arith

get_balance-Returns :
    (address : String) (cm : CurrencyManager) → cm.mutex ≡ false → Returns (get_balance address cm)
unfolding get_balance
get_balance-Returns address cm free = ground arith

module _ {F J : Type 0} (risks : Risks) where
  pub answered-EndsWell :
      (reply : Reply F J) (s : Session F J)
      → s.currency.mutex ≡ false
      → Answers reply
      → EndsWell risks 1010 (reply, s)
  answered-EndsWell reply s free h = ground arith

  pub risky-EndsWell :
      (reply : Reply F J) (s : Session F J)
      → s.currency.mutex ≡ false
      → risks.panics ≡ true
      → AnswersOrPanics reply
      → EndsWell risks 1010 (reply, s)
  risky-EndsWell reply s free allowed h = ground arith

  pub either-EndsWell :
      (bound : ℕ) (b : Bool) (p q : Reply F J × Session F J)
      → (b ≡ true → EndsWell risks bound p)
      → EndsWell risks bound q
      → EndsWell risks bound (if b then p else q)
  either-EndsWell bound true p q hp hq = hp refl
  either-EndsWell bound false p q hp hq = hq

  pub op_store-EndsWell :
      (args : List (Arg F J)) (s : Session F J)
      → s.currency.mutex ≡ false
      → EndsWell risks 1010 (op_store args s)
  unfolding op_store
  op_store-EndsWell args s free = ground arith

  pub op_load-EndsWell :
      (args : List (Arg F J)) (s : Session F J)
      → s.currency.mutex ≡ false
      → EndsWell risks 1010 (op_load args s)
  unfolding op_load
  op_load-EndsWell args s free = ground arith

  pub op_emit_event-EndsWell :
      (clock : Clock) (args : List (Arg F J)) (s : Session F J)
      → s.currency.mutex ≡ false
      → EndsWell risks 1010 (op_emit_event clock args s)
  unfolding op_emit_event
  op_emit_event-EndsWell clock args s free = ground arith

module _ {F J : Type 0} (r : Runtime F J) where
  pub compute-Answers : (ops : Arithmetic F) (args : List (Arg F J)) → Answers (compute r ops args)
  unfolding compute
  compute-Answers ops args = ground arith

  compare_equal-ends : (a b : Arg F J) → AnswersOrPanics (compare_equal r a b)
  unfolding compare_equal
  compare_equal-ends a b = ground arith

  compare_ordered-ends :
      (operator : String) (x y : Option F) → AnswersOrPanics (compare_ordered r operator x y)
  unfolding compare_numbers
  compare_ordered-ends operator x y = ground arith

  pub op_compare-AnswersOrPanics : (args : List (Arg F J)) → AnswersOrPanics (op_compare r args)
  unfolding op_compare
  op_compare-AnswersOrPanics [] = omega arith
  op_compare-AnswersOrPanics (a ∷ []) = omega arith
  op_compare-AnswersOrPanics (a ∷ b ∷ []) = omega arith
  op_compare-AnswersOrPanics (a ∷ b ∷ c ∷ rest) = ground (
    arith,
    compare_equal-ends a b,
    λ (o : String). compare_ordered-ends o (get_numeric_value r a) (get_numeric_value r b),
  )

  pub op_require-Answers : (args : List (Arg F J)) → Answers (op_require r args)
  unfolding op_require
  op_require-Answers args = ground arith

  pub op_return-Answers : (args : List (Arg F J)) → Answers (op_return r args)
  unfolding op_return
  op_return-Answers args = ground arith

  transferred_out-EndsWell :
      (risks : Risks) (amount : ℤ) (s : Session F J)
      (answer : Outcome CurrencyError (Unit {0}) × CurrencyManager)
      → risks.transfers ≡ true
      → Releases answer
      → EndsWell risks 1010 (transferred_out amount s answer)
  transferred_out-EndsWell risks amount s (ok done_, cm) allowed h = (omega arith, h)
  transferred_out-EndsWell risks amount s (err e, cm) allowed h = (omega arith, h)
  transferred_out-EndsWell risks amount s (panic, cm) allowed h = absurd h
  transferred_out-EndsWell risks amount s (deadlock, cm) allowed h = (allowed, h)

  pub op_transfer-EndsWell :
      (risks : Risks) (clock : Clock) (args : List (Arg F J)) (s : Session F J)
      → s.currency.mutex ≡ false
      → risks.transfers ≡ true
      → EndsWell risks 1010 (op_transfer r clock args s)
  unfolding op_transfer
  op_transfer-EndsWell risks clock [] s free allowed = (omega arith, free)
  op_transfer-EndsWell risks clock (a ∷ []) s free allowed = ground arith
  op_transfer-EndsWell risks clock (text to ∷ text amount ∷ rest) s free allowed =
      elim (Option-cases (new_balance_from_string r amount)) [
        | inl e ↦ rw e (omega arith, free)
        | inr (z, e) ↦ rw e (
            either-EndsWell risks 1010 (ltb_ℤ s.contract.balance z) _ _ (λ low. (omega arith, free))
              (transferred_out-EndsWell risks z s _ allowed
                (transfer_funds-Releases s.contract.address to z clock.now s.currency free)))
      ]
  op_transfer-EndsWell risks clock (to ∷ amount ∷ rest) s free allowed = ground arith

  native_random-ends :
      (clock : Clock) (address : String) (args : List (Arg F J))
      → AnswersOrPanics (native_random r clock address args)
  unfolding native_random
  native_random-ends clock address args = ground arith

  native_sha256-ends : (args : List (Arg F J)) → AnswersOrPanics (native_sha256 r args)
  unfolding native_sha256
  native_sha256-ends args = ground arith

  balance_read-EndsWell :
      (risks : Risks) (s : Session F J) (answer : Outcome CurrencyError ℤ × CurrencyManager)
      → Returns answer
      → EndsWell risks 1010 (balance_read r s answer)
  unfolding balance_read
  balance_read-EndsWell risks s (ok z, cm) h = (omega arith, h)
  balance_read-EndsWell risks s (err e, cm) h = absurd h
  balance_read-EndsWell risks s (panic, cm) h = absurd h
  balance_read-EndsWell risks s (deadlock, cm) h = absurd h

  pub op_native_call-EndsWell :
      (risks : Risks) (clock : Clock) (inv : ContractInvocation F J) (args : List (Arg F J))
      (s : Session F J)
      → s.currency.mutex ≡ false
      → risks.panics ≡ true
      → EndsWell risks 1010 (op_native_call r clock inv args s)
  unfolding op_native_call call_native
  op_native_call-EndsWell risks clock inv [] s free allowed = (omega arith, free)
  op_native_call-EndsWell risks clock inv (text name ∷ args) s free allowed =
      let either = either-EndsWell {F = F} {J = J} risks 1010 in
      let own = s.contract.address in
      either (str_eq name "timestamp") _ _ (λ e. (omega arith, free))
        (either (str_eq name "random") _ _
          (λ e. risky-EndsWell risks _ s free allowed (native_random-ends clock own args))
          (either (str_eq name "sha256") _ _
            (λ e. risky-EndsWell risks _ s free allowed (native_sha256-ends args))
            (either (str_eq name "caller") _ _ (λ e. (omega arith, free))
              (either (str_eq name "contract_address") _ _ (λ e. (omega arith, free))
                (either (str_eq name "balance") _ _
                  (λ e.
                    balance_read-EndsWell risks s _
                      (get_balance-Returns (balance_address r own args) s.currency free))
                  (omega arith, free))))))
  op_native_call-EndsWell risks clock inv (a ∷ args) s free allowed = ground arith
