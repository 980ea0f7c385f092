-- ===== src/Contracts/Effects.antt =====
-- contracts/contracts.go: the operations that read or change more than their arguments: STORE, LOAD,
-- TRANSFER, EMIT_EVENT and NATIVE_CALL.
use Prim.Native.Char.{code}
use tc_node_validator_go.Base.{
  ℕ, ◌+◌, String, true, Option, none, some, List, [], ◌∷◌, ◌++◌, map, ℤ, pos, ◌-ℤ◌, ltb_ℤ, str_eq,
  lookup, insert, Outcome, ok, err, panic, deadlock, if◌then◌else◌,
}
use tc_node_validator_go.Currency.State.{CurrencyManager, CurrencyError}
use tc_node_validator_go.Currency.Manager.{transfer_funds, get_balance}
use tc_node_validator_go.Contracts.Data.{
  Arg, float, text, bool, object, given, single, ContractEvent, EventData, plain, emitted,
  too_few_args, wrong_type, not_numeric, not_positive, not_serialized, invalid_amount, low_balance,
  transfer_failed, key_not_found, unknown_function, Reply, done, failed, panicked, blocked, Runtime,
  gas_cost_base, gas_cost_store, gas_cost_load, gas_cost_transfer, gas_cost_emit_event,
  gas_cost_native_call,
}
use tc_node_validator_go.Contracts.State.{ContractInvocation, Session, Run}
use tc_node_validator_go.Contracts.Values.{get_numeric_value}

-- Two readings of the clock: as text and in nanoseconds.
pub record Clock : Type 0 where
  pub now : String
  pub nanos : ℤ

module _ {F J : Type 0} where
  unfoldable pub op_store : List (Arg F J) → Run F J
  op_store (text key ∷ value ∷ rest) s = (
    done (plain value) (gas_cost_base + gas_cost_store),
    record s { local = insert key value s.local },
  )
  op_store (key ∷ value ∷ rest) s = (failed wrong_type gas_cost_base, s)
  op_store _ s = (failed too_few_args gas_cost_base, s)

  abbrev loaded : String → Option (Arg F J) → Reply F J
  loaded key none = failed (key_not_found key) gas_cost_base
  loaded key (some value) = done (plain value) (gas_cost_base + gas_cost_load)

  unfoldable pub op_load : List (Arg F J) → Run F J
  op_load (text key ∷ rest) s = (loaded key (lookup key s.local), s)
  op_load (key ∷ rest) s = (failed wrong_type gas_cost_base, s)
  op_load [] s = (failed too_few_args gas_cost_base, s)

  -- What TRANSFER does after the currency manager's answer.
  abbrev pub transferred_out :
      ℤ → Session F J → Outcome CurrencyError (Unit {0}) × CurrencyManager → Reply F J × Session F J
  transferred_out amount s (ok done_, cm) = (
    done (plain (bool true)) (gas_cost_base + gas_cost_transfer),
    record s {
      currency = cm;
      contract = record s.contract { balance = s.contract.balance -ℤ amount };
    },
  )
  transferred_out amount s (err e, cm) =
      (failed transfer_failed gas_cost_base, record s { currency = cm })
  transferred_out amount s (panic, cm) = (panicked, record s { currency = cm })
  transferred_out amount s (deadlock, cm) = (blocked, record s { currency = cm })

  -- `go listener(event)` for the listeners of all events and for those of this one.
  unfoldable pub notify_event_listeners : ContractEvent F J → Session F J → Session F J
  notify_event_listeners event s = record s {
    notified =
        s.notified
        ++ map (λ l. (l, event)) (listeners_of "*" s)
        ++ map (λ l. (l, event)) (listeners_of event.event_name s);
  }
    where
      listeners_of : String → Session F J → List String
      listeners_of name s = elim (lookup name s.event_listeners) [ none ↦ [] | some ls ↦ ls ]

  abbrev event_data : Arg F J → EventData F J
  event_data (object j) = given j
  event_data a = single a

  abbrev event_of : Clock → String → Arg F J → Session F J → ContractEvent F J
  event_of clock name payload s = record {
    contract_address = s.contract.address;
    event_name = name;
    data_of = event_data payload;
    block_number = 0;
    timestamp = clock.now;
  }

  abbrev with_event : ContractEvent F J → Session F J → Session F J
  with_event event s = record s {
    execution = record s.execution { events = s.execution.events ++ event ∷ [] };
  }

  unfoldable pub op_emit_event : Clock → List (Arg F J) → Run F J
  unfolding notify_event_listeners
  op_emit_event clock (text name ∷ payload ∷ rest) s = (
    done (emitted (event_of clock name payload s)) (gas_cost_base + gas_cost_emit_event),
    notify_event_listeners (event_of clock name payload s)
        (with_event (event_of clock name payload s) s),
  )
  op_emit_event clock (name ∷ payload ∷ rest) s = (failed wrong_type gas_cost_base, s)
  op_emit_event clock _ s = (failed too_few_args gas_cost_base, s)

-- The first byte of an address, which is ASCII here; an empty address panics.
abbrev first_byte : String → Option ℕ
first_byte String.[] = none
first_byte (String.◌∷◌ c s) = some (code c)

module _ {F J : Type 0} (r : Runtime F J) where
  open r use {floats, parse_big, format_big, arg_json, sha256_hex, draw}

  -- `NewBalanceFromString`
  abbrev pub new_balance_from_string : String → Option ℤ
  new_balance_from_string amount = parse_big amount

  abbrev transfer_amount : Clock → String → Option ℤ → Run F J
  transfer_amount clock to none s = (failed invalid_amount gas_cost_base, s)
  transfer_amount clock to (some amount) s =
      if ltb_ℤ s.contract.balance amount
      then (failed low_balance gas_cost_base, s)
      else transferred_out amount s
          (transfer_funds s.contract.address to amount clock.now s.currency)

  unfoldable pub op_transfer : Clock → List (Arg F J) → Run F J
  op_transfer clock (text to ∷ text amount ∷ rest) s =
      transfer_amount clock to (new_balance_from_string amount) s
  op_transfer clock (to ∷ amount ∷ rest) s = (failed wrong_type gas_cost_base, s)
  op_transfer clock _ s = (failed too_few_args gas_cost_base, s)

  abbrev native_done : Arg F J → Reply F J
  native_done a = done (plain a) (gas_cost_base + gas_cost_native_call)

  -- The seed is the time, mixed with the first byte of the contract's address.
  abbrev random_below : Clock → String → Option F → Reply F J
  random_below clock address none = failed not_numeric gas_cost_base
  random_below clock address (some x) =
      if floats.le x (floats.of_int (pos 0))
      then failed not_positive gas_cost_base
      else elim (first_byte address) [
        | none ↦ panicked
        | some byte ↦ native_done (float (floats.mul (draw clock.nanos byte) x))
      ]

  unfoldable pub native_random : Clock → String → List (Arg F J) → Reply F J
  unfolding get_numeric_value
  native_random clock address [] = failed too_few_args gas_cost_base
  native_random clock address (a ∷ rest) = random_below clock address (get_numeric_value r a)

  abbrev hashed : Option String → Reply F J
  hashed none = failed not_serialized gas_cost_base
  hashed (some data_) = native_done (text (sha256_hex data_))

  unfoldable pub native_sha256 : List (Arg F J) → Reply F J
  native_sha256 [] = failed too_few_args gas_cost_base
  native_sha256 (text s ∷ rest) = hashed (some s)
  native_sha256 (a ∷ rest) = hashed (arg_json a)

  abbrev pub balance_address : String → List (Arg F J) → String
  balance_address own (text address ∷ rest) = address
  balance_address own _ = own

  unfoldable pub balance_read :
      Session F J → Outcome CurrencyError ℤ × CurrencyManager → Reply F J × Session F J
  balance_read s (ok z, cm) = (native_done (text (format_big z)), record s { currency = cm })
  balance_read s (err e, cm) = (panicked, record s { currency = cm })
  balance_read s (panic, cm) = (panicked, record s { currency = cm })
  balance_read s (deadlock, cm) = (blocked, record s { currency = cm })

  unfoldable pub call_native : Clock → ContractInvocation F J → String → List (Arg F J) → Run F J
  call_native clock invocation name args s =
      if str_eq name "timestamp"
      then (native_done (text clock.now), s)
      else if str_eq name "random"
      then (native_random clock s.contract.address args, s)
      else if str_eq name "sha256"
      then (native_sha256 args, s)
      else if str_eq name "caller"
      then (native_done (text invocation.caller), s)
      else if str_eq name "contract_address"
      then (native_done (text s.contract.address), s)
      else if str_eq name "balance"
      then balance_read s (get_balance (balance_address s.contract.address args) s.currency)
      else (failed (unknown_function name) gas_cost_base, s)

  unfoldable pub op_native_call : Clock → ContractInvocation F J → List (Arg F J) → Run F J
  unfolding call_native
  op_native_call clock invocation (text name ∷ args) s = call_native clock invocation name args s
  op_native_call clock invocation (name ∷ args) s = (failed wrong_type gas_cost_base, s)
  op_native_call clock invocation [] s = (failed too_few_args gas_cost_base, s)
