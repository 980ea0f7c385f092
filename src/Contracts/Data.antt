-- ===== src/Contracts/Data.antt =====
-- contracts/interfaces.go: operations and their arguments. `F` is float64; `J` is every other value
-- that JSON decodes into `any`.
use tc_node_validator_go.Base.{ℕ, ◌+◌, ◌%◌, ◌^◌, String, Bool, Option, List, [], ◌∷◌, ℤ, FloatOps}

-- `object` is a `map[string]any`; `block` is a `[]*ContractOperation`, the body of an IF.
mutual
  pub data Arg (F J : Type 0) : Type 0 where
    null : Arg F J
    float : F → Arg F J
    int : ℤ → Arg F J
    int64 : ℤ → Arg F J
    text : String → Arg F J
    bool : Bool → Arg F J
    object : J → Arg F J
    block : Ops F J → Arg F J
    other : J → Arg F J

  pub data Args (F J : Type 0) : Type 0 where
    no_args : Args F J
    arg : Arg F J → Args F J → Args F J

  pub data ContractOperation (F J : Type 0) : Type 0 where
    operation : String → Args F J → Bool → ContractOperation F J

  pub data Ops (F J : Type 0) : Type 0 where
    no_ops : Ops F J
    op : ContractOperation F J → Ops F J → Ops F J

module _ {F J : Type 0} where
  unfoldable pub arg_list : Args F J → List (Arg F J)
  arg_list no_args = []
  arg_list (arg a rest) = a ∷ arg_list rest

  unfoldable pub op_list : Ops F J → List (ContractOperation F J)
  op_list no_ops = []
  op_list (op o rest) = o ∷ op_list rest

  abbrev pub op_code : ContractOperation F J → String
  op_code (operation code args auth) = code

  abbrev pub args_of : ContractOperation F J → List (Arg F J)
  args_of (operation code args auth) = arg_list args

  abbrev pub requires_auth : ContractOperation F J → Bool
  requires_auth (operation code args auth) = auth

-- What an event carries: a map that was given, or the map from "value" to what was given.
pub data EventData (F J : Type 0) : Type 0 where
  given : J → EventData F J
  single : Arg F J → EventData F J

pub record ContractEvent (F J : Type 0) : Type 0 where
  pub contract_address : String
  pub event_name : String
  pub data_of : EventData F J
  pub block_number : ℕ
  pub timestamp : String

-- The result of an operation: a value, or the event that was emitted.
pub data Value (F J : Type 0) : Type 0 where
  plain : Arg F J → Value F J
  emitted : ContractEvent F J → Value F J

pub data ContractError : Type 0 where
  unauthorized out_of_gas too_few_args wrong_type not_numeric division_by_zero : ContractError
  not_boolean not_a_block not_serialized not_positive invalid_amount low_balance : ContractError
  no_address no_method_name invalid_value value_not_transferred not_creator : ContractError
  insufficient_funds transfer_failed marshal_failed no_templates : ContractError
  key_not_found invalid_number unknown_operator unknown_function unknown_operation :
      String → ContractError
  method_not_found contract_not_found template_not_found failed_check reverted :
      String → ContractError
  call_failed : String → ContractError → ContractError
  -- Not an error of the program: the fuel of the model has run out.
  out_of_fuel : ContractError

-- How an operation ends: with a value or an error, each with the gas it used, or not at all:
-- with a panic, waiting for a lock for ever, or without the fuel that the model gives it.
pub data Reply (F J : Type 0) : Type 0 where
  done : Value F J → ℕ → Reply F J
  failed : ContractError → ℕ → Reply F J
  panicked : Reply F J
  blocked : Reply F J
  no_fuel : Reply F J

-- What the interpreter rests on outside this repository. `parse_big` is `SetString` in base 10,
-- `format_big` its inverse, `parse_float` is `ParseFloat`; `same` compares two values of `J` with
-- `==`, which panics on maps and slices (`none`); `draw` is the first number of a generator that is
-- seeded with a time in nanoseconds and a byte.
pub record Runtime (F J : Type 0) : Type 0 where
  pub floats : FloatOps F
  pub float_eq : F → F → Bool
  pub parse_float : String → Option F
  pub parse_big : String → Option ℤ
  pub format_big : ℤ → String
  pub arg_json : Arg F J → Option String
  pub code_json : List (ContractOperation F J) → Option String
  pub same : J → J → Option Bool
  pub sha256_hex : String → String
  pub draw : ℤ → ℕ → F

-- Addition on a uint64.
infixl 65 ◌+ᵤ◌
unfoldable pub ◌+ᵤ◌ : ℕ → ℕ → ℕ
a +ᵤ b = (a + b) % 2 ^ 64

abbrev pub gas_cost_base : ℕ
gas_cost_base = 10

abbrev pub gas_cost_store : ℕ
gas_cost_store = 100

abbrev pub gas_cost_load : ℕ
gas_cost_load = 20

abbrev pub gas_cost_transfer : ℕ
gas_cost_transfer = 500

abbrev pub gas_cost_call : ℕ
gas_cost_call = 200

abbrev pub gas_cost_emit_event : ℕ
gas_cost_emit_event = 50

abbrev pub gas_cost_native_call : ℕ
gas_cost_native_call = 1000

abbrev pub gas_cost_compute : ℕ
gas_cost_compute = 5
