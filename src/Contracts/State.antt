-- ===== src/Contracts/State.antt =====
-- contracts/interfaces.go: contracts, invocations and executions, and what a run of operations
-- reads and writes.
use tc_node_validator_go.Base.{ℕ, String, Bool, Option, List, ℤ, Dict, Action}
use tc_node_validator_go.Currency.State.{CurrencyManager}
use tc_node_validator_go.Contracts.Data.{
  Arg, ContractOperation, ContractEvent, Value, ContractError, Reply,
}

pub record Contract (F J : Type 0) : Type 0 where
  pub address : String
  pub creator : String
  pub code : List (ContractOperation F J)
  pub state : Dict (Arg F J)
  pub balance : ℤ
  pub created_at : String
  pub last_executed : String
  pub code_hash : String
  pub metadata : Dict (Arg F J)

pub record ContractInvocation (F J : Type 0) : Type 0 where
  pub contract_address : String
  pub method : String
  pub args : List (Arg F J)
  pub caller : String
  pub value : String
  pub gas_limit : ℕ
  pub gas_price : String
  pub nonce : ℕ
  pub timestamp : String
  pub signature : String

-- `return_value` is nil as `none`, and so is an empty error message.
pub record ContractExecution (F J : Type 0) : Type 0 where
  pub success : Bool
  pub gas_used : ℕ
  pub return_value : Option (Value F J)
  pub error_message : Option ContractError
  pub state_updates : Dict (Arg F J)
  pub events : List (ContractEvent F J)
  pub logs : List String

pub record ContractMethod (F J : Type 0) : Type 0 where
  pub description : String
  pub operations : List (ContractOperation F J)
  pub is_public : Bool

pub record ContractTemplate (F J : Type 0) : Type 0 where
  pub name : String
  pub methods : Dict (ContractMethod F J)
  pub init_state : Dict (Arg F J)

-- A listener is known by a name. `templates` is what the global state holds under "templates", its
-- only key; `notified` lists the calls of listeners that were started; `mutex` is the manager's.
pub record ContractManager (F J : Type 0) : Type 0 where
  pub contracts : Dict (Contract F J)
  pub currency : CurrencyManager
  pub templates : Option (Dict (ContractTemplate F J))
  pub event_listeners : Dict (List String)
  pub notified : List (String × ContractEvent F J)
  pub mutex : Bool

-- What a run of operations works on: the contract (a shared pointer), the state of the innermost
-- block that is not committed yet, the execution, the currency and the listeners.
pub record Session (F J : Type 0) : Type 0 where
  pub contract : Contract F J
  pub local : Dict (Arg F J)
  pub execution : ContractExecution F J
  pub currency : CurrencyManager
  pub event_listeners : Dict (List String)
  pub notified : List (String × ContractEvent F J)

abbrev pub Run : Type 0 → Type 0 → Type 0
Run F J = Session F J → Reply F J × Session F J

abbrev pub Managed : Type 0 → Type 0 → Type 0 → Type 0
Managed F J A = Action (ContractManager F J) ContractError A
