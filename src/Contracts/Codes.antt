-- ===== src/Contracts/Codes.antt =====
-- contracts/contracts.go: the code and the state that `DeploySystemContracts` of this package
-- deploys contracts with.
use Prim.Native.String.{◌++◌ as str_append}
use tc_node_validator_go.Base.{ℕ, String, true, false, List, [], ◌∷◌, Dict}
use tc_node_validator_go.Chain.Block.{format_uint}
use tc_node_validator_go.Contracts.Data.{
  Arg, no_args, arg, Args, text, bool, object, other, ContractOperation, operation,
}

-- How an `any` holds a pointer to an operation, and a map of values.
pub record Boxes (F J : Type 0) : Type 0 where
  pub pointer : ContractOperation F J → J
  pub map_of : Dict (Arg F J) → J

module _ {F J : Type 0} where
  unfoldable args : List (Arg F J) → Args F J
  args [] = no_args
  args (a ∷ rest) = arg a (args rest)

  -- An operation as a literal gives it: it requires no authorization.
  abbrev op : String → List (Arg F J) → ContractOperation F J
  op op_code given = operation op_code (args given) false

  abbrev op_result : Arg F J
  op_result = text "result"

module _ {F J : Type 0} (b : Boxes F J) where
  open b use {pointer, map_of}

  abbrev boxed : ContractOperation F J → Arg F J
  boxed o = other (pointer o)

  abbrev map : Dict (Arg F J) → Arg F J
  map entries = object (map_of entries)

  unfoldable op_caller : Arg F J
  unfolding args
  op_caller = boxed (op "NATIVE_CALL" (text "caller" ∷ []))

  unfoldable op_timestamp : Arg F J
  unfolding args
  op_timestamp = boxed (op "NATIVE_CALL" (text "timestamp" ∷ []))

  unfoldable op_block_number : Arg F J
  unfolding args
  op_block_number = boxed (op "NATIVE_CALL" (text "block_number" ∷ []))

  unfoldable op_args : ℕ → Arg F J
  unfolding args
  op_args index = boxed (op "LOAD" (text (str_append "args." (format_uint index)) ∷ []))

  unfoldable op_balance_of : Arg F J → Arg F J
  unfolding args
  op_balance_of address = boxed (op "NATIVE_CALL" (text "balance" ∷ address ∷ []))

  unfoldable pub governance_code : List (ContractOperation F J)
  unfolding args op_caller op_args
  governance_code =
      op "METHOD" (text "propose" ∷ text "Crear nueva propuesta" ∷ bool true ∷ [])
      ∷ op "REQUIRE" (text "caller == creator" ∷ text "COMPARE" ∷ op_caller ∷ text "$creator" ∷ [])
      ∷ op "STORE" (text "proposals.$id" ∷ op_args 0 ∷ [])
      ∷ op "EMIT_EVENT" (text "ProposalCreated" ∷ map (("id", op_args 0) ∷ []) ∷ [])
      ∷ []

  unfoldable pub validator_code : List (ContractOperation F J)
  unfolding args op_caller op_timestamp op_args op_balance_of
  validator_code =
      op "METHOD" (text "register" ∷ text "Registrar nuevo validador" ∷ bool true ∷ [])
      ∷ op "REQUIRE" (
          text "balance >= 100 TCC"
          ∷ text "COMPARE"
          ∷ op_balance_of op_caller
          ∷ text "100000000000000000000"
          ∷ [])
      ∷ op "STORE" (
          text "validators.$caller"
          ∷ map
              (("stake", op_args 0) ∷ ("status", text "active") ∷ ("registered", op_timestamp) ∷ [])
          ∷ [])
      ∷ op "EMIT_EVENT" (text "ValidatorRegistered" ∷ map (("address", op_caller) ∷ []) ∷ [])
      ∷ []

  unfoldable pub rewards_code : List (ContractOperation F J)
  unfolding args op_block_number
  rewards_code =
      op "METHOD" (text "distribute" ∷ text "Distribuir recompensas" ∷ bool true ∷ [])
      ∷ op "NATIVE_CALL" (text "get_block_producer" ∷ [])
      ∷ op "TRANSFER" (op_result ∷ text "2000000000000000000" ∷ [])
      ∷ op "EMIT_EVENT" (
          text "RewardsDistributed"
          ∷ map (
              ("block", op_block_number)
              ∷ ("validator", op_result)
              ∷ ("amount", text "2000000000000000000")
              ∷ [])
          ∷ [])
      ∷ []

module _ {F J : Type 0} where
  unfoldable pub governance_state : Dict (Arg F J)
  governance_state =
      ("voting_delay", text "172800")
      ∷ ("voting_period", text "259200")
      ∷ ("proposal_count", text "0")
      ∷ ("quorum_percentage", text "4")
      ∷ []

  unfoldable pub validator_state : Dict (Arg F J)
  validator_state = ("min_stake", text "100000000000000000000") ∷ []

  unfoldable pub rewards_state : Dict (Arg F J)
  rewards_state = ("reward_per_block", text "2000000000000000000") ∷ []
