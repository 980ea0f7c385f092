-- ===== src/Startup/Codes.antt =====
-- blockchain/blockchain.go: the code and the state that the system contracts are deployed with.
use Prim.Native.String.{◌++◌ as str_append}
use tc_node_validator_go.Base.{String, true, List, [], ◌∷◌, Dict}
use tc_node_validator_go.Startup.State.{
  ContractOperation, Value, text, flag, number, fields, numbers,
}

-- `OpBalanceOf` with a text.
unfoldable op_balance_of : String → String
op_balance_of address = str_append "BALANCE_OF(" (str_append address ")")

abbrev operation : String → List Value → ContractOperation
operation op_code args = record { op_code = op_code; args = args }

unfoldable pub governance_code : List ContractOperation
governance_code =
    operation "METHOD" (text "propose" ∷ text "Crear nueva propuesta" ∷ flag true ∷ [])
    ∷ operation "REQUIRE"
        (text "caller == creator" ∷ text "COMPARE" ∷ text "CALLER" ∷ text "$creator" ∷ [])
    ∷ operation "STORE" (text "proposals.$id" ∷ number 0 ∷ [])
    ∷ operation "EMIT_EVENT" (text "ProposalCreated" ∷ numbers (("id", 0) ∷ []) ∷ [])
    ∷ []

unfoldable pub governance_state : Dict String
governance_state =
    ("voting_delay", "172800")
    ∷ ("voting_period", "259200")
    ∷ ("proposal_count", "0")
    ∷ ("quorum_percentage", "4")
    ∷ []

unfoldable pub validator_code : List ContractOperation
unfolding op_balance_of
validator_code =
    operation "METHOD" (text "register" ∷ text "Registrar nuevo validador" ∷ flag true ∷ [])
    ∷ operation "REQUIRE" (
        text "balance >= 100 TCC"
        ∷ text "COMPARE"
        ∷ text (op_balance_of "CALLER")
        ∷ text "100000000000000000000"
        ∷ [])
    ∷ operation "STORE" (
        text "validators.$caller"
        ∷ fields (("stake", "ARGS[0]") ∷ ("status", "active") ∷ ("registered", "TIMESTAMP") ∷ [])
        ∷ [])
    ∷ operation "EMIT_EVENT" (text "ValidatorRegistered" ∷ fields (("address", "CALLER") ∷ []) ∷ [])
    ∷ []

unfoldable pub validator_state : Dict String
validator_state = ("min_stake", "100000000000000000000") ∷ []

unfoldable pub rewards_code : List ContractOperation
rewards_code =
    operation "METHOD" (text "distribute" ∷ text "Distribuir recompensas" ∷ flag true ∷ [])
    ∷ operation "NATIVE_CALL" (text "get_block_producer" ∷ [])
    ∷ operation "TRANSFER" (text "RESULT" ∷ text "2000000000000000000" ∷ [])
    ∷ operation "EMIT_EVENT" (
        text "RewardsDistributed"
        ∷ fields (
            ("block", "BLOCK_NUMBER")
            ∷ ("validator", "RESULT")
            ∷ ("amount", "2000000000000000000")
            ∷ [])
        ∷ [])
    ∷ []

unfoldable pub rewards_state : Dict String
rewards_state = ("reward_per_block", "2000000000000000000") ∷ []
