-- ===== src/Contracts/Funding.antt =====
-- `CreateContract` with a value.
use tc_node_validator_go.Base.{
  String, ◌≡◌, refl, true, false, none, some, List, ℤ, pos, ◌≤ℤ◌, ◌<ℤ◌, leb_ℤ, ltb_ℤ, Dict, lookup,
  deadlock, ok, arith,
}
use tc_node_validator_go.Currency.State.{Account, CurrencyManager}
use tc_node_validator_go.Currency.Lock.{with_lock}
use tc_node_validator_go.Currency.Manager.{get_account}
use tc_node_validator_go.Currency.Transfer.{transfer_to_new_blocks}
use tc_node_validator_go.Contracts.Data.{Arg, ContractOperation, Runtime}
use tc_node_validator_go.Contracts.State.{ContractManager}
use tc_node_validator_go.Contracts.Manager.{guarded}
use tc_node_validator_go.Contracts.Deployment.{generate_contract_address, create_contract}

pub account_found :
    (address now : String) (a : Account) (cm : CurrencyManager)
    → cm.mutex ≡ false
    → lookup address cm.accounts ≡ some a
    → get_account address now cm ≡ (ok a, cm)
unfolding get_account with_lock
account_found address now a cm free found = ground (arith, free, found)

module _ {F J : Type 0} (r : Runtime F J) where
  -- With both locks free, a creator whose account is not frozen and covers a positive value, code
  -- that JSON takes, and a contract address that has no account yet, `CreateContract` never
  -- returns: the transfer to the new address blocks, with both locks held and nothing else changed.
  pub create_contract_with_value_blocks :
      (creator : String) (code : List (ContractOperation F J)) (initial_state : Dict (Arg F J))
      (value : ℤ) (now code_bytes : String) (a : Account) (cm : ContractManager F J)
      → cm.mutex ≡ false
      → cm.currency.mutex ≡ false
      → lookup creator cm.currency.accounts ≡ some a
      → a.frozen ≡ false
      → pos 0 <ℤ value
      → value ≤ℤ a.balance
      → r.code_json code ≡ some code_bytes
      → lookup (generate_contract_address r creator a.nonce now) cm.currency.accounts ≡ none
      → create_contract r creator code initial_state (some value) now cm
        ≡ (deadlock, record cm { mutex = true; currency = record cm.currency { mutex = true } })
  unfolding create_contract guarded
  create_contract_with_value_blocks creator code initial_state value now code_bytes a cm free cfree
        found thawed positive covered json missing =
      rw (free, account_found creator now a cm.currency cfree found, not_low, json, is_positive)
        (rw
          (transfer_to_new_blocks creator (generate_contract_address r creator a.nonce now) value
            now cm.currency a cfree positive found thawed covered missing)
          refl)
    where
      not_low : ltb_ℤ a.balance value ≡ false
      not_low = ground arith

      is_positive : leb_ℤ value (pos 0) ≡ false
      is_positive = ground arith
