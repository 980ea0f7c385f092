-- ===== src/Contracts/Deployment.antt =====
-- contracts/contracts.go: how contracts come to be: creation, templates and new code.
use Prim.Native.String.{◌++◌ as str_append}
use tc_node_validator_go.Base.{
  ℕ, zero, suc, String, Bool, true, false, not, ◌&&◌, Option, none, some, List, [], ◌∷◌, ◌++◌, ℤ,
  pos, ltb_ℤ, leb_ℤ, str_eq, Dict, lookup, insert, adjust, if◌then◌else◌, ◌>>=◌, ◌>>◌, pure, gets,
  modify, fail_if, or_fail,
}
use tc_node_validator_go.Currency.Lock.{bump_nonce}
use tc_node_validator_go.Currency.Manager.{get_account, transfer_funds}
use tc_node_validator_go.Chain.Block.{format_uint}
use tc_node_validator_go.Contracts.Data.{
  Arg, no_args, arg, text, bool, ContractOperation, operation, contract_not_found,
  template_not_found, no_templates, insufficient_funds, transfer_failed, marshal_failed,
  not_creator, Runtime,
}
use tc_node_validator_go.Contracts.State.{Contract, ContractMethod, Managed}
use tc_node_validator_go.Contracts.Interpreter.{merge}
use tc_node_validator_go.Contracts.Manager.{guarded, on_currency}

-- The first `n` characters.
take_text : ℕ → String → String
take_text zero s = ""
take_text (suc n) String.[] = ""
take_text (suc n) (String.◌∷◌ c s) = String.◌∷◌ c (take_text n s)

abbrev positive : Option ℤ → Bool
positive none = false
positive (some v) = not (leb_ℤ v (pos 0))

abbrev amount_of : Option ℤ → ℤ
amount_of none = pos 0
amount_of (some v) = v

module _ {F J : Type 0} where
  -- The code of a template: every method's mark and its operations, in the order in which the
  -- methods are met.
  unfoldable pub template_code : Dict (ContractMethod F J) → List (ContractOperation F J)
  template_code [] = []
  template_code ((name, m) ∷ methods) =
      operation "METHOD"
          (arg (text name) (arg (text m.description) (arg (bool m.is_public) no_args))) false
        ∷ m.operations
      ++ template_code methods

  -- The pointer that `GetAccount` gave is written to without the currency manager's lock.
  abbrev bump_creator : String → Managed F J (Unit {0})
  bump_creator creator = modify (λ cm. record cm {
    currency = record cm.currency { accounts = adjust creator bump_nonce cm.currency.accounts };
  })

  abbrev when : Bool → Managed F J (Unit {0}) → Managed F J (Unit {0})
  when true call = call
  when false call = pure tt

  module _ (r : Runtime F J) where
    open r use {code_json, sha256_hex}

    unfoldable pub generate_contract_address : String → ℕ → String → String
    unfolding take_text
    generate_contract_address creator nonce timestamp = str_append "contract-" (
        take_text 40 (
          sha256_hex (
            str_append creator
              (str_append ":" (str_append (format_uint nonce) (str_append ":" timestamp))))))

    abbrev pub new_contract :
        String
        → String
        → List (ContractOperation F J)
        → String
        → Dict (Arg F J)
        → Option ℤ
        → String
        → Contract F J
    new_contract address creator code code_json_ initial_state value now = record {
      address = address;
      creator = creator;
      code = code;
      state = merge initial_state [];
      balance = if positive value then amount_of value else pos 0;
      created_at = now;
      last_executed = now;
      code_hash = sha256_hex code_json_;
      metadata = [];
    }

    -- A nil map is an empty one, and a nil value `none`. The contract's balance is set after the
    -- transfer, which nothing observes in between.
    unfoldable pub create_contract :
        String
        → List (ContractOperation F J)
        → Dict (Arg F J)
        → Option ℤ
        → String
        → Managed F J (Contract F J)
    unfolding guarded
    create_contract creator code initial_state value now = guarded (do
      account ← on_currency insufficient_funds (get_account creator now)
      fail_if (positive value && ltb_ℤ account.balance (amount_of value)) insufficient_funds
      let address = generate_contract_address creator account.nonce now
      code_bytes ← or_fail (code_json code) marshal_failed
      when (positive value)
          (on_currency transfer_failed (transfer_funds creator address (amount_of value) now))
      let contract = new_contract address creator code code_bytes initial_state value now
      modify (λ cm. record cm { contracts = insert address contract cm.contracts })
      bump_creator creator
      pure contract)

    unfoldable pub update_contract_code :
        String → List (ContractOperation F J) → String → String → Managed F J (Unit {0})
    unfolding guarded
    update_contract_code address new_code caller now = guarded (do
      contract ← or_fail (← gets (λ cm. lookup address cm.contracts)) (contract_not_found address)
      fail_if (not (str_eq contract.creator caller)) not_creator
      code_bytes ← or_fail (code_json new_code) marshal_failed
      modify (λ cm. record cm {
        contracts =
            adjust address
              (λ c. record c {
                code = new_code;
                code_hash = sha256_hex code_bytes;
                last_executed = now;
              })
              cm.contracts;
      }))

    -- `order` is the order in which the methods of a template are met.
    unfoldable pub deploy_contract_from_template :
        (Dict (ContractMethod F J) → Dict (ContractMethod F J))
        → String
        → String
        → Dict (Arg F J)
        → Option ℤ
        → String
        → Managed F J (Contract F J)
    unfolding guarded
    deploy_contract_from_template order template_name creator initial_state value now = do
      template ← guarded (do
        templates ← or_fail (← gets (λ cm. cm.templates)) no_templates
        or_fail (lookup template_name templates) (template_not_found template_name))
      create_contract creator (template_code (order template.methods))
          (merge initial_state (merge template.init_state [])) value now
