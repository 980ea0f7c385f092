-- ===== src/Startup/Token.antt =====
-- The currency that `InitNativeToken` makes for a node.
use Prim.Native.String.{◌++◌ as str_append}
use tc_node_validator_go.Base.{
  ℕ, String, ◌≡◌, refl, false, none, some, pos, ◌≤ℤ◌, lookup, insert, adjust, ok, arith, str_eq,
  ◌+ℤ◌, ◌-ℤ◌, ◌*ℤ◌, div_ℤ,
}
use tc_node_validator_go.Currency.State.{Account, CurrencyManager, genesis_address}
use tc_node_validator_go.Currency.Manager.{
  account_exists, get_balance, get_total_supply, burn_tokens, mint_tokens, create_account,
  transfer_funds,
}
use tc_node_validator_go.Currency.Setup.{
  reserved_address, init_native_token, supply_in_quark, reserved_amount,
}
use tc_node_validator_go.Chain.Block.{format_uint}
use tc_node_validator_go.Storage.Keys.{mark, has_place, mark-append, apart}
use tc_node_validator_go.Startup.Deployment.{rewards_funds}
use tc_node_validator_go.Startup.Blocking.{system_address}

abbrev pub token : String → CurrencyManager
token now = (init_native_token (pos 100000000) now).1

pub token_lem :
    (now : String)
    → (init_native_token (pos 100000000) now ≡ (ok tt, token now))
      × ((token now).mutex ≡ false)
      × ((a : Account) × (lookup genesis_address (token now).accounts ≡ some a)
          × (a.frozen ≡ false)
          × (pos rewards_funds ≤ℤ a.balance))
unfolding init_native_token lookup adjust insert ◌+ℤ◌ ◌-ℤ◌ div_ℤ account_exists get_total_supply
    get_balance burn_tokens mint_tokens create_account transfer_funds reserved_amount ◌*ℤ◌
    supply_in_quark
token_lem now = (refl, refl, (_, refl, refl, omega arith))

token_accounts :
    (now address : String)
    → str_eq genesis_address address ≡ false
    → str_eq reserved_address address ≡ false
    → lookup address (token now).accounts ≡ none
unfolding init_native_token lookup adjust insert ◌+ℤ◌ ◌-ℤ◌ div_ℤ account_exists get_total_supply
    get_balance burn_tokens mint_tokens create_account transfer_funds reserved_amount ◌*ℤ◌
    supply_in_quark
token_accounts now address g r = ground (arith, g, r)

system_address-mark : (nanos : ℕ) → mark 5 (system_address nanos) ≡ 97
unfolding mark has_place system_address
system_address-mark nanos =
    mark-append 5 "contract_" (str_append "GENESIS_" (str_append "_" (format_uint nanos))) refl

genesis-mark : mark 5 genesis_address ≡ 73
unfolding mark
genesis-mark = refl

reserved-mark : mark 5 reserved_address ≡ 86
unfolding mark
reserved-mark = refl

pub no_account :
    (now : String) (nanos : ℕ) → lookup (system_address nanos) (token now).accounts ≡ none
no_account now nanos =
    token_accounts now (system_address nanos)
      (apart _ _ (λ e. omega (arith, system_address-mark nanos, genesis-mark)))
      (apart _ _ (λ e. omega (arith, system_address-mark nanos, reserved-mark)))
