-- ===== src/Currency/Setup.antt =====
-- How a manager comes to be: `NewCurrencyManager`, and `InitNativeToken` of blockchain/blockchain.go.
use tc_node_validator_go.Base.{
  ℕ, String, Bool, true, false, none, [], ◌∷◌, ℤ, pos, ◌*ℤ◌, div_ℤ, ltb_ℤ, ok, err, panic, deadlock,
  ◌>>=◌, ◌>>◌, pure, gets,
}
use tc_node_validator_go.Currency.State.{
  CurrencyManager, Call, Answer, genesis_address, initial_supply, trip_coin, minimum_gas_price,
  default_gas_price,
}
use tc_node_validator_go.Currency.Manager.{
  fresh_account, create_account, transfer_funds, mint_tokens, burn_tokens, get_total_supply,
  account_exists,
}

-- The product of the initial supply and the double nearest to 0.05, as a `big.Float` of 80 bits
-- (the exact product ends in .72 and is rounded to quarters), cut to an integer.
abbrev reserved_int : ℕ
reserved_int = 50000000000000001936696

-- The rest: `initial_supply` less `reserved_int`.
abbrev remaining_supply : ℕ
remaining_supply = 949999999999999981286088

unfoldable pub new_currency_manager : String → CurrencyManager
new_currency_manager now = record {
  symbol = "";
  genesis_allocated = false;
  accounts =
      (
        genesis_address,
        record (fresh_account genesis_address none now) { balance = pos remaining_supply },
      )
      ∷ [];
  total_supply = pos initial_supply;
  mutex = false;
  reserved_funds = pos reserved_int;
  gas_parameters = record {
    min_gas_price = pos minimum_gas_price;
    network_gas_price = pos default_gas_price;
    last_updated = now;
  };
}

abbrev pub reserved_address : String
reserved_address = "RESERVED_FUNDS_ACCOUNT"

-- `if err := ...; err != nil { LogError }`: an error is logged and the caller goes on.
abbrev log_error : {A : Type 0} → Call A → Call (Unit {0})
log_error m cm =
    let (r, cm') = m cm in
    elim r [
      | ok a ↦ (ok tt, cm')
      | err e ↦ (ok tt, cm')
      | panic ↦ (panic, cm')
      | deadlock ↦ (deadlock, cm')
    ]

abbrev ensure_account : String → String → Bool → Call (Unit {0})
ensure_account address now true = pure tt
ensure_account address now false = create_account address now >> pure tt

abbrev burn_existing : ℤ → String → Bool → Call (Unit {0})
burn_existing current now false = pure tt
burn_existing current now true = log_error (burn_tokens genesis_address current now)

-- `initialSupply` times 10^18.
unfoldable pub supply_in_quark : ℤ → ℤ
supply_in_quark supply = supply *ℤ pos trip_coin

-- Five hundredths: `int64(0.05 * 100)` is 5.
unfoldable pub reserved_amount : ℤ → ℤ
reserved_amount supply = div_ℤ (supply_in_quark supply *ℤ pos 5) 100

-- The body of `InitNativeToken`, run on a new manager.
unfoldable pub init_native_token : ℤ → String → Answer (Unit {0}) × CurrencyManager
unfolding new_currency_manager
init_native_token supply now = setup (new_currency_manager now)
  where
    setup : Call (Unit {0})
    setup = do
      found ← gets (account_exists genesis_address)
      ensure_account genesis_address now found
      current ← get_total_supply
      burn_existing current now (ltb_ℤ (pos 0) current)
      log_error (mint_tokens genesis_address (supply_in_quark supply) now)
      reserved ← gets (account_exists reserved_address)
      ensure_account reserved_address now reserved
      log_error (transfer_funds genesis_address reserved_address (reserved_amount supply) now)
