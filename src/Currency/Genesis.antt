-- ===== src/Currency/Genesis.antt =====
-- The supply after `InitNativeToken`.
use tc_node_validator_go.Base.{
  ℕ, ◌+◌, ◌*◌, ◌<◌, String, ◌≡◌, false, ok, ◌/◌, pos, ◌+ℤ◌, ◌-ℤ◌, ◌*ℤ◌, div_ℤ, lookup, adjust,
  insert, arith,
}
use tc_node_validator_go.Currency.State.{initial_supply, trip_coin}
use tc_node_validator_go.Currency.Manager.{
  account_exists, get_balance, get_total_supply, burn_tokens, mint_tokens, create_account,
  transfer_funds,
}
use tc_node_validator_go.Currency.Setup.{
  reserved_address, init_native_token, supply_in_quark, reserved_amount,
}

-- Initialising the token with a positive supply succeeds and leaves the lock free, and the reserved
-- account gets five hundredths of that supply. But the total supply is not the one asked for: it
-- comes on top of the supply that `NewCurrencyManager` starts from, of which nothing is burned.
pub init_native_token_lem :
    (s : ℕ) (now : String)
    → 0 < s
    → let (r, cm) = init_native_token (pos s) now in
      (r ≡ ok tt)
      × (cm.mutex ≡ false)
      × (cm.total_supply ≡ pos (initial_supply + s * trip_coin))
      × ((get_balance reserved_address cm).0 ≡ ok (pos (s * trip_coin * 5 / 100)))
unfolding init_native_token lookup adjust insert ◌+ℤ◌ ◌-ℤ◌ div_ℤ account_exists get_total_supply
    get_balance burn_tokens mint_tokens create_account transfer_funds reserved_amount ◌*ℤ◌
    supply_in_quark
init_native_token_lem s now h = ground arith
