-- ===== src/Currency/Manager.antt =====
-- The methods of `CurrencyManager` that move funds: accounts, transfers, minting, burning and
-- rewards. `now` is the clock's reading during a call.
use tc_node_validator_go.Base.{
  ℕ, String, Bool, false, Option, none, some, ℤ, pos, ◌+ℤ◌, ◌-ℤ◌, ◌*ℤ◌, div_ℤ, ltb_ℤ, leb_ℤ, lookup,
  contains, insert, ◌>>=◌, ◌>>◌, pure, gets, modify, fail_if, or_fail, if◌then◌else◌,
}
use tc_node_validator_go.Currency.State.{
  Account, CurrencyManager, Call, block_reward, invalid_amount, source_frozen, insufficient_balance,
  insufficient_burn, no_source, no_account,
}
use tc_node_validator_go.Currency.Lock.{with_lock, on, credit, debit, touch, bump_nonce}

-- The account that `CreateAccount` makes; `MintTokens` makes one without a stake.
abbrev pub fresh_account : String → Option ℤ → String → Account
fresh_account address stake now = record {
  address = address;
  balance = pos 0;
  nonce = 0;
  code_hash = "";
  storage_root = "";
  is_contract = false;
  created_at = now;
  last_activity = now;
  frozen = false;
  stake = stake;
}

abbrev pub find : String → Call (Option Account)
find address = gets (λ cm. lookup address cm.accounts)

abbrev store : String → Account → Call (Unit {0})
store address a = modify (λ cm. record cm { accounts = insert address a cm.accounts })

abbrev create_if_missing : String → String → Option Account → Call Account
create_if_missing address now (some a) = pure a
create_if_missing address now none =
    store address (fresh_account address (some (pos 0)) now)
    >> pure (fresh_account address (some (pos 0)) now)

unfoldable pub create_account : String → String → Call Account
unfolding with_lock
create_account address now =
    with_lock (do found ← find address; create_if_missing address now found)

abbrev pub create_unless : String → String → Option Account → Call Account
create_unless address now (some a) = pure a
create_unless address now none = create_account address now

-- The lookup under the read lock, then `CreateAccount` with the lock given back.
unfoldable pub get_account : String → String → Call Account
unfolding with_lock create_account
get_account address now = do found ← with_lock (find address); create_unless address now found

-- Takes no lock.
unfoldable pub account_exists : String → CurrencyManager → Bool
account_exists address cm = contains address cm.accounts

-- `CreateAccount` is called with the lock held.
unfoldable pub transfer_funds : String → String → ℤ → String → Call (Unit {0})
unfolding with_lock create_account
transfer_funds from to amount now = with_lock (do
  fail_if (leb_ℤ amount (pos 0)) invalid_amount
  from_account ← or_fail (← find from) (no_source from)
  fail_if from_account.frozen source_frozen
  fail_if (ltb_ℤ from_account.balance amount) insufficient_balance
  found ← find to
  create_unless to now found
  on from (debit amount)
  on to (credit amount)
  on from (touch now)
  on to (touch now)
  on from bump_nonce)

unfoldable pub get_balance : String → Call ℤ
unfolding with_lock
get_balance address =
    with_lock (do found ← find address; pure (elim found [ none ↦ pos 0 | some a ↦ a.balance ]))

abbrev mint_target : String → String → Option Account → Call (Unit {0})
mint_target to now (some a) = pure tt
mint_target to now none = store to (fresh_account to none now)

abbrev change_supply : (ℤ → ℤ) → Call (Unit {0})
change_supply f = modify (λ cm. record cm { total_supply = f cm.total_supply })

unfoldable pub mint_tokens : String → ℤ → String → Call (Unit {0})
unfolding with_lock
mint_tokens to amount now = with_lock (do
  fail_if (leb_ℤ amount (pos 0)) invalid_amount
  found ← find to
  mint_target to now found
  on to (credit amount)
  change_supply (λ s. s +ℤ amount)
  on to (touch now))

-- What `amount.Int` is after the cap: the hundredth of the balance replaces what is not above it.
unfoldable pub burn_amount : ℤ → ℤ → ℤ
burn_amount balance amount = if leb_ℤ amount (div_ℤ balance 100) then div_ℤ balance 100 else amount

-- The result is the amount burned, which the caller's `Balance` holds afterwards.
unfoldable pub burn_tokens : String → ℤ → String → Call ℤ
unfolding with_lock burn_amount
burn_tokens from amount now = with_lock (do
  from_account ← or_fail (← find from) (no_account from)
  let burned = burn_amount from_account.balance amount
  fail_if (ltb_ℤ from_account.balance burned) insufficient_burn
  on from (debit burned)
  change_supply (λ s. s -ℤ burned)
  on from (touch now)
  pure burned)

unfoldable pub reward_block_producer : String → String → Call (Unit {0})
reward_block_producer address now = mint_tokens address (pos block_reward) now

unfoldable pub calculate_transaction_fee : ℕ → ℤ → ℤ
calculate_transaction_fee gas_used gas_price = pos gas_used *ℤ gas_price

unfoldable pub validator_share : ℤ → ℤ
validator_share fees = div_ℤ (fees *ℤ pos 70) 100

-- The writes after `GetAccount` are made without the lock.
unfoldable pub distribute_fees : ℤ → String → String → Call (Unit {0})
distribute_fees fees validator now = do
  get_account validator now
  on validator (credit (validator_share fees))
  change_supply (λ s. s -ℤ (fees -ℤ validator_share fees))

unfoldable pub get_total_supply : Call ℤ
unfolding with_lock
get_total_supply = with_lock (gets (λ cm. cm.total_supply))

unfoldable process_block_rewards : String → ℤ → String → Call (Unit {0})
process_block_rewards validator fees now = do
  reward_block_producer validator now
  distribute_fees fees validator now
