-- ===== src/Currency/Staking.antt =====
-- Staking in currency/currency.go: `StakeTokens`, `UnstakeTokens` and `GetStake`.
use tc_node_validator_go.Base.{
  String, Bool, true, Option, none, some, ℤ, pos, ◌+ℤ◌, ◌-ℤ◌, ltb_ℤ, leb_ℤ, ◌>>=◌, ◌>>◌, pure,
  fail_if, or_fail,
}
use tc_node_validator_go.Currency.State.{
  Account, Call, invalid_stake, insufficient_for_stake, invalid_unstake, insufficient_stake,
  no_account,
}
use tc_node_validator_go.Currency.Lock.{with_lock, on, credit, debit, touch}
use tc_node_validator_go.Currency.Manager.{find}

-- A nil stake counts as zero.
abbrev pub stake_value : Option ℤ → ℤ
stake_value none = pos 0
stake_value (some s) = s

abbrev pub add_stake : ℤ → Account → Account
add_stake amount a = record a { stake = some (stake_value a.stake +ℤ amount) }

abbrev pub sub_stake : ℤ → Account → Account
sub_stake amount a = record a { stake = some (stake_value a.stake -ℤ amount) }

unfoldable pub stake_tokens : String → ℤ → String → Call (Unit {0})
unfolding with_lock
stake_tokens address amount now = with_lock (do
  fail_if (leb_ℤ amount (pos 0)) invalid_stake
  account ← or_fail (← find address) (no_account address)
  fail_if (ltb_ℤ account.balance amount) insufficient_for_stake
  on address (debit amount)
  on address (add_stake amount)
  on address (touch now))

-- `account.Stake == nil || account.Stake.Int.Cmp(amount.Int) < 0`
abbrev pub lacks_stake : ℤ → Option ℤ → Bool
lacks_stake amount none = true
lacks_stake amount (some s) = ltb_ℤ s amount

unfoldable pub unstake_tokens : String → ℤ → String → Call (Unit {0})
unfolding with_lock
unstake_tokens address amount now = with_lock (do
  fail_if (leb_ℤ amount (pos 0)) invalid_unstake
  account ← or_fail (← find address) (no_account address)
  fail_if (lacks_stake amount account.stake) insufficient_stake
  on address (sub_stake amount)
  on address (credit amount)
  on address (touch now))

unfoldable pub get_stake : String → Call ℤ
unfolding with_lock
get_stake address =
    with_lock
      (do found ← find address; pure (elim found [ none ↦ pos 0 | some a ↦ stake_value a.stake ]))
