-- ===== src/Currency/Fees.antt =====
-- What `DistributeFees` of currency/currency.go makes of the accounts and the supply.
use tc_node_validator_go.Base.{
  String, ◌≡◌, ◌∙◌, ap, false, none, some, ℤ, pos, ◌+ℤ◌, ◌-ℤ◌, ◌*ℤ◌, div_ℤ, int_laws, ok, adjust,
  lookup, lookup-adjust, lookup-insert, str_eq, eq_iff, if◌then◌else◌, arith,
}
use tc_node_validator_go.Currency.State.{Account, CurrencyManager}
use tc_node_validator_go.Currency.Lock.{credit}
use tc_node_validator_go.Currency.Manager.{fresh_account, validator_share, distribute_fees}
use tc_node_validator_go.Currency.Branches.{opened, distribute_fees_lem}
use tc_node_validator_go.Currency.Solvency.{holdings, sum-credit}
use tc_node_validator_go.Currency.Conservation.{contains-opened_stake, sum-opened_stake}

unbacked :
    (fees : ℤ) (validator now : String) (cm : CurrencyManager)
    → cm.mutex ≡ false
    → (distribute_fees fees validator now cm).1.total_supply +ℤ holdings cm +ℤ fees
      ≡ cm.total_supply +ℤ holdings (distribute_fees fees validator now cm).1
unfolding holdings
unbacked fees validator now cm free =
    rw
      (
        distribute_fees_lem fees validator now cm free,
        sum-credit validator (validator_share fees)
            (opened validator (some (pos 0)) now cm.accounts)
            (contains-opened_stake validator now cm.accounts),
        sum-opened_stake,
      )
      (omega int_laws)

-- The account of an address, or the one that is made for it.
abbrev pub account_or_new : String → String → CurrencyManager → Account
account_or_new address now cm = elim (lookup address cm.accounts) [
  | none ↦ fresh_account address (some (pos 0)) now
  | some a ↦ a
]

lookup-credited :
    (x : ℤ) (validator now who : String) (cm : CurrencyManager)
    → lookup who (adjust validator (credit x) (opened validator (some (pos 0)) now cm.accounts)) ≡ (
        if str_eq validator who
        then some (credit x (account_or_new validator now cm))
        else lookup who cm.accounts)
unfolding opened
lookup-credited x validator now who cm = ground (
  arith,
  eq_iff validator who,
  eq_iff validator validator,
  lookup-adjust validator who (credit x) (opened validator (some (pos 0)) now cm.accounts),
  lookup-insert validator who (fresh_account validator (some (pos 0)) now) cm.accounts,
)

-- With the lock free, `DistributeFees` succeeds and gives the lock back. The validator, whose
-- account is made if there is none, is credited seventy hundredths of the fees, rounded down, and
-- the rest goes off the supply; no other account changes, so that nobody is debited, and the
-- holdings run ahead of the supply by exactly the fees.
pub distribute_fees_unbacked :
    (fees : ℤ) (validator now : String) (cm : CurrencyManager)
    → cm.mutex ≡ false
    → let (r, cm') = distribute_fees fees validator now cm in
      let share = div_ℤ (fees *ℤ pos 70) 100 in
      (r ≡ ok tt)
      × (cm'.mutex ≡ false)
      × (cm'.total_supply ≡ cm.total_supply -ℤ (fees -ℤ share))
      × ((who : String)
          → lookup who cm'.accounts ≡ (
              if str_eq validator who
              then some (credit share (account_or_new validator now cm))
              else lookup who cm.accounts))
      × (cm'.total_supply +ℤ holdings cm +ℤ fees ≡ cm.total_supply +ℤ holdings cm')
unfolding validator_share
distribute_fees_unbacked fees validator now cm free =
    let e = distribute_fees_lem fees validator now cm free in
    (
      ap (λ q. q.0) e,
      ap (λ q. q.1.mutex) e,
      ap (λ q. q.1.total_supply) e,
      λ who.
          ap (λ q. lookup who q.1.accounts) e
          ∙ lookup-credited (validator_share fees) validator now who cm,
      unbacked fees validator now cm free,
    )
