-- ===== src/Currency/Transfer.antt =====
-- `TransferFunds` on every branch.
use tc_node_validator_go.Base.{
  String, ◌≡◌, ◌≢◌, refl, Bool, true, false, not, ◌&&◌, Option, none, some, ℤ, pos, ◌≤ℤ◌, ◌<ℤ◌,
  leb_ℤ, ltb_ℤ, int_laws, Dict, lookup, contains, adjust, sum_by, lookup-adjust, contains-adjust,
  ok, deadlock, arith, str_eq,
}
use tc_node_validator_go.Currency.State.{Account, CurrencyManager}
use tc_node_validator_go.Currency.Lock.{credit, debit, touch, bump_nonce}
use tc_node_validator_go.Currency.Manager.{transfer_funds}
use tc_node_validator_go.Currency.Solvency.{worth, sum-credit, sum-debit, sum-touch, sum-bump_nonce}

-- The accounts after a transfer that goes through.
unfoldable pub transferred : String → String → ℤ → String → Dict Account → Dict Account
transferred from to amount now m = adjust from bump_nonce (
    adjust to (touch now)
      (adjust from (touch now) (adjust to (credit amount) (adjust from (debit amount) m))))

-- What a transfer makes of one account, by whether it is the source and the destination.
abbrev pub settled : Bool → Bool → ℤ → String → Account → Account
settled true true amount now a = bump_nonce (touch now (credit amount (debit amount a)))
settled true false amount now a = bump_nonce (touch now (debit amount a))
settled false true amount now a = touch now (credit amount a)
settled false false amount now a = a

-- The source can pay: it exists, is not frozen and holds the amount.
abbrev pays : ℤ → Option Account → Bool
pays amount none = false
pays amount (some a) = not a.frozen && not (ltb_ℤ a.balance amount)

-- The lock is free, the amount positive, the source can pay and the destination exists.
unfoldable pub allowed : String → String → ℤ → CurrencyManager → Bool
allowed from to amount cm =
    not cm.mutex
    && not (leb_ℤ amount (pos 0))
    && pays amount (lookup from cm.accounts)
    && contains to cm.accounts

-- The funds of a manager: all but its lock.
abbrev pub SameFunds : CurrencyManager → CurrencyManager → Type 0
SameFunds cm cm' =
    (cm'.accounts ≡ cm.accounts)
    × (cm'.total_supply ≡ cm.total_supply)
    × (cm'.reserved_funds ≡ cm.reserved_funds)

module _ (from to : String) (amount : ℤ) (now : String) (cm : CurrencyManager) where
  pub transfer_allowed :
      allowed from to amount cm ≡ true
      → transfer_funds from to amount now cm ≡ (
        ok tt,
        record cm { accounts = transferred from to amount now cm.accounts; mutex = false },
      )
  unfolding transfer_funds transferred allowed
  transfer_allowed h = ground arith

  -- A transfer that is not allowed (the lock is held, the amount is not positive, the source cannot
  -- pay or the destination has no account) does not succeed, and changes no account, not the supply
  -- and not the reserve.
  pub transfer_refused :
      allowed from to amount cm ≡ false
      → SameFunds cm (transfer_funds from to amount now cm).1
        × ((transfer_funds from to amount now cm).0 ≢ ok tt)
  unfolding transfer_funds allowed
  transfer_refused h = ground arith

  lookup-transferred :
      (who : String) (m : Dict Account)
      → lookup who (transferred from to amount now m) ≡ elim (lookup who m) [
        | none ↦ none
        | some a ↦ some (settled (str_eq from who) (str_eq to who) amount now a)
      ]
  unfolding transferred
  lookup-transferred who m = ground (
    arith,
    lookup-adjust from who (debit amount) m,
    lookup-adjust to who (credit amount) (adjust from (debit amount) m),
    lookup-adjust from who (touch now) (adjust to (credit amount) (adjust from (debit amount) m)),
    lookup-adjust to who (touch now)
        (adjust from (touch now) (adjust to (credit amount) (adjust from (debit amount) m))),
    lookup-adjust from who bump_nonce (
        adjust to (touch now)
          (adjust from (touch now) (adjust to (credit amount) (adjust from (debit amount) m)))),
  )

  -- A transfer that is allowed (the lock is free, the amount positive, the source exists, is not
  -- frozen and holds the amount, and the destination exists) succeeds and gives the lock back.
  -- Account by account, the source pays the amount and counts a transaction, the destination
  -- receives it, a transfer to oneself moves nothing, and no other account changes; the supply and
  -- the reserve are as before.
  pub transfer_settles :
      allowed from to amount cm ≡ true
      → let (r, cm') = transfer_funds from to amount now cm in
        (r ≡ ok tt)
        × (cm'.mutex ≡ false)
        × (cm'.total_supply ≡ cm.total_supply)
        × (cm'.reserved_funds ≡ cm.reserved_funds)
        × ((who : String)
            → lookup who cm'.accounts ≡ elim (lookup who cm.accounts) [
              | none ↦ none
              | some a ↦ some (settled (str_eq from who) (str_eq to who) amount now a)
            ])
  transfer_settles h =
      rw (transfer_allowed h) (refl, refl, refl, refl, λ who. lookup-transferred who cm.accounts)

  pub sum-transferred :
      (m : Dict Account)
      → contains from m ≡ true
      → contains to m ≡ true
      → sum_by worth (transferred from to amount now m) ≡ sum_by worth m
  unfolding transferred
  sum-transferred m f t =
      simp (sum-bump_nonce, sum-touch)
        (grind (
          int_laws,
          sum-credit to amount (adjust from (debit amount) m),
          sum-debit from amount m,
          contains-adjust from to (debit amount) m,
        ))

  pub allowed_parts :
      allowed from to amount cm ≡ true
      → (contains from cm.accounts ≡ true)
        × (contains to cm.accounts ≡ true)
        × (pos 0 <ℤ amount)
        × (cm.mutex ≡ false)
  unfolding allowed
  allowed_parts h = ground arith

-- With the lock free, a positive transfer from an account that is not frozen and holds the amount,
-- to an address with no account, blocks: it asks for the lock that it holds. The lock stays taken
-- and nothing else has changed.
pub transfer_to_new_blocks :
    (from to : String) (amount : ℤ) (now : String) (cm : CurrencyManager) (a : Account)
    → cm.mutex ≡ false
    → pos 0 <ℤ amount
    → lookup from cm.accounts ≡ some a
    → a.frozen ≡ false
    → amount ≤ℤ a.balance
    → lookup to cm.accounts ≡ none
    → transfer_funds from to amount now cm ≡ (deadlock, record cm { mutex = true })
unfolding transfer_funds
transfer_to_new_blocks from to amount now cm a free positive found thawed covered missing =
    ground arith
