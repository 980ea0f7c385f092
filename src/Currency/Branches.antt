-- ===== src/Currency/Branches.antt =====
-- When the other methods succeed, with what result, and that they move nothing otherwise.
use tc_node_validator_go.Base.{
  String, ◌≡◌, ◌≢◌, Bool, true, false, not, ◌&&◌, Option, Option-cases, Bool-cases, ◌⊎◌, inl, inr,
  none, some, ℤ, pos, ◌+ℤ◌, ◌-ℤ◌, leb_ℤ, ltb_ℤ, Dict, lookup, after-eq, adjust, insert, ok, arith,
}
use tc_node_validator_go.Currency.State.{Account, CurrencyManager}
use tc_node_validator_go.Currency.Lock.{with_lock, credit, debit, touch}
use tc_node_validator_go.Currency.Manager.{
  fresh_account, create_account, mint_tokens, burn_tokens, burn_amount, get_account, create_unless,
  distribute_fees, validator_share,
}
use tc_node_validator_go.Currency.Staking.{
  stake_tokens, unstake_tokens, add_stake, sub_stake, lacks_stake,
}
use tc_node_validator_go.Currency.Transfer.{SameFunds}

-- The accounts with one added for an address that has none.
unfoldable pub opened : String → Option ℤ → String → Dict Account → Dict Account
opened k stake now m = elim (lookup k m) [
  | none ↦ insert k (fresh_account k stake now) m
  | some a ↦ m
]

unfoldable pub minted : String → ℤ → String → Dict Account → Dict Account
minted to amount now m = adjust to (touch now) (adjust to (credit amount) (opened to none now m))

module _ (to : String) (amount : ℤ) (now : String) (cm : CurrencyManager) where
  pub mint_allowed :
      cm.mutex ≡ false
      → leb_ℤ amount (pos 0) ≡ false
      → mint_tokens to amount now cm ≡ (
        ok tt,
        record cm {
          accounts = minted to amount now cm.accounts;
          total_supply = cm.total_supply +ℤ amount;
          mutex = false;
        },
      )
  unfolding mint_tokens minted opened
  mint_allowed free h = ground arith

  pub mint_refused :
      (not cm.mutex && not (leb_ℤ amount (pos 0))) ≡ false
      → SameFunds cm (mint_tokens to amount now cm).1 × ((mint_tokens to amount now cm).0 ≢ ok tt)
  unfolding mint_tokens
  mint_refused h = ground arith

-- The account that burns exists and holds what is burned.
abbrev pub can_burn : ℤ → Option Account → Bool
can_burn amount none = false
can_burn amount (some a) = not (ltb_ℤ a.balance (burn_amount a.balance amount))

module _ (from : String) (amount : ℤ) (now : String) (cm : CurrencyManager) where
  pub burn_allowed :
      (a : Account)
      → cm.mutex ≡ false
      → lookup from cm.accounts ≡ some a
      → ltb_ℤ a.balance (burn_amount a.balance amount) ≡ false
      → burn_tokens from amount now cm ≡ (
        ok (burn_amount a.balance amount),
        record cm {
          accounts =
              adjust from
                (touch now)
                (adjust from (debit (burn_amount a.balance amount)) cm.accounts);
          total_supply = cm.total_supply -ℤ burn_amount a.balance amount;
          mutex = false;
        },
      )
  unfolding burn_tokens
  burn_allowed a free found covered = ground arith

  pub burn_refused :
      (not cm.mutex && can_burn amount (lookup from cm.accounts)) ≡ false
      → SameFunds cm (burn_tokens from amount now cm).1
  unfolding burn_tokens
  burn_refused h = ground arith

-- The account that stakes exists and holds the amount.
abbrev can_stake : ℤ → Option Account → Bool
can_stake amount none = false
can_stake amount (some a) = not (ltb_ℤ a.balance amount)

abbrev can_unstake : ℤ → Option Account → Bool
can_unstake amount none = false
can_unstake amount (some a) = not (lacks_stake amount a.stake)

module _ (address : String) (amount : ℤ) (now : String) (cm : CurrencyManager) where
  unfoldable pub stake_ready : Bool
  stake_ready =
      not cm.mutex && not (leb_ℤ amount (pos 0)) && can_stake amount (lookup address cm.accounts)

  unfoldable pub unstake_ready : Bool
  unstake_ready =
      not cm.mutex && not (leb_ℤ amount (pos 0)) && can_unstake amount (lookup address cm.accounts)

  pub stake_allowed :
      stake_ready ≡ true
      → stake_tokens address amount now cm ≡ (
        ok tt,
        record cm {
          accounts =
              adjust address
                (touch now)
                (adjust address (add_stake amount) (adjust address (debit amount) cm.accounts));
          mutex = false;
        },
      )
  unfolding stake_tokens stake_ready
  stake_allowed h = ground arith

  pub stake_refused :
      stake_ready ≡ false
      → SameFunds cm (stake_tokens address amount now cm).1
        × ((stake_tokens address amount now cm).0 ≢ ok tt)
  unfolding stake_tokens stake_ready
  stake_refused h = ground arith

  pub unstake_allowed :
      unstake_ready ≡ true
      → unstake_tokens address amount now cm ≡ (
        ok tt,
        record cm {
          accounts =
              adjust address
                (touch now)
                (adjust address (credit amount) (adjust address (sub_stake amount) cm.accounts));
          mutex = false;
        },
      )
  unfolding unstake_tokens unstake_ready
  unstake_allowed h = ground arith

  pub unstake_refused :
      unstake_ready ≡ false
      → SameFunds cm (unstake_tokens address amount now cm).1
        × ((unstake_tokens address amount now cm).0 ≢ ok tt)
  unfolding unstake_tokens unstake_ready
  unstake_refused h = ground arith

-- `CreateAccount` opens the account if it is missing, or waits for the lock and changes nothing.
pub create_account-cases :
    (k now : String) (cm : CurrencyManager)
    → ((create_account k now cm).1
        ≡ record cm { accounts = opened k (some (pos 0)) now cm.accounts; mutex = false })
      ⊎ ((create_account k now cm).1 ≡ cm)
unfolding create_account opened
create_account-cases k now cm = elim (Bool-cases cm.mutex) [
  | inl held ↦ inr (ground arith)
  | inr free ↦ inl (ground arith)
]

-- The account that `GetAccount` returns.
unfoldable opened_account : String → String → Dict Account → Account
opened_account k now m = elim (lookup k m) [
  | none ↦ fresh_account k (some (pos 0)) now
  | some a ↦ a
]

-- `GetAccount` with the lock free opens the account if it is missing.
get_account_lem :
    (k now : String) (cm : CurrencyManager)
    → cm.mutex ≡ false
    → get_account k now cm ≡ (
      ok (opened_account k now cm.accounts),
      record cm { accounts = opened k (some (pos 0)) now cm.accounts; mutex = false },
    )
unfolding get_account opened opened_account
get_account_lem k now cm free = elim (Option-cases (lookup k cm.accounts)) [
  | inl e ↦ rw (free, get_account, with_lock, e, create_unless, opened, opened_account) (rw e)
  | inr (a, e) ↦ rw (free, get_account, with_lock, e, create_unless, opened, opened_account)
]

-- With the lock free `DistributeFees` always succeeds.
pub distribute_fees_lem :
    (fees : ℤ) (validator now : String) (cm : CurrencyManager)
    → cm.mutex ≡ false
    → distribute_fees fees validator now cm ≡ (
      ok tt,
      record cm {
        accounts =
            adjust validator
              (credit (validator_share fees))
              (opened validator (some (pos 0)) now cm.accounts);
        total_supply = cm.total_supply -ℤ (fees -ℤ validator_share fees);
        mutex = false;
      },
    )
unfolding distribute_fees
distribute_fees_lem fees validator now cm free = after-eq _ (get_account_lem validator now cm free)
