-- ===== src/Currency/Conservation.antt =====
-- Each method against the holdings: which ones keep the supply equal to what is held.
use tc_node_validator_go.Base.{
  String, ◌≡◌, refl, ◌∙◌, inl, inr, true, false, not, ◌&&◌, none, some, Bool-cases, Option-cases, ℤ,
  pos, ◌+ℤ◌, ◌-ℤ◌, leb_ℤ, int_laws, Dict, lookup, contains, adjust, insert, sum_by,
  sum_by-insert_new, sum_by-adjust_shift, lookup-insert, contains-adjust, arith, eq_iff,
}
use tc_node_validator_go.Currency.State.{Account, CurrencyManager}
use tc_node_validator_go.Currency.Lock.{credit, debit, touch}
use tc_node_validator_go.Currency.Manager.{
  fresh_account, create_account, transfer_funds, mint_tokens, burn_tokens, burn_amount,
}
use tc_node_validator_go.Currency.Staking.{stake_tokens, unstake_tokens, add_stake, sub_stake}
use tc_node_validator_go.Currency.Branches.{
  opened, minted, mint_allowed, mint_refused, burn_allowed, burn_refused, can_burn, stake_ready,
  stake_allowed, stake_refused, unstake_ready, unstake_allowed, unstake_refused,
  create_account-cases,
}
use tc_node_validator_go.Currency.Solvency.{
  worth, holdings, Conserves, sum-credit, sum-debit, sum-touch,
}
use tc_node_validator_go.Currency.Transfer.{
  SameFunds, allowed, transfer_allowed, transfer_refused, transferred, sum-transferred,
  allowed_parts,
}

SameFunds-Conserves : (cm cm' : CurrencyManager) → SameFunds cm cm' → Conserves cm cm'
unfolding holdings
SameFunds-Conserves cm cm' h = ground arith

-- A call that shifts the supply and the sum over the accounts by the same amount.
shift-Conserves :
    (cm : CurrencyManager) (m : Dict Account) (s d : ℤ)
    → sum_by worth m ≡ sum_by worth cm.accounts +ℤ d
    → s ≡ cm.total_supply +ℤ d
    → Conserves cm (record cm { accounts = m; total_supply = s; mutex = false })
unfolding holdings
shift-Conserves cm m s d h k = rw (h, k) (omega int_laws)

-- A transfer, however it ends, leaves the supply and the holdings in step.
pub transfer-Conserves :
    (from to : String) (amount : ℤ) (now : String) (cm : CurrencyManager)
    → Conserves cm (transfer_funds from to amount now cm).1
transfer-Conserves from to amount now cm = elim (Bool-cases (allowed from to amount cm)) [
  | inl e ↦
      let p = allowed_parts from to amount now cm e in
      rw (transfer_allowed from to amount now cm e) (
        shift-Conserves cm (transferred from to amount now cm.accounts) cm.total_supply (pos 0)
          (grind (int_laws, sum-transferred from to amount now cm cm.accounts p.0 p.1))
          (omega int_laws))
  | inr e ↦ SameFunds-Conserves _ _ (transfer_refused from to amount now cm e).0
]

sum-create :
    (k : String) (a : Account) (m : Dict Account)
    → lookup k m ≡ none
    → worth a ≡ pos 0
    → sum_by worth (insert k a m) ≡ sum_by worth m
sum-create k a m h w = rw (sum_by-insert_new worth k a m h, w) (omega int_laws)

sum-opened :
    (k now : String) (m : Dict Account) → sum_by worth (opened k none now m) ≡ sum_by worth m
unfolding opened
sum-opened k now m = elim (Option-cases (lookup k m)) [
  | inl e ↦ rw (e, opened) (sum-create k (fresh_account k none now) m e (omega int_laws))
  | inr (a, e) ↦ rw (e, opened)
]

pub contains-opened_stake :
    (k now : String) (m : Dict Account) → contains k (opened k (some (pos 0)) now m) ≡ true
unfolding opened
contains-opened_stake k now m =
    ground (arith, lookup-insert k k (fresh_account k (some (pos 0)) now) m, eq_iff k k)

contains-opened : (k now : String) (m : Dict Account) → contains k (opened k none now m) ≡ true
unfolding opened
contains-opened k now m = ground (arith, lookup-insert k k (fresh_account k none now) m, eq_iff k k)

sum-minted :
    (to : String) (amount : ℤ) (now : String) (m : Dict Account)
    → sum_by worth (minted to amount now m) ≡ sum_by worth m +ℤ amount
unfolding minted
sum-minted to amount now m =
    simp sum-touch
      (rw (sum-credit to amount (opened to none now m) (contains-opened to now m), sum-opened))

-- Minting raises the supply by exactly what it credits.
pub mint-Conserves :
    (to : String) (amount : ℤ) (now : String) (cm : CurrencyManager)
    → Conserves cm (mint_tokens to amount now cm).1
mint-Conserves to amount now cm = elim (Bool-cases (not cm.mutex && not (leb_ℤ amount (pos 0)))) [
  | inl e ↦ rw (mint_allowed to amount now cm (ground arith) (ground arith)) (
      shift-Conserves cm (minted to amount now cm.accounts) (cm.total_supply +ℤ amount) amount
        (sum-minted to amount now cm.accounts) refl)
  | inr e ↦ SameFunds-Conserves _ _ (mint_refused to amount now cm e).0
]

sum-burned :
    (k : String) (x : ℤ) (now : String) (m : Dict Account)
    → contains k m ≡ true
    → sum_by worth (adjust k (touch now) (adjust k (debit x) m)) ≡ sum_by worth m +ℤ (pos 0 -ℤ x)
sum-burned k x now m h = rw (sum-touch, sum-debit k x m h)

-- Burning lowers the supply by exactly what it debits, also when the cap replaces the amount.
pub burn-Conserves :
    (from : String) (amount : ℤ) (now : String) (cm : CurrencyManager)
    → Conserves cm (burn_tokens from amount now cm).1
burn-Conserves from amount now cm =
    elim (Bool-cases (not cm.mutex && can_burn amount (lookup from cm.accounts))) [
      | inr e ↦ SameFunds-Conserves _ _ (burn_refused from amount now cm e)
      | inl e ↦ elim (Option-cases (lookup from cm.accounts)) [
        | inl missing ↦ absurd (ground arith)
        | inr (a, found) ↦
            let x = burn_amount a.balance amount in
            rw (burn_allowed from amount now cm a (ground arith) found (ground arith)) (
              shift-Conserves cm _ (cm.total_supply -ℤ x) (pos 0 -ℤ x)
                (sum-burned from x now cm.accounts (ground arith)) (omega int_laws))
      ]
    ]

worth-add_stake : (x : ℤ) (a : Account) → worth (add_stake x a) ≡ worth a +ℤ x
worth-add_stake x a = omega int_laws

worth-sub_stake : (x : ℤ) (a : Account) → worth (sub_stake x a) ≡ worth a +ℤ (pos 0 -ℤ x)
worth-sub_stake x a = omega int_laws

sum-staked :
    (k : String) (x : ℤ) (now : String) (m : Dict Account)
    → contains k m ≡ true
    → sum_by worth (adjust k (touch now) (adjust k (add_stake x) (adjust k (debit x) m)))
      ≡ sum_by worth m +ℤ pos 0
sum-staked k x now m h =
    rw
      (
        sum-touch,
        sum_by-adjust_shift worth k (add_stake x) x (adjust k (debit x) m) (worth-add_stake x)
            (contains-adjust k k (debit x) m ∙ h),
        sum-debit k x m h,
      )
      (omega int_laws)

sum-unstaked :
    (k : String) (x : ℤ) (now : String) (m : Dict Account)
    → contains k m ≡ true
    → sum_by worth (adjust k (touch now) (adjust k (credit x) (adjust k (sub_stake x) m)))
      ≡ sum_by worth m +ℤ pos 0
sum-unstaked k x now m h =
    rw
      (
        sum-touch,
        sum-credit k x (adjust k (sub_stake x) m) (contains-adjust k k (sub_stake x) m ∙ h),
        sum_by-adjust_shift worth k (sub_stake x) (pos 0 -ℤ x) m (worth-sub_stake x) h,
      )
      (omega int_laws)

module _ (address : String) (amount : ℤ) (now : String) (cm : CurrencyManager) where
  stake_ready_found : stake_ready address amount now cm ≡ true → contains address cm.accounts ≡ true
  unfolding stake_ready
  stake_ready_found h = ground arith

  unstake_ready_found :
      unstake_ready address amount now cm ≡ true → contains address cm.accounts ≡ true
  unfolding unstake_ready
  unstake_ready_found h = ground arith

  -- Staking moves funds within an account.
  pub stake-Conserves : Conserves cm (stake_tokens address amount now cm).1
  stake-Conserves = elim (Bool-cases (stake_ready address amount now cm)) [
    | inl e ↦ rw (stake_allowed address amount now cm e) (
        shift-Conserves cm _ cm.total_supply (pos 0)
          (sum-staked address amount now cm.accounts (stake_ready_found e)) (omega int_laws))
    | inr e ↦ SameFunds-Conserves _ _ (stake_refused address amount now cm e).0
  ]

  pub unstake-Conserves : Conserves cm (unstake_tokens address amount now cm).1
  unstake-Conserves = elim (Bool-cases (unstake_ready address amount now cm)) [
    | inl e ↦ rw (unstake_allowed address amount now cm e) (
        shift-Conserves cm _ cm.total_supply (pos 0)
          (sum-unstaked address amount now cm.accounts (unstake_ready_found e)) (omega int_laws))
    | inr e ↦ SameFunds-Conserves _ _ (unstake_refused address amount now cm e).0
  ]

-- The accounts after `CreateAccount`, `GetAccount`.
pub sum-opened_stake :
    (k now : String) (m : Dict Account)
    → sum_by worth (opened k (some (pos 0)) now m) ≡ sum_by worth m
unfolding opened
sum-opened_stake k now m = elim (Option-cases (lookup k m)) [
  | inl e ↦ rw (e, opened) (sum-create k (fresh_account k (some (pos 0)) now) m e (omega int_laws))
  | inr (a, e) ↦ rw (e, opened)
]

pub create-Conserves :
    (k now : String) (cm : CurrencyManager) → Conserves cm (create_account k now cm).1
create-Conserves k now cm = elim (create_account-cases k now cm) [
  | inl e ↦ rw e (
      shift-Conserves cm (opened k (some (pos 0)) now cm.accounts) cm.total_supply (pos 0)
        (rw sum-opened_stake (omega int_laws)) (omega int_laws))
  | inr e ↦ rw e
]
