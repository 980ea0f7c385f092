-- ===== src/Currency/Covered.antt =====
-- No method drives a balance or a stake below zero.
use tc_node_validator_go.Base.{
  String, ◌≡◌, inl, inr, false, not, ◌&&◌, none, some, Bool-cases, Option, Option-cases, ℤ, pos,
  ◌-ℤ◌, ◌≤ℤ◌, leb_ℤ, int_laws, Dict, lookup, adjust, All, All-insert, All-adjust, arith,
}
use tc_node_validator_go.Currency.State.{Account, CurrencyManager}
use tc_node_validator_go.Currency.Lock.{credit, debit, touch, bump_nonce}
use tc_node_validator_go.Currency.Manager.{
  fresh_account, transfer_funds, mint_tokens, burn_tokens, burn_amount, create_account,
}
use tc_node_validator_go.Currency.Staking.{
  stake_value, stake_tokens, unstake_tokens, add_stake, sub_stake, lacks_stake,
}
use tc_node_validator_go.Currency.Branches.{
  opened, minted, mint_allowed, mint_refused, burn_allowed, burn_refused, can_burn, stake_ready,
  stake_allowed, stake_refused, unstake_ready, unstake_allowed, unstake_refused,
  create_account-cases,
}
use tc_node_validator_go.Currency.Solvency.{IsCovered, IsSolvent}
use tc_node_validator_go.Currency.Transfer.{
  SameFunds, allowed, transfer_allowed, transfer_refused, transferred,
}

SameFunds-IsSolvent : (cm cm' : CurrencyManager) → SameFunds cm cm' → IsSolvent cm → IsSolvent cm'
SameFunds-IsSolvent cm cm' h s = rw (h.0) s

All-touch :
    (k now : String) (m : Dict Account) → All IsCovered m → All IsCovered (adjust k (touch now) m)
All-touch k now m = All-adjust IsCovered k (touch now) m (λ a e c. c)

All-credit :
    (k : String) (x : ℤ) (m : Dict Account)
    → pos 0 ≤ℤ x
    → All IsCovered m
    → All IsCovered (adjust k (credit x) m)
All-credit k x m h = All-adjust IsCovered k (credit x) m (λ a e c. (omega int_laws, c.1))

-- A debit that the account covers.
All-debit :
    (k : String) (x : ℤ) (a : Account) (m : Dict Account)
    → lookup k m ≡ some a
    → x ≤ℤ a.balance
    → All IsCovered m
    → All IsCovered (adjust k (debit x) m)
All-debit k x a m found h =
    All-adjust IsCovered k (debit x) m (λ b e c. (debited x a b (ground (arith, found, e)) h, c.1))
  where
    debited : (x : ℤ) (a b : Account) → b ≡ a → x ≤ℤ a.balance → pos 0 ≤ℤ (b.balance -ℤ x)
    debited x a b e h = rw e (omega int_laws)

-- A transfer, however it ends, leaves every balance and stake at zero or above.
pub transfer-IsSolvent :
    (from to : String) (amount : ℤ) (now : String) (cm : CurrencyManager)
    → IsSolvent cm
    → IsSolvent (transfer_funds from to amount now cm).1
unfolding transferred allowed
transfer-IsSolvent from to amount now cm s = elim (Bool-cases (allowed from to amount cm)) [
  | inr e ↦
      SameFunds-IsSolvent cm (transfer_funds from to amount now cm).1
        (transfer_refused from to amount now cm e).0 s
  | inl e ↦ elim (Option-cases (lookup from cm.accounts)) [
    | inl missing ↦ absurd (ground arith)
    | inr (a, found) ↦ rw (transfer_allowed from to amount now cm e) (
        All-adjust IsCovered from bump_nonce _ (λ b p c. c)
          (All-touch to now _ (
            All-touch from now _ (
              All-credit to amount _ (ground arith)
                (All-debit from amount a cm.accounts found (ground arith) s)))))
  ]
]

opened-All :
    (k : String) (stake : Option ℤ) (now : String) (m : Dict Account)
    → pos 0 ≤ℤ stake_value stake
    → All IsCovered m
    → All IsCovered (opened k stake now m)
unfolding opened
opened-All k stake now m h s = elim (Option-cases (lookup k m)) [
  | inl e ↦ rw (e, opened) (All-insert IsCovered k (fresh_account k stake now) m (omega arith, h) s)
  | inr (a, e) ↦ rw (e, opened) s
]

pub mint-IsSolvent :
    (to : String) (amount : ℤ) (now : String) (cm : CurrencyManager)
    → IsSolvent cm
    → IsSolvent (mint_tokens to amount now cm).1
unfolding minted
mint-IsSolvent to amount now cm s = elim (Bool-cases (not cm.mutex && not (leb_ℤ amount (pos 0)))) [
  | inl e ↦ rw (mint_allowed to amount now cm (ground arith) (ground arith)) (
      All-touch to now _ (
        All-credit to amount _ (ground arith) (opened-All to none now cm.accounts (omega arith) s)))
  | inr e ↦
      SameFunds-IsSolvent cm (mint_tokens to amount now cm).1 (mint_refused to amount now cm e).0 s
]

pub burn-IsSolvent :
    (from : String) (amount : ℤ) (now : String) (cm : CurrencyManager)
    → IsSolvent cm
    → IsSolvent (burn_tokens from amount now cm).1
burn-IsSolvent from amount now cm s =
    elim (Bool-cases (not cm.mutex && can_burn amount (lookup from cm.accounts))) [
      | inr e ↦
          SameFunds-IsSolvent cm (burn_tokens from amount now cm).1
            (burn_refused from amount now cm e) s
      | inl e ↦ elim (Option-cases (lookup from cm.accounts)) [
        | inl missing ↦ absurd (ground arith)
        | inr (a, found) ↦
            rw (burn_allowed from amount now cm a (ground arith) found (ground arith)) (
              All-touch from now _ (
                All-debit from (burn_amount a.balance amount) a cm.accounts found (ground arith) s))
      ]
    ]

add_stake-IsCovered : (x : ℤ) (a : Account) → pos 0 ≤ℤ x → IsCovered a → IsCovered (add_stake x a)
add_stake-IsCovered x a h c = (c.0, omega int_laws)

sub_stake-IsCovered :
    (x : ℤ) (a : Account) → lacks_stake x a.stake ≡ false → IsCovered a → IsCovered (sub_stake x a)
sub_stake-IsCovered x a h c = (c.0, held a.stake h)
  where
    held : (s : Option ℤ) → lacks_stake x s ≡ false → pos 0 ≤ℤ (stake_value s -ℤ x)
    held none e = cc
    held (some t) e = let le : x ≤ℤ t = ground arith in omega int_laws

pub stake-IsSolvent :
    (k : String) (amount : ℤ) (now : String) (cm : CurrencyManager)
    → IsSolvent cm
    → IsSolvent (stake_tokens k amount now cm).1
unfolding stake_ready
stake-IsSolvent k amount now cm s = elim (Bool-cases (stake_ready k amount now cm)) [
  | inr e ↦
      SameFunds-IsSolvent cm (stake_tokens k amount now cm).1 (stake_refused k amount now cm e).0 s
  | inl e ↦ elim (Option-cases (lookup k cm.accounts)) [
    | inl missing ↦ absurd (ground arith)
    | inr (a, found) ↦ rw (stake_allowed k amount now cm e) (
        All-touch k now _ (
          All-adjust IsCovered k (add_stake amount) _
            (λ b p c. add_stake-IsCovered amount b (ground arith) c)
            (All-debit k amount a cm.accounts found (ground arith) s)))
  ]
]

pub unstake-IsSolvent :
    (k : String) (amount : ℤ) (now : String) (cm : CurrencyManager)
    → IsSolvent cm
    → IsSolvent (unstake_tokens k amount now cm).1
unfolding unstake_ready
unstake-IsSolvent k amount now cm s = elim (Bool-cases (unstake_ready k amount now cm)) [
  | inr e ↦
      SameFunds-IsSolvent cm (unstake_tokens k amount now cm).1
        (unstake_refused k amount now cm e).0 s
  | inl e ↦ rw (unstake_allowed k amount now cm e) (
      All-touch k now _ (
        All-credit k amount _ (ground arith) (
          All-adjust IsCovered k (sub_stake amount) cm.accounts
            (λ b p c. sub_stake-IsCovered amount b (ground (arith, p)) c) s)))
]

pub create-IsSolvent :
    (k now : String) (cm : CurrencyManager) → IsSolvent cm → IsSolvent (create_account k now cm).1
create-IsSolvent k now cm s = elim (create_account-cases k now cm) [
  | inl e ↦ rw e (opened-All k (some (pos 0)) now cm.accounts (omega arith) s)
  | inr e ↦ rw e s
]
