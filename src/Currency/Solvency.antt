-- ===== src/Currency/Solvency.antt =====
-- What a manager holds against what it says its supply is, and that no account is overdrawn.
use tc_node_validator_go.Base.{
  String, ◌≡◌, refl, true, ℤ, pos, ◌+ℤ◌, ◌-ℤ◌, ◌≤ℤ◌, int_laws, Dict, contains, adjust, sum_by,
  sum_by-adjust_shift, sum_by-adjust_same, All,
}
use tc_node_validator_go.Currency.State.{Account, CurrencyManager}
use tc_node_validator_go.Currency.Lock.{credit, debit, touch, bump_nonce}
use tc_node_validator_go.Currency.Staking.{stake_value}

-- What an account owns: its balance and its stake.
abbrev pub worth : Account → ℤ
worth a = a.balance +ℤ stake_value a.stake

-- Everything that is held: by the accounts, and in reserve.
unfoldable pub holdings : CurrencyManager → ℤ
holdings cm = sum_by worth cm.accounts +ℤ cm.reserved_funds

-- The stated supply is what is held.
abbrev pub IsBacked : CurrencyManager → Type 0
IsBacked cm = cm.total_supply ≡ holdings cm

-- From `cm` to `cm'` the supply and the holdings have moved by the same amount.
abbrev pub Conserves : CurrencyManager → CurrencyManager → Type 0
Conserves cm cm' = cm'.total_supply +ℤ holdings cm ≡ cm.total_supply +ℤ holdings cm'

abbrev pub IsCovered : Account → Type 0
IsCovered a = (pos 0 ≤ℤ a.balance) × (pos 0 ≤ℤ stake_value a.stake)

-- No balance and no stake is negative.
abbrev pub IsSolvent : CurrencyManager → Type 0
IsSolvent cm = All IsCovered cm.accounts

worth-credit : (x : ℤ) (a : Account) → worth (credit x a) ≡ worth a +ℤ x
worth-credit x a = omega int_laws

worth-debit : (x : ℤ) (a : Account) → worth (debit x a) ≡ worth a +ℤ (pos 0 -ℤ x)
worth-debit x a = omega int_laws

pub sum-credit :
    (k : String) (x : ℤ) (m : Dict Account)
    → contains k m ≡ true
    → sum_by worth (adjust k (credit x) m) ≡ sum_by worth m +ℤ x
sum-credit k x m = sum_by-adjust_shift worth k (credit x) x m (worth-credit x)

pub sum-debit :
    (k : String) (x : ℤ) (m : Dict Account)
    → contains k m ≡ true
    → sum_by worth (adjust k (debit x) m) ≡ sum_by worth m +ℤ (pos 0 -ℤ x)
sum-debit k x m = sum_by-adjust_shift worth k (debit x) (pos 0 -ℤ x) m (worth-debit x)

pub sum-touch :
    (k now : String) (m : Dict Account) → sum_by worth (adjust k (touch now) m) ≡ sum_by worth m
sum-touch k now m = sum_by-adjust_same worth k (touch now) m (λ a. refl)

pub sum-bump_nonce :
    (k : String) (m : Dict Account) → sum_by worth (adjust k bump_nonce m) ≡ sum_by worth m
sum-bump_nonce k m = sum_by-adjust_same worth k bump_nonce m (λ a. refl)
