-- ===== src/Currency/Stakes.antt =====
-- Staking and unstaking the same amount.
use tc_node_validator_go.Base.{
  String, ◌≡◌, refl, ap, Bool, true, false, Option, none, some, ℤ, pos, ◌+ℤ◌, ◌-ℤ◌, ◌≤ℤ◌, ltb_ℤ,
  int_laws, Dict, lookup, adjust, lookup-adjust, if◌then◌else◌, ok, str_eq, eq_iff, arith,
}
use tc_node_validator_go.Currency.State.{Account, CurrencyManager}
use tc_node_validator_go.Currency.Lock.{credit, debit, touch}
use tc_node_validator_go.Currency.Staking.{
  stake_value, stake_tokens, unstake_tokens, add_stake, sub_stake,
}
use tc_node_validator_go.Currency.Branches.{
  stake_ready, stake_allowed, unstake_ready, unstake_allowed,
}

-- The four writes to an account, in turn.
abbrev staked : ℤ → String → Account → Account
staked amount now a = touch now (add_stake amount (debit amount a))

abbrev unstaked : ℤ → String → Account → Account
unstaked amount now a = touch now (credit amount (sub_stake amount a))

-- An account after its stake went up and down again: a nil stake has become a zero one.
abbrev pub restored : String → Account → Account
restored now a = record a { stake = some (stake_value a.stake); last_activity = now }

add_sub : (x y : ℤ) → (x +ℤ y) -ℤ y ≡ x
add_sub x y = omega int_laws

sub_add : (x y : ℤ) → (x -ℤ y) +ℤ y ≡ x
sub_add x y = omega int_laws

unstaked-staked :
    (amount : ℤ) (now later : String) (a : Account)
    → unstaked amount later (staked amount now a) ≡ restored later a
unstaked-staked amount now later a = rw (add_sub, sub_add)

-- A write to an account, if it is there and is the one that is meant.
abbrev changed : (Account → Account) → Bool → Option Account → Option Account
changed g hit none = none
changed g hit (some a) = some (if hit then g a else a)

lookup-thrice :
    (k who : String) (f g h : Account → Account) (m : Dict Account)
    → lookup who (adjust k h (adjust k g (adjust k f m)))
      ≡ changed (λ a. h (g (f a))) (str_eq k who) (lookup who m)
lookup-thrice k who f g h m = ground (
  arith,
  lookup-adjust k who f m,
  lookup-adjust k who g (adjust k f m),
  lookup-adjust k who h (adjust k g (adjust k f m)),
)

module _ (address : String) (amount : ℤ) (now later : String) (cm : CurrencyManager) where
  abbrev after_staking : CurrencyManager
  after_staking = record cm {
    accounts =
        adjust address (touch now)
          (adjust address (add_stake amount) (adjust address (debit amount) cm.accounts));
    mutex = false;
  }

  enough : (s : ℤ) → pos 0 ≤ℤ s → ltb_ℤ (s +ℤ amount) amount ≡ false
  enough s h = let le : amount ≤ℤ (s +ℤ amount) = omega int_laws in ground (arith, le)

  now_ready :
      (a : Account)
      → stake_ready address amount now cm ≡ true
      → lookup address cm.accounts ≡ some a
      → pos 0 ≤ℤ stake_value a.stake
      → unstake_ready address amount later after_staking ≡ true
  unfolding unstake_ready stake_ready
  now_ready a ready found covered =
      let held = enough (stake_value a.stake) covered in
      ground (
        arith,
        held,
        lookup-thrice address address (debit amount) (add_stake amount) (touch now) cm.accounts,
        eq_iff address address,
      )

  taken_back :
      (who : String)
      → lookup who (
          adjust address (touch later) (
            adjust address
              (credit amount)
              (adjust address (sub_stake amount) after_staking.accounts)))
        ≡ elim (lookup who cm.accounts) [
          | none ↦ none
          | some b ↦ some (if str_eq address who then restored later b else b)
        ]
  taken_back who =
      rw
        (
          lookup-thrice address who (sub_stake amount) (credit amount) (touch later)
              after_staking.accounts,
          lookup-thrice address who (debit amount) (add_stake amount) (touch now) cm.accounts,
        )
        (both (lookup who cm.accounts) (str_eq address who))
    where
      both :
          (o : Option Account) (hit : Bool)
          → changed (unstaked amount later) hit (changed (staked amount now) hit o)
            ≡ elim o [ none ↦ none | some b ↦ some (if hit then restored later b else b) ]
      both none hit = refl
      both (some a) true = ap some (unstaked-staked amount now later a)
      both (some a) false = refl

  -- An account that can stake an amount, and whose stake is not negative, can take it back from the
  -- stake at once: both calls succeed, the balance and the stake are what they were (a nil stake has
  -- become zero), and no other account, not the supply and not the reserve have changed.
  pub unstake_tokens-stake_tokens :
      (a : Account)
      → stake_ready address amount now cm ≡ true
      → lookup address cm.accounts ≡ some a
      → pos 0 ≤ℤ stake_value a.stake
      → let (r, cm') = stake_tokens address amount now cm in
        let (r', cm'') = unstake_tokens address amount later cm' in
        (r ≡ ok tt)
        × (r' ≡ ok tt)
        × (cm''.total_supply ≡ cm.total_supply)
        × (cm''.reserved_funds ≡ cm.reserved_funds)
        × ((who : String)
            → lookup who cm''.accounts ≡ elim (lookup who cm.accounts) [
              | none ↦ none
              | some b ↦ some (if str_eq address who then restored later b else b)
            ])
  unstake_tokens-stake_tokens a ready found covered =
      rw
        (
          stake_allowed address amount now cm ready,
          unstake_allowed address amount later after_staking (now_ready a ready found covered),
        )
        (refl, refl, refl, refl, taken_back)
