-- ===== src/Dpos/Validators.antt =====
-- consensus/dpos.go: the validators and the bans that `DPoS` keeps beside the delegates, and
-- slashing. `order` is the order in which a map is read.
use tc_node_validator_go.Base.{
  ℕ, ◌+◌, ◌*◌, ◌^◌, String, Bool, true, false, Option, none, some, List, [], ◌∷◌, ◌++◌, ℤ, pos,
  ◌-ℤ◌, leb_ℤ, ltb_ℤ, str_eq, if◌then◌else◌, Dict, lookup, insert, erase, adjust, FloatOps, Action,
  Outcome, ok, err, panic, deadlock,
}
use tc_node_validator_go.Currency.State.{CurrencyManager, CurrencyError, minimum_stake}
use tc_node_validator_go.Currency.Manager.{burn_tokens}
use tc_node_validator_go.Currency.Staking.{get_stake, stake_value}
use tc_node_validator_go.Currency.Text.{Bytes, new_balance_from_string}
use tc_node_validator_go.Dpos.State.{DelegateInfo, Dpos, new_dpos}
use tc_node_validator_go.Dpos.Delegates.{remove_first}
use tc_node_validator_go.Dpos.Schedule.{update_active_delegates}

-- A rehabilitation that a timer will run: whose, what was burned, and whether the stake that it
-- points to is the account's or a 0 of its own.
pub record Reinstatement : Type 0 where
  pub address : String
  pub burned : ℤ
  pub shared : Bool

-- The fields that only these methods use. A nil stake is `none`; a ban ends at a time in
-- nanoseconds.
pub record ValidatorSet (F : Type 0) : Type 0 where
  pub dpos : Dpos F
  pub currency_manager : Option CurrencyManager
  pub validators : Dict (Option ℤ)
  pub banned_validators : Dict ℕ
  pub reinstatements : List Reinstatement

pub record ValidatorInfo : Type 0 where
  pub address : String
  pub stake : Bytes

pub data SlashError : Type 0 where
  unknown_validator : String → SlashError
  burn_failed : CurrencyError → SlashError

abbrev pub Slash : Type 0 → Type 0
Slash F = Action (ValidatorSet F) SlashError (Unit {0})

-- `NewDPoS` makes no use of its argument: the currency manager stays nil.
unfoldable pub new_validator_set : {F : Type 0} → FloatOps F → CurrencyManager → ValidatorSet F
new_validator_set f currency = record {
  dpos = new_dpos f;
  currency_manager = none;
  validators = [];
  banned_validators = [];
  reinstatements = [];
}

-- The loop of `selectBlockProducer`; comparing a nil stake panics (`none`).
unfoldable pub select_from : ℤ → String → List (String × Option ℤ) → Option String
select_from max_stake selected [] = some selected
select_from max_stake selected ((address, none) ∷ rest) = none
select_from max_stake selected ((address, some stake) ∷ rest) =
    let higher = select_from stake address rest in
    let same = select_from max_stake selected rest in if ltb_ℤ max_stake stake then higher else same

-- The loop of `UpdateValidators`: what is no number in base 10 gives a nil stake.
unfoldable pub validators_from : List ValidatorInfo → Dict (Option ℤ) → Dict (Option ℤ)
validators_from [] m = m
validators_from (v ∷ vs) m =
    validators_from vs (insert v.address (new_balance_from_string v.stake) m)

-- The stake that the timer of a ban reads through its pointer.
abbrev pointed_stake : Reinstatement → Option CurrencyManager → ℤ
pointed_stake r none = pos 0
pointed_stake r (some cm) =
    if r.shared
    then elim (lookup r.address cm.accounts) [ none ↦ pos 0 | some a ↦ stake_value a.stake ]
    else pos 0

module _ {F : Type 0} where
  unfoldable pub select_block_producer :
      (Dict (Option ℤ) → List (String × Option ℤ)) → ValidatorSet F → Option String
  unfolding select_from
  select_block_producer order d = select_from (pos 0) "" (order d.validators)

  abbrev enter :
      String
      → ValidatorSet F
      → Outcome CurrencyError ℤ × CurrencyManager
      → Outcome SlashError (Unit {0}) × ValidatorSet F
  enter address d (ok stake, cm) = (
    ok tt,
    record d {
      currency_manager = some cm;
      validators =
          if leb_ℤ (pos minimum_stake) stake
          then insert address (some stake) d.validators
          else d.validators;
    },
  )
  enter address d (err e, cm) = (err (burn_failed e), record d { currency_manager = some cm })
  enter address d (panic, cm) = (panic, record d { currency_manager = some cm })
  enter address d (deadlock, cm) = (deadlock, record d { currency_manager = some cm })

  -- `GetStake` on a nil manager panics; it gives no error.
  unfoldable pub add_validator : String → Slash F
  add_validator address d = elim d.currency_manager [
    | none ↦ (panic, d)
    | some cm ↦ enter address d (get_stake address cm)
  ]

  -- What the timer of a ban does.
  unfoldable reinstate : Reinstatement → ValidatorSet F → ValidatorSet F
  reinstate r d = record d {
    banned_validators = erase r.address d.banned_validators;
    validators =
        insert r.address (some (pointed_stake r d.currency_manager -ℤ r.burned)) d.validators;
  }

abbrev pub has_stake : String → CurrencyManager → Bool
has_stake address cm = elim (lookup address cm.accounts) [
  | none ↦ false
  | some a ↦ elim a.stake [ none ↦ false | some s ↦ true ]
]

abbrev pub ban_duration : ℕ
ban_duration = 24 * 3600 * 10 ^ 9

module _ {F : Type 0} (f : FloatOps F) where
  open f use {sub, mul, lt, decimal, scale}

  unfoldable pub penalty_percentage : String → F
  penalty_percentage severity =
      if str_eq severity "severe"
      then decimal 3 1
      else if str_eq severity "critical"
      then decimal 5 1
      else decimal 1 1

  -- What an offence leaves of the reliability.
  unfoldable pub remaining_reliability : String → F → F
  remaining_reliability severity reliability =
      if str_eq severity "minor"
      then mul reliability (decimal 95 2)
      else if str_eq severity "severe"
      then mul reliability (decimal 80 2)
      else if str_eq severity "critical"
      then decimal 0 0
      else reliability

  abbrev pub set_reliability : F → DelegateInfo F → DelegateInfo F
  set_reliability reliability i = record i { reliability = reliability }

  abbrev pub penalized : F → DelegateInfo F → DelegateInfo F
  penalized penalty i = record i {
    stake = sub i.stake penalty;
    missed_blocks = i.missed_blocks + 1;
  }

  abbrev pub ban : String → ℤ → Bool → ℕ → ValidatorSet F → ValidatorSet F
  ban address burned shared clock d = record d {
    banned_validators = insert address (clock + ban_duration) d.banned_validators;
    validators = erase address d.validators;
    dpos = record d.dpos { active_delegates = remove_first address d.dpos.active_delegates };
    reinstatements =
        d.reinstatements ++ record { address = address; burned = burned; shared = shared } ∷ [];
  }

  -- `product` is the double nearest to a `big.Float` product.
  module _ (order : Dict (DelegateInfo F) → List (String × DelegateInfo F))
      (product : ℤ → F → F) where
    abbrev pub reelect : String → ValidatorSet F → ValidatorSet F
    reelect now d = record d { dpos = update_active_delegates f order now d.dpos }

    unfoldable pub update_validators : String → List ValidatorInfo → ValidatorSet F → ValidatorSet F
    update_validators now infos d = reelect now (record d { validators = validators_from infos [] })

    -- After `BurnTokens`, which leaves in the penalty what it burned.
    abbrev pub after_burn :
        String
        → F
        → F
        → Bool
        → ℕ
        → String
        → ValidatorSet F
        → Outcome CurrencyError ℤ × CurrencyManager
        → Outcome SlashError (Unit {0}) × ValidatorSet F
    after_burn address reliability penalty shared clock now d (ok burned, cm) =
        let paid = record d {
          currency_manager = some cm;
          dpos = record d.dpos { delegates = adjust address (penalized penalty) d.dpos.delegates };
        } in
        (
          ok tt,
          reelect now (
              if lt reliability (decimal 50 0) then ban address burned shared clock paid else paid),
        )
    after_burn address reliability penalty shared clock now d (err e, cm) =
        (err (burn_failed e), record d { currency_manager = some cm })
    after_burn address reliability penalty shared clock now d (panic, cm) =
        (panic, record d { currency_manager = some cm })
    after_burn address reliability penalty shared clock now d (deadlock, cm) =
        (deadlock, record d { currency_manager = some cm })

    -- After `GetStake`.
    abbrev pub after_stake :
        String
        → F
        → F
        → Bool
        → ℕ
        → String
        → ValidatorSet F
        → Outcome CurrencyError ℤ × CurrencyManager
        → Outcome SlashError (Unit {0}) × ValidatorSet F
    after_stake address reliability percentage shared clock now d (ok stake, cm) =
        elim (scale stake percentage) [
          | none ↦ (panic, record d { currency_manager = some cm })
          | some amount ↦
              after_burn address reliability (product stake percentage) shared clock now d
                (burn_tokens address amount now cm)
        ]
    after_stake address reliability percentage shared clock now d (err e, cm) =
        (err (burn_failed e), record d { currency_manager = some cm })
    after_stake address reliability percentage shared clock now d (panic, cm) =
        (panic, record d { currency_manager = some cm })
    after_stake address reliability percentage shared clock now d (deadlock, cm) =
        (deadlock, record d { currency_manager = some cm })

    abbrev pub slash_with : String → F → F → ℕ → String → Option CurrencyManager → Slash F
    slash_with address reliability percentage clock now none d = (panic, d)
    slash_with address reliability percentage clock now (some cm) d =
        after_stake address reliability percentage (has_stake address cm) clock now d
          (get_stake address cm)

    -- The reliability is written at once; the call on a nil manager then panics.
    abbrev pub slash_known : String → String → ℕ → String → Option (DelegateInfo F) → Slash F
    slash_known address severity clock now none d = (err (unknown_validator address), d)
    slash_known address severity clock now (some info) d =
        let reliability = remaining_reliability severity info.reliability in
        slash_with address reliability (penalty_percentage severity) clock now d.currency_manager
          (record d {
            dpos = record d.dpos {
              delegates = adjust address (set_reliability reliability) d.dpos.delegates;
            };
          })

    unfoldable pub slash_validator : String → String → ℕ → String → Slash F
    slash_validator address severity clock now d =
        slash_known address severity clock now (lookup address d.dpos.delegates) d
