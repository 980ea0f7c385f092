-- ===== src/Dpos/Slashing.antt =====
-- What slashing does at a node, whose `DPoS` comes from `NewDPoS`.
use tc_node_validator_go.Base.{
  ℕ, ◌≡◌, ◌∙◌, ap, refl, ◌⊎◌, inl, inr, String, none, some, Option-cases, List, [], ◌∷◌, ℤ, str_eq,
  eq_iff, if◌then◌else◌, Dict, lookup, adjust, lookup-adjust, FloatOps, err, panic, arith,
}
use tc_node_validator_go.Currency.State.{CurrencyManager}
use tc_node_validator_go.Dpos.State.{DelegateInfo}
use tc_node_validator_go.Dpos.Schedule.{update_active_delegates}
use tc_node_validator_go.Dpos.Requests.{Request, serve_all}
use tc_node_validator_go.Dpos.Ticking.{run_ticks}
use tc_node_validator_go.Dpos.Founding.{initialize_dpos}
use tc_node_validator_go.Dpos.Validators.{
  ValidatorInfo, ValidatorSet, unknown_validator, new_validator_set, add_validator, slash_validator,
  update_validators, remaining_reliability, penalty_percentage, set_reliability, slash_known,
  slash_with,
}

-- A call of a method that changes a `DPoS`.
pub data Call (F : Type 0) : Type 0 where
  start : String → (String → ℕ × ℕ) → ℕ → String → Call F
  serve_requests : List (Request F) → Call F
  tick : List (ℕ × String) → Call F
  elect : String → Call F
  add : String → Call F
  slash : String → String → ℕ → String → Call F
  update : String → List ValidatorInfo → Call F

module _ {F : Type 0} (f : FloatOps F)
    (order : Dict (DelegateInfo F) → List (String × DelegateInfo F)) (product : ℤ → F → F) where
  unfoldable pub run_call : Call F → ValidatorSet F → ValidatorSet F
  run_call (start node draw clock now) d = record d {
    dpos = initialize_dpos f order node draw clock now d.dpos;
  }
  run_call (serve_requests rs) d = record d { dpos = (serve_all f rs d.dpos).1 }
  run_call (tick ticks) d = record d { dpos = (run_ticks f order ticks d.dpos).1 }
  run_call (elect now) d = record d { dpos = update_active_delegates f order now d.dpos }
  run_call (add address) d = (add_validator address d).1
  run_call (slash address severity clock now) d =
      (slash_validator f order product address severity clock now d).1
  run_call (update now infos) d = update_validators f order product now infos d

  unfoldable pub run_calls : List (Call F) → ValidatorSet F → ValidatorSet F
  run_calls [] d = d
  run_calls (call ∷ calls) d = run_calls calls (run_call call d)

  -- No manager, and so no ban and no timer.
  record IsUnmanaged (d : ValidatorSet F) : Type 0 where
    no_manager : d.currency_manager ≡ none
    no_bans : d.banned_validators ≡ []
    no_timers : d.reinstatements ≡ []

  slash-unknown :
      (address severity : String) (clock : ℕ) (now : String) (d : ValidatorSet F)
      → lookup address d.dpos.delegates ≡ none
      → slash_validator f order product address severity clock now d
        ≡ (err (unknown_validator address), d)
  unfolding slash_validator
  slash-unknown address severity clock now d e =
      ap (λ q. slash_known f order product address severity clock now q d) e

  -- The state with a lowered reliability.
  abbrev lowered : String → String → DelegateInfo F → ValidatorSet F → ValidatorSet F
  lowered address severity info d = record d {
    dpos = record d.dpos {
      delegates =
          adjust address (set_reliability f (remaining_reliability f severity info.reliability))
            d.dpos.delegates;
    };
  }

  slash-known :
      (address severity : String) (clock : ℕ) (now : String) (d : ValidatorSet F)
      (info : DelegateInfo F)
      → lookup address d.dpos.delegates ≡ some info
      → d.currency_manager ≡ none
      → slash_validator f order product address severity clock now d
        ≡ (panic, lowered address severity info d)
  unfolding slash_validator
  slash-known address severity clock now d info known unmanaged =
      ap (λ q. slash_known f order product address severity clock now q d) known
      ∙ ap
          (λ cm.
            slash_with f order product address (remaining_reliability f severity info.reliability)
              (penalty_percentage f severity) clock now cm (lowered address severity info d))
          unmanaged

  slash-IsUnmanaged :
      (address severity : String) (clock : ℕ) (now : String) (d : ValidatorSet F)
      → IsUnmanaged d
      → IsUnmanaged (slash_validator f order product address severity clock now d).1
  slash-IsUnmanaged address severity clock now d h =
      elim (Option-cases (lookup address d.dpos.delegates)) [
        | inl e ↦ rw (slash-unknown address severity clock now d e) h
        | inr (info, e) ↦
            rw (slash-known address severity clock now d info e h.no_manager)
              (record { no_manager = h.no_manager; no_bans = h.no_bans; no_timers = h.no_timers })
      ]

  add-unchanged :
      (address : String) (d : ValidatorSet F)
      → d.currency_manager ≡ none
      → (add_validator address d).1 ≡ d
  unfolding add_validator
  add-unchanged address d e = ground (arith, e)

  run_call-IsUnmanaged :
      (call : Call F) (d : ValidatorSet F) → IsUnmanaged d → IsUnmanaged (run_call call d)
  unfolding run_call update_validators
  run_call-IsUnmanaged (add address) d h = rw (add-unchanged address d h.no_manager) h
  run_call-IsUnmanaged (slash address severity clock now) d h =
      slash-IsUnmanaged address severity clock now d h
  run_call-IsUnmanaged (start node draw clock now) d h = record {
    no_manager = h.no_manager;
    no_bans = h.no_bans;
    no_timers = h.no_timers;
  }
  run_call-IsUnmanaged (serve_requests rs) d h = record {
    no_manager = h.no_manager;
    no_bans = h.no_bans;
    no_timers = h.no_timers;
  }
  run_call-IsUnmanaged (tick ticks) d h = record {
    no_manager = h.no_manager;
    no_bans = h.no_bans;
    no_timers = h.no_timers;
  }
  run_call-IsUnmanaged (elect now) d h = record {
    no_manager = h.no_manager;
    no_bans = h.no_bans;
    no_timers = h.no_timers;
  }
  run_call-IsUnmanaged (update now infos) d h = record {
    no_manager = h.no_manager;
    no_bans = h.no_bans;
    no_timers = h.no_timers;
  }

  run_calls-IsUnmanaged :
      (calls : List (Call F)) (d : ValidatorSet F) → IsUnmanaged d → IsUnmanaged (run_calls calls d)
  unfolding run_calls
  run_calls-IsUnmanaged [] d h = h
  run_calls-IsUnmanaged (call ∷ calls) d h =
      run_calls-IsUnmanaged calls (run_call call d) (run_call-IsUnmanaged call d h)

  new-IsUnmanaged : (currency : CurrencyManager) → IsUnmanaged (new_validator_set f currency)
  unfolding new_validator_set
  new-IsUnmanaged currency = record { no_manager = refl; no_bans = refl; no_timers = refl }

  lookup-lowered :
      (address severity name : String) (d : ValidatorSet F) (info : DelegateInfo F)
      → lookup address d.dpos.delegates ≡ some info
      → lookup name (lowered address severity info d).dpos.delegates ≡ (
          if str_eq address name
          then some
              (record info { reliability = remaining_reliability f severity info.reliability })
          else lookup name d.dpos.delegates)
  lookup-lowered address severity name d info e = ground (
    arith,
    e,
    eq_iff address name,
    lookup-adjust address name
        (set_reliability f (remaining_reliability f severity info.reliability)) d.dpos.delegates,
  )

  -- What each severity leaves of a reliability: 95 or 80 percent, nothing, or all of it.
  abbrev pub left_by : String → F → F
  left_by severity reliability =
      if str_eq severity "minor"
      then f.mul reliability (f.decimal 95 2)
      else if str_eq severity "severe"
      then f.mul reliability (f.decimal 80 2)
      else if str_eq severity "critical"
      then f.decimal 0 0
      else reliability

  -- How slashing ends without a manager: an unknown address is an error that changes nothing; for a
  -- delegate it panics, and the delegate's reliability is then what the severity leaves of it.
  abbrev pub Fails : String → String → ℕ → String → ValidatorSet F → Type 0
  Fails address severity clock now d =
      let (r, d') = slash_validator f order product address severity clock now d in
      ((lookup address d.dpos.delegates ≡ none) × (r ≡ err (unknown_validator address)) × (d' ≡ d))
      ⊎ ((info : DelegateInfo F) × (lookup address d.dpos.delegates ≡ some info)
          × (r ≡ panic)
          × (d'.banned_validators ≡ [])
          × (d'.validators ≡ d.validators)
          × (d'.dpos.active_delegates ≡ d.dpos.active_delegates)
          × ((name : String)
              → lookup name d'.dpos.delegates ≡ (
                  if str_eq address name
                  then some (record info { reliability = left_by severity info.reliability })
                  else lookup name d.dpos.delegates)))

  unmanaged-Fails :
      (address severity : String) (clock : ℕ) (now : String) (d : ValidatorSet F)
      → IsUnmanaged d
      → Fails address severity clock now d
  unfolding remaining_reliability
  unmanaged-Fails address severity clock now d h =
      elim (Option-cases (lookup address d.dpos.delegates)) [
        | inl e ↦ rw (slash-unknown address severity clock now d e) (inl (e, refl, refl))
        | inr (info, e) ↦ rw (slash-known address severity clock now d info e h.no_manager) (
            inr (
              info,
              e,
              refl,
              h.no_bans,
              refl,
              refl,
              λ name. lookup-lowered address severity name d info e,
            ))
      ]

  -- Whatever calls a `DPoS` of `NewDPoS` has had, with whatever currency manager it was made,
  -- slashing never succeeds. For an address that is no delegate it is an error, and nothing changes.
  -- For a delegate it panics: by then its reliability is what the severity leaves of it (95 or 80
  -- percent, nothing, or all for an unknown severity), while nobody is banned, and the validators,
  -- the active delegates and the other delegates are as before.
  pub slash_validator-Fails :
      (currency : CurrencyManager) (calls : List (Call F)) (address severity : String) (clock : ℕ)
      (now : String)
      → Fails address severity clock now (run_calls calls (new_validator_set f currency))
  slash_validator-Fails currency calls address severity clock now =
      unmanaged-Fails address severity clock now _
        (run_calls-IsUnmanaged calls (new_validator_set f currency) (new-IsUnmanaged currency))
