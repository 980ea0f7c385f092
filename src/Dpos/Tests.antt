-- ===== src/Dpos/Tests.antt =====
-- The theorems on delegates at concrete states, with scores in thousandths.
use mathlib.Core.List.Perm
use mathlib.Core.List.{Mem}
use tc_node_validator_go.Base.{
  ltb_ℤ, String, ◌≡◌, refl, ◌⊎◌, true, some, List, [], ◌∷◌, ℤ, pos, map, ◌<◌, ◌≤◌, ok, panic,
  lookup, IsOrdered, eq_iff, arith, ◌+ℤ◌, ◌*ℤ◌, div_ℤ, none, ◌≤ℤ◌, insert,
}
use tc_node_validator_go.Currency.Tests.{thousandths}
use tc_node_validator_go.Currency.State.{CurrencyManager}
use tc_node_validator_go.Currency.Manager.{fresh_account}
use tc_node_validator_go.Currency.Setup.{new_currency_manager}
use tc_node_validator_go.Currency.Text.{new_balance_from_string}
use tc_node_validator_go.Dpos.State.{DelegateInfo, Dpos, new_delegate, new_dpos}
use tc_node_validator_go.Dpos.Validators.{
  ValidatorSet, new_validator_set, slash_validator, select_from, select_block_producer,
  update_validators, validators_from,
}
use tc_node_validator_go.Dpos.Slashing.{
  serve_requests, elect, run_calls, Fails, slash_validator-Fails,
}
use tc_node_validator_go.Dpos.Producer.{AllBelow, select_block_producer-Selected}
use tc_node_validator_go.Dpos.Founding.{initialize_dpos}
use tc_node_validator_go.Dpos.Ticking.{run_ticks, IsStaffed, initialize_dpos-Runs}
use tc_node_validator_go.Dpos.Delegates.{register_vote}
use tc_node_validator_go.Dpos.Schedule.{
  score_of, elected, sort_scores, passes, pass, update_active_delegates, update_schedule,
}
use tc_node_validator_go.Dpos.Election.{IsChoice, update_active_delegates-IsChoice}
use tc_node_validator_go.Dpos.Requests.{
  Request, register, vote, unregister, increase, serve_all, NonePanics, serve_all-IsVoteSafe,
}
use tc_node_validator_go.Dpos.Votes.{IsVoteSafe}
use tc_node_validator_go.Dpos.Tally.{votes_for, IsCounted, register_vote-IsCounted}
use tc_node_validator_go.Dpos.Turns.{slots_elapsed, slot_at, update_schedule-Turn}

thousandths-IsOrdered : IsOrdered thousandths
thousandths-IsOrdered = record {
  lt_irrefl = λ x. ground arith;
  lt_asym = λ x y h. ground arith;
  lt_cotrans = λ x y z h. ground arith;
}

abbrev candidate : String → ℤ → ℤ → DelegateInfo ℤ
candidate name stake votes = record (new_delegate thousandths name stake "t0") {
  votes = votes;
  voter_count = votes;
}

abbrev board : Dpos ℤ
board = record {
  node_id = "n1";
  delegates =
      ("n1", candidate "n1" (pos 100000) (pos 1))
      ∷ ("n2", candidate "n2" (pos 300000) (pos 0))
      ∷ ("n3", candidate "n3" (pos 200000) (pos 0))
      ∷ [];
  active_delegates = "n2" ∷ "n3" ∷ [];
  current_producer = "n2";
  round_length = 2;
  block_time = 3;
  current_round = 0;
  current_slot = 0;
  last_block_time = 0;
  stake_by_node_id = [];
  votes_by_node_id = ("ana", "n1") ∷ [];
  reward_pool = pos 1000000;
  initialized = true;
}

election_runs :
    (update_active_delegates thousandths (λ m. m) "t1" board).active_delegates ≡ "n2" ∷ "n3" ∷ []
unfolding update_active_delegates elected sort_scores passes pass score_of ◌+ℤ◌ ◌*ℤ◌ div_ℤ
election_runs = refl

update_active_delegates-IsChoice_example :
    IsChoice thousandths 2
      (map (score_of thousandths) board.delegates)
      (update_active_delegates thousandths (λ m. m) "t1" board).active_delegates
update_active_delegates-IsChoice_example =
    update_active_delegates-IsChoice thousandths thousandths-IsOrdered (λ m. m) "t1" board
      (λ m. Perm.refl m)

abbrev requests : List (Request ℤ)
requests =
    vote "ana" "n2"
    ∷ unregister "n2"
    ∷ vote "ana" "n3"
    ∷ register "n4" (pos 100000) "t1"
    ∷ increase "n4" (pos 5)
    ∷ []

board-IsVoteSafe : IsVoteSafe board
unfolding lookup
board-IsVoteSafe = (refl, tt)

serve_all-IsVoteSafe_example :
    NonePanics (serve_all thousandths requests board).0
    × IsVoteSafe (serve_all thousandths requests board).1
serve_all-IsVoteSafe_example = serve_all-IsVoteSafe thousandths requests board board-IsVoteSafe

board-IsCounted : IsCounted board
unfolding lookup votes_for
board-IsCounted name i found = ground (arith, eq_iff "n1" name)

register_vote-IsCounted_example : IsCounted (register_vote "ana" "n3" board).1
register_vote-IsCounted_example = register_vote-IsCounted "ana" "n3" board board-IsCounted

update_schedule-Turn_example :
    let (r, d') = update_schedule thousandths (λ m. m) 3500000000 "t1" board in
    ((r ≡ ok tt) × (some "n3" ≡ some d'.current_producer) × (1 < 2)) ⊎ ((r ≡ panic) × (2 ≤ 1))
unfolding slots_elapsed slot_at
update_schedule-Turn_example =
    update_schedule-Turn thousandths (λ m. m) 3500000000 "t1" board (omega arith) (omega arith)
      (omega arith) (omega arith)

abbrev staked : CurrencyManager
staked = record (new_currency_manager "t0") {
  accounts = ("n1", record (fresh_account "n1" (some (pos 100)) "t0") { balance = pos 1000 }) ∷ [];
}

abbrev guarded_board : ValidatorSet ℤ
guarded_board = record {
  dpos = record board { round_length = 21 };
  currency_manager = some staked;
  validators = ("n1", some (pos 100)) ∷ ("n2", some (pos 300)) ∷ [];
  banned_validators = [];
  reinstatements = [];
}

abbrev whole_product : ℤ → ℤ → ℤ
whole_product z x = div_ℤ (z *ℤ x) 1000

slash_validator-Fails_example :
    Fails thousandths
      (λ m. m)
      whole_product
      "n1"
      "critical"
      7
      "t1"
      (run_calls thousandths
        (λ m. m)
        whole_product
        (serve_requests (register "n1" (pos 100000) "t0" ∷ []) ∷ elect "t0" ∷ [])
        (new_validator_set thousandths staked))
slash_validator-Fails_example =
    slash_validator-Fails thousandths (λ m. m) whole_product staked
      (serve_requests (register "n1" (pos 100000) "t0" ∷ []) ∷ elect "t0" ∷ []) "n1" "critical" 7
      "t1"

-- The node's own DPoS has no currency manager.
slashing_panics :
    (slash_validator thousandths
      (λ m. m)
      whole_product
      "n1"
      "minor"
      7
      "t1"
      (record (new_validator_set thousandths staked) { dpos = board })).0
    ≡ panic
unfolding slash_validator lookup new_validator_set
slashing_panics = refl

-- What `updateValidatorsPeriodically` passes has no stakes.
selection_panics :
    select_block_producer
      (λ m. m)
      (update_validators thousandths
        (λ m. m)
        whole_product
        "t1"
        (record { address = "validator1"; stake = [] } ∷ [])
        guarded_board)
    ≡ none
unfolding select_block_producer select_from update_validators validators_from
    new_balance_from_string insert
selection_panics = refl

select_block_producer-Selected_example :
    (name : String) × (top : ℤ) × (select_block_producer (λ m. m) guarded_board ≡ some name)
    × (pos 0 ≤ℤ top)
    × AllBelow top guarded_board.validators
    × (((name ≡ "") × (top ≡ pos 0))
        ⊎ ((ltb_ℤ (pos 0) top ≡ true) × Mem (name, some top) guarded_board.validators))
select_block_producer-Selected_example = select_block_producer-Selected (λ m. m) guarded_board tt

initialize_dpos-Runs_example :
    let d =
      initialize_dpos thousandths (λ m. m) "n1" (λ id. (5, 3)) 0 "t0" (new_dpos thousandths) in
    let (r, d') = run_ticks thousandths (λ m. m) ((3500000000, "t1") ∷ []) d in
    (r ≡ ok tt) × IsStaffed d'
initialize_dpos-Runs_example =
    initialize_dpos-Runs thousandths thousandths-IsOrdered (λ m. m) (λ m. Perm.refl m) "n1"
      (λ id. (5, 3)) 0 "t0" ((3500000000, "t1") ∷ [])
