-- ===== src/Dpos/Delegates.antt =====
-- The methods of `DPoS` on delegates and votes, and the messages that reach them.
use tc_node_validator_go.Base.{
  String, Option, none, some, List, [], ◌∷◌, pos, ◌+ℤ◌, ◌-ℤ◌, str_eq, if◌then◌else◌, Dict, lookup,
  insert, erase, adjust, FloatOps, Outcome, ok, err, panic,
}
use tc_node_validator_go.Dpos.State.{
  DelegateInfo, Dpos, DposError, unknown_delegate, unknown_kind, insufficient_stake,
  stake_not_positive, invalid_data, invalid_voter_id, invalid_delegate_id, invalid_node_id,
  invalid_stake, Call, new_delegate,
}

-- What a message's data is for a vote: no JSON object, one without a text under "voterId" or
-- "delegateId", or the two texts.
pub data VoteData : Type 0 where
  vote_no_object no_voter no_delegate : VoteData
  vote : String → String → VoteData

-- The same for a new delegate, and for an update, whose fields may be missing.
pub data DelegateData (F : Type 0) : Type 0 where
  delegate_no_object delegate_no_node no_stake : DelegateData F
  delegate : String → F → DelegateData F

pub data UpdateData (F : Type 0) : Type 0 where
  update_no_object update_no_node : UpdateData F
  update : String → Option F → Option String → UpdateData F

-- A message, with its data read in each of the three ways.
pub record Message (F : Type 0) : Type 0 where
  pub kind : String
  pub vote_data : VoteData
  pub delegate_data : DelegateData F
  pub update_data : UpdateData F

-- The loop that removes the first entry of a slice that is a given name.
unfoldable pub remove_first : String → List String → List String
remove_first name [] = []
remove_first name (n ∷ ns) = if str_eq n name then ns else n ∷ remove_first name ns

-- The loop that deletes the votes for a delegate.
unfoldable pub drop_votes : String → Dict String → Dict String
drop_votes name [] = []
drop_votes name ((voter, target) ∷ m) =
    if str_eq target name then drop_votes name m else (voter, target) ∷ drop_votes name m

module _ {F : Type 0} where
  abbrev pub more_votes : DelegateInfo F → DelegateInfo F
  more_votes i = record i { votes = i.votes +ℤ pos 1; voter_count = i.voter_count +ℤ pos 1 }

  abbrev pub fewer_votes : DelegateInfo F → DelegateInfo F
  fewer_votes i = record i { votes = i.votes -ℤ pos 1; voter_count = i.voter_count -ℤ pos 1 }

  abbrev pub record_vote :
      String → String → Dict (DelegateInfo F) → Dpos F → Outcome DposError (Unit {0}) × Dpos F
  record_vote voter name delegates d = (
    ok tt,
    record d {
      delegates = adjust name more_votes delegates;
      votes_by_node_id = insert voter name d.votes_by_node_id;
    },
  )

  -- The previous vote is taken back through a pointer that is nil if its delegate is missing.
  abbrev pub revote : String → String → Option String → Call F (Unit {0})
  revote voter name none d = record_vote voter name d.delegates d
  revote voter name (some previous) d = elim (lookup previous d.delegates) [
    | none ↦ (panic, d)
    | some i ↦ record_vote voter name (adjust previous fewer_votes d.delegates) d
  ]

  unfoldable pub register_vote : String → String → Call F (Unit {0})
  register_vote voter name d = elim (lookup name d.delegates) [
    | none ↦ (err (unknown_delegate name), d)
    | some i ↦ revote voter name (lookup voter d.votes_by_node_id) d
  ]

  unfoldable pub handle_vote : VoteData → Call F (Unit {0})
  handle_vote vote_no_object d = (err invalid_data, d)
  handle_vote no_voter d = (err invalid_voter_id, d)
  handle_vote no_delegate d = (err invalid_delegate_id, d)
  handle_vote (vote voter name) d = register_vote voter name d

  unfoldable pub unregister_delegate : String → Call F (Unit {0})
  unregister_delegate name d = elim (lookup name d.delegates) [
    | none ↦ (err (unknown_delegate name), d)
    | some i ↦ (
      ok tt,
      record d {
        delegates = erase name d.delegates;
        stake_by_node_id = erase name d.stake_by_node_id;
        active_delegates = remove_first name d.active_delegates;
        votes_by_node_id = drop_votes name d.votes_by_node_id;
      },
    )
  ]

  abbrev pub set_stake : F → DelegateInfo F → DelegateInfo F
  set_stake stake i = record i { stake = stake }

  abbrev pub set_representativ : Option String → DelegateInfo F → DelegateInfo F
  set_representativ none i = i
  set_representativ (some id) i = record i { representativ_id = id }

  abbrev update_representativ : String → Option String → Call F (Unit {0})
  update_representativ name id d =
      (ok tt, record d { delegates = adjust name (set_representativ id) d.delegates })

module _ {F : Type 0} (f : FloatOps F) where
  open f use {add, lt, le, decimal}

  unfoldable pub register_delegate : String → F → String → Call F (Unit {0})
  register_delegate node stake now d =
      if lt stake (decimal 100 0) then (err insufficient_stake, d) else (
        ok tt,
        record d {
          delegates = insert node (new_delegate f node stake now) d.delegates;
          stake_by_node_id = insert node stake d.stake_by_node_id;
        },
      )

  unfoldable pub handle_new_delegate : DelegateData F → String → Call F (Unit {0})
  handle_new_delegate delegate_no_object now d = (err invalid_data, d)
  handle_new_delegate delegate_no_node now d = (err invalid_node_id, d)
  handle_new_delegate no_stake now d = (err invalid_stake, d)
  handle_new_delegate (delegate node stake) now d = register_delegate node stake now d

  unfoldable pub increase_stake : String → F → Call F (Unit {0})
  increase_stake node additional d = elim (lookup node d.delegates) [
    | none ↦ (err (unknown_delegate node), d)
    | some i ↦ if le additional (decimal 0 0) then (err stake_not_positive, d) else (
      ok tt,
      record d {
        delegates = adjust node (set_stake (add i.stake additional)) d.delegates;
        stake_by_node_id = insert node (add i.stake additional) d.stake_by_node_id;
      },
    )
  ]

  abbrev update_known : String → Option F → Option String → Call F (Unit {0})
  update_known node none id d = update_representativ node id d
  update_known node (some stake) id d =
      if lt stake (decimal 100 0)
      then (err insufficient_stake, d)
      else update_representativ node id (record d {
        delegates = adjust node (set_stake stake) d.delegates;
        stake_by_node_id = insert node stake d.stake_by_node_id;
      })

  unfoldable pub handle_delegate_update : UpdateData F → Call F (Unit {0})
  handle_delegate_update update_no_object d = (err invalid_data, d)
  handle_delegate_update update_no_node d = (err invalid_node_id, d)
  handle_delegate_update (update node stake id) d = elim (lookup node d.delegates) [
    | none ↦ (err (unknown_delegate node), d)
    | some i ↦ update_known node stake id d
  ]

  unfoldable pub process_message : Message F → String → Call F (Unit {0})
  process_message m now d =
      if str_eq m.kind "Vote"
      then handle_vote m.vote_data d
      else if str_eq m.kind "NewDelegate"
      then handle_new_delegate m.delegate_data now d
      else if str_eq m.kind "DelegateUpdate"
      then handle_delegate_update m.update_data d
      else (err (unknown_kind m.kind), d)
