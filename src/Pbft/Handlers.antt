-- ===== src/Pbft/Handlers.antt =====
-- consensus/pbft.go: the handlers of the four kinds of message.
use tc_node_validator_go.Base.{
  ℕ, ◌+◌, String, Bool, true, false, not, ◌&&◌, Option, none, some, [], ◌∷◌, ℤ, pos, pos_part,
  neg_part, ltb_ℤ, leb, ◌==◌, str_eq, if◌then◌else◌, Dict, lookup, insert, adjust, Outcome, ok, err,
  panic,
}
use tc_node_validator_go.Chain.Block.{Block, Platform, calculate_hash}
use tc_node_validator_go.Pbft.State.{
  PbftState, Pbft, ViewField, no_object, no_number, number, Message, PbftError, bad_block,
  invalid_view_data, invalid_view_number, not_primary, invalid_block, unknown_kind, Call, threshold,
  leader_of, with_leader,
}

-- `m[k]` for a `map[string]bool`.
abbrev pub voted : String → Dict Bool → Bool
voted node votes = elim (lookup node votes) [ none ↦ false | some v ↦ v ]

abbrev eqb_ℤ : ℤ → ℤ → Bool
eqb_ℤ a b = pos_part a + neg_part b == pos_part b + neg_part a

-- How often a view was asked for, over all nodes.
unfoldable pub view_count : ℤ → Dict (ℤ → ℕ) → ℕ
view_count v [] = 0
view_count v ((_, asked) ∷ m) = asked v + view_count v m

abbrev no_views : ℤ → ℕ
no_views v = 0

abbrev asked_once : ℤ → (ℤ → ℕ) → ℤ → ℕ
asked_once v asked w = if eqb_ℤ v w then asked w + 1 else asked w

abbrev asked_by : Option (ℤ → ℕ) → ℤ → ℕ
asked_by none = no_views
asked_by (some asked) = asked

-- `p.viewChanges[node][view]++`, with the inner map made if it is missing.
unfoldable pub count_view : String → ℤ → Dict (ℤ → ℕ) → Dict (ℤ → ℕ)
count_view node v m = insert node (asked_once v (asked_by (lookup node m))) m

module _ {F J : Type 0} where
  abbrev pub fresh_state : Block F J → PbftState F J
  fresh_state b = record {
    block = b;
    pre_prepared = false;
    prepare_count = 0;
    commit_count = 0;
    prepared = false;
    committed = false;
    prepared_by = [];
    committed_by = [];
    view_change_count = 0;
  }

  abbrev keep_or_open :
      Block F J → Option (PbftState F J) → Dict (PbftState F J) → Dict (PbftState F J)
  keep_or_open b (some st) m = m
  keep_or_open b none m = insert b.hash (fresh_state b) m

  -- `GetBlockState`: afterwards the map holds a state for the block's hash.
  unfoldable pub open_state : Block F J → Dict (PbftState F J) → Dict (PbftState F J)
  open_state b m = keep_or_open b (lookup b.hash m) m

  -- A write through the state that the map holds for a block.
  abbrev on_state : Block F J → (PbftState F J → PbftState F J) → Pbft F J → Pbft F J
  on_state b f p = record p { block_states = adjust b.hash f (open_state b p.block_states) }

  abbrev pub pre_prepare : PbftState F J → PbftState F J
  pre_prepare st = record st { pre_prepared = true }

  -- The body of `handlePrepare` on the block's state.
  unfoldable pub record_prepare : ℕ → String → PbftState F J → PbftState F J
  record_prepare quorum node st = if voted node st.prepared_by then st else record st {
    prepared_by = insert node true st.prepared_by;
    prepare_count = st.prepare_count + 1;
    prepared = if leb quorum (st.prepare_count + 1) then true else st.prepared;
  }

  -- The body of `handleCommit` on the block's state.
  unfoldable pub record_commit : ℕ → String → PbftState F J → PbftState F J
  record_commit quorum node st = if voted node st.committed_by then st else record st {
    committed_by = insert node true st.committed_by;
    commit_count = st.commit_count + 1;
    committed = if leb quorum (st.commit_count + 1) then true else st.committed;
  }

  unfoldable pub handle_prepare : Block F J → String → Call F J (Unit {0})
  handle_prepare b node p = (ok tt, on_state b (record_prepare (threshold p) node) p)

  unfoldable pub handle_commit : Block F J → String → Call F J (Unit {0})
  handle_commit b node p = (ok tt, on_state b (record_commit (threshold p) node) p)

  abbrev enter : Option (Pbft F J) → Pbft F J → Outcome PbftError (Unit {0}) × Pbft F J
  enter none p = (panic, p)
  enter (some p') p = (ok tt, p')

  -- The view is entered if enough calls ask for it and it lies ahead.
  abbrev change_view : ℤ → Call F J (Unit {0})
  change_view v p =
      if leb (threshold p) (view_count v p.view_changes) && ltb_ℤ (pos p.view) v
      then enter
          (with_leader (leader_of p.validators (pos_part v)) (record p { view = pos_part v }))
          (record p { view = pos_part v })
      else (ok tt, p)

  unfoldable pub handle_view_change : String → ViewField → Call F J (Unit {0})
  handle_view_change node no_object p = (err invalid_view_data, p)
  handle_view_change node no_number p = (err invalid_view_number, p)
  handle_view_change node (number v) p =
      change_view v (record p { view_changes = count_view node v p.view_changes })

  -- `InitiateViewChange`: the view moves on, and nothing else.
  unfoldable pub initiate_view_change : Pbft F J → Pbft F J
  initiate_view_change p = record p { view = p.view + 1 }

module _ {F J : Type 0} (platform : Platform F J) where
  -- `ValidateBlock`
  unfoldable pub validate_block : Block F J → Bool
  validate_block b = str_eq b.hash (calculate_hash platform b)

  unfoldable pub handle_pre_prepare : Block F J → String → Call F J (Unit {0})
  unfolding validate_block
  handle_pre_prepare b node p =
      if not (str_eq node p.primary)
      then (err (not_primary node), p)
      else if not (validate_block b)
      then (err (invalid_block node), p)
      else (ok tt, on_state b pre_prepare p)

  abbrev dispatch : String → String → Block F J → ViewField → Call F J (Unit {0})
  dispatch kind node b field p =
      if str_eq kind "PrePrepare"
      then handle_pre_prepare b node p
      else if str_eq kind "Prepare"
      then handle_prepare b node p
      else if str_eq kind "Commit"
      then handle_commit b node p
      else if str_eq kind "ViewChange"
      then handle_view_change node field p
      else (err (unknown_kind kind), p)

  abbrev pub dispatch_decoded : Option (Block F J) → Message F J → Call F J (Unit {0})
  dispatch_decoded none m p = (err bad_block, p)
  dispatch_decoded (some b) m p = dispatch m.kind m.node_id b m.view_field p

  unfoldable pub process_message : Message F J → Call F J (Unit {0})
  process_message m p = dispatch_decoded m.block m p
