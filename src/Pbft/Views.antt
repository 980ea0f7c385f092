-- ===== src/Pbft/Views.antt =====
-- Changes of view: who can bring one about, and whether the primary follows.
use tc_node_validator_go.Base.{
  ℕ, zero, suc, ◌+◌, ◌%◌, ◌≤◌, ◌<◌, String, ◌≡◌, ◌≢◌, sym, ◌∙◌, ◌⊎◌, panic, inl, inr, List, [], ◌∷◌,
  length, some, ℤ, pos, pos_part, Dict, lookup, insert, get_elem?_of_lt, arith,
}
use tc_node_validator_go.Chain.Block.{Block, Platform}
use tc_node_validator_go.Pbft.State.{
  Pbft, Message, ViewField, no_object, no_number, number, threshold, leader_of, initialize,
}
use tc_node_validator_go.Pbft.Dispatch.{process_message-rule}
use tc_node_validator_go.Pbft.Handlers.{
  handle_view_change, initiate_view_change, count_view, view_count, process_message, handle_prepare,
  handle_commit, handle_pre_prepare,
}

-- The primary is the validator that the current view names.
abbrev pub IsLed : {F J : Type 0} → Pbft F J → Type 0
IsLed p = leader_of p.validators p.view ≡ some p.primary

-- Some validator leads every view, if there are validators.
leader_total :
    (v : String) (vs : List String) (view : ℕ)
    → (leader : String) × (leader_of (v ∷ vs) view ≡ some leader)
unfolding leader_of
leader_total v vs view = get_elem?_of_lt (v ∷ vs) (view % length (v ∷ vs)) (grind arith)

some_leader :
    (vs : List String) (view other : ℕ) (leader : String)
    → leader_of vs view ≡ some leader
    → (next : String) × (leader_of vs other ≡ some next)
unfolding leader_of
some_leader [] view other leader h = cc
some_leader (v ∷ vs) view other leader h = leader_total v vs other

-- One more request for a view, from any node, raises the count of that view by one.
view_count-count_view :
    (node : String) (v : ℤ) (m : Dict (ℤ → ℕ))
    → view_count v (count_view node v m) ≡ suc (view_count v m)
unfolding view_count count_view lookup insert
view_count-count_view node v [] = ground arith
view_count-count_view node v ((k, asked) ∷ m) = ground (arith, view_count-count_view node v m)

module _ {F J : Type 0} where
  initialize-IsLed : (id : String) (p q : Pbft F J) → initialize id p ≡ some q → IsLed q
  unfolding initialize leader_of
  initialize-IsLed id p q h = ground arith

  handle_prepare_returns :
      (b : Block F J) (node : String) (p : Pbft F J) → (handle_prepare b node p).0 ≢ panic
  unfolding handle_prepare
  handle_prepare_returns b node p = ground arith

  handle_commit_returns :
      (b : Block F J) (node : String) (p : Pbft F J) → (handle_commit b node p).0 ≢ panic
  unfolding handle_commit
  handle_commit_returns b node p = ground arith

  handle_pre_prepare_returns :
      (platform : Platform F J) (b : Block F J) (node : String) (p : Pbft F J)
      → (handle_pre_prepare platform b node p).0 ≢ panic
  unfolding handle_pre_prepare
  handle_pre_prepare_returns platform b node p = ground arith

  view_change_returns :
      (node : String) (field : ViewField) (p : Pbft F J)
      → IsLed p
      → (handle_view_change node field p).0 ≢ panic
  unfolding handle_view_change
  view_change_returns node no_object p h = ground arith
  view_change_returns node no_number p h = ground arith
  view_change_returns node (number v) p h =
      let (leader, e) = some_leader p.validators p.view (pos_part v) p.primary h in
      ground (arith, e)

  view_change-IsLed :
      (node : String) (field : ViewField) (p : Pbft F J)
      → IsLed p
      → IsLed (handle_view_change node field p).1
  unfolding handle_view_change
  view_change-IsLed node no_object p h = h
  view_change-IsLed node no_number p h = h
  view_change-IsLed node (number v) p h =
      let (leader, e) = some_leader p.validators p.view (pos_part v) p.primary h in
      ground (arith, e)

  handle_prepare-IsLed :
      (b : Block F J) (node : String) (p : Pbft F J) → IsLed p → IsLed (handle_prepare b node p).1
  unfolding handle_prepare
  handle_prepare-IsLed b node p h = h

  handle_commit-IsLed :
      (b : Block F J) (node : String) (p : Pbft F J) → IsLed p → IsLed (handle_commit b node p).1
  unfolding handle_commit
  handle_commit-IsLed b node p h = h

  handle_pre_prepare-IsLed :
      (platform : Platform F J) (b : Block F J) (node : String) (p : Pbft F J)
      → IsLed p
      → IsLed (handle_pre_prepare platform b node p).1
  unfolding handle_pre_prepare
  handle_pre_prepare-IsLed platform b node p h = ground arith

  -- A node whose primary is the validator that its view names stays so, and does not panic,
  -- whatever message arrives, whatever it holds and whoever sends it.
  pub process_message-IsLed :
      (platform : Platform F J) (m : Message F J) (p : Pbft F J)
      → IsLed p
      → IsLed (process_message platform m p).1 × ((process_message platform m p).0 ≢ panic)
  process_message-IsLed platform m p h =
      process_message-rule platform m p (λ (r, q). IsLed q × (r ≢ panic)) (λ e. (h, λ c. cc))
        (λ b. (
          handle_pre_prepare-IsLed platform b m.node_id p h,
          handle_pre_prepare_returns platform b m.node_id p,
        ))
        (λ b. (handle_prepare-IsLed b m.node_id p h, handle_prepare_returns b m.node_id p))
        (λ b. (handle_commit-IsLed b m.node_id p h, handle_commit_returns b m.node_id p))
        (
          view_change-IsLed m.node_id m.view_field p h,
          view_change_returns m.node_id m.view_field p h,
        )

  -- `InitiateViewChange` moves the view on and keeps the primary: if the next view names another
  -- validator, the primary is no longer the one that the view names.
  pub initiate_view_change_stale :
      (p : Pbft F J)
      → IsLed p
      → leader_of p.validators (p.view + 1) ≢ leader_of p.validators p.view
      → ¬ IsLed (initiate_view_change p)
  unfolding initiate_view_change
  initiate_view_change_stale p h other same = other (same ∙ sym h)

  -- A node asks for one view a number of times.
  unfoldable pub ask_again : ℕ → String → ℤ → Pbft F J → Pbft F J
  ask_again zero node v p = p
  ask_again (suc k) node v p = ask_again k node v (handle_view_change node (number v) p).1

  -- What one request does when the view asked for lies ahead.
  ask_once :
      (node : String) (v : ℕ) (p : Pbft F J)
      → IsLed p
      → p.view < v
      → let p' = (handle_view_change node (number (pos v)) p).1 in
        (p'.validators ≡ p.validators)
        × (view_count (pos v) p'.view_changes ≡ suc (view_count (pos v) p.view_changes))
        × (((p'.view ≡ v) × (threshold p ≤ suc (view_count (pos v) p.view_changes)))
            ⊎ ((p'.view ≡ p.view) × (suc (view_count (pos v) p.view_changes) < threshold p)))
  unfolding handle_view_change threshold
  ask_once node v p h ahead =
      let (leader, e) = some_leader p.validators p.view v p.primary h in
      ground (arith, e, view_count-count_view node (pos v) p.view_changes)

  settled :
      (k v : ℕ) (node : String) (p : Pbft F J) → p.view ≡ v → (ask_again k node (pos v) p).view ≡ v
  unfolding ask_again handle_view_change
  settled zero v node p e = e
  settled (suc k) v node p e = settled k v node _ (ground arith)

  same_threshold : (p q : Pbft F J) → q.validators ≡ p.validators → threshold q ≡ threshold p
  unfolding threshold
  same_threshold p q e = rw e

  asked :
      (k v : ℕ) (node : String) (p : Pbft F J)
      → IsLed p
      → p.view < v
      → 0 < k
      → threshold p ≤ view_count (pos v) p.view_changes + k
      → (ask_again k node (pos v) p).view ≡ v
  unfolding ask_again
  asked zero v node p h ahead some_vote enough = absurd (omega arith)
  asked (suc k) v node p h ahead some_vote enough =
      let p' = (handle_view_change node (number (pos v)) p).1 in
      let once = ask_once node v p h ahead in
      let bound = same_threshold p p' once.0 in
      elim once.2 [
        | inl (entered, _) ↦ settled k v node p' entered
        | inr (same, short) ↦
            asked k v node p' (view_change-IsLed node (number (pos v)) p h) (omega (arith, same))
              (omega arith) (omega (arith, bound, once.1))
      ]

  -- At a node whose primary is the one its view names, one node alone brings about a change of
  -- view: by asking for a view that lies ahead at least once and as often as the quorum has votes,
  -- though the comment says that the nodes which agree are counted.
  pub lone_view_change :
      (k v : ℕ) (node : String) (p : Pbft F J)
      → IsLed p
      → p.view < v
      → 0 < k
      → threshold p ≤ k
      → (ask_again k node (pos v) p).view ≡ v
  lone_view_change k v node p h ahead some_vote enough =
      asked k v node p h ahead some_vote (omega arith)
