-- ===== src/Pbft/Votes.antt =====
-- The votes on a block: what the counters and the flags say.
use tc_node_validator_go.Base.{
  ℕ, suc, ◌≤◌, ◌<◌, String, ◌≡◌, refl, inl, inr, Bool, true, false, Bool-cases, none, Option-cases,
  [], ◌∷◌, length, Dict, lookup, insert, adjust, lookup-insert, All, All-insert, All-adjust, eq_iff,
  arith,
}
use tc_node_validator_go.Chain.Block.{Block, Platform}
use tc_node_validator_go.Pbft.State.{
  PbftState, Pbft, Message, ViewField, no_object, no_number, number, threshold,
}
use tc_node_validator_go.Pbft.Dispatch.{process_message-rule}
use tc_node_validator_go.Pbft.Handlers.{
  voted, fresh_state, open_state, record_prepare, record_commit, handle_prepare, handle_commit,
  handle_view_change, pre_prepare, handle_pre_prepare, process_message,
}

-- No node stands twice in a map of votes, and every entry is a vote.
abbrev pub IsPoll : Dict Bool → Type 0
IsPoll [] = Unit
IsPoll ((node, v) ∷ m) = (lookup node m ≡ none) × (v ≡ true) × IsPoll m

length-insert_new :
    (node : String) (m : Dict Bool)
    → voted node m ≡ false
    → IsPoll m
    → length (insert node true m) ≡ suc (length m)
unfolding lookup insert
length-insert_new node [] h u = refl
length-insert_new node ((k, v) ∷ m) h u = ground (arith, length-insert_new node m)

insert-IsPoll : (node : String) (m : Dict Bool) → IsPoll m → IsPoll (insert node true m)
unfolding insert lookup
insert-IsPoll node [] u = (refl, refl, tt)
insert-IsPoll node ((k, v) ∷ m) u =
    ground
      (arith, insert-IsPoll node m u.2, lookup-insert node k true m, eq_iff node k, eq_iff k node)

module _ {F J : Type 0} (quorum : ℕ) where
  -- The counters are the numbers of different nodes that have voted, and a block is prepared
  -- (committed) exactly when some node has voted and the votes reach the quorum.
  pub record IsTallied (st : PbftState F J) : Type 0 where
    pub prepare_poll : IsPoll st.prepared_by
    pub commit_poll : IsPoll st.committed_by
    pub prepares : st.prepare_count ≡ length st.prepared_by
    pub commits : st.commit_count ≡ length st.committed_by
    pub prepared_when : 0 < st.prepare_count → quorum ≤ st.prepare_count → st.prepared ≡ true
    pub prepared_only : st.prepared ≡ true → (0 < st.prepare_count) × (quorum ≤ st.prepare_count)
    pub committed_when : 0 < st.commit_count → quorum ≤ st.commit_count → st.committed ≡ true
    pub committed_only : st.committed ≡ true → (0 < st.commit_count) × (quorum ≤ st.commit_count)

  pub fresh_state-IsTallied : (b : Block F J) → IsTallied (fresh_state b)
  fresh_state-IsTallied b = ground arith

  pre_prepare-IsTallied : (st : PbftState F J) → IsTallied st → IsTallied (pre_prepare st)
  pre_prepare-IsTallied st t = ground arith

  pub record_prepare-IsTallied :
      (node : String) (st : PbftState F J)
      → IsTallied st
      → IsTallied (record_prepare quorum node st)
  unfolding record_prepare
  record_prepare-IsTallied node st t = elim (Bool-cases (voted node st.prepared_by)) [
    | inl again ↦ rw (again, record_prepare) t
    | inr first ↦
        rw (first, record_prepare)
          (ground (
            arith,
            length-insert_new node st.prepared_by first t.prepare_poll,
            insert-IsPoll node st.prepared_by t.prepare_poll,
          ))
  ]

  record_commit-IsTallied :
      (node : String) (st : PbftState F J) → IsTallied st → IsTallied (record_commit quorum node st)
  unfolding record_commit
  record_commit-IsTallied node st t = elim (Bool-cases (voted node st.committed_by)) [
    | inl again ↦ rw (again, record_commit) t
    | inr first ↦
        rw (first, record_commit)
          (ground (
            arith,
            length-insert_new node st.committed_by first t.commit_poll,
            insert-IsPoll node st.committed_by t.commit_poll,
          ))
  ]

module _ {F J : Type 0} where
  -- Every block state of a node is tallied against the node's quorum.
  abbrev pub AllTallied : Pbft F J → Type 0
  AllTallied p = All (IsTallied (threshold p)) p.block_states

  open_state-IsTallied :
      (quorum : ℕ) (b : Block F J) (m : Dict (PbftState F J))
      → All (IsTallied quorum) m
      → All (IsTallied quorum) (open_state b m)
  unfolding open_state
  open_state-IsTallied quorum b m h = elim (Option-cases (lookup b.hash m)) [
    | inl e ↦
        rw (e, open_state)
          (All-insert (IsTallied quorum) b.hash (fresh_state b) m (fresh_state-IsTallied quorum b)
            h)
    | inr (st, e) ↦ rw (e, open_state) h
  ]

  on_state-IsTallied :
      (quorum : ℕ) (b : Block F J) (f : PbftState F J → PbftState F J) (m : Dict (PbftState F J))
      → ((st : PbftState F J) → IsTallied quorum st → IsTallied quorum (f st))
      → All (IsTallied quorum) m
      → All (IsTallied quorum) (adjust b.hash f (open_state b m))
  on_state-IsTallied quorum b f m keep h =
      All-adjust (IsTallied quorum) b.hash f (open_state b m) (λ st e t. keep st t)
        (open_state-IsTallied quorum b m h)

  handle_prepare-AllTallied :
      (b : Block F J) (node : String) (p : Pbft F J)
      → AllTallied p
      → AllTallied (handle_prepare b node p).1
  unfolding handle_prepare threshold
  handle_prepare-AllTallied b node p h =
      on_state-IsTallied (threshold p) b (record_prepare (threshold p) node) p.block_states
        (record_prepare-IsTallied (threshold p) node) h

  handle_commit-AllTallied :
      (b : Block F J) (node : String) (p : Pbft F J)
      → AllTallied p
      → AllTallied (handle_commit b node p).1
  unfolding handle_commit threshold
  handle_commit-AllTallied b node p h =
      on_state-IsTallied (threshold p) b (record_commit (threshold p) node) p.block_states
        (record_commit-IsTallied (threshold p) node) h

  handle_pre_prepare-AllTallied :
      (platform : Platform F J) (b : Block F J) (node : String) (p : Pbft F J)
      → AllTallied p
      → AllTallied (handle_pre_prepare platform b node p).1
  unfolding handle_pre_prepare threshold
  handle_pre_prepare-AllTallied platform b node p h = ground (
    arith,
    on_state-IsTallied (threshold p) b pre_prepare p.block_states
        (λ st t. pre_prepare-IsTallied (threshold p) st t) h,
  )

  handle_view_change-AllTallied :
      (node : String) (field : ViewField) (p : Pbft F J)
      → AllTallied p
      → AllTallied (handle_view_change node field p).1
  unfolding handle_view_change threshold
  handle_view_change-AllTallied node no_object p h = h
  handle_view_change-AllTallied node no_number p h = h
  handle_view_change-AllTallied node (number v) p h = ground arith

  -- Whatever message arrives, from whatever node, a node whose votes are tallied stays so: for
  -- every block, the counters are the numbers of different nodes that have voted, and the block is
  -- prepared (committed) exactly when at least one node has voted and the votes reach the quorum.
  pub process_message-AllTallied :
      (platform : Platform F J) (m : Message F J) (p : Pbft F J)
      → AllTallied p
      → AllTallied (process_message platform m p).1
  process_message-AllTallied platform m p h =
      process_message-rule platform m p (λ (r, q). AllTallied q) (λ e. h)
        (λ b. handle_pre_prepare-AllTallied platform b m.node_id p h)
        (λ b. handle_prepare-AllTallied b m.node_id p h)
        (λ b. handle_commit-AllTallied b m.node_id p h)
        (handle_view_change-AllTallied m.node_id m.view_field p h)
