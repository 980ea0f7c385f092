-- ===== src/Pbft/Quorum.antt =====
-- What the quorum is, and whose votes it counts.
use tc_node_validator_go.Base.{
  ℕ, suc, ◌+◌, ◌*◌, ◌≤◌, ◌<◌, String, ◌≡◌, ◌∙◌, ap, refl, Bool, true, false, ◌||◌, Option, none,
  some, List, [], ◌∷◌, length, Dict, lookup, lookup-insert, lookup-adjust, str_eq, eq_iff, arith,
}
use tc_node_validator_go.Chain.Block.{Block, Platform}
use tc_node_validator_go.Pbft.State.{PbftState, Pbft, ViewField, Message, threshold}
use tc_node_validator_go.Pbft.Votes.{IsTallied, fresh_state-IsTallied, record_prepare-IsTallied}
use tc_node_validator_go.Pbft.Handlers.{
  voted, fresh_state, open_state, record_prepare, handle_prepare, process_message,
}

-- With 3f + 1 validators the votes asked for are 2f, one fewer than the 2f + 1 that the comment in
-- `handlePrepare` names.
pub threshold-eq :
    {F J : Type 0} (f : ℕ) (p : Pbft F J) → length p.validators ≡ 3 * f + 1 → threshold p ≡ 2 * f
unfolding threshold
threshold-eq f p h = rw h (omega arith)

abbrev mentions : String → List String → Bool
mentions n [] = false
mentions n (k ∷ ks) = str_eq n k || mentions n ks

-- No name stands twice.
abbrev pub IsDistinct : List String → Type 0
IsDistinct [] = Unit
IsDistinct (n ∷ ns) = (mentions n ns ≡ false) × IsDistinct ns

module _ {F J : Type 0} (quorum : ℕ) where
  -- None of the nodes has voted yet.
  abbrev AreFresh : List String → PbftState F J → Type 0
  AreFresh [] st = Unit
  AreFresh (n ∷ ns) st = (voted n st.prepared_by ≡ false) × AreFresh ns st

  -- The prepare votes of a list of nodes, in turn.
  unfoldable pub record_prepares : List String → PbftState F J → PbftState F J
  record_prepares [] st = st
  record_prepares (n ∷ ns) st = record_prepares ns (record_prepare quorum n st)

  -- A second vote of the same node changes nothing.
  pub record_prepare_idem :
      (node : String) (st : PbftState F J)
      → record_prepare quorum node (record_prepare quorum node st) ≡ record_prepare quorum node st
  unfolding record_prepare
  record_prepare_idem node st =
      ground (arith, lookup-insert node node true st.prepared_by, eq_iff node node)

  still_fresh :
      (n : String) (ns : List String) (st : PbftState F J)
      → mentions n ns ≡ false
      → AreFresh ns st
      → AreFresh ns (record_prepare quorum n st)
  unfolding record_prepare
  still_fresh n [] st h f = tt
  still_fresh n (k ∷ ks) st h f =
      ground (arith, still_fresh n ks st, lookup-insert n k true st.prepared_by)

  counted :
      (n : String) (st : PbftState F J)
      → voted n st.prepared_by ≡ false
      → (record_prepare quorum n st).prepare_count ≡ suc st.prepare_count
  unfolding record_prepare
  counted n st h = ground arith

  all_counted :
      (ns : List String) (st : PbftState F J)
      → IsDistinct ns
      → AreFresh ns st
      → (record_prepares ns st).prepare_count ≡ length ns + st.prepare_count
  unfolding record_prepares
  all_counted [] st d f = omega arith
  all_counted (n ∷ ns) st d f = omega (
    arith,
    all_counted ns (record_prepare quorum n st) d.1 (still_fresh n ns st d.0 f.1),
    counted n st f.0,
  )

  record_prepares-IsTallied :
      (ns : List String) (st : PbftState F J)
      → IsTallied quorum st
      → IsTallied quorum (record_prepares ns st)
  unfolding record_prepares
  record_prepares-IsTallied [] st t = t
  record_prepares-IsTallied (n ∷ ns) st t =
      record_prepares-IsTallied ns (record_prepare quorum n st)
        (record_prepare-IsTallied quorum n st t)

  all_fresh : (ns : List String) (b : Block F J) → AreFresh ns (fresh_state b)
  unfolding lookup
  all_fresh [] b = tt
  all_fresh (n ∷ ns) b = (refl, all_fresh ns b)

  enough_prepare :
      (ns : List String) (b : Block F J)
      → IsDistinct ns
      → 0 < length ns
      → quorum ≤ length ns
      → (record_prepares ns (fresh_state b)).prepared ≡ true
  enough_prepare ns b d some_vote enough =
      let t = record_prepares-IsTallied ns (fresh_state b) (fresh_state-IsTallied quorum b) in
      let c = all_counted ns (fresh_state b) d (all_fresh ns b) in
      t.prepared_when (omega (arith, c)) (omega (arith, c))

module _ {F J : Type 0} (platform : Platform F J) (b : Block F J) (field : ViewField) where
  abbrev prepare_of : String → Message F J
  prepare_of node = record { kind = "Prepare"; node_id = node; block = some b; view_field = field }

  -- A prepare message of each of the nodes, in turn.
  unfoldable pub prepares_from : List String → Pbft F J → Pbft F J
  prepares_from [] p = p
  prepares_from (n ∷ ns) p = prepares_from ns (process_message platform (prepare_of n) p).1

  abbrev state_or_fresh : Option (PbftState F J) → PbftState F J
  state_or_fresh none = fresh_state b
  state_or_fresh (some st) = st

  abbrev state_at : Pbft F J → PbftState F J
  state_at p = state_or_fresh (lookup b.hash p.block_states)

  lookup-open_state :
      (m : Dict (PbftState F J))
      → lookup b.hash (open_state b m) ≡ some (state_or_fresh (lookup b.hash m))
  unfolding open_state
  lookup-open_state m =
      ground (arith, lookup-insert b.hash b.hash (fresh_state b) m, eq_iff b.hash b.hash)

  -- A message of any node is counted at the block's state; the validators are not looked at.
  one_prepare :
      (node : String) (p : Pbft F J)
      → (state_at (process_message platform (prepare_of node) p).1
          ≡ record_prepare (threshold p) node (state_at p))
        × (threshold (process_message platform (prepare_of node) p).1 ≡ threshold p)
  unfolding process_message handle_prepare threshold
  one_prepare node p = (
    ground (
      arith,
      lookup-adjust b.hash b.hash (record_prepare (threshold p) node) (open_state b p.block_states),
      lookup-open_state p.block_states,
      eq_iff b.hash b.hash,
    ),
    refl,
  )

  state_at-prepares_from :
      (ns : List String) (p : Pbft F J)
      → state_at (prepares_from ns p) ≡ record_prepares (threshold p) ns (state_at p)
  unfolding prepares_from record_prepares
  state_at-prepares_from [] p = refl
  state_at-prepares_from (n ∷ ns) p =
      let (counted_, same) = one_prepare n p in
      state_at-prepares_from ns (process_message platform (prepare_of n) p).1
      ∙ ap (λ q. record_prepares q ns (state_at (process_message platform (prepare_of n) p).1)) same
      ∙ ap (record_prepares (threshold p) ns) counted_

  held :
      (o : Option (PbftState F J))
      → (state_or_fresh o).prepared ≡ true
      → (st : PbftState F J) × (o ≡ some st) × (st.prepared ≡ true)
  held none h = cc
  held (some st) h = (st, refl, h)

  -- Any different names will do: when a node that has no state for a block yet receives prepare
  -- messages for it from as many of them as the quorum asks for, at least one, then the block is
  -- prepared, whether or not any of the names is a validator.
  pub strangers_prepare :
      (ns : List String) (p : Pbft F J)
      → lookup b.hash p.block_states ≡ none
      → IsDistinct ns
      → 0 < length ns
      → threshold p ≤ length ns
      → (st : PbftState F J) × (lookup b.hash (prepares_from ns p).block_states ≡ some st)
        × (st.prepared ≡ true)
  strangers_prepare ns p unseen d some_vote enough =
      held (lookup b.hash (prepares_from ns p).block_states) (
        ap (λ st. st.prepared)
          (state_at-prepares_from ns p
            ∙ ap (λ o. record_prepares (threshold p) ns (state_or_fresh o)) unseen)
        ∙ enough_prepare (threshold p) ns b d some_vote enough)
