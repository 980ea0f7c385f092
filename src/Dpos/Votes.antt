-- ===== src/Dpos/Votes.antt =====
-- The votes: every one is for a delegate that exists, whatever is asked of the node.
use tc_node_validator_go.Base.{
  String, ◌≡◌, ◌≢◌, refl, inl, inr, true, Bool-cases, none, some, Option-cases, [], ◌∷◌, str_eq,
  eq_iff, Dict, lookup, contains, insert, erase, adjust, lookup-insert, lookup-erase,
  contains-adjust, All, All-insert, All-lookup, FloatOps, ok, panic, arith,
}
use tc_node_validator_go.Dpos.State.{DelegateInfo, Dpos, new_delegate}
use tc_node_validator_go.Dpos.Delegates.{
  VoteData, vote_no_object, no_voter, no_delegate, vote, DelegateData, delegate_no_object,
  delegate_no_node, no_stake, delegate, UpdateData, update_no_object, update_no_node, update,
  drop_votes, set_stake, set_representativ, more_votes, fewer_votes, record_vote, revote,
  register_vote, handle_vote, unregister_delegate, register_delegate, handle_new_delegate,
  increase_stake, handle_delegate_update,
}

All-imp : {V : Type 0} (P Q : V → Type 0) (m : Dict V) → ((v : V) → P v → Q v) → All P m → All Q m
All-imp P Q [] h a = tt
All-imp P Q ((k, v) ∷ m) h a = (h v a.0, All-imp P Q m h a.1)

module _ {F : Type 0} where
  -- Every vote is for a delegate that exists.
  abbrev pub IsVoteSafe : Dpos F → Type 0
  IsVoteSafe d = All (λ target. contains target d.delegates ≡ true) d.votes_by_node_id

  -- Delegates may be added or written to without harm to the votes.
  still_safe :
      (before after : Dict (DelegateInfo F)) (votes : Dict String)
      → ((name : String) → contains name before ≡ true → contains name after ≡ true)
      → All (λ target. contains target before ≡ true) votes
      → All (λ target. contains target after ≡ true) votes
  still_safe before after votes h = All-imp _ _ votes h

  record_vote-IsVoteSafe :
      (voter name : String) (delegates : Dict (DelegateInfo F)) (d : Dpos F)
      → contains name delegates ≡ true
      → All (λ target. contains target delegates ≡ true) d.votes_by_node_id
      → IsVoteSafe (record_vote voter name delegates d).1
  record_vote-IsVoteSafe voter name delegates d there s =
      still_safe delegates (adjust name more_votes delegates) (insert voter name d.votes_by_node_id)
        (λ n h. ground (arith, contains-adjust name n more_votes delegates))
        (All-insert (λ target. contains target delegates ≡ true) voter name d.votes_by_node_id there
          s)

  -- With safe votes a vote for a delegate that exists is recorded, and leaves the votes safe.
  revote-safe :
      (voter name : String) (d : Dpos F)
      → contains name d.delegates ≡ true
      → IsVoteSafe d
      → ((revote voter name (lookup voter d.votes_by_node_id) d).0 ≡ ok tt)
        × IsVoteSafe (revote voter name (lookup voter d.votes_by_node_id) d).1
  revote-safe voter name d there s = elim (Option-cases (lookup voter d.votes_by_node_id)) [
    | inl e ↦ rw e (refl, record_vote-IsVoteSafe voter name d.delegates d there s)
    | inr (previous, e) ↦
        let known =
          All-lookup (λ target. contains target d.delegates ≡ true) voter previous
            d.votes_by_node_id s e in
        elim (Option-cases (lookup previous d.delegates)) [
          | inl missing ↦ absurd (ground (arith, known, missing))
          | inr (i, found) ↦
              rw (e, revote, found)
                (
                  refl,
                  record_vote-IsVoteSafe voter name (adjust previous fewer_votes d.delegates) d
                      (ground (arith, contains-adjust previous name fewer_votes d.delegates))
                      (still_safe d.delegates (adjust previous fewer_votes d.delegates)
                        d.votes_by_node_id
                        (λ n h. ground (arith, contains-adjust previous n fewer_votes d.delegates))
                        s),
                )
        ]
  ]

  pub register_vote-safe :
      (voter name : String) (d : Dpos F)
      → IsVoteSafe d
      → ((register_vote voter name d).0 ≢ panic) × IsVoteSafe (register_vote voter name d).1
  unfolding register_vote
  register_vote-safe voter name d s = elim (Option-cases (lookup name d.delegates)) [
    | inl e ↦ rw (e, register_vote) ((λ q. cc), s)
    | inr (i, e) ↦
        let (fine, safe) = revote-safe voter name d (ground (arith, e)) s in
        rw (e, register_vote) (rw fine (λ q. cc), safe)
  ]

  erased-IsVoteSafe :
      (name : String) (delegates : Dict (DelegateInfo F)) (votes : Dict String)
      → All (λ target. contains target delegates ≡ true) votes
      → All (λ target. contains target (erase name delegates) ≡ true) (drop_votes name votes)
  unfolding drop_votes
  erased-IsVoteSafe name delegates [] s = tt
  erased-IsVoteSafe name delegates ((voter, target) ∷ votes) s =
      elim (Bool-cases (str_eq target name)) [
        | inl e ↦ rw (e, drop_votes) (erased-IsVoteSafe name delegates votes s.1)
        | inr e ↦
            rw (e, drop_votes)
              (
                ground (
                  arith,
                  s.0,
                  e,
                  lookup-erase name target delegates,
                  eq_iff name target,
                  eq_iff target name,
                ),
                erased-IsVoteSafe name delegates votes s.1,
              )
      ]

  pub unregister_delegate-safe :
      (name : String) (d : Dpos F)
      → IsVoteSafe d
      → ((unregister_delegate name d).0 ≢ panic) × IsVoteSafe (unregister_delegate name d).1
  unfolding unregister_delegate
  unregister_delegate-safe name d s = elim (Option-cases (lookup name d.delegates)) [
    | inl e ↦ rw (e, unregister_delegate) ((λ q. cc), s)
    | inr (i, e) ↦
        rw (e, unregister_delegate)
          ((λ q. cc), erased-IsVoteSafe name d.delegates d.votes_by_node_id s)
  ]

  pub handle_vote-safe :
      (content : VoteData) (d : Dpos F)
      → IsVoteSafe d
      → ((handle_vote content d).0 ≢ panic) × IsVoteSafe (handle_vote content d).1
  unfolding handle_vote
  handle_vote-safe vote_no_object d s = ((λ q. cc), s)
  handle_vote-safe no_voter d s = ((λ q. cc), s)
  handle_vote-safe no_delegate d s = ((λ q. cc), s)
  handle_vote-safe (vote voter name) d s = register_vote-safe voter name d s

  inserted-safe :
      (node : String) (info : DelegateInfo F) (d : Dpos F)
      → IsVoteSafe d
      → All (λ target. contains target (insert node info d.delegates) ≡ true) d.votes_by_node_id
  inserted-safe node info d =
      still_safe d.delegates (insert node info d.delegates) d.votes_by_node_id
        (λ n h. ground (arith, lookup-insert node n info d.delegates))

  adjusted-safe :
      (node : String) (g : DelegateInfo F → DelegateInfo F) (delegates : Dict (DelegateInfo F))
      (votes : Dict String)
      → All (λ target. contains target delegates ≡ true) votes
      → All (λ target. contains target (adjust node g delegates) ≡ true) votes
  adjusted-safe node g delegates votes =
      still_safe delegates (adjust node g delegates) votes
        (λ n h. ground (arith, contains-adjust node n g delegates))

module _ {F : Type 0} (f : FloatOps F) where
  pub register_delegate-safe :
      (node : String) (stake : F) (now : String) (d : Dpos F)
      → IsVoteSafe d
      → ((register_delegate f node stake now d).0 ≢ panic)
        × IsVoteSafe (register_delegate f node stake now d).1
  unfolding register_delegate
  register_delegate-safe node stake now d s = elim (Bool-cases (f.lt stake (f.decimal 100 0))) [
    | inl e ↦ rw (e, register_delegate) ((λ q. cc), s)
    | inr e ↦
        rw (e, register_delegate)
          ((λ q. cc), inserted-safe node (new_delegate f node stake now) d s)
  ]

  pub handle_new_delegate-safe :
      (content : DelegateData F) (now : String) (d : Dpos F)
      → IsVoteSafe d
      → ((handle_new_delegate f content now d).0 ≢ panic)
        × IsVoteSafe (handle_new_delegate f content now d).1
  unfolding handle_new_delegate
  handle_new_delegate-safe delegate_no_object now d s = ((λ q. cc), s)
  handle_new_delegate-safe delegate_no_node now d s = ((λ q. cc), s)
  handle_new_delegate-safe no_stake now d s = ((λ q. cc), s)
  handle_new_delegate-safe (delegate node stake) now d s = register_delegate-safe node stake now d s

  pub increase_stake-safe :
      (node : String) (additional : F) (d : Dpos F)
      → IsVoteSafe d
      → ((increase_stake f node additional d).0 ≢ panic)
        × IsVoteSafe (increase_stake f node additional d).1
  unfolding increase_stake
  increase_stake-safe node additional d s = elim (Option-cases (lookup node d.delegates)) [
    | inl e ↦ rw (e, increase_stake) ((λ q. cc), s)
    | inr (i, e) ↦ elim (Bool-cases (f.le additional (f.decimal 0 0))) [
      | inl le ↦ rw (e, increase_stake, le) ((λ q. cc), s)
      | inr gt ↦
          rw (e, increase_stake, gt)
            (
              (λ q. cc),
              adjusted-safe node (set_stake (f.add i.stake additional)) d.delegates
                  d.votes_by_node_id s,
            )
    ]
  ]

  pub handle_delegate_update-safe :
      (content : UpdateData F) (d : Dpos F)
      → IsVoteSafe d
      → ((handle_delegate_update f content d).0 ≢ panic)
        × IsVoteSafe (handle_delegate_update f content d).1
  unfolding handle_delegate_update
  handle_delegate_update-safe update_no_object d s = ((λ q. cc), s)
  handle_delegate_update-safe update_no_node d s = ((λ q. cc), s)
  handle_delegate_update-safe (update node none id) d s =
      elim (Option-cases (lookup node d.delegates)) [
        | inl e ↦ rw (e, handle_delegate_update) ((λ q. cc), s)
        | inr (i, e) ↦
            rw (e, handle_delegate_update)
              (
                (λ q. cc),
                adjusted-safe node (set_representativ id) d.delegates d.votes_by_node_id s,
              )
      ]
  handle_delegate_update-safe (update node (some stake) id) d s =
      elim (Option-cases (lookup node d.delegates)) [
        | inl e ↦ rw (e, handle_delegate_update) ((λ q. cc), s)
        | inr (i, e) ↦ elim (Bool-cases (f.lt stake (f.decimal 100 0))) [
          | inl low ↦ rw (e, handle_delegate_update, low) ((λ q. cc), s)
          | inr high ↦
              rw (e, handle_delegate_update, high)
                (
                  (λ q. cc),
                  adjusted-safe node (set_representativ id)
                      (adjust node (set_stake stake) d.delegates) d.votes_by_node_id
                      (adjusted-safe node (set_stake stake) d.delegates d.votes_by_node_id s),
                )
        ]
      ]
