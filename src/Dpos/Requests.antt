-- ===== src/Dpos/Requests.antt =====
-- The requests that change delegates and votes, from messages and from the node itself.
use tc_node_validator_go.Base.{
  String, ◌≢◌, inl, inr, Bool, Bool-cases, List, [], ◌∷◌, str_eq, if◌then◌else◌, FloatOps, Outcome,
  panic,
}
use tc_node_validator_go.Dpos.State.{Dpos, DposError, Call}
use tc_node_validator_go.Dpos.Delegates.{
  Message, register_vote, unregister_delegate, register_delegate, increase_stake, process_message,
}
use tc_node_validator_go.Dpos.Votes.{
  IsVoteSafe, register_vote-safe, handle_vote-safe, unregister_delegate-safe,
  register_delegate-safe, handle_new_delegate-safe, increase_stake-safe,
  handle_delegate_update-safe,
}

-- A call, with its arguments and the clock's reading.
pub data Request (F : Type 0) : Type 0 where
  message : Message F → String → Request F
  vote : String → String → Request F
  register : String → F → String → Request F
  unregister : String → Request F
  increase : String → F → Request F

abbrev pub NonePanics : List (Outcome DposError (Unit {0})) → Type 0
NonePanics [] = Unit
NonePanics (o ∷ os) = (o ≢ panic) × NonePanics os

module _ {F : Type 0} (f : FloatOps F) where
  unfoldable pub serve : Request F → Call F (Unit {0})
  serve (message m now) d = process_message f m now d
  serve (vote voter name) d = register_vote voter name d
  serve (register node stake now) d = register_delegate f node stake now d
  serve (unregister node) d = unregister_delegate node d
  serve (increase node additional) d = increase_stake f node additional d

  -- What every call of a sequence ended with, and the state after the last.
  unfoldable pub serve_all :
      List (Request F) → Dpos F → List (Outcome DposError (Unit {0})) × Dpos F
  serve_all [] d = ([], d)
  serve_all (r ∷ rs) d = let (o, d') = serve r d in let (os, d'') = serve_all rs d' in (o ∷ os, d'')

  abbrev IsFine : Outcome DposError (Unit {0}) × Dpos F → Type 0
  IsFine (o, d) = (o ≢ panic) × IsVoteSafe d

  branch :
      (test : Bool) (x y : Outcome DposError (Unit {0}) × Dpos F)
      → IsFine x
      → IsFine y
      → IsFine (if test then x else y)
  branch test x y hx hy = elim (Bool-cases test) [ inl e ↦ rw e hx | inr e ↦ rw e hy ]

  process_message-IsFine :
      (m : Message F) (now : String) (d : Dpos F)
      → IsVoteSafe d
      → IsFine (process_message f m now d)
  unfolding process_message
  process_message-IsFine m now d s =
      branch (str_eq m.kind "Vote") _ _ (handle_vote-safe m.vote_data d s) (
        branch (str_eq m.kind "NewDelegate") _ _
          (handle_new_delegate-safe f m.delegate_data now d s)
          (branch (str_eq m.kind "DelegateUpdate") _ _
            (handle_delegate_update-safe f m.update_data d s) ((λ q. cc), s)))

  serve-IsFine : (r : Request F) (d : Dpos F) → IsVoteSafe d → IsFine (serve r d)
  unfolding serve
  serve-IsFine (message m now) d s = process_message-IsFine m now d s
  serve-IsFine (vote voter name) d s = register_vote-safe voter name d s
  serve-IsFine (register node stake now) d s = register_delegate-safe f node stake now d s
  serve-IsFine (unregister node) d s = unregister_delegate-safe node d s
  serve-IsFine (increase node additional) d s = increase_stake-safe f node additional d s

  -- If every recorded vote is for a delegate that exists, it stays so under any sequence of
  -- messages, votes, registrations, removals and increases of stakes, and no call of the sequence
  -- panics, though a vote is taken back through a pointer that would be nil if its delegate were
  -- missing.
  pub serve_all-IsVoteSafe :
      (rs : List (Request F)) (d : Dpos F)
      → IsVoteSafe d
      → NonePanics (serve_all rs d).0 × IsVoteSafe (serve_all rs d).1
  unfolding serve_all
  serve_all-IsVoteSafe [] d s = (tt, s)
  serve_all-IsVoteSafe (r ∷ rs) d s =
      let (fine, safe) = serve-IsFine r d s in
      let (rest, at_end) = serve_all-IsVoteSafe rs (serve r d).1 safe in ((fine, rest), at_end)
