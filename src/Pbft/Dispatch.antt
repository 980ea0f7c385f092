-- ===== src/Pbft/Dispatch.antt =====
-- A property of every handler's result is one of `ProcessConsensusMessage`.
use tc_node_validator_go.Base.{
  Bool, inl, inr, Bool-cases, Option, none, some, Outcome, err, str_eq, if◌then◌else◌,
}
use tc_node_validator_go.Chain.Block.{Block, Platform}
use tc_node_validator_go.Pbft.State.{Pbft, Message, PbftError, bad_block, unknown_kind}
use tc_node_validator_go.Pbft.Handlers.{
  handle_pre_prepare, handle_prepare, handle_commit, handle_view_change, dispatch_decoded,
  process_message,
}

branch {ℓ κ} :
    {A : Type ℓ} (P : A → Type κ) (test : Bool) {x y : A} → P x → P y → P (if test then x else y)
branch P test hx hy = elim (Bool-cases test) [ inl e ↦ rw e hx | inr e ↦ rw e hy ]

module _ {F J : Type 0} (platform : Platform F J) (m : Message F J) (p : Pbft F J) where
  pub process_message-rule :
      (P : Outcome PbftError (Unit {0}) × Pbft F J → Type 0)
      → ((e : PbftError) → P (err e, p))
      → ((b : Block F J) → P (handle_pre_prepare platform b m.node_id p))
      → ((b : Block F J) → P (handle_prepare b m.node_id p))
      → ((b : Block F J) → P (handle_commit b m.node_id p))
      → P (handle_view_change m.node_id m.view_field p)
      → P (process_message platform m p)
  unfolding process_message
  process_message-rule P refused pre prepare commit view = decoded m.block
    where
      decoded : (o : Option (Block F J)) → P (dispatch_decoded platform o m p)
      decoded none = refused bad_block
      decoded (some b) = branch P (str_eq m.kind "PrePrepare") (pre b) (
          branch P (str_eq m.kind "Prepare") (prepare b) (
            branch P (str_eq m.kind "Commit") (commit b)
              (branch P (str_eq m.kind "ViewChange") view (refused (unknown_kind m.kind)))))
