-- ===== src/Startup/Consensus.antt =====
-- consensus/factory.go: `NewConsensus`; the consensus of a chain, and what `main` sets up with it.
use tc_node_validator_go.Base.{
  ℕ, String, Option, none, some, List, Dict, FloatOps, Outcome, ok, err, panic, deadlock, str_eq,
  if◌then◌else◌,
}
use tc_node_validator_go.Currency.State.{CurrencyManager}
use tc_node_validator_go.Chain.Block.{Platform, transaction_block, critical_process_block}
use tc_node_validator_go.Pbft.State.{Pbft, new_pbft, initialize}
use tc_node_validator_go.Dpos.State.{DelegateInfo}
use tc_node_validator_go.Dpos.Validators.{ValidatorSet, new_validator_set}
use tc_node_validator_go.Dpos.Founding.{initialize_dpos}
use tc_node_validator_go.Storage.Store.{LevelDb, Codec}
use tc_node_validator_go.Startup.State.{Contract, System, StartError, finished}
use tc_node_validator_go.Startup.Manager.{initialize_blockchain}
use tc_node_validator_go.Startup.Deployment.{Clock, deploy_system_contracts}

pub data Consensus (F J : Type 0) : Type 0 where
  dpos : ValidatorSet F → Consensus F J
  pbft : Pbft F J → Consensus F J

-- The error for a kind that is not supported.
pub data ConsensusError : Type 0 where
  unsupported : String → ConsensusError

-- What the random numbers, the clock and the order of a map are when a consensus starts.
pub record Chance (F : Type 0) : Type 0 where
  pub draw : String → ℕ × ℕ
  pub clock : ℕ
  pub now : String
  pub order : Dict (DelegateInfo F) → List (String × DelegateInfo F)

abbrev started_pbft : {F J : Type 0} → Option (Pbft F J) → Outcome ConsensusError (Consensus F J)
started_pbft none = panic
started_pbft (some p) = ok (pbft p)

abbrev start_dpos : {F : Type 0} → FloatOps F → Chance F → String → ValidatorSet F → ValidatorSet F
start_dpos f chance node v = record v {
  dpos = initialize_dpos f chance.order node chance.draw chance.clock chance.now v.dpos;
}

module _ {F J : Type 0} (f : FloatOps F) where
  unfoldable pub new_consensus :
      Chance F → String → String → CurrencyManager → Outcome ConsensusError (Consensus F J)
  new_consensus chance kind node currency =
      if str_eq kind "DPOS"
      then ok (dpos (start_dpos f chance node (new_validator_set f currency)))
      else if str_eq kind "PBFT"
      then started_pbft (initialize node new_pbft)
      else err (unsupported kind)

-- A chain with its contracts, its currency and the consensus that `SetConsensus` gave it.
pub record ChainSystem (F J D : Type 0) : Type 0 where
  pub system : System F J D
  pub consensus : Consensus F J

pub data MainError : Type 0 where
  chain_failed : StartError → MainError
  consensus_failed : ConsensusError → MainError

-- `log.Fatal` on an error.
abbrev pub go_on :
    {E A B : Type 0}
    → (E → MainError)
    → Outcome E A
    → (A → Outcome MainError B)
    → Outcome MainError B
go_on fatal (ok a) k = k a
go_on fatal (err e) k = err (fatal e)
go_on fatal panic k = panic
go_on fatal deadlock k = deadlock

module _ {F J V D : Type 0} (f : FloatOps F) (p : Platform F J) (c : Codec F J Contract V)
    (ldb : LevelDb D) (chance : Chance F) (node : String) (now : String) (clock : Clock) where
  -- The deployment on the transaction chain ends without an error.
  abbrev pub with_contracts :
      System F J D
      → System F J D
      → Consensus F J
      → Consensus F J
      → Outcome MainError (ChainSystem F J D × ChainSystem F J D)
  with_contracts tx critical consensus_tx consensus_critical =
      go_on chain_failed (finished (deploy_system_contracts p c ldb now clock tx)) (λ tx'. ok (
        record { system = tx'; consensus = consensus_tx },
        record { system = critical; consensus = consensus_critical },
      ))

  abbrev pub with_consensus :
      System F J D
      → System F J D
      → Option CurrencyManager
      → Outcome MainError (ChainSystem F J D × ChainSystem F J D)
  with_consensus tx critical none = panic
  with_consensus tx critical (some cm) =
      go_on consensus_failed (new_consensus f chance "DPOS" node cm) (λ consensus_tx.
        go_on consensus_failed (new_consensus f chance "PBFT" node cm)
          (λ consensus_critical. with_contracts tx critical consensus_tx consensus_critical))

  -- `main` up to the mempools: both chains with their directories open, their consensus, and the
  -- system contracts.
  unfoldable pub start_node : D → D → Outcome MainError (ChainSystem F J D × ChainSystem F J D)
  start_node tx_db critical_db =
      go_on chain_failed (initialize_blockchain p c ldb transaction_block now tx_db) (λ tx.
        go_on chain_failed (initialize_blockchain p c ldb critical_process_block now critical_db)
          (λ critical. with_consensus tx critical tx.currency))
