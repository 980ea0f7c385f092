-- ===== src/Server/Chains.antt =====
-- The server's two chains under its requests and its background work.
use tc_node_validator_go.Base.{
  ℕ, String, Bool, Option, none, some, List, [], ◌∷◌, Bool-cases, inl, inr, length, Outcome, ok,
  err, panic, deadlock, ℤ, Dict, ltb,
}
use tc_node_validator_go.Chain.Block.{Block, Transaction, CriticalProcess}
use tc_node_validator_go.Chain.Blockchain.{Blockchain, ChainError, add_block, replace_chain}
use tc_node_validator_go.Chain.Replacement.{IsSound}
use tc_node_validator_go.Server.State.{Server}
use tc_node_validator_go.Server.Batches.{
  Setting, process_tx_mempool, process_critical_mempool, sync_chain_with_node, sync_chain, adopt,
  adopt_best,
}
use tc_node_validator_go.Server.Handlers.{
  transaction_handler, batch_transaction_handler, critical_process_handler, add_tx_block_handler,
  add_critical_block_handler, sync_chains, register_node_handler,
}

-- What the server is asked to do, and what it does by itself.
pub data Request (F J : Type 0) : Type 0 where
  post_tx : String → Option (Transaction F) → Request F J
  post_batch : String → Option (List (Option (Transaction F))) → Request F J
  post_critical : String → Option (CriticalProcess J) → Request F J
  post_tx_block post_critical_block : Option (Block F J) → Request F J
  register :
      (String → Option ℤ)
      → (String → Bool)
      → Option String
      → Option (List (Block F J))
      → Option (List (Block F J))
      → Request F J
  sync : List (Option (List (Block F J))) → List (Option (List (Block F J))) → Request F J
  process_txs : (Dict (Transaction F) → Dict (Transaction F)) → String → String → Request F J
  process_criticals :
      (Dict (CriticalProcess J) → Dict (CriticalProcess J)) → String → String → Request F J

module _ {F J D : Type 0} (t : Setting F J D) where
  open t use {platform, save}

  unfoldable pub serve : Request F J → Server F J D → Server F J D
  serve (post_tx now tx) s = (transaction_handler now tx s).1
  serve (post_batch now txs) s = (batch_transaction_handler now txs s).1
  serve (post_critical now cp) s = (critical_process_handler now cp s).1
  serve (post_tx_block b) s = (add_tx_block_handler t b s).1
  serve (post_critical_block b) s = (add_critical_block_handler t b s).1
  serve (register atoi pingable node tx_answer critical_answer) s =
      (register_node_handler t atoi pingable node tx_answer critical_answer s).1
  serve (sync tx_answers critical_answers) s = sync_chains t tx_answers critical_answers s
  serve (process_txs order now later) s = (process_tx_mempool t order now later s).1
  serve (process_criticals order now later) s = (process_critical_mempool t order now later s).1

  unfoldable pub serve_all : List (Request F J) → Server F J D → Server F J D
  serve_all [] s = s
  serve_all (q ∷ qs) s = serve_all qs (serve q s)

  -- Both chains are sound: each has a first block with its genesis hash, its blocks continue one
  -- another, and it has at least a given number of blocks.
  pub record HasSoundChains (g h : String) (m n : ℕ) (s : Server F J D) : Type 0 where
    pub tx_sound : IsSound platform save g m s.tx_chain
    pub critical_sound : IsSound platform save h n s.critical_chain

-- Whatever `AddBlock` and `ReplaceChain` keep true of a chain, the server keeps true of it.
module _ {F J D : Type 0} (t : Setting F J D) (P : Blockchain F J D → Type 0)
    (add_kept : (b : Block F J) (c : Blockchain F J D)
      → P c
      → P (add_block t.platform t.save b c).1)
    (replace_kept : (new : List (Block F J)) (c : Blockchain F J D)
      → P c
      → P (replace_chain t.platform t.save new c).1) where
  adopt-kept :
      (remote : List (Block F J)) (answer : Outcome ChainError (Unit {0}))
      (chain : Blockchain F J D)
      → P chain
      → P (adopt t remote answer chain).1
  adopt-kept remote (ok done_) chain s =
      elim (Bool-cases (ltb (length chain.blocks) (length remote))) [
        | inl e ↦ rw e (replace_kept remote chain s)
        | inr e ↦ rw e s
      ]
  adopt-kept remote (err e) chain s = s
  adopt-kept remote panic chain s = s
  adopt-kept remote deadlock chain s = s

  pub sync_with_node-kept :
      (remote : Option (List (Block F J))) (chain : Blockchain F J D)
      → P chain
      → P (sync_chain_with_node t remote chain).1
  unfolding sync_chain_with_node
  sync_with_node-kept none chain s = s
  sync_with_node-kept (some remote) chain s = adopt-kept remote _ chain s

  adopt_best-kept :
      (best : Option (Option (List (Block F J)))) (chain : Blockchain F J D)
      → P chain
      → P (adopt_best t best chain).1
  adopt_best-kept none chain s = s
  adopt_best-kept (some none) chain s = s
  adopt_best-kept (some (some remote)) chain s = replace_kept remote chain s

  pub sync_chain-kept :
      (answers : List (Option (List (Block F J)))) (chain : Blockchain F J D)
      → P chain
      → P (sync_chain t answers chain).1
  unfolding sync_chain
  sync_chain-kept answers chain s = adopt_best-kept _ chain s
