-- ===== src/Server/Handlers.antt =====
-- p2p/handlers.go: the requests that change the server. A body that JSON refuses is `none`.
use tc_node_validator_go.Base.{
  ℕ, String, Bool, not, Option, none, some, List, [], ◌∷◌, ℤ, str_eq, if◌then◌else◌, Outcome, ok,
  err, length,
}
use tc_node_validator_go.Chain.Block.{Block, BlockType, Transaction, CriticalProcess}
use tc_node_validator_go.Chain.Blockchain.{Blockchain, ChainError, add_block, last_of}
use tc_node_validator_go.Mempool.Pool.{add_item}
use tc_node_validator_go.Server.Node.{add_node, is_valid_node_address}
use tc_node_validator_go.Server.State.{
  transaction_of, process_of, Server, Answer, ok_200, created_201, bad_request_400, crashed,
  broadcast, tx_id, process_id_of,
}
use tc_node_validator_go.Server.Batches.{Setting, sync_chain_with_node, sync_chain}

abbrev stamped_tx : {F : Type 0} → String → Transaction F → Transaction F
stamped_tx now tx = record tx { timestamp = if str_eq tx.timestamp "" then now else tx.timestamp }

abbrev stamped_cp : {J : Type 0} → String → CriticalProcess J → CriticalProcess J
stamped_cp now cp = record cp { timestamp = if str_eq cp.timestamp "" then now else cp.timestamp }

abbrev block_answer : Outcome ChainError (Unit {0}) → Answer
block_answer (ok done_) = created_201
block_answer (err e) = bad_request_400
block_answer _ = crashed

-- What the status of a chain reports; the last block of an empty chain is a panic.
pub record ChainStatus (F J : Type 0) : Type 0 where
  pub length_of : ℕ
  pub block_type : BlockType
  pub last_block : Block F J
  pub difficulty : ℤ
  pub node_id : String
  pub known_nodes : List String

module _ {F J D : Type 0} where
  abbrev add_tx : String → Transaction F → Server F J D → Server F J D
  add_tx now tx s = record s { tx_mempool = add_item tx_id (stamped_tx now tx) s.tx_mempool }

  abbrev add_cp : String → CriticalProcess J → Server F J D → Server F J D
  add_cp now cp s = record s {
    critical_mempool = add_item process_id_of (stamped_cp now cp) s.critical_mempool;
  }

  unfoldable pub transaction_handler :
      String → Option (Transaction F) → Server F J D → Answer × Server F J D
  transaction_handler now none s = (bad_request_400, s)
  transaction_handler now (some tx) s =
      (created_201, broadcast (transaction_of (stamped_tx now tx)) (add_tx now tx s))

  -- A `null` in the batch is a nil pointer, and reading its timestamp panics; the transactions before
  -- it are in the pool.
  unfoldable pub add_each :
      String → List (Option (Transaction F)) → Server F J D → Answer × Server F J D
  add_each now [] s = (created_201, s)
  add_each now (none ∷ txs) s = (crashed, s)
  add_each now (some tx ∷ txs) s = add_each now txs (add_tx now tx s)

  unfoldable pub batch_transaction_handler :
      String → Option (List (Option (Transaction F))) → Server F J D → Answer × Server F J D
  batch_transaction_handler now none s = (bad_request_400, s)
  batch_transaction_handler now (some txs) s = add_each now txs s

  unfoldable pub critical_process_handler :
      String → Option (CriticalProcess J) → Server F J D → Answer × Server F J D
  critical_process_handler now none s = (bad_request_400, s)
  critical_process_handler now (some cp) s =
      (created_201, broadcast (process_of (stamped_cp now cp)) (add_cp now cp s))

  module _ (t : Setting F J D) where
    open t use {platform, save}

    unfoldable pub add_tx_block_handler : Option (Block F J) → Server F J D → Answer × Server F J D
    add_tx_block_handler none s = (bad_request_400, s)
    add_tx_block_handler (some b) s =
        let (answer, chain) = add_block platform save b s.tx_chain in
        (block_answer answer, record s { tx_chain = chain })

    unfoldable pub add_critical_block_handler :
        Option (Block F J) → Server F J D → Answer × Server F J D
    add_critical_block_handler none s = (bad_request_400, s)
    add_critical_block_handler (some b) s =
        let (answer, chain) = add_block platform save b s.critical_chain in
        (block_answer answer, record s { critical_chain = chain })

    -- `syncWithNode`: the two chains are synchronised at once and share nothing. A panic in it ends the
    -- program; the chains are then as they were.
    unfoldable pub sync_with_node :
        Option (List (Block F J)) → Option (List (Block F J)) → Server F J D → Server F J D
    sync_with_node tx_answer critical_answer s = record s {
      tx_chain = (sync_chain_with_node t tx_answer s.tx_chain).1;
      critical_chain = (sync_chain_with_node t critical_answer s.critical_chain).1;
    }

    unfoldable pub sync_chains :
        List (Option (List (Block F J)))
        → List (Option (List (Block F J)))
        → Server F J D
        → Server F J D
    sync_chains tx_answers critical_answers s = record s {
      tx_chain = (sync_chain t tx_answers s.tx_chain).1;
      critical_chain = (sync_chain t critical_answers s.critical_chain).1;
    }

    -- `RegisterNodeHandler`. `pingable` is what `isPingable` finds; the last two arguments are the
    -- chains that the new node answers the synchronisation with.
    unfoldable pub register_node_handler :
        (String → Option ℤ)
        → (String → Bool)
        → Option String
        → Option (List (Block F J))
        → Option (List (Block F J))
        → Server F J D
        → Answer × Server F J D
    unfolding sync_with_node
    register_node_handler atoi pingable none tx_answer critical_answer s = (bad_request_400, s)
    register_node_handler atoi pingable (some node) tx_answer critical_answer s =
        if not (is_valid_node_address atoi node)
        then (bad_request_400, s)
        else if pingable node
        then (let (added, n) = add_node node s.node in
            (
              if added then created_201 else ok_200,
              sync_with_node tx_answer critical_answer (record s { node = n }),
            ))
        else (bad_request_400, s)

  unfoldable blockchain_status_handler : Blockchain F J D → Server F J D → Option (ChainStatus F J)
  blockchain_status_handler chain s = elim chain.blocks [
    | [] ↦ none
    | g ∷ bs ↦ some (record {
      length_of = length chain.blocks;
      block_type = chain.block_type;
      last_block = last_of g bs;
      difficulty = chain.difficulty;
      node_id = s.node.id;
      known_nodes = s.node.known_nodes;
    })
  ]

  unfoldable get_chain_handler : Blockchain F J D → List (Block F J)
  get_chain_handler chain = chain.blocks

  unfoldable get_nodes_handler : Server F J D → List String
  get_nodes_handler s = s.node.known_nodes
