-- ===== src/Server/Batches.antt =====
-- p2p/handlers.go and p2p/network.go: blocks from the pools, blocks and chains from other nodes.
use tc_node_validator_go.Base.{
  ℕ, zero, suc, String, Option, none, some, List, [], ◌∷◌, length, take, drop, ltb, pos,
  if◌then◌else◌, FloatOps, Dict, Outcome, ok, err, panic, deadlock,
}
use tc_node_validator_go.Chain.Block.{Block, Transaction, CriticalProcess, Platform, forge_block}
use tc_node_validator_go.Chain.Blockchain.{
  Blockchain, ChainError, add_block, create_block, check_chain, replace_chain,
}
use tc_node_validator_go.Chain.Extension.{filled_with}
use tc_node_validator_go.Mempool.Pool.{get_pending_items, remove_processed_items}
use tc_node_validator_go.Server.State.{block_of, Server, broadcast, tx_id, process_id_of}

-- What the server rests on: the platform of the blocks, float64, the database, and the HMAC of a
-- hash under a key.
pub record Setting (F J D : Type 0) : Type 0 where
  pub platform : Platform F J
  pub floats : FloatOps F
  pub save : Block F J → D → Option D
  pub hmac : String → String → String

-- Whether a step of the background work ended or panicked.
pub data Done : Type 0 where
  finished panicked : Done

module _ {F J D : Type 0} (t : Setting F J D) where
  open t use {platform, floats, save, hmac}

  unfoldable pub sum_fees : F → List (Transaction F) → F
  sum_fees total [] = total
  sum_fees total (tx ∷ txs) =
      sum_fees
        (floats.add total (floats.mul (floats.of_int (pos tx.gas_limit)) (floats.decimal 1 4))) txs

  unfoldable pub calculate_total_fees : List (Transaction F) → F
  calculate_total_fees txs = sum_fees platform.zero_fees txs

  -- `optimizedBroadcastBlock`: the first attempt for every node. Retries send the same message.
  unfoldable pub broadcast_block : Block F J → String → Server F J D → Server F J D
  broadcast_block b chain_type s =
      broadcast (block_of chain_type b (hmac s.node.private_key b.hash)) s

  -- The part of a batch after `AddBlock`. A block that is refused is logged, and its items stay.
  abbrev pub after_tx_add :
      List (Transaction F)
      → Block F J
      → Server F J D
      → Outcome ChainError (Unit {0}) × Blockchain F J D
      → Done × Server F J D
  after_tx_add items b s (ok done_, chain) = (
    finished,
    broadcast_block b "tx" (record s {
      tx_chain = chain;
      tx_mempool = remove_processed_items tx_id items s.tx_mempool;
    }),
  )
  after_tx_add items b s (err e, chain) = (finished, record s { tx_chain = chain })
  after_tx_add items b s (_, chain) = (panicked, record s { tx_chain = chain })

  -- The block of a batch. `now` is the time of `CreateBlock` and `later` that of `ForgeBlock`.
  abbrev pub tx_block : String → String → List (Transaction F) → Block F J → Block F J
  tx_block id later items b =
      forge_block platform id later (filled_with (some items) none (calculate_total_fees items) b)

  unfoldable pub process_tx_batch :
      String → String → List (Transaction F) → Server F J D → Done × Server F J D
  process_tx_batch now later items s = elim (create_block platform save now s.tx_chain) [
    | none ↦ (panicked, s)
    | some b ↦
        after_tx_add items (tx_block s.node.id later items b) s
          (add_block platform save (tx_block s.node.id later items b) s.tx_chain)
  ]

  abbrev pub after_critical_add :
      List (CriticalProcess J)
      → Block F J
      → Server F J D
      → Outcome ChainError (Unit {0}) × Blockchain F J D
      → Done × Server F J D
  after_critical_add items b s (ok done_, chain) = (
    finished,
    broadcast_block b "critical" (record s {
      critical_chain = chain;
      critical_mempool = remove_processed_items process_id_of items s.critical_mempool;
    }),
  )
  after_critical_add items b s (err e, chain) = (finished, record s { critical_chain = chain })
  after_critical_add items b s (_, chain) = (panicked, record s { critical_chain = chain })

  abbrev pub critical_block : String → String → List (CriticalProcess J) → Block F J → Block F J
  critical_block id later items b =
      forge_block platform id later (filled_with b.transactions (some items) b.total_fees b)

  unfoldable pub process_critical_batch :
      String → String → List (CriticalProcess J) → Server F J D → Done × Server F J D
  process_critical_batch now later items s =
      elim (create_block platform save now s.critical_chain) [
        | none ↦ (panicked, s)
        | some b ↦
            after_critical_add items (critical_block s.node.id later items b) s
              (add_block platform save (critical_block s.node.id later items b) s.critical_chain)
      ]

  abbrev pub then_next :
      (Server F J D → Done × Server F J D) → Done × Server F J D → Done × Server F J D
  then_next more (finished, s) = more s
  then_next more (panicked, s) = (panicked, s)

  -- The loop over the batches of a list. Its length is fuel enough, since no batch is empty.
  unfoldable pub in_batches :
      {I : Type 0}
      → (List I → Server F J D → Done × Server F J D)
      → ℕ
      → ℕ
      → List I
      → Server F J D
      → Done × Server F J D
  in_batches process size fuel [] s = (finished, s)
  in_batches process size zero (item ∷ items) s = (finished, s)
  in_batches process size (suc fuel) (item ∷ items) s =
      then_next (in_batches process size fuel (drop size (item ∷ items)))
        (process (take size (item ∷ items)) s)

  unfoldable pub process_tx_mempool :
      (Dict (Transaction F) → Dict (Transaction F))
      → String
      → String
      → Server F J D
      → Done × Server F J D
  process_tx_mempool order now later s =
      let pending = get_pending_items order s.tx_mempool in
      in_batches (process_tx_batch now later) 100 (length pending) pending s

  unfoldable pub process_critical_mempool :
      (Dict (CriticalProcess J) → Dict (CriticalProcess J))
      → String
      → String
      → Server F J D
      → Done × Server F J D
  process_critical_mempool order now later s =
      let pending = get_pending_items order s.critical_mempool in
      in_batches (process_critical_batch now later) 50 (length pending) pending s

  -- `syncChainWithNode`, given the chain that the node answered with, `none` for an error.
  abbrev pub adopt :
      List (Block F J) → Outcome ChainError (Unit {0}) → Blockchain F J D → Done × Blockchain F J D
  adopt remote (ok done_) chain =
      if ltb (length chain.blocks) (length remote)
      then (finished, (replace_chain platform save remote chain).1)
      else (finished, chain)
  adopt remote (err e) chain = (finished, chain)
  adopt remote _ chain = (panicked, chain)

  unfoldable pub sync_chain_with_node :
      Option (List (Block F J)) → Blockchain F J D → Done × Blockchain F J D
  sync_chain_with_node none chain = (finished, chain)
  sync_chain_with_node (some remote) chain =
      adopt remote (check_chain platform chain.difficulty chain.blocks remote) chain

  -- The loop of `syncChain` over the other nodes' answers, with the best chain so far and the length
  -- to beat; `none` is a panic.
  unfoldable pub best_chain :
      Blockchain F J D
      → Option (List (Block F J))
      → ℕ
      → List (Option (List (Block F J)))
      → Option (Option (List (Block F J)))
  best_chain chain best longest [] = some best
  best_chain chain best longest (none ∷ answers) = best_chain chain best longest answers
  best_chain chain best longest (some remote ∷ answers) =
      let better = best_chain chain (some remote) (length remote) answers in
      let same = best_chain chain best longest answers in
      elim (check_chain platform chain.difficulty chain.blocks remote) [
        | ok done_ ↦ if ltb longest (length remote) then better else same
        | err e ↦ same
        | panic ↦ none
        | deadlock ↦ none
      ]

  abbrev pub adopt_best :
      Option (Option (List (Block F J))) → Blockchain F J D → Done × Blockchain F J D
  adopt_best none chain = (panicked, chain)
  adopt_best (some none) chain = (finished, chain)
  adopt_best (some (some remote)) chain = (finished, (replace_chain platform save remote chain).1)

  unfoldable pub sync_chain :
      List (Option (List (Block F J))) → Blockchain F J D → Done × Blockchain F J D
  sync_chain answers chain = adopt_best (best_chain chain none (length chain.blocks) answers) chain
