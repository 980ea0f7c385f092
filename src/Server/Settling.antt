-- ===== src/Server/Settling.antt =====
-- What a run of the background work makes of the items that wait.
use mathlib.Core.List.{Perm}
use mathlib.Core.Path.{subst}
use tc_node_validator_go.Base.{
  ℕ, zero, suc, ◌≤◌, String, ◌≡◌, ap, refl, none, some, List, [], ◌∷◌, ◌++◌, length, take, drop,
  Outcome, ok, err, panic, deadlock, if◌then◌else◌, Dict, arith,
}
use tc_node_validator_go.Chain.Block.{Block, Transaction, forge_block}
use tc_node_validator_go.Chain.Blockchain.{Blockchain, ChainError, add_block, create_block}
use tc_node_validator_go.Chain.Extension.{add_block-create_block}
use tc_node_validator_go.Mempool.Pool.{
  get_item, get_pending_items, remove_processed_items, has_id, get_item-remove_processed_items,
}
use tc_node_validator_go.Mempool.Pending.{get_pending_items-IsPart}
use tc_node_validator_go.Server.State.{block_of, Server, addressed, broadcast, tx_id}
use tc_node_validator_go.Server.Batches.{
  Setting, Done, finished, panicked, calculate_total_fees, broadcast_block, after_tx_add, tx_block,
  process_tx_batch, then_next, in_batches, process_tx_mempool,
}

take_all : {I : Type 0} (n : ℕ) (items : List I) → length items ≤ n → take n items ≡ items
take_all zero [] h = refl
take_all zero (x ∷ xs) h = absurd (omega (arith, h))
take_all (suc n) [] h = refl
take_all (suc n) (x ∷ xs) h = ap (◌∷◌ x) (take_all n xs (omega (arith, h)))

drop_all : {I : Type 0} (n : ℕ) (items : List I) → length items ≤ n → drop n items ≡ []
drop_all zero [] h = refl
drop_all zero (x ∷ xs) h = absurd (omega (arith, h))
drop_all (suc n) [] h = refl
drop_all (suc n) (x ∷ xs) h = drop_all n xs (omega (arith, h))

module _ {F J D : Type 0} (t : Setting F J D) where
  open t use {platform, save, hmac}

  no_more_batches :
      {I : Type 0} (process : List I → Server F J D → Done × Server F J D) (size fuel : ℕ)
      (r : Done × Server F J D)
      → then_next t (in_batches t process size fuel []) r ≡ r
  unfolding in_batches
  no_more_batches process size fuel (finished, s) = refl
  no_more_batches process size fuel (panicked, s) = refl

  -- Items that fit into one batch are processed as one.
  one_batch :
      {I : Type 0} (process : List I → Server F J D → Done × Server F J D) (size : ℕ) (item : I)
      (items : List I) (s : Server F J D)
      → length (item ∷ items) ≤ size
      → in_batches t process size (length (item ∷ items)) (item ∷ items) s
        ≡ process (item ∷ items) s
  unfolding in_batches
  one_batch process size item items s h =
      rw (take_all size (item ∷ items) h, drop_all size (item ∷ items) h)
        (no_more_batches process size (length items) (process (item ∷ items) s))

  added_tx :
      (items : List (Transaction F)) (b : Block F J) (s : Server F J D)
      (r : Outcome ChainError (Unit {0}) × Blockchain F J D)
      → r.0 ≡ ok tt
      → after_tx_add t items b s r ≡ (
        finished,
        broadcast_block t b "tx" (record s {
          tx_chain = r.1;
          tx_mempool = remove_processed_items tx_id items s.tx_mempool;
        }),
      )
  added_tx items b s (ok done_, chain) h = refl
  added_tx items b s (err e, chain) h = cc
  added_tx items b s (panic, chain) h = cc
  added_tx items b s (deadlock, chain) h = cc

  process_tx_batch_lem :
      (now later : String) (items : List (Transaction F)) (s : Server F J D) (g b : Block F J)
      (bs : List (Block F J)) (db' : D)
      → s.tx_chain.blocks ≡ g ∷ bs
      → create_block platform save now s.tx_chain ≡ some b
      → save (tx_block t s.node.id later items b) s.tx_chain.db ≡ some db'
      → let forged = tx_block t s.node.id later items b in
        process_tx_batch t now later items s ≡ (
          finished,
          broadcast_block t forged "tx" (record s {
            tx_chain = (add_block platform save forged s.tx_chain).1;
            tx_mempool = remove_processed_items tx_id items s.tx_mempool;
          }),
        )
  unfolding process_tx_batch
  process_tx_batch_lem now later items s g b bs db' e made saved =
      let (went_in, _) =
        add_block-create_block platform save s.node.id now later (some items) none
          (calculate_total_fees t items) g b bs s.tx_chain db' e made saved in
      rw (made, process_tx_batch)
        (added_tx items (tx_block t s.node.id later items b) s
          (add_block platform save (tx_block t s.node.id later items b) s.tx_chain) went_in)

  -- When the database saves the block, a run of `ProcessTxMempool` on a chain with a first block and
  -- on a pool with pending items ends: the chain has one more block, which holds the pending
  -- transactions, they have left the pool, which keeps every other one, and the block has been sent
  -- to every known node but this one.
  pub process_tx_mempool-settles :
      (order : Dict (Transaction F) → Dict (Transaction F)) (now later : String)
      (item : Transaction F) (items : List (Transaction F)) (s : Server F J D) (g b : Block F J)
      (bs : List (Block F J)) (db' : D)
      → ((m : Dict (Transaction F)) → Perm (order m) m)
      → get_pending_items order s.tx_mempool ≡ item ∷ items
      → s.tx_chain.blocks ≡ g ∷ bs
      → create_block platform save now s.tx_chain ≡ some b
      → save (tx_block t s.node.id later (item ∷ items) b) s.tx_chain.db ≡ some db'
      → let forged = tx_block t s.node.id later (item ∷ items) b in
        let (d, s') = process_tx_mempool t order now later s in
        (d ≡ finished)
        × (s'.tx_chain.blocks ≡ s.tx_chain.blocks ++ forged ∷ [])
        × (forged.transactions ≡ some (item ∷ items))
        × ((id : String)
            → get_item id s'.tx_mempool
              ≡ (if has_id tx_id id (item ∷ items) then none else get_item id s.tx_mempool))
        × (s'.sent
            ≡ s.sent
              ++ addressed s.node.id
                  (block_of "tx" forged (hmac s.node.private_key forged.hash))
                  s.node.known_nodes)
  unfolding process_tx_mempool broadcast_block broadcast forge_block
  process_tx_mempool-settles order now later item items s g b bs db' perm pending e made saved =
      let forged = tx_block t s.node.id later (item ∷ items) b in
      let part = get_pending_items-IsPart order s.tx_mempool perm in
      let few : length (item ∷ items) ≤ 100 = subst (λ x. length x ≤ 100) pending part.bounded in
      let (_, grown) =
        add_block-create_block platform save s.node.id now later (some (item ∷ items)) none
          (calculate_total_fees t (item ∷ items)) g b bs s.tx_chain db' e made saved in
      rw
        (
          pending,
          one_batch (process_tx_batch t now later) 100 item items s few,
          process_tx_batch_lem now later (item ∷ items) s g b bs db' e made saved,
        )
        (
          refl,
          grown,
          refl,
          λ id. get_item-remove_processed_items tx_id id (item ∷ items) s.tx_mempool,
          refl,
        )
