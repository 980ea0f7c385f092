-- ===== src/Server/Soundness.antt =====
-- The server's requests and its background work keep both chains sound.
use tc_node_validator_go.Base.{
  ℕ, zero, suc, String, Bool, Option, none, some, List, [], ◌∷◌, Option-cases, Bool-cases, inl, inr,
  take, drop, Outcome, ok, err, panic, deadlock, ℤ,
}
use tc_node_validator_go.Chain.Block.{Block, Transaction, CriticalProcess}
use tc_node_validator_go.Chain.Blockchain.{
  Blockchain, ChainError, add_block, create_block, replace_chain,
}
use tc_node_validator_go.Chain.Replacement.{IsSound, add-IsSound, replace-IsSound}
use tc_node_validator_go.Server.State.{Server}
use tc_node_validator_go.Server.Batches.{
  Setting, Done, finished, panicked, after_tx_add, after_critical_add, tx_block, critical_block,
  process_tx_batch, process_critical_batch, then_next, in_batches, process_tx_mempool,
  process_critical_mempool, broadcast_block,
}
use tc_node_validator_go.Server.State.{broadcast}
use tc_node_validator_go.Server.Handlers.{
  add_each, transaction_handler, batch_transaction_handler, critical_process_handler,
  add_tx_block_handler, add_critical_block_handler, sync_chains, register_node_handler,
}
use tc_node_validator_go.Server.Node.{is_valid_node_address}
use tc_node_validator_go.Server.Chains.{
  Request, post_tx, post_batch, post_critical, post_tx_block, post_critical_block, register, sync,
  process_txs, process_criticals, serve, serve_all, HasSoundChains, sync_with_node-kept,
  sync_chain-kept,
}

-- The two chains together, each with what is kept true of it.
module _ {F J D : Type 0} (t : Setting F J D) (P Q : Blockchain F J D → Type 0)
    (P_add : (b : Block F J) (c : Blockchain F J D) → P c → P (add_block t.platform t.save b c).1)
    (P_replace : (new : List (Block F J)) (c : Blockchain F J D)
      → P c
      → P (replace_chain t.platform t.save new c).1)
    (Q_add : (b : Block F J) (c : Blockchain F J D) → Q c → Q (add_block t.platform t.save b c).1)
    (Q_replace : (new : List (Block F J)) (c : Blockchain F J D)
      → Q c
      → Q (replace_chain t.platform t.save new c).1) where
  abbrev Kept : Server F J D → Type 0
  Kept s = P s.tx_chain × Q s.critical_chain

  after_tx_add-Kept :
      (items : List (Transaction F)) (b : Block F J) (s : Server F J D)
      (r : Outcome ChainError (Unit {0}) × Blockchain F J D)
      → P r.1
      → Q s.critical_chain
      → Kept (after_tx_add t items b s r).1
  unfolding broadcast_block broadcast
  after_tx_add-Kept items b s (ok done_, chain) h c = (h, c)
  after_tx_add-Kept items b s (err e, chain) h c = (h, c)
  after_tx_add-Kept items b s (panic, chain) h c = (h, c)
  after_tx_add-Kept items b s (deadlock, chain) h c = (h, c)

  after_critical_add-Kept :
      (items : List (CriticalProcess J)) (b : Block F J) (s : Server F J D)
      (r : Outcome ChainError (Unit {0}) × Blockchain F J D)
      → Q r.1
      → P s.tx_chain
      → Kept (after_critical_add t items b s r).1
  unfolding broadcast_block broadcast
  after_critical_add-Kept items b s (ok done_, chain) h c = (c, h)
  after_critical_add-Kept items b s (err e, chain) h c = (c, h)
  after_critical_add-Kept items b s (panic, chain) h c = (c, h)
  after_critical_add-Kept items b s (deadlock, chain) h c = (c, h)

  process_tx_batch-Kept :
      (now later : String) (items : List (Transaction F)) (s : Server F J D)
      → Kept s
      → Kept (process_tx_batch t now later items s).1
  unfolding process_tx_batch
  process_tx_batch-Kept now later items s h =
      elim (Option-cases (create_block t.platform t.save now s.tx_chain)) [
        | inl e ↦ rw (e, process_tx_batch) h
        | inr (b, e) ↦
            rw (e, process_tx_batch)
              (after_tx_add-Kept items _ s _
                (P_add (tx_block t s.node.id later items b) s.tx_chain h.0) h.1)
      ]

  process_critical_batch-Kept :
      (now later : String) (items : List (CriticalProcess J)) (s : Server F J D)
      → Kept s
      → Kept (process_critical_batch t now later items s).1
  unfolding process_critical_batch
  process_critical_batch-Kept now later items s h =
      elim (Option-cases (create_block t.platform t.save now s.critical_chain)) [
        | inl e ↦ rw (e, process_critical_batch) h
        | inr (b, e) ↦
            rw (e, process_critical_batch)
              (after_critical_add-Kept items _ s _
                (Q_add (critical_block t s.node.id later items b) s.critical_chain h.1) h.0)
      ]

  then_next-Kept :
      (more : Server F J D → Done × Server F J D) (r : Done × Server F J D)
      → Kept r.1
      → ((s : Server F J D) → Kept s → Kept (more s).1)
      → Kept (then_next t more r).1
  then_next-Kept more (finished, s) h go = go s h
  then_next-Kept more (panicked, s) h go = h

  in_batches-Kept :
      {I : Type 0} (process : List I → Server F J D → Done × Server F J D) (size fuel : ℕ)
      (items : List I) (s : Server F J D)
      → ((part : List I) (s : Server F J D) → Kept s → Kept (process part s).1)
      → Kept s
      → Kept (in_batches t process size fuel items s).1
  unfolding in_batches
  in_batches-Kept process size fuel [] s go h = h
  in_batches-Kept process size zero (item ∷ items) s go h = h
  in_batches-Kept process size (suc fuel) (item ∷ items) s go h =
      then_next-Kept _ (process (take size (item ∷ items)) s) (go (take size (item ∷ items)) s h)
        (λ s' h'. in_batches-Kept process size fuel (drop size (item ∷ items)) s' go h')

  add_each-Kept :
      (now : String) (txs : List (Option (Transaction F))) (s : Server F J D)
      → Kept s
      → Kept (add_each now txs s).1
  unfolding add_each
  add_each-Kept now [] s h = h
  add_each-Kept now (none ∷ txs) s h = h
  add_each-Kept now (some tx ∷ txs) s h = add_each-Kept now txs _ h

  register-Kept :
      (atoi : String → Option ℤ) (pingable : String → Bool) (node : Option String)
      (tx_answer critical_answer : Option (List (Block F J))) (s : Server F J D)
      → Kept s
      → Kept (register_node_handler t atoi pingable node tx_answer critical_answer s).1
  unfolding register_node_handler
  register-Kept atoi pingable none tx_answer critical_answer s h = h
  register-Kept atoi pingable (some node) tx_answer critical_answer s h =
      elim (Bool-cases (is_valid_node_address atoi node)) [
        | inr e ↦ rw e h
        | inl e ↦ elim (Bool-cases (pingable node)) [
          | inr f ↦ rw (e, f) h
          | inl f ↦
              rw (e, f)
                (
                  sync_with_node-kept t P P_add P_replace tx_answer s.tx_chain h.0,
                  sync_with_node-kept t Q Q_add Q_replace critical_answer s.critical_chain h.1,
                )
        ]
      ]

  serve-Kept : (q : Request F J) (s : Server F J D) → Kept s → Kept (serve t q s)
  unfolding serve transaction_handler batch_transaction_handler critical_process_handler broadcast
      add_tx_block_handler add_critical_block_handler sync_chains process_tx_mempool
      process_critical_mempool
  serve-Kept (post_tx now none) s h = h
  serve-Kept (post_tx now (some tx)) s h = h
  serve-Kept (post_batch now none) s h = h
  serve-Kept (post_batch now (some txs)) s h = add_each-Kept now txs s h
  serve-Kept (post_critical now none) s h = h
  serve-Kept (post_critical now (some cp)) s h = h
  serve-Kept (post_tx_block none) s h = h
  serve-Kept (post_tx_block (some b)) s h = (P_add b s.tx_chain h.0, h.1)
  serve-Kept (post_critical_block none) s h = h
  serve-Kept (post_critical_block (some b)) s h = (h.0, Q_add b s.critical_chain h.1)
  serve-Kept (register atoi pingable node tx_answer critical_answer) s h =
      register-Kept atoi pingable node tx_answer critical_answer s h
  serve-Kept (sync tx_answers critical_answers) s h = (
    sync_chain-kept t P P_add P_replace tx_answers s.tx_chain h.0,
    sync_chain-kept t Q Q_add Q_replace critical_answers s.critical_chain h.1,
  )
  serve-Kept (process_txs order now later) s h =
      in_batches-Kept (process_tx_batch t now later) 100 _ _ s (process_tx_batch-Kept now later) h
  serve-Kept (process_criticals order now later) s h =
      in_batches-Kept (process_critical_batch t now later) 50 _ _ s
        (process_critical_batch-Kept now later) h

  pub serve_all-Kept :
      (qs : List (Request F J)) (s : Server F J D) → Kept s → Kept (serve_all t qs s)
  unfolding serve_all
  serve_all-Kept [] s h = h
  serve_all-Kept (q ∷ qs) s h = serve_all-Kept qs _ (serve-Kept q s h)

-- Under every sequence of requests, block and chain synchronisations and runs of the background work,
-- whatever other nodes send and whether the database fails or not, both chains stay sound: each keeps
-- its genesis hash, its blocks continue one another, and it never becomes shorter.
pub serve_all-HasSoundChains :
    {F J D : Type 0} (t : Setting F J D) (qs : List (Request F J)) (g h : String) (m n : ℕ)
    (s : Server F J D)
    → HasSoundChains t g h m n s
    → HasSoundChains t g h m n (serve_all t qs s)
serve_all-HasSoundChains t qs g h m n s sound =
    let kept =
      serve_all-Kept t (λ c. IsSound t.platform t.save g m c) (λ c. IsSound t.platform t.save h n c)
        (λ b c k. add-IsSound t.platform t.save b g m c k)
        (λ new c k. replace-IsSound t.platform t.save new g m c k)
        (λ b c k. add-IsSound t.platform t.save b h n c k)
        (λ new c k. replace-IsSound t.platform t.save new h n c k) qs s
        (sound.tx_sound, sound.critical_sound) in
    record { tx_sound = kept.0; critical_sound = kept.1 }
