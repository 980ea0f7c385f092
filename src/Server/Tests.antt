-- ===== src/Server/Tests.antt =====
-- The server theorems at a concrete server, whose chains have a genesis block.
use mathlib.Core.List.Perm
use tc_node_validator_go.Base.{
  ℕ, zero, suc, ◌≤◌, true, Option, String, ◌≡◌, refl, none, some, [], ◌∷◌, pos_part, ◌+◌, ◌-◌, ◌*◌,
  ◌/◌, ltb, leb, FloatOps, if◌then◌else◌,
}
use tc_node_validator_go.Chain.Block.{Transaction, new_block, transaction_block}
use tc_node_validator_go.Chain.Blockchain.{create_block, last_of}
use tc_node_validator_go.Chain.Tests.{toy, count_saved, genesis, second, third, node, node-IsSound}
use tc_node_validator_go.Mempool.Pool.{collect, get_item, get_pending_items, has_id}
use tc_node_validator_go.Server.Node.{Node}
use tc_node_validator_go.Server.State.{Server, block_of, tx_id, addressed}
use tc_node_validator_go.Server.Batches.{Setting, finished, tx_block, process_tx_mempool}
use tc_node_validator_go.Server.Chains.{
  post_tx, post_tx_block, sync, process_txs, serve_all, HasSoundChains,
}
use tc_node_validator_go.Server.Soundness.{serve_all-HasSoundChains}
use tc_node_validator_go.Server.Delivery.{
  broadcast_block_to_node, deliver, takes, Tried, broadcast_block_to_node-Tried,
}
use tc_node_validator_go.Server.Settling.{process_tx_mempool-settles}

abbrev naturals : FloatOps ℕ
naturals = record {
  add = λ a b. a + b;
  sub = λ a b. a - b;
  mul = λ a b. a * b;
  div = λ a b. a / b;
  lt = λ a b. ltb a b;
  le = λ a b. leb a b;
  of_int = λ z. pos_part z;
  decimal = λ n k. n;
  scale = λ z x. some z;
}

abbrev setting : Setting ℕ ℕ ℕ
setting = record { platform = toy; floats = naturals; save = count_saved; hmac = λ key hash. "s" }

abbrev here : Node
here = record {
  id = "localhost:3000";
  port = 3000;
  known_nodes = "localhost:3000" ∷ "localhost:3001" ∷ [];
  private_key = "k";
}

abbrev payment : Transaction ℕ
payment = record {
  process_id = "p1";
  description = "";
  payload = record { amount = 1; sender = "ana"; recipient = "bob" };
  timestamp = "t";
  signature = "";
  gas_limit = 5;
}

abbrev server : Server ℕ ℕ ℕ
server = record {
  node = here;
  tx_chain = node;
  critical_chain = node;
  tx_mempool = record { items = ("p1", payment) ∷ [] };
  critical_mempool = record { items = [] };
  sent = [];
}

server-HasSoundChains : HasSoundChains setting "00t0" "00t0" 1 1 server
server-HasSoundChains = record { tx_sound = node-IsSound; critical_sound = node-IsSound }

serve_all-HasSoundChains_example : HasSoundChains setting "00t0" "00t0" 1 1 (
    serve_all setting
      (post_tx "t" (some payment)
        ∷ process_txs (λ m. m) "t" "u"
        ∷ post_tx_block (some second)
        ∷ sync (some (genesis ∷ second ∷ third ∷ []) ∷ none ∷ []) []
        ∷ [])
      server)
serve_all-HasSoundChains_example =
    serve_all-HasSoundChains setting
      (post_tx "t" (some payment)
        ∷ process_txs (λ m. m) "t" "u"
        ∷ post_tx_block (some second)
        ∷ sync (some (genesis ∷ second ∷ third ∷ []) ∷ none ∷ []) []
        ∷ [])
      "00t0" "00t0" 1 1 server server-HasSoundChains

process_tx_mempool-settles_example :
    let forged =
      tx_block setting "localhost:3000" "u"
        (payment ∷ [])
        (new_block toy 1 "00t0" transaction_block "t") in
    let (d, s') = process_tx_mempool setting (λ m. m) "t" "u" server in
    (d ≡ finished)
    × (s'.tx_chain.blocks ≡ genesis ∷ forged ∷ [])
    × (forged.transactions ≡ some (payment ∷ []))
    × ((id : String)
        → get_item id s'.tx_mempool
          ≡ (if has_id tx_id id (payment ∷ []) then none else get_item id server.tx_mempool))
    × (s'.sent
        ≡ addressed "localhost:3000"
            (block_of "tx" forged "s")
            ("localhost:3000" ∷ "localhost:3001" ∷ []))
unfolding get_pending_items collect create_block last_of new_block
process_tx_mempool-settles_example =
    process_tx_mempool-settles setting (λ m. m) "t" "u" payment [] server genesis
      (new_block toy 1 "00t0" transaction_block "t") [] 1 (λ m. Perm.refl m) refl refl refl refl

-- The first attempt fails and the second is refused.
abbrev third_time : ℕ → Option ℕ
third_time zero = none
third_time (suc zero) = some 400
third_time (suc (suc n)) = some 201

delivery_runs :
    broadcast_block_to_node true third_time ≡ record { posts = 3; waited = 6; accepted = true }
unfolding broadcast_block_to_node deliver takes
delivery_runs = refl

broadcast_block_to_node-Tried_example :
    Tried 3 third_time (broadcast_block_to_node true third_time)
    × ((broadcast_block_to_node true third_time).waited ≤ 6)
broadcast_block_to_node-Tried_example = broadcast_block_to_node-Tried third_time
