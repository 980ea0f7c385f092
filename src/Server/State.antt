-- ===== src/Server/State.antt =====
-- p2p/server.go: the server's state and what its calls report.
use tc_node_validator_go.Base.{String, List, [], ◌∷◌, ◌++◌, not, str_eq, if◌then◌else◌}
use tc_node_validator_go.Chain.Block.{Block, Transaction, CriticalProcess}
use tc_node_validator_go.Chain.Blockchain.{Blockchain}
use tc_node_validator_go.Mempool.Pool.{Mempool}
use tc_node_validator_go.Server.Node.{Node}

-- What is sent to another node.
pub data Content (F J : Type 0) : Type 0 where
  block_of : String → Block F J → String → Content F J
  transaction_of : Transaction F → Content F J
  process_of : CriticalProcess J → Content F J

-- `sent` lists the messages to other nodes, with their addressees, in the order of the loops that
-- send them. A pool only ever holds items of its kind.
pub record Server (F J D : Type 0) : Type 0 where
  pub node : Node
  pub tx_chain : Blockchain F J D
  pub critical_chain : Blockchain F J D
  pub tx_mempool : Mempool (Transaction F)
  pub critical_mempool : Mempool (CriticalProcess J)
  pub sent : List (String × Content F J)

-- The status that a request is answered with; `crashed` is a panic.
pub data Answer : Type 0 where
  ok_200 created_201 bad_request_400 crashed : Answer

-- A message to every known node but this one.
unfoldable pub addressed :
    {F J : Type 0} → String → Content F J → List String → List (String × Content F J)
addressed own content [] = []
addressed own content (node ∷ nodes) =
    let rest = addressed own content nodes in
    if not (str_eq node own) then (node, content) ∷ rest else rest

module _ {F J D : Type 0} where
  unfoldable pub broadcast : Content F J → Server F J D → Server F J D
  broadcast content s = record s { sent = s.sent ++ addressed s.node.id content s.node.known_nodes }

abbrev pub tx_id : {F : Type 0} → Transaction F → String
tx_id tx = tx.process_id

abbrev pub process_id_of : {J : Type 0} → CriticalProcess J → String
process_id_of cp = cp.process_id
