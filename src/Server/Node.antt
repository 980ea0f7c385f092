-- ===== src/Server/Node.antt =====
-- p2p/node.go and the address test of p2p/handlers.go. The list's mutex is left out: no method holds
-- it while it calls another.
use Prim.Native.Char.{code}
use Prim.Native.String.{◌++◌ as str_append}
use tc_node_validator_go.Base.{
  ℕ, zero, suc, String, Bool, true, false, not, ◌&&◌, ◌||◌, Option, none, some, List, [], ◌∷◌, ◌++◌,
  ℤ, pos, ltb_ℤ, leb_ℤ, ◌==◌, str_eq, if◌then◌else◌,
}
use tc_node_validator_go.Chain.Block.{format_uint}

pub record Node : Type 0 where
  pub id : String
  pub port : ℕ
  pub known_nodes : List String
  pub private_key : String

-- `utils.Contains`
unfoldable pub contains_text : List String → String → Bool
contains_text [] item = false
contains_text (s ∷ slice) item = str_eq s item || contains_text slice item

unfoldable pub new_node : ℕ → Node
new_node port = record {
  id = str_append "localhost:" (format_uint port);
  port = port;
  known_nodes = "localhost:3000" ∷ "localhost:3001" ∷ [];
  private_key = "";
}

unfoldable pub add_node : String → Node → Bool × Node
add_node node n =
    if not (contains_text n.known_nodes node)
    then (true, record n { known_nodes = n.known_nodes ++ node ∷ [] })
    else (false, n)

-- The peers that one node names.
unfoldable pub add_peers : List String → Node → Node
add_peers [] n = n
add_peers (peer ∷ peers) n = add_peers peers (
    if not (contains_text n.known_nodes peer) && not (str_eq peer n.id)
    then (add_node peer n).1
    else n)

-- The loop of `DiscoverNodes` over the nodes known at its start. `peers_of` is what a node answers,
-- `none` for an error.
unfoldable pub discover_from : (String → Option (List String)) → List String → Node → Node
discover_from peers_of [] n = n
discover_from peers_of (node ∷ nodes) n = discover_from peers_of nodes (
    if str_eq node n.id
    then n
    else elim (peers_of node) [ none ↦ n | some peers ↦ add_peers peers n ])

unfoldable pub discover_nodes : (String → Option (List String)) → Node → Node
discover_nodes peers_of n = discover_from peers_of n.known_nodes n

-- `strings.Split(addr, ":")`: the first part and the rest.
unfoldable pub split_colons : String → String × List String
split_colons String.[] = ("", [])
split_colons (String.◌∷◌ c s) =
    let (part, parts) = split_colons s in
    if code c == b':' then ("", part ∷ parts) else (String.◌∷◌ c part, parts)

abbrev valid_port : Option ℤ → Bool
valid_port none = false
valid_port (some port) = ltb_ℤ (pos 0) port && leb_ℤ port (pos 65535)

abbrev valid_parts : (String → Option ℤ) → String × List String → Bool
valid_parts atoi (host, port ∷ []) = not (str_eq host "") && valid_port (atoi port)
valid_parts atoi (host, _) = false

-- `atoi` is `strconv.Atoi`.
unfoldable pub is_valid_node_address : (String → Option ℤ) → String → Bool
unfolding split_colons
is_valid_node_address atoi addr = valid_parts atoi (split_colons addr)

-- The three attempts of `CheckNodeStatus`, given what each of them finds.
unfoldable pub attempts : (ℕ → Bool) → ℕ → ℕ → Bool
attempts reached i zero = false
attempts reached i (suc left) = reached i || attempts reached (suc i) left

unfoldable check_node_status : (ℕ → Bool) → Bool
unfolding attempts
check_node_status reached = attempts reached 0 3
