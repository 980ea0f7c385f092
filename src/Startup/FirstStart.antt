-- ===== src/Startup/FirstStart.antt =====
-- The first start of a node, from an empty database.
use tc_node_validator_go.Base.{ℕ, String, ◌≡◌, ap, refl, false, some, List, [], ◌∷◌, arith, ltb}
use tc_node_validator_go.Chain.Block.{Block, Platform, BlockType, forge_block, new_block}
use tc_node_validator_go.Storage.Store.{
  LevelDb, IsLawful, Codec, value, failure, missing, not_found, height_key, system_key, index_key,
  hash_key, get_blockchain_height, save_block, raises_height, last_put, get_system_contract_address,
}
use tc_node_validator_go.Storage.Keys.{index-system, hash-system}
use tc_node_validator_go.Storage.Start.{new_blockchain, fresh_chain, chain_of, genesis_block}
use tc_node_validator_go.Startup.State.{Contract, for_contracts}
use tc_node_validator_go.Startup.Consensus.{Consensus}

module _ {F J V D : Type 0} (p : Platform F J) (c : Codec F J Contract V) (ldb : LevelDb D)
    (lawful : IsLawful ldb)
    (writes : (batch : List (String × String)) (db : D)
      → (db' : D) × (ldb.write batch db ≡ some db'))
    (contract_json : (k : Contract) → (text : String) × (c.contract_json k ≡ some text))
    (block_json : (b : Block F J)
      → b.total_fees ≡ p.zero_fees
      → (text : String) × (c.block_json b ≡ some text)) where
  first_saved :
      (b : Block F J) (text : String) (db db' : D)
      → get_blockchain_height (for_contracts c) ldb db ≡ value 0
      → ltb 0 b.index ≡ false
      → c.block_json b ≡ some text
      → ldb.write ((index_key b.index, text) ∷ (hash_key b.hash, text) ∷ []) db ≡ some db'
      → save_block (for_contracts c) ldb b db ≡ (value tt, db')
  unfolding save_block raises_height
  first_saved b text db db' height first written put = ground (arith, height, first, written, put)

  -- A database that a batch of a block was written to has no system contract more.
  still_unregistered :
      (i : ℕ) (hash text name : String) (db db' : D)
      → ldb.get db (system_key name) ≡ not_found
      → ldb.write ((index_key i, text) ∷ (hash_key hash, text) ∷ []) db ≡ some db'
      → get_system_contract_address (for_contracts c) ldb name db' ≡ failure missing
  unfolding get_system_contract_address last_put
  still_unregistered i hash text name db db' unregistered put = ground (
    arith,
    unregistered,
    index-system i name,
    hash-system hash name,
    lawful.get-write ((index_key i, text) ∷ (hash_key hash, text) ∷ []) db db' (system_key name)
        put,
  )

  -- What `NewBlockchain` leaves of an empty database.
  Fresh : BlockType → String → D → Type 0
  Fresh type_ now db =
      (db' : D) × (new_blockchain p (for_contracts c) ldb type_ now db
        ≡ value (
            chain_of p (for_contracts c) ldb type_
              (genesis_block p (for_contracts c) ldb type_ now ∷ []) db'))
      × (get_system_contract_address (for_contracts c) ldb "governance" db' ≡ failure missing)

  no_height :
      (db : D)
      → ldb.get db height_key ≡ not_found
      → get_blockchain_height (for_contracts c) ldb db ≡ value 0
  unfolding get_blockchain_height
  no_height db empty = rw empty refl

  opened :
      (type_ : BlockType) (now : String) (db : D)
      → ldb.get db height_key ≡ not_found
      → ldb.get db (system_key "governance") ≡ not_found
      → Fresh type_ now db
  unfolding Fresh new_blockchain genesis_block forge_block new_block
  opened type_ now db empty unregistered =
      let g = genesis_block p (for_contracts c) ldb type_ now in
      let (text, written) = block_json g refl in
      let (db', put) = writes ((index_key 0, text) ∷ (hash_key g.hash, text) ∷ []) db in
      (
        db',
        rw (no_height db empty) (
            ap (fresh_chain p (for_contracts c) ldb type_ g)
              (first_saved g text db db' (no_height db empty) refl written put)),
        still_unregistered 0 g.hash text "governance" db db' unregistered put,
      )
