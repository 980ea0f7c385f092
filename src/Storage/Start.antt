-- ===== src/Storage/Start.antt =====
-- blockchain/blockchain.go: `NewBlockchain`, and how a chain saves its blocks.
use Prim.Native.String.{◌++◌ as str_append}
use tc_node_validator_go.Base.{
  ℕ, String, Option, none, some, List, [], ◌∷◌, pos, ltb, if◌then◌else◌,
}
use tc_node_validator_go.Chain.Block.{Block, BlockType, Platform, new_block, forge_block}
use tc_node_validator_go.Chain.Blockchain.{Blockchain, create_block, add_block}
use tc_node_validator_go.Storage.Store.{
  LevelDb, Codec, Stored, value, failure, get_blockchain_height, get_all_blocks, save_block,
  register_system_contract, get_system_contract_address,
}

module _ {F J K V D : Type 0} (p : Platform F J) (c : Codec F J K V) (ldb : LevelDb D) where
  -- `SaveBlock` as `AddBlock` and `ReplaceChain` see it: they only ask whether it failed.
  unfoldable pub saved : Block F J → D → Option D
  saved b db =
      let (answer, db') = save_block c ldb b db in
      elim answer [ value done_ ↦ some db' | failure e ↦ none ]

  -- A height that cannot be read is logged and counts as 0.
  abbrev pub height_or_zero : Stored ℕ → ℕ
  height_or_zero (value h) = h
  height_or_zero (failure e) = 0

  abbrev pub chain_of : BlockType → List (Block F J) → D → Blockchain F J D
  chain_of block_type blocks db = record {
    blocks = blocks;
    block_type = block_type;
    difficulty = pos 2;
    db = db;
  }

  unfoldable pub genesis_block : BlockType → String → Block F J
  genesis_block block_type now = forge_block p "genesis" now (new_block p 0 "0" block_type now)

  abbrev pub loaded_chain : BlockType → D → Stored (List (Block F J)) → Stored (Blockchain F J D)
  loaded_chain block_type db (failure e) = failure e
  loaded_chain block_type db (value blocks) = value (chain_of block_type blocks db)

  abbrev pub fresh_chain : BlockType → Block F J → Stored (Unit {0}) × D → Stored (Blockchain F J D)
  fresh_chain block_type g (failure e, db) = failure e
  fresh_chain block_type g (value done_, db) = value (chain_of block_type (g ∷ []) db)

  -- `NewBlockchain` on a data directory whose database is open.
  unfoldable pub new_blockchain : BlockType → String → D → Stored (Blockchain F J D)
  unfolding genesis_block
  new_blockchain block_type now db =
      if ltb 0 (height_or_zero (get_blockchain_height c ldb db))
      then loaded_chain block_type db (get_all_blocks c ldb db)
      else fresh_chain block_type (genesis_block block_type now)
          (save_block c ldb (genesis_block block_type now) db)

  abbrev registration : String → String → String → Block F J → Block F J
  registration name address now b = forge_block p "system_registration" now (record b {
    extra = str_append "RegisterSystemContract:" (str_append name (str_append ":" address));
  })

  -- The block that records a registration. On an empty chain `CreateBlock` panics (`none`); whether
  -- `AddBlock` takes the block is not looked at.
  unfoldable pub record_in_block :
      String → String → String → Blockchain F J D → Option (Blockchain F J D)
  unfolding saved
  record_in_block name address now bc = elim (create_block p saved now bc) [
    | none ↦ none
    | some b ↦ some (add_block p saved (registration name address now b) bc).1
  ]

  abbrev pub once_registered :
      String
      → String
      → String
      → Blockchain F J D
      → Stored (Unit {0}) × D
      → Option (Blockchain F J D)
  once_registered name address now bc (failure e, db') = some bc
  once_registered name address now bc (value done_, db') =
      record_in_block name address now (record bc { db = db' })

  -- `RegisterSystemContract` of the chain.
  unfoldable pub record_system_contract :
      String → String → String → Blockchain F J D → Option (Blockchain F J D)
  unfolding record_in_block
  record_system_contract name address now bc =
      once_registered name address now bc (register_system_contract c ldb name address bc.db)

  unfoldable pub get_system_contract : String → Blockchain F J D → Stored String
  get_system_contract name bc = get_system_contract_address c ldb name bc.db
