-- ===== src/Storage/Reload.antt =====
-- What `NewBlockchain` makes of the database that a chain was saved in.
use tc_node_validator_go.Base.{
  suc, ◌+◌, ◌≤◌, ◌<◌, ◌^◌, String, ◌≡◌, ◌∙◌, ap, refl, arith, List, [], ◌∷◌, map, pos, length,
  length-append,
}
use mathlib.Core.Path.{subst}
use tc_node_validator_go.Chain.Block.{Block, BlockType, Platform, forge_block, new_block}
use tc_node_validator_go.Chain.Blockchain.{Blockchain, add_block}
use tc_node_validator_go.Chain.Extension.{add_block_lem}
use tc_node_validator_go.Storage.Store.{
  LevelDb, IsLawful, Codec, Stored, value, get_blockchain_height, get_block_by_index, raises_height,
  save_block, get_all_blocks,
}
use tc_node_validator_go.Storage.Keys.{IsFaithful, reloaded}
use tc_node_validator_go.Storage.Saving.{
  get_block_by_index-save_block, get_blockchain_height-save_block,
}
use tc_node_validator_go.Storage.Start.{saved, chain_of, fresh_chain, new_blockchain, genesis_block}
use tc_node_validator_go.Storage.Persisted.{
  IsStored, IsPersisted, load-IsStored, save-IsStored, add_block-IsPersisted, add_all,
}

module _ {F J K V D : Type 0} (p : Platform F J) (c : Codec F J K V) (ldb : LevelDb D)
    (lawful : IsLawful ldb) (faithful : IsFaithful c) where
  genesis_index :
      (block_type : BlockType) (now : String) → (genesis_block p c ldb block_type now).index ≡ 0
  unfolding genesis_block forge_block new_block
  genesis_index block_type now = refl

  fresh-cases :
      (block_type : BlockType) (g : Block F J) (q : Stored (Unit {0}) × D) (bc : Blockchain F J D)
      → fresh_chain p c ldb block_type g q ≡ value bc
      → (q.0 ≡ value tt) × (chain_of p c ldb block_type (g ∷ []) q.1 ≡ bc)
  fresh-cases block_type g q bc e = ground (arith, e)

  fresh-IsPersisted :
      (block_type : BlockType) (g : Block F J) (db : D)
      → g.index ≡ 0
      → get_blockchain_height c ldb db ≡ value 0
      → (save_block c ldb g db).0 ≡ value tt
      → IsPersisted p c ldb (chain_of p c ldb block_type (g ∷ []) (save_block c ldb g db).1)
  unfolding raises_height IsStored
  fresh-IsPersisted block_type g db zero_index none_yet h =
      let below : g.index < 2 ^ 64 = omega (arith, zero_index) in
      record {
        first = g;
        rest = [];
        blocks_eq = refl;
        stored = save-IsStored p c ldb lawful faithful g [] 0 db below h zero_index tt;
        height =
            rw (get_blockchain_height-save_block c ldb lawful faithful g db below h, none_yet)
              (ground (arith, zero_index));
      }

  -- A new chain on a database whose height is 0 has saved its genesis block.
  pub new_blockchain-IsPersisted :
      (block_type : BlockType) (now : String) (db : D) (bc : Blockchain F J D)
      → get_blockchain_height c ldb db ≡ value 0
      → new_blockchain p c ldb block_type now db ≡ value bc
      → IsPersisted p c ldb bc
  unfolding new_blockchain
  new_blockchain-IsPersisted block_type now db bc none_yet e =
      let g = genesis_block p c ldb block_type now in
      let (h, same) =
        fresh-cases block_type g (save_block c ldb g db) bc (ground (arith, none_yet, e)) in
      subst (IsPersisted p c ldb) same
        (fresh-IsPersisted block_type g db (genesis_index block_type now) none_yet h)

  all_blocks :
      (bc : Blockchain F J D) (s : IsPersisted p c ldb bc)
      → get_all_blocks c ldb bc.db ≡ value (map (reloaded c) (s.first ∷ s.rest))
  unfolding get_all_blocks
  all_blocks bc s =
      rw (s.height, get_all_blocks)
        (load-IsStored p c ldb lawful faithful (s.first ∷ s.rest) 0 bc.db s.stored)

  -- A persisted chain of two blocks or more is what a restart loads.
  pub reload-IsPersisted :
      (block_type : BlockType) (now : String) (bc : Blockchain F J D)
      → IsPersisted p c ldb bc
      → 1 < length bc.blocks
      → new_blockchain p c ldb block_type now bc.db
        ≡ value (chain_of p c ldb block_type (map (reloaded c) bc.blocks) bc.db)
  unfolding new_blockchain
  reload-IsPersisted block_type now bc s long =
      rw (s.height, all_blocks bc s, s.blocks_eq) (ground (arith, ap length s.blocks_eq, long))

  add_block-length :
      (b : Block F J) (bc : Blockchain F J D)
      → IsPersisted p c ldb bc
      → length (add_block p (saved p c ldb) b bc).1.blocks ≤ suc (length bc.blocks)
  add_block-length b bc s =
      rw (add_block_lem p (saved p c ldb) b s.first s.rest bc s.blocks_eq)
        (ground (arith, length-append bc.blocks (b ∷ [])))

  add_all-IsPersisted :
      (bs : List (Block F J)) (bc : Blockchain F J D)
      → length bc.blocks + length bs < 2 ^ 64
      → IsPersisted p c ldb bc
      → IsPersisted p c ldb (add_all p c ldb bs bc)
  unfolding add_all
  add_all-IsPersisted [] bc small s = s
  add_all-IsPersisted (b ∷ bs) bc small s =
      add_all-IsPersisted bs _ (omega (arith, small, add_block-length b bc s))
        (add_block-IsPersisted p c ldb lawful faithful b bc (omega (arith, small)) s)

  -- On a database that holds no blocks, a chain is started and blocks are offered to `AddBlock`, fewer
  -- than 2^64 - 1, whether it takes them, refuses them or cannot save them. If the chain has two
  -- blocks or more then, starting again from the database gives its blocks in their order, as JSON
  -- keeps them: each as it was, but for a slice that is empty and not nil, which comes back nil, and
  -- fees of -0, which come back as 0. The difficulty is 2 again, whatever it was.
  pub reload_after_adds :
      (block_type : BlockType) (now later : String) (bs : List (Block F J)) (db : D)
      (bc : Blockchain F J D)
      → get_blockchain_height c ldb db ≡ value 0
      → new_blockchain p c ldb block_type now db ≡ value bc
      → length bc.blocks + length bs < 2 ^ 64
      → 1 < length (add_all p c ldb bs bc).blocks
      → let bc' = add_all p c ldb bs bc in
        new_blockchain p c ldb block_type later bc'.db
        ≡ value (record {
          blocks = map (reloaded c) bc'.blocks;
          block_type = block_type;
          difficulty = pos 2;
          db = bc'.db;
        })
  reload_after_adds block_type now later bs db bc none_yet started few long =
      reload-IsPersisted block_type later _
        (add_all-IsPersisted bs bc few
          (new_blockchain-IsPersisted block_type now db bc none_yet started))
        long

  restart_cases :
      (block_type : BlockType) (later : String) (db : D) (bc : Blockchain F J D)
      → get_blockchain_height c ldb db ≡ value 0
      → new_blockchain p c ldb block_type later db ≡ value bc
      → let g = genesis_block p c ldb block_type later in
        ((save_block c ldb g db).0 ≡ value tt)
        × (chain_of p c ldb block_type (g ∷ []) (save_block c ldb g db).1 ≡ bc)
  unfolding new_blockchain
  restart_cases block_type later db bc none_yet e =
      fresh-cases block_type _ _ bc (ground (arith, none_yet, e))

  -- A chain that has saved nothing but its genesis block is not loaded: a later start that succeeds
  -- makes another genesis block, with the later time, and saves it in the place of the first one.
  pub restart_alone :
      (block_type : BlockType) (now later : String) (db : D) (bc bc' : Blockchain F J D)
      → get_blockchain_height c ldb db ≡ value 0
      → new_blockchain p c ldb block_type now db ≡ value bc
      → new_blockchain p c ldb block_type later bc.db ≡ value bc'
      → let g = genesis_block p c ldb block_type later in
        (bc'.blocks ≡ g ∷ []) × (get_block_by_index c ldb 0 bc'.db ≡ value (reloaded c g))
  restart_alone block_type now later db bc bc' none_yet started again =
      let s = new_blockchain-IsPersisted block_type now db bc none_yet started in
      let (_, first_chain) = restart_cases block_type now db bc none_yet started in
      let alone : length s.rest ≡ 0 =
        omega (arith, ap length s.blocks_eq, ap (λ x. length x.blocks) first_chain) in
      let (h, same) = restart_cases block_type later bc.db bc' (s.height ∙ ap value alone) again in
      let g = genesis_block p c ldb block_type later in
      let zero_index = genesis_index block_type later in
      let at =
        get_block_by_index-save_block c ldb lawful faithful g bc.db 0 (omega (arith, zero_index))
          (omega arith) h in
      subst (λ x. (x.blocks ≡ g ∷ []) × (get_block_by_index c ldb 0 x.db ≡ value (reloaded c g)))
        same (refl, ground (arith, at, zero_index))
