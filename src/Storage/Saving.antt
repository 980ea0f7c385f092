-- ===== src/Storage/Saving.antt =====
-- What the database holds after a block has been saved.
use tc_node_validator_go.Base.{
  ℕ, String, ◌≡◌, refl, Bool, ◌<◌, ◌^◌, none, some, Option-cases, arith, str_eq, eq_iff, ◌==◌, inl,
  inr, if◌then◌else◌, Bool-cases,
}
use tc_node_validator_go.Chain.Block.{Block, format_uint}
use tc_node_validator_go.Storage.Store.{
  LevelDb, IsLawful, Codec, value, last_put, index_key, hash_key, height_key, block_batch,
  get_blockchain_height, get_block_by_index, get_block_by_hash, raises_height, save_block,
}
use tc_node_validator_go.Storage.Keys.{
  IsFaithful, reloaded, hash-index, height-index, index-hash, height-hash, index-height,
  hash-height, index-index,
}

module _ {F J K V D : Type 0} (c : Codec F J K V) (ldb : LevelDb D) (lawful : IsLawful ldb)
    (faithful : IsFaithful c) (b : Block F J) (db : D) where
  -- A save that succeeded wrote one batch.
  save_block_wrote :
      (save_block c ldb b db).0 ≡ value tt
      → (text : String) × (c.block_json b ≡ some text)
        × (ldb.write
              (block_batch b text (raises_height b.index (get_blockchain_height c ldb db)))
              db
            ≡ some (save_block c ldb b db).1)
  unfolding save_block
  save_block_wrote h = elim (Option-cases (c.block_json b)) [
    | inl e ↦ ground (arith, e)
    | inr (text, e) ↦ (text, e, ground (arith, e))
  ]

  index_put :
      (i : ℕ) (text : String) (raised : Bool)
      → b.index < 2 ^ 64
      → i < 2 ^ 64
      → last_put (index_key i) (block_batch b text raised)
        ≡ (if b.index == i then some text else none)
  unfolding last_put
  index_put i text raised hb hi =
      ground (arith, hash-index b.hash i, height-index i, index-index c faithful b.index i hb hi)

  hash_put :
      (hash text : String) (raised : Bool)
      → last_put (hash_key hash) (block_batch b text raised)
        ≡ (if str_eq (hash_key b.hash) (hash_key hash) then some text else none)
  unfolding last_put
  hash_put hash text raised = ground (arith, index-hash b.index hash, height-hash hash)

  height_put :
      (text : String) (raised : Bool)
      → last_put height_key (block_batch b text raised)
        ≡ (if raised then some (format_uint b.index) else none)
  unfolding last_put
  height_put text raised =
      ground (arith, eq_iff height_key height_key, index-height b.index, hash-height b.hash)

  -- After a save that succeeded, the block is under its index, and every other index has what it had.
  pub get_block_by_index-save_block :
      (i : ℕ)
      → b.index < 2 ^ 64
      → i < 2 ^ 64
      → (save_block c ldb b db).0 ≡ value tt
      → get_block_by_index c ldb i (save_block c ldb b db).1
        ≡ (if b.index == i then value (reloaded c b) else get_block_by_index c ldb i db)
  unfolding get_block_by_index
  get_block_by_index-save_block i hb hi h =
      let (text, json, wrote) = save_block_wrote h in
      let raised = raises_height b.index (get_blockchain_height c ldb db) in
      rw
        (
          lawful.get-write (block_batch b text raised) db _ (index_key i) wrote,
          index_put i text raised hb hi,
        )
        (ground (arith, faithful.read-block_json b text json))

  pub get_block_by_hash-save_block :
      (save_block c ldb b db).0 ≡ value tt
      → get_block_by_hash c ldb b.hash (save_block c ldb b db).1 ≡ value (reloaded c b)
  unfolding get_block_by_hash
  get_block_by_hash-save_block h =
      let (text, json, wrote) = save_block_wrote h in
      let raised = raises_height b.index (get_blockchain_height c ldb db) in
      rw
        (
          lawful.get-write (block_batch b text raised) db _ (hash_key b.hash) wrote,
          hash_put b.hash text raised,
        )
        (ground
          (arith, eq_iff (hash_key b.hash) (hash_key b.hash), faithful.read-block_json b text json))

  pub get_blockchain_height-save_block :
      b.index < 2 ^ 64
      → (save_block c ldb b db).0 ≡ value tt
      → get_blockchain_height c ldb (save_block c ldb b db).1 ≡ (
          if raises_height b.index (get_blockchain_height c ldb db)
          then value b.index
          else get_blockchain_height c ldb db)
  unfolding get_blockchain_height
  get_blockchain_height-save_block hb h =
      let (text, json, wrote) = save_block_wrote h in
      let raised = raises_height b.index (get_blockchain_height c ldb db) in
      rw
        (lawful.get-write (block_batch b text raised) db _ height_key wrote, height_put text raised)
        (elim (Bool-cases raised) [
          | inl e ↦ rw (e, faithful.scan-format_uint b.index hb) refl
          | inr e ↦ rw e refl
        ])
