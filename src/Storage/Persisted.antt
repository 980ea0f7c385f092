-- ===== src/Storage/Persisted.antt =====
-- A chain and the database that it saves its blocks in: what `AddBlock` keeps true of them.
use tc_node_validator_go.Base.{
  ℕ, suc, ◌+◌, ◌<◌, ◌^◌, ◌≡◌, ap, refl, true, some, Option-cases, arith, List, [], ◌∷◌, ◌++◌, map,
  length, length-append, inl, inr, Bool-cases,
}
use mathlib.Core.Path.{subst}
use tc_node_validator_go.Chain.Block.{Block, Platform}
use tc_node_validator_go.Chain.Blockchain.{
  Blockchain, next_index, last_of, is_consistent, adjusted, add_block,
}
use tc_node_validator_go.Chain.Extension.{add_block_lem}
use tc_node_validator_go.Storage.Store.{
  LevelDb, IsLawful, Codec, value, get_blockchain_height, get_block_by_index, raises_height,
  save_block, load_from,
}
use tc_node_validator_go.Storage.Keys.{IsFaithful, reloaded}
use tc_node_validator_go.Storage.Saving.{
  get_block_by_index-save_block, get_blockchain_height-save_block,
}
use tc_node_validator_go.Storage.Start.{saved}

module _ {F J K V D : Type 0} (p : Platform F J) (c : Codec F J K V) (ldb : LevelDb D) where
  -- The blocks have the indices from `i` on, and are in the database under them, as JSON keeps them.
  unfoldable pub IsStored : D → ℕ → List (Block F J) → Type 0
  IsStored db i [] = Unit
  IsStored db i (b ∷ bs) =
      (b.index ≡ i)
      × (get_block_by_index c ldb i db ≡ value (reloaded c b))
      × IsStored db (suc i) bs

  -- The database holds the chain's blocks, and its height is the last one's index.
  pub record IsPersisted (bc : Blockchain F J D) : Type 0 where
    pub first : Block F J
    pub rest : List (Block F J)
    pub blocks_eq : bc.blocks ≡ first ∷ rest
    pub stored : IsStored bc.db 0 (first ∷ rest)
    pub height : get_blockchain_height c ldb bc.db ≡ value (length rest)

  unfoldable pub add_all : List (Block F J) → Blockchain F J D → Blockchain F J D
  add_all [] bc = bc
  add_all (b ∷ bs) bc = add_all bs (add_block p (saved p c ldb) b bc).1

module _ {F J K V D : Type 0} (p : Platform F J) (c : Codec F J K V) (ldb : LevelDb D)
    (lawful : IsLawful ldb) (faithful : IsFaithful c) where
  pub load-IsStored :
      (bs : List (Block F J)) (i : ℕ) (db : D)
      → IsStored p c ldb db i bs
      → load_from c ldb (length bs) i db ≡ value (map (reloaded c) bs)
  unfolding IsStored load_from
  load-IsStored [] i db s = refl
  load-IsStored (b ∷ bs) i db s = rw (s.1, load_from, load-IsStored bs (suc i) db s.2) refl

  last-IsStored :
      (b : Block F J) (bs : List (Block F J)) (i : ℕ) (db : D)
      → IsStored p c ldb db i (b ∷ bs)
      → (last_of b bs).index ≡ i + length bs
  unfolding IsStored last_of
  last-IsStored b [] i db s = omega (arith, s.0)
  last-IsStored b (x ∷ bs) i db s = omega (arith, last-IsStored x bs (suc i) db s.2)

  -- Saving a block behind the stored ones adds it to them.
  pub save-IsStored :
      (b : Block F J) (bs : List (Block F J)) (i : ℕ) (db : D)
      → b.index < 2 ^ 64
      → (save_block c ldb b db).0 ≡ value tt
      → b.index ≡ i + length bs
      → IsStored p c ldb db i bs
      → IsStored p c ldb (save_block c ldb b db).1 i (bs ++ b ∷ [])
  unfolding IsStored
  save-IsStored b [] i db small h e s =
      let at =
        get_block_by_index-save_block c ldb lawful faithful b db i small (omega (arith, e, small))
          h in
      (omega (arith, e), ground (arith, at, e), tt)
  save-IsStored b (x ∷ bs) i db small h e s =
      let at =
        get_block_by_index-save_block c ldb lawful faithful b db i small (omega (arith, e, small))
          h in
      (
        s.0,
        ground (arith, at, e, s.1),
        save-IsStored b bs (suc i) db small h (omega (arith, e)) s.2,
      )

  saved-cases :
      (b : Block F J) (db db' : D)
      → saved p c ldb b db ≡ some db'
      → ((save_block c ldb b db).0 ≡ value tt) × ((save_block c ldb b db).1 ≡ db')
  unfolding saved
  saved-cases b db db' e = ground (arith, e)

  -- A block that continues a persisted chain has the chain's length for its index.
  next-IsPersisted :
      (b : Block F J) (bc : Blockchain F J D) (s : IsPersisted p c ldb bc)
      → length bc.blocks < 2 ^ 64
      → is_consistent p b (last_of s.first s.rest) ≡ true
      → b.index ≡ suc (length s.rest)
  unfolding is_consistent
  next-IsPersisted b bc s small h =
      let last = last-IsStored s.first s.rest 0 bc.db s.stored in
      let size = ap length s.blocks_eq in
      let same : b.index ≡ next_index (last_of s.first s.rest).index = ground (arith, h) in
      omega (arith, last, size, same, small)

  grown_height :
      (b : Block F J) (bc : Blockchain F J D) (s : IsPersisted p c ldb bc)
      → b.index < 2 ^ 64
      → b.index ≡ suc (length s.rest)
      → (save_block c ldb b bc.db).0 ≡ value tt
      → get_blockchain_height c ldb (save_block c ldb b bc.db).1 ≡ value (length (s.rest ++ b ∷ []))
  unfolding raises_height
  grown_height b bc s below index h =
      rw (get_blockchain_height-save_block c ldb lawful faithful b bc.db below h, s.height)
        (ground (arith, index, length-append s.rest (b ∷ [])))

  grown-IsPersisted :
      (b : Block F J) (bc : Blockchain F J D) (s : IsPersisted p c ldb bc)
      → length bc.blocks < 2 ^ 64
      → is_consistent p b (last_of s.first s.rest) ≡ true
      → (save_block c ldb b bc.db).0 ≡ value tt
      → (difficulty : _)
      → IsPersisted p c ldb (record bc {
        blocks = bc.blocks ++ b ∷ [];
        difficulty = difficulty;
        db = (save_block c ldb b bc.db).1;
      })
  grown-IsPersisted b bc s small ok_next h difficulty =
      let index = next-IsPersisted b bc s small ok_next in
      let size = ap length s.blocks_eq in
      let below : b.index < 2 ^ 64 = omega (arith, index, size, small) in
      record {
        first = s.first;
        rest = s.rest ++ b ∷ [];
        blocks_eq = ap (λ bs. bs ++ b ∷ []) s.blocks_eq;
        stored = save-IsStored b (s.first ∷ s.rest) 0 bc.db below h (omega (arith, index)) s.stored;
        height = grown_height b bc s below index h;
      }

  -- What `AddBlock` adds is in the database, and what it refuses is not.
  pub add_block-IsPersisted :
      (b : Block F J) (bc : Blockchain F J D)
      → length bc.blocks < 2 ^ 64
      → IsPersisted p c ldb bc
      → IsPersisted p c ldb (add_block p (saved p c ldb) b bc).1
  add_block-IsPersisted b bc small s =
      rw (add_block_lem p (saved p c ldb) b s.first s.rest bc s.blocks_eq)
        (elim (Bool-cases (is_consistent p b (last_of s.first s.rest))) [
          | inr e ↦ rw e s
          | inl e ↦ elim (Option-cases (saved p c ldb b bc.db)) [
            | inl none_saved ↦ rw (e, none_saved) s
            | inr (db', is_saved) ↦
                let (h, same) = saved-cases b bc.db db' is_saved in
                rw (e, is_saved)
                  (subst
                    (λ db. IsPersisted p c ldb (record bc {
                      blocks = bc.blocks ++ b ∷ [];
                      difficulty = adjusted p bc.difficulty b (last_of s.first s.rest);
                      db = db;
                    }))
                    same (grown-IsPersisted b bc s small e h _))
          ]
        ])
