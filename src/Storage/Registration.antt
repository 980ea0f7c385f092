-- ===== src/Storage/Registration.antt =====
-- `RegisterSystemContract` of blockchain/blockchain.go on a chain that has blocks.
use tc_node_validator_go.Base.{
  String, ◌≡◌, refl, Option, some, List, [], ◌∷◌, ◌++◌, Option-cases, Bool-cases, inl, inr,
}
use tc_node_validator_go.Chain.Block.{Block, Platform}
use tc_node_validator_go.Chain.Blockchain.{
  Blockchain, create_block, add_block, is_consistent, last_of,
}
use tc_node_validator_go.Chain.Extension.{add_block_lem}
use tc_node_validator_go.Storage.Store.{
  LevelDb, Codec, Stored, value, failure, register_system_contract,
}
use tc_node_validator_go.Storage.Start.{
  saved, record_in_block, once_registered, record_system_contract,
}

abbrev pub HasBlocks : {F J D : Type 0} → Blockchain F J D → Type 0
HasBlocks {F = F} {J = J} chain =
    (g : Block F J) × (bs : List (Block F J)) × (chain.blocks ≡ g ∷ bs)

add_block-HasBlocks :
    {F J D : Type 0} (p : Platform F J) (save : Block F J → D → Option D) (b : Block F J)
    (chain : Blockchain F J D)
    → HasBlocks chain
    → HasBlocks (add_block p save b chain).1
add_block-HasBlocks p save b chain (g, bs, e) =
    rw (add_block_lem p save b g bs chain e) (elim (Bool-cases (is_consistent p b (last_of g bs))) [
      | inr no_fit ↦ rw no_fit (g, bs, e)
      | inl fits ↦ elim (Option-cases (save b chain.db)) [
        | inl failed ↦ rw (fits, failed) (g, bs, e)
        | inr (db', kept) ↦ rw (fits, kept, e) (g, bs ++ b ∷ [], refl)
      ]
    ])

-- A registration returns, and the chain still has blocks.
module _ {F J K V D : Type 0} (p : Platform F J) (c : Codec F J K V) (ldb : LevelDb D) where
  pub recorded-HasBlocks :
      (name address now : String) (chain : Blockchain F J D)
      → HasBlocks chain
      → (chain' : Blockchain F J D) × (record_system_contract p c ldb name address now chain
          ≡ some chain')
        × HasBlocks chain'
  unfolding record_system_contract record_in_block create_block
  recorded-HasBlocks name address now chain (g, bs, e) =
      with_answer (register_system_contract c ldb name address chain.db)
    where
      with_answer :
          (answer : Stored (Unit {0}) × D)
          → (chain' : Blockchain F J D) × (once_registered p c ldb name address now chain answer
              ≡ some chain')
            × HasBlocks chain'
      with_answer (failure x, db) = (chain, refl, (g, bs, e))
      with_answer (value x, db) = rw e (
        _,
        refl,
        add_block-HasBlocks p (saved p c ldb) _ (record chain { blocks = g ∷ bs; db = db })
            (g, bs, refl),
      )
