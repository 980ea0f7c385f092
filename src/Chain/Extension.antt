-- ===== src/Chain/Extension.antt =====
-- What `AddBlock` and `ReplaceChain` make of a chain.
use tc_node_validator_go.Base.{
  String, ◌≡◌, ◌≢◌, refl, ◌⊎◌, inl, inr, true, Bool-cases, Option, some, Option-cases, Slice, List,
  [], ◌∷◌, ◌++◌, eq_iff, if◌then◌else◌, ok, err, arith,
}
use tc_node_validator_go.Chain.Block.{
  Transaction, CriticalProcess, Block, Platform, calculate_hash, new_block, forge_block,
}
use tc_node_validator_go.Chain.Blockchain.{
  Blockchain, invalid_block, next_index, last_of, is_consistent, is_linked, adjusted, append_saved,
  add_block, create_block,
}

-- A block with its transactions, critical processes and fees put in.
abbrev pub filled_with :
    {F J : Type 0} → Slice (Transaction F) → Slice (CriticalProcess J) → F → Block F J → Block F J
filled_with txs cps fees b = record b {
  transactions = txs;
  critical_processes = cps;
  total_fees = fees;
}

module _ {F J D : Type 0} (p : Platform F J) (save : Block F J → D → Option D) where
  linked-append :
      (g b : Block F J) (bs : List (Block F J))
      → is_linked p g bs ≡ true
      → is_consistent p b (last_of g bs) ≡ true
      → is_linked p g (bs ++ b ∷ []) ≡ true
  unfolding is_linked last_of
  linked-append g b [] l c = ground arith
  linked-append g b (x ∷ bs) l c = ground (arith, linked-append x b bs)

  -- `AddBlock` on a chain with a first block.
  pub add_block_lem :
      (b g : Block F J) (bs : List (Block F J)) (bc : Blockchain F J D)
      → bc.blocks ≡ g ∷ bs
      → add_block p save b bc ≡ (
          if is_consistent p b (last_of g bs)
          then append_saved p save b (last_of g bs) bc (save b bc.db)
          else (err invalid_block, bc))
  unfolding add_block
  add_block_lem b g bs bc e = rw (e, add_block)

  -- A block that continues the chain and is saved goes in at the end.
  add_block-accepts :
      (b g : Block F J) (bs : List (Block F J)) (bc : Blockchain F J D) (db' : D)
      → bc.blocks ≡ g ∷ bs
      → is_consistent p b (last_of g bs) ≡ true
      → save b bc.db ≡ some db'
      → add_block p save b bc ≡ (
        ok tt,
        record bc {
          blocks = bc.blocks ++ b ∷ [];
          difficulty = adjusted p bc.difficulty b (last_of g bs);
          db = db';
        },
      )
  add_block-accepts b g bs bc db' e c s = rw (add_block_lem b g bs bc e, c, s)

  -- Adding a block keeps a linked chain linked and its first block in place. It either succeeds,
  -- with the block at the end, or leaves the chain as it was.
  pub add_block-linked :
      (b g : Block F J) (bs : List (Block F J)) (bc : Blockchain F J D)
      → bc.blocks ≡ g ∷ bs
      → is_linked p g bs ≡ true
      → let (r, bc') = add_block p save b bc in
        ((r ≡ ok tt) × (bc'.blocks ≡ g ∷ (bs ++ b ∷ [])) × (is_linked p g (bs ++ b ∷ []) ≡ true))
        ⊎ ((r ≢ ok tt) × (bc' ≡ bc))
  add_block-linked b g bs bc e l = elim (Bool-cases (is_consistent p b (last_of g bs))) [
    | inr bad ↦ rw (add_block_lem b g bs bc e, bad) (inr ((λ q. cc), refl))
    | inl good ↦ elim (Option-cases (save b bc.db)) [
      | inl lost ↦ rw (add_block_lem b g bs bc e, good, lost) (inr ((λ q. cc), refl))
      | inr (db', saved) ↦
          rw (add_block-accepts b g bs bc db' e good saved)
            (inl (refl, rw e, linked-append g b bs l good))
    ]
  ]

  created :
      (now : String) (g b : Block F J) (bs : List (Block F J)) (bc : Blockchain F J D)
      → bc.blocks ≡ g ∷ bs
      → create_block p save now bc ≡ some b
      → (b.index ≡ next_index (last_of g bs).index) × (b.previous_hash ≡ (last_of g bs).hash)
  unfolding create_block new_block
  created now g b bs bc e made = ground (arith, rw (e, create_block) at made)

  continues :
      (b previous : Block F J)
      → b.index ≡ next_index previous.index
      → b.previous_hash ≡ previous.hash
      → b.hash ≡ calculate_hash p b
      → is_consistent p b previous ≡ true
  unfolding is_consistent
  continues b previous i h c =
      ground (arith, eq_iff b.previous_hash previous.hash, eq_iff b.hash (calculate_hash p b))

  -- The node's own next block: made from the last block, given its contents and forged. If it can
  -- be saved, the chain takes it, and it comes last.
  pub add_block-create_block :
      (validator now later : String) (txs : Slice (Transaction F)) (cps : Slice (CriticalProcess J))
      (fees : F) (g b : Block F J) (bs : List (Block F J)) (bc : Blockchain F J D) (db' : D)
      → bc.blocks ≡ g ∷ bs
      → create_block p save now bc ≡ some b
      → save (forge_block p validator later (filled_with txs cps fees b)) bc.db ≡ some db'
      → let forged = forge_block p validator later (filled_with txs cps fees b) in
        let (r, bc') = add_block p save forged bc in
        (r ≡ ok tt) × (bc'.blocks ≡ bc.blocks ++ forged ∷ [])
  unfolding forge_block calculate_hash
  add_block-create_block validator now later txs cps fees g b bs bc db' e made saved =
      let forged = forge_block p validator later (filled_with txs cps fees b) in
      let at_end = created now g b bs bc e made in
      let fits = continues forged (last_of g bs) at_end.0 at_end.1 refl in
      rw (add_block-accepts forged g bs bc db' e fits saved) (refl, refl)
