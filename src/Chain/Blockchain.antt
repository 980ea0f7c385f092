-- ===== src/Chain/Blockchain.antt =====
-- blockchain/blockchain.go: the chain's operations. A slice of blocks is a list, oldest first. The
-- database is a type `D` with the outcome of saving a block, `none` for an error.
use tc_node_validator_go.Base.{
  ℕ, ◌+◌, ◌*◌, ◌%◌, ◌^◌, String, Bool, true, false, not, ◌&&◌, Option, none, some, List, [], ◌∷◌,
  ◌++◌, ℤ, pos, ◌+ℤ◌, ◌-ℤ◌, ltb_ℤ, leb, length, ◌==◌, str_eq, if◌then◌else◌, Outcome, ok, err,
  panic, Action,
}
use tc_node_validator_go.Chain.Block.{
  BlockType, Block, Platform, calculate_hash, new_block, has_valid_hash,
}

-- The consensus object and the currency manager that a chain also points to are not its own state.
pub record Blockchain (F J D : Type 0) : Type 0 where
  pub blocks : List (Block F J)
  pub block_type : BlockType
  pub difficulty : ℤ
  pub db : D

pub data ChainError : Type 0 where
  invalid_block save_failed empty_chain genesis_mismatch : ChainError
  inconsistent_block insufficient_difficulty : ℕ → ChainError

-- `Index + 1` on a uint64.
abbrev pub next_index : ℕ → ℕ
next_index i = (i + 1) % 2 ^ 64

-- The last element of a non-empty slice, given its first element and the rest.
unfoldable pub last_of {ℓ} : {A : Type ℓ} → A → List A → A
last_of b [] = b
last_of b (c ∷ bs) = last_of c bs

module _ {F J : Type 0} (p : Platform F J) where
  -- `isBlockConsistentWithPrevious`
  unfoldable pub is_consistent : Block F J → Block F J → Bool
  is_consistent b previous =
      b.index == next_index previous.index
      && str_eq b.previous_hash previous.hash
      && str_eq b.hash (calculate_hash p b)

  -- `isValidBlock` makes the same tests against the last block.
  abbrev is_valid_block : Block F J → Block F J → Bool
  is_valid_block b last = is_consistent b last

  -- The loop of `isValidChain`, from the second block on.
  unfoldable pub is_linked : Block F J → List (Block F J) → Bool
  is_linked previous [] = true
  is_linked previous (b ∷ bs) = is_consistent b previous && is_linked b bs

  -- `isValidChain`; reading the first block of an empty slice panics, which is `none`.
  unfoldable pub is_valid_chain : List (Block F J) → List (Block F J) → Option Bool
  is_valid_chain (own ∷ rest) (g ∷ bs) = some (str_eq g.hash own.hash && is_linked g bs)
  is_valid_chain _ _ = none

  -- The loop of `IsValidChain`, which also holds every block to the current difficulty.
  unfoldable pub check_blocks : ℤ → Block F J → List (Block F J) → Outcome ChainError (Unit {0})
  check_blocks difficulty previous [] = ok tt
  check_blocks difficulty previous (b ∷ bs) =
      let rest = check_blocks difficulty b bs in
      if not (is_consistent b previous)
      then err (inconsistent_block b.index)
      else elim (has_valid_hash p b difficulty) [
        | none ↦ panic
        | some true ↦ rest
        | some false ↦ err (insufficient_difficulty b.index)
      ]

  -- `IsValidChain` against the chain's own first block; `ok tt` is `true, nil`.
  unfoldable pub check_chain :
      ℤ → List (Block F J) → List (Block F J) → Outcome ChainError (Unit {0})
  check_chain difficulty own [] = err empty_chain
  check_chain difficulty [] (g ∷ bs) = panic
  check_chain difficulty (h ∷ own) (g ∷ bs) =
      if not (str_eq g.hash h.hash) then err genesis_mismatch else check_blocks difficulty g bs

  -- Seconds are compared with 15/2 = 7 and with 30, in nanoseconds here.
  unfoldable pub adjusted : ℤ → Block F J → Block F J → ℤ
  adjusted difficulty last previous =
      let elapsed = p.parse_time last.timestamp -ℤ p.parse_time previous.timestamp in
      if ltb_ℤ elapsed (pos (7 * 10 ^ 9))
      then difficulty +ℤ pos 1
      else if ltb_ℤ (pos (30 * 10 ^ 9)) elapsed
      then difficulty -ℤ pos 1
      else difficulty

  module _ {D : Type 0} (save : Block F J → D → Option D) where
    -- What `AddBlock` does once the block is known to be valid.
    abbrev pub append_saved :
        Block F J
        → Block F J
        → Blockchain F J D
        → Option D
        → Outcome ChainError (Unit {0}) × Blockchain F J D
    append_saved b last bc none = (err save_failed, bc)
    append_saved b last bc (some db') = (
      ok tt,
      record bc {
        blocks = bc.blocks ++ b ∷ [];
        difficulty = adjusted bc.difficulty b last;
        db = db';
      },
    )

    abbrev add_after :
        Block F J → List (Block F J) → Action (Blockchain F J D) ChainError (Unit {0})
    add_after b [] bc = (panic, bc)
    add_after b (g ∷ bs) bc =
        if is_valid_block b (last_of g bs)
        then append_saved b (last_of g bs) bc (save b bc.db)
        else (err invalid_block, bc)

    unfoldable pub add_block : Block F J → Action (Blockchain F J D) ChainError (Unit {0})
    add_block b bc = add_after b bc.blocks bc

    -- `CreateBlock`: the next block of the chain, still without a hash.
    unfoldable pub create_block : String → Blockchain F J D → Option (Block F J)
    create_block now bc = elim bc.blocks [
      | [] ↦ none
      | g ∷ bs ↦
          some (new_block p (next_index (last_of g bs).index) (last_of g bs).hash bc.block_type now)
    ]

    -- The loop that saves a new chain: the database after it, and whether all went well.
    unfoldable pub save_all : List (Block F J) → D → D × Bool
    save_all [] db = (db, true)
    save_all (b ∷ bs) db = elim (save b db) [ none ↦ (db, false) | some db' ↦ save_all bs db' ]

    abbrev pub replace_with :
        List (Block F J) → D × Bool → Blockchain F J D → Outcome ChainError Bool × Blockchain F J D
    replace_with new (db', true) bc = (ok true, record bc { blocks = new; db = db' })
    replace_with new (db', false) bc = (ok false, record bc { db = db' })

    unfoldable pub replace_chain : List (Block F J) → Action (Blockchain F J D) ChainError Bool
    replace_chain new bc =
        if leb (length new) (length bc.blocks)
        then (ok false, bc)
        else elim (is_valid_chain bc.blocks new) [
          | none ↦ (panic, bc)
          | some true ↦ replace_with new (save_all new bc.db) bc
          | some false ↦ (ok false, bc)
        ]
