-- ===== src/Chain/Replacement.antt =====
-- `ReplaceChain`, and a chain under any sequence of additions and replacements.
use tc_node_validator_go.Base.{
  ℕ, ◌≤◌, ◌<◌, String, ◌≡◌, ◌∙◌, ap, ◌⊎◌, inl, inr, true, false, ◌&&◌, Option, List, [], ◌∷◌, ◌++◌,
  length, length-append, str_eq, eq_iff, ok, arith, leb, if◌then◌else◌,
}
use tc_node_validator_go.Chain.Block.{Block, Platform}
use tc_node_validator_go.Chain.Blockchain.{
  Blockchain, is_linked, is_valid_chain, add_block, save_all, replace_with, replace_chain,
}
use tc_node_validator_go.Chain.Extension.{add_block-linked}

module _ {F J D : Type 0} (p : Platform F J) (save : Block F J → D → Option D) where
  -- A chain whose first block has a given hash and whose blocks continue one another, with at
  -- least a given number of blocks.
  pub record IsSound (genesis : String) (n : ℕ) (bc : Blockchain F J D) : Type 0 where
    pub first : Block F J
    pub rest : List (Block F J)
    pub blocks_eq : bc.blocks ≡ first ∷ rest
    pub genesis_eq : first.hash ≡ genesis
    pub linked : is_linked p first rest ≡ true
    pub long : n ≤ length bc.blocks

  replace_chain_lem :
      (g h : Block F J) (bs hs : List (Block F J)) (bc : Blockchain F J D)
      → bc.blocks ≡ g ∷ bs
      → replace_chain p save (h ∷ hs) bc ≡ (
          if leb (length (h ∷ hs)) (length bc.blocks)
          then (ok false, bc)
          else if str_eq h.hash g.hash && is_linked p h hs
          then replace_with p save (h ∷ hs) (save_all p save (h ∷ hs) bc.db) bc
          else (ok false, bc))
  unfolding replace_chain is_valid_chain
  replace_chain_lem g h bs hs bc e = rw (e, replace_chain) (ground (arith, e))

  -- A call of `ReplaceChain` either keeps the blocks, or takes the new ones: more than before, with
  -- the same genesis hash, each continuing the one before.
  pub replace_chain-cases :
      (g h : Block F J) (bs hs : List (Block F J)) (bc : Blockchain F J D)
      → bc.blocks ≡ g ∷ bs
      → let (r, bc') = replace_chain p save (h ∷ hs) bc in
        ((r ≡ ok false) × (bc'.blocks ≡ bc.blocks))
        ⊎ ((r ≡ ok true)
            × (bc'.blocks ≡ h ∷ hs)
            × (length bc.blocks < length (h ∷ hs))
            × (h.hash ≡ g.hash)
            × (is_linked p h hs ≡ true))
  replace_chain-cases g h bs hs bc e =
      rw (replace_chain_lem g h bs hs bc e) (ground (arith, eq_iff h.hash g.hash))

  -- What other nodes and this one ask of a chain.
  pub data Event : Type 0 where
    add : Block F J → Event
    replace : List (Block F J) → Event

  unfoldable pub handle : Event → Blockchain F J D → Blockchain F J D
  handle (add b) bc = (add_block p save b bc).1
  handle (replace new) bc = (replace_chain p save new bc).1

  unfoldable pub handle_all : List Event → Blockchain F J D → Blockchain F J D
  handle_all [] bc = bc
  handle_all (e ∷ es) bc = handle_all es (handle e bc)

  pub add-IsSound :
      (b : Block F J) (genesis : String) (n : ℕ) (bc : Blockchain F J D)
      → IsSound genesis n bc
      → IsSound genesis n (add_block p save b bc).1
  add-IsSound b genesis n bc s =
      elim (add_block-linked p save b s.first s.rest bc s.blocks_eq s.linked) [
        | inr (failed, same) ↦ rw same s
        | inl (went_in, blocks, linked) ↦ record {
          first = s.first;
          rest = s.rest ++ b ∷ [];
          blocks_eq = blocks;
          genesis_eq = s.genesis_eq;
          linked = linked;
          long =
              rw blocks
                (omega (arith, s.long, ap length s.blocks_eq, length-append s.rest (b ∷ [])));
        }
      ]

  replace_empty :
      (g : Block F J) (bs : List (Block F J)) (bc : Blockchain F J D)
      → bc.blocks ≡ g ∷ bs
      → (replace_chain p save [] bc).1 ≡ bc
  unfolding replace_chain
  replace_empty g bs bc e = ground (arith, e)

  pub replace-IsSound :
      (new : List (Block F J)) (genesis : String) (n : ℕ) (bc : Blockchain F J D)
      → IsSound genesis n bc
      → IsSound genesis n (replace_chain p save new bc).1
  replace-IsSound [] genesis n bc s = rw (replace_empty s.first s.rest bc s.blocks_eq) s
  replace-IsSound (h ∷ hs) genesis n bc s =
      elim (replace_chain-cases s.first h s.rest hs bc s.blocks_eq) [
        | inl (kept, same) ↦ record {
          first = s.first;
          rest = s.rest;
          blocks_eq = same ∙ s.blocks_eq;
          genesis_eq = s.genesis_eq;
          linked = s.linked;
          long = rw same s.long;
        }
        | inr (taken, blocks, longer, start, linked) ↦ record {
          first = h;
          rest = hs;
          blocks_eq = blocks;
          genesis_eq = start ∙ s.genesis_eq;
          linked = linked;
          long = rw blocks (omega (arith, s.long));
        }
      ]

  -- Under any sequence of block additions and chain replacements, whatever their blocks and
  -- whether the database fails or not, a sound chain stays sound: the genesis hash is the same,
  -- every block continues the one before it, and the chain never becomes shorter.
  pub handle_all-IsSound :
      (es : List Event) (genesis : String) (n : ℕ) (bc : Blockchain F J D)
      → IsSound genesis n bc
      → IsSound genesis n (handle_all es bc)
  unfolding handle_all handle
  handle_all-IsSound [] genesis n bc s = s
  handle_all-IsSound (add b ∷ es) genesis n bc s =
      handle_all-IsSound es genesis n _ (add-IsSound b genesis n bc s)
  handle_all-IsSound (replace new ∷ es) genesis n bc s =
      handle_all-IsSound es genesis n _ (replace-IsSound new genesis n bc s)
