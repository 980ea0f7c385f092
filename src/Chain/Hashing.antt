-- ===== src/Chain/Hashing.antt =====
-- What a block's hash does and does not protect, and what the difficulty asks of it.
use Prim.Native.String.{◌++◌ as str_append}
use text.Mathlib.TextLemmas.{append_assoc}
use tc_node_validator_go.Base.{
  ℕ, String, ◌≡◌, refl, sym, ap, ◌∙◌, true, some, List, [], ◌∷◌, ℤ, negsuc, eq_iff, ok, panic,
  arith,
}
use tc_node_validator_go.Chain.Block.{
  BlockType, Block, Platform, format_uint, calculate_hash, hash_valid_hash, has_valid_hash,
}
use tc_node_validator_go.Chain.Blockchain.{
  is_consistent, is_linked, is_valid_chain, check_blocks, check_chain,
}

module _ {F J : Type 0} (p : Platform F J) where
  -- A block that is valid after its predecessor stays valid when its validator, its type, its fees
  -- and its extra data are replaced by anything: the hash covers none of them.
  pub tampered_block_valid :
      (b previous : Block F J) (validator extra : String) (t : BlockType) (fees : F)
      → is_consistent p b previous ≡ true
      → is_consistent p
          (record b { validator = validator; extra = extra; type_of = t; total_fees = fees })
          previous
        ≡ true
  unfolding is_consistent calculate_hash
  tampered_block_valid b previous validator extra t fees h = h

  -- Two blocks that differ in index and previous hash have one hash, if the first block's index
  -- ends where the second one's previous hash begins: nothing separates the parts of the text.
  pub hash_shift :
      (b : Block F J) (i j : ℕ) (s t : String)
      → str_append (format_uint i) s ≡ str_append (format_uint j) t
      → calculate_hash p (record b { index = i; previous_hash = s })
        ≡ calculate_hash p (record b { index = j; previous_hash = t })
  unfolding calculate_hash
  hash_shift b i j s t h =
      let rest = str_append b.timestamp (
        str_append (p.tx_json b.transactions) (
          str_append (p.cp_json b.critical_processes)
            (str_append (format_uint b.nonce) b.signature))) in
      ap p.sha256_hex (
        sym (append_assoc (format_uint i) s rest)
        ∙ ap (λ x. str_append x rest) h
        ∙ append_assoc (format_uint j) t rest)

  check_blocks-linked :
      (difficulty : ℤ) (previous : Block F J) (bs : List (Block F J))
      → check_blocks p difficulty previous bs ≡ ok tt
      → is_linked p previous bs ≡ true
  unfolding check_blocks is_linked
  check_blocks-linked difficulty previous [] h = refl
  check_blocks-linked difficulty previous (b ∷ bs) h =
      ground (arith, check_blocks-linked difficulty b bs)

  -- A chain that passes `IsValidChain`, at any difficulty, passes `isValidChain` too, when both are
  -- measured against the same own chain: it starts at the same genesis hash and every block continues
  -- the one before.
  pub check_chain-is_valid_chain :
      (difficulty : ℤ) (own new : List (Block F J))
      → check_chain p difficulty own new ≡ ok tt
      → is_valid_chain p own new ≡ some true
  unfolding check_chain is_valid_chain
  check_chain-is_valid_chain difficulty own [] h = cc
  check_chain-is_valid_chain difficulty [] (g ∷ bs) h = cc
  check_chain-is_valid_chain difficulty (k ∷ own) (g ∷ bs) h =
      ground (arith, check_blocks-linked difficulty g bs)

  -- After the difficulty has fallen below zero, checking any chain of two consistent blocks or
  -- more panics.
  pub negative_difficulty_panics :
      (d : ℕ) (h g b : Block F J) (own bs : List (Block F J))
      → g.hash ≡ h.hash
      → is_consistent p b g ≡ true
      → check_chain p (negsuc d) (h ∷ own) (g ∷ b ∷ bs) ≡ panic
  unfolding check_chain check_blocks has_valid_hash hash_valid_hash is_consistent
  negative_difficulty_panics d h g b own bs e c =
      ground (arith, eq_iff g.hash h.hash, eq_iff b.hash (calculate_hash p b))
