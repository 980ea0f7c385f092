-- ===== src/Chain/Tests.antt =====
-- The chain theorems at concrete chains, with a hash that is the hashed text itself and a database
-- that counts what it has saved.
use tc_node_validator_go.Base.{
  none, ℕ, suc, String, Bool, false, str_eq, if◌then◌else◌, ◌≡◌, ◌≢◌, refl, true, false, ◌⊎◌,
  Option, some, List, [], ◌∷◌, ◌<◌, pos, ok, length, arith,
}
use tc_node_validator_go.Chain.Block.{
  Block, Platform, transaction_block, critical_process_block, calculate_hash, forge_block,
  has_valid_hash, hash_valid_hash, leading_zeros, new_block, format_uint,
}
use tc_node_validator_go.Chain.Blockchain.{
  Blockchain, is_consistent, is_linked, is_valid_chain, check_blocks, check_chain, add_block,
  create_block, replace_chain, last_of,
}
use tc_node_validator_go.Chain.Extension.{filled_with, add_block-linked, add_block-create_block}
use tc_node_validator_go.Chain.Replacement.{
  IsSound, add, replace, handle_all, replace_chain-cases, handle_all-IsSound,
}
use tc_node_validator_go.Chain.Mining.{has_chars, mined, mine_block, IsMined, mine_block-IsMined}
use tc_node_validator_go.Chain.Hashing.{tampered_block_valid, check_chain-is_valid_chain}

abbrev pub toy : Platform ℕ ℕ
toy = record {
  tx_json = λ txs. "";
  cp_json = λ cps. "";
  sha256_hex = λ text. text;
  parse_time = λ text. pos 0;
  zero_fees = 0;
}

abbrev pub count_saved : Block ℕ ℕ → ℕ → Option ℕ
count_saved b db = some (suc db)

abbrev pub sample : ℕ → String → String → Block ℕ ℕ
sample index previous_hash hash = record {
  index = index;
  timestamp = "t";
  type_of = transaction_block;
  transactions = none;
  critical_processes = none;
  previous_hash = previous_hash;
  hash = hash;
  nonce = 0;
  signature = "";
  validator = "ana";
  total_fees = 0;
  extra = "";
}

abbrev pub genesis : Block ℕ ℕ
genesis = sample 0 "0" "00t0"

abbrev pub second : Block ℕ ℕ
second = sample 1 "00t0" "100t0t0"

abbrev pub third : Block ℕ ℕ
third = sample 2 "100t0t0" "2100t0t0t0"

abbrev pub node : Blockchain ℕ ℕ ℕ
node = record { blocks = genesis ∷ []; block_type = transaction_block; difficulty = pos 0; db = 0 }

second_fits : is_consistent toy second genesis ≡ true
unfolding is_consistent calculate_hash format_uint
second_fits = refl

pub node-IsSound : IsSound toy count_saved "00t0" 1 node
unfolding is_linked
node-IsSound = record {
  first = genesis;
  rest = [];
  blocks_eq = refl;
  genesis_eq = refl;
  linked = refl;
  long = omega arith;
}

handle_all-IsSound_example :
    IsSound toy count_saved "00t0" 1
      (handle_all toy count_saved (add second ∷ replace (genesis ∷ second ∷ third ∷ []) ∷ []) node)
handle_all-IsSound_example =
    handle_all-IsSound toy count_saved (add second ∷ replace (genesis ∷ second ∷ third ∷ []) ∷ [])
      "00t0" 1 node node-IsSound

abbrev longer : List (Block ℕ ℕ)
longer = second ∷ third ∷ []

replace_chain-cases_example :
    let (r, bc') = replace_chain toy count_saved (genesis ∷ longer) node in
    ((r ≡ ok false) × (bc'.blocks ≡ genesis ∷ []))
    ⊎ ((r ≡ ok true)
        × (bc'.blocks ≡ genesis ∷ longer)
        × (length (genesis ∷ []) < length (genesis ∷ longer))
        × (genesis.hash ≡ genesis.hash)
        × (is_linked toy genesis longer ≡ true))
replace_chain-cases_example =
    replace_chain-cases toy count_saved genesis genesis [] longer node refl

add_block-linked_example :
    let (r, bc') = add_block toy count_saved second node in
    ((r ≡ ok tt)
      × (bc'.blocks ≡ genesis ∷ second ∷ [])
      × (is_linked toy genesis (second ∷ []) ≡ true))
    ⊎ ((r ≢ ok tt) × (bc' ≡ node))
unfolding is_linked
add_block-linked_example = add_block-linked toy count_saved second genesis [] node refl refl

add_block-create_block_example :
    let forged =
      forge_block toy "bob" "u"
        (filled_with none none 7 (new_block toy 1 "00t0" transaction_block "t")) in
    let (r, bc') = add_block toy count_saved forged node in
    (r ≡ ok tt) × (bc'.blocks ≡ genesis ∷ forged ∷ [])
unfolding create_block last_of new_block
add_block-create_block_example =
    add_block-create_block toy count_saved "bob" "t" "u" none none 7 genesis
      (new_block toy 1 "00t0" transaction_block "t") [] node 1 refl refl refl

tampered_block_valid_example :
    is_consistent toy
      (record second {
        validator = "eve";
        extra = "x";
        type_of = critical_process_block;
        total_fees = 9;
      })
      genesis
    ≡ true
tampered_block_valid_example =
    tampered_block_valid toy second genesis "eve" "x" critical_process_block 9 second_fits

check_chain-is_valid_chain_example :
    is_valid_chain toy (genesis ∷ []) (genesis ∷ longer) ≡ some true
unfolding check_chain check_blocks is_consistent calculate_hash format_uint has_valid_hash
    hash_valid_hash leading_zeros
check_chain-is_valid_chain_example =
    check_chain-is_valid_chain toy (pos 0) (genesis ∷ []) (genesis ∷ longer) refl

-- A platform whose only hash that begins with 0 is that of the genesis block with the nonce 2.
abbrev rare : Platform ℕ ℕ
rare = record toy { sha256_hex = λ text. if str_eq text "00t2" then "0f" else "ff" }

two_chars : (b : Bool) → has_chars 1 (if b then "0f" else "ff") ≡ true
unfolding has_chars
two_chars true = refl
two_chars false = refl

rare-long : (b : Block ℕ ℕ) → has_chars 1 (calculate_hash rare b) ≡ true
unfolding calculate_hash
rare-long b = two_chars _

mine_block-IsMined_example :
    (b : Block ℕ ℕ) × (mine_block rare 3 (pos 1) genesis ≡ mined b) × IsMined rare 1 genesis b
unfolding calculate_hash format_uint leading_zeros
mine_block-IsMined_example = mine_block-IsMined rare 2 1 genesis (omega arith) rare-long refl
