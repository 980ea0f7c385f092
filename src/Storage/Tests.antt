-- ===== src/Storage/Tests.antt =====
-- The storage theorems on a database in memory. The codec takes the blocks that `sample` makes, and
-- writes a block as its index.
use tc_node_validator_go.Base.{
  ℕ, ◌^◌, String, ◌≡◌, refl, Bool, true, false, ◌&&◌, none, some, Slice, map, List, [], ◌∷◌, arith,
  str_eq, eq_iff, ap, ltb, Bool-cases, inl, inr, ◌==◌, pos, lookup, insert, if◌then◌else◌,
}
use tc_node_validator_go.Chain.Block.{
  Block, BlockType, Transaction, CriticalProcess, Platform, transaction_block,
  critical_process_block, format_uint, calculate_hash, forge_block, new_block,
}
use tc_node_validator_go.Chain.Blockchain.{Blockchain, last_of, is_consistent, add_block}
use tc_node_validator_go.Chain.Decimal.{read_digits, read_digits-format_uint}
use tc_node_validator_go.Storage.Store.{
  Codec, value, save_block, get_blockchain_height, raises_height,
}
use tc_node_validator_go.Storage.Keys.{IsFaithful, reloaded}
use tc_node_validator_go.Storage.Memory.{memory, memory-IsLawful, put_all}
use tc_node_validator_go.Storage.Start.{saved, genesis_block, new_blockchain, chain_of}
use tc_node_validator_go.Storage.Persisted.{add_all}
use tc_node_validator_go.Storage.Reload.{reload_after_adds}

abbrev toy : Platform (Unit {0}) ℕ
toy = record {
  tx_json = λ txs. "";
  cp_json = λ cps. "";
  sha256_hex = λ text. "h";
  parse_time = λ text. pos 0;
  zero_fees = tt;
}

abbrev sample : ℕ → Block (Unit {0}) ℕ
sample index = record {
  index = index;
  timestamp = "t";
  type_of = transaction_block;
  transactions = none;
  critical_processes = none;
  previous_hash = if index == 0 then "0" else "h";
  hash = "h";
  nonce = 0;
  signature = "";
  validator = "genesis";
  total_fees = tt;
  extra = "";
}

abbrev plain_type : BlockType → Bool
plain_type transaction_block = true
plain_type critical_process_block = false

abbrev no_transactions : Slice (Transaction (Unit {0})) → Bool
no_transactions none = true
no_transactions (some []) = true
no_transactions (some (x ∷ xs)) = false

abbrev no_processes : Slice (CriticalProcess ℕ) → Bool
no_processes none = true
no_processes (some []) = true
no_processes (some (x ∷ xs)) = false

-- JSON makes the block the sample of its index.
abbrev is_sample : Block (Unit {0}) ℕ → Bool
is_sample b =
    str_eq b.timestamp "t"
    && plain_type b.type_of
    && no_transactions b.transactions
    && no_processes b.critical_processes
    && str_eq b.previous_hash (if b.index == 0 then "0" else "h")
    && str_eq b.hash "h"
    && b.nonce == 0
    && str_eq b.signature ""
    && str_eq b.validator "genesis"
    && str_eq b.extra ""

abbrev codec : Codec (Unit {0}) ℕ ℕ ℕ
codec = record {
  block_json =
      λ b. if is_sample b && ltb b.index (2 ^ 64) then some (format_uint b.index) else none;
  read_block = λ text. some (sample (read_digits 0 text));
  kept_fees = λ x. x;
  contract_json = λ k. none;
  read_contract = λ text. none;
  contract_address = λ k. "";
  with_balance = λ k. k;
  value_json = λ v. none;
  scan_uint = λ text. some (read_digits 0 text);
}

sample_eq : (b : Block (Unit {0}) ℕ) → is_sample b ≡ true → sample b.index ≡ reloaded codec b
unfolding reloaded
sample_eq b h = ground (
  arith,
  h,
  eq_iff b.timestamp "t",
  eq_iff b.previous_hash "0",
  eq_iff b.previous_hash "h",
  eq_iff b.hash "h",
  eq_iff b.signature "",
  eq_iff b.validator "genesis",
  eq_iff b.extra "",
)

codec-IsFaithful : IsFaithful codec
codec-IsFaithful = record {
  read-block_json = λ b text e. reads_back b text e;
  scan-format_uint = λ n h. ap some (read_digits-format_uint n h);
}
  where
    reads_back :
        (b : Block (Unit {0}) ℕ) (text : String)
        → codec.block_json b ≡ some text
        → codec.read_block text ≡ some (reloaded codec b)
    reads_back b text e = elim (Bool-cases (is_sample b && ltb b.index (2 ^ 64))) [
      | inr odd ↦ ground (arith, odd, e)
      | inl plain ↦
          let texts : format_uint b.index ≡ text = ground (arith, plain, e) in
          rw⁻¹ texts (
            rw (read_digits-format_uint b.index (ground (arith, plain)))
              (ap some (sample_eq b (ground (arith, plain)))))
    ]

abbrev started : Blockchain (Unit {0}) ℕ (List (String × String))
started =
    chain_of toy codec memory transaction_block (sample 0 ∷ [])
      (("blockindex_0", "0") ∷ ("blockhash_h", "0") ∷ [])

reload_after_adds_example :
    let bc = add_all toy codec memory (sample 1 ∷ []) started in
    new_blockchain toy codec memory transaction_block "u" bc.db
    ≡ value (record {
      blocks = map (reloaded codec) bc.blocks;
      block_type = transaction_block;
      difficulty = pos 2;
      db = bc.db;
    })
unfolding new_blockchain genesis_block save_block get_blockchain_height forge_block new_block
    format_uint put_all insert lookup calculate_hash raises_height add_all add_block saved
    is_consistent last_of
reload_after_adds_example =
    reload_after_adds toy codec memory memory-IsLawful codec-IsFaithful transaction_block "t" "u"
      (sample 1 ∷ []) [] started refl refl (omega arith) (omega arith)
