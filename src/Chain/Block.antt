-- ===== src/Chain/Block.antt =====
-- blockchain/block.go, blockchain/transaction.go and blockchain/constants.go: blocks, their hash
-- and their creation. `F` is float64 and `J` what JSON decodes into `any`.
use Prim.Native.Char.{code}
use Prim.Native.String.{◌++◌ as str_append}
use tc_node_validator_go.Base.{
  ℕ, zero, suc, ◌/◌, ◌%◌, String, Bool, true, false, not, ◌&&◌, Option, none, some, Slice, List, [],
  ◌∷◌, get_elem?, ℤ, pos, negsuc, ltb, ◌==◌, str_eq, if◌then◌else◌,
}

pub data BlockType : Type 0 where
  transaction_block critical_process_block : BlockType

pub record BlockDataTransaction (F : Type 0) : Type 0 where
  pub amount : F
  pub sender : String
  pub recipient : String

pub record Transaction (F : Type 0) : Type 0 where
  pub process_id : String
  pub description : String
  pub payload : BlockDataTransaction F
  pub timestamp : String
  pub signature : String
  pub gas_limit : ℕ

pub record CriticalProcess (J : Type 0) : Type 0 where
  pub process_id : String
  pub hash_data : String
  pub original_data_structure : J
  pub description : String
  pub timestamp : String
  pub signature : String

pub record Block (F J : Type 0) : Type 0 where
  pub index : ℕ
  pub timestamp : String
  pub type_of : BlockType
  pub transactions : Slice (Transaction F)
  pub critical_processes : Slice (CriticalProcess J)
  pub previous_hash : String
  pub hash : String
  pub nonce : ℕ
  pub signature : String
  pub validator : String
  pub total_fees : F
  pub extra : String

-- What the hash and the difficulty rest on outside this repository: `json.Marshal` of the two
-- slices (of nil it is another text than of an empty one), SHA-256 in hexadecimal, and `time.Parse` in nanoseconds.
pub record Platform (F J : Type 0) : Type 0 where
  pub tx_json : Slice (Transaction F) → String
  pub cp_json : Slice (CriticalProcess J) → String
  pub sha256_hex : String → String
  pub parse_time : String → ℤ
  pub zero_fees : F

abbrev pub digits : List String
digits = "0" ∷ "1" ∷ "2" ∷ "3" ∷ "4" ∷ "5" ∷ "6" ∷ "7" ∷ "8" ∷ "9" ∷ []

abbrev pub text_of : Option String → String
text_of none = ""
text_of (some text) = text

-- The text of a number below ten.
unfoldable pub digit : ℕ → String
digit n = text_of (get_elem? digits n)

-- A number below 2^64 has at most 20 digits.
unfoldable pub format_digits : ℕ → ℕ → String
unfolding digit
format_digits zero n = ""
format_digits (suc k) n =
    let front = format_digits k (n / 10) in
    if ltb n 10 then digit n else str_append front (digit (n % 10))

-- `strconv.FormatUint(n, 10)` on a uint64.
unfoldable pub format_uint : ℕ → String
unfolding format_digits
format_uint n = format_digits 20 n

module _ {F J : Type 0} (p : Platform F J) where
  open p use {tx_json, cp_json, sha256_hex, zero_fees}

  -- The text that is hashed. Nothing separates its parts.
  unfoldable hash_record : Block F J → String
  hash_record b = str_append (format_uint b.index) (
      str_append b.previous_hash (
        str_append b.timestamp (
          str_append (tx_json b.transactions) (
            str_append (cp_json b.critical_processes)
              (str_append (format_uint b.nonce) b.signature)))))

  unfoldable pub calculate_hash : Block F J → String
  unfolding hash_record
  calculate_hash b = sha256_hex (hash_record b)

  unfoldable pub new_block : ℕ → String → BlockType → String → Block F J
  new_block index previous_hash block_type now = record {
    index = index;
    timestamp = now;
    type_of = block_type;
    transactions = none;
    critical_processes = none;
    previous_hash = previous_hash;
    hash = "";
    nonce = 0;
    signature = "";
    validator = "";
    total_fees = zero_fees;
    extra = "";
  }

  abbrev sealed_at : String → String → Block F J → Block F J
  sealed_at validator now b = record b { validator = validator; timestamp = now }

  unfoldable pub forge_block : String → String → Block F J → Block F J
  forge_block validator now b = record (sealed_at validator now b) {
    hash = calculate_hash (sealed_at validator now b);
  }

-- The first `d` characters exist and are all '0'. ('0' is one byte, so bytes and characters agree.)
unfoldable pub leading_zeros : ℕ → String → Bool
leading_zeros zero s = true
leading_zeros (suc d) String.[] = false
leading_zeros (suc d) (String.◌∷◌ c s) = code c == b'0' && leading_zeros d s

-- `HashValidHash`. A negative difficulty slices out of range: a panic, `none` here.
unfoldable pub hash_valid_hash : String → ℤ → Option Bool
hash_valid_hash hash (pos d) = some (leading_zeros d hash)
hash_valid_hash hash (negsuc d) = none

module _ {F J : Type 0} (p : Platform F J) where
  unfoldable pub has_valid_hash : Block F J → ℤ → Option Bool
  has_valid_hash b difficulty =
      if not (str_eq b.hash (calculate_hash p b))
      then some false
      else hash_valid_hash b.hash difficulty
