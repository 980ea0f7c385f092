-- ===== src/Storage/Store.antt =====
-- blockchain/levelDB.go: the layer over LevelDB. `D` is the state of the database.
use Prim.Native.String.{◌++◌ as str_append}
use tc_node_validator_go.Base.{
  ℕ, zero, suc, String, ◌≡◌, Bool, true, false, Option, none, some, List, [], ◌∷◌, ltb, str_eq,
  if◌then◌else◌,
}
use tc_node_validator_go.Chain.Block.{Block, format_uint}

-- What reading a key gives: `leveldb.ErrNotFound` and other errors are told apart.
pub data Reading : Type 0 where
  found : String → Reading
  not_found : Reading
  unreadable : Reading

-- The operations of LevelDB that are used. `write` is a batch of puts, applied as one; an iterator
-- over a prefix gives its values and whether it ended without an error.
pub record LevelDb (D : Type 0) : Type 0 where
  pub get : D → String → Reading
  pub write : List (String × String) → D → Option D
  pub delete : String → D → Option D
  pub iterate : String → D → List String × Bool

-- The last value that a batch puts under a key.
unfoldable pub last_put : String → List (String × String) → Option String
last_put key [] = none
last_put key ((k, v) ∷ batch) = elim (last_put key batch) [
  | some w ↦ some w
  | none ↦ if str_eq k key then some v else none
]

-- What LevelDB documents: a batch that was written is read back, and no other key changes; the
-- same for a deleted key.
pub record IsLawful {D : Type 0} (ldb : LevelDb D) : Type 0 where
  pub get-write :
      (batch : List (String × String)) (db db' : D) (key : String)
      → ldb.write batch db ≡ some db'
      → ldb.get db' key ≡ elim (last_put key batch) [ none ↦ ldb.get db key | some v ↦ found v ]
  pub get-delete :
      (db db' : D) (key other : String)
      → ldb.delete key db ≡ some db'
      → ldb.get db' other ≡ (if str_eq key other then not_found else ldb.get db other)

-- JSON of blocks, contracts (`K`) and state values (`V`), and `Sscanf` with "%d". `kept_fees` is what
-- fees are after they were written with `omitempty` and read: -0 comes back as 0.
pub record Codec (F J K V : Type 0) : Type 0 where
  pub block_json : Block F J → Option String
  pub read_block : String → Option (Block F J)
  pub kept_fees : F → F
  pub contract_json : K → Option String
  pub read_contract : String → Option K
  pub contract_address : K → String
  pub with_balance : K → K
  pub value_json : V → Option String
  pub scan_uint : String → Option ℕ

pub data StoreError : Type 0 where
  marshal_failed write_failed read_failed missing bad_json bad_height : StoreError

pub data Stored (A : Type 0) : Type 0 where
  value : A → Stored A
  failure : StoreError → Stored A

abbrev pub height_key : String
height_key = "height"

abbrev pub index_key : ℕ → String
index_key i = str_append "blockindex_" (format_uint i)

abbrev pub hash_key : String → String
hash_key hash = str_append "blockhash_" hash

abbrev pub contract_key : String → String
contract_key address = str_append "contract_" address

abbrev state_key : String → String
state_key key = str_append "state_" key

abbrev pub system_key : String → String
system_key name = str_append "syscontract_" name

abbrev pub decoded : {A : Type 0} → (String → Option A) → Reading → Stored A
decoded read unreadable = failure read_failed
decoded read not_found = failure missing
decoded read (found text) = elim (read text) [ none ↦ failure bad_json | some a ↦ value a ]

abbrev pub written : {D : Type 0} → D → Option D → Stored (Unit {0}) × D
written db none = (failure write_failed, db)
written db (some db') = (value tt, db')

-- The height is written for a block above it, and when it cannot be read.
unfoldable pub raises_height : ℕ → Stored ℕ → Bool
raises_height i (value h) = ltb h i
raises_height i (failure e) = true

abbrev pub block_batch : {F J : Type 0} → Block F J → String → Bool → List (String × String)
block_batch b text raised =
    (index_key b.index, text)
    ∷ (hash_key b.hash, text)
    ∷ (if raised then (height_key, format_uint b.index) ∷ [] else [])

module _ {F J K V D : Type 0} (c : Codec F J K V) (ldb : LevelDb D) where
  open c use {block_json, read_block, contract_json, read_contract, value_json, scan_uint}
  open ldb use {get, write, delete, iterate}

  abbrev scanned : Option ℕ → Stored ℕ
  scanned none = failure bad_height
  scanned (some h) = value h

  abbrev height_of : Reading → Stored ℕ
  height_of unreadable = failure read_failed
  height_of not_found = value 0
  height_of (found text) = scanned (scan_uint text)

  unfoldable pub get_blockchain_height : D → Stored ℕ
  get_blockchain_height db = height_of (get db height_key)

  unfoldable pub get_block_by_index : ℕ → D → Stored (Block F J)
  get_block_by_index i db = decoded read_block (get db (index_key i))

  unfoldable pub get_block_by_hash : String → D → Stored (Block F J)
  get_block_by_hash hash db = decoded read_block (get db (hash_key hash))

  unfoldable pub save_block : Block F J → D → Stored (Unit {0}) × D
  unfolding raises_height
  save_block b db = elim (block_json b) [
    | none ↦ (failure marshal_failed, db)
    | some text ↦
        written db
          (write (block_batch b text (raises_height b.index (get_blockchain_height db))) db)
  ]

  -- The loop of `GetAllBlocks` over the next `n` indices.
  unfoldable pub load_from : ℕ → ℕ → D → Stored (List (Block F J))
  load_from zero i db = value []
  load_from (suc n) i db = elim (get_block_by_index i db) [
    | failure e ↦ failure e
    | value b ↦ elim (load_from n (suc i) db) [ failure e ↦ failure e | value bs ↦ value (b ∷ bs) ]
  ]

  -- At the height 2^64 - 1 the source's loop would not end; no database holds as many blocks.
  unfoldable pub get_all_blocks : D → Stored (List (Block F J))
  get_all_blocks db = elim (get_blockchain_height db) [
    | failure e ↦ failure e
    | value h ↦ load_from (suc h) 0 db
  ]

  unfoldable pub save_contract : K → D → Stored (Unit {0}) × D
  save_contract k db = elim (contract_json k) [
    | none ↦ (failure marshal_failed, db)
    | some text ↦ written db (write ((contract_key (c.contract_address k), text) ∷ []) db)
  ]

  unfoldable pub get_contract : String → D → Stored K
  get_contract address db = decoded read_contract (get db (contract_key address))

  -- A contract without a balance is given one of 0 (`with_balance`).
  unfoldable pub read_all : List String → Option (List K)
  read_all [] = some []
  read_all (text ∷ texts) =
      let rest = read_all texts in
      elim (read_contract text) [
        | none ↦ none
        | some k ↦ elim rest [ none ↦ none | some ks ↦ some (c.with_balance k ∷ ks) ]
      ]

  abbrev all_read : Option (List K) → Bool → Stored (List K)
  all_read none clean = failure bad_json
  all_read (some ks) true = value ks
  all_read (some ks) false = failure read_failed

  unfoldable pub get_all_contracts : D → Stored (List K)
  unfolding read_all
  get_all_contracts db =
      let (texts, clean) = iterate "contract_" db in all_read (read_all texts) clean

  unfoldable pub register_system_contract : String → String → D → Stored (Unit {0}) × D
  register_system_contract name address db = written db (write ((system_key name, address) ∷ []) db)

  unfoldable pub get_system_contract_address : String → D → Stored String
  get_system_contract_address name db = decoded some (get db (system_key name))

  unfoldable pub save_state : String → V → D → Stored (Unit {0}) × D
  save_state key v db = elim (value_json v) [
    | none ↦ (failure marshal_failed, db)
    | some text ↦ written db (write ((state_key key, text) ∷ []) db)
  ]

  abbrev state_of : Reading → Stored (Option String)
  state_of unreadable = failure read_failed
  state_of not_found = value none
  state_of (found text) = value (some text)

  -- A missing value is no error.
  unfoldable pub get_state : String → D → Stored (Option String)
  get_state key db = state_of (get db (state_key key))

  unfoldable pub delete_state : String → D → Stored (Unit {0}) × D
  delete_state key db = written db (delete (state_key key) db)
