-- ===== src/Currency/State.antt =====
-- The data of currency/currency.go: constants, `Account`, `GasParameters` and `CurrencyManager`.
use tc_node_validator_go.Base.{ℕ, ◌*◌, ◌^◌, String, Bool, Option, ℤ, Dict, Action, Outcome}

-- Integer constants of the source, in quarks.
abbrev proton : ℕ
proton = 10 ^ 9

abbrev pub trip_coin : ℕ
trip_coin = 10 ^ 18

abbrev pub block_reward : ℕ
block_reward = 2 * trip_coin

abbrev pub minimum_stake : ℕ
minimum_stake = 100 * trip_coin

abbrev pub minimum_gas_price : ℕ
minimum_gas_price = 1 * proton

abbrev pub default_gas_price : ℕ
default_gas_price = 20 * proton

abbrev pub default_gas_limit : ℕ
default_gas_limit = 21000

abbrev pub genesis_address : String
genesis_address = "GENESIS_ACCOUNT"

-- `InitialSupply` passes through a float64: the double nearest to 10^24 is this number.
abbrev pub initial_supply : ℕ
initial_supply = 999999999999999983222784

-- `Stake` is a pointer that may be nil.
pub record Account : Type 0 where
  pub address : String
  pub balance : ℤ
  pub nonce : ℕ
  pub code_hash : String
  pub storage_root : String
  pub is_contract : Bool
  pub created_at : String
  pub last_activity : String
  pub frozen : Bool
  pub stake : Option ℤ

pub record GasParameters : Type 0 where
  pub min_gas_price : ℤ
  pub network_gas_price : ℤ
  pub last_updated : String

-- `mutex` is true while the lock is held for writing.
pub record CurrencyManager : Type 0 where
  pub symbol : String
  pub genesis_allocated : Bool
  pub accounts : Dict Account
  pub total_supply : ℤ
  pub mutex : Bool
  pub reserved_funds : ℤ
  pub gas_parameters : GasParameters

pub data CurrencyError : Type 0 where
  invalid_amount source_frozen insufficient_balance insufficient_burn : CurrencyError
  invalid_stake insufficient_for_stake invalid_unstake insufficient_stake : CurrencyError
  no_source no_account : String → CurrencyError

abbrev pub Call : Type 0 → Type 0
Call A = Action CurrencyManager CurrencyError A

abbrev pub Answer : Type 0 → Type 0
Answer A = Outcome CurrencyError A
