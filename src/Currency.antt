-- ===== src/Currency.antt =====
-- currency/currency.go: TripCoin balances, accounts and the manager that moves funds.
pub mod State
pub mod Lock
pub mod Manager
pub mod Staking
pub mod Setup
pub mod Solvency
pub mod Transfer
pub mod Branches
pub mod Conservation
pub mod Covered
pub mod Stakes
pub mod Genesis
pub mod Fees
pub mod Ledger
pub mod Gas
pub mod Text
pub mod Printing
pub mod Trimming
pub mod Fraction
pub mod Tests
