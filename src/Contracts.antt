-- ===== src/Contracts.antt =====
-- contracts/: contracts, the interpreter of their operations, and their manager.
pub mod Data
pub mod State
pub mod Values
pub mod Effects
pub mod Interpreter
pub mod Manager
pub mod Deployment
pub mod Execution
pub mod Gas
pub mod Nesting
pub mod Termination
pub mod Idle
pub mod Writes
pub mod ReadOnly
pub mod Funding
pub mod Codes
pub mod Launch
pub mod Unfunded
pub mod Tests
