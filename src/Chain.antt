-- ===== src/Chain.antt =====
-- blockchain/: blocks and the chain.
pub mod Block
pub mod Blockchain
pub mod Extension
pub mod Replacement
pub mod Hashing
pub mod Mining
pub mod Decimal
pub mod Tests
