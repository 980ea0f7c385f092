-- ===== src/Storage.antt =====
-- blockchain/levelDB.go and the start of a chain from it.
pub mod Store
pub mod Keys
pub mod Saving
pub mod Start
pub mod Registration
pub mod Persisted
pub mod Reload
pub mod Memory
pub mod Tests
