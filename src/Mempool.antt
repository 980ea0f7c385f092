-- ===== src/Mempool.antt =====
-- mempool/mempool.go: the items that wait for a block.
pub mod Pool
pub mod Pending
pub mod Tests
