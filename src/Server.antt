-- ===== src/Server.antt =====
-- p2p/: known nodes, and the server's requests and background work.
pub mod Node
pub mod State
pub mod Batches
pub mod Handlers
pub mod Chains
pub mod Soundness
pub mod Settling
pub mod Delivery
pub mod Tests
