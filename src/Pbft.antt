-- ===== src/Pbft.antt =====
-- consensus/pbft.go: the votes on blocks and the changes of view.
pub mod State
pub mod Handlers
pub mod Dispatch
pub mod Votes
pub mod Quorum
pub mod Views
pub mod Tests
