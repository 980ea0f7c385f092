-- ===== src/Dpos.antt =====
-- consensus/dpos.go: delegates, the votes for them and who is active.
pub mod State
pub mod Delegates
pub mod Schedule
pub mod Sorting
pub mod Election
pub mod Votes
pub mod Requests
pub mod Tally
pub mod Turns
pub mod Validators
pub mod Counting
pub mod Slashing
pub mod Producer
pub mod Founding
pub mod Ticking
pub mod Tests
