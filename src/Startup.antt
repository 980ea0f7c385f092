-- ===== src/Startup.antt =====
-- blockchain/blockchain.go, blockchain/interfaces.go and main.go: how a node comes up: the chain,
-- the currency, the contract manager of package blockchain, and the system contracts.
pub mod State
pub mod Manager
pub mod Codes
pub mod Deployment
pub mod Blocking
pub mod Token
pub mod FirstStart
pub mod Consensus
pub mod Tests
