-- ===== src/Lib.antt =====
-- The node of TripCodeChain (package tripcodechain_go): a chain of blocks, a consensus, and a
-- currency, with contracts, a database and an HTTP server around them.
--
-- Parts. A `Blockchain` holds blocks; peers and the node itself hand it blocks (`AddBlock`) and
-- whole chains (`ReplaceChain`), and it saves what it takes. A consensus object validates blocks
-- and handles messages: `PBFT` counts votes and changes views, `DPoS` elects delegates and gives
-- them turns. A `CurrencyManager` holds accounts and the supply; the node, the contracts and the
-- consensus call its methods, which take its mutex. A `Mempool` holds what waits for a block. A
-- `ContractManager` runs contracts and moves funds through the currency manager. The `Server` holds
-- two chains and two pools: requests fill the pools, background work turns them into blocks, and
-- blocks and chains of other nodes go to `AddBlock` and `ReplaceChain`. `BlockchainDB` keeps the
-- blocks in LevelDB, from which `NewBlockchain` loads them. At the start `main` makes the chains with
-- their token and a second `ContractManager`, that of package blockchain, deploys the system
-- contracts through it, and then serves.
--
-- Files.
--   Base, Base/       names and lemmas shared by all: integers, maps as association lists, slices,
--                     calls that end in a result, an error, a panic or a deadlock, and float64
--   Currency          currency/currency.go: State (data), Lock (the mutex and writes through the
--                     account pointers), Manager (CreateAccount to ProcessBlockRewards), Staking
--                     (StakeTokens, UnstakeTokens, GetStake), Setup (NewCurrencyManager, and
--                     InitNativeToken of blockchain/blockchain.go), Gas (UpdateNetworkGasPrice) and
--                     Text (String, TripCoinString, JSON and arithmetic of a Balance, with nil);
--                     Printing, Trimming and Fraction read the texts back;
--                     Transfer, Branches and Stakes take the methods by cases, Solvency,
--                     Conservation, Fees, Covered, Ledger and Genesis compare what is held with the stated
--                     supply
--   Chain             Block: blockchain/block.go, blockchain/transaction.go, blockchain/constants.go
--                     and the hash tests of blockchain/blockchain.go; Blockchain: AddBlock,
--                     CreateBlock, IsValidChain, isValidChain, ReplaceChain, adjustDifficulty;
--                     Mining: MineBlock; Extension, Replacement and Hashing prove what these make of
--                     a chain, Decimal that the text of a number reads back
--   Pbft              consensus/pbft.go and the message of consensus/concensus.go: State, Handlers
--                     (ProcessConsensusMessage and the four handlers, InitiateViewChange), Votes,
--                     Quorum and Views
--   Dpos              consensus/dpos.go: State, Delegates (RegisterVote, RegisterDelegate,
--                     UnregisterDelegate, IncreaseStake and the messages), Schedule
--                     (UpdateActiveDelegates, distributeRewards, updateSchedule, ValidateBlock),
--                     Validators (AddValidator, selectBlockProducer, SlashValidator,
--                     UpdateValidators), Founding (Initialize, GetDelegateStats); Sorting and
--                     Election on the sort, Votes, Requests and Tally on the votes, Turns and
--                     Ticking (with Counting) on the schedule, Slashing and Producer on the validators
--   Mempool           mempool/mempool.go: Pool (all methods) and Pending (GetPendingItems)
--   Contracts         contracts/contracts.go and contracts/interfaces.go: Data (operations, their
--                     arguments, gas costs), State (contracts, executions, the manager), Values and
--                     Effects (one function for each operation of executeOperation), Interpreter
--                     (executeOperations, IF and CALL), Manager, Deployment (CreateContract,
--                     templates, UpdateContractCode) and Execution (ExecuteContract,
--                     ExecuteReadOnlyCall); Nesting, Gas and Termination on the end of a run and its
--                     gas, Writes, Idle, ReadOnly and Funding on what the calls do
--   Storage           blockchain/levelDB.go: Store (all operations) and Keys; Start (NewBlockchain of
--                     blockchain/blockchain.go); Saving, Persisted and Reload on what is read back;
--                     Memory is a database for the tests
--   Server            p2p/: Node (p2p/node.go, p2p/node_manager.go, the address test), State (p2p/server.go),
--                     Batches (ProcessTxMempool, ProcessCriticalMempool, syncChain of p2p/network.go,
--                     syncChainWithNode), Handlers (the requests of p2p/handlers.go), Delivery
--                     (broadcastBlockToNode, signBlock, verifyNodeSignature); Chains,
--                     Soundness and Settling prove what these make of the chains and the pools
--   Startup           blockchain/blockchain.go and main.go: State (the contracts of package blockchain,
--                     and the chain, the contract manager and the currency as one record), Manager
--                     (NewContractManager, CreateContract, InitializeBlockchain), Codes (the code of
--                     the system contracts), Deployment (DeploySystemContracts), Consensus (NewConsensus of
--                     consensus/factory.go, and the start in `main`); Token, Blocking and FirstStart on
--                     the first start
-- The Tests files hold runs and the theorems at concrete inputs.
--
-- How state corresponds. A struct is a record, and a method a function from the receiver to an
-- outcome and the new receiver; what a call wrote stays written when it ends in an error. A map is
-- an association list, and a loop over it takes the order in which it reads it. Errors are
-- constructors without their texts. The clock is an argument. The mutex of `CurrencyManager` is a
-- field, since the methods lock it again; in the chain and the consensus no method waits for a
-- lock that it holds, and the mutex is left out. `*big.Int` is ℤ, a uint64 counter wraps around at
-- 2 ^ 64, and an `int` that only counts is a natural number. A
-- slice is a list; where JSON tells nil from empty, in the two slices of a block, it is a `Slice`,
-- with `none` for nil.
--
-- Outside the model. float64 is a type with operations (FloatOps), JSON, SHA-256 and time.Parse
-- are the fields of Platform, Codec and Runtime, and LevelDB is an interface with its laws
-- (LevelDb, IsLawful). The chain itself only sees the outcome of saving a block.
-- `BaseFeeMultiplier` is never read by the source and is left out, and so are the mutex of a single
-- contract and the metadata of methods and templates. In the contracts, the global state is its
-- only entry, the templates; a listener is a name, and its call is an entry of a list; the clock
-- stands still during a call. The random stakes of `Initialize` are an argument, the goroutine that it
-- starts is a sequence of ticks, and the timer that ends a ban an entry of a list. FromTripCoin and
-- NewSystemContract, which nothing calls, HTTP itself (routes, clients, time-outs),
-- heartbeats, logging, flags and signals are not modelled. What other nodes answer is an argument,
-- and what is sent to them a list.
--
-- Fuel. `format_digits` runs on 20 digits, which hold every uint64. `decimal_text` runs on one step
-- more than the number, and every step divides it by ten. `execute_operations` runs on the
-- depth to which IF blocks and CALLs are nested; for code without CALL the depth of its blocks is
-- enough, and CALL may recurse as long as the gas lasts. `in_batches` runs on the length of the list,
-- since no batch is empty. `mine_block` runs on the number of nonces that are tried.
pub mod Base
pub mod Currency
pub mod Chain
pub mod Pbft
pub mod Dpos
pub mod Mempool
pub mod Contracts
pub mod Storage
pub mod Server
pub mod Startup
