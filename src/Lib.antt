-- ===== src/Lib.antt =====
-- Xenium: a model of a single-node blockchain engine in Go, and what holds of it.
--
-- The program draws a leader for each slot of a tick chain by stake, lets it make a block of
-- transactions that wait in a pool, and chooses one chain among the blocks by weight. The files that
-- model it, with the paths from the root of the repository:
--
-- Domain: the records of domain/ and the errors. Go's maps are association lists (Dict), its strings
--   byte lists (Prelude/Bytes), `int` and `uint64` numbers that wrap around at 64 bits (Prelude/Int).
-- Crypto: the calls of Go's crypto packages as a parameter, a record of functions. What is relied on
--   of them is a hypothesis where a theorem needs it.
-- Ports: the interfaces of ports/storage.go, through which the engine saves blocks and reads them back.
-- Text: `itoa` of consensus/pov.go, and the texts of the strconv and hex packages.
-- Ledger: `ApplyTransactions` of consensus/pov.go. `apply_transaction` is the body of its loop.
-- Stake: the operations of consensus/pos.go on stakes (`AddValidator`, `AddStake`, `Unstake`,
--   `RewardValidator`, `SlashValidator`, `SlashValidatorPercent`), on the map of validators.
-- Leader: `LeaderFromSnapshot` and `DeterministicLeader` of consensus/pos.go.
-- Poh: the clock of consensus/poh.go and `VerifyPoH` of consensus/pov.go.
-- Signing: consensus/crypto.go and domain/crypto.go; randomness of a signature is an argument.
-- Mempool: core/mempool.go; the mutex makes each call one step.
-- Storage: the stores of blocks and snapshots of adapters/storage_file.go. The calls of os, bufio and
--   encoding/json are records of functions (`Os`, `Json`); Storage/Disk says what is relied on of them
--   (JSON gives back UTF-8 texts, Prelude/Utf8),
--   and Storage/Memory is the store of adapters/storage_memory.go.
-- Chain: core/blockchain.go. The record `Blockchain` holds the fields of the Go struct; `Epochs` is
--   the part that also reading calls change, since the first call for a slot of an epoch makes its
--   snapshot, and so those calls take and return it. Chain/Epoch has the snapshots, Chain/Walk the walks
--   along previous hashes, Chain/Score the scores (`scoreTip`, `betterScore`, the weight delta),
--   Chain/Rebuild what is derived from the canonical chain (`rebuildSlotMap`,
--   `rebuildStateFromCanonical`, `updateFinality`, `stateAtTip`), Chain/Canonical `updateCanonical`,
--   Chain/Slots the producers of slots, equivocation and missed slots,
--   Chain/Accept `verifyBlockOnAccept` with `VerifyTransactions` and `VerifyLeaderSnapshot`,
--   Chain/Blocks `AddBlock` and `AddBlockExternal` with all that they call, and Chain/Setup
--   `NewBlockchain` and the calls that bring in balances, validators and transactions. Chain/Growth
--   is the invariant of the engine, Chain/Verify `VerifyChain` with the checks of consensus/pov.go,
--   Chain/Recovery `RestoreFromStorage` of core/recovery.go, Chain/Reports `GetForkCandidates`, the
--   reports of snapshots and `GetValidatorSummaries`, and Chain/Growth/Reach the runs: sequences of the exported
--   calls that may change the engine, but for `RestoreFromStorage`, which replaces the blocks by those of a store
--   (App/Restart is about it). The engine keeps the calls of its store of snapshots as a list, in their order,
--   since it drops their errors and reads nothing back: `write_snapshots` of App makes them on the disk.
-- Wallet: `NewWallet` of domain/wallet.go, and `makeTx` of cmd/xenium/main.go, which signs with a wallet.
-- App: `NewNode` and `DefaultConfig` of app/, which put the engine and its stores together, and the
--   simulated clock of adapters/. App/Session lets the writes of snapshots stand between those of blocks on
--   one disk, and App/Restart composes Storage, Recovery and the engine.
-- Command: the other functions beside `main` of cmd/xenium/main.go; what they print is a list of lines.
-- Tests: concrete data, at which the theorems are applied.
--
-- Bounds. The walks of core/blockchain.go have no bound in the source; the model gives a walk one round
-- more than there are blocks, which is enough where the index of a block is larger than that of the
-- block it names (Chain/Walk/Total), and `none` is a walk that is not over by then. `VerifyPoH` is
-- `none` at the largest tick, where its loop does not end, and so is `processMissedSlots` at the largest
-- slot, and `GetRange` where every height up to the largest `uint64` has a block. No other definition
-- has fuel.
--
-- The order of a `range` over a Go map and of equal elements in `sort.Slice` is open; the model takes the
-- order of the association list, and an insertion sort.
--
-- Not modelled: `main` of cmd/xenium/main.go, a fixed script that calls the engine with new wallets and
-- prints what it returns; the system clock and the loggers of adapters/, which wrap Go's packages; and the
-- ports without an implementation (ports/network.go, ports/signer.go). The engine is one state that calls
-- change one after another: its source has no lock and starts no goroutine.
pub mod Prelude
pub mod Dict
pub mod Domain
pub mod Crypto
pub mod Ports
pub mod Text
pub mod Ledger
pub mod Stake
pub mod Poh
pub mod Leader
pub mod Signing
pub mod Wallet
pub mod Mempool
pub mod Storage
pub mod Chain
pub mod App
pub mod Command
pub mod Tests
