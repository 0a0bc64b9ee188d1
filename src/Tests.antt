-- ===== src/Tests.antt =====
-- The theorems applied to concrete data: accounts, validators, transactions and blocks with short names.
mod Demo
mod Ledger
mod Stake
mod Text
mod Poh
mod Leader
mod Signing
mod Mempool
mod Chain
mod Slots
mod Accept
mod Run
mod Disk
mod Progress
mod Node
mod Wallet
mod Snapshots
