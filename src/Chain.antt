-- ===== src/Chain.antt =====
-- core/blockchain.go: the state of the chain engine and its configuration.
pub mod Epoch
pub mod Walk
pub mod Score
pub mod Rebuild
pub mod Canonical
pub mod Slots
pub mod Accept
pub mod Blocks
pub mod Setup
pub mod Growth
pub mod Verify
pub mod Recovery
pub mod Reports
use xenium.Prelude.{ℕ, Bool, Option, List}
use xenium.Prelude.Bytes.{Bytes, str}
use xenium.Prelude.Int.{ℤ}
use xenium.Dict.{Dict}
use xenium.Domain.{Block, Validators, Stats, State}
use xenium.Leader.{Stakes}
use xenium.Poh.{Poh}
use xenium.Mempool.{Mempool}

pub record ChainScore : Type 0 where
  pub slot : ℕ
  pub cumulative_weight : ℕ
  pub hash : Bytes

pub record ChainConfig : Type 0 where
  pub max_reorg_depth : ℤ
  pub finality_slots : ℕ
  pub min_reorg_weight_delta_p : ℤ
  pub epoch_length : ℕ
  pub deterministic_poh : Bool
  pub poh_seed : ℤ
  pub max_block_txs : ℤ

pub record ReorgMetrics : Type 0 where
  pub info : ℕ
  pub warn : ℕ
  pub error : ℕ
  pub critical : ℕ

pub record EquivocationProof : Type 0 where
  pub slot : ℕ
  pub validator : Bytes
  pub block_a : Bytes
  pub block_b : Bytes

pub record EpochSnapshot : Type 0 where
  pub epoch : ℕ
  pub total_stake : ℕ
  pub validators : Stakes

-- What a call of `SaveEpochSnapshot` is given; the engine ignores whether it succeeds.
pub record SavedSnapshot : Type 0 where
  pub epoch : ℕ
  pub state_root : Bytes
  pub validator_set : Stakes

-- `snapshots` and `currentEpoch`, which also reading calls change, and the calls of the snapshot
-- store so far; `none` stands for no store.
pub record Epochs : Type 0 where
  pub snapshots : Dict ℕ EpochSnapshot
  pub current_epoch : ℕ
  pub saved : Option (List SavedSnapshot)

-- The clock, the logger and the random source have no fields: the first and the last only make the
-- seed of the genesis block, and the calls of the logger change nothing.
pub record Blockchain : Type 0 where
  pub chain : List Block
  pub blocks : Dict Bytes Block
  pub parents : Dict Bytes Bytes
  pub canonical_tip : Bytes
  pub validators : Validators
  pub stats : Stats
  pub poh : Option Poh
  pub state : State
  pub genesis : State
  pub slot_produced : Dict ℕ Bytes
  pub slot_producers : Dict ℕ (Dict Bytes Bytes)
  pub equivocations : List EquivocationProof
  pub last_processed_slot : ℕ
  pub finalized_slot : ℕ
  pub config : ChainConfig
  pub reorg_stats : ReorgMetrics
  pub epochs : Epochs
  pub mempool : Option Mempool

-- The previous hash of the first block.
abbrev pub genesis_mark : Bytes
genesis_mark = str "GENESIS"
