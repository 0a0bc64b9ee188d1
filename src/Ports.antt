-- ===== src/Ports.antt =====
-- ports/storage.go: the interface by which the engine stores blocks.
use xenium.Prelude.{ℕ, Option, List}
use xenium.Prelude.Bytes.{Bytes}
use xenium.Dict.{Dict}
use xenium.Domain.{Block, Checked, Result}

-- A store of blocks with states `S`; its calls are its operations on a state. For `get_range`, `none` is a
-- call that never returns.
pub record BlockStore (S : Type 0) : Type 0 where
  pub save_block : Block → S → Checked × S
  pub get_block_by_hash : Bytes → S → Option Block
  pub get_block_by_height : ℕ → S → Option Block
  pub get_tip : S → Option Block
  pub get_range : ℕ → ℕ → S → Option (Result (List Block))

-- What the latest snapshot holds: its epoch, the state root, and the stakes.
pub record LatestSnapshot : Type 0 where
  pub epoch : ℕ
  pub state_root : Bytes
  pub validator_set : Dict Bytes ℕ

-- The stores of snapshots with states `T`, as far as recovery reads them.
pub record SnapshotStore (T : Type 0) : Type 0 where
  pub load_latest_snapshot : T → Result (Option LatestSnapshot)
