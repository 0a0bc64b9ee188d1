-- ===== src/App.antt =====
-- app/config.go and app/node.go: the settings of a node, and how it is put together and restarted; and
-- adapters/clock_simulated.go, a clock that a caller can give it.
pub mod Restart
pub mod Session
use xenium.Prelude.{ℕ, Option, none, some, List, [], ◌∷◌, if◌then◌else◌, ◌==◌, false}
use xenium.Prelude.Bytes.{Bytes, str, bytes_key}
use xenium.Prelude.Int.{ℤ, pos, wrap, ◌+ℤ◌}
use xenium.Domain.{Result, ok, err}
use xenium.Crypto.{Crypto}
use xenium.Storage.{Os, Json, FileBlockStore, new_file_block_store, file_block_store}
use xenium.Storage.Snapshots.{new_file_snapshot_store, save_epoch_snapshot, file_snapshot_store}
use xenium.Chain.{Blockchain, ChainConfig, SavedSnapshot}
use xenium.Chain.Setup.{new_blockchain, set_storage}
use xenium.Chain.Recovery.{restore_from_storage}

pub record Config : Type 0 where
  pub chain : ChainConfig
  pub data_dir : Bytes

unfoldable pub default_config : Config
default_config = record {
  chain = record {
    max_reorg_depth = pos 2;
    finality_slots = 2;
    min_reorg_weight_delta_p = pos 10;
    epoch_length = 50;
    deterministic_poh = false;
    poh_seed = pos 0;
    max_block_txs = pos 100;
  };
  data_dir = str "data";
}

pub record SimulatedClock : Type 0 where
  pub now : ℤ
  pub step : ℤ

unfoldable pub new_simulated_clock : ℤ → ℤ → SimulatedClock
new_simulated_clock start step = record { now = start; step = step }

-- What a reading shows, and the clock behind it.
unfoldable pub unix_nano : SimulatedClock → ℤ × SimulatedClock
unix_nano clock = let next = wrap (clock.now +ℤ clock.step) in (next, record clock { now = next })

-- The engine, and the stores that it was given, if there is a directory for them.
pub record Node : Type 0 where
  pub chain : Blockchain
  pub block_store : Option FileBlockStore
  pub snapshot_dir : Option Bytes

module _ {S : Type 0} (os : Os S) (json : Json) where
  -- The calls of the store of snapshots that the engine makes, on the disk: `_ = SaveEpochSnapshot(...)`.
  unfoldable pub write_snapshots : Bytes → List SavedSnapshot → S → S
  write_snapshots snap_dir [] s = s
  write_snapshots snap_dir (call ∷ calls) s =
      write_snapshots snap_dir calls
        (save_epoch_snapshot os json snap_dir call.epoch call.state_root call.validator_set s).1

module _ (c : Crypto) {S : Type 0} (os : Os S) (json : Json) (scan_epoch : Bytes → Option ℕ) where
  -- The part behind the opening of both stores. `none` is a call that never returns.
  unfoldable pub restore_node : Blockchain → FileBlockStore → Bytes → S → Option (Result Node × S)
  restore_node chain store snap_dir s =
      elim (restore_from_storage c (file_block_store os json)
        (file_snapshot_store os json scan_epoch) (some (store, s)) (some (snap_dir, s))
        (set_storage (some []) chain)) [
          | none ↦ none
          | some (err e, (bc, none)) ↦ some (err e, s)
          | some (err e, (bc, some (store', s'))) ↦ some (err e, s')
          | some (ok _, (bc, none)) ↦
              some (ok (record { chain = bc; block_store = none; snapshot_dir = some snap_dir }), s)
          | some (ok _, (bc, some (store', s'))) ↦ some (
            ok (record { chain = bc; block_store = some store'; snapshot_dir = some snap_dir }),
            s',
          )
        ]

  unfoldable pub open_stores : Blockchain → Bytes → S → Option (Result Node × S)
  open_stores chain dir s =
      let (opened, s1) = new_file_block_store os json dir s in
      elim opened [
        | err e ↦ some (err e, s1)
        | ok store ↦
            let (made, s2) = new_file_snapshot_store os json dir s1 in
            elim made [
              | err e ↦ some (err e, s2)
              | ok snap_dir ↦ restore_node chain store snap_dir s2
            ]
      ]

  -- `int63` is the first number of Go's random source with the given seed, and `reading` what the clock shows.
  unfoldable pub new_node : (ℤ → ℤ) → Option ℤ → Config → S → Option (Result Node × S)
  new_node int63 reading cfg s = elim (new_blockchain c int63 reading cfg.chain) [
    | none ↦ none
    | some chain ↦
        if cfg.data_dir == []
        then some (ok (record { chain = chain; block_store = none; snapshot_dir = none }), s)
        else open_stores chain cfg.data_dir s
  ]
