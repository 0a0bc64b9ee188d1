-- ===== src/Storage/Snapshots.antt =====
-- FileSnapshotStore of adapters/storage_file.go: a file for the snapshot of each epoch.
pub mod Beside
pub mod Latest
pub mod Saved
use xenium.Prelude.{
  ℕ, Option, none, some, List, [], ◌∷◌, ◌++◌, leb, true, false, if◌then◌else◌, ◌==◌,
}
use xenium.Prelude.Bytes.{Bytes, str, bytes_key}
use xenium.Dict.{Dict}
use xenium.Domain.{Result, Checked, ok, err, ◌>>=◌, data_dir_required, unreadable}
use xenium.Ports.{LatestSnapshot, SnapshotStore}
use xenium.Text.Digits.{format_uint}
use xenium.Storage.{Os, Json, SnapshotFile, and_then, replace_file}

-- `fmt.Sprintf("epoch_%d.json", epoch)`
unfoldable pub snapshot_name : ℕ → Bytes
snapshot_name epoch = str "epoch_" ++ format_uint epoch ++ str ".json"

module _ {S : Type 0} (os : Os S) (json : Json) where
  -- The store is its directory.
  unfoldable pub new_file_snapshot_store : Bytes → S → Result Bytes × S
  new_file_snapshot_store dir s =
      if dir == []
      then (err data_dir_required, s)
      else let snap_dir = os.join dir (str "snapshots") in
        and_then (os.mkdir_all snap_dir s) (λ s1. (ok snap_dir, s1))

  unfoldable pub save_epoch_snapshot : Bytes → ℕ → Bytes → Dict Bytes ℕ → S → Checked × S
  save_epoch_snapshot dir epoch state_root validator_set s =
      elim (json.marshal_snapshot
        (record { epoch = epoch; state_root = state_root; validator_set = validator_set })) [
          | err e ↦ (err e, s)
          | ok text ↦ replace_file os (os.join dir (snapshot_name epoch)) text s
        ]

  unfoldable pub load_snapshot_file : Bytes → S → Result SnapshotFile
  load_snapshot_file path s = elim (os.read_file path s) [
    | none ↦ err unreadable
    | some (err e) ↦ err e
    | some (ok text) ↦ json.unmarshal_snapshot text
  ]

  unfoldable pub load_snapshot_by_epoch : Bytes → ℕ → S → Result (Option (Bytes × Dict Bytes ℕ))
  load_snapshot_by_epoch dir epoch s =
      let path = os.join dir (snapshot_name epoch) in
      elim (os.stat path s) [
        | none ↦ ok none
        | some (err e) ↦ err e
        | some (ok _) ↦
            load_snapshot_file path s >>= λ sf. ok (some (sf.state_root, sf.validator_set))
      ]

  -- `scan_epoch` is `fmt.Sscanf` with the format "epoch_%d.json".
  module _ (scan_epoch : Bytes → Option ℕ) where
    -- The loop over the names; a later name wins among equal epochs.
    unfoldable pub latest_of : Bytes → List Bytes → ℕ → Bytes → Bytes
    latest_of dir [] latest_epoch latest_path = latest_path
    latest_of dir (name ∷ names) latest_epoch latest_path = elim (scan_epoch name) [
      | none ↦ latest_of dir names latest_epoch latest_path
      | some epoch ↦ elim (leb latest_epoch epoch) [
        | true ↦ latest_of dir names epoch (os.join dir name)
        | false ↦ latest_of dir names latest_epoch latest_path
      ]
    ]

    unfoldable pub load_latest_snapshot : Bytes → S → Result (Option LatestSnapshot)
    load_latest_snapshot dir s = elim (os.read_dir dir s) [
      | none ↦ ok none
      | some (err e) ↦ err e
      | some (ok names) ↦
          let path = latest_of dir names 0 [] in
          if path == []
          then ok none
          else load_snapshot_file path s >>= λ sf. ok (
              some (record {
                epoch = sf.epoch;
                state_root = sf.state_root;
                validator_set = sf.validator_set;
              }))
    ]

    -- The store as recovery uses it.
    unfoldable pub file_snapshot_store : SnapshotStore (Bytes × S)
    file_snapshot_store = record { load_latest_snapshot = λ (dir, s). load_latest_snapshot dir s }
