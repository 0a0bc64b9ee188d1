-- ===== src/Storage/Snapshots/Saved.antt =====
-- What FileSnapshotStore of adapters/storage_file.go reads back of a snapshot that it saved.
use xenium.Prelude.{ℕ, ◌≡◌, ◌≢◌, refl, ◌∙◌, arith, Option, some, ◌++◌, inl, inr, Option-cases}
use xenium.Prelude.Bytes.{Bytes, str, bytes_key}
use xenium.Prelude.Utf8.{IsUtf8}
use xenium.Dict.{Dict, lookup}
use xenium.Domain.{ok, Result-cases}
use xenium.Storage.{Os, Json, SnapshotFile}
use xenium.Storage.Disk.{IsWriting, IsReadable, replace_file-view}
use xenium.Storage.Snapshots.{
  snapshot_name, save_epoch_snapshot, load_snapshot_file, load_snapshot_by_epoch,
}

-- The names of a snapshot and its state root are UTF-8, which JSON gives back unchanged.
pub record IsTextual (sf : SnapshotFile) : Type 0 where
  pub root_text : IsUtf8 sf.state_root
  pub names_text :
      (name : Bytes) (stake : ℕ) → lookup name sf.validator_set ≡ some stake → IsUtf8 name

-- A snapshot in UTF-8 that was written is read back with its root and the stakes of its validators.
pub record IsSnapshotJson (json : Json) : Type 0 where
  pub snapshot_back :
      (sf : SnapshotFile) (text : Bytes)
      → IsTextual sf
      → json.marshal_snapshot sf ≡ ok text
      → (sf' : SnapshotFile) × (json.unmarshal_snapshot text ≡ ok sf')
        × (sf'.state_root ≡ sf.state_root)
        × ((name : Bytes) → lookup name sf'.validator_set ≡ lookup name sf.validator_set)

module _ {S : Type 0} (os : Os S) (json : Json) (view : S → Bytes → Option Bytes) where
  -- What is loaded depends on the file alone.
  load_same :
      (dir : Bytes) (epoch : ℕ) (s s' : S)
      → IsReadable os view s
      → IsReadable os view s'
      → view s' (os.join dir (snapshot_name epoch)) ≡ view s (os.join dir (snapshot_name epoch))
      → load_snapshot_by_epoch os json dir epoch s' ≡ load_snapshot_by_epoch os json dir epoch s
  unfolding load_snapshot_by_epoch load_snapshot_file
  load_same dir epoch s s' readable readable' same =
      let path = os.join dir (snapshot_name epoch) in
      elim (Option-cases (view s path)) [
        | inl missing ↦
            let at = readable.absent path missing in
            let at' = readable'.absent path (same ∙ missing) in
            rw (load_snapshot_by_epoch, at, at') refl
        | inr (text, there) ↦
            let at = readable.present path text there in
            let at' = readable'.present path text (same ∙ there) in
            let text_at = readable.there path text there in
            let text_at' = readable'.there path text (same ∙ there) in
            rw (load_snapshot_by_epoch, at, at', load_snapshot_file, text_at, text_at') refl
      ]

  -- A snapshot that SaveEpochSnapshot stored is what LoadSnapshotByEpoch returns for its epoch, with the state root
  -- and the stake of each validator; and the call for another epoch returns what it did before. Conditions: the state root
  -- and the names of the validators are UTF-8, the save returned no error, the file system and JSON do what they promise, reads succeed, and the file of the other epoch
  -- has another name than the file written and than its temporary file.
  pub load-save_epoch_snapshot :
      (dir : Bytes) (epoch other : ℕ) (root : Bytes) (stakes : Dict Bytes ℕ) (s s' : S)
      → IsWriting os view
      → IsSnapshotJson json
      → IsReadable os view s
      → IsReadable os view s'
      → os.join dir (snapshot_name epoch) ++ str ".tmp" ≢ os.join dir (snapshot_name epoch)
      → os.join dir (snapshot_name epoch) ++ str ".tmp" ≢ os.join dir (snapshot_name other)
      → os.join dir (snapshot_name epoch) ≢ os.join dir (snapshot_name other)
      → IsTextual (record { epoch = epoch; state_root = root; validator_set = stakes })
      → save_epoch_snapshot os json dir epoch root stakes s ≡ (ok tt, s')
      → ((stakes' : Dict Bytes ℕ) × (load_snapshot_by_epoch os json dir epoch s'
            ≡ ok (some (root, stakes')))
          × ((name : Bytes) → lookup name stakes' ≡ lookup name stakes))
        × (load_snapshot_by_epoch os json dir other s' ≡ load_snapshot_by_epoch os json dir other s)
  unfolding save_epoch_snapshot load_snapshot_by_epoch load_snapshot_file
  load-save_epoch_snapshot dir epoch other root stakes s s' writing codec readable readable' tmp far
        apart texts h =
      let sf : SnapshotFile = record { epoch = epoch; state_root = root; validator_set = stakes } in
      let path = os.join dir (snapshot_name epoch) in
      elim (Result-cases (json.marshal_snapshot sf)) [
        | inr (e, failed) ↦ absurd (ground arith)
        | inl (text, marshalled) ↦
            let (shown, others) =
              replace_file-view json writing path text s s' tmp
                (rw (save_epoch_snapshot, marshalled) at h) in
            let (sf', back, root_same, stakes_same) =
              codec.snapshot_back sf text texts marshalled in
            let at = readable'.present path text shown in
            let text_at = readable'.there path text shown in
            (
              (
                sf'.validator_set,
                rw (load_snapshot_by_epoch, at, load_snapshot_file, text_at, back, root_same) refl,
                stakes_same,
              ),
              load_same dir other s s' readable readable'
                  (others (os.join dir (snapshot_name other)) far apart),
            )
      ]
