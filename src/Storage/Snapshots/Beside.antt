-- ===== src/Storage/Snapshots/Beside.antt =====
-- FileSnapshotStore of adapters/storage_file.go beside a FileBlockStore on the same disk.
use xenium.Prelude.{ℕ, ◌≡◌, ◌≢◌, refl, arith, Option, ◌++◌, inl, inr}
use xenium.Prelude.Bytes.{Bytes, str}
use xenium.Dict.{Dict}
use xenium.Domain.{Result-cases}
use xenium.Storage.{Os, Json, SnapshotFile, replace_file}
use xenium.Storage.Restart.{IsElsewhere}
use xenium.Storage.Snapshots.{snapshot_name, save_epoch_snapshot}

module _ {S : Type 0} (os : Os S) (json : Json) (view : S → Bytes → Option Bytes)
    (dir snap_dir : Bytes) where
  -- The file of the snapshot and its temporary file are none of those of the blocks.
  pub record IsBeside (epoch : ℕ) : Type 0 where
    pub blocks : os.join snap_dir (snapshot_name epoch) ≢ os.join dir (str "blocks.jsonl")
    pub index : os.join snap_dir (snapshot_name epoch) ≢ os.join dir (str "index.json")
    pub tmp_blocks :
        os.join snap_dir (snapshot_name epoch) ++ str ".tmp" ≢ os.join dir (str "blocks.jsonl")
    pub tmp_index :
        os.join snap_dir (snapshot_name epoch) ++ str ".tmp" ≢ os.join dir (str "index.json")

  -- A write of a file, or a rename, touches no other file, whatever its outcome.
  pub record IsConfined : Type 0 where
    pub written :
        (p text : Bytes) (s : S) (q : Bytes) → p ≢ q → view (os.write_file p text s).1 q ≡ view s q
    pub moved :
        (p p' : Bytes) (s : S) (q : Bytes) → p ≢ q → p' ≢ q → view (os.rename p p' s).1 q ≡ view s q

  replace_file-others :
      (path text : Bytes) (s : S) (q : Bytes)
      → IsConfined
      → path ++ str ".tmp" ≢ q
      → path ≢ q
      → view (replace_file os path text s).1 q ≡ view s q
  unfolding replace_file
  replace_file-others path text s q confined far near =
      let tmp = path ++ str ".tmp" in
      let filled = os.write_file tmp text s in
      let first = confined.written tmp text s q far in
      elim (Result-cases filled.0) [
        | inr (e, failed) ↦ ground arith
        | inl (u, good) ↦ let second = confined.moved tmp path filled.1 q far near in ground arith
      ]

  -- The call that saves a snapshot leaves the files of the blocks alone, whatever its outcome.
  pub save_epoch_snapshot-IsElsewhere :
      (epoch : ℕ) (root : Bytes) (stakes : Dict Bytes ℕ) (s : S)
      → IsConfined
      → IsBeside epoch
      → IsElsewhere os json view dir s (save_epoch_snapshot os json snap_dir epoch root stakes s).1
  unfolding save_epoch_snapshot
  save_epoch_snapshot-IsElsewhere epoch root stakes s confined beside =
      let sf : SnapshotFile = record { epoch = epoch; state_root = root; validator_set = stakes } in
      let path = os.join snap_dir (snapshot_name epoch) in
      elim (Result-cases (json.marshal_snapshot sf)) [
        | inr (e, failed) ↦
            rw (save_epoch_snapshot, failed) (record { blocks_file = refl; index_file = refl })
        | inl (text, marshalled) ↦
            rw (save_epoch_snapshot, marshalled)
              (record {
                blocks_file =
                    replace_file-others path text s (os.join dir (str "blocks.jsonl")) confined
                      beside.tmp_blocks beside.blocks;
                index_file =
                    replace_file-others path text s (os.join dir (str "index.json")) confined
                      beside.tmp_index beside.index;
              })
      ]
