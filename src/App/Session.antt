-- ===== src/App/Session.antt =====
-- A session of a node of app/node.go on its disk: the snapshots that its engine saves between the blocks.
use xenium.Prelude.{refl, ◌∙◌, Option, List, [], ◌∷◌, All}
use xenium.Prelude.Bytes.{Bytes}
use xenium.Domain.{Block}
use xenium.Chain.{SavedSnapshot}
use xenium.Storage.{Os, Json, FileBlockStore}
use xenium.Storage.Restart.{IsElsewhere, Saves, meanwhile}
use xenium.Storage.Snapshots.Beside.{IsBeside, IsConfined, save_epoch_snapshot-IsElsewhere}
use xenium.Storage.Snapshots.{save_epoch_snapshot}
use xenium.App.{write_snapshots}

module _ {S : Type 0} (os : Os S) (json : Json) (view : S → Bytes → Option Bytes)
    (dir snap_dir : Bytes) (confined : IsConfined os json view dir snap_dir) where
  -- The snapshots leave the files of the blocks alone, whatever the outcomes of the calls.
  write_snapshots-IsElsewhere :
      (calls : List SavedSnapshot) (s : S)
      → All (λ call. IsBeside os json view dir snap_dir call.epoch) calls
      → IsElsewhere os json view dir s (write_snapshots os json snap_dir calls s)
  unfolding write_snapshots
  write_snapshots-IsElsewhere [] s beside = record { blocks_file = refl; index_file = refl }
  write_snapshots-IsElsewhere (call ∷ calls) s beside =
      let s' =
        (save_epoch_snapshot os json snap_dir call.epoch call.state_root call.validator_set s).1 in
      let first =
        save_epoch_snapshot-IsElsewhere os json view dir snap_dir call.epoch call.state_root
          call.validator_set s confined beside.0 in
      let rest = write_snapshots-IsElsewhere calls s' beside.1 in
      record {
        blocks_file = rest.blocks_file ∙ first.blocks_file;
        index_file = rest.index_file ∙ first.index_file;
      }

  -- So a session may write them before any of its blocks.
  pub Saves-write_snapshots :
      {store last : FileBlockStore} {t : S} {bs : List Block} (calls : List SavedSnapshot) (s : S)
      → All (λ call. IsBeside os json view dir snap_dir call.epoch) calls
      → Saves os json view dir store (write_snapshots os json snap_dir calls s) bs last t
      → Saves os json view dir store s bs last t
  Saves-write_snapshots calls s beside more =
      meanwhile (write_snapshots-IsElsewhere calls s beside) more
