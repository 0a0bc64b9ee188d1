-- ===== src/Chain/Recovery.antt =====
-- core/recovery.go: the engine takes its blocks from a store after a restart.
pub mod Restored
pub mod Agreeing
use xenium.Prelude.{ℕ, zero, suc, Option, none, some, List, [], ◌∷◌, nat_eq, if◌then◌else◌}
use xenium.Prelude.Bytes.{Bytes, bytes_key}
use xenium.Prelude.Int.{add_word}
use xenium.Dict.{Dict, insert, values}
use xenium.Domain.{Block, Checked, ok, err, block_store_required}
use xenium.Crypto.{Crypto}
use xenium.Ports.{BlockStore, SnapshotStore, LatestSnapshot}
use xenium.Chain.{Blockchain, EpochSnapshot}
use xenium.Chain.Rebuild.{rebuild_canonical_chain, update_finality}
use xenium.Chain.Slots.{insert_block}

-- `for _, stake := range validatorSet { snap.TotalStake += stake }`
unfoldable pub sum_stakes : ℕ → List ℕ → ℕ
sum_stakes total [] = total
sum_stakes total (stake ∷ stakes) = sum_stakes (add_word total stake) stakes

unfoldable pub restore_snapshot : LatestSnapshot → Blockchain → Blockchain
restore_snapshot latest bc =
    let snap : EpochSnapshot = record {
      epoch = latest.epoch;
      total_stake = sum_stakes 0 (values latest.validator_set);
      validators = latest.validator_set;
    } in
    record bc {
      epochs = record bc.epochs {
        snapshots = insert latest.epoch snap bc.epochs.snapshots;
        current_epoch = latest.epoch;
      };
    }

unfoldable pub insert_blocks : List Block → Blockchain → Blockchain
insert_blocks [] bc = bc
insert_blocks (b ∷ bs) bc = insert_blocks bs (insert_block b bc)

module _ (c : Crypto) where
  -- The blocks of the engine are replaced by those of the store.
  unfoldable pub restore_blocks : List Block → Block → Blockchain → Option Blockchain
  restore_blocks blocks tip bc =
      elim (rebuild_canonical_chain c
        (record (insert_blocks blocks (record bc { blocks = []; parents = [] })) {
          canonical_tip = tip.hash;
        })) [ none ↦ none | some built ↦ some (update_finality built) ]

  module _ {S : Type 0} (store : BlockStore S) {T : Type 0} (snapshots : SnapshotStore T) where
    -- The part behind the snapshot.
    unfoldable pub restore_range :
        Block → S → Blockchain → Option (Checked × (Blockchain × Option S))
    restore_range tip s bc = elim (store.get_range 0 tip.index s) [
      | none ↦ none
      | some (err e) ↦ some (err e, (bc, some s))
      | some (ok blocks) ↦ elim (restore_blocks blocks tip bc) [
        | none ↦ none
        | some restored ↦ some (ok tt, (restored, some s))
      ]
    ]

    -- In a fresh store the genesis block is saved, and an error of that is ignored.
    unfoldable pub save_genesis : S → Blockchain → S
    save_genesis s bc = elim bc.chain [ [] ↦ s | genesis ∷ _ ↦ (store.save_block genesis s).1 ]

    -- `none` is a call that never returns.
    unfoldable pub restore_from_storage :
        Option S → Option T → Blockchain → Option (Checked × (Blockchain × Option S))
    restore_from_storage none kept bc = some (err block_store_required, (bc, none))
    restore_from_storage (some s) kept bc = elim (store.get_tip s) [
      | none ↦ some (ok tt, (bc, some (save_genesis s bc)))
      | some tip ↦ elim kept [
        | none ↦ restore_range tip s bc
        | some t ↦ elim (snapshots.load_latest_snapshot t) [
          | err e ↦ some (err e, (bc, some s))
          | ok none ↦ restore_range tip s bc
          | ok (some latest) ↦ restore_range tip s (restore_snapshot latest bc)
        ]
      ]
    ]
