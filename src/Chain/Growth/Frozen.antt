-- ===== src/Chain/Growth/Frozen.antt =====
-- The epoch snapshots of core/blockchain.go over the calls that add a block, and over whole runs.
use xenium.Prelude.{ℕ, ◌≡◌, sym, ◌∙◌, some, arith, nat_eq}
use xenium.Prelude.Bytes.{bytes_key}
use xenium.Dict.{lookup, contains}
use xenium.Crypto.{Crypto}
use xenium.Ports.{BlockStore}
use xenium.Leader.{leader_from_snapshot}
use xenium.Chain.{Blockchain, EpochSnapshot}
use xenium.Chain.Epoch.{leader_for_slot, snapshot_for_slot, ensure_snapshot, epoch_for_slot}
use xenium.Chain.Growth.Freezing.{Freezes, Freezes-trans, Freezes-refl}
use xenium.Chain.Growth.Reach.{
  System, Step, Reach, here, next, block_added, block_added_external, balance_set,
  validator_registered, tx_added, reorg_stats_reset, storage_set, asked,
}
use xenium.Chain.Growth.Asides.{IsAside-Freezes, set_storage-IsAside}
use xenium.Chain.Growth.Asked.{Asks-IsAside}
use xenium.Chain.Growth.FrozenCalls.{
  add_block-Freezes, add_block_external-Freezes, set_balance-Freezes, register_validator-Freezes,
  add_tx-Freezes, reset_reorg_stats-Freezes,
}

-- A snapshot that is there is the one that is read.
pub snapshot_for_slot-there :
    (c : Crypto) (bc : Blockchain) (slot : ℕ) (s : EpochSnapshot)
    → lookup (epoch_for_slot bc.config slot) bc.epochs.snapshots ≡ some s
    → (snapshot_for_slot c bc slot bc.epochs).0 ≡ some s
unfolding snapshot_for_slot ensure_snapshot contains
snapshot_for_slot-there c bc slot s found = ground arith

pub leader_for_slot-there :
    (c : Crypto) (bc : Blockchain) (slot : ℕ) (s : EpochSnapshot)
    → lookup (epoch_for_slot bc.config slot) bc.epochs.snapshots ≡ some s
    → (leader_for_slot c bc slot bc.epochs).0 ≡ leader_from_snapshot c slot s.validators
unfolding leader_for_slot
leader_for_slot-there c bc slot s found =
    let read = snapshot_for_slot-there c bc slot s found in ground arith

module _ (c : Crypto) {S : Type 0} (store : BlockStore S) where
  Step-Freezes : {s t : System S} → Step c store s t → Freezes s.engine t.engine
  Step-Freezes (block_added s random txs r h time fresh) =
      add_block-Freezes c store random txs s.engine s.stored h
  Step-Freezes (block_added_external s random prev_hash txs r h time fresh) =
      add_block_external-Freezes c store random prev_hash txs s.engine s.stored h
  Step-Freezes (balance_set s address amount) = set_balance-Freezes address amount s.engine
  Step-Freezes (validator_registered s name stake pub_key priv) =
      register_validator-Freezes name stake pub_key priv s.engine
  Step-Freezes (tx_added s tx) = add_tx-Freezes c tx s.engine
  Step-Freezes (reorg_stats_reset s) = reset_reorg_stats-Freezes s.engine
  Step-Freezes (storage_set s stored saved) = IsAside-Freezes (set_storage-IsAside saved s.engine)
  Step-Freezes (asked s bc asks) = IsAside-Freezes (Asks-IsAside c s.engine asks)

  Reach-Freezes : {s t : System S} → Reach c store s t → Freezes s.engine t.engine
  Reach-Freezes {s} here = Freezes-refl s.engine
  Reach-Freezes (next run step) = Freezes-trans (Reach-Freezes run) (Step-Freezes step)

  -- Once the snapshot of an epoch is made, no run changes it, whatever becomes of the stakes: it is the one that every
  -- slot of its epoch is read by, and the leader of each of these slots stays the one that it draws. A run may make any
  -- calls but RestoreFromStorage, which may put a stored snapshot in its place.
  pub leader_is_settled :
      {s t : System S}
      → Reach c store s t
      → (slot : ℕ) (snap : EpochSnapshot)
      → lookup (epoch_for_slot s.engine.config slot) s.engine.epochs.snapshots ≡ some snap
      → ((snapshot_for_slot c t.engine slot t.engine.epochs).0 ≡ some snap)
        × ((leader_for_slot c t.engine slot t.engine.epochs).0
            ≡ (leader_for_slot c s.engine slot s.engine.epochs).0)
  leader_is_settled {s} {t} run slot snap found =
      let k = Reach-Freezes run in
      let there : lookup (epoch_for_slot t.engine.config slot) t.engine.epochs.snapshots
          ≡ some snap =
        rw k.config (k.epochs.at (epoch_for_slot s.engine.config slot) snap found) in
      (
        snapshot_for_slot-there c t.engine slot snap there,
        leader_for_slot-there c t.engine slot snap there
            ∙ sym (leader_for_slot-there c s.engine slot snap found),
      )
