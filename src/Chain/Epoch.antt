-- ===== src/Chain/Epoch.antt =====
-- The epoch snapshots of core/blockchain.go. A snapshot is made when a slot of its epoch is first
-- asked for, from the validators of that moment.
pub mod Frozen
use xenium.Prelude.{
  ℕ, ◌+◌, ◌*◌, ◌/◌, ◌%◌, Option, none, some, List, [], ◌∷◌, ◌++◌, nat_beq, if◌then◌else◌, nat_eq,
  get_or,
}
use xenium.Prelude.Bytes.{Bytes, bytes_key, str}
use xenium.Prelude.Int.{word, add_word, to_uint64}
use xenium.Dict.{lookup, insert, contains, values}
use xenium.Domain.{Validator, Validators, Stats}
use xenium.Crypto.{Crypto}
use xenium.Signing.{state_root}
use xenium.Leader.{Stakes, is_active, stake_of, leader_from_snapshot}
use xenium.Chain.{Blockchain, ChainConfig, Epochs, EpochSnapshot, SavedSnapshot}

unfoldable pub epoch_for_slot : ChainConfig → ℕ → ℕ
epoch_for_slot config slot = if nat_beq config.epoch_length 0 then 0 else slot / config.epoch_length

-- The body of the loop over the validators.
unfoldable pub include : Stats → ℕ → EpochSnapshot → Validator → EpochSnapshot
include stats epoch_slot snap v =
    if is_active (some stats) epoch_slot v
    then record snap {
      validators = insert v.name (to_uint64 v.stake) snap.validators;
      total_stake = add_word snap.total_stake (to_uint64 v.stake);
    }
    else snap

unfoldable pub include_all : Stats → ℕ → EpochSnapshot → List Validator → EpochSnapshot
include_all stats epoch_slot snap [] = snap
include_all stats epoch_slot snap (v ∷ vs) =
    include_all stats epoch_slot (include stats epoch_slot snap v) vs

unfoldable pub new_snapshot : Blockchain → ℕ → EpochSnapshot
new_snapshot bc epoch =
    include_all bc.stats (epoch * bc.config.epoch_length % word)
      (record { epoch = epoch; total_stake = 0; validators = [] }) (values bc.validators)

module _ (c : Crypto) where
  -- The call of the snapshot store, if there is one.
  unfoldable pub save_snapshot :
      Blockchain → EpochSnapshot → Option (List SavedSnapshot) → Option (List SavedSnapshot)
  save_snapshot bc snap none = none
  save_snapshot bc snap (some calls) = some (
      calls
      ++ record {
        epoch = snap.epoch;
        state_root = state_root c bc.state;
        validator_set = snap.validators;
      }
        ∷ [])

  unfoldable pub ensure_snapshot : Blockchain → ℕ → Epochs → Epochs
  ensure_snapshot bc epoch e =
      if contains epoch e.snapshots
      then e
      else let snap = new_snapshot bc epoch in
        record {
          snapshots = insert epoch snap e.snapshots;
          current_epoch = epoch;
          saved = save_snapshot bc snap e.saved;
        }

  unfoldable pub ensure_snapshot_for_slot : Blockchain → ℕ → Epochs → Epochs
  ensure_snapshot_for_slot bc slot e = ensure_snapshot bc (epoch_for_slot bc.config slot) e

  -- After the call that ensures it, the snapshot is there.
  unfoldable pub snapshot_for_slot : Blockchain → ℕ → Epochs → Option EpochSnapshot × Epochs
  snapshot_for_slot bc slot e =
      let epoch = epoch_for_slot bc.config slot in
      let e' = ensure_snapshot bc epoch e in (lookup epoch e'.snapshots, e')

  unfoldable pub snapshot_stake : Blockchain → ℕ → Bytes → Epochs → ℕ × Epochs
  snapshot_stake bc slot validator e =
      let (snap, e') = snapshot_for_slot bc slot e in
      (elim snap [ none ↦ 0 | some s ↦ stake_of s.validators validator ], e')

  unfoldable pub leader_for_slot : Blockchain → ℕ → Epochs → Bytes × Epochs
  leader_for_slot bc slot e =
      let (snap, e') = snapshot_for_slot bc slot e in
      (elim snap [ none ↦ str "genesis" | some s ↦ leader_from_snapshot c slot s.validators ], e')
