-- ===== src/Chain/Epoch/Frozen.antt =====
-- The snapshots of core/blockchain.go before and after a call that reads one.
use xenium.Prelude.{ℕ, ◌≡◌, some, arith, ==_iff, nat_eq, Option-cases, inl, inr}
use xenium.Prelude.Bytes.{Bytes, bytes_key}
use xenium.Dict.{lookup, contains, lookup-insert, lookup-insert_self}
use xenium.Crypto.{Crypto}
use xenium.Chain.{Blockchain, Epochs, EpochSnapshot}
use xenium.Chain.Epoch.{
  epoch_for_slot, new_snapshot, ensure_snapshot, snapshot_for_slot, snapshot_stake,
}

-- Every snapshot that is there stays what it is.
pub record Extends (e e' : Epochs) : Type 0 where
  pub at :
      (epoch : ℕ) (s : EpochSnapshot)
      → lookup epoch e.snapshots ≡ some s
      → lookup epoch e'.snapshots ≡ some s

pub Extends-refl : (e : Epochs) → Extends e e
Extends-refl e = record { at = λ epoch s found. found }

pub Extends-trans : {e e' e'' : Epochs} → Extends e e' → Extends e' e'' → Extends e e''
Extends-trans x y = record { at = λ epoch s found. y.at epoch s (x.at epoch s found) }

module _ (c : Crypto) (bc : Blockchain) where
  pub ensure_snapshot-Extends : (epoch : ℕ) (e : Epochs) → Extends e (ensure_snapshot c bc epoch e)
  unfolding ensure_snapshot contains
  ensure_snapshot-Extends epoch e = record {
    at = λ j s found.
        ground (arith, lookup-insert epoch j (new_snapshot bc epoch) e.snapshots, ==_iff epoch j);
  }

  -- A snapshot that is asked for is always there: the code's tests for a missing one never hold.
  pub snapshot_for_slot-some :
      (slot : ℕ) (e : Epochs) → (s : EpochSnapshot) × ((snapshot_for_slot c bc slot e).0 ≡ some s)
  unfolding snapshot_for_slot ensure_snapshot contains
  snapshot_for_slot-some slot e =
      let epoch = epoch_for_slot bc.config slot in
      elim (Option-cases (lookup epoch e.snapshots)) [
        | inl missing ↦ (
          new_snapshot bc epoch,
          ground (arith, lookup-insert_self epoch (new_snapshot bc epoch) e.snapshots),
        )
        | inr (s, found) ↦ (s, ground arith)
      ]

  pub snapshot_stake-Extends :
      (slot : ℕ) (validator : Bytes) (e : Epochs)
      → Extends e (snapshot_stake c bc slot validator e).1
  unfolding snapshot_stake snapshot_for_slot
  snapshot_stake-Extends slot validator e =
      ensure_snapshot-Extends (epoch_for_slot bc.config slot) e
