-- ===== src/Chain/Growth/Freezing.antt =====
-- The epoch snapshots of core/blockchain.go under the parts of the calls that add a block.
use xenium.Prelude.{
  ℕ, zero, suc, ◌+◌, ◌-◌, ◌≡◌, refl, ◌∙◌, inl, inr, Bool, some, List, [], ◌∷◌, arith, ◌==◌, ==_iff,
  Bool-cases, leb, nat_beq, nat_eq, get_or,
}
use xenium.Prelude.Bytes.{Bytes, bytes_key}
use xenium.Prelude.Int.{word}
use xenium.Dict.{lookup}
use xenium.Domain.{Block, Transaction, State}
use xenium.Crypto.{Crypto}
use xenium.Leader.{genesis_name}
use xenium.Poh.{Poh, tick, slot, ticks_per_slot}
use xenium.Chain.{Blockchain}
use xenium.Chain.Epoch.{
  leader_for_slot, snapshot_for_slot, ensure_snapshot, ensure_snapshot_for_slot, epoch_for_slot,
}
use xenium.Chain.Epoch.Frozen.{Extends, Extends-refl, Extends-trans, ensure_snapshot-Extends}
use xenium.Chain.Rebuild.{
  rebuild_canonical_chain, rebuild_slot_map, rebuild_state_from_canonical, update_finality,
}
use xenium.Chain.Canonical.{first_tip, update_canonical}
use xenium.Chain.Canonical.Snapshots.{snapshots_stay}
use xenium.Chain.Slots.{
  miss, process_slot, process_slots, process_missed_slots, insert_block, register_slot_producer,
  handle_equivocation, note_producer,
}
use xenium.Chain.Accept.{verify_block_on_accept}
use xenium.Chain.Blocks.{slash_leader, next_turn, choose_txs, select_txs_for_block}
use xenium.Chain.Growth.Canonical.{update_canonical-IsSteady}

-- The configuration is the same, and every snapshot that was there is there.
pub record Freezes (bc bc' : Blockchain) : Type 0 where
  pub epochs : Extends bc.epochs bc'.epochs
  pub config : bc'.config ≡ bc.config

pub Freezes-trans : {a b d : Blockchain} → Freezes a b → Freezes b d → Freezes a d
Freezes-trans x y = record {
  epochs = Extends-trans x.epochs y.epochs;
  config = y.config ∙ x.config;
}

-- A call that leaves the snapshots alone.
pub Freezes-same :
    (bc bc' : Blockchain) → bc'.epochs ≡ bc.epochs → bc'.config ≡ bc.config → Freezes bc bc'
Freezes-same bc bc' epochs config = record {
  epochs = rw epochs (Extends-refl bc.epochs);
  config = config;
}

pub Freezes-refl : (bc : Blockchain) → Freezes bc bc
Freezes-refl bc = Freezes-same bc bc refl refl

pub slash_leader-Freezes : (leader : Bytes) (bc : Blockchain) → Freezes bc (slash_leader leader bc)
unfolding slash_leader
slash_leader-Freezes leader bc = Freezes-same bc (slash_leader leader bc) refl refl

pub choose_txs-Freezes :
    (txs : List Transaction) (producer : Bytes) (bc : Blockchain)
    → Freezes bc (choose_txs txs producer bc).1
unfolding choose_txs select_txs_for_block
choose_txs-Freezes [] producer bc =
    Freezes-same bc (choose_txs [] producer bc).1 (ground arith) (ground arith)
choose_txs-Freezes (tx ∷ txs) producer bc = Freezes-refl bc

pub register_slot_producer-Freezes :
    (b : Block) (bc : Blockchain) → Freezes bc (register_slot_producer b bc).1
unfolding register_slot_producer handle_equivocation note_producer
register_slot_producer-Freezes b bc =
    Freezes-same bc (register_slot_producer b bc).1 (ground arith) (ground arith)

pub insert_block-Freezes : (b : Block) (bc : Blockchain) → Freezes bc (insert_block b bc)
unfolding insert_block
insert_block-Freezes b bc = Freezes-same bc (insert_block b bc) refl refl

miss-Freezes : (at : ℕ) (leader : Bytes) (bc : Blockchain) → Freezes bc (miss at leader bc)
unfolding miss
miss-Freezes at leader bc = Freezes-same bc (miss at leader bc) (ground arith) (ground arith)

module _ (c : Crypto) where
  leader_for_slot-Freezes :
      (at : ℕ) (bc : Blockchain)
      → Freezes bc (record bc { epochs = (leader_for_slot c bc at bc.epochs).1 })
  unfolding leader_for_slot snapshot_for_slot
  leader_for_slot-Freezes at bc = record {
    epochs = ensure_snapshot-Extends c bc (epoch_for_slot bc.config at) bc.epochs;
    config = refl;
  }

  process_slot-Freezes : (at : ℕ) (bc : Blockchain) → Freezes bc (process_slot c at bc)
  unfolding process_slot
  process_slot-Freezes at bc =
      let (leader, e) = leader_for_slot c bc at bc.epochs in
      let asked = record bc { epochs = e } in
      let same : Freezes bc asked = leader_for_slot-Freezes at bc in
      elim (Bool-cases (leader == genesis_name)) [
        | inl nobody ↦ rw (process_slot, nobody) same
        | inr somebody ↦ elim (Bool-cases (get_or (lookup at bc.slot_produced) [] == leader)) [
          | inl produced ↦ rw (process_slot, somebody, produced) same
          | inr missed ↦
              rw (process_slot, somebody, missed)
                (Freezes-trans same (miss-Freezes at leader asked))
        ]
      ]

  process_slots-Freezes : (n at : ℕ) (bc : Blockchain) → Freezes bc (process_slots c n at bc)
  unfolding process_slots
  process_slots-Freezes zero at bc = Freezes-refl bc
  process_slots-Freezes (suc n) at bc =
      Freezes-trans (process_slot-Freezes at bc)
        (process_slots-Freezes n (at + 1) (process_slot c at bc))

  pub process_missed_slots-Freezes :
      (target : ℕ) (bc : Blockchain) {bc' : Blockchain}
      → process_missed_slots c target bc ≡ some bc'
      → Freezes bc bc'
  unfolding process_missed_slots
  process_missed_slots-Freezes target bc {bc'} h =
      elim (Bool-cases (leb target bc.last_processed_slot)) [
        | inl past ↦ let same : bc' ≡ bc = ground arith in rw same (Freezes-refl bc)
        | inr ahead ↦ elim (Bool-cases (nat_beq target (word - 1))) [
          | inl endless ↦ absurd (ground arith)
          | inr finite ↦
              let done =
                process_slots c (target - bc.last_processed_slot) (bc.last_processed_slot + 1) bc in
              let last : bc' ≡ record done { last_processed_slot = target } = ground arith in
              rw last (
                Freezes-trans
                  (process_slots-Freezes (target - bc.last_processed_slot)
                    (bc.last_processed_slot + 1) bc)
                  (Freezes-same done (record done { last_processed_slot = target }) refl refl))
        ]
      ]

  first_tip-config :
      (tip : Bytes) (bc : Blockchain) {accepted : Bool} {bc' : Blockchain}
      → first_tip c tip bc ≡ some (accepted, bc')
      → bc'.config ≡ bc.config
  unfolding first_tip rebuild_canonical_chain rebuild_slot_map rebuild_state_from_canonical
      update_finality
  first_tip-config tip bc h = ground arith

  pub update_canonical-Freezes :
      (tip : Bytes) (bc : Blockchain) {accepted : Bool} {bc' : Blockchain}
      → update_canonical c tip bc ≡ some (accepted, bc')
      → Freezes bc bc'
  unfolding update_canonical
  update_canonical-Freezes tip bc {accepted} {bc'} h = record {
    epochs = snapshots_stay c tip bc h;
    config = elim (Bool-cases (bc.canonical_tip == [])) [
      | inl first ↦ first_tip-config tip bc {accepted = accepted} {bc' = bc'} (ground arith)
      | inr started ↦
          (update_canonical-IsSteady c tip bc (λ e. grind (arith, ==_iff bc.canonical_tip []))
            h).config
    ];
  }

  pub next_turn-Freezes : (clock : Poh) (bc : Blockchain) → Freezes bc (next_turn c clock bc).engine
  unfolding next_turn ensure_snapshot_for_slot leader_for_slot snapshot_for_slot
  next_turn-Freezes clock bc =
      let epoch = epoch_for_slot bc.config (slot (tick c ticks_per_slot clock)) in
      record {
        epochs =
            Extends-trans (ensure_snapshot-Extends c bc epoch bc.epochs)
              (ensure_snapshot-Extends c bc epoch (ensure_snapshot c bc epoch bc.epochs));
        config = refl;
      }

  pub verify_block_on_accept-Freezes :
      (prev b : Block) (state : State) (bc : Blockchain)
      → Freezes bc (record bc { epochs = (verify_block_on_accept c prev b state bc).1 })
  unfolding verify_block_on_accept snapshot_for_slot
  verify_block_on_accept-Freezes prev b state bc = elim (Bool-cases (b.prev_hash == prev.hash)) [
    | inl linked ↦
        rw (verify_block_on_accept, linked)
          (record {
            epochs = ensure_snapshot-Extends c bc (epoch_for_slot bc.config b.slot) bc.epochs;
            config = refl;
          })
    | inr apart ↦ rw (verify_block_on_accept, apart) (Freezes-refl bc)
  ]
