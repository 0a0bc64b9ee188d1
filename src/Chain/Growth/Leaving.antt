-- ===== src/Chain/Growth/Leaving.antt =====
-- What the parts of the calls that add a block leave alone: the producers of slots, the proofs of equivocations, and the
-- clock (core/blockchain.go).
use xenium.Prelude.{
  ℕ, zero, suc, ◌+◌, ◌-◌, ◌≡◌, refl, ◌∙◌, inl, inr, Bool, some, List, [], ◌∷◌, arith, ◌==◌,
  Bool-cases, Option-cases, nat_eq,
}
use xenium.Prelude.Bytes.{Bytes, bytes_key}
use xenium.Domain.{Block, Transaction, Result-cases}
use xenium.Crypto.{Crypto}
use xenium.Chain.{Blockchain, ChainScore}
use xenium.Chain.Walk.{chain_from_tip}
use xenium.Chain.Epoch.{leader_for_slot}
use xenium.Chain.Score.{score_tip, better_score, weight_delta_satisfied}
use xenium.Chain.Rebuild.{
  rebuild_canonical_chain, rebuild_slot_map, rebuild_state_from_canonical, update_finality,
}
use xenium.Chain.Canonical.{
  adopt, count_reorg, count_critical, count_error, guard_reorg, choose, first_tip, update_canonical,
  compute_reorg_depth_and_slot,
}
use xenium.Chain.Slots.{miss, process_slot, process_slots, process_missed_slots, insert_block}
use xenium.Chain.Blocks.{slash_leader, choose_txs, select_txs_for_block}

-- The producers, the proofs of equivocations and the clock are the same.
pub record Leaves (bc bc' : Blockchain) : Type 0 where
  pub producers : bc'.slot_producers ≡ bc.slot_producers
  pub proofs : bc'.equivocations ≡ bc.equivocations
  pub clock : bc'.poh ≡ bc.poh

pub Leaves-trans : {a b d : Blockchain} → Leaves a b → Leaves b d → Leaves a d
Leaves-trans x y = record {
  producers = y.producers ∙ x.producers;
  proofs = y.proofs ∙ x.proofs;
  clock = y.clock ∙ x.clock;
}

Leaves-refl : (bc : Blockchain) → Leaves bc bc
Leaves-refl bc = record { producers = refl; proofs = refl; clock = refl }

pub slash_leader-Leaves : (leader : Bytes) (bc : Blockchain) → Leaves bc (slash_leader leader bc)
unfolding slash_leader
slash_leader-Leaves leader bc = record { producers = refl; proofs = refl; clock = refl }

pub choose_txs-Leaves :
    (txs : List Transaction) (producer : Bytes) (bc : Blockchain)
    → Leaves bc (choose_txs txs producer bc).1
unfolding choose_txs select_txs_for_block
choose_txs-Leaves [] producer bc = ground arith
choose_txs-Leaves (tx ∷ txs) producer bc = Leaves-refl bc

pub insert_block-Leaves : (b : Block) (bc : Blockchain) → Leaves bc (insert_block b bc)
unfolding insert_block
insert_block-Leaves b bc = record { producers = refl; proofs = refl; clock = refl }

miss-Leaves : (at : ℕ) (leader : Bytes) (bc : Blockchain) → Leaves bc (miss at leader bc)
unfolding miss
miss-Leaves at leader bc = ground arith

module _ (c : Crypto) where
  process_slot-Leaves : (at : ℕ) (bc : Blockchain) → Leaves bc (process_slot c at bc)
  unfolding process_slot
  process_slot-Leaves at bc =
      let (leader, e) = leader_for_slot c bc at bc.epochs in
      ground (arith, miss-Leaves at leader (record bc { epochs = e }))

  process_slots-Leaves : (n at : ℕ) (bc : Blockchain) → Leaves bc (process_slots c n at bc)
  unfolding process_slots
  process_slots-Leaves zero at bc = Leaves-refl bc
  process_slots-Leaves (suc n) at bc =
      Leaves-trans (process_slot-Leaves at bc)
        (process_slots-Leaves n (at + 1) (process_slot c at bc))

  pub process_missed_slots-Leaves :
      (target : ℕ) (bc : Blockchain) {bc' : Blockchain}
      → process_missed_slots c target bc ≡ some bc'
      → Leaves bc bc'
  unfolding process_missed_slots
  process_missed_slots-Leaves target bc {bc'} h = ground (
    arith,
    process_slots-Leaves (target - bc.last_processed_slot) (bc.last_processed_slot + 1) bc,
  )

  adopt-Leaves :
      (tip : Bytes) (new_chain : List Block) (depth : ℕ) (bc : Blockchain)
      → Leaves bc (adopt c tip new_chain depth bc)
  unfolding adopt count_reorg rebuild_slot_map rebuild_state_from_canonical update_finality
  adopt-Leaves tip new_chain depth bc = ground arith

  guard_reorg-Leaves :
      (tip : Bytes) (new_chain : List Block) (old new : ChainScore) (bc : Blockchain)
      → Leaves bc (guard_reorg c tip new_chain old new bc).1
  unfolding guard_reorg count_critical count_error
  guard_reorg-Leaves tip new_chain old new bc =
      let asked = record bc {
        epochs =
            (weight_delta_satisfied c bc old.cumulative_weight new.cumulative_weight bc.epochs).1;
      } in
      ground (
        arith,
        adopt-Leaves tip new_chain (compute_reorg_depth_and_slot bc.chain new_chain).0 asked,
      )

  choose-Leaves :
      (tip : Bytes) (old new : ChainScore) (bc : Blockchain) {accepted : Bool} {bc' : Blockchain}
      → choose c tip old new bc ≡ some (accepted, bc')
      → Leaves bc bc'
  unfolding choose
  choose-Leaves tip old new bc {accepted} {bc'} h = elim (Bool-cases (better_score new old)) [
    | inr worse ↦ ground arith
    | inl better ↦ elim (Option-cases (chain_from_tip bc.blocks tip)) [
      | inl endless ↦ absurd (ground arith)
      | inr (walk, walked) ↦ elim (Result-cases walk) [
        | inr (failed, no_chain) ↦ ground arith
        | inl (new_chain, chained) ↦
            let same : bc' ≡ (guard_reorg c tip new_chain old new bc).1 = ground arith in
            rw same (guard_reorg-Leaves tip new_chain old new bc)
      ]
    ]
  ]

  first_tip-Leaves :
      (tip : Bytes) (bc : Blockchain) {accepted : Bool} {bc' : Blockchain}
      → first_tip c tip bc ≡ some (accepted, bc')
      → Leaves bc bc'
  unfolding first_tip rebuild_canonical_chain rebuild_slot_map rebuild_state_from_canonical
      update_finality
  first_tip-Leaves tip bc h = ground arith

  pub update_canonical-Leaves :
      (tip : Bytes) (bc : Blockchain) {accepted : Bool} {bc' : Blockchain}
      → update_canonical c tip bc ≡ some (accepted, bc')
      → Leaves bc bc'
  unfolding update_canonical
  update_canonical-Leaves tip bc {accepted} {bc'} h = elim (Bool-cases (bc.canonical_tip == [])) [
    | inl first ↦ first_tip-Leaves tip bc {accepted = accepted} {bc' = bc'} (ground arith)
    | inr started ↦ elim (Option-cases (score_tip c bc bc.canonical_tip bc.epochs)) [
      | inl endless ↦ absurd (ground arith)
      | inr ((old, e), scored) ↦ elim (Option-cases (score_tip c bc tip e)) [
        | inl endless ↦ absurd (ground arith)
        | inr ((new, e'), scored_new) ↦
            let k : Leaves (record bc { epochs = e' }) bc' =
              choose-Leaves tip old new (record bc { epochs = e' }) {accepted = accepted}
                {bc' = bc'} (ground arith) in
            record { producers = k.producers; proofs = k.proofs; clock = k.clock }
      ]
    ]
  ]
