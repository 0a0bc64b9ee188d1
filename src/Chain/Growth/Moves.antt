-- ===== src/Chain/Growth/Moves.antt =====
-- The parts of AddBlock of core/blockchain.go that add no block and choose no chain.
use xenium.Prelude.{
  ℕ, zero, suc, ◌+◌, ◌-◌, ◌≤◌, ◌≡◌, refl, ◌∙◌, inl, inr, none, some, List, [], ◌∷◌, arith, ◌==◌,
  Bool-cases, leb, nat_beq, get_or, nat_eq,
}
use xenium.Prelude.Bytes.{Bytes, bytes_key}
use xenium.Prelude.Int.{word}
use xenium.Dict.{lookup}
use xenium.Domain.{Block, Transaction}
use xenium.Crypto.{Crypto}
use xenium.Leader.{genesis_name}
use xenium.Poh.{slot}
use xenium.Chain.{Blockchain}
use xenium.Chain.Epoch.{leader_for_slot}
use xenium.Chain.Slots.{
  miss, process_slot, process_slots, process_missed_slots, register_slot_producer,
  handle_equivocation, note_producer,
}
use xenium.Chain.Blocks.{slash_leader, choose_txs, select_txs_for_block}

-- The slot that the clock has reached.
abbrev pub now : Blockchain → ℕ
now bc = elim bc.poh [ none ↦ 0 | some p ↦ slot p ]

-- The blocks and the canonical chain are the same, and the clock did not go back.
pub record Moves (bc bc' : Blockchain) : Type 0 where
  pub blocks : bc'.blocks ≡ bc.blocks
  pub canonical_tip : bc'.canonical_tip ≡ bc.canonical_tip
  pub chain : bc'.chain ≡ bc.chain
  pub finalized_slot : bc'.finalized_slot ≡ bc.finalized_slot
  pub max_reorg_depth : bc'.config.max_reorg_depth ≡ bc.config.max_reorg_depth
  pub clock : now bc ≤ now bc'

pub Moves-trans : {a b d : Blockchain} → Moves a b → Moves b d → Moves a d
Moves-trans m n = record {
  blocks = n.blocks ∙ m.blocks;
  canonical_tip = n.canonical_tip ∙ m.canonical_tip;
  chain = n.chain ∙ m.chain;
  finalized_slot = n.finalized_slot ∙ m.finalized_slot;
  max_reorg_depth = n.max_reorg_depth ∙ m.max_reorg_depth;
  clock = let x = m.clock in let y = n.clock in omega arith;
}

-- A call that leaves the clock and what the chain is made of alone.
pub Moves-same :
    (bc bc' : Blockchain)
    → bc'.blocks ≡ bc.blocks
    → bc'.canonical_tip ≡ bc.canonical_tip
    → bc'.chain ≡ bc.chain
    → bc'.finalized_slot ≡ bc.finalized_slot
    → bc'.config ≡ bc.config
    → bc'.poh ≡ bc.poh
    → Moves bc bc'
Moves-same bc bc' blocks tip chain finalized config poh = record {
  blocks = blocks;
  canonical_tip = tip;
  chain = chain;
  finalized_slot = finalized;
  max_reorg_depth = rw config refl;
  clock = rw poh (omega arith);
}

pub Moves-refl : (bc : Blockchain) → Moves bc bc
Moves-refl bc = Moves-same bc bc refl refl refl refl refl refl

pub slash_leader-Moves : (leader : Bytes) (bc : Blockchain) → Moves bc (slash_leader leader bc)
unfolding slash_leader
slash_leader-Moves leader bc = Moves-same bc (slash_leader leader bc) refl refl refl refl refl refl

pub choose_txs-Moves :
    (txs : List Transaction) (producer : Bytes) (bc : Blockchain)
    → Moves bc (choose_txs txs producer bc).1
unfolding choose_txs select_txs_for_block
choose_txs-Moves [] producer bc =
    let bc' = (choose_txs [] producer bc).1 in
    Moves-same bc bc' (ground arith) (ground arith) (ground arith) (ground arith) (ground arith)
      (ground arith)
choose_txs-Moves (tx ∷ txs) producer bc = Moves-refl bc

pub register_slot_producer-Moves :
    (b : Block) (bc : Blockchain) → Moves bc (register_slot_producer b bc).1
unfolding register_slot_producer handle_equivocation note_producer
register_slot_producer-Moves b bc =
    let bc' = (register_slot_producer b bc).1 in
    Moves-same bc bc' (ground arith) (ground arith) (ground arith) (ground arith) (ground arith)
      (ground arith)

miss-Moves : (at : ℕ) (leader : Bytes) (bc : Blockchain) → Moves bc (miss at leader bc)
unfolding miss
miss-Moves at leader bc =
    let bc' = miss at leader bc in
    Moves-same bc bc' (ground arith) (ground arith) (ground arith) (ground arith) (ground arith)
      (ground arith)

module _ (c : Crypto) where
  process_slot-Moves : (at : ℕ) (bc : Blockchain) → Moves bc (process_slot c at bc)
  unfolding process_slot
  process_slot-Moves at bc =
      let (leader, e) = leader_for_slot c bc at bc.epochs in
      let asked = record bc { epochs = e } in
      let same : Moves bc asked = Moves-same bc asked refl refl refl refl refl refl in
      elim (Bool-cases (leader == genesis_name)) [
        | inl nobody ↦ rw (process_slot, nobody) same
        | inr somebody ↦ elim (Bool-cases (get_or (lookup at bc.slot_produced) [] == leader)) [
          | inl produced ↦ rw (process_slot, somebody, produced) same
          | inr missed ↦
              rw (process_slot, somebody, missed) (Moves-trans same (miss-Moves at leader asked))
        ]
      ]

  process_slots-Moves : (n at : ℕ) (bc : Blockchain) → Moves bc (process_slots c n at bc)
  unfolding process_slots
  process_slots-Moves zero at bc = Moves-refl bc
  process_slots-Moves (suc n) at bc =
      Moves-trans (process_slot-Moves at bc) (process_slots-Moves n (at + 1) (process_slot c at bc))

  pub process_missed_slots-Moves :
      (target : ℕ) (bc : Blockchain) {bc' : Blockchain}
      → process_missed_slots c target bc ≡ some bc'
      → Moves bc bc'
  unfolding process_missed_slots
  process_missed_slots-Moves target bc {bc'} h =
      elim (Bool-cases (leb target bc.last_processed_slot)) [
        | inl past ↦ let same : bc' ≡ bc = ground arith in rw same (Moves-refl bc)
        | inr ahead ↦ elim (Bool-cases (nat_beq target (word - 1))) [
          | inl endless ↦ absurd (ground arith)
          | inr finite ↦
              let done =
                process_slots c (target - bc.last_processed_slot) (bc.last_processed_slot + 1) bc in
              let last : bc' ≡ record done { last_processed_slot = target } = ground arith in
              rw last (
                Moves-trans
                  (process_slots-Moves (target - bc.last_processed_slot)
                    (bc.last_processed_slot + 1) bc)
                  (Moves-same done (record done { last_processed_slot = target }) refl refl refl
                    refl refl refl))
        ]
      ]
