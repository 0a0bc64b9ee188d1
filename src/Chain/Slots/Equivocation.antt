-- ===== src/Chain/Slots/Equivocation.antt =====
-- registerSlotProducer of core/blockchain.go, on two blocks of one validator in one slot.
use xenium.Prelude.{
  ℕ, ◌+◌, ◌/◌, ◌≤◌, ◌<◌, ◌≡◌, ◌≢◌, refl, true, some, [], ◌∷◌, ◌++◌, arith, ==_iff, nat_eq,
}
use xenium.Prelude.Bytes.{Bytes, bytes_key}
use xenium.Prelude.Int.{word}
use xenium.Dict.{lookup, lookup-insert_self}
use xenium.Domain.{Block, ok, err, equivocation_detected}
use xenium.Leader.{is_jailed, slots_per_epoch}
use xenium.Stake.{slash_percent, slash_validator_percent}
use xenium.Chain.{Blockchain}
use xenium.Chain.Slots.{
  register_slot_producer, handle_equivocation, note_producer, producers_of, jail_end,
}

noted :
    (b : Block) (bc : Blockchain)
    → lookup b.validator (producers_of b.slot (note_producer b bc)) ≡ some b.hash
unfolding producers_of note_producer
noted b bc = rw (lookup-insert_self) (lookup-insert_self b.validator b.hash _)

register_ok :
    (b : Block) (bc : Blockchain)
    → (register_slot_producer b bc).0 ≡ ok tt
    → (register_slot_producer b bc).1 ≡ note_producer b bc
unfolding register_slot_producer
register_ok b bc h = ground arith

register_other :
    (b : Block) (existing : Bytes) (bc : Blockchain)
    → lookup b.validator (producers_of b.slot bc) ≡ some existing
    → existing ≢ b.hash
    → register_slot_producer b bc
      ≡ (err equivocation_detected, handle_equivocation b.validator b.slot existing b.hash bc)
unfolding register_slot_producer
register_other b existing bc found other = ground (arith, ==_iff existing b.hash)

jailed :
    (name : Bytes) (slot later : ℕ) (h1 h2 : Bytes) (bc : Blockchain)
    → slot < word
    → later / slots_per_epoch ≤ slot / slots_per_epoch + 1
    → is_jailed (some (handle_equivocation name slot h1 h2 bc).stats) name later ≡ true
unfolding is_jailed handle_equivocation jail_end
jailed name slot later h1 h2 bc small soon =
    rw (is_jailed, handle_equivocation, lookup-insert_self) (ground arith)

-- Where a validator's block was registered in a slot, the call of registerSlotProducer for a block of the same
-- validator and slot with another hash returns the error of an equivocation: the two hashes are appended to the
-- proofs, two percent of the validator's stake are slashed, and it is in jail through the epoch after that of
-- the slot. What the caller does with the block is not part of it. Condition: the slot is a `uint64`.
pub equivocation_is_punished :
    (a b : Block) (bc : Blockchain) (later : ℕ)
    → (register_slot_producer a bc).0 ≡ ok tt
    → a.slot ≡ b.slot
    → a.validator ≡ b.validator
    → a.hash ≢ b.hash
    → b.slot < word
    → later / slots_per_epoch ≤ b.slot / slots_per_epoch + 1
    → let (outcome, bc') = register_slot_producer b (register_slot_producer a bc).1 in
      (outcome ≡ err equivocation_detected)
      × (bc'.equivocations
          ≡ bc.equivocations
            ++ record { slot = b.slot; validator = b.validator; block_a = a.hash; block_b = b.hash }
              ∷ [])
      × (bc'.validators ≡ slash_validator_percent bc.validators b.validator slash_percent)
      × (is_jailed (some bc'.stats) b.validator later ≡ true)
equivocation_is_punished a b bc later first slots names other small soon =
    let found : lookup b.validator (producers_of b.slot (note_producer a bc)) ≡ some a.hash =
      rw (← slots, ← names) (noted a bc) in
    rw (register_ok a bc first, register_other b a.hash (note_producer a bc) found other)
      (
        refl,
        unfold handle_equivocation note_producer in refl,
        unfold handle_equivocation note_producer in refl,
        jailed b.validator b.slot later a.hash b.hash (note_producer a bc) small soon,
      )
