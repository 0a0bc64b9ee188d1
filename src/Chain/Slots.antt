-- ===== src/Chain/Slots.antt =====
-- What core/blockchain.go keeps per slot: who produced a block in it, two blocks of one validator in one
-- slot, and slots whose leader produced none (insertBlock, registerSlotProducer, handleEquivocation,
-- processMissedSlots).
pub mod Penalties
pub mod Equivocation
use xenium.Prelude.{
  ℕ, zero, suc, ◌+◌, ◌-◌, ◌/◌, Bool, true, not, Option, none, some, List, [], ◌∷◌, ◌++◌, ltb, leb,
  nat_beq, if◌then◌else◌, ◌==◌, nat_eq, get_or,
}
use xenium.Prelude.Bytes.{Bytes, bytes_key}
use xenium.Prelude.Int.{word, add_word}
use xenium.Dict.{Dict, lookup, insert}
use xenium.Domain.{
  Block, ValidatorStats, Stats, zero_stats, Checked, ok, err, equivocation_detected,
}
use xenium.Crypto.{Crypto}
use xenium.Stake.{slash_percent, slash_validator_percent}
use xenium.Leader.{slots_per_epoch, genesis_name}
use xenium.Chain.{Blockchain, EquivocationProof}
use xenium.Chain.Epoch.{leader_for_slot}

abbrev pub max_missed_slots : ℕ
max_missed_slots = 3

abbrev pub jail_epochs : ℕ
jail_epochs = 2

unfoldable pub insert_block : Block → Blockchain → Blockchain
insert_block b bc = record bc {
  blocks = insert b.hash b bc.blocks;
  parents = insert b.hash b.prev_hash bc.parents;
}

-- The entry that `ensureStats` finds or makes; its callers then write it.
unfoldable pub ensure_stats : Bytes → Stats → ValidatorStats
ensure_stats name stats = get_or (lookup name stats) zero_stats

unfoldable pub jail_end : ℕ → ℕ
jail_end slot = add_word (slot / slots_per_epoch) jail_epochs

unfoldable pub handle_equivocation : Bytes → ℕ → Bytes → Bytes → Blockchain → Blockchain
handle_equivocation validator slot h1 h2 bc =
    let stats = ensure_stats validator bc.stats in
    record bc {
      equivocations =
          bc.equivocations
          ++ record { slot = slot; validator = validator; block_a = h1; block_b = h2 } ∷ [];
      stats =
          insert validator (record stats { slashed = true; jailed_until_epoch = jail_end slot })
            bc.stats;
      validators = slash_validator_percent bc.validators validator slash_percent;
    }

-- The producers of a slot; a slot without an entry gets an empty one.
unfoldable pub producers_of : ℕ → Blockchain → Dict Bytes Bytes
producers_of slot bc = get_or (lookup slot bc.slot_producers) []

unfoldable pub note_producer : Block → Blockchain → Blockchain
note_producer b bc = record bc {
  slot_producers =
      insert b.slot (insert b.validator b.hash (producers_of b.slot bc)) bc.slot_producers;
}

unfoldable pub register_slot_producer : Block → Blockchain → Checked × Blockchain
register_slot_producer b bc = elim (lookup b.validator (producers_of b.slot bc)) [
  | none ↦ (ok tt, note_producer b bc)
  | some existing ↦
      if not (existing == b.hash)
      then (err equivocation_detected, handle_equivocation b.validator b.slot existing b.hash bc)
      else (ok tt, note_producer b bc)
]

-- What a slot costs its leader who produced no block in it.
unfoldable pub miss : ℕ → Bytes → Blockchain → Blockchain
miss slot leader bc =
    let stats = ensure_stats leader bc.stats in
    let missed = add_word stats.missed_slots 1 in
    if ltb max_missed_slots missed
    then record bc {
      validators = slash_validator_percent bc.validators leader slash_percent;
      stats =
          insert leader (record stats { missed_slots = 0; jailed_until_epoch = jail_end slot })
            bc.stats;
    }
    else record bc { stats = insert leader (record stats { missed_slots = missed }) bc.stats }

module _ (c : Crypto) where
  -- The body of the loop.
  unfoldable pub process_slot : ℕ → Blockchain → Blockchain
  process_slot slot bc =
      let (leader, e) = leader_for_slot c bc slot bc.epochs in
      let asked = record bc { epochs = e } in
      if leader == genesis_name
      then asked
      else if get_or (lookup slot bc.slot_produced) [] == leader
      then asked
      else miss slot leader asked

  unfoldable pub process_slots : ℕ → ℕ → Blockchain → Blockchain
  process_slots zero slot bc = bc
  process_slots (suc n) slot bc = process_slots n (slot + 1) (process_slot slot bc)

  -- `none` is a call that never returns: `slot <= targetSlot` holds of every `uint64` at the largest one.
  unfoldable pub process_missed_slots : ℕ → Blockchain → Option Blockchain
  process_missed_slots target bc =
      if leb target bc.last_processed_slot
      then some bc
      else if nat_beq target (word - 1)
      then none
      else let done =
          process_slots (target - bc.last_processed_slot) (bc.last_processed_slot + 1) bc in
        some (record done { last_processed_slot = target })
