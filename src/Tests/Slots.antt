-- ===== src/Tests/Slots.antt =====
-- Two blocks of one validator in one slot, and a slot that its leader misses for the fourth time.
use xenium.Prelude.{◌≤◌, ◌≡◌, refl, true, false, some, [], ◌∷◌, ◌++◌, arith}
use xenium.Prelude.Bytes.{Bytes, bytes_key}
use xenium.Dict.{lookup, insert}
use xenium.Domain.{Block, ValidatorStats, ok, err, equivocation_detected}
use xenium.Leader.{is_jailed}
use xenium.Stake.{slash_percent, slash_validator_percent}
use xenium.Chain.{Blockchain}
use xenium.Chain.Slots.{register_slot_producer, producers_of, process_missed_slots}
use xenium.Chain.Slots.Equivocation.{equivocation_is_punished}
use xenium.Chain.Slots.Penalties.{IsSettled, insert-IsTolerated, process_missed_slots-IsSettled}
use xenium.Tests.Demo.{alice, bob, demo}
use xenium.Tests.Chain.{engine, rival}
use xenium.Tests.Stake.{two, two-IsStaked}

abbrev twin : Block
twin = record rival { hash = 9 ∷ [] }

rival_registers : (register_slot_producer rival engine).0 ≡ ok tt
unfolding register_slot_producer producers_of lookup
rival_registers = refl

equivocation_is_punished_example :
    let (outcome, bc') = register_slot_producer twin (register_slot_producer rival engine).1 in
    (outcome ≡ err equivocation_detected)
    × (bc'.equivocations
        ≡ [] ++ record { slot = 2; validator = alice; block_a = 3 ∷ []; block_b = 9 ∷ [] } ∷ [])
    × (bc'.validators ≡ slash_validator_percent engine.validators alice slash_percent)
    × (is_jailed (some bc'.stats) alice 99 ≡ true)
equivocation_is_punished_example =
    equivocation_is_punished rival twin engine 99 rival_registers refl refl (λ e. cc) (omega arith)
      (omega arith)

none_missed : (name : Bytes) (s : ValidatorStats) → lookup name [] ≡ some s → s.missed_slots ≤ 3
unfolding lookup
none_missed name s e = absurd (ground arith)

abbrev late : Blockchain
late = record engine {
  validators = two;
  stats = insert bob (record { missed_slots = 3; jailed_until_epoch = 0; slashed = false }) [];
}

late-IsSettled : IsSettled late
late-IsSettled = record {
  counters =
      insert-IsTolerated bob (record { missed_slots = 3; jailed_until_epoch = 0; slashed = false })
        [] (omega arith) (record { at = none_missed });
  stakes = two-IsStaked;
}

process_missed_slots-IsSettled_example :
    (bc' : Blockchain) × (process_missed_slots demo 9 late ≡ some bc')
    × (9 ≤ bc'.last_processed_slot)
    × IsSettled bc'
process_missed_slots-IsSettled_example =
    process_missed_slots-IsSettled demo 9 late (omega arith) late-IsSettled
