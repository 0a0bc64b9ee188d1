-- ===== src/Chain/Slots/Penalties.antt =====
-- processMissedSlots of core/blockchain.go: the counters of missed slots and the stakes.
use xenium.Prelude.{
  ℕ, zero, suc, ◌+◌, ◌-◌, ◌≤◌, ◌<◌, ◌≡◌, refl, false, some, [], arith, ◌==◌, nat_beq, leb, ltb,
  nat_eq, get_or, Option-cases, Bool-cases, inl, inr,
}
use xenium.Prelude.Bytes.{Bytes, bytes_key}
use xenium.Prelude.Int.{ℤ, pos, leb_ℤ, add_word, word}
use xenium.Dict.{lookup, insert, lookup-insert}
use xenium.Domain.{Validators, ValidatorStats, Stats}
use xenium.Crypto.{Crypto}
use xenium.Stake.{slash_percent, slash_amount, slash_validator_percent}
use xenium.Stake.Invariant.{IsStaked, slash_validator-IsStaked}
use xenium.Leader.{genesis_name}
use xenium.Chain.{Blockchain}
use xenium.Chain.Epoch.{leader_for_slot}
use xenium.Chain.Slots.{
  max_missed_slots, ensure_stats, miss, process_slot, process_slots, process_missed_slots,
}

-- No counter is above the number of missed slots that is tolerated.
pub record IsTolerated (stats : Stats) : Type 0 where
  pub at :
      (name : Bytes) (s : ValidatorStats)
      → lookup name stats ≡ some s
      → s.missed_slots ≤ max_missed_slots

-- The counters are tolerated, and every validator holds the minimum stake.
pub record IsSettled (bc : Blockchain) : Type 0 where
  pub counters : IsTolerated bc.stats
  pub stakes : IsStaked bc.validators

slash_validator_percent-IsStaked :
    (vs : Validators) (name : Bytes) (percent : ℤ)
    → IsStaked vs
    → IsStaked (slash_validator_percent vs name percent)
unfolding slash_validator_percent
slash_validator_percent-IsStaked vs name percent staked =
    elim (Bool-cases (leb_ℤ percent (pos 0))) [
      | inl nothing ↦ rw (slash_validator_percent, nothing) staked
      | inr positive ↦ elim (Option-cases (lookup name vs)) [
        | inl missing ↦ rw (slash_validator_percent, positive, missing) staked
        | inr (v, found) ↦
            rw (slash_validator_percent, positive, found)
              (slash_validator-IsStaked vs name (slash_amount v.stake percent) staked)
      ]
    ]

pub insert-IsTolerated :
    (name : Bytes) (s : ValidatorStats) (stats : Stats)
    → s.missed_slots ≤ max_missed_slots
    → IsTolerated stats
    → IsTolerated (insert name s stats)
insert-IsTolerated name s stats low tolerated = record {
  at = λ j t e. elim (Bool-cases (name == j)) [
    | inl same ↦
        let value : s ≡ t = ground (arith, lookup-insert name j s stats) in rw (← value) low
    | inr other ↦ tolerated.at j t (ground (arith, lookup-insert name j s stats))
  ];
}

miss-IsSettled :
    (slot : ℕ) (leader : Bytes) (bc : Blockchain) → IsSettled bc → IsSettled (miss slot leader bc)
unfolding miss
miss-IsSettled slot leader bc settled =
    let missed = add_word (ensure_stats leader bc.stats).missed_slots 1 in
    elim (Bool-cases (ltb max_missed_slots missed)) [
      | inl many ↦
          rw (miss, many)
            (record {
              counters = insert-IsTolerated leader _ bc.stats (omega arith) settled.counters;
              stakes =
                  slash_validator_percent-IsStaked bc.validators leader slash_percent
                    settled.stakes;
            })
      | inr few ↦
          rw (miss, few)
            (record {
              counters = insert-IsTolerated leader _ bc.stats (ground arith) settled.counters;
              stakes = settled.stakes;
            })
    ]

module _ (c : Crypto) where
  process_slot-IsSettled :
      (slot : ℕ) (bc : Blockchain) → IsSettled bc → IsSettled (process_slot c slot bc)
  unfolding process_slot
  process_slot-IsSettled slot bc settled =
      let (leader, e) = leader_for_slot c bc slot bc.epochs in
      let asked = record bc { epochs = e } in
      let same : IsSettled asked = record {
        counters = settled.counters;
        stakes = settled.stakes;
      } in
      elim (Bool-cases (leader == genesis_name)) [
        | inl nobody ↦ rw (process_slot, nobody) same
        | inr somebody ↦ elim (Bool-cases (get_or (lookup slot bc.slot_produced) [] == leader)) [
          | inl produced ↦ rw (process_slot, somebody, produced) same
          | inr missed ↦ rw (process_slot, somebody, missed) (miss-IsSettled slot leader asked same)
        ]
      ]

  process_slots-IsSettled :
      (n slot : ℕ) (bc : Blockchain) → IsSettled bc → IsSettled (process_slots c n slot bc)
  unfolding process_slots
  process_slots-IsSettled zero slot bc settled = settled
  process_slots-IsSettled (suc n) slot bc settled =
      process_slots-IsSettled n (slot + 1) (process_slot c slot bc)
        (process_slot-IsSettled slot bc settled)

  -- For every slot but the largest `uint64` the penalties for missed slots come to an end: the slot is
  -- processed then, no validator has more missed slots than the three that are tolerated, and every
  -- validator that is left holds the minimum stake. Condition: the counters and stakes were so before.
  pub process_missed_slots-IsSettled :
      (target : ℕ) (bc : Blockchain)
      → target < word - 1
      → IsSettled bc
      → (bc' : Blockchain) × (process_missed_slots c target bc ≡ some bc')
        × (target ≤ bc'.last_processed_slot)
        × IsSettled bc'
  unfolding process_missed_slots
  process_missed_slots-IsSettled target bc small settled =
      elim (Bool-cases (leb target bc.last_processed_slot)) [
        | inl past ↦ (bc, rw (process_missed_slots, past) refl, ground arith, settled)
        | inr ahead ↦
            let done =
              process_slots c (target - bc.last_processed_slot) (bc.last_processed_slot + 1) bc in
            let kept =
              process_slots-IsSettled (target - bc.last_processed_slot) (bc.last_processed_slot + 1)
                bc settled in
            let finite : nat_beq target (word - 1) ≡ false = ground arith in
            (
              record done { last_processed_slot = target },
              rw (process_missed_slots, ahead, finite) refl,
              omega arith,
              record { counters = kept.counters; stakes = kept.stakes },
            )
      ]
