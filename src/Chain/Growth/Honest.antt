-- ===== src/Chain/Growth/Honest.antt =====
-- Equivocations in the runs of the engine of core/blockchain.go: every block that a call makes has a slot of its own.
use xenium.Prelude.{
  ℕ, suc, ◌+◌, ◌≤◌, ◌<◌, ◌≡◌, refl, ◌∙◌, inl, inr, Option, some, List, [], ◌∷◌, arith, Option-cases,
  List-cases, nat_eq, get_or,
}
use xenium.Prelude.Bytes.{Bytes, bytes_key}
use xenium.Prelude.Int.{ℤ, word}
use xenium.Dict.{Dict, lookup}
use xenium.Domain.{Transaction, Result-cases}
use xenium.Crypto.{Crypto}
use xenium.Ports.{BlockStore}
use xenium.Poh.{Poh, slot, ticks_per_slot}
use xenium.Poh.Clock.{slot-tick}
use xenium.Chain.{Blockchain, ChainConfig}
use xenium.Chain.Rebuild.{
  rebuild_canonical_chain, rebuild_slot_map, rebuild_state_from_canonical, update_finality,
  state_at_tip,
}
use xenium.Chain.Slots.{insert_block}
use xenium.Chain.Accept.{verify_transactions}
use xenium.Chain.Setup.{
  set_balance, register_validator, add_tx, reset_reorg_stats, set_storage, new_blockchain, unbuilt,
}
use xenium.Chain.Blocks.{Added, zero_block, next_turn, choose_txs, add_block, add_block_external}
use xenium.Chain.Growth.Moves.{now}
use xenium.Chain.Growth.Runs.{HasTime}
use xenium.Chain.Growth.Reach.{
  System, Step, Reach, here, next, block_added, block_added_external, balance_set,
  validator_registered, tx_added, reorg_stats_reset, storage_set, asked,
}
use xenium.Chain.Growth.Asides.{IsAside-Leaves, set_storage-IsAside}
use xenium.Chain.Growth.Asked.{Asks-IsAside}
use xenium.Chain.Growth.Leaving.{Leaves, choose_txs-Leaves}
use xenium.Chain.Growth.Quiet.{
  IsClear, IsClear-Leaves, IsClear-later, IsQuiet, quiet, build-IsQuiet,
}

nothing_noted :
    {P : Type 0} (at : ℕ) (d : Dict ℕ (Dict Bytes Bytes)) {producers : Dict Bytes Bytes}
    → d ≡ []
    → lookup at d ≡ some producers
    → P
unfolding lookup
nothing_noted at [] empty found = absurd (cc)
nothing_noted at (x ∷ xs) empty found = absurd (cc)

-- No producer is noted for a slot ahead of the clock, and no equivocation was seen.
abbrev pub IsHonest : Blockchain → Type 0
IsHonest bc = IsClear (suc (now bc)) bc

IsHonest-Leaves : (bc bc' : Blockchain) → Leaves bc bc' → IsHonest bc → IsHonest bc'
IsHonest-Leaves bc bc' k honest =
    let same : now bc' ≡ now bc = rw k.clock refl in
    IsClear-later (omega arith) (IsClear-Leaves k honest)

module _ (c : Crypto) where
  pub next_turn-IsClear :
      (clock : Poh) (bc : Blockchain)
      → bc.poh ≡ some clock
      → clock.current_tick + ticks_per_slot < word
      → IsHonest bc
      → IsClear (slot (next_turn c clock bc).clock) (next_turn c clock bc).engine
        × ((next_turn c clock bc).engine.poh ≡ some (next_turn c clock bc).clock)
  unfolding next_turn
  next_turn-IsClear clock bc running time honest =
      let one = slot-tick c clock time in
      let at_now : now bc ≡ slot clock = rw running refl in
      (
        record {
          noted = λ at producers found. let low = honest.noted at producers found in omega arith;
          no_proofs = honest.no_proofs;
        },
        refl,
      )

  module _ {S : Type 0} (store : BlockStore S) where
    IsQuiet-IsHonest :
        (clock : Poh) (ready : Option Poh) (r : Added S)
        → ready ≡ some clock
        → IsQuiet c store (slot clock) ready r
        → IsHonest r.engine
    IsQuiet-IsHonest clock ready r running q =
        let same : now r.engine ≡ slot clock = rw (q.same_clock, running) refl in
        IsClear-later (omega arith) q.clear

    add_block-IsHonest :
        (random : ℕ) (txs : List Transaction) (bc : Blockchain) (stored : Option S) {r : Added S}
        → HasTime bc
        → add_block c store random txs bc stored ≡ some r
        → IsHonest bc
        → IsHonest r.engine
    unfolding add_block
    add_block-IsHonest random txs bc stored {r} time h honest = elim (List-cases bc.validators) [
      | inl nobody ↦ let same : r.engine ≡ bc = ground arith in rw same honest
      | inr (v, vs, some_validators) ↦ elim (Option-cases bc.poh) [
        | inl stopped ↦ let same : r.engine ≡ bc = ground arith in rw same honest
        | inr (clock, running) ↦
            let soon : clock.current_tick + ticks_per_slot < word = rw running at time in
            let prev = get_or (lookup bc.canonical_tip bc.blocks) zero_block in
            let turn = next_turn c clock bc in
            let chosen = choose_txs txs turn.producer turn.engine in
            let left = choose_txs-Leaves txs turn.producer turn.engine in
            let (clear, ticked) = next_turn-IsClear clock bc running soon honest in
            let clear' = IsClear-Leaves left clear in
            elim (Result-cases (verify_transactions c chosen.0)) [
              | inr (e, failed) ↦
                  IsQuiet-IsHonest turn.clock chosen.1.poh r (left.clock ∙ ticked)
                    (quiet c store chosen.1 r clear' (inr (turn.leader, ground arith)))
              | inl (u, verified) ↦
                  IsQuiet-IsHonest turn.clock chosen.1.poh r (left.clock ∙ ticked) (
                    build-IsQuiet c store random turn prev chosen.1.state chosen.0 chosen.1 stored
                      {r = r} clear' (ground arith))
            ]
      ]
    ]

    add_block_external-IsHonest :
        (random : ℕ) (prev_hash : Bytes) (txs : List Transaction) (bc : Blockchain)
        (stored : Option S) {r : Added S}
        → HasTime bc
        → add_block_external c store random prev_hash txs bc stored ≡ some r
        → IsHonest bc
        → IsHonest r.engine
    unfolding add_block_external
    add_block_external-IsHonest random prev_hash txs bc stored {r} time h honest =
        elim (List-cases bc.validators) [
          | inl nobody ↦ let same : r.engine ≡ bc = ground arith in rw same honest
          | inr (v, vs, some_validators) ↦ elim (Option-cases bc.poh) [
            | inl stopped ↦ let same : r.engine ≡ bc = ground arith in rw same honest
            | inr (clock, running) ↦ elim (Option-cases (lookup prev_hash bc.blocks)) [
              | inl unknown ↦ let same : r.engine ≡ bc = ground arith in rw same honest
              | inr (parent, found) ↦
                  let soon : clock.current_tick + ticks_per_slot < word = rw running at time in
                  let turn = next_turn c clock bc in
                  let (clear, ticked) = next_turn-IsClear clock bc running soon honest in
                  elim (Result-cases (verify_transactions c txs)) [
                    | inr (e, failed) ↦
                        IsQuiet-IsHonest turn.clock turn.engine.poh r ticked
                          (quiet c store turn.engine r clear (inr (turn.leader, ground arith)))
                    | inl (u, verified) ↦
                        elim (Option-cases (state_at_tip c turn.engine prev_hash)) [
                          | inl endless ↦ absurd (ground arith)
                          | inr (replayed, walked) ↦ elim (Result-cases replayed) [
                            | inr (e, failed) ↦
                                IsQuiet-IsHonest turn.clock turn.engine.poh r ticked
                                  (quiet c store turn.engine r clear (inl (ground arith)))
                            | inl (state, good) ↦
                                IsQuiet-IsHonest turn.clock turn.engine.poh r ticked (
                                  build-IsQuiet c store random turn parent state txs turn.engine
                                    stored {r = r} clear (ground arith))
                          ]
                        ]
                  ]
            ]
          ]
        ]

    Step-IsHonest : {s t : System S} → Step c store s t → IsHonest s.engine → IsHonest t.engine
    Step-IsHonest (block_added s random txs r h time fresh) honest =
        add_block-IsHonest random txs s.engine s.stored time h honest
    Step-IsHonest (block_added_external s random prev_hash txs r h time fresh) honest =
        add_block_external-IsHonest random prev_hash txs s.engine s.stored time h honest
    Step-IsHonest (balance_set s address amount) honest =
        IsHonest-Leaves s.engine (set_balance address amount s.engine)
          (unfold set_balance in ground arith) honest
    Step-IsHonest (validator_registered s name stake pub_key priv) honest =
        IsHonest-Leaves s.engine (register_validator name stake pub_key priv s.engine).1
          (unfold register_validator in ground arith) honest
    Step-IsHonest (tx_added s tx) honest =
        IsHonest-Leaves s.engine (add_tx c tx s.engine).1 (unfold add_tx in ground arith) honest
    Step-IsHonest (reorg_stats_reset s) honest =
        IsHonest-Leaves s.engine (reset_reorg_stats s.engine)
          (unfold reset_reorg_stats in ground arith) honest
    Step-IsHonest (storage_set s stored saved) honest =
        IsHonest-Leaves s.engine (set_storage saved s.engine)
          (IsAside-Leaves (set_storage-IsAside saved s.engine)) honest
    Step-IsHonest (asked s bc asks) honest =
        IsHonest-Leaves s.engine bc (IsAside-Leaves (Asks-IsAside c s.engine asks)) honest

    pub Reach-IsHonest :
        {s t : System S} → Reach c store s t → IsHonest s.engine → IsHonest t.engine
    Reach-IsHonest here honest = honest
    Reach-IsHonest (next run step) honest = Step-IsHonest step (Reach-IsHonest run honest)

  pub new_blockchain-IsHonest :
      (int63 : ℤ → ℤ) (reading : Option ℤ) (cfg : ChainConfig) (bc : Blockchain)
      → new_blockchain c int63 reading cfg ≡ some bc
      → IsHonest bc
  unfolding new_blockchain unbuilt insert_block rebuild_canonical_chain rebuild_slot_map
      rebuild_state_from_canonical update_finality
  new_blockchain-IsHonest int63 reading cfg bc h =
      let producers : bc.slot_producers ≡ [] = ground arith in
      record {
        noted = λ at noted found. nothing_noted at bc.slot_producers producers found;
        no_proofs = ground arith;
      }

  -- No run of calls from NewBlockchain on, but for RestoreFromStorage, detects an equivocation: each call that makes a block lets the clock tick for
  -- a slot, so its block is the first of its slot that is registered, and the proofs of equivocations stay empty.
  -- Condition: for each call that adds a block, those of the run.
  pub no_equivocation_in_runs :
      {S : Type 0} (store : BlockStore S) (int63 : ℤ → ℤ) (reading : Option ℤ) (cfg : ChainConfig)
      (bc : Blockchain) (stored : Option S) {s : System S}
      → new_blockchain c int63 reading cfg ≡ some bc
      → Reach c store (record { engine = bc; stored = stored }) s
      → (s.engine.equivocations ≡ [])
        × ((at : ℕ) (producers : Dict Bytes Bytes)
            → lookup at s.engine.slot_producers ≡ some producers
            → at ≤ now s.engine)
  no_equivocation_in_runs store int63 reading cfg bc stored {s} made run =
      let honest = Reach-IsHonest store run (new_blockchain-IsHonest int63 reading cfg bc made) in
      (
        honest.no_proofs,
        (λ at producers found. let low = honest.noted at producers found in omega arith),
      )
