-- ===== src/Chain/Growth/Returned.antt =====
-- That AddBlock and AddBlockExternal of core/blockchain.go return.
use xenium.Prelude.{
  ℕ, ◌+◌, ◌<◌, ◌≡◌, inl, inr, Option, none, some, List, arith, Option-cases, List-cases,
}
use xenium.Prelude.Bytes.{Bytes, bytes_key}
use xenium.Prelude.Int.{word}
use xenium.Dict.{lookup}
use xenium.Domain.{Block, Transaction, State, Result-cases, err, poh_not_initialized, no_validators}
use xenium.Crypto.{Crypto}
use xenium.Ports.{BlockStore}
use xenium.Poh.{Poh, ticks_per_slot}
use xenium.Poh.Verify.{IsDigest}
use xenium.Chain.{Blockchain}
use xenium.Chain.Walk.{Blocks}
use xenium.Chain.Accept.{verify_transactions}
use xenium.Chain.Blocks.{Added, slash_leader, next_turn, choose_txs, add_block}
use xenium.Chain.Growth.{IsGrown-IsRanked}
use xenium.Chain.Growth.Moves.{now, Moves-trans, choose_txs-Moves}
use xenium.Chain.Growth.Canonical.{IsEngine}
use xenium.Chain.Growth.Adding.{Moves-Grows}
use xenium.Chain.Growth.Runs.{HasTime, tip-found, next_turn-Moves, draft-IsReady}
use xenium.Domain.{Result, err, unknown_parent}
use xenium.Chain.Growth.Moves.{Moves-refl}
use xenium.Chain.Growth.{IsGrown-IsRanked}
use xenium.Chain.Blocks.{add_block_external}
use xenium.Chain.Growth.Returns.{IsFresh, slot_small, build_returns}
use xenium.Chain.Growth.Taking.{failed_with, choosing_keeps_time}
use xenium.Chain.Walk.Total.{chain_from_tip_total}
use xenium.Chain.Rebuild.{state_at_tip, replay_blocks, after_first}

still_new :
    (hash : Bytes) (blocks' blocks : Blocks)
    → blocks' ≡ blocks
    → lookup hash blocks ≡ none
    → lookup hash blocks' ≡ none
still_new hash blocks' blocks same free = rw same free

state_at_tip_total :
    (c : Crypto) (bc : Blockchain) (tip : Bytes)
    → IsEngine bc
    → (r : Result State) × (state_at_tip c bc tip ≡ some r)
unfolding state_at_tip
state_at_tip_total c bc tip engine =
    let (walk, walked) =
      chain_from_tip_total bc.blocks (IsGrown-IsRanked bc.blocks (now bc) engine.grown) tip in
    elim (Result-cases walk) [
      | inl (chain, good) ↦
          (replay_blocks c bc.validators bc.genesis (after_first chain), ground arith)
      | inr (e, bad) ↦ (err e, ground arith)
    ]

module _ (c : Crypto) (digests : (bs : Bytes) → IsDigest (c.sha256 bs)) {S : Type 0}
    (store : BlockStore S) (random : ℕ) where
  -- AddBlock returns, whatever its outcome. Conditions: the blocks are well placed, as in every state that a run
  -- reaches; SHA-256 yields digests; the clock has time for another slot; and the header of the new block, if it
  -- comes to one, has the hash of no block that is there.
  pub add_block_returns :
      (txs : List Transaction) (bc : Blockchain) (stored : Option S)
      → IsEngine bc
      → HasTime bc
      → ((clock : Poh) (prev : Block)
          → bc.poh ≡ some clock
          → lookup bc.canonical_tip bc.blocks ≡ some prev
          → let turn = next_turn c clock bc in
            let (chosen, ready) = choose_txs txs turn.producer turn.engine in
            IsFresh c turn prev ready.state chosen bc)
      → (r : Added S) × (add_block c store random txs bc stored ≡ some r)
  unfolding add_block
  add_block_returns txs bc stored engine time fresh = elim (List-cases bc.validators) [
    | inl nobody ↦ (failed_with no_validators bc stored, ground arith)
    | inr (v, vs, some_validators) ↦ elim (Option-cases bc.poh) [
      | inl stopped ↦ (failed_with poh_not_initialized bc stored, ground arith)
      | inr (clock, running) ↦
          let soon : clock.current_tick + ticks_per_slot < word = rw running at time in
          let (prev, tip) = tip-found bc.blocks bc.canonical_tip engine.walked in
          let turn = next_turn c clock bc in
          let chosen = choose_txs txs turn.producer turn.engine in
          let ready = choose_txs-Moves txs turn.producer turn.engine in
          let both = Moves-trans (next_turn-Moves c clock bc running soon) ready in
          let g = Moves-Grows engine both in
          elim (Result-cases (verify_transactions c chosen.0)) [
            | inr (e, failed) ↦
                (failed_with e (slash_leader turn.leader chosen.1) stored, ground arith)
            | inl (u, verified) ↦
                let (r, returned) =
                  build_returns c digests store random turn prev chosen.1.state chosen.0 chosen.1
                    stored g.engine
                    (λ next.
                      draft-IsReady c clock bc chosen.1 bc.canonical_tip prev chosen.0 next engine
                        running soon tip ready)
                    (λ next applied. rw both.blocks (fresh clock prev running tip next applied))
                    (choosing_keeps_time txs turn.producer turn.engine
                      (slot_small c clock bc soon)) in
                (r, ground arith)
          ]
    ]
  ]

  -- AddBlockExternal returns likewise.
  pub add_block_external_returns :
      (prev_hash : Bytes) (txs : List Transaction) (bc : Blockchain) (stored : Option S)
      → IsEngine bc
      → HasTime bc
      → ((clock : Poh) (parent : Block) (state : State)
          → bc.poh ≡ some clock
          → lookup prev_hash bc.blocks ≡ some parent
          → IsFresh c (next_turn c clock bc) parent state txs bc)
      → (r : Added S) × (add_block_external c store random prev_hash txs bc stored ≡ some r)
  unfolding add_block_external
  add_block_external_returns prev_hash txs bc stored engine time fresh =
      elim (List-cases bc.validators) [
        | inl nobody ↦ (failed_with no_validators bc stored, ground arith)
        | inr (v, vs, some_validators) ↦ elim (Option-cases bc.poh) [
          | inl stopped ↦ (failed_with poh_not_initialized bc stored, ground arith)
          | inr (clock, running) ↦ elim (Option-cases (lookup prev_hash bc.blocks)) [
            | inl unknown ↦ (failed_with unknown_parent bc stored, ground arith)
            | inr (parent, found) ↦
                let soon : clock.current_tick + ticks_per_slot < word = rw running at time in
                let turn = next_turn c clock bc in
                let moved = next_turn-Moves c clock bc running soon in
                let g = Moves-Grows engine moved in
                let small = slot_small c clock bc soon in
                elim (Result-cases (verify_transactions c txs)) [
                  | inr (e, failed) ↦
                      (failed_with e (slash_leader turn.leader turn.engine) stored, ground arith)
                  | inl (u, verified) ↦
                      let (replayed, walked) =
                        state_at_tip_total c turn.engine prev_hash g.engine in
                      elim (Result-cases replayed) [
                        | inr (e, failed) ↦ (failed_with e turn.engine stored, ground arith)
                        | inl (state, good) ↦
                            let (r, returned) =
                              build_returns c digests store random turn parent state txs turn.engine
                                stored g.engine
                                (λ next.
                                  draft-IsReady c clock bc turn.engine prev_hash parent txs next
                                    engine running soon found (Moves-refl turn.engine))
                                (λ next applied.
                                  still_new _ turn.engine.blocks bc.blocks moved.blocks
                                    (fresh clock parent state running found next applied))
                                small in
                            (r, ground arith)
                      ]
                ]
          ]
        ]
      ]
