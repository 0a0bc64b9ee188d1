-- ===== src/Chain/Growth/Runs.antt =====
-- Runs of the engine of core/blockchain.go: calls one after another, from NewBlockchain on.
use xenium.Prelude.{
  ℕ, suc, ◌+◌, ◌-◌, ◌<◌, ◌≡◌, refl, ap, ◌∙◌, inl, inr, Option, none, some, List, [], arith, ==_iff,
  Option-cases, List-cases,
}
use xenium.Prelude.Bytes.{Bytes, bytes_key}
use xenium.Prelude.Int.{word, add_word}
use xenium.Dict.{lookup}
use xenium.Domain.{Block, Transaction, State, Result-cases, ok}
use xenium.Crypto.{Crypto}
use xenium.Ports.{BlockStore}
use xenium.Poh.{Poh, slot, ticks_per_slot}
use xenium.Poh.Clock.{slot-tick}
use xenium.Poh.Verify.{IsDigest}
use xenium.Chain.{Blockchain}
use xenium.Chain.Walk.{Blocks, collect, chain_from_tip}
use xenium.Chain.Rebuild.{state_at_tip}
use xenium.Chain.Accept.{verify_transactions}
use xenium.Chain.Blocks.{
  Added, slash_leader, next_turn, draft, choose_txs, build, add_block, add_block_external,
}
use xenium.Chain.Growth.Moves.{
  now, Moves, Moves-trans, Moves-refl, slash_leader-Moves, choose_txs-Moves,
}
use xenium.Chain.Growth.Canonical.{IsEngine}
use xenium.Chain.Growth.Adding.{Grows, Grows-trans, Moves-Grows}
use xenium.Chain.Growth.Sealing.{IsReady, build-Grows}

-- The counter of the clock stays in `uint64` for another slot.
abbrev pub HasTime : Blockchain → Type 0
HasTime bc = elim bc.poh [ none ↦ Unit {0} | some p ↦ p.current_tick + ticks_per_slot < word ]

pub tip-found :
    (blocks : Blocks) (tip : Bytes) {out : List Block}
    → chain_from_tip blocks tip ≡ some (ok out)
    → (b : Block) × (lookup tip blocks ≡ some b)
unfolding chain_from_tip collect
tip-found blocks tip h = elim (Option-cases (lookup tip blocks)) [
  | inl missing ↦ absurd (ground (arith, ==_iff tip []))
  | inr found ↦ found
]

unchanged : (bc : Blockchain) {bc' : Blockchain} → IsEngine bc → bc' ≡ bc → Grows bc bc'
unchanged bc engine same = rw same (Moves-Grows engine (Moves-refl bc))

module _ (c : Crypto) where
  pub next_turn-Moves :
      (clock : Poh) (bc : Blockchain)
      → bc.poh ≡ some clock
      → clock.current_tick + ticks_per_slot < word
      → Moves bc (next_turn c clock bc).engine
  unfolding next_turn
  next_turn-Moves clock bc running time = record {
    blocks = refl;
    canonical_tip = refl;
    chain = refl;
    finalized_slot = refl;
    max_reorg_depth = refl;
    clock = rw running (let one = slot-tick c clock time in omega arith);
  }

  -- The block of a turn can be built on every block that is there.
  pub draft-IsReady :
      (clock : Poh) (bc bc' : Blockchain) (hash : Bytes) (prev : Block) (txs : List Transaction)
      (next : State)
      → IsEngine bc
      → bc.poh ≡ some clock
      → clock.current_tick + ticks_per_slot < word
      → lookup hash bc.blocks ≡ some prev
      → Moves (next_turn c clock bc).engine bc'
      → IsReady bc'.blocks (now bc') (draft c (next_turn c clock bc) prev txs next)
  unfolding next_turn draft
  draft-IsReady clock bc bc' hash prev txs next engine running time found m =
      let one = slot-tick c clock time in
      let placed = engine.grown.at hash prev found in
      let low = placed.low in
      let at_now : now bc ≡ slot clock = rw running refl in
      let early = placed.early in
      let small : slot clock < word - 1 = unfold slot in omega arith in
      let reached = m.clock in
      let exact : add_word prev.index 1 ≡ suc prev.index = omega arith in
      record {
        low = omega arith;
        early = omega arith;
        on = record {
          parent = prev;
          found = rw m.blocks (ap (λ (h : Bytes). lookup h bc.blocks) placed.named ∙ found);
          counted = exact;
          later = omega arith;
        };
      }

  module _ (digests : (bs : Bytes) → IsDigest (c.sha256 bs)) {S : Type 0} (store : BlockStore S)
      (random : ℕ) where
    -- A call of AddBlock, whatever its outcome, keeps the blocks well placed, loses no block, and keeps
    -- every finalized block at its place. Conditions: the blocks are well placed before, the clock has
    -- time, and the hash of the new block, if there is one, is new.
    pub add_block-Grows :
        (txs : List Transaction) (bc : Blockchain) (stored : Option S) {r : Added S}
        → IsEngine bc
        → HasTime bc
        → add_block c store random txs bc stored ≡ some r
        → lookup r.hash bc.blocks ≡ none
        → Grows bc r.engine
    unfolding add_block
    add_block-Grows txs bc stored {r} engine time h fresh = elim (List-cases bc.validators) [
      | inl nobody ↦ unchanged bc engine (ground arith)
      | inr (v, vs, some_validators) ↦ elim (Option-cases bc.poh) [
        | inl stopped ↦ unchanged bc engine (ground arith)
        | inr (clock, running) ↦
            let soon : clock.current_tick + ticks_per_slot < word = rw running at time in
            let (prev, tip) = tip-found bc.blocks bc.canonical_tip engine.walked in
            let turn = next_turn c clock bc in
            let moved = next_turn-Moves clock bc running soon in
            let chosen = choose_txs txs turn.producer turn.engine in
            let ready = choose_txs-Moves txs turn.producer turn.engine in
            let both = Moves-trans moved ready in
            let g = Moves-Grows engine both in
            elim (Result-cases (verify_transactions c chosen.0)) [
              | inr (e, failed) ↦
                  let same : r.engine ≡ slash_leader turn.leader chosen.1 = ground arith in
                  rw same
                    (Grows-trans g (Moves-Grows g.engine (slash_leader-Moves turn.leader chosen.1)))
              | inl (u, verified) ↦
                  let tried : build c store random turn prev chosen.1.state chosen.0 chosen.1 stored
                      ≡ some r =
                    ground arith in
                  Grows-trans g (
                    build-Grows c digests store random turn prev chosen.1.state chosen.0 chosen.1
                      stored {r = r} g.engine
                      (λ next.
                        draft-IsReady clock bc chosen.1 bc.canonical_tip prev chosen.0 next engine
                          running soon tip ready)
                      tried (rw both.blocks fresh))
            ]
      ]
    ]

    -- A call of AddBlockExternal, whatever its outcome, keeps the blocks well placed, loses no block, and
    -- keeps every finalized block at its place. Conditions: as for AddBlock.
    pub add_block_external-Grows :
        (prev_hash : Bytes) (txs : List Transaction) (bc : Blockchain) (stored : Option S)
        {r : Added S}
        → IsEngine bc
        → HasTime bc
        → add_block_external c store random prev_hash txs bc stored ≡ some r
        → lookup r.hash bc.blocks ≡ none
        → Grows bc r.engine
    unfolding add_block_external
    add_block_external-Grows prev_hash txs bc stored {r} engine time h fresh =
        elim (List-cases bc.validators) [
          | inl nobody ↦ unchanged bc engine (ground arith)
          | inr (v, vs, some_validators) ↦ elim (Option-cases bc.poh) [
            | inl stopped ↦ unchanged bc engine (ground arith)
            | inr (clock, running) ↦ elim (Option-cases (lookup prev_hash bc.blocks)) [
              | inl unknown ↦ unchanged bc engine (ground arith)
              | inr (parent, found) ↦
                  let soon : clock.current_tick + ticks_per_slot < word = rw running at time in
                  let turn = next_turn c clock bc in
                  let moved = next_turn-Moves clock bc running soon in
                  let g = Moves-Grows engine moved in
                  elim (Result-cases (verify_transactions c txs)) [
                    | inr (e, failed) ↦
                        let same : r.engine ≡ slash_leader turn.leader turn.engine = ground arith in
                        rw same (
                          Grows-trans g
                            (Moves-Grows g.engine (slash_leader-Moves turn.leader turn.engine)))
                    | inl (u, verified) ↦
                        elim (Option-cases (state_at_tip c turn.engine prev_hash)) [
                          | inl endless ↦ absurd (ground arith)
                          | inr (replayed, walked) ↦ elim (Result-cases replayed) [
                            | inr (e, failed) ↦
                                let same : r.engine ≡ turn.engine = ground arith in rw same g
                            | inl (state, good) ↦
                                let tried : build c store random turn parent state txs turn.engine
                                      stored
                                    ≡ some r =
                                  ground arith in
                                Grows-trans g (
                                  build-Grows c digests store random turn parent state txs
                                    turn.engine stored {r = r} g.engine
                                    (λ next.
                                      draft-IsReady clock bc turn.engine prev_hash parent txs next
                                        engine running soon found (Moves-refl turn.engine))
                                    tried (rw moved.blocks fresh))
                          ]
                        ]
                  ]
            ]
          ]
        ]
