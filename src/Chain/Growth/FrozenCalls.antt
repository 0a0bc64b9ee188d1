-- ===== src/Chain/Growth/FrozenCalls.antt =====
-- The epoch snapshots of core/blockchain.go over each call.
use xenium.Prelude.{
  ℕ, ◌≡◌, refl, inl, inr, Option, none, some, List, arith, Option-cases, List-cases, nat_eq, get_or,
}
use xenium.Prelude.Bytes.{Bytes, bytes_key}
use xenium.Prelude.Int.{ℤ}
use xenium.Dict.{lookup}
use xenium.Domain.{Block, Transaction, State, PrivateKey, Result-cases}
use xenium.Crypto.{Crypto}
use xenium.Ports.{BlockStore}
use xenium.Ledger.{apply_transactions}
use xenium.Stake.{reward_validator}
use xenium.Signing.{sign_block}
use xenium.Chain.{Blockchain}
use xenium.Chain.Score.{chain_tip_slot}
use xenium.Chain.Rebuild.{state_at_tip}
use xenium.Chain.Canonical.{update_canonical}
use xenium.Chain.Slots.{process_missed_slots, insert_block, register_slot_producer}
use xenium.Chain.Accept.{verify_transactions, verify_block_on_accept}
use xenium.Chain.Setup.{set_balance, register_validator, add_tx, reset_reorg_stats}
use xenium.Chain.Blocks.{
  Added, Turn, zero_block, slash_leader, next_turn, choose_txs, draft, take_in, save_and_take_in,
  seal, build, add_block, add_block_external,
}
use xenium.Chain.Growth.Freezing.{
  Freezes, Freezes-trans, Freezes-same, Freezes-refl, slash_leader-Freezes, choose_txs-Freezes,
  register_slot_producer-Freezes, insert_block-Freezes, process_missed_slots-Freezes,
  update_canonical-Freezes, next_turn-Freezes, verify_block_on_accept-Freezes,
}

unchanged : (bc : Blockchain) {bc' : Blockchain} → bc' ≡ bc → Freezes bc bc'
unchanged bc same = rw same (Freezes-refl bc)

slashed :
    (leader : Bytes) (bc : Blockchain) {bc' : Blockchain}
    → bc' ≡ slash_leader leader bc
    → Freezes bc bc'
slashed leader bc same = rw same (slash_leader-Freezes leader bc)

module _ (c : Crypto) {S : Type 0} (store : BlockStore S) where
  take_in-Freezes :
      (leader : Bytes) (b : Block) (bc : Blockchain) (stored : Option S) {r : Added S}
      → take_in c store leader b bc stored ≡ some r
      → Freezes bc r.engine
  unfolding take_in
  take_in-Freezes leader b bc stored {r} h =
      let registered = (register_slot_producer b bc).1 in
      elim (Option-cases (update_canonical c b.hash (insert_block b registered))) [
        | inl endless ↦ absurd (ground arith)
        | inr ((accepted, chosen), done) ↦
            let rewarded = record chosen {
              validators = reward_validator chosen.validators leader;
            } in
            elim (Option-cases (process_missed_slots c (chain_tip_slot rewarded.chain) rewarded)) [
              | inl endless ↦ absurd (ground arith)
              | inr (last, counted) ↦
                  let same : r.engine ≡ last = ground arith in
                  rw same (
                    Freezes-trans (register_slot_producer-Freezes b bc) (
                      Freezes-trans (insert_block-Freezes b registered) (
                        Freezes-trans
                          (update_canonical-Freezes c b.hash (insert_block b registered) done)
                          (Freezes-trans (Freezes-same chosen rewarded refl refl) (
                            process_missed_slots-Freezes c (chain_tip_slot rewarded.chain) rewarded
                              counted)))))
            ]
      ]

  save_and_take_in-Freezes :
      (leader : Bytes) (b : Block) (bc : Blockchain) (stored : Option S) {r : Added S}
      → save_and_take_in c store leader b bc stored ≡ some r
      → Freezes bc r.engine
  unfolding save_and_take_in
  save_and_take_in-Freezes leader b bc none h = take_in-Freezes leader b bc none h
  save_and_take_in-Freezes leader b bc (some s) {r} h =
      elim (Result-cases (store.save_block b s).0) [
        | inr (e, failed) ↦ unchanged bc (ground arith)
        | inl (u, saved) ↦
            take_in-Freezes leader b bc (some (store.save_block b s).1) {r = r} (ground arith)
      ]

  module _ (random : ℕ) (turn : Turn) (prev : Block) (state : State) where
    seal-Freezes :
        (b : Block) (bc : Blockchain) (stored : Option S) {r : Added S}
        → seal c store random turn prev state b bc stored ≡ some r
        → Freezes bc r.engine
    unfolding seal
    seal-Freezes b bc stored {r} h = elim (Option-cases (lookup turn.leader bc.validators)) [
      | inl missing ↦ slashed turn.leader bc (ground arith)
      | inr (v, there) ↦ elim (Option-cases v.priv_key) [
        | inl no_key ↦ slashed turn.leader bc (ground arith)
        | inr (priv, key) ↦ elim (Result-cases (sign_block c random (some priv) b)) [
          | inr (e, failed) ↦ slashed turn.leader bc (ground arith)
          | inl (signed, done) ↦
              let verified = verify_block_on_accept c prev signed state bc in
              let asked = record bc { epochs = verified.1 } in
              let same : Freezes bc asked = verify_block_on_accept-Freezes c prev signed state bc in
              elim (Result-cases verified.0) [
                | inr (e, refused) ↦ Freezes-trans same (slashed turn.leader asked (ground arith))
                | inl (u, accepted) ↦ Freezes-trans same (
                    save_and_take_in-Freezes turn.leader signed asked stored {r = r} (ground arith))
              ]
        ]
      ]
    ]

    build-Freezes :
        (txs : List Transaction) (bc : Blockchain) (stored : Option S) {r : Added S}
        → build c store random turn prev state txs bc stored ≡ some r
        → Freezes bc r.engine
    unfolding build
    build-Freezes txs bc stored {r} h =
        elim (Result-cases (apply_transactions state txs turn.producer)) [
          | inr (e, failed) ↦ slashed turn.leader bc (ground arith)
          | inl (left, applied) ↦
              seal-Freezes (draft c turn prev txs left) bc stored {r = r} (ground arith)
        ]

  pub add_block-Freezes :
      (random : ℕ) (txs : List Transaction) (bc : Blockchain) (stored : Option S) {r : Added S}
      → add_block c store random txs bc stored ≡ some r
      → Freezes bc r.engine
  unfolding add_block
  add_block-Freezes random txs bc stored {r} h = elim (List-cases bc.validators) [
    | inl nobody ↦ unchanged bc (ground arith)
    | inr (v, vs, some_validators) ↦ elim (Option-cases bc.poh) [
      | inl stopped ↦ unchanged bc (ground arith)
      | inr (clock, running) ↦
          let prev = get_or (lookup bc.canonical_tip bc.blocks) zero_block in
          let turn = next_turn c clock bc in
          let chosen = choose_txs txs turn.producer turn.engine in
          let both =
            Freezes-trans (next_turn-Freezes c clock bc)
              (choose_txs-Freezes txs turn.producer turn.engine) in
          elim (Result-cases (verify_transactions c chosen.0)) [
            | inr (e, failed) ↦ Freezes-trans both (slashed turn.leader chosen.1 (ground arith))
            | inl (u, verified) ↦ Freezes-trans both (
                build-Freezes random turn prev chosen.1.state chosen.0 chosen.1 stored {r = r}
                  (ground arith))
          ]
    ]
  ]

  pub add_block_external-Freezes :
      (random : ℕ) (prev_hash : Bytes) (txs : List Transaction) (bc : Blockchain)
      (stored : Option S) {r : Added S}
      → add_block_external c store random prev_hash txs bc stored ≡ some r
      → Freezes bc r.engine
  unfolding add_block_external
  add_block_external-Freezes random prev_hash txs bc stored {r} h =
      elim (List-cases bc.validators) [
        | inl nobody ↦ unchanged bc (ground arith)
        | inr (v, vs, some_validators) ↦ elim (Option-cases bc.poh) [
          | inl stopped ↦ unchanged bc (ground arith)
          | inr (clock, running) ↦ elim (Option-cases (lookup prev_hash bc.blocks)) [
            | inl unknown ↦ unchanged bc (ground arith)
            | inr (parent, found) ↦
                let turn = next_turn c clock bc in
                let moved = next_turn-Freezes c clock bc in
                elim (Result-cases (verify_transactions c txs)) [
                  | inr (e, failed) ↦
                      Freezes-trans moved (slashed turn.leader turn.engine (ground arith))
                  | inl (u, verified) ↦ elim (Option-cases (state_at_tip c turn.engine prev_hash)) [
                    | inl endless ↦ absurd (ground arith)
                    | inr (replayed, walked) ↦ elim (Result-cases replayed) [
                      | inr (e, failed) ↦ Freezes-trans moved (unchanged turn.engine (ground arith))
                      | inl (state, good) ↦ Freezes-trans moved (
                          build-Freezes random turn parent state txs turn.engine stored {r = r}
                            (ground arith))
                    ]
                  ]
                ]
          ]
        ]
      ]

pub set_balance-Freezes :
    (address : Bytes) (amount : ℤ) (bc : Blockchain) → Freezes bc (set_balance address amount bc)
unfolding set_balance
set_balance-Freezes address amount bc =
    Freezes-same bc (set_balance address amount bc) (ground arith) (ground arith)

pub register_validator-Freezes :
    (name : Bytes) (stake : ℤ) (pub_key : Bytes) (priv : Option PrivateKey) (bc : Blockchain)
    → Freezes bc (register_validator name stake pub_key priv bc).1
unfolding register_validator
register_validator-Freezes name stake pub_key priv bc =
    Freezes-same bc (register_validator name stake pub_key priv bc).1 (ground arith) (ground arith)

pub add_tx-Freezes :
    (c : Crypto) (tx : Transaction) (bc : Blockchain) → Freezes bc (add_tx c tx bc).1
unfolding add_tx
add_tx-Freezes c tx bc = Freezes-same bc (add_tx c tx bc).1 (ground arith) (ground arith)

pub reset_reorg_stats-Freezes : (bc : Blockchain) → Freezes bc (reset_reorg_stats bc)
unfolding reset_reorg_stats
reset_reorg_stats-Freezes bc = Freezes-same bc (reset_reorg_stats bc) refl refl
