-- ===== src/Chain/Growth/Progress.antt =====
-- That AddBlock of core/blockchain.go adds the block that it makes.
use xenium.Prelude.{ℕ, ◌+◌, ◌-◌, ◌<◌, ◌≡◌, refl, ◌∙◌, Option, none, some, List, arith, nat_eq}
use xenium.Prelude.Bytes.{Bytes, bytes_key}
use xenium.Dict.{lookup}
use xenium.Domain.{Block, Transaction, State, Validator, PrivateKey, ok}
use xenium.Prelude.Int.{word}
use xenium.Crypto.{Crypto}
use xenium.Text.Hex.{hex_encode}
use xenium.Ledger.{apply_transactions}
use xenium.Poh.{Poh, ticks_per_slot}
use xenium.Signing.{sign_block}
use xenium.Signing.Transactions.{IsSound}
use xenium.Chain.{Blockchain}
use xenium.Chain.Accept.{verify_transactions, verify_block_on_accept}
use xenium.Chain.Slots.{register_slot_producer}
use xenium.Chain.Blocks.{
  Added, next_turn, draft, choose_txs, save_and_take_in, seal, build, add_block,
}
use xenium.Ports.{BlockStore}
use xenium.Chain.Growth.{IsPlaced}
use xenium.Chain.Growth.Moves.{now, Moves, Moves-trans, Moves-same, choose_txs-Moves}
use xenium.Chain.Growth.Canonical.{IsEngine}
use xenium.Chain.Growth.Adding.{Moves-Grows}
use xenium.Chain.Growth.Runs.{HasTime, next_turn-Moves}
use xenium.Chain.Growth.Returns.{slot_small}
use xenium.Chain.Growth.Taking.{take_in_returns, choosing_keeps_time}
use xenium.Chain.Growth.Honest.{IsHonest, Reach-IsHonest, new_blockchain-IsHonest}
use xenium.Chain.Growth.Making.{own_block_is_accepted}
use xenium.Chain.Growth.Reach.{System, Reach, reachable-IsEngine}
use xenium.Chain.Growth.Turns.{
  choose_txs-fields, next_turn-fields, some_there, outcome-epochs, seal_lem, turn_registers,
  turn-IsPlaced,
}
use xenium.Chain.Setup.{new_blockchain}
use xenium.Chain.{ChainConfig}
use xenium.Prelude.Int.{ℤ}

-- The store of blocks saves each block that it is given.
pub record IsSaving {S : Type 0} (store : BlockStore S) : Type 0 where
  pub saves : (b : Block) (s : S) → (store.save_block b s).0 ≡ ok tt

module _ (c : Crypto) {S : Type 0} (store : BlockStore S) (saving : IsSaving store) (leader : Bytes)
    (b : Block) where
  save_and_take_in_adds :
      (bc : Blockchain) (stored : Option S)
      → IsEngine bc
      → IsPlaced bc.blocks (now bc) b.hash b
      → lookup b.hash bc.blocks ≡ none
      → now bc < word - 1
      → (r : Added S) × (save_and_take_in c store leader b bc stored ≡ some r)
        × (r.hash ≡ b.hash)
        × (lookup b.hash r.engine.blocks ≡ some b)
        × (r.outcome ≡ (register_slot_producer b bc).0)
  unfolding save_and_take_in
  save_and_take_in_adds bc none engine placed fresh time =
      take_in_returns c store leader b bc none engine placed fresh time
  save_and_take_in_adds bc (some s) engine placed fresh time =
      let s' = (store.save_block b s).1 in
      let saved = saving.saves b s in
      let t = take_in_returns c store leader b bc (some s') engine placed fresh time in
      (t.0, rw (save_and_take_in, saved) t.1, t.2, t.3, t.4)

module _ (c : Crypto) {S : Type 0} (store : BlockStore S) (saving : IsSaving store) where
  -- The call on an engine whose blocks are well placed and that has seen no block ahead of its clock.
  add_block_adds :
      (random : ℕ) (txs : List Transaction) (bc : Blockchain) (stored : Option S) (clock : Poh)
      (prev : Block) (v : Validator) (priv : PrivateKey) (next : State) (signed : Block)
      → IsEngine bc
      → IsHonest bc
      → HasTime bc
      → bc.poh ≡ some clock
      → lookup bc.canonical_tip bc.blocks ≡ some prev
      → let turn = next_turn c clock bc in
        let (chosen, ready) = choose_txs txs turn.producer turn.engine in
        IsSound c priv
        → verify_transactions c chosen ≡ ok tt
        → apply_transactions ready.state chosen turn.producer ≡ ok next
        → lookup turn.leader bc.validators ≡ some v
        → v.priv_key ≡ some priv
        → v.pub_key ≡ hex_encode priv.public_point
        → sign_block c random (some priv) (draft c turn prev chosen next) ≡ ok signed
        → lookup signed.hash bc.blocks ≡ none
        → (r : Added S) × (add_block c store random txs bc stored ≡ some r)
          × (r.hash ≡ signed.hash)
          × (lookup signed.hash r.engine.blocks ≡ some signed)
          × (r.outcome ≡ ok tt)
  unfolding add_block build
  add_block_adds random txs bc stored clock prev v priv next signed engine honest time running tip
        sound good applied known key pair made fresh =
      let soon : clock.current_tick + ticks_per_slot < word = rw running at time in
      let turn = next_turn c clock bc in
      let chosen = choose_txs txs turn.producer turn.engine in
      let ready = choose_txs-Moves txs turn.producer turn.engine in
      let both = Moves-trans (next_turn-Moves c clock bc running soon) ready in
      let (epochs, config, validators) = choose_txs-fields txs turn.producer turn.engine in
      let (config', validators') = next_turn-fields c clock bc in
      let accepted =
        own_block_is_accepted c clock bc chosen.1 prev chosen.0 chosen.1.state next random priv v
          signed sound epochs (config ∙ config') (validators ∙ validators') good applied known pair
          made in
      let verified = verify_block_on_accept c prev signed chosen.1.state chosen.1 in
      let asked = record chosen.1 { epochs = verified.1 } in
      let same : Moves chosen.1 asked = Moves-same chosen.1 asked refl refl refl refl refl refl in
      let g = Moves-Grows engine (Moves-trans both same) in
      let placed =
        turn-IsPlaced c clock bc running soon random txs prev next signed priv sound engine tip
          made in
      let small = choosing_keeps_time txs turn.producer turn.engine (slot_small c clock bc soon) in
      let new : lookup signed.hash chosen.1.blocks ≡ none = rw both.blocks fresh in
      let (r, returned, hash, there, outcome) =
        save_and_take_in_adds c store saving turn.leader signed asked stored g.engine placed new
          small in
      let sealed : seal c store random turn prev chosen.1.state (draft c turn prev chosen.0 next)
            chosen.1 stored
          ≡ some r =
        seal_lem c store random turn prev chosen.1.state (draft c turn prev chosen.0 next) signed
          chosen.1 stored v priv (rw (validators, validators') known) key made accepted
        ∙ returned in
      let (first, others, some_validators) = some_there turn.leader bc.validators known in
      let registers =
        turn_registers c clock bc running soon random txs prev next signed priv honest made in
      (
        r,
        ground arith,
        hash,
        there,
        outcome ∙ outcome-epochs signed chosen.1 verified.1 ∙ registers,
      )

  -- AddBlock makes progress in every state that a run reaches from NewBlockchain: it returns with no error and the hash
  -- of the block that its turn drafts on the canonical tip, and that block is in the engine afterwards. Conditions: the
  -- clock runs and has time for another slot; the transactions are verified and can be applied; the leader of the slot is
  -- registered with a private key and the public key that belongs to it; signing succeeds; the store, if there is one,
  -- saves; no block that is there has the new hash; and the crypto packages do what the program relies on.
  pub add_block_succeeds :
      (int63 : ℤ → ℤ) (reading : Option ℤ) (cfg : ChainConfig) (first : Blockchain)
      (kept : Option S) {s : System S}
      → new_blockchain c int63 reading cfg ≡ some first
      → Reach c store (record { engine = first; stored = kept }) s
      → (random : ℕ) (txs : List Transaction) (clock : Poh) (prev : Block) (v : Validator)
        (priv : PrivateKey) (next : State) (signed : Block)
      → HasTime s.engine
      → s.engine.poh ≡ some clock
      → lookup s.engine.canonical_tip s.engine.blocks ≡ some prev
      → let turn = next_turn c clock s.engine in
        let (chosen, ready) = choose_txs txs turn.producer turn.engine in
        IsSound c priv
        → verify_transactions c chosen ≡ ok tt
        → apply_transactions ready.state chosen turn.producer ≡ ok next
        → lookup turn.leader s.engine.validators ≡ some v
        → v.priv_key ≡ some priv
        → v.pub_key ≡ hex_encode priv.public_point
        → sign_block c random (some priv) (draft c turn prev chosen next) ≡ ok signed
        → lookup signed.hash s.engine.blocks ≡ none
        → (r : Added S) × (add_block c store random txs s.engine s.stored ≡ some r)
          × (r.hash ≡ signed.hash)
          × (lookup signed.hash r.engine.blocks ≡ some signed)
          × (r.outcome ≡ ok tt)
  add_block_succeeds int63 reading cfg first kept {s} begun run random txs clock prev v priv next
        signed time running tip sound good applied known key pair made fresh =
      add_block_adds random txs s.engine s.stored clock prev v priv next signed
        (reachable-IsEngine c sound.digest store int63 reading cfg first kept begun run)
        (Reach-IsHonest c store run (new_blockchain-IsHonest c int63 reading cfg first begun)) time
        running tip sound good applied known key pair made fresh
