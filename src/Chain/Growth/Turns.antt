-- ===== src/Chain/Growth/Turns.antt =====
-- A turn of AddBlock of core/blockchain.go: what it leaves alone, and the block that it makes.
use mathlib.Core.Path.{subst, sym}
use xenium.Prelude.{ℕ, ◌+◌, ◌<◌, ◌≡◌, refl, Option, some, List, [], ◌∷◌, arith, nat_eq}
use xenium.Prelude.Bytes.{Bytes, bytes_key}
use xenium.Dict.{Dict, lookup}
use xenium.Domain.{Block, Transaction, State, Validator, PrivateKey, ok}
use xenium.Prelude.Int.{word}
use xenium.Crypto.{Crypto}
use xenium.Poh.{Poh, ticks_per_slot}
use xenium.Signing.{sign_block}
use xenium.Signing.Transactions.{IsSound}
use xenium.Chain.{Blockchain, Epochs}
use xenium.Chain.Accept.{verify_block_on_accept}
use xenium.Chain.Slots.{register_slot_producer, producers_of}
use xenium.Chain.Blocks.{
  Turn, next_turn, draft, choose_txs, select_txs_for_block, save_and_take_in, seal,
}
use xenium.Ports.{BlockStore}
use xenium.Chain.Growth.{IsPlaced}
use xenium.Chain.Growth.Moves.{now, choose_txs-Moves}
use xenium.Chain.Growth.Canonical.{IsEngine}
use xenium.Chain.Growth.Sealing.{signed-IsPlaced}
use xenium.Chain.Growth.Runs.{draft-IsReady}
use xenium.Chain.Growth.Leaving.{choose_txs-Leaves}
use xenium.Chain.Growth.Quiet.{
  IsClear, IsClear-Leaves, register_slot_producer-IsClear, slot-sign_block,
}
use xenium.Chain.Growth.Honest.{IsHonest, next_turn-IsClear}

pub choose_txs-fields :
    (txs : List Transaction) (producer : Bytes) (bc : Blockchain)
    → let ready = (choose_txs txs producer bc).1 in
      (ready.epochs ≡ bc.epochs) × (ready.config ≡ bc.config) × (ready.validators ≡ bc.validators)
unfolding choose_txs select_txs_for_block
choose_txs-fields [] producer bc = (ground arith, ground arith, ground arith)
choose_txs-fields (tx ∷ txs) producer bc = (refl, refl, refl)

pub next_turn-fields :
    (c : Crypto) (clock : Poh) (bc : Blockchain)
    → let turn = next_turn c clock bc in
      (turn.engine.config ≡ bc.config) × (turn.engine.validators ≡ bc.validators)
unfolding next_turn
next_turn-fields c clock bc = (refl, refl)

pub some_there :
    {A : Type 0} (k : Bytes) (d : Dict Bytes A) {a : A}
    → lookup k d ≡ some a
    → (x : Bytes × A) × (rest : Dict Bytes A) × (d ≡ x ∷ rest)
unfolding lookup
some_there k [] h = cc
some_there k (x ∷ rest) h = (x, rest, refl)

pub outcome-epochs :
    (b : Block) (bc : Blockchain) (e : Epochs)
    → (register_slot_producer b (record bc { epochs = e })).0 ≡ (register_slot_producer b bc).0
unfolding register_slot_producer producers_of
outcome-epochs b bc e = ground arith

pub seal_lem :
    (c : Crypto) {S : Type 0} (store : BlockStore S) (random : ℕ) (turn : Turn) (prev : Block)
    (state : State) (b signed : Block) (bc : Blockchain) (stored : Option S) (v : Validator)
    (priv : PrivateKey)
    → lookup turn.leader bc.validators ≡ some v
    → v.priv_key ≡ some priv
    → sign_block c random (some priv) b ≡ ok signed
    → (verify_block_on_accept c prev signed state bc).0 ≡ ok tt
    → seal c store random turn prev state b bc stored
      ≡ save_and_take_in c store turn.leader signed
          (record bc { epochs = (verify_block_on_accept c prev signed state bc).1 })
          stored
unfolding seal
seal_lem c store random turn prev state b signed bc stored v priv known key made accepted =
    rw (seal, known, key, made, accepted) refl

module _ (c : Crypto) (clock : Poh) (bc : Blockchain) (running : bc.poh ≡ some clock)
    (soon : clock.current_tick + ticks_per_slot < word) (random : ℕ) (txs : List Transaction)
    (prev : Block) (next : State) (signed : Block) (priv : PrivateKey) where
  abbrev turn : Turn
  turn = next_turn c clock bc

  abbrev chosen : List Transaction × Blockchain
  chosen = choose_txs txs turn.producer turn.engine

  -- The block of the turn is the first one of its slot.
  pub turn_registers :
      IsHonest bc
      → sign_block c random (some priv) (draft c turn prev chosen.0 next) ≡ ok signed
      → (register_slot_producer signed chosen.1).0 ≡ ok tt
  turn_registers honest made =
      let (clear, ticked) = next_turn-IsClear c clock bc running soon honest in
      let clear' : IsClear signed.slot chosen.1 =
        subst (λ t. IsClear t chosen.1)
          (sym (slot-sign_block c random priv (draft c turn prev chosen.0 next) made))
          (unfold draft in
            IsClear-Leaves (choose_txs-Leaves txs turn.producer turn.engine) clear) in
      (register_slot_producer-IsClear signed chosen.1 clear').0

  -- The block of the turn stands on the canonical tip.
  pub turn-IsPlaced :
      IsSound c priv
      → IsEngine bc
      → lookup bc.canonical_tip bc.blocks ≡ some prev
      → sign_block c random (some priv) (draft c turn prev chosen.0 next) ≡ ok signed
      → IsPlaced chosen.1.blocks (now chosen.1) signed.hash signed
  turn-IsPlaced sound engine tip made =
      signed-IsPlaced c sound.digest random (some priv) (draft c turn prev chosen.0 next)
        chosen.1.blocks (now chosen.1)
        (draft-IsReady c clock bc chosen.1 bc.canonical_tip prev chosen.0 next engine running soon
          tip (choose_txs-Moves txs turn.producer turn.engine))
        made
