-- ===== src/Chain/Growth/Making.antt =====
-- The block that AddBlock of core/blockchain.go makes, under its own checks.
use xenium.Prelude.{
  ℕ, ◌≡◌, refl, not, inl, inr, some, List, arith, ◌==◌, ==_iff, Option-cases, false, nat_eq,
}
use xenium.Prelude.Bytes.{Bytes, bytes_key}
use xenium.Dict.{lookup}
use xenium.Domain.{Block, Transaction, State, Validator, PrivateKey, ok}
use xenium.Crypto.{Crypto}
use xenium.Text.Hex.{hex_encode}
use xenium.Leader.{leader_from_snapshot}
use xenium.Ledger.{apply_transactions}
use xenium.Poh.{Poh, slot, tick, ticks_per_slot}
use xenium.Signing.{sign_block, hash_block, tx_root, state_root, verify_block_signature}
use xenium.Signing.Transactions.{IsSound}
use xenium.Signing.Blocks.{verify-sign_block}
use xenium.Chain.{Blockchain, EpochSnapshot}
use xenium.Chain.Epoch.{
  epoch_for_slot, ensure_snapshot_for_slot, snapshot_for_slot, leader_for_slot,
}
use xenium.Chain.Epoch.Frozen.{snapshot_for_slot-some}
use xenium.Chain.Rebuild.{validator_reward_address}
use xenium.Chain.Accept.{
  verify_transactions, verify_leader_snapshot, verify_result, verify_content,
  verify_block_on_accept,
}
use xenium.Chain.Blocks.{next_turn, draft}
use xenium.Chain.Growth.Frozen.{snapshot_for_slot-there}

module _ (c : Crypto) where
  -- After a turn the snapshot that its leader was drawn from is there.
  turn-snapshot :
      (clock : Poh) (bc : Blockchain)
      → let turn = next_turn c clock bc in
        (s : EpochSnapshot) × (lookup
            (epoch_for_slot bc.config (slot turn.clock))
            turn.engine.epochs.snapshots
          ≡ some s)
        × (leader_from_snapshot c (slot turn.clock) s.validators ≡ turn.leader)
  unfolding next_turn leader_for_slot snapshot_for_slot
  turn-snapshot clock bc =
      let now = slot (tick c ticks_per_slot clock) in
      let ensured = ensure_snapshot_for_slot c bc now bc.epochs in
      let (s, there) = snapshot_for_slot-some c bc now ensured in
      (s, unfold snapshot_for_slot in there, ground (arith, there))

  signed-fields :
      (random : ℕ) (priv : PrivateKey) (b : Block) {signed : Block}
      → sign_block c random (some priv) b ≡ ok signed
      → (sig : Bytes) × (signed ≡ record b { signature = sig; hash = hash_block c b })
  unfolding sign_block
  signed-fields random priv b {signed} h =
      elim (Option-cases (c.sign_asn1 random priv (hash_block c b))) [
        | inl failed ↦ absurd (ground arith)
        | inr (sig, made) ↦ (sig, ground arith)
      ]

  same_passes : (a b : Bytes) → a ≡ b → not (a == b) ≡ false
  same_passes a b e = ground (arith, ==_iff a b)

  -- The parts of the check, on the block's fields.
  passes :
      (prev b : Block) (state next : State) (bc : Blockchain) (s : EpochSnapshot) (v : Validator)
      → b.prev_hash ≡ prev.hash
      → (snapshot_for_slot c bc b.slot bc.epochs).0 ≡ some s
      → leader_from_snapshot c b.slot s.validators ≡ b.validator
      → verify_transactions c b.transactions ≡ ok tt
      → tx_root c b.transactions ≡ b.tx_root
      → apply_transactions state b.transactions
          (validator_reward_address c bc.validators b.validator)
        ≡ ok next
      → state_root c next ≡ b.state_root
      → lookup b.validator bc.validators ≡ some v
      → verify_block_signature c b v.pub_key ≡ ok tt
      → (verify_block_on_accept c prev b state bc).0 ≡ ok tt
  unfolding verify_block_on_accept verify_content verify_leader_snapshot verify_result
  passes prev b state next bc s v linked there leads good listed applied left known sealed =
      ground (
        arith,
        same_passes b.prev_hash prev.hash linked,
        same_passes (leader_from_snapshot c b.slot s.validators) b.validator leads,
        same_passes (tx_root c b.transactions) b.tx_root listed,
        same_passes (state_root c next) b.state_root left,
      )

  -- The engine accepts what it makes itself: a block that a turn drafts on `prev` and the leader signs passes
  -- verifyBlockOnAccept. Conditions: the engine is that of the turn, but for what the pool of transactions changes;
  -- the transactions are verified and can be applied; the leader's public key belongs to its private one; and the
  -- crypto packages do what the program relies on.
  pub own_block_is_accepted :
      (clock : Poh) (bc bc' : Blockchain) (prev : Block) (txs : List Transaction)
      (state next : State) (random : ℕ) (priv : PrivateKey) (v : Validator) (signed : Block)
      → let turn = next_turn c clock bc in
        IsSound c priv
        → bc'.epochs ≡ turn.engine.epochs
        → bc'.config ≡ bc.config
        → bc'.validators ≡ bc.validators
        → verify_transactions c txs ≡ ok tt
        → apply_transactions state txs turn.producer ≡ ok next
        → lookup turn.leader bc.validators ≡ some v
        → v.pub_key ≡ hex_encode priv.public_point
        → sign_block c random (some priv) (draft c turn prev txs next) ≡ ok signed
        → (verify_block_on_accept c prev signed state bc').0 ≡ ok tt
  unfolding draft
  own_block_is_accepted clock bc bc' prev txs state next random priv v signed sound epochs config
        validators good applied known pair made =
      let turn = next_turn c clock bc in
      let (s, there, leads) = turn-snapshot clock bc in
      let found : lookup (epoch_for_slot bc'.config (slot turn.clock)) bc'.epochs.snapshots
          ≡ some s =
        rw (epochs, config) there in
      let read = snapshot_for_slot-there c bc' (slot turn.clock) s found in
      let sealed = verify-sign_block c priv sound random (draft c turn prev txs next) signed made in
      let (sig, fields) = signed-fields random priv (draft c turn prev txs next) made in
      passes prev signed state next bc' s v (rw fields refl) (rw fields read) (rw fields leads)
        (rw fields good) (rw fields refl) (rw (fields, validators) (unfold next_turn in applied))
        (rw fields refl) (rw (fields, validators) known) (rw pair sealed)
