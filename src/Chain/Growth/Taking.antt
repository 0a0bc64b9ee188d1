-- ===== src/Chain/Growth/Taking.antt =====
-- Taking in a block in core/blockchain.go: that each part of it returns.
use xenium.Prelude.{
  ℕ, ◌+◌, ◌-◌, ◌<◌, ◌≤◌, ◌≡◌, refl, ◌∙◌, inl, inr, Option, none, some, List, [], ◌∷◌, arith, leb,
  nat_beq, Bool-cases, Option-cases, false,
}
use xenium.Prelude.Bytes.{Bytes, bytes_key}
use xenium.Prelude.Int.{word}
use xenium.Dict.{lookup, lookup-insert_self}
use xenium.Domain.{Block, Transaction, PrivateKey, Error, Result-cases, ok, err}
use xenium.Crypto.{Crypto}
use xenium.Ports.{BlockStore}
use xenium.Stake.{reward_validator}
use xenium.Signing.{sign_block, hash_block}
use xenium.Chain.{Blockchain}
use xenium.Chain.Walk.{Blocks}
use xenium.Chain.Score.{chain_tip_slot}
use xenium.Chain.Canonical.Total.{update_canonical_total}
use xenium.Chain.Slots.{
  insert_block, register_slot_producer, process_missed_slots, process_slots, handle_equivocation,
  note_producer,
}
use xenium.Chain.Blocks.{Added, select_txs_for_block, choose_txs, take_in, save_and_take_in}
use xenium.Chain.Growth.{IsPlaced, IsGrown, IsGrown-IsRanked}
use xenium.Chain.Growth.Walks.{AllFound, chain_from_tip-AllFound}
use xenium.Chain.Growth.Moves.{now, register_slot_producer-Moves, process_missed_slots-Moves}
use xenium.Chain.Growth.Canonical.{IsEngine, tip_of_walk, update_canonical-IsSteady}
use xenium.Chain.Growth.Adding.{
  Moves-Grows, IsPlaced-Moves, insert_block-Grows, update_canonical-Grows,
}

last_slot_lem :
    (blocks : Blocks) (time : ℕ) (chain : List Block)
    → IsGrown blocks time
    → AllFound blocks chain
    → chain_tip_slot chain ≤ time
unfolding chain_tip_slot
last_slot_lem blocks time [] grown found = omega arith
last_slot_lem blocks time (b ∷ []) grown found = (grown.at b.hash b found.0).early
last_slot_lem blocks time (a ∷ b ∷ bs) grown found =
    last_slot_lem blocks time (b ∷ bs) grown found.1

-- The canonical chain is not ahead of the clock.
chain_tip_slot-le-now : (bc : Blockchain) → IsEngine bc → chain_tip_slot bc.chain ≤ now bc
chain_tip_slot-le-now bc engine =
    last_slot_lem bc.blocks (now bc) bc.chain engine.grown
      (chain_from_tip-AllFound bc.blocks (now bc) engine.grown bc.canonical_tip engine.walked)

-- What a call that fails returns.
abbrev pub failed_with : {S : Type 0} → Error → Blockchain → Option S → Added S
failed_with e bc stored = record { hash = []; outcome = err e; engine = bc; stored = stored }

now_lem : (bc bc' : Blockchain) → bc'.poh ≡ bc.poh → now bc' ≡ now bc
now_lem bc bc' same = rw same refl

poh-register_slot_producer :
    (b : Block) (bc : Blockchain) → (insert_block b (register_slot_producer b bc).1).poh ≡ bc.poh
unfolding register_slot_producer handle_equivocation note_producer insert_block
poh-register_slot_producer b bc = ground arith

pub choosing_keeps_time :
    (txs : List Transaction) (producer : Bytes) (bc : Blockchain)
    → now bc < word - 1
    → now (choose_txs txs producer bc).1 < word - 1
unfolding choose_txs select_txs_for_block
choosing_keeps_time [] producer bc time = ground arith
choosing_keeps_time (tx ∷ txs) producer bc time = time

module _ (c : Crypto) where
  process_missed_slots_total :
      (target : ℕ) (bc : Blockchain)
      → target < word - 1
      → (bc' : Blockchain) × (process_missed_slots c target bc ≡ some bc')
  unfolding process_missed_slots
  process_missed_slots_total target bc small =
      elim (Bool-cases (leb target bc.last_processed_slot)) [
        | inl past ↦ (bc, rw (process_missed_slots, past) refl)
        | inr ahead ↦
            let finite : nat_beq target (word - 1) ≡ false = ground arith in
            (
              record (process_slots c (target - bc.last_processed_slot) (bc.last_processed_slot + 1)
                  bc) { last_processed_slot = target },
              rw (process_missed_slots, ahead, finite) refl,
            )
      ]

  module _ {S : Type 0} (store : BlockStore S) (leader : Bytes) (b : Block) where
    -- Taking in a block returns, and the block is there afterwards.
    pub take_in_returns :
        (bc : Blockchain) (stored : Option S)
        → IsEngine bc
        → IsPlaced bc.blocks (now bc) b.hash b
        → lookup b.hash bc.blocks ≡ none
        → now bc < word - 1
        → (r : Added S) × (take_in c store leader b bc stored ≡ some r)
          × (r.hash ≡ b.hash)
          × (lookup b.hash r.engine.blocks ≡ some b)
          × (r.outcome ≡ (register_slot_producer b bc).0)
    unfolding take_in insert_block
    take_in_returns bc stored engine placed fresh time =
        let registered = (register_slot_producer b bc).1 in
        let m = register_slot_producer-Moves b bc in
        let g = Moves-Grows engine m in
        let new : lookup b.hash registered.blocks ≡ none = rw m.blocks fresh in
        let inserted = insert_block-Grows b registered g.engine new (IsPlaced-Moves b m placed) in
        let at = insert_block b registered in
        let ((accepted, chosen), done) =
          update_canonical_total c at (IsGrown-IsRanked at.blocks (now at) inserted.engine.grown)
            b.hash in
        let chose = update_canonical-Grows c b.hash at inserted.engine done in
        let steady =
          update_canonical-IsSteady c b.hash at
            (tip_of_walk at.blocks at.canonical_tip inserted.engine.walked) done in
        let rewarded = record chosen { validators = reward_validator chosen.validators leader } in
        let same_clock : now chosen ≡ now bc =
          now_lem bc chosen (steady.poh ∙ poh-register_slot_producer b bc) in
        let low = chain_tip_slot-le-now chosen chose.engine in
        let (last, counted) =
          process_missed_slots_total (chain_tip_slot rewarded.chain) rewarded (omega arith) in
        let end = process_missed_slots-Moves c (chain_tip_slot rewarded.chain) rewarded counted in
        (
          record {
            hash = b.hash;
            outcome = (register_slot_producer b bc).0;
            engine = last;
            stored = stored;
          },
          rw (take_in, done, counted) refl,
          refl,
          rw (end.blocks, steady.blocks) (lookup-insert_self b.hash b registered.blocks),
          refl,
        )

    pub save_and_take_in_returns :
        (bc : Blockchain) (stored : Option S)
        → IsEngine bc
        → IsPlaced bc.blocks (now bc) b.hash b
        → lookup b.hash bc.blocks ≡ none
        → now bc < word - 1
        → (r : Added S) × (save_and_take_in c store leader b bc stored ≡ some r)
    unfolding save_and_take_in
    save_and_take_in_returns bc none engine placed fresh time =
        let t = take_in_returns bc none engine placed fresh time in (t.0, t.1)
    save_and_take_in_returns bc (some s) engine placed fresh time =
        let s' = (store.save_block b s).1 in
        elim (Result-cases (store.save_block b s).0) [
          | inr (e, failed) ↦ (failed_with e bc (some s'), rw (save_and_take_in, failed) refl)
          | inl (u, saved) ↦
              let t = take_in_returns bc (some s') engine placed fresh time in
              (t.0, rw (save_and_take_in, saved) t.1)
        ]

  pub hash-sign_block :
      (random : ℕ) (priv : PrivateKey) (b : Block) {signed : Block}
      → sign_block c random (some priv) b ≡ ok signed
      → signed.hash ≡ hash_block c b
  unfolding sign_block
  hash-sign_block random priv b h = elim (Option-cases (c.sign_asn1 random priv (hash_block c b))) [
    | inl failed ↦ absurd (ground arith)
    | inr (sig, made) ↦ ground arith
  ]
