-- ===== src/Chain/Growth/Returns.antt =====
-- That the parts of AddBlock and AddBlockExternal of core/blockchain.go return.
use xenium.Prelude.{
  ℕ, ◌+◌, ◌-◌, ◌<◌, ◌≡◌, refl, inl, inr, Option, none, some, List, arith, Option-cases,
}
use xenium.Prelude.Bytes.{Bytes, bytes_key}
use xenium.Prelude.Int.{word}
use xenium.Dict.{lookup}
use xenium.Domain.{Block, Transaction, State, Result-cases, ok, missing_signing_key}
use xenium.Crypto.{Crypto}
use xenium.Ports.{BlockStore}
use xenium.Ledger.{apply_transactions}
use xenium.Poh.{Poh, slot, ticks_per_slot}
use xenium.Poh.Clock.{slot-tick}
use xenium.Poh.Verify.{IsDigest}
use xenium.Signing.{sign_block, hash_block}
use xenium.Chain.{Blockchain}
use xenium.Chain.Accept.{verify_block_on_accept}
use xenium.Chain.Blocks.{Added, Turn, slash_leader, next_turn, draft, seal, build}
use xenium.Chain.Growth.Moves.{now, Moves, Moves-same}
use xenium.Chain.Growth.Canonical.{IsEngine}
use xenium.Chain.Growth.Adding.{Moves-Grows}
use xenium.Chain.Growth.Sealing.{IsReady, signed-IsPlaced}
use xenium.Chain.Growth.Taking.{save_and_take_in_returns, failed_with, hash-sign_block}

module _ (c : Crypto) where
  -- The header that AddBlock would sign has a new hash. The block stands on `prev`.
  abbrev pub IsFresh : Turn → Block → State → List Transaction → Blockchain → Type 0
  IsFresh turn prev state txs bc =
      (next : State)
      → apply_transactions state txs turn.producer ≡ ok next
      → lookup (hash_block c (draft c turn prev txs next)) bc.blocks ≡ none

  pub slot_small :
      (clock : Poh) (bc : Blockchain)
      → clock.current_tick + ticks_per_slot < word
      → now (next_turn c clock bc).engine < word - 1
  unfolding next_turn
  slot_small clock bc time =
      let one = slot-tick c clock time in
      let small : slot clock < word - 2 = unfold slot in omega arith in omega arith

module _ (c : Crypto) (digests : (bs : Bytes) → IsDigest (c.sha256 bs)) {S : Type 0}
    (store : BlockStore S) (random : ℕ) where
  module _ (turn : Turn) (prev : Block) (state : State) where
    seal_returns :
        (b : Block) (bc : Blockchain) (stored : Option S)
        → IsEngine bc
        → IsReady bc.blocks (now bc) b
        → lookup (hash_block c b) bc.blocks ≡ none
        → now bc < word - 1
        → (r : Added S) × (seal c store random turn prev state b bc stored ≡ some r)
    unfolding seal
    seal_returns b bc stored engine ready fresh time =
        elim (Option-cases (lookup turn.leader bc.validators)) [
          | inl missing ↦ (
            failed_with missing_signing_key (slash_leader turn.leader bc) stored,
            rw (seal, missing) refl,
          )
          | inr (v, there) ↦ elim (Option-cases v.priv_key) [
            | inl no_key ↦ (
              failed_with missing_signing_key (slash_leader turn.leader bc) stored,
              rw (seal, there, no_key) refl,
            )
            | inr (priv, key) ↦ elim (Result-cases (sign_block c random (some priv) b)) [
              | inr (e, failed) ↦ (
                failed_with e (slash_leader turn.leader bc) stored,
                rw (seal, there, key, failed) refl,
              )
              | inl (signed, done) ↦
                  let verified = verify_block_on_accept c prev signed state bc in
                  let asked = record bc { epochs = verified.1 } in
                  let same : Moves bc asked = Moves-same bc asked refl refl refl refl refl refl in
                  let g = Moves-Grows engine same in
                  elim (Result-cases verified.0) [
                    | inr (e, bad) ↦ (
                      failed_with e (slash_leader turn.leader asked) stored,
                      rw (seal, there, key, done, bad) refl,
                    )
                    | inl (u, accepted) ↦
                        let new : lookup signed.hash bc.blocks ≡ none =
                          rw (hash-sign_block c random priv b done) fresh in
                        let (r, returned) =
                          save_and_take_in_returns c store turn.leader signed asked stored g.engine
                            (signed-IsPlaced c digests random (some priv) b bc.blocks (now bc) ready
                              done)
                            new time in
                        (r, rw (seal, there, key, done, accepted) returned)
                  ]
            ]
          ]
        ]

    pub build_returns :
        (txs : List Transaction) (bc : Blockchain) (stored : Option S)
        → IsEngine bc
        → ((next : State) → IsReady bc.blocks (now bc) (draft c turn prev txs next))
        → ((next : State)
            → apply_transactions state txs turn.producer ≡ ok next
            → lookup (hash_block c (draft c turn prev txs next)) bc.blocks ≡ none)
        → now bc < word - 1
        → (r : Added S) × (build c store random turn prev state txs bc stored ≡ some r)
    unfolding build
    build_returns txs bc stored engine ready fresh time =
        elim (Result-cases (apply_transactions state txs turn.producer)) [
          | inr (e, failed) ↦
              (failed_with e (slash_leader turn.leader bc) stored, rw (build, failed) refl)
          | inl (next, applied) ↦
              let (r, returned) =
                seal_returns (draft c turn prev txs next) bc stored engine (ready next)
                  (fresh next applied) time in
              (r, rw (build, applied) returned)
        ]
