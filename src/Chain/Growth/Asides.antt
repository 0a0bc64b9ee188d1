-- ===== src/Chain/Growth/Asides.antt =====
-- The calls of core/blockchain.go that make no block and choose no chain, and yet may change the engine: whoever asks
-- for a stake may make the snapshot of an epoch, and VerifyChain slashes.
use xenium.Prelude.{
  ℕ, ◌+◌, ◌≡◌, refl, ◌∙◌, inl, inr, some, Option, List, [], ◌∷◌, arith, Option-cases, Bool-cases,
  List-cases, not, ◌==◌,
}
use xenium.Prelude.Bytes.{Bytes, bytes_key}
use xenium.Prelude.Int.{ℤ}
use xenium.Domain.{Block, Checked, Result, Result-cases}
use xenium.Crypto.{Crypto}
use xenium.Poh.{parse_poh_hash_hex, verify_poh}
use xenium.Chain.{Blockchain, Epochs, SavedSnapshot}
use xenium.Chain.Epoch.{snapshot_for_slot, epoch_for_slot}
use xenium.Chain.Epoch.Frozen.{Extends, Extends-refl, Extends-trans, ensure_snapshot-Extends}
use xenium.Chain.Blocks.{slash_leader, select_txs_for_block}
use xenium.Signing.{hash_block}
use xenium.Chain.Setup.{set_storage}
use xenium.Chain.Verify.{
  Cursor, verify_block_link, verify_block_hash, verify_produced, verify_drawn, verify_next,
  verify_blocks, verify_chain,
}
use xenium.Chain.Growth.Moves.{Moves, Moves-same}
use xenium.Chain.Growth.Freezing.{Freezes}
use xenium.Chain.Growth.Leaving.{Leaves}

-- What such a call leaves alone.
pub record IsAside (bc bc' : Blockchain) : Type 0 where
  pub blocks : bc'.blocks ≡ bc.blocks
  pub canonical_tip : bc'.canonical_tip ≡ bc.canonical_tip
  pub chain : bc'.chain ≡ bc.chain
  pub finalized_slot : bc'.finalized_slot ≡ bc.finalized_slot
  pub config : bc'.config ≡ bc.config
  pub poh : bc'.poh ≡ bc.poh
  pub producers : bc'.slot_producers ≡ bc.slot_producers
  pub proofs : bc'.equivocations ≡ bc.equivocations
  pub epochs : Extends bc.epochs bc'.epochs

pub IsAside-Moves : (bc bc' : Blockchain) → IsAside bc bc' → Moves bc bc'
IsAside-Moves bc bc' a =
    Moves-same bc bc' a.blocks a.canonical_tip a.chain a.finalized_slot a.config a.poh

pub IsAside-Freezes : {bc bc' : Blockchain} → IsAside bc bc' → Freezes bc bc'
IsAside-Freezes a = record { epochs = a.epochs; config = a.config }

pub IsAside-Leaves : {bc bc' : Blockchain} → IsAside bc bc' → Leaves bc bc'
IsAside-Leaves a = record { producers = a.producers; proofs = a.proofs; clock = a.poh }

IsAside-trans : {a b d : Blockchain} → IsAside a b → IsAside b d → IsAside a d
IsAside-trans x y = record {
  blocks = y.blocks ∙ x.blocks;
  canonical_tip = y.canonical_tip ∙ x.canonical_tip;
  chain = y.chain ∙ x.chain;
  finalized_slot = y.finalized_slot ∙ x.finalized_slot;
  config = y.config ∙ x.config;
  poh = y.poh ∙ x.poh;
  producers = y.producers ∙ x.producers;
  proofs = y.proofs ∙ x.proofs;
  epochs = Extends-trans x.epochs y.epochs;
}

-- A call that changes the epochs alone.
pub asked-IsAside :
    (bc : Blockchain) (e : Epochs) → Extends bc.epochs e → IsAside bc (record bc { epochs = e })
asked-IsAside bc e more = record {
  blocks = refl;
  canonical_tip = refl;
  chain = refl;
  finalized_slot = refl;
  config = refl;
  poh = refl;
  producers = refl;
  proofs = refl;
  epochs = more;
}

IsAside-refl : (bc : Blockchain) → IsAside bc bc
IsAside-refl bc = asked-IsAside bc bc.epochs (Extends-refl bc.epochs)

pub set_storage-IsAside :
    (saved : Option (List SavedSnapshot)) (bc : Blockchain) → IsAside bc (set_storage saved bc)
unfolding set_storage
set_storage-IsAside saved bc =
    asked-IsAside bc (record bc.epochs { saved = saved }) (record { at = λ epoch s found. found })

pub select_txs-IsAside :
    (max : ℤ) (producer : Bytes) (bc : Blockchain)
    → IsAside bc (select_txs_for_block max producer bc).1
unfolding select_txs_for_block
select_txs-IsAside max producer bc =
    let same : (select_txs_for_block max producer bc).1.epochs ≡ bc.epochs = ground arith in
    record {
      blocks = ground arith;
      canonical_tip = ground arith;
      chain = ground arith;
      finalized_slot = ground arith;
      config = ground arith;
      poh = ground arith;
      producers = ground arith;
      proofs = ground arith;
      epochs = rw same (Extends-refl bc.epochs);
    }

slash_leader-IsAside : (leader : Bytes) (bc : Blockchain) → IsAside bc (slash_leader leader bc)
unfolding slash_leader
slash_leader-IsAside leader bc = record {
  blocks = refl;
  canonical_tip = refl;
  chain = refl;
  finalized_slot = refl;
  config = refl;
  poh = refl;
  producers = refl;
  proofs = refl;
  epochs = Extends-refl bc.epochs;
}

module _ (c : Crypto) where
  verify_drawn-IsAside :
      (i : ℕ) (cur : Block) (hash : Bytes) (tick : ℕ) (at : Cursor) (bc : Blockchain)
      {out : Result Cursor} {bc' : Blockchain}
      → verify_drawn c i cur hash tick at bc ≡ some (out, bc')
      → IsAside bc bc'
  unfolding verify_drawn snapshot_for_slot
  verify_drawn-IsAside i cur hash tick at bc {out} {bc'} h =
      let (snap, e) = snapshot_for_slot c bc cur.slot bc.epochs in
      let asked = record bc { epochs = e } in
      let first : IsAside bc asked =
        asked-IsAside bc e
          (ensure_snapshot-Extends c bc (epoch_for_slot bc.config cur.slot) bc.epochs) in
      elim (Option-cases snap) [
        | inl missing ↦ let same : bc' ≡ asked = ground arith in rw same first
        | inr (s, there) ↦ elim (Result-cases (verify_produced c i cur s at asked)) [
          | inr (e, failed) ↦
              let same : bc' ≡ slash_leader cur.validator asked = ground arith in
              rw same (IsAside-trans first (slash_leader-IsAside cur.validator asked))
          | inl (n, good) ↦ let same : bc' ≡ asked = ground arith in rw same first
        ]
      ]

  verify_next-IsAside :
      (i : ℕ) (prev cur : Block) (at : Cursor) (bc : Blockchain) {out : Result Cursor}
      {bc' : Blockchain}
      → verify_next c i prev cur at bc ≡ some (out, bc')
      → IsAside bc bc'
  unfolding verify_next
  verify_next-IsAside i prev cur at bc {out} {bc'} h =
      let blamed = slash_leader-IsAside cur.validator bc in
      elim (Result-cases (verify_block_link prev cur)) [
        | inr (e, failed) ↦
            let same : bc' ≡ slash_leader cur.validator bc = ground arith in rw same blamed
        | inl (u, linked) ↦
            elim (Option-cases (verify_poh c at.expected_hash at.expected_tick cur)) [
              | inl endless ↦ absurd (ground arith)
              | inr (found, ticked) ↦ elim (Result-cases found) [
                | inr (e, failed) ↦
                    let same : bc' ≡ slash_leader cur.validator bc = ground arith in rw same blamed
                | inl ((hash, tick), good) ↦ elim (Result-cases (verify_block_hash c cur)) [
                  | inr (e, failed) ↦
                      let same : bc' ≡ slash_leader cur.validator bc = ground arith in
                      rw same blamed
                  | inl (v, named) ↦
                      verify_drawn-IsAside i cur hash tick at bc {out = out} (ground arith)
                ]
              ]
            ]
      ]

  verify_blocks-IsAside :
      (i : ℕ) (prev : Block) (rest : List Block) (at : Cursor) (bc : Blockchain) {out : Checked}
      {bc' : Blockchain}
      → verify_blocks c i prev rest at bc ≡ some (out, bc')
      → IsAside bc bc'
  unfolding verify_blocks
  verify_blocks-IsAside i prev [] at bc {out} {bc'} h =
      let same : bc' ≡ bc = ground arith in rw same (IsAside-refl bc)
  verify_blocks-IsAside i prev (cur ∷ rest) at bc {out} {bc'} h =
      elim (Option-cases (verify_next c i prev cur at bc)) [
        | inl endless ↦ absurd (ground arith)
        | inr ((found, mid), went) ↦
            let first = verify_next-IsAside i prev cur at bc {out = found} {bc' = mid} went in
            elim (Result-cases found) [
              | inr (e, failed) ↦ let same : bc' ≡ mid = ground arith in rw same first
              | inl (at', good) ↦
                  IsAside-trans first
                    (verify_blocks-IsAside (i + 1) cur rest at' mid {out = out} (ground arith))
            ]
      ]

  pub verify_chain-IsAside :
      (bc : Blockchain) {out : Checked} {bc' : Blockchain}
      → verify_chain c bc ≡ some (out, bc')
      → IsAside bc bc'
  unfolding verify_chain
  verify_chain-IsAside bc {out} {bc'} h = elim (List-cases bc.chain) [
    | inl empty ↦ let same : bc' ≡ bc = ground arith in rw same (IsAside-refl bc)
    | inr (genesis, rest, some_blocks) ↦
        elim (Bool-cases (not (genesis.hash == hash_block c genesis))) [
          | inl other ↦ let same : bc' ≡ bc = ground arith in rw same (IsAside-refl bc)
          | inr named ↦ elim (Result-cases (parse_poh_hash_hex genesis.poh_hash)) [
            | inr (e, failed) ↦ let same : bc' ≡ bc = ground arith in rw same (IsAside-refl bc)
            | inl (hash, parsed) ↦
                verify_blocks-IsAside 1 genesis rest
                  (record {
                    expected_hash = hash;
                    expected_tick = genesis.tick;
                    seen_slots = [];
                    state = bc.genesis;
                  })
                  bc {out = out} (ground arith)
          ]
        ]
  ]
