-- ===== src/Chain/Verify.antt =====
-- VerifyChain of core/blockchain.go: the canonical chain is checked again from the genesis block on. With
-- it VerifyBlockLink, VerifyBlockHash, VerifyValidator, VerifyLeader and VerifyBlockSig of consensus/pov.go.
pub mod Passed
pub mod Sound
pub mod Replay
use xenium.Prelude.{
  ℕ, ◌+◌, not, Bool, true, false, Option, none, some, List, [], ◌∷◌, ltb, if◌then◌else◌, ◌==◌,
  nat_eq,
}
use xenium.Prelude.Bytes.{Bytes, bytes_key}
use xenium.Prelude.Int.{ltb_ℤ}
use xenium.Dict.{Dict, lookup, insert}
use xenium.Domain.{
  Block, State, Validator, Validators, Stats, Result, Checked, Error, ok, err, reject_if, ◌>>=◌,
  invalid_prev_hash, slot_regressed, invalid_hash, unknown_validator, wrong_leader, empty_chain,
  invalid_genesis_hash, missing_epoch_snapshot, double_produce, tx_root_mismatch,
  state_root_mismatch,
}
use xenium.Crypto.{Crypto}
use xenium.Stake.{min_stake}
use xenium.Ledger.{apply_transactions}
use xenium.Poh.{parse_poh_hash_hex, verify_poh}
use xenium.Leader.{deterministic_leader}
use xenium.Signing.{hash_block, verify_block_signature, tx_root, state_root}
use xenium.Chain.{Blockchain, EpochSnapshot}
use xenium.Chain.Epoch.{snapshot_for_slot}
use xenium.Chain.Rebuild.{validator_reward_address}
use xenium.Chain.Accept.{verify_transactions, verify_leader_snapshot}
use xenium.Chain.Blocks.{slash_leader}

unfoldable pub verify_block_link : Block → Block → Checked
verify_block_link prev cur =
    reject_if (not (cur.prev_hash == prev.hash)) (invalid_prev_hash cur.index)
      (reject_if (ltb cur.slot prev.slot) (slot_regressed cur.index) (ok tt))

unfoldable pub verify_validator : Bytes → Validators → ℕ → Result Validator
verify_validator name validators index = elim (lookup name validators) [
  | none ↦ err (unknown_validator index)
  | some v ↦ if ltb_ℤ v.stake min_stake then err (unknown_validator index) else ok v
]

-- `prevValidator, ok := seenSlots[slot]; ok && prevValidator != ""`
unfoldable pub is_seen : ℕ → Dict ℕ Bytes → Bool
is_seen slot seen = elim (lookup slot seen) [
  | none ↦ false
  | some validator ↦ not (validator == [])
]

-- What the loop carries from block to block.
pub record Cursor : Type 0 where
  pub expected_hash : Bytes
  pub expected_tick : ℕ
  pub seen_slots : Dict ℕ Bytes
  pub state : State

-- The validator of a block that fails is slashed.
abbrev pub blame : {X : Type 0} → Error → Block → Blockchain → Option (Result X × Blockchain)
blame e cur bc = some (err e, slash_leader cur.validator bc)

module _ (c : Crypto) where
  unfoldable pub verify_block_hash : Block → Checked
  verify_block_hash cur =
      reject_if (not (cur.hash == hash_block c cur)) (invalid_hash cur.index) (ok tt)

  unfoldable pub verify_leader : ℕ → Bytes → Validators → Option Stats → Checked
  verify_leader slot validator validators stats =
      reject_if (not (deterministic_leader c slot validators stats == validator))
        (wrong_leader slot) (ok tt)

  unfoldable pub verify_block_sig : Block → Validator → Checked
  verify_block_sig cur v = verify_block_signature c cur v.pub_key

  -- The tests from the transaction root on; the result is the state behind the block.
  unfoldable pub verify_change : ℕ → Block → State → Blockchain → Result State
  verify_change i cur state bc =
      if not (tx_root c cur.transactions == cur.tx_root)
      then err (tx_root_mismatch i)
      else apply_transactions state cur.transactions
          (validator_reward_address c bc.validators cur.validator)
        >>= λ next.
            (if not (state_root c next == cur.state_root)
              then err (state_root_mismatch i)
              else ok next)

  -- The tests behind that of the snapshot.
  unfoldable pub verify_produced : ℕ → Block → EpochSnapshot → Cursor → Blockchain → Result State
  verify_produced i cur snap at bc =
      verify_leader_snapshot c cur.slot cur.validator snap.validators >>= λ _.
      if is_seen cur.slot at.seen_slots
      then err (double_produce cur.slot)
      else verify_validator cur.validator bc.validators i >>= λ v. verify_block_sig cur v >>= λ _.
          verify_transactions c cur.transactions >>= λ _. verify_change i cur at.state bc

  -- What follows the test of the hash; without a snapshot nobody is slashed.
  unfoldable pub verify_drawn :
      ℕ → Block → Bytes → ℕ → Cursor → Blockchain → Option (Result Cursor × Blockchain)
  verify_drawn i cur hash tick at bc =
      let (snap, epochs) = snapshot_for_slot c bc cur.slot bc.epochs in
      let asked = record bc { epochs = epochs } in
      elim snap [
        | none ↦ some (err (missing_epoch_snapshot cur.slot), asked)
        | some s ↦ elim (verify_produced i cur s at asked) [
          | err e ↦ blame e cur asked
          | ok next ↦ some (
            ok (record {
              expected_hash = hash;
              expected_tick = tick;
              seen_slots = insert cur.slot cur.validator at.seen_slots;
              state = next;
            }),
            asked,
          )
        ]
      ]

  -- The body of the loop.
  unfoldable pub verify_next :
      ℕ → Block → Block → Cursor → Blockchain → Option (Result Cursor × Blockchain)
  verify_next i prev cur at bc = elim (verify_block_link prev cur) [
    | err e ↦ blame e cur bc
    | ok _ ↦ elim (verify_poh c at.expected_hash at.expected_tick cur) [
      | none ↦ none
      | some (err e) ↦ blame e cur bc
      | some (ok (hash, tick)) ↦ elim (verify_block_hash cur) [
        | err e ↦ blame e cur bc
        | ok _ ↦ verify_drawn i cur hash tick at bc
      ]
    ]
  ]

  unfoldable pub verify_blocks :
      ℕ → Block → List Block → Cursor → Blockchain → Option (Checked × Blockchain)
  verify_blocks i prev [] at bc = some (ok tt, bc)
  verify_blocks i prev (cur ∷ rest) at bc = elim (verify_next i prev cur at bc) [
    | none ↦ none
    | some (err e, bc') ↦ some (err e, bc')
    | some (ok at', bc') ↦ verify_blocks (i + 1) cur rest at' bc'
  ]

  -- `none` is a call that never returns, as `verify_poh`.
  unfoldable pub verify_chain : Blockchain → Option (Checked × Blockchain)
  verify_chain bc = elim bc.chain [
    | [] ↦ some (err empty_chain, bc)
    | genesis ∷ rest ↦
        if not (genesis.hash == hash_block c genesis)
        then some (err invalid_genesis_hash, bc)
        else elim (parse_poh_hash_hex genesis.poh_hash) [
          | err e ↦ some (err e, bc)
          | ok hash ↦
              verify_blocks 1 genesis rest
                (record {
                  expected_hash = hash;
                  expected_tick = genesis.tick;
                  seen_slots = [];
                  state = bc.genesis;
                })
                bc
        ]
  ]
