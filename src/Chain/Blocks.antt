-- ===== src/Chain/Blocks.antt =====
-- AddBlock and AddBlockExternal of core/blockchain.go. The two repeat each other from the transactions
-- on; what they share is written once here.
use xenium.Prelude.{ℕ, Option, none, some, List, [], ◌∷◌, get_or}
use xenium.Prelude.Bytes.{Bytes, bytes_key}
use xenium.Prelude.Int.{ℤ, add_word}
use xenium.Dict.{lookup}
use xenium.Domain.{
  Block, Transaction, State, Checked, Error, ok, err, no_validators, poh_not_initialized,
  missing_signing_key, unknown_parent,
}
use xenium.Crypto.{Crypto}
use xenium.Ports.{BlockStore}
use xenium.Ledger.{apply_transactions}
use xenium.Stake.{slash_penalty, slash_validator, reward_validator}
use xenium.Poh.{Poh, ticks_per_slot, tick, slot, poh_hash_hex}
use xenium.Signing.{tx_root, state_root, sign_block}
use xenium.Mempool.{pop_for_block}
use xenium.Chain.{Blockchain}
use xenium.Chain.Epoch.{ensure_snapshot_for_slot, leader_for_slot}
use xenium.Chain.Score.{chain_tip_slot}
use xenium.Chain.Rebuild.{validator_reward_address, state_at_tip}
use xenium.Chain.Canonical.{update_canonical}
use xenium.Chain.Slots.{insert_block, register_slot_producer, process_missed_slots}
use xenium.Chain.Accept.{verify_transactions, verify_block_on_accept}

-- What a call returns and leaves: the hash of the block that it inserted, or the empty one; its error; the
-- engine; and the store of blocks, if there is one.
pub record Added (S : Type 0) : Type 0 where
  pub hash : Bytes
  pub outcome : Checked
  pub engine : Blockchain
  pub stored : Option S

-- The zero value, which a read of a missing key gives.
abbrev pub zero_block : Block
zero_block = record {
  index = 0;
  prev_hash = [];
  slot = 0;
  tick = 0;
  validator = [];
  tx_root = [];
  state_root = [];
  poh_hash = [];
  signature = [];
  hash = [];
  transactions = [];
}

abbrev pub fail : {S : Type 0} → Error → Blockchain → Option S → Option (Added S)
fail e bc stored = some (record { hash = []; outcome = err e; engine = bc; stored = stored })

-- An error for which the leader of the slot is slashed.
unfoldable pub slash_leader : Bytes → Blockchain → Blockchain
slash_leader leader bc = record bc {
  validators = slash_validator bc.validators leader slash_penalty;
}

-- Who leads the slot that the clock has reached, and where its fees go.
pub record Turn : Type 0 where
  pub leader : Bytes
  pub producer : Bytes
  pub clock : Poh
  pub engine : Blockchain

-- `SelectTxsForBlock`
unfoldable pub select_txs_for_block : ℤ → Bytes → Blockchain → List Transaction × Blockchain
select_txs_for_block max producer bc = elim bc.mempool [
  | none ↦ ([], bc)
  | some m ↦
      let (left, out) = pop_for_block m bc.state max producer in
      (out, record bc { mempool = some left })
]

-- The pool is asked where the caller gives no transactions.
unfoldable pub choose_txs : List Transaction → Bytes → Blockchain → List Transaction × Blockchain
choose_txs [] producer bc = select_txs_for_block bc.config.max_block_txs producer bc
choose_txs (tx ∷ txs) producer bc = (tx ∷ txs, bc)

module _ (c : Crypto) where
  -- The clock ticks for one slot, and the leader of that slot is looked up.
  unfoldable pub next_turn : Poh → Blockchain → Turn
  next_turn clock bc =
      let clock' = tick c ticks_per_slot clock in
      let now = slot clock' in
      let ensured = ensure_snapshot_for_slot c bc now bc.epochs in
      let (leader, e) = leader_for_slot c bc now ensured in
      record {
        leader = leader;
        producer = validator_reward_address c bc.validators leader;
        clock = clock';
        engine = record bc { poh = some clock'; epochs = e };
      }

  -- The block of a turn on `prev`, with no signature and hash so far.
  unfoldable pub draft : Turn → Block → List Transaction → State → Block
  draft turn prev txs next = record {
    index = add_word prev.index 1;
    prev_hash = prev.hash;
    slot = slot turn.clock;
    tick = turn.clock.current_tick;
    validator = turn.leader;
    tx_root = tx_root c txs;
    state_root = state_root c next;
    poh_hash = poh_hash_hex turn.clock.hash;
    signature = [];
    hash = [];
    transactions = txs;
  }

module _ (c : Crypto) {S : Type 0} (store : BlockStore S) where
  -- The block is inserted, the canonical chain chosen, the leader rewarded and missed slots counted.
  unfoldable pub take_in : Bytes → Block → Blockchain → Option S → Option (Added S)
  take_in leader b bc stored =
      let (outcome, registered) = register_slot_producer b bc in
      elim (update_canonical c b.hash (insert_block b registered)) [
        | none ↦ none
        | some (_, chosen) ↦
            let rewarded = record chosen {
              validators = reward_validator chosen.validators leader;
            } in
            elim (process_missed_slots c (chain_tip_slot rewarded.chain) rewarded) [
              | none ↦ none
              | some done ↦
                  some (record { hash = b.hash; outcome = outcome; engine = done; stored = stored })
            ]
      ]

  -- A store that fails ends the call before the block is inserted.
  unfoldable pub save_and_take_in : Bytes → Block → Blockchain → Option S → Option (Added S)
  save_and_take_in leader b bc none = take_in leader b bc none
  save_and_take_in leader b bc (some s) =
      let (saved, s') = store.save_block b s in
      elim saved [ err e ↦ fail e bc (some s') | ok _ ↦ take_in leader b bc (some s') ]

  -- The block is signed and verified.
  unfoldable pub seal : ℕ → Turn → Block → State → Block → Blockchain → Option S → Option (Added S)
  seal random turn prev state b bc stored = elim (lookup turn.leader bc.validators) [
    | none ↦ fail missing_signing_key (slash_leader turn.leader bc) stored
    | some v ↦ elim v.priv_key [
      | none ↦ fail missing_signing_key (slash_leader turn.leader bc) stored
      | some priv ↦ elim (sign_block c random (some priv) b) [
        | err e ↦ fail e (slash_leader turn.leader bc) stored
        | ok signed ↦
            let (accepted, e) = verify_block_on_accept c prev signed state bc in
            let asked = record bc { epochs = e } in
            elim accepted [
              | err failed ↦ fail failed (slash_leader turn.leader asked) stored
              | ok _ ↦ save_and_take_in turn.leader signed asked stored
            ]
      ]
    ]
  ]

  -- The transactions are applied to the state behind `prev`.
  unfoldable pub build :
      ℕ → Turn → Block → State → List Transaction → Blockchain → Option S → Option (Added S)
  build random turn prev state txs bc stored = elim (apply_transactions state txs turn.producer) [
    | err e ↦ fail e (slash_leader turn.leader bc) stored
    | ok next ↦ seal random turn prev state (draft c turn prev txs next) bc stored
  ]

  -- `none` is a call that never returns.
  unfoldable pub add_block : ℕ → List Transaction → Blockchain → Option S → Option (Added S)
  add_block random txs bc stored = elim bc.validators [
    | [] ↦ fail no_validators bc stored
    | _ ∷ _ ↦ elim bc.poh [
      | none ↦ fail poh_not_initialized bc stored
      | some clock ↦
          let prev = get_or (lookup bc.canonical_tip bc.blocks) zero_block in
          let turn = next_turn c clock bc in
          let (chosen, ready) = choose_txs txs turn.producer turn.engine in
          elim (verify_transactions c chosen) [
            | err e ↦ fail e (slash_leader turn.leader ready) stored
            | ok _ ↦ build random turn prev ready.state chosen ready stored
          ]
    ]
  ]

  unfoldable pub add_block_external :
      ℕ → Bytes → List Transaction → Blockchain → Option S → Option (Added S)
  add_block_external random prev_hash txs bc stored = elim bc.validators [
    | [] ↦ fail no_validators bc stored
    | _ ∷ _ ↦ elim bc.poh [
      | none ↦ fail poh_not_initialized bc stored
      | some clock ↦ elim (lookup prev_hash bc.blocks) [
        | none ↦ fail unknown_parent bc stored
        | some parent ↦
            let turn = next_turn c clock bc in
            elim (verify_transactions c txs) [
              | err e ↦ fail e (slash_leader turn.leader turn.engine) stored
              | ok _ ↦ elim (state_at_tip c turn.engine prev_hash) [
                | none ↦ none
                | some (err e) ↦ fail e turn.engine stored
                | some (ok state) ↦ build random turn parent state txs turn.engine stored
              ]
            ]
      ]
    ]
  ]
