-- ===== src/Chain/Setup.antt =====
-- NewBlockchain and createGenesisBlock of core/blockchain.go, and the calls by which balances, validators
-- and transactions come into the engine.
use xenium.Prelude.{
  List, ℕ, zero, suc, Option, none, some, [], ◌∷◌, leb, nat_beq, if◌then◌else◌, length, get_or,
}
use xenium.Prelude.Bytes.{Bytes, bytes_key}
use xenium.Prelude.Int.{ℤ, pos, ltb_ℤ, beq_ℤ}
use xenium.Dict.{insert}
use xenium.Domain.{Block, Transaction, PrivateKey, Checked, ok, err}
use xenium.Crypto.{Crypto}
use xenium.Ledger.{account}
use xenium.Stake.{add_validator}
use xenium.Leader.{slots_per_epoch, genesis_name}
use xenium.Poh.{Poh, new_poh, hash_poh_seed, poh_hash_hex, parse_poh_hash_hex}
use xenium.Signing.{tx_root, state_root, hash_block}
use xenium.Mempool.{new_mempool, add}
use xenium.Chain.{Blockchain, ChainConfig, SavedSnapshot, genesis_mark}
use xenium.Chain.Rebuild.{rebuild_canonical_chain, update_finality}
use xenium.Chain.Slots.{insert_block}

unfoldable pub with_defaults : ChainConfig → ChainConfig
with_defaults cfg = record cfg {
  max_reorg_depth = if beq_ℤ cfg.max_reorg_depth (pos 0) then pos 2 else cfg.max_reorg_depth;
  finality_slots = if nat_beq cfg.finality_slots 0 then 2 else cfg.finality_slots;
  epoch_length = if nat_beq cfg.epoch_length 0 then slots_per_epoch else cfg.epoch_length;
  max_block_txs = if beq_ℤ cfg.max_block_txs (pos 0) then pos 100 else cfg.max_block_txs;
}

-- The seed of the random source; `reading` is what the clock shows, if there is one.
unfoldable pub seed_of : ChainConfig → Option ℤ → ℤ
seed_of cfg reading =
    if cfg.deterministic_poh then cfg.poh_seed else elim reading [ none ↦ pos 0 | some t ↦ t ]

-- `[32]byte{}`
abbrev pub zero_bytes : ℕ → Bytes
zero_bytes zero = []
zero_bytes (suc n) = 0 ∷ zero_bytes n

unfoldable pub set_balance : Bytes → ℤ → Blockchain → Blockchain
set_balance address amount bc =
    if ltb_ℤ amount (pos 0)
    then bc
    else let acct = record (account bc.state address) { balance = amount } in
      record bc {
        state = insert address acct bc.state;
        genesis = if leb (length bc.chain) 1 then insert address acct bc.genesis else bc.genesis;
      }

unfoldable pub register_validator :
    Bytes → ℤ → Bytes → Option PrivateKey → Blockchain → Checked × Blockchain
register_validator name stake pub_key priv bc =
    elim (add_validator bc.validators (some bc.stats) name stake pub_key priv) [
      | err e ↦ (err e, bc)
      | ok (validators, stats) ↦ (
        ok tt,
        record bc { validators = validators; stats = elim stats [ none ↦ bc.stats | some s ↦ s ] },
      )
    ]

-- `SetStorage`, on what the engine keeps of the store of snapshots: `none` without one, and otherwise the calls of it
-- so far. The store of blocks stands beside the engine.
unfoldable pub set_storage : Option (List SavedSnapshot) → Blockchain → Blockchain
set_storage saved bc = record bc { epochs = record bc.epochs { saved = saved } }

unfoldable pub reset_reorg_stats : Blockchain → Blockchain
reset_reorg_stats bc = record bc {
  reorg_stats = record { info = 0; warn = 0; error = 0; critical = 0 };
}

module _ (c : Crypto) where
  -- A pool is made where there is none.
  unfoldable pub add_tx : Transaction → Blockchain → Checked × Blockchain
  add_tx tx bc =
      let pool = get_or bc.mempool new_mempool in
      elim (add c pool tx) [
        | err e ↦ (err e, record bc { mempool = some pool })
        | ok grown ↦ (ok tt, record bc { mempool = some grown })
      ]

  -- The genesis block before its hash is written.
  unfoldable pub genesis_draft : ℤ → Block
  genesis_draft nonce = record {
    index = 0;
    prev_hash = genesis_mark;
    slot = 0;
    tick = 0;
    validator = genesis_name;
    tx_root = tx_root c [];
    state_root = state_root c [];
    poh_hash = poh_hash_hex (hash_poh_seed c nonce);
    signature = [];
    hash = [];
    transactions = [];
  }

  unfoldable pub create_genesis_block : ℤ → Block
  create_genesis_block nonce = record (genesis_draft nonce) {
    hash = hash_block c (genesis_draft nonce);
  }

  -- The clock starts at the hash of the genesis block.
  unfoldable pub genesis_clock : Block → Poh
  genesis_clock genesis = elim (parse_poh_hash_hex genesis.poh_hash) [
    | err e ↦ new_poh (zero_bytes 32)
    | ok seed ↦ new_poh seed
  ]

  -- The engine before its chain is derived from the genesis block.
  unfoldable pub unbuilt : ChainConfig → Block → Blockchain
  unbuilt cfg genesis = insert_block genesis (record {
    chain = [];
    blocks = [];
    parents = [];
    canonical_tip = genesis.hash;
    validators = [];
    stats = [];
    poh = some (genesis_clock genesis);
    state = [];
    genesis = [];
    slot_produced = [];
    slot_producers = [];
    equivocations = [];
    last_processed_slot = 0;
    finalized_slot = 0;
    config = with_defaults cfg;
    reorg_stats = record { info = 0; warn = 0; error = 0; critical = 0 };
    epochs = record { snapshots = []; current_epoch = 0; saved = none };
    mempool = none;
  })

  -- `int63` is the first number of Go's random source with the given seed.
  unfoldable pub new_blockchain : (ℤ → ℤ) → Option ℤ → ChainConfig → Option Blockchain
  new_blockchain int63 reading cfg =
      let genesis = create_genesis_block (int63 (seed_of (with_defaults cfg) reading)) in
      elim (rebuild_canonical_chain c (unbuilt cfg genesis)) [
        | none ↦ none
        | some built ↦ some (record (update_finality built) { mempool = some new_mempool })
      ]
