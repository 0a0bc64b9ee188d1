-- ===== src/Chain/Growth/Reach.antt =====
-- Runs of the engine of core/blockchain.go: calls one after another, by whoever holds the engine.
use xenium.Prelude.{ℕ, ◌≤◌, ◌≡◌, ◌≢◌, refl, Option, none, some, List, arith, get_elem?}
use xenium.Prelude.Bytes.{Bytes, bytes_key}
use xenium.Prelude.Int.{ℤ}
use xenium.Dict.{lookup}
use xenium.Domain.{Block, Transaction, PrivateKey}
use xenium.Crypto.{Crypto}
use xenium.Ports.{BlockStore}
use xenium.Poh.Verify.{IsDigest}
use xenium.Chain.{Blockchain, ChainConfig, SavedSnapshot}
use xenium.Chain.Setup.{
  set_balance, register_validator, add_tx, reset_reorg_stats, set_storage, new_blockchain,
}
use xenium.Chain.Blocks.{Added, add_block, add_block_external}
use xenium.Chain.Growth.Moves.{Moves, Moves-same}
use xenium.Chain.Growth.Canonical.{IsEngine}
use xenium.Chain.Growth.Adding.{Grows, Grows-trans, Moves-Grows}
use xenium.Chain.Growth.Runs.{HasTime, add_block-Grows, add_block_external-Grows}
use xenium.Chain.Growth.Asides.{IsAside-Moves, set_storage-IsAside}
use xenium.Chain.Growth.Asked.{Asks, Asks-IsAside}
use xenium.Chain.Growth.Start.{new_blockchain-IsEngine}

-- The engine and the store that it saves blocks in.
pub record System (S : Type 0) : Type 0 where
  pub engine : Blockchain
  pub stored : Option S

abbrev pub after : {S : Type 0} → Added S → System S
after r = record { engine = r.engine; stored = r.stored }

-- One call: any exported one of the engine that may change it, but for RestoreFromStorage, which puts the blocks of a
-- store in place of those of the engine (Chain/Recovery). The calls that add a block have two premises on what the program takes for granted: the
-- counter of the clock does not pass the range of a `uint64`, and the hash of the block that the call
-- inserts is not the one of a block that is there.
pub data Step {S : Type 0} (c : Crypto) (store : BlockStore S) : System S → System S → Type 0 where
  block_added :
      (s : System S) (random : ℕ) (txs : List Transaction) (r : Added S)
      → add_block c store random txs s.engine s.stored ≡ some r
      → HasTime s.engine
      → lookup r.hash s.engine.blocks ≡ none
      → Step c store s (after r)
  block_added_external :
      (s : System S) (random : ℕ) (prev_hash : Bytes) (txs : List Transaction) (r : Added S)
      → add_block_external c store random prev_hash txs s.engine s.stored ≡ some r
      → HasTime s.engine
      → lookup r.hash s.engine.blocks ≡ none
      → Step c store s (after r)
  balance_set :
      (s : System S) (address : Bytes) (amount : ℤ)
      → Step c store s (record s { engine = set_balance address amount s.engine })
  validator_registered :
      (s : System S) (name : Bytes) (stake : ℤ) (pub_key : Bytes) (priv : Option PrivateKey)
      → Step c store s
          (record s { engine = (register_validator name stake pub_key priv s.engine).1 })
  tx_added :
      (s : System S) (tx : Transaction)
      → Step c store s (record s { engine = (add_tx c tx s.engine).1 })
  reorg_stats_reset :
      (s : System S) → Step c store s (record s { engine = reset_reorg_stats s.engine })
  storage_set :
      (s : System S) (stored : Option S) (saved : Option (List SavedSnapshot))
      → Step c store s (record { engine = set_storage saved s.engine; stored = stored })
  asked :
      (s : System S) (bc : Blockchain)
      → Asks c s.engine bc
      → Step c store s (record s { engine = bc })

pub data Reach {S : Type 0} (c : Crypto) (store : BlockStore S) (s : System S)
    : System S → Type 0 where
  here : Reach c store s s
  next : {t u : System S} → Reach c store s t → Step c store t u → Reach c store s u

set_balance-Moves :
    (address : Bytes) (amount : ℤ) (bc : Blockchain) → Moves bc (set_balance address amount bc)
unfolding set_balance
set_balance-Moves address amount bc =
    Moves-same bc (set_balance address amount bc) (ground arith) (ground arith) (ground arith)
      (ground arith) (ground arith) (ground arith)

register_validator-Moves :
    (name : Bytes) (stake : ℤ) (pub_key : Bytes) (priv : Option PrivateKey) (bc : Blockchain)
    → Moves bc (register_validator name stake pub_key priv bc).1
unfolding register_validator
register_validator-Moves name stake pub_key priv bc =
    Moves-same bc (register_validator name stake pub_key priv bc).1 (ground arith) (ground arith)
      (ground arith) (ground arith) (ground arith) (ground arith)

add_tx-Moves : (c : Crypto) (tx : Transaction) (bc : Blockchain) → Moves bc (add_tx c tx bc).1
unfolding add_tx
add_tx-Moves c tx bc =
    Moves-same bc (add_tx c tx bc).1 (ground arith) (ground arith) (ground arith) (ground arith)
      (ground arith) (ground arith)

reset_reorg_stats-Moves : (bc : Blockchain) → Moves bc (reset_reorg_stats bc)
unfolding reset_reorg_stats
reset_reorg_stats-Moves bc = Moves-same bc (reset_reorg_stats bc) refl refl refl refl refl refl

module _ (c : Crypto) (digests : (bs : Bytes) → IsDigest (c.sha256 bs)) {S : Type 0}
    (store : BlockStore S) where
  Step-Grows : {s t : System S} → Step c store s t → IsEngine s.engine → Grows s.engine t.engine
  Step-Grows (block_added s random txs r h time fresh) engine =
      add_block-Grows c digests store random txs s.engine s.stored engine time h fresh
  Step-Grows (block_added_external s random prev_hash txs r h time fresh) engine =
      add_block_external-Grows c digests store random prev_hash txs s.engine s.stored engine time h
        fresh
  Step-Grows (balance_set s address amount) engine =
      Moves-Grows engine (set_balance-Moves address amount s.engine)
  Step-Grows (validator_registered s name stake pub_key priv) engine =
      Moves-Grows engine (register_validator-Moves name stake pub_key priv s.engine)
  Step-Grows (tx_added s tx) engine = Moves-Grows engine (add_tx-Moves c tx s.engine)
  Step-Grows (reorg_stats_reset s) engine = Moves-Grows engine (reset_reorg_stats-Moves s.engine)
  Step-Grows (storage_set s stored saved) engine =
      Moves-Grows engine
        (IsAside-Moves s.engine (set_storage saved s.engine) (set_storage-IsAside saved s.engine))
  Step-Grows (asked s bc asks) engine =
      Moves-Grows engine (IsAside-Moves s.engine bc (Asks-IsAside c s.engine asks))

  Reach-Grows : {s t : System S} → Reach c store s t → IsEngine s.engine → Grows s.engine t.engine
  Reach-Grows {s} here engine =
      Moves-Grows engine (Moves-same s.engine s.engine refl refl refl refl refl refl)
  Reach-Grows (next run step) engine =
      let g = Reach-Grows run engine in Grows-trans g (Step-Grows step g.engine)

  -- In every state that a run reaches from NewBlockchain, by any calls but RestoreFromStorage, every block stands under its own
  -- hash on a block that is there with the index before its own and an earlier slot, or on the genesis mark;
  -- no block is later than the clock; and the canonical chain is the walk from the canonical tip.
  -- Conditions: SHA-256 yields digests; for each call that adds a block, the clock has time for another slot
  -- and the hash of the block is new.
  pub reachable-IsEngine :
      (int63 : ℤ → ℤ) (reading : Option ℤ) (cfg : ChainConfig) (bc : Blockchain) (stored : Option S)
      {s : System S}
      → new_blockchain c int63 reading cfg ≡ some bc
      → Reach c store (record { engine = bc; stored = stored }) s
      → IsEngine s.engine
  reachable-IsEngine int63 reading cfg bc stored made run =
      let (bc', made', engine, one) = new_blockchain-IsEngine c digests int63 reading cfg in
      let same : bc ≡ bc' = cc in (Reach-Grows run (rw same engine)).engine

  -- A block of the canonical chain whose slot is finalized stays at its place of the canonical chain, the
  -- same block, in every later state of a run, which may make any calls but RestoreFromStorage. Conditions:
  -- those of the run, which begins with NewBlockchain, and a slot has been finalized.
  pub finalized_forever :
      (int63 : ℤ → ℤ) (reading : Option ℤ) (cfg : ChainConfig) (bc : Blockchain) (stored : Option S)
      {s t : System S}
      → new_blockchain c int63 reading cfg ≡ some bc
      → Reach c store (record { engine = bc; stored = stored }) s
      → Reach c store s t
      → (i : ℕ) (b : Block) → get_elem? s.engine.chain i ≡ some b
      → s.engine.finalized_slot ≢ 0
      → b.slot ≤ s.engine.finalized_slot
      → get_elem? t.engine.chain i ≡ some b
  finalized_forever int63 reading cfg bc stored made before run i b at finality final =
      let engine = reachable-IsEngine int63 reading cfg bc stored made before in
      (Reach-Grows run engine).stays i b at finality final
