-- ===== src/Chain/Growth/Start.antt =====
-- NewBlockchain of core/blockchain.go: the engine on the genesis block alone.
use xenium.Prelude.{
  ℕ, ◌≡◌, ◌≢◌, refl, ap, inl, false, Option, some, [], ◌∷◌, arith, ◌==◌, ==_iff, length,
}
use xenium.Prelude.Bytes.{Bytes, bytes_key, bytes_eq_refl}
use xenium.Prelude.Int.{ℤ}
use xenium.Dict.{lookup, insert}
use xenium.Domain.{Block, ok}
use xenium.Crypto.{Crypto}
use xenium.Poh.Verify.{IsDigest}
use xenium.Signing.{hash_block}
use xenium.Mempool.{new_mempool}
use xenium.Chain.{Blockchain, ChainConfig, genesis_mark}
use xenium.Chain.Walk.{Blocks, rounds, collect, chain_from_tip, collect_known}
use xenium.Chain.Rebuild.{
  rebuild_canonical_chain, rebuild_slot_map, rebuild_state_from_canonical, update_finality,
}
use xenium.Chain.Slots.{insert_block}
use xenium.Chain.Setup.{
  genesis_draft, create_genesis_block, unbuilt, new_blockchain, seed_of, with_defaults,
}
use xenium.Chain.Growth.{IsPlaced, IsGrown}
use xenium.Chain.Growth.Canonical.{IsEngine}
use xenium.Chain.Growth.Sealing.{length-hash_block}

-- The blocks of an engine that has only one.
abbrev alone : Block → Blocks
alone g = insert g.hash g []

alone_cases :
    (g b : Block) (hash : Bytes) → lookup hash (alone g) ≡ some b → (g.hash ≡ hash) × (g ≡ b)
unfolding insert lookup
alone_cases g b hash found = ground (arith, ==_iff g.hash hash)

alone-found : (g : Block) → lookup g.hash (alone g) ≡ some g
unfolding insert lookup
alone-found g = rw (bytes_eq_refl g.hash) refl

alone-IsGrown :
    (g : Block) (time : ℕ)
    → g.hash ≢ []
    → g.hash ≢ genesis_mark
    → g.prev_hash ≡ genesis_mark
    → g.index ≡ 0
    → g.slot ≡ 0
    → IsGrown (alone g) time
alone-IsGrown g time some_hash no_mark first zeroth at_start = record {
  at = λ hash b found.
      let (key, value) = alone_cases g b hash found in
      let placed : IsPlaced (alone g) time g.hash g = record {
        named = refl;
        not_empty = some_hash;
        not_mark = no_mark;
        low = omega arith;
        early = omega arith;
        stands = inl first;
      } in
      rw (← key, ← value) placed;
}

alone-walked :
    (g : Block)
    → g.hash ≢ []
    → g.prev_hash ≡ genesis_mark
    → chain_from_tip (alone g) g.hash ≡ some (ok (g ∷ []))
unfolding chain_from_tip collect
alone-walked g some_hash first =
    let found = alone-found g in ground (arith, ==_iff g.hash [], ==_iff g.prev_hash genesis_mark)

alone-known :
    (g : Block)
    → g.prev_hash ≡ genesis_mark
    → collect_known (alone g) (rounds (alone g)) g.hash [] ≡ some (g ∷ [])
unfolding collect_known
alone-known g first = let found = alone-found g in ground (arith, ==_iff g.prev_hash genesis_mark)

module _ (c : Crypto) (digests : (bs : Bytes) → IsDigest (c.sha256 bs)) where
  genesis_named :
      (nonce : ℤ)
      → ((create_genesis_block c nonce).hash ≢ [])
        × ((create_genesis_block c nonce).hash ≢ genesis_mark)
        × ((create_genesis_block c nonce).prev_hash ≡ genesis_mark)
        × ((create_genesis_block c nonce).index ≡ 0)
        × ((create_genesis_block c nonce).slot ≡ 0)
  unfolding create_genesis_block genesis_draft
  genesis_named nonce =
      let long = length-hash_block c digests (genesis_draft c nonce) in
      (
        (λ e.
            let size : length (hash_block c (genesis_draft c nonce)) ≡ 0 = ap length e in
            omega arith),
        (λ e.
            let size : length (hash_block c (genesis_draft c nonce)) ≡ 7 = ap length e in
            omega arith),
        refl,
        refl,
        refl,
      )

  unbuilt-built :
      (cfg : ChainConfig) (g : Block)
      → g.hash ≢ []
      → g.hash ≢ genesis_mark
      → g.prev_hash ≡ genesis_mark
      → g.index ≡ 0
      → g.slot ≡ 0
      → (bc : Blockchain) × (rebuild_canonical_chain c (unbuilt c cfg g) ≡ some bc)
        × IsEngine (record (update_finality bc) { mempool = some new_mempool })
        × (length (update_finality bc).chain ≡ 1)
  unfolding rebuild_canonical_chain unbuilt insert_block rebuild_slot_map
      rebuild_state_from_canonical update_finality
  unbuilt-built cfg g some_hash no_mark first zeroth at_start =
      let bc =
        rebuild_state_from_canonical c
          (rebuild_slot_map (record (unbuilt c cfg g) { chain = g ∷ [] })) in
      let known = alone-known g first in
      let named : (g.hash == []) ≡ false = grind (arith, ==_iff g.hash []) in
      let blocks : (update_finality bc).blocks ≡ alone g = ground arith in
      let tip : (update_finality bc).canonical_tip ≡ g.hash = ground arith in
      let chain : (update_finality bc).chain ≡ g ∷ [] = ground arith in
      (
        bc,
        rw (named, known) refl,
        record {
          grown = rw blocks (alone-IsGrown g _ some_hash no_mark first zeroth at_start);
          walked = rw (blocks, tip, chain) (alone-walked g some_hash first);
        },
        rw chain refl,
      )

  -- NewBlockchain returns an engine for every configuration, seed and reading of the clock; its blocks are
  -- well placed and its canonical chain is the one of its tip, the genesis block.
  pub new_blockchain-IsEngine :
      (int63 : ℤ → ℤ) (reading : Option ℤ) (cfg : ChainConfig)
      → (bc : Blockchain) × (new_blockchain c int63 reading cfg ≡ some bc)
        × IsEngine bc
        × (length bc.chain ≡ 1)
  unfolding new_blockchain
  new_blockchain-IsEngine int63 reading cfg =
      let g = create_genesis_block c (int63 (seed_of (with_defaults cfg) reading)) in
      let (some_hash, no_mark, first, zeroth, at_start) =
        genesis_named (int63 (seed_of (with_defaults cfg) reading)) in
      let (bc, built, engine, one) = unbuilt-built cfg g some_hash no_mark first zeroth at_start in
      (
        record (update_finality bc) { mempool = some new_mempool },
        rw (new_blockchain, built) refl,
        engine,
        one,
      )
