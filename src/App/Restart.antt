-- ===== src/App/Restart.antt =====
-- NewNode of app/node.go in a directory where a node has worked before.
use xenium.Prelude.{
  ℕ, ◌<◌, ◌≡◌, refl, sym, ap, ◌∙◌, false, none, some, Option, List, [], ◌∷◌, arith, ◌==◌, ==_iff,
  All, length,
}
use xenium.Prelude.Bytes.{Bytes, str, bytes_key}
use xenium.Prelude.Int.{ℤ, word}
use xenium.Dict.{lookup}
use xenium.Domain.{Block, ok}
use xenium.Crypto.{Crypto}
use xenium.Ports.{LatestSnapshot}
use xenium.Poh.Verify.{IsDigest}
use xenium.Storage.{
  Os, Json, FileBlockStore, empty_store, file_block_store, new_file_block_store, get_tip, get_range,
}
use xenium.Storage.Disk.{IsStorable, IsWriting, IsReadable, IsJson, HasPaths}
use xenium.Storage.Restart.{Saves, reopened_lem}
use xenium.Storage.Linear.{IsCounted, IsOwn, IsUnique, note_all, saved_chain, Saves-note_all}
use xenium.Storage.Snapshots.{new_file_snapshot_store, load_latest_snapshot, file_snapshot_store}
use xenium.Chain.{Blockchain}
use xenium.Chain.Setup.{set_storage}
use xenium.Chain.Walk.{Blocks}
use xenium.Chain.Walk.Linked.{chain_from_tip-IsLinked}
use xenium.Chain.Recovery.Restored.{restored_chain}
use xenium.Chain.Growth.Walks.{AllFound, chain_from_tip-AllFound}
use xenium.Chain.Growth.Moves.{now}
use xenium.Chain.Growth.Canonical.{IsEngine}
use xenium.Chain.Growth.Runs.{tip-found}
use xenium.Chain.Growth.Start.{new_blockchain-IsEngine}
use xenium.App.{Config, Node, restore_node, open_stores, new_node}

found-IsOwn :
    (blocks : Blocks) (x : Block) (bs : List Block)
    → lookup x.hash blocks ≡ some x
    → AllFound blocks bs
    → All (IsOwn x) bs
found-IsOwn blocks x [] own found = tt
found-IsOwn blocks x (b ∷ bs) own found = (
  (λ e.
      let one : some b ≡ some x = sym found.0 ∙ ap (λ (h : Bytes). lookup h blocks) e ∙ own in cc),
  found-IsOwn blocks x bs own found.1,
)

found-IsUnique : (blocks : Blocks) (bs : List Block) → AllFound blocks bs → IsUnique bs
found-IsUnique blocks [] found = tt
found-IsUnique blocks (b ∷ bs) found =
    (found-IsOwn blocks b bs found.0 found.1, found-IsUnique blocks bs found.1)

-- What a store holds in which the canonical chain of an engine was saved.
chain-saved :
    (before : Blockchain) (store : FileBlockStore)
    → IsEngine before
    → IsCounted 0 before.chain
    → length before.chain < word
    → store.tip_height ≡ 0
    → (tip : Block) × (get_tip (note_all before.chain store) ≡ some tip)
      × (tip.hash ≡ before.canonical_tip)
      × (get_range 0 tip.index (note_all before.chain store) ≡ some (ok before.chain))
chain-saved before store engine counted short new =
    let (tip, found) =
      tip-found before.blocks before.canonical_tip {out = before.chain} engine.walked in
    let placed = engine.grown.at before.canonical_tip tip found in
    let (linked, first, ends) =
      chain_from_tip-IsLinked before.blocks before.canonical_tip {out = before.chain}
        engine.walked in
    let all =
      chain_from_tip-AllFound before.blocks (now before) engine.grown before.canonical_tip
        {out = before.chain} engine.walked in
    let (tipped, ranged) =
      saved_chain before.chain tip store new counted (found-IsUnique before.blocks before.chain all)
        (ends ∙ found) (λ e. placed.not_empty (sym placed.named ∙ e)) short in
    (tip, tipped, placed.named, ranged)

module _ (c : Crypto) (digests : (bs : Bytes) → IsDigest (c.sha256 bs)) {S : Type 0} (os : Os S)
    (json : Json) (scan_epoch : Bytes → Option ℕ) (view : S → Bytes → Option Bytes)
    (dir : Bytes) where
  open_stores_lem :
      (bc : Blockchain) (store : FileBlockStore) (snap_dir : Bytes) (t t1 t2 : S)
      → new_file_block_store os json dir t ≡ (ok store, t1)
      → new_file_snapshot_store os json dir t1 ≡ (ok snap_dir, t2)
      → open_stores c os json scan_epoch bc dir t
        ≡ restore_node c os json scan_epoch bc store snap_dir t2
  unfolding open_stores
  open_stores_lem bc store snap_dir t t1 t2 reopened opened = ground arith

  restore_node-chain :
      (before bc : Blockchain) (tip : Block) (store : FileBlockStore) (snap_dir : Bytes) (s : S)
      (latest : Option LatestSnapshot)
      → IsEngine before
      → get_tip store ≡ some tip
      → tip.hash ≡ before.canonical_tip
      → get_range 0 tip.index store ≡ some (ok before.chain)
      → load_latest_snapshot os json scan_epoch snap_dir s ≡ ok latest
      → (node : Node) × (restore_node c os json scan_epoch bc store snap_dir s ≡ some (ok node, s))
        × (node.chain.chain ≡ before.chain)
        × (node.chain.canonical_tip ≡ before.canonical_tip)
        × (node.block_store ≡ some store)
  unfolding restore_node file_block_store file_snapshot_store
  restore_node-chain before bc tip store snap_dir s latest engine tipped tip_at ranged loaded =
      let (bc', restored, chain, same_tip, clock) =
        restored_chain c (file_block_store os json) (file_snapshot_store os json scan_epoch) before
          (set_storage (some []) bc) tip (store, s) (some (snap_dir, s)) engine tipped tip_at ranged
          (λ t e. (
            latest,
            ap
                  (λ (x : Option (Bytes × S)). elim x [
                    | none ↦ ok latest
                    | some p ↦ load_latest_snapshot os json scan_epoch p.0 p.1
                  ])
                  (sym e)
                ∙ loaded,
          )) in
      (
        record { chain = bc'; block_store = some store; snapshot_dir = some snap_dir },
        rw (restore_node, restored) refl,
        chain,
        same_tip,
        refl,
      )

  -- A node that is started again in its directory has the canonical chain and tip of the engine that worked there,
  -- whatever seed the new engine draws. Conditions: that engine's blocks were well placed, and its canonical chain, with
  -- indices that count from 0, is what was saved, block by block in a new directory, each without an error, with any
  -- writes of other files between, as those of the snapshots (App/Session); the file system and JSON do what they
  -- promise, the hash of each block is UTF-8, and its text fits a line of 64 KB and is read back; the calls for the
  -- directories and the reads succeed, as does the reading of the latest snapshot.
  pub node_restart :
      (before : Blockchain) (s s1 t t1 t2 : S) (store : FileBlockStore) (snap_dir : Bytes)
      (latest : Option LatestSnapshot) (int63 : ℤ → ℤ) (reading : Option ℤ) (cfg : Config)
      → IsEngine before
      → IsCounted 0 before.chain
      → length before.chain < word
      → HasPaths os dir
      → IsWriting os view
      → IsJson json
      → os.mkdir_all dir s ≡ (ok tt, s1)
      → view s1 (os.join dir (str "blocks.jsonl")) ≡ none
      → view s1 (os.join dir (str "index.json")) ≡ none
      → All (IsStorable json) before.chain
      → Saves os json view dir (empty_store os dir) s1 before.chain store t
      → os.mkdir_all dir t ≡ (ok tt, t1)
      → IsReadable os view s1
      → IsReadable os view t1
      → new_file_snapshot_store os json dir t1 ≡ (ok snap_dir, t2)
      → load_latest_snapshot os json scan_epoch snap_dir t2 ≡ ok latest
      → cfg.data_dir ≡ dir
      → (node : Node) × (new_node c os json scan_epoch int63 reading cfg t ≡ some (ok node, t2))
        × (node.chain.chain ≡ before.chain)
        × (node.chain.canonical_tip ≡ before.canonical_tip)
  unfolding new_node open_stores
  node_restart before s s1 t t1 t2 store snap_dir latest int63 reading cfg engine counted short
        paths writing codec made no_blocks no_index storable saves again readable1 readable opened
        loaded at_dir =
      let (first, (other, reopened, like)) =
        reopened_lem os json view dir paths writing s s1 t t1 before.chain store codec made
          no_blocks no_index storable saves again readable1 readable in
      let (tip, tipped, tip_at, ranged) =
        chain-saved before (empty_store os dir) engine counted short refl in
      let same = Saves-note_all os json view dir saves in
      let tipped' : get_tip other ≡ some tip = like.tip ∙ ap get_tip same ∙ tipped in
      let ranged' : get_range 0 tip.index other ≡ some (ok before.chain) =
        like.range 0 tip.index ∙ ap (get_range 0 tip.index) same ∙ ranged in
      let (bc, started, fresh, one) = new_blockchain-IsEngine c digests int63 reading cfg.chain in
      let (node, restored, chain, same_tip, kept) =
        restore_node-chain before bc tip other snap_dir t2 latest engine tipped' tip_at ranged'
          loaded in
      let named : (cfg.data_dir == []) ≡ false =
        ground (arith, ==_iff cfg.data_dir [], paths.named) in
      let begun : new_node c os json scan_epoch int63 reading cfg t
          ≡ open_stores c os json scan_epoch bc cfg.data_dir t =
        rw (new_node, started, named) refl in
      let both : open_stores c os json scan_epoch bc dir t
          ≡ restore_node c os json scan_epoch bc other snap_dir t2 =
        open_stores_lem bc other snap_dir t t1 t2 reopened opened in
      (
        node,
        begun
            ∙ ap (λ (d : Bytes). open_stores c os json scan_epoch bc d t) at_dir
            ∙ both
            ∙ restored,
        chain,
        same_tip,
      )
