-- ===== src/Chain/Recovery/Restored.antt =====
-- What RestoreFromStorage of core/recovery.go brings back of an engine whose canonical chain is in the store.
use mathlib.Core.Path.{subst}
use xenium.Prelude.{
  ◌≡◌, ◌≢◌, refl, sym, ap, ◌∙◌, inl, inr, Option, none, some, List, [], arith, ◌==◌, ==_iff,
  Option-cases, false,
}
use xenium.Prelude.Bytes.{Bytes, bytes_key}
use xenium.Dict.{lookup}
use xenium.Domain.{Block, ok}
use xenium.Crypto.{Crypto}
use xenium.Ports.{BlockStore, SnapshotStore, LatestSnapshot}
use xenium.Chain.{Blockchain}
use xenium.Chain.Walk.{Blocks, rounds, collect, chain_from_tip, collect_known}
use xenium.Chain.Walk.Total.{IsRanked}
use xenium.Chain.Rebuild.{
  rebuild_canonical_chain, rebuild_slot_map, rebuild_state_from_canonical, update_finality,
}
use xenium.Chain.Growth.{Keeps, IsGrown-IsRanked}
use xenium.Chain.Growth.Walks.{AllFound, chain_from_tip-AllFound}
use xenium.Chain.Growth.Moves.{now}
use xenium.Chain.Growth.Canonical.{IsEngine, tip_of_walk}
use xenium.Chain.Recovery.{
  insert_blocks, restore_blocks, restore_snapshot, restore_range, restore_from_storage,
}
use xenium.Chain.Recovery.Agreeing.{
  added, insert_blocks-fields, added-Keeps, added-AllFound, walks_agree, known_total,
}

rebuild-fields :
    (c : Crypto) (bc : Blockchain) (chain : List Block)
    → bc.canonical_tip ≢ []
    → collect_known bc.blocks (rounds bc.blocks) bc.canonical_tip [] ≡ some chain
    → (built : Blockchain) × (rebuild_canonical_chain c bc ≡ some built)
      × ((update_finality built).chain ≡ chain)
      × ((update_finality built).canonical_tip ≡ bc.canonical_tip)
      × ((update_finality built).poh ≡ bc.poh)
unfolding rebuild_canonical_chain rebuild_slot_map rebuild_state_from_canonical update_finality
rebuild-fields c bc chain some_tip walked =
    let named : (bc.canonical_tip == []) ≡ false = ground (arith, ==_iff bc.canonical_tip []) in
    let built = rebuild_state_from_canonical c (rebuild_slot_map (record bc { chain = chain })) in
    (
      built,
      rw (rebuild_canonical_chain, named, walked) refl,
      ground arith,
      ground arith,
      ground arith,
    )

empty-Keeps : (whole : Blocks) → Keeps [] whole
unfolding lookup
empty-Keeps whole = record { at = λ h x found. absurd (ground arith) }

collect_of_walk :
    (blocks : Blocks) (tip : Bytes) {out : List Block}
    → chain_from_tip blocks tip ≡ some (ok out)
    → collect blocks (rounds blocks) tip [] ≡ some (ok out)
unfolding chain_from_tip
collect_of_walk blocks tip h = ground arith

IsRanked-Keeps : (small big : Blocks) → Keeps small big → IsRanked big → IsRanked small
IsRanked-Keeps small big part ranked = record {
  at = λ h b p found parent. ranked.at h b p (part.at h b found) (part.at b.prev_hash p parent);
}

small-walk :
    (c : Crypto) (before mid : Blockchain)
    → IsEngine before
    → mid.blocks ≡ added before.chain []
    → mid.canonical_tip ≡ before.canonical_tip
    → collect_known mid.blocks (rounds mid.blocks) mid.canonical_tip [] ≡ some before.chain
small-walk c before mid engine blocks tip =
    let grown = engine.grown in
    let all =
      chain_from_tip-AllFound before.blocks (now before) grown before.canonical_tip
        {out = before.chain} engine.walked in
    let none_yet = empty-Keeps before.blocks in
    let part : Keeps mid.blocks before.blocks =
      subst (λ d. Keeps d before.blocks) (sym blocks)
        (added-Keeps before.blocks before.chain [] all none_yet).0 in
    let ranked =
      IsRanked-Keeps mid.blocks before.blocks part
        (IsGrown-IsRanked before.blocks (now before) grown) in
    let (r, walked) = known_total c mid mid.canonical_tip ranked in
    let found : AllFound mid.blocks before.chain =
      subst (λ d. AllFound d before.chain) (sym blocks)
        (added-AllFound before.blocks before.chain [] all none_yet) in
    let big : collect before.blocks (rounds before.blocks) mid.canonical_tip []
        ≡ some (ok before.chain) =
      ap (λ t. collect before.blocks (rounds before.blocks) t []) tip
      ∙ collect_of_walk before.blocks before.canonical_tip engine.walked in
    walked
    ∙ ap some (
        walks_agree before.blocks mid.blocks (λ h b there. (grown.at h b there).named)
          (rounds before.blocks) (rounds mid.blocks) mid.canonical_tip [] {out = before.chain}
          {out' = r} big found walked)

restore_blocks-chain :
    (c : Crypto) (before bc : Blockchain) (tip : Block)
    → IsEngine before
    → tip.hash ≡ before.canonical_tip
    → (bc' : Blockchain) × (restore_blocks c before.chain tip bc ≡ some bc')
      × (bc'.chain ≡ before.chain)
      × (bc'.canonical_tip ≡ before.canonical_tip)
      × (bc'.poh ≡ bc.poh)
unfolding restore_blocks
restore_blocks-chain c before bc tip engine tip_at =
    let cleared : Blockchain = record bc { blocks = []; parents = [] } in
    let mid : Blockchain = record (insert_blocks before.chain cleared) {
      canonical_tip = tip.hash;
    } in
    let (blocks, poh) = insert_blocks-fields before.chain cleared in
    let walked = small-walk c before mid engine blocks tip_at in
    let some_tip : tip.hash ≢ [] = λ e.
      tip_of_walk before.blocks before.canonical_tip {out = before.chain} engine.walked
        (sym tip_at ∙ e) in
    let (built, made, chain, tip_same, clock) = rebuild-fields c mid before.chain some_tip walked in
    (update_finality built, rw (restore_blocks, made) refl, chain, tip_same ∙ tip_at, clock ∙ poh)

module _ (c : Crypto) {S : Type 0} (store : BlockStore S) {T : Type 0}
    (snapshots : SnapshotStore T) where
  -- RestoreFromStorage gives a new engine the canonical chain and the tip of an earlier one, and leaves the clock of
  -- the new engine as it is. Conditions: the blocks of the earlier engine were well placed and its chain is the
  -- walk from its tip; the store has that tip, and its blocks up to the height of the tip are that chain; and the
  -- latest snapshot can be read, if there is a store of snapshots.
  pub restored_chain :
      (before bc : Blockchain) (tip : Block) (s : S) (kept : Option T)
      → IsEngine before
      → store.get_tip s ≡ some tip
      → tip.hash ≡ before.canonical_tip
      → store.get_range 0 tip.index s ≡ some (ok before.chain)
      → ((t : T)
          → kept ≡ some t
          → (latest : Option LatestSnapshot) × (snapshots.load_latest_snapshot t ≡ ok latest))
      → (bc' : Blockchain) × (restore_from_storage c store snapshots (some s) kept bc
          ≡ some (ok tt, (bc', some s)))
        × (bc'.chain ≡ before.chain)
        × (bc'.canonical_tip ≡ before.canonical_tip)
        × (bc'.poh ≡ bc.poh)
  unfolding restore_from_storage restore_range restore_snapshot
  restored_chain before bc tip s none engine tipped tip_at ranged loads =
      let (bc', restored, chain, same_tip, clock) =
        restore_blocks-chain c before bc tip engine tip_at in
      (
        bc',
        rw (restore_from_storage, tipped, restore_range, ranged, restored) refl,
        chain,
        same_tip,
        clock,
      )
  restored_chain before bc tip s (some t) engine tipped tip_at ranged loads =
      let (found, loaded) = loads t refl in
      elim (Option-cases found) [
        | inl nothing ↦
            let read = loaded ∙ ap ok nothing in
            let (bc', restored, chain, same_tip, clock) =
              restore_blocks-chain c before bc tip engine tip_at in
            (
              bc',
              rw (restore_from_storage, tipped, read, restore_range, ranged, restored) refl,
              chain,
              same_tip,
              clock,
            )
        | inr (latest, there) ↦
            let read = loaded ∙ ap ok there in
            let (bc', restored, chain, same_tip, clock) =
              restore_blocks-chain c before (restore_snapshot latest bc) tip engine tip_at in
            (
              bc',
              rw (restore_from_storage, tipped, read, restore_range, ranged, restored) refl,
              chain,
              same_tip,
              clock,
            )
      ]
