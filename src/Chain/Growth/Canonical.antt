-- ===== src/Chain/Growth/Canonical.antt =====
-- updateCanonical of core/blockchain.go on well placed blocks.
use xenium.Prelude.{
  ℕ, ◌≤◌, ◌≡◌, ◌≢◌, sym, ap, ◌∙◌, inl, inr, Bool, false, some, List, [], arith, ◌==◌, ==_iff,
  Bool-cases, Option-cases, get_elem?,
}
use xenium.Prelude.Bytes.{Bytes, bytes_key}
use xenium.Dict.{lookup}
use xenium.Domain.{Block, Result-cases, ok}
use xenium.Crypto.{Crypto}
use xenium.Chain.{Blockchain, ChainScore}
use xenium.Chain.Walk.{Blocks, chain_from_tip}
use xenium.Chain.Score.{score_tip, better_score, weight_delta_satisfied}
use xenium.Chain.Rebuild.{rebuild_slot_map, rebuild_state_from_canonical, update_finality}
use xenium.Chain.Canonical.{
  adopt, count_reorg, count_critical, count_error, compute_reorg_depth_and_slot, guard_reorg,
  choose, update_canonical,
}
use xenium.Chain.Canonical.Guards.{update_canonical_cases}
use xenium.Chain.Canonical.Finality.{finalized_blocks_stay, All-get_elem?}
use xenium.Chain.Growth.{IsGrown}
use xenium.Chain.Growth.Walks.{chain_from_tip-AllFound, chain_from_tip-IsAscending}
use xenium.Chain.Growth.Moves.{now}

-- What choosing the canonical chain never changes, and the finalized slot, which does not fall.
pub record IsSteady (bc bc' : Blockchain) : Type 0 where
  pub blocks : bc'.blocks ≡ bc.blocks
  pub poh : bc'.poh ≡ bc.poh
  pub config : bc'.config ≡ bc.config
  pub finalized_slot : bc.finalized_slot ≤ bc'.finalized_slot

module _ (c : Crypto) where
  adopt-IsSteady :
      (tip : Bytes) (new_chain : List Block) (depth : ℕ) (bc : Blockchain)
      → IsSteady bc (adopt c tip new_chain depth bc)
  unfolding adopt count_reorg rebuild_slot_map rebuild_state_from_canonical update_finality
  adopt-IsSteady tip new_chain depth bc = ground arith

  guard_reorg-IsSteady :
      (tip : Bytes) (new_chain : List Block) (old new : ChainScore) (bc : Blockchain)
      → IsSteady bc (guard_reorg c tip new_chain old new bc).1
  unfolding guard_reorg count_critical count_error
  guard_reorg-IsSteady tip new_chain old new bc =
      let asked = record bc {
        epochs =
            (weight_delta_satisfied c bc old.cumulative_weight new.cumulative_weight bc.epochs).1;
      } in
      ground (
        arith,
        adopt-IsSteady tip new_chain (compute_reorg_depth_and_slot bc.chain new_chain).0 asked,
      )

  choose-IsSteady :
      (tip : Bytes) (old new : ChainScore) (bc : Blockchain) {accepted : Bool} {bc' : Blockchain}
      → choose c tip old new bc ≡ some (accepted, bc')
      → IsSteady bc bc'
  unfolding choose
  choose-IsSteady tip old new bc {accepted} {bc'} h = elim (Bool-cases (better_score new old)) [
    | inr worse ↦ ground arith
    | inl better ↦ elim (Option-cases (chain_from_tip bc.blocks tip)) [
      | inl endless ↦ absurd (ground arith)
      | inr (walk, walked) ↦ elim (Result-cases walk) [
        | inr (failed, no_chain) ↦ ground arith
        | inl (new_chain, chained) ↦
            let same : bc' ≡ (guard_reorg c tip new_chain old new bc).1 = ground arith in
            rw same (guard_reorg-IsSteady tip new_chain old new bc)
      ]
    ]
  ]

  -- With a canonical tip, an attempt on another changes no block and no clock, and the finalized slot does
  -- not fall.
  pub update_canonical-IsSteady :
      (tip : Bytes) (bc : Blockchain) {accepted : Bool} {bc' : Blockchain}
      → bc.canonical_tip ≢ []
      → update_canonical c tip bc ≡ some (accepted, bc')
      → IsSteady bc bc'
  unfolding update_canonical
  update_canonical-IsSteady tip bc {accepted} {bc'} started h =
      let not_first : (bc.canonical_tip == []) ≡ false =
        grind (arith, ==_iff bc.canonical_tip []) in
      elim (Option-cases (score_tip c bc bc.canonical_tip bc.epochs)) [
        | inl endless ↦ absurd (ground arith)
        | inr ((old, e), scored) ↦ elim (Option-cases (score_tip c bc tip e)) [
          | inl endless ↦ absurd (ground arith)
          | inr ((new, e'), scored_new) ↦
              let k : IsSteady (record bc { epochs = e' }) bc' =
                choose-IsSteady tip old new (record bc { epochs = e' }) {accepted = accepted}
                  (ground arith) in
              record {
                blocks = k.blocks;
                poh = k.poh;
                config = k.config;
                finalized_slot = k.finalized_slot;
              }
        ]
      ]

-- The blocks are well placed, and the canonical chain is the one that leads to the canonical tip.
pub record IsEngine (bc : Blockchain) : Type 0 where
  pub grown : IsGrown bc.blocks (now bc)
  pub walked : chain_from_tip bc.blocks bc.canonical_tip ≡ some (ok bc.chain)

pub tip_of_walk :
    (blocks : Blocks) (tip : Bytes) {out : List Block}
    → chain_from_tip blocks tip ≡ some (ok out)
    → tip ≢ []
unfolding chain_from_tip
tip_of_walk blocks tip h empty = ground (arith, ==_iff tip [])

module _ (c : Crypto) where
  update_canonical-walked :
      (tip : Bytes) (bc : Blockchain) {accepted : Bool} {bc' : Blockchain}
      → chain_from_tip bc.blocks bc.canonical_tip ≡ some (ok bc.chain)
      → update_canonical c tip bc ≡ some (accepted, bc')
      → chain_from_tip bc.blocks bc'.canonical_tip ≡ some (ok bc'.chain)
  update_canonical-walked tip bc {accepted} {bc'} walked h =
      elim (update_canonical_cases c tip bc (tip_of_walk bc.blocks bc.canonical_tip walked) h) [
        | inl (turned_down, kept) ↦ rw (kept.canonical_tip, kept.chain) walked
        | inr (taken, is_tip, wins) ↦ rw is_tip wins.walked
      ]

  -- Choosing a chain keeps the blocks well placed, and the canonical chain the one of the tip.
  pub update_canonical-IsEngine :
      (tip : Bytes) (bc : Blockchain) {accepted : Bool} {bc' : Blockchain}
      → IsEngine bc
      → update_canonical c tip bc ≡ some (accepted, bc')
      → IsEngine bc'
  update_canonical-IsEngine tip bc {accepted} {bc'} engine h =
      let k =
        update_canonical-IsSteady c tip bc (tip_of_walk bc.blocks bc.canonical_tip engine.walked)
          h in
      record {
        grown = rw (k.blocks, k.poh) engine.grown;
        walked = rw k.blocks (update_canonical-walked tip bc engine.walked h);
      }

  -- A finalized block of the canonical chain stays at its place, and it is the same block.
  pub update_canonical-final :
      (tip : Bytes) (bc : Blockchain) {accepted : Bool} {bc' : Blockchain}
      → IsEngine bc
      → update_canonical c tip bc ≡ some (accepted, bc')
      → (i : ℕ) (b : Block) → get_elem? bc.chain i ≡ some b
      → bc.finalized_slot ≢ 0
      → b.slot ≤ bc.finalized_slot
      → get_elem? bc'.chain i ≡ some b
  update_canonical-final tip bc {accepted} {bc'} engine h i b at finality final =
      let started = tip_of_walk bc.blocks bc.canonical_tip engine.walked in
      let k = update_canonical-IsSteady c tip bc started h in
      let rising =
        chain_from_tip-IsAscending bc.blocks (now bc) engine.grown bc.canonical_tip engine.walked in
      let (b', at', same) = finalized_blocks_stay c tip bc started finality rising h i b at final in
      let walked' = update_canonical-walked tip bc engine.walked h in
      let found =
        All-get_elem? (λ x. lookup x.hash bc.blocks ≡ some x) bc.chain i b
          (chain_from_tip-AllFound bc.blocks (now bc) engine.grown bc.canonical_tip engine.walked)
          at in
      let found' =
        All-get_elem? (λ x. lookup x.hash bc.blocks ≡ some x) bc'.chain i b'
          (chain_from_tip-AllFound bc.blocks (now bc) engine.grown bc'.canonical_tip walked') at' in
      let one : some b' ≡ some b =
        sym found' ∙ ap (λ (h : Bytes). lookup h bc.blocks) same ∙ found in
      at' ∙ one
