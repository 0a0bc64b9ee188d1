-- ===== src/Chain/Canonical/Guards.antt =====
-- The guards of updateCanonical of core/blockchain.go.
use xenium.Prelude.{
  ℕ, ◌-◌, ◌≡◌, ◌≢◌, refl, ap, ◌∙◌, ◌⊎◌, inl, inr, Bool, true, false, some, List, [], arith, ◌==◌,
  ==_iff, ◌<◌, Bool-cases, Option-cases, length, ltb, leb, ◌&&◌,
}
use xenium.Prelude.Bytes.{Bytes, bytes_key}
use xenium.Prelude.Int.{pos, ◌≤ℤ◌, ltb_ℤ}
use xenium.Domain.{Block, ok, Result-cases}
use xenium.Crypto.{Crypto}
use xenium.Chain.{Blockchain, ChainScore, Epochs}
use xenium.Chain.Walk.{chain_from_tip}
use xenium.Chain.Score.{score_tip, better_score, weight_delta_satisfied}
use xenium.Chain.Rebuild.{rebuild_slot_map, rebuild_state_from_canonical, update_finality}
use xenium.Chain.Canonical.{
  diverge, diverge_slot, compute_reorg_depth_and_slot, count_critical, count_error, count_reorg,
  adopt, guard_reorg, choose, update_canonical,
}

-- What an attempt that is turned down leaves as it was.
pub record IsKept (bc bc' : Blockchain) : Type 0 where
  pub canonical_tip : bc'.canonical_tip ≡ bc.canonical_tip
  pub chain : bc'.chain ≡ bc.chain
  pub blocks : bc'.blocks ≡ bc.blocks
  pub state : bc'.state ≡ bc.state
  pub slot_produced : bc'.slot_produced ≡ bc.slot_produced
  pub finalized_slot : bc'.finalized_slot ≡ bc.finalized_slot
  pub validators : bc'.validators ≡ bc.validators
  pub stats : bc'.stats ≡ bc.stats

IsKept-epochs :
    (bc : Blockchain) (e : Epochs) (bc' : Blockchain)
    → IsKept (record bc { epochs = e }) bc'
    → IsKept bc bc'
IsKept-epochs bc e bc' k = record {
  canonical_tip = k.canonical_tip;
  chain = k.chain;
  blocks = k.blocks;
  state = k.state;
  slot_produced = k.slot_produced;
  finalized_slot = k.finalized_slot;
  validators = k.validators;
  stats = k.stats;
}

module _ (c : Crypto) where
  pub chain-adopt :
      (tip : Bytes) (new_chain : List Block) (depth : ℕ) (bc : Blockchain)
      → ((adopt c tip new_chain depth bc).chain ≡ new_chain)
        × ((adopt c tip new_chain depth bc).canonical_tip ≡ tip)
  unfolding adopt count_reorg rebuild_slot_map rebuild_state_from_canonical update_finality
  chain-adopt tip new_chain depth bc = ground arith

  -- What a chain has passed that becomes canonical in place of that of `bc`.
  pub record Wins (tip : Bytes) (bc : Blockchain) (new_chain : List Block) : Type 0 where
    pub current_score : ChainScore
    pub new_score : ChainScore
    pub between : Epochs
    pub after : Epochs
    pub scored : score_tip c bc bc.canonical_tip bc.epochs ≡ some (current_score, between)
    pub scored_new : score_tip c bc tip between ≡ some (new_score, after)
    pub better : better_score new_score current_score ≡ true
    pub walked : chain_from_tip bc.blocks tip ≡ some (ok new_chain)
    pub unfinalized : bc.finalized_slot ≢ 0 → bc.finalized_slot < diverge_slot bc.chain new_chain
    pub shallow : pos (length bc.chain - diverge bc.chain new_chain) ≤ℤ bc.config.max_reorg_depth
    pub heavy :
        (weight_delta_satisfied c
          (record bc { epochs = after })
          current_score.cumulative_weight
          new_score.cumulative_weight
          after).0
        ≡ true

  guard_reorg_cases :
      (tip : Bytes) (new_chain : List Block) (old new : ChainScore) (bc : Blockchain)
      → (((guard_reorg c tip new_chain old new bc).0 ≡ false)
          × IsKept bc (guard_reorg c tip new_chain old new bc).1)
        ⊎ (((guard_reorg c tip new_chain old new bc).0 ≡ true)
            × (bc.finalized_slot ≢ 0 → bc.finalized_slot < diverge_slot bc.chain new_chain)
            × (pos (length bc.chain - diverge bc.chain new_chain) ≤ℤ bc.config.max_reorg_depth)
            × ((weight_delta_satisfied c bc old.cumulative_weight new.cumulative_weight bc.epochs).0
                ≡ true)
            × ((guard_reorg c tip new_chain old new bc).1.chain ≡ new_chain)
            × ((guard_reorg c tip new_chain old new bc).1.canonical_tip ≡ tip))
  unfolding guard_reorg compute_reorg_depth_and_slot count_critical count_error
  guard_reorg_cases tip new_chain old new bc =
      elim (Bool-cases
        (ltb 0 bc.finalized_slot && leb (diverge_slot bc.chain new_chain) bc.finalized_slot)) [
          | inl touches ↦ inl (rw (touches, guard_reorg) (refl, ground arith))
          | inr apart ↦
              elim (Bool-cases (
                ltb_ℤ bc.config.max_reorg_depth
                  (pos (length bc.chain - diverge bc.chain new_chain)))) [
                    | inl deep ↦ inl (rw (apart, deep, guard_reorg) (refl, ground arith))
                    | inr shallow ↦
                        elim (Bool-cases
                          (weight_delta_satisfied c bc old.cumulative_weight new.cumulative_weight
                            bc.epochs).0) [
                              | inl heavy ↦ inr (
                                  rw (apart, shallow, heavy, guard_reorg)
                                    (
                                      refl,
                                      (λ n. ground arith),
                                      ground arith,
                                      refl,
                                      (chain-adopt tip new_chain _ _).0,
                                      (chain-adopt tip new_chain _ _).1,
                                    ))
                              | inr light ↦
                                  inl (rw (apart, shallow, light, guard_reorg) (refl, ground arith))
                            ]
                  ]
        ]

  choose_result :
      (tip : Bytes) (current_score new_score : ChainScore) (bc : Blockchain) (e e' : Epochs)
      {accepted : Bool} {bc' : Blockchain}
      → score_tip c bc bc.canonical_tip bc.epochs ≡ some (current_score, e)
      → score_tip c bc tip e ≡ some (new_score, e')
      → choose c tip current_score new_score (record bc { epochs = e' }) ≡ some (accepted, bc')
      → ((accepted ≡ false) × IsKept bc bc')
        ⊎ ((accepted ≡ true) × (bc'.canonical_tip ≡ tip) × Wins tip bc bc'.chain)
  unfolding choose
  choose_result tip current_score new_score bc e e' {accepted} {bc'} scored scored_new h =
      let bc₁ = record bc { epochs = e' } in
      elim (Bool-cases (better_score new_score current_score)) [
        | inr worse ↦ inl (ground arith)
        | inl better ↦ elim (Option-cases (chain_from_tip bc.blocks tip)) [
          | inl endless ↦ absurd (ground arith)
          | inr (walk, walked) ↦ elim (Result-cases walk) [
            | inr (failed, no_chain) ↦ inl (ground arith)
            | inl (new_chain, chained) ↦
                let r = guard_reorg c tip new_chain current_score new_score bc₁ in
                let first : accepted ≡ r.0 = ground arith in
                let second : bc' ≡ r.1 = ground arith in
                elim (guard_reorg_cases tip new_chain current_score new_score bc₁) [
                  | inl (turned_down, kept) ↦
                      inl (first ∙ turned_down, rw second (IsKept-epochs bc e' r.1 kept))
                  | inr (taken, unfinalized, shallow, heavy, chain, is_tip) ↦ inr (
                    first ∙ taken,
                    ap (λ (b : Blockchain). b.canonical_tip) second ∙ is_tip,
                    rw (second, chain)
                        (record {
                          current_score = current_score;
                          new_score = new_score;
                          between = e;
                          after = e';
                          scored = scored;
                          scored_new = scored_new;
                          better = better;
                          walked = rw chained at walked;
                          unfinalized = unfinalized;
                          shallow = shallow;
                          heavy = heavy;
                        }),
                  )
                ]
          ]
        ]
      ]

  -- An attempt on a new tip ends in one of two ways: it is turned down, and the tip, the chain, the blocks,
  -- the state, the slot map, the finalized slot, the validators and their statistics stay; or the tip is
  -- canonical, and its chain has the better score, parts from the old one behind the finalized slot,
  -- removes at most the allowed number of blocks and has the required weight. Condition: there is a
  -- canonical tip before.
  pub update_canonical_cases :
      (tip : Bytes) (bc : Blockchain) {accepted : Bool} {bc' : Blockchain}
      → bc.canonical_tip ≢ []
      → update_canonical c tip bc ≡ some (accepted, bc')
      → ((accepted ≡ false) × IsKept bc bc')
        ⊎ ((accepted ≡ true) × (bc'.canonical_tip ≡ tip) × Wins tip bc bc'.chain)
  unfolding update_canonical
  update_canonical_cases tip bc {accepted} {bc'} started h =
      let not_first : (bc.canonical_tip == []) ≡ false =
        grind (arith, ==_iff bc.canonical_tip []) in
      elim (Option-cases (score_tip c bc bc.canonical_tip bc.epochs)) [
        | inl endless ↦ absurd (ground arith)
        | inr ((current_score, e), scored) ↦ elim (Option-cases (score_tip c bc tip e)) [
          | inl endless ↦ absurd (ground arith)
          | inr ((new_score, e'), scored_new) ↦
              choose_result tip current_score new_score bc e e' scored scored_new (ground arith)
        ]
      ]
