-- ===== src/Chain/Canonical/Snapshots.antt =====
-- The epoch snapshots of core/blockchain.go before and after updateCanonical.
use xenium.Prelude.{
  ℕ, zero, suc, ◌≡◌, Bool, some, List, [], ltb, leb, ◌&&◌, arith, ◌==◌, Bool-cases, Option-cases,
  inl, inr,
}
use xenium.Prelude.Bytes.{Bytes, bytes_key}
use xenium.Prelude.Int.{add_word, pos, leb_ℤ, ltb_ℤ}
use xenium.Dict.{lookup}
use xenium.Domain.{Block, Result-cases}
use xenium.Crypto.{Crypto}
use xenium.Chain.{Blockchain, ChainScore, Epochs, genesis_mark}
use xenium.Chain.Epoch.{snapshot_stake, snapshot_for_slot, epoch_for_slot}
use xenium.Chain.Epoch.Frozen.{
  Extends, Extends-refl, Extends-trans, snapshot_stake-Extends, ensure_snapshot-Extends,
}
use xenium.Chain.Walk.{rounds, chain_from_tip}
use xenium.Chain.Score.{
  weigh, score_tip, better_score, chain_tip_slot, active_stake, weight_delta_satisfied,
  weight_delta_required,
}
use xenium.Chain.Rebuild.{
  rebuild_slot_map, rebuild_state_from_canonical, rebuild_canonical_chain, update_finality,
}
use xenium.Chain.Canonical.{
  adopt, count_reorg, count_critical, count_error, compute_reorg_depth_and_slot, guard_reorg,
  choose, first_tip, update_canonical,
}

module _ (c : Crypto) (bc : Blockchain) where
  weigh-Extends :
      (fuel : ℕ) (cur : Block) (weight : ℕ) (e : Epochs) {total : ℕ} {e' : Epochs}
      → weigh c bc fuel cur weight e ≡ some (total, e')
      → Extends e e'
  unfolding weigh
  weigh-Extends zero cur weight e h = cc
  weigh-Extends (suc fuel) cur weight e {total} {e'} h =
      let next = snapshot_stake c bc cur.slot cur.validator e in
      let made = snapshot_stake-Extends c bc cur.slot cur.validator e in
      elim (Bool-cases (cur.prev_hash == genesis_mark)) [
        | inl top ↦ let same : e' ≡ next.1 = ground arith in rw same made
        | inr below ↦ elim (Option-cases (lookup cur.prev_hash bc.blocks)) [
          | inl missing ↦ let same : e' ≡ next.1 = ground arith in rw same made
          | inr (parent, found) ↦ Extends-trans made (
              weigh-Extends fuel parent (add_word weight next.0) next.1 {total = total} {e' = e'}
                (ground arith))
        ]
      ]

  pub score_tip-Extends :
      (tip : Bytes) (e : Epochs) {score : ChainScore} {e' : Epochs}
      → score_tip c bc tip e ≡ some (score, e')
      → Extends e e'
  unfolding score_tip
  score_tip-Extends tip e {score} {e'} h = elim (Option-cases (lookup tip bc.blocks)) [
    | inl missing ↦ let same : e' ≡ e = ground arith in rw same (Extends-refl e)
    | inr (block, found) ↦ elim (Option-cases (weigh c bc (rounds bc.blocks) block 0 e)) [
      | inl endless ↦ absurd (ground arith)
      | inr ((weight, made), weighed) ↦
          let same : e' ≡ made = ground arith in
          rw same (weigh-Extends (rounds bc.blocks) block 0 e weighed)
    ]
  ]

  active_stake-Extends : (e : Epochs) → Extends e (active_stake c bc e).1
  unfolding active_stake snapshot_for_slot
  active_stake-Extends e =
      ensure_snapshot-Extends c bc (epoch_for_slot bc.config (chain_tip_slot bc.chain)) e

  weight_delta_satisfied-Extends :
      (old new : ℕ) (e : Epochs) → Extends e (weight_delta_satisfied c bc old new e).1
  unfolding weight_delta_satisfied
  weight_delta_satisfied-Extends old new e =
      elim (Bool-cases (leb_ℤ bc.config.min_reorg_weight_delta_p (pos 0))) [
        | inl free ↦ rw (free, weight_delta_satisfied) (Extends-refl e)
        | inr priced ↦ elim (Bool-cases (leb new old)) [
          | inl lighter ↦ rw (priced, lighter, weight_delta_satisfied) (Extends-refl e)
          | inr heavier ↦ rw (priced, heavier, weight_delta_satisfied) (active_stake-Extends e)
        ]
      ]

  weight_delta_required-Extends :
      (old new : ℕ) (e : Epochs) → Extends e (weight_delta_required c bc old new e).1
  unfolding weight_delta_required
  weight_delta_required-Extends old new e = active_stake-Extends e

module _ (c : Crypto) where
  epochs-adopt :
      (tip : Bytes) (new_chain : List Block) (depth : ℕ) (bc : Blockchain)
      → (adopt c tip new_chain depth bc).epochs ≡ bc.epochs
  unfolding adopt count_reorg rebuild_slot_map rebuild_state_from_canonical update_finality
  epochs-adopt tip new_chain depth bc = ground arith

  epochs-first_tip :
      (tip : Bytes) (bc : Blockchain) {accepted : Bool} {bc' : Blockchain}
      → first_tip c tip bc ≡ some (accepted, bc')
      → bc'.epochs ≡ bc.epochs
  unfolding first_tip rebuild_canonical_chain rebuild_slot_map rebuild_state_from_canonical
      update_finality
  epochs-first_tip tip bc h = ground arith

  guard_reorg-Extends :
      (tip : Bytes) (new_chain : List Block) (old new : ChainScore) (bc : Blockchain)
      → Extends bc.epochs (guard_reorg c tip new_chain old new bc).1.epochs
  unfolding guard_reorg count_critical count_error
  guard_reorg-Extends tip new_chain old new bc =
      let (depth, slot) = compute_reorg_depth_and_slot bc.chain new_chain in
      let w = weight_delta_satisfied c bc old.cumulative_weight new.cumulative_weight bc.epochs in
      let asked =
        weight_delta_satisfied-Extends c bc old.cumulative_weight new.cumulative_weight bc.epochs in
      let again =
        weight_delta_required-Extends c (record bc { epochs = w.1 }) old.cumulative_weight
          new.cumulative_weight w.1 in
      elim (Bool-cases (ltb 0 bc.finalized_slot && leb slot bc.finalized_slot)) [
        | inl touches ↦ rw (touches, guard_reorg) (Extends-refl bc.epochs)
        | inr apart ↦ elim (Bool-cases (ltb_ℤ bc.config.max_reorg_depth (pos depth))) [
          | inl deep ↦ rw (apart, deep, guard_reorg) (Extends-refl bc.epochs)
          | inr shallow ↦ elim (Bool-cases w.0) [
            | inl heavy ↦ rw (apart, shallow, heavy, guard_reorg, epochs-adopt) asked
            | inr light ↦ rw (apart, shallow, light, guard_reorg) (Extends-trans asked again)
          ]
        ]
      ]

  choose-Extends :
      (tip : Bytes) (old new : ChainScore) (bc : Blockchain) {accepted : Bool} {bc' : Blockchain}
      → choose c tip old new bc ≡ some (accepted, bc')
      → Extends bc.epochs bc'.epochs
  unfolding choose
  choose-Extends tip old new bc {accepted} {bc'} h = elim (Bool-cases (better_score new old)) [
    | inr worse ↦ let same : bc' ≡ bc = ground arith in rw same (Extends-refl bc.epochs)
    | inl better ↦ elim (Option-cases (chain_from_tip bc.blocks tip)) [
      | inl endless ↦ absurd (ground arith)
      | inr (walk, walked) ↦ elim (Result-cases walk) [
        | inr (failed, e) ↦ let same : bc' ≡ bc = ground arith in rw same (Extends-refl bc.epochs)
        | inl (new_chain, e) ↦
            let same : bc' ≡ (guard_reorg c tip new_chain old new bc).1 = ground arith in
            rw same (guard_reorg-Extends tip new_chain old new bc)
      ]
    ]
  ]

  -- Whatever becomes of a new tip, every epoch snapshot that was there is there unchanged.
  pub snapshots_stay :
      (tip : Bytes) (bc : Blockchain) {accepted : Bool} {bc' : Blockchain}
      → update_canonical c tip bc ≡ some (accepted, bc')
      → Extends bc.epochs bc'.epochs
  unfolding update_canonical
  snapshots_stay tip bc {accepted} {bc'} h = elim (Bool-cases (bc.canonical_tip == [])) [
    | inl first ↦
        let same : bc'.epochs ≡ bc.epochs =
          epochs-first_tip tip bc {accepted = accepted} {bc' = bc'} (ground arith) in
        rw same (Extends-refl bc.epochs)
    | inr started ↦ elim (Option-cases (score_tip c bc bc.canonical_tip bc.epochs)) [
      | inl endless ↦ absurd (ground arith)
      | inr ((old, e), scored) ↦ elim (Option-cases (score_tip c bc tip e)) [
        | inl endless ↦ absurd (ground arith)
        | inr ((new, e'), scored_new) ↦
            Extends-trans (score_tip-Extends c bc bc.canonical_tip bc.epochs scored) (
              Extends-trans (score_tip-Extends c bc tip e scored_new) (
                choose-Extends tip old new (record bc { epochs = e' }) {accepted = accepted}
                  {bc' = bc'} (ground arith)))
      ]
    ]
  ]
