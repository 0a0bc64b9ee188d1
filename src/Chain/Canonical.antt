-- ===== src/Chain/Canonical.antt =====
-- updateCanonical of core/blockchain.go: whether a new tip becomes the canonical one.
pub mod Guards
pub mod Finality
pub mod Snapshots
pub mod Total
use xenium.Prelude.{
  ℕ, zero, suc, ◌+◌, ◌-◌, Bool, true, false, ◌&&◌, Option, none, some, List, [], ◌∷◌, ltb, leb,
  nat_beq, if◌then◌else◌, ◌==◌, length, get_elem?,
}
use xenium.Prelude.Bytes.{Bytes, bytes_key}
use xenium.Prelude.Int.{ℤ, pos, ltb_ℤ, add_word}
use xenium.Domain.{Block, Result, ok, err}
use xenium.Crypto.{Crypto}
use xenium.Chain.{Blockchain, ReorgMetrics, ChainScore, Epochs}
use xenium.Chain.Walk.{chain_from_tip}
use xenium.Chain.Score.{score_tip, better_score, weight_delta_satisfied, weight_delta_required}
use xenium.Chain.Rebuild.{
  rebuild_slot_map, rebuild_state_from_canonical, rebuild_canonical_chain, update_finality,
}

-- How many blocks at the start of two chains have the same hashes.
unfoldable pub diverge : List Block → List Block → ℕ
diverge [] new = 0
diverge (a ∷ old) [] = 0
diverge (a ∷ old) (b ∷ new) = if a.hash == b.hash then suc (diverge old new) else 0

unfoldable pub diverge_slot : List Block → List Block → ℕ
diverge_slot old new = elim (get_elem? old (diverge old new)) [
  | some b ↦ b.slot
  | none ↦ elim (get_elem? new (diverge old new)) [ some b ↦ b.slot | none ↦ 0 ]
]

unfoldable pub compute_reorg_depth_and_slot : List Block → List Block → ℕ × ℕ
compute_reorg_depth_and_slot old new = (length old - diverge old new, diverge_slot old new)

-- The counters of the attempts.
unfoldable pub count_critical : Blockchain → Blockchain
count_critical bc = record bc {
  reorg_stats = record bc.reorg_stats { critical = add_word bc.reorg_stats.critical 1 };
}

unfoldable pub count_error : Blockchain → Blockchain
count_error bc = record bc {
  reorg_stats = record bc.reorg_stats { error = add_word bc.reorg_stats.error 1 };
}

unfoldable pub count_reorg : ℕ → Blockchain → Blockchain
count_reorg depth bc =
    if nat_beq depth 0
    then bc
    else if ltb 1 depth
    then record bc { reorg_stats = record bc.reorg_stats { warn = add_word bc.reorg_stats.warn 1 } }
    else record bc { reorg_stats = record bc.reorg_stats { info = add_word bc.reorg_stats.info 1 } }

module _ (c : Crypto) where
  -- The writes of an accepted tip.
  unfoldable pub adopt : Bytes → List Block → ℕ → Blockchain → Blockchain
  adopt tip new_chain depth bc =
      let counted = count_reorg depth bc in
      update_finality (
        rebuild_state_from_canonical c
          (rebuild_slot_map (record counted { canonical_tip = tip; chain = new_chain })))

  -- The guards on a chain whose score is better, in the order of the code. The log line of a too
  -- small weight asks for the active stake once more.
  unfoldable pub guard_reorg :
      Bytes → List Block → ChainScore → ChainScore → Blockchain → Bool × Blockchain
  guard_reorg tip new_chain current_score new_score bc =
      let (depth, slot) = compute_reorg_depth_and_slot bc.chain new_chain in
      if ltb 0 bc.finalized_slot && leb slot bc.finalized_slot
      then (false, count_critical bc)
      else if ltb_ℤ bc.config.max_reorg_depth (pos depth)
      then (false, count_error bc)
      else let old_weight = current_score.cumulative_weight in
        let new_weight = new_score.cumulative_weight in
        let (enough, e) = weight_delta_satisfied c bc old_weight new_weight bc.epochs in
        let asked = record bc { epochs = e } in
        let (_, e') = weight_delta_required c asked old_weight new_weight e in
        if enough
        then (true, adopt tip new_chain depth asked)
        else (false, count_error (record asked { epochs = e' }))

  -- The comparison of the scores.
  unfoldable pub choose : Bytes → ChainScore → ChainScore → Blockchain → Option (Bool × Blockchain)
  choose tip current_score new_score bc =
      if better_score new_score current_score
      then elim (chain_from_tip bc.blocks tip) [
        | none ↦ none
        | some (err e) ↦ some (false, bc)
        | some (ok new_chain) ↦ some (guard_reorg tip new_chain current_score new_score bc)
      ]
      else some (false, bc)

  -- The first tip of all.
  unfoldable pub first_tip : Bytes → Blockchain → Option (Bool × Blockchain)
  first_tip tip bc = elim (rebuild_canonical_chain c (record bc { canonical_tip = tip })) [
    | none ↦ none
    | some rebuilt ↦ some (true, update_finality rebuilt)
  ]

  -- `none` is a walk that is not over.
  unfoldable pub update_canonical : Bytes → Blockchain → Option (Bool × Blockchain)
  update_canonical tip bc =
      if bc.canonical_tip == []
      then first_tip tip bc
      else elim (score_tip c bc bc.canonical_tip bc.epochs) [
        | none ↦ none
        | some (current_score, e) ↦ elim (score_tip c bc tip e) [
          | none ↦ none
          | some (new_score, e') ↦ choose tip current_score new_score (record bc { epochs = e' })
        ]
      ]
