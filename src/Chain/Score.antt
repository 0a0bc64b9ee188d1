-- ===== src/Chain/Score.antt =====
-- The fork-choice score of core/blockchain.go: the weight of a chain, and the order of scores.
pub mod Order
use xenium.Prelude.{
  ℕ, zero, suc, ◌+◌, ◌*◌, ◌/◌, ◌%◌, ◌-◌, Bool, true, false, not, Option, none, some, List, [], ltb,
  leb, nat_beq, if◌then◌else◌, ◌==◌, get_last?,
}
use xenium.Prelude.Bytes.{Bytes, bytes_key, bytes_lt}
use xenium.Prelude.Int.{ℤ, pos, leb_ℤ, add_word, to_uint64, word}
use xenium.Dict.{lookup}
use xenium.Domain.{Block}
use xenium.Crypto.{Crypto}
use xenium.Chain.{Blockchain, ChainConfig, ChainScore, Epochs, genesis_mark}
use xenium.Chain.Epoch.{snapshot_stake, snapshot_for_slot}
use xenium.Chain.Walk.{rounds}

abbrev pub zero_score : ChainScore
zero_score = record { slot = 0; cumulative_weight = 0; hash = [] }

unfoldable pub better_score : ChainScore → ChainScore → Bool
better_score a b =
    if not (nat_beq a.cumulative_weight b.cumulative_weight)
    then ltb b.cumulative_weight a.cumulative_weight
    else if not (nat_beq a.slot b.slot)
    then ltb b.slot a.slot
    else bytes_lt a.hash b.hash

unfoldable pub chain_tip_slot : List Block → ℕ
chain_tip_slot chain = elim (get_last? chain) [ none ↦ 0 | some b ↦ b.slot ]

-- The least weight by which a reorganisation must win.
unfoldable pub min_delta : ChainConfig → ℕ → ℕ
min_delta config active =
    let delta = active * to_uint64 config.min_reorg_weight_delta_p % word / 100 in
    if nat_beq delta 0 then 1 else delta

module _ (c : Crypto) where
  -- The loop of `scoreTip` from `cur` on, on the weight so far.
  unfoldable pub weigh : Blockchain → ℕ → Block → ℕ → Epochs → Option (ℕ × Epochs)
  weigh bc zero cur weight e = none
  weigh bc (suc fuel) cur weight e =
      let (stake, e') = snapshot_stake c bc cur.slot cur.validator e in
      let total = add_word weight stake in
      if cur.prev_hash == genesis_mark
      then some (total, e')
      else elim (lookup cur.prev_hash bc.blocks) [
        | none ↦ some (total, e')
        | some parent ↦ weigh bc fuel parent total e'
      ]

  unfoldable pub score_tip : Blockchain → Bytes → Epochs → Option (ChainScore × Epochs)
  score_tip bc tip e = elim (lookup tip bc.blocks) [
    | none ↦ some (zero_score, e)
    | some block ↦ elim (weigh bc (rounds bc.blocks) block 0 e) [
      | none ↦ none
      | some (weight, e') ↦
          some (record { slot = block.slot; cumulative_weight = weight; hash = block.hash }, e')
    ]
  ]

  unfoldable pub active_stake : Blockchain → Epochs → ℕ × Epochs
  active_stake bc e =
      let (snap, e') = snapshot_for_slot c bc (chain_tip_slot bc.chain) e in
      (elim snap [ none ↦ 0 | some s ↦ s.total_stake ], e')

  unfoldable pub weight_delta_satisfied : Blockchain → ℕ → ℕ → Epochs → Bool × Epochs
  weight_delta_satisfied bc old_weight new_weight e =
      if leb_ℤ bc.config.min_reorg_weight_delta_p (pos 0)
      then (true, e)
      else if leb new_weight old_weight
      then (false, e)
      else let (active, e') = active_stake bc e in
        (leb (add_word old_weight (min_delta bc.config active)) new_weight, e')

  unfoldable pub weight_delta_required : Blockchain → ℕ → ℕ → Epochs → (ℕ × ℕ) × Epochs
  weight_delta_required bc old_weight new_weight e =
      let (active, e') = active_stake bc e in
      (
        (
          min_delta bc.config active,
          if ltb old_weight new_weight then new_weight - old_weight else 0,
        ),
        e',
      )
