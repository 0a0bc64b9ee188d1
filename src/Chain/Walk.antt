-- ===== src/Chain/Walk.antt =====
-- The walks of core/blockchain.go from a block to the first one, along the previous hashes. The source
-- has no bound on them; the model gives a walk one round more than there are blocks, and `none` is a walk
-- that is not over by then.
pub mod Linked
pub mod Total
use xenium.Prelude.{ℕ, zero, suc, Option, none, some, List, [], ◌∷◌, if◌then◌else◌, ◌==◌, length}
use xenium.Prelude.Bytes.{Bytes, bytes_key}
use xenium.Dict.{Dict, lookup}
use xenium.Domain.{Block, Result, ok, err, empty_tip_hash, missing_block}
use xenium.Chain.{genesis_mark}

abbrev pub Blocks : Type 0
Blocks = Dict Bytes Block

abbrev pub rounds : Blocks → ℕ
rounds blocks = suc (length blocks)

-- The loop of `chainFromTip`. The source collects the blocks from the tip on and then reverses them; here
-- `chain` holds the blocks above `hash`, the lowest first.
unfoldable pub collect : Blocks → ℕ → Bytes → List Block → Option (Result (List Block))
collect blocks zero hash chain = none
collect blocks (suc fuel) hash chain = elim (lookup hash blocks) [
  | none ↦ some (err missing_block)
  | some cur ↦
      let rest = collect blocks fuel cur.prev_hash (cur ∷ chain) in
      if cur.prev_hash == genesis_mark then some (ok (cur ∷ chain)) else rest
]

unfoldable pub chain_from_tip : Blocks → Bytes → Option (Result (List Block))
chain_from_tip blocks tip =
    if tip == [] then some (err empty_tip_hash) else collect blocks (rounds blocks) tip []

-- The loop of `rebuildCanonicalChain`, which stops at a missing block with what it has.
unfoldable pub collect_known : Blocks → ℕ → Bytes → List Block → Option (List Block)
collect_known blocks zero hash chain = none
collect_known blocks (suc fuel) hash chain = elim (lookup hash blocks) [
  | none ↦ some chain
  | some cur ↦
      let rest = collect_known blocks fuel cur.prev_hash (cur ∷ chain) in
      if cur.prev_hash == genesis_mark then some (cur ∷ chain) else rest
]
