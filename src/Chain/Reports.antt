-- ===== src/Chain/Reports.antt =====
-- The reports of core/blockchain.go on the ends of the forks and on the snapshots. The weights of the blocks that
-- were weighed are kept in a cache.
pub mod Total
pub mod Weights
pub mod Scored
pub mod Summaries
use xenium.Prelude.{
  ℕ, zero, suc, Bool, true, not, ◌&&◌, ◌||◌, Option, none, some, List, [], ◌∷◌, ◌++◌, ltb, nat_beq,
  nat_eq, if◌then◌else◌, ◌==◌,
}
use xenium.Prelude.Bytes.{Bytes, bytes_key, bytes_lt}
use xenium.Prelude.Int.{add_word}
use xenium.Prelude.Sort.{sort_slice}
use xenium.Dict.{Dict, lookup, insert, contains, keys, values}
use xenium.Crypto.{Crypto}
use xenium.Chain.{Blockchain, ChainScore, Epochs, EpochSnapshot, genesis_mark}
use xenium.Chain.Walk.{Blocks, rounds}
use xenium.Chain.Score.{zero_score}
use xenium.Chain.Epoch.{snapshot_for_slot, snapshot_stake}

pub record ForkCandidate : Type 0 where
  pub hash : Bytes
  pub slot : ℕ
  pub cumulative_weight : ℕ
  pub parent : Bytes

-- The weights that were computed, and the epochs, which a call for a stake may change.
abbrev pub Cache : Type 0
Cache = Dict Bytes ℕ × Epochs

-- `hasChild`: the hashes that some block names as its parent.
unfoldable pub mark_parents : List Bytes → Dict Bytes Bool → Dict Bytes Bool
mark_parents [] marked = marked
mark_parents (parent ∷ parents) marked = mark_parents parents (
    if not (parent == []) && not (parent == genesis_mark)
    then insert parent true marked
    else marked)

unfoldable pub candidate_less : ForkCandidate → ForkCandidate → Bool
candidate_less a b =
    if not (nat_beq a.cumulative_weight b.cumulative_weight)
    then ltb b.cumulative_weight a.cumulative_weight
    else if not (nat_beq a.slot b.slot)
    then ltb b.slot a.slot
    else bytes_lt a.hash b.hash

-- `GetAllEpochSnapshots`, in the order of the epochs.
unfoldable pub snapshots_of : Dict ℕ EpochSnapshot → List ℕ → List EpochSnapshot
snapshots_of snapshots [] = []
snapshots_of snapshots (epoch ∷ epochs) = elim (lookup epoch snapshots) [
  | none ↦ snapshots_of snapshots epochs
  | some snap ↦ snap ∷ snapshots_of snapshots epochs
]

unfoldable pub get_all_epoch_snapshots : Epochs → List EpochSnapshot
get_all_epoch_snapshots e = snapshots_of e.snapshots (sort_slice ltb (keys e.snapshots))

module _ (c : Crypto) (bc : Blockchain) where
  unfoldable pub get_epoch_snapshot : ℕ → Epochs → EpochSnapshot × Epochs
  get_epoch_snapshot slot e =
      let (snap, e') = snapshot_for_slot c bc slot e in
      (elim snap [ none ↦ record { epoch = 0; total_stake = 0; validators = [] } | some s ↦ s ], e')

  -- `none` is a walk that is not over within the rounds.
  unfoldable pub cumulative_weight_cached : ℕ → Bytes → Cache → Option (ℕ × Cache)
  cumulative_weight_cached zero hash (cache, e) = none
  cumulative_weight_cached (suc fuel) hash (cache, e) = elim (lookup hash cache) [
    | some weight ↦ some (weight, (cache, e))
    | none ↦ elim (lookup hash bc.blocks) [
      | none ↦ some (0, (cache, e))
      | some b ↦
          let (weight, e1) = snapshot_stake c bc b.slot b.validator e in
          let rest = cumulative_weight_cached fuel b.prev_hash (cache, e1) in
          if b.prev_hash == genesis_mark
          then some (weight, (insert hash weight cache, e1))
          else elim rest [
            | none ↦ none
            | some (below, (cache', e2)) ↦
                let total = add_word weight below in some (total, (insert hash total cache', e2))
          ]
    ]
  ]

  unfoldable pub score_tip_cached : Bytes → Cache → Option (ChainScore × Cache)
  score_tip_cached tip (cache, e) = elim (lookup tip bc.blocks) [
    | none ↦ some (zero_score, (cache, e))
    | some b ↦ elim (cumulative_weight_cached (rounds bc.blocks) tip (cache, e)) [
      | none ↦ none
      | some (weight, after) ↦
          some (record { slot = b.slot; cumulative_weight = weight; hash = b.hash }, after)
    ]
  ]

  -- The loop of `GetForkCandidates` over the blocks.
  unfoldable pub candidates_of :
      Dict Bytes Bool → Blocks → List ForkCandidate → Cache → Option (List ForkCandidate × Cache)
  candidates_of has_child [] out at = some (out, at)
  candidates_of has_child ((hash, b) ∷ blocks) out at =
      if hash == [] || contains hash has_child
      then candidates_of has_child blocks out at
      else elim (score_tip_cached hash at) [
        | none ↦ none
        | some (score, at') ↦
            let candidate : ForkCandidate = record {
              hash = hash;
              slot = score.slot;
              cumulative_weight = score.cumulative_weight;
              parent = b.prev_hash;
            } in
            candidates_of has_child blocks (out ++ candidate ∷ []) at'
      ]

  unfoldable pub get_fork_candidates : Option (List ForkCandidate × Epochs)
  get_fork_candidates = elim bc.blocks [
    | [] ↦ some ([], bc.epochs)
    | _ ∷ _ ↦
        elim (candidates_of (mark_parents (values bc.parents) []) bc.blocks [] ([], bc.epochs)) [
          | none ↦ none
          | some (out, (cache, e)) ↦ some (sort_slice candidate_less out, e)
        ]
  ]
