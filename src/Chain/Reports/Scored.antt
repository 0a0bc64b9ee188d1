-- ===== src/Chain/Reports/Scored.antt =====
-- The candidates of GetForkCandidates and scoreTip of core/blockchain.go.
use xenium.Prelude.{
  ℕ, zero, suc, ◌*◌, ◌%◌, ◌<◌, ◌≡◌, refl, inl, inr, Bool, ◌||◌, some, List, [], ◌∷◌, ◌++◌, arith,
  ◌==◌, nat_eq, Bool-cases, Option-cases, List-cases, All, All-snoc,
}
use xenium.Prelude.Bytes.{Bytes, bytes_key}
use xenium.Prelude.Int.{ℤ, word, to_uint64}
use xenium.Prelude.Sort.{sort_slice, All-sort_slice}
use xenium.Dict.{Dict, lookup, contains, values, lookup-insert}
use xenium.Domain.{Validator, Stats}
use xenium.Crypto.{Crypto}
use xenium.Leader.{stake_of, is_active}
use xenium.Chain.{Blockchain, ChainScore, Epochs, EpochSnapshot}
use xenium.Chain.Walk.{Blocks, rounds}
use xenium.Chain.Walk.Total.{IsRanked}
use xenium.Chain.Epoch.{epoch_for_slot, include, include_all, new_snapshot}
use xenium.Chain.Score.{weigh, score_tip}
use xenium.Chain.Canonical.Total.{score_tip_total}
use xenium.Chain.Growth.{IsGrown-IsRanked}
use xenium.Chain.Growth.Moves.{now}
use xenium.Chain.Growth.Canonical.{IsEngine}
use xenium.Chain.Reports.{
  ForkCandidate, mark_parents, candidate_less, cumulative_weight_cached, score_tip_cached,
  candidates_of, get_fork_candidates,
}
use xenium.Chain.Reports.Total.{some_of, fork_candidates_total}
use xenium.Chain.Reports.Weights.{
  view, SameView, SameView-refl, weight_of, weight_of-agree, weigh-weight_of, IsRight,
  cached-weight_of,
}

-- The stakes of a snapshot are `uint64`.
abbrev pub IsWords : EpochSnapshot → Type 0
IsWords s = (name : Bytes) → stake_of s.validators name < word

to_uint64-lt : (a : ℤ) → to_uint64 a < word
unfolding to_uint64
to_uint64-lt a = ground arith

include-IsWords :
    (stats : Stats) (slot : ℕ) (s : EpochSnapshot) (v : Validator)
    → IsWords s
    → IsWords (include stats slot s v)
unfolding include stake_of
include-IsWords stats slot s v small name = elim (Bool-cases (is_active (some stats) slot v)) [
  | inl active ↦
      rw (include, active, lookup-insert) (ground (arith, to_uint64-lt v.stake, small name))
  | inr idle ↦ rw (include, idle) (small name)
]

include_all-IsWords :
    (stats : Stats) (slot : ℕ) (s : EpochSnapshot) (vs : List Validator)
    → IsWords s
    → IsWords (include_all stats slot s vs)
unfolding include_all
include_all-IsWords stats slot s [] small = small
include_all-IsWords stats slot s (v ∷ vs) small =
    include_all-IsWords stats slot (include stats slot s v) vs
      (include-IsWords stats slot s v small)

new_snapshot-IsWords : (bc : Blockchain) (epoch : ℕ) → IsWords (new_snapshot bc epoch)
unfolding new_snapshot
new_snapshot-IsWords bc epoch =
    include_all-IsWords bc.stats (epoch * bc.config.epoch_length % word)
      (record { epoch = epoch; total_stake = 0; validators = [] }) (values bc.validators)
      (λ name. unfold stake_of lookup in omega arith)

-- The stakes of the snapshots that are there are `uint64`.
pub record HasWords (bc : Blockchain) : Type 0 where
  pub at : (epoch : ℕ) (s : EpochSnapshot) → lookup epoch bc.epochs.snapshots ≡ some s → IsWords s

view-IsWords : (bc : Blockchain) → HasWords bc → (epoch : ℕ) → IsWords (view bc bc.epochs epoch)
unfolding view
view-IsWords bc words epoch name = elim (Option-cases (lookup epoch bc.epochs.snapshots)) [
  | inl missing ↦ rw missing (new_snapshot-IsWords bc epoch name)
  | inr (s, found) ↦ rw found (words.at epoch s found name)
]

weight_of-lt :
    (bc : Blockchain) (fuel : ℕ) (hash : Bytes) {w : ℕ}
    → HasWords bc
    → weight_of bc bc.epochs fuel hash ≡ some w
    → w < word
unfolding weight_of
weight_of-lt bc zero hash words h = cc
weight_of-lt bc (suc fuel) hash {w} words h = elim (Option-cases (lookup hash bc.blocks)) [
  | inl missing ↦ ground arith
  | inr (b, found) ↦
      ground (arith, view-IsWords bc words (epoch_for_slot bc.config b.slot) b.validator)
]

-- A candidate has the slot and the weight of the score of its hash.
abbrev pub IsScored : Crypto → Blockchain → ForkCandidate → Type 0
IsScored c bc x =
    (s : ChainScore) × (e : Epochs) × (score_tip c bc x.hash bc.epochs ≡ some (s, e))
    × (x.slot ≡ s.slot)
    × (x.cumulative_weight ≡ s.cumulative_weight)

module _ (c : Crypto) (bc : Blockchain) (ranked : IsRanked bc.blocks) (words : HasWords bc) where
  cached_score :
      (tip : Bytes) (cache : Dict Bytes ℕ) (e : Epochs) {score : ChainScore} {cache' : Dict Bytes ℕ}
      {e' : Epochs}
      → IsRight c bc bc.epochs cache
      → SameView bc bc.epochs e
      → score_tip_cached c bc tip (cache, e) ≡ some (score, (cache', e'))
      → ((e'' : Epochs) × (score_tip c bc tip bc.epochs ≡ some (score, e'')))
        × IsRight c bc bc.epochs cache'
        × SameView bc bc.epochs e'
  unfolding score_tip_cached score_tip
  cached_score tip cache e {score} {cache'} {e'} right seen h =
      let (r, scored) = score_tip_total c bc ranked tip bc.epochs in
      elim (Option-cases (lookup tip bc.blocks)) [
        | inl missing ↦
            let same : cache' ≡ cache = ground arith in
            let same_e : e' ≡ e = ground arith in
            ((bc.epochs, ground arith), rw same right, rw same_e seen)
        | inr (b, found) ↦
            elim (Option-cases (cumulative_weight_cached c bc (rounds bc.blocks) tip (cache, e))) [
              | inl endless ↦ absurd (ground arith)
              | inr ((w, (cache1, e1)), weighed) ↦
                  elim (Option-cases (weigh c bc (rounds bc.blocks) b 0 bc.epochs)) [
                    | inl endless ↦ absurd (ground arith)
                    | inr ((total, e''), summed) ↦
                        let ((n, sum), right1, seen1) =
                          cached-weight_of c bc bc.epochs (rounds bc.blocks) tip cache e {w = w}
                            {cache' = cache1} {e' = e1} right seen weighed in
                        let (v, there, added) =
                          weigh-weight_of c bc bc.epochs (rounds bc.blocks) tip b 0 bc.epochs
                            {total = total} {e' = e''} found (SameView-refl bc bc.epochs) summed in
                        let agree : w ≡ v =
                          weight_of-agree bc bc.epochs n (suc (rounds bc.blocks)) tip sum there in
                        let small = weight_of-lt bc n tip {w = w} words sum in
                        let exact : total ≡ w = omega arith in
                        let same : cache' ≡ cache1 = ground arith in
                        let same_e : e' ≡ e1 = ground arith in
                        ((e'', ground arith), rw same right1, rw same_e seen1)
                  ]
            ]
      ]

  candidates-IsScored :
      (has_child : Dict Bytes Bool) (blocks : Blocks) (out : List ForkCandidate)
      (cache : Dict Bytes ℕ) (e : Epochs) {all : List ForkCandidate} {cache' : Dict Bytes ℕ}
      {e' : Epochs}
      → IsRight c bc bc.epochs cache
      → SameView bc bc.epochs e
      → All (IsScored c bc) out
      → candidates_of c bc has_child blocks out (cache, e) ≡ some (all, (cache', e'))
      → All (IsScored c bc) all
  unfolding candidates_of
  candidates-IsScored has_child [] out cache e {all} right seen scored h =
      let same : all ≡ out = ground arith in rw same scored
  candidates-IsScored has_child ((hash, b) ∷ blocks) out cache e {all} {cache'} {e'} right seen
        scored h =
      elim (Bool-cases (hash == [] || contains hash has_child)) [
        | inl skipped ↦
            candidates-IsScored has_child blocks out cache e {all = all} {cache' = cache'} {e' = e'}
              right seen scored (rw (candidates_of, skipped) at h)
        | inr weighed ↦ elim (Option-cases (score_tip_cached c bc hash (cache, e))) [
          | inl endless ↦ absurd (ground arith)
          | inr ((score, (cache1, e1)), there) ↦
              let ((e'', agreed), right1, seen1) =
                cached_score hash cache e {score = score} {cache' = cache1} {e' = e1} right seen
                  there in
              let candidate : ForkCandidate = record {
                hash = hash;
                slot = score.slot;
                cumulative_weight = score.cumulative_weight;
                parent = b.prev_hash;
              } in
              candidates-IsScored has_child blocks (out ++ candidate ∷ []) cache1 e1 {all = all}
                {cache' = cache'} {e' = e'} right1 seen1
                (All-snoc (IsScored c bc) out candidate scored (score, e'', agreed, refl, refl))
                (rw (candidates_of, weighed, there) at h)
        ]
      ]

listed-IsScored :
    (c : Crypto) (bc : Blockchain) (out : List ForkCandidate) (e : Epochs)
    → IsEngine bc
    → HasWords bc
    → get_fork_candidates c bc ≡ some (out, e)
    → All (IsScored c bc) out
unfolding get_fork_candidates
listed-IsScored c bc out e engine words h = elim (List-cases bc.blocks) [
  | inl empty ↦ let same : out ≡ [] = ground arith in rw same tt
  | inr (x, xs, some_there) ↦
      let marked = mark_parents (values bc.parents) [] in
      elim (Option-cases (candidates_of c bc marked bc.blocks [] ([], bc.epochs))) [
        | inl endless ↦ absurd (ground arith)
        | inr ((all, (cache', e')), found) ↦
            let same : out ≡ sort_slice candidate_less all = ground arith in
            let ranked = IsGrown-IsRanked bc.blocks (now bc) engine.grown in
            let empty : IsRight c bc bc.epochs [] = record {
              at = λ hash w kept. absurd (unfold lookup in cc);
            } in
            rw same (
              All-sort_slice candidate_less (IsScored c bc) all (
                candidates-IsScored c bc ranked words marked bc.blocks [] [] bc.epochs {all = all}
                  {cache' = cache'} {e' = e'} empty (SameView-refl bc bc.epochs) tt found))
      ]
]

-- GetForkCandidates returns, and every candidate that it lists has the slot and the cumulative weight of the score that
-- scoreTip, without a cache, gives its hash on the same engine. Conditions: the blocks of the engine are well placed, as
-- in every state that its runs reach, and the stakes of its snapshots fit a `uint64`.
pub fork_candidates-IsScored :
    (c : Crypto) (bc : Blockchain)
    → IsEngine bc
    → HasWords bc
    → (out : List ForkCandidate) × (e : Epochs) × (get_fork_candidates c bc ≡ some (out, e))
      × All (IsScored c bc) out
fork_candidates-IsScored c bc engine words =
    let ((out, e), listed) =
      some_of (get_fork_candidates c bc) (fork_candidates_total c bc engine) in
    (out, e, listed, listed-IsScored c bc out e engine words listed)
