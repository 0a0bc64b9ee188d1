-- ===== src/Chain/Growth/Asked.antt =====
-- The calls of core/blockchain.go that answer a question, VerifyChain and SelectTxsForBlock among them, as steps.
use xenium.Prelude.{
  ℕ, zero, suc, ◌≡◌, ◌||◌, inl, inr, Bool, some, List, [], ◌∷◌, ◌++◌, arith, Option-cases,
  Bool-cases, List-cases, ◌==◌,
}
use xenium.Prelude.Bytes.{Bytes, bytes_key}
use xenium.Prelude.Int.{ℤ}
use xenium.Dict.{Dict, lookup, contains, values}
use xenium.Domain.{Checked}
use xenium.Crypto.{Crypto}
use xenium.Chain.{Blockchain, ChainScore, Epochs, genesis_mark}
use xenium.Chain.Walk.{Blocks, rounds}
use xenium.Chain.Epoch.{snapshot_for_slot, snapshot_stake, epoch_for_slot}
use xenium.Chain.Epoch.Frozen.{
  Extends, Extends-refl, Extends-trans, ensure_snapshot-Extends, snapshot_stake-Extends,
}
use xenium.Chain.Score.{score_tip, active_stake, weight_delta_required, chain_tip_slot}
use xenium.Chain.Canonical.Snapshots.{score_tip-Extends}
use xenium.Chain.Blocks.{select_txs_for_block}
use xenium.Chain.Verify.{verify_chain}
use xenium.Chain.Reports.{
  ForkCandidate, get_epoch_snapshot, cumulative_weight_cached, score_tip_cached, candidates_of,
  get_fork_candidates, mark_parents,
}
use xenium.Chain.Growth.Asides.{IsAside, asked-IsAside, select_txs-IsAside, verify_chain-IsAside}

-- A call that asks, and the engine behind it.
pub data Asks (c : Crypto) (bc : Blockchain) : Blockchain → Type 0 where
  txs_selected : (max : ℤ) (producer : Bytes) → Asks c bc (select_txs_for_block max producer bc).1
  chain_verified :
      (out : Checked) (bc' : Blockchain) → verify_chain c bc ≡ some (out, bc') → Asks c bc bc'
  delta_asked :
      (old_weight new_weight : ℕ)
      → Asks c bc
          (record bc { epochs = (weight_delta_required c bc old_weight new_weight bc.epochs).1 })
  snapshot_asked :
      (slot : ℕ) → Asks c bc (record bc { epochs = (get_epoch_snapshot c bc slot bc.epochs).1 })
  tip_scored :
      (tip : Bytes) (score : ChainScore) (e : Epochs)
      → score_tip c bc tip bc.epochs ≡ some (score, e)
      → Asks c bc (record bc { epochs = e })
  candidates_listed :
      (out : List ForkCandidate) (e : Epochs)
      → get_fork_candidates c bc ≡ some (out, e)
      → Asks c bc (record bc { epochs = e })

module _ (c : Crypto) (bc : Blockchain) where
  weighed-Extends :
      (fuel : ℕ) (hash : Bytes) (cache : Dict Bytes ℕ) (e : Epochs) {weight : ℕ}
      {cache' : Dict Bytes ℕ} {e' : Epochs}
      → cumulative_weight_cached c bc fuel hash (cache, e) ≡ some (weight, (cache', e'))
      → Extends e e'
  unfolding cumulative_weight_cached
  weighed-Extends zero hash cache e h = cc
  weighed-Extends (suc fuel) hash cache e {weight} {cache'} {e'} h =
      elim (Option-cases (lookup hash cache)) [
        | inr (v, kept) ↦ let same : e' ≡ e = ground arith in rw same (Extends-refl e)
        | inl new ↦ elim (Option-cases (lookup hash bc.blocks)) [
          | inl missing ↦ let same : e' ≡ e = ground arith in rw same (Extends-refl e)
          | inr (b, found) ↦
              let next = snapshot_stake c bc b.slot b.validator e in
              let made = snapshot_stake-Extends c bc b.slot b.validator e in
              elim (Bool-cases (b.prev_hash == genesis_mark)) [
                | inl top ↦ let same : e' ≡ next.1 = ground arith in rw same made
                | inr below ↦
                    elim (Option-cases
                      (cumulative_weight_cached c bc fuel b.prev_hash (cache, next.1))) [
                        | inl endless ↦ absurd (ground arith)
                        | inr ((v, (cache1, e1)), rest) ↦
                            let same : e' ≡ e1 = ground arith in
                            rw same (
                              Extends-trans made (
                                weighed-Extends fuel b.prev_hash cache next.1 {weight = v}
                                  {cache' = cache1} {e' = e1} rest))
                      ]
              ]
        ]
      ]

  score_tip_cached-Extends :
      (tip : Bytes) (cache : Dict Bytes ℕ) (e : Epochs) {score : ChainScore} {cache' : Dict Bytes ℕ}
      {e' : Epochs}
      → score_tip_cached c bc tip (cache, e) ≡ some (score, (cache', e'))
      → Extends e e'
  unfolding score_tip_cached
  score_tip_cached-Extends tip cache e {score} {cache'} {e'} h =
      elim (Option-cases (lookup tip bc.blocks)) [
        | inl missing ↦ let same : e' ≡ e = ground arith in rw same (Extends-refl e)
        | inr (b, found) ↦
            elim (Option-cases (cumulative_weight_cached c bc (rounds bc.blocks) tip (cache, e))) [
              | inl endless ↦ absurd (ground arith)
              | inr ((v, (cache1, e1)), went) ↦
                  let same : e' ≡ e1 = ground arith in
                  rw same (
                    weighed-Extends (rounds bc.blocks) tip cache e {weight = v} {cache' = cache1}
                      {e' = e1} went)
            ]
      ]

  candidates_of-Extends :
      (has_child : Dict Bytes Bool) (blocks : Blocks) (out : List ForkCandidate)
      (cache : Dict Bytes ℕ) (e : Epochs) {found : List ForkCandidate} {cache' : Dict Bytes ℕ}
      {e' : Epochs}
      → candidates_of c bc has_child blocks out (cache, e) ≡ some (found, (cache', e'))
      → Extends e e'
  unfolding candidates_of
  candidates_of-Extends has_child [] out cache e {found} {cache'} {e'} h =
      let same : e' ≡ e = ground arith in rw same (Extends-refl e)
  candidates_of-Extends has_child ((hash, b) ∷ blocks) out cache e {found} {cache'} {e'} h =
      elim (Bool-cases (hash == [] || contains hash has_child)) [
        | inl passed ↦
            candidates_of-Extends has_child blocks out cache e {found = found} {cache' = cache'}
              (rw (candidates_of, passed) at h)
        | inr taken ↦ elim (Option-cases (score_tip_cached c bc hash (cache, e))) [
          | inl endless ↦ absurd (ground arith)
          | inr ((score, (cache1, e1)), went) ↦
              let candidate : ForkCandidate = record {
                hash = hash;
                slot = score.slot;
                cumulative_weight = score.cumulative_weight;
                parent = b.prev_hash;
              } in
              Extends-trans
                (score_tip_cached-Extends hash cache e {score = score} {cache' = cache1} {e' = e1}
                  went)
                (candidates_of-Extends has_child blocks (out ++ candidate ∷ []) cache1 e1
                  {found = found} {cache' = cache'} (rw (candidates_of, taken, went) at h))
        ]
      ]

  get_fork_candidates-Extends :
      {out : List ForkCandidate} {e : Epochs}
      → get_fork_candidates c bc ≡ some (out, e)
      → Extends bc.epochs e
  unfolding get_fork_candidates
  get_fork_candidates-Extends {out} {e} h = elim (List-cases bc.blocks) [
    | inl empty ↦ let same : e ≡ bc.epochs = ground arith in rw same (Extends-refl bc.epochs)
    | inr (x, xs, some_blocks) ↦
        let has_child = mark_parents (values bc.parents) [] in
        elim (Option-cases (candidates_of c bc has_child bc.blocks [] ([], bc.epochs))) [
          | inl endless ↦ absurd (ground arith)
          | inr ((found, (cache1, e1)), went) ↦
              let same : e ≡ e1 = ground arith in
              rw same (
                candidates_of-Extends has_child bc.blocks [] [] bc.epochs {found = found}
                  {cache' = cache1} {e' = e1} went)
        ]
  ]

  -- A call that asks leaves the chain, the clock and the snapshots that are there alone.
  pub Asks-IsAside : {bc' : Blockchain} → Asks c bc bc' → IsAside bc bc'
  unfolding weight_delta_required active_stake get_epoch_snapshot snapshot_for_slot
  Asks-IsAside (txs_selected max producer) = select_txs-IsAside max producer bc
  Asks-IsAside (chain_verified out bc' h) = verify_chain-IsAside c bc {out = out} h
  Asks-IsAside (delta_asked old_weight new_weight) =
      asked-IsAside bc (weight_delta_required c bc old_weight new_weight bc.epochs).1 (
        ensure_snapshot-Extends c bc (epoch_for_slot bc.config (chain_tip_slot bc.chain)) bc.epochs)
  Asks-IsAside (snapshot_asked slot) =
      asked-IsAside bc (get_epoch_snapshot c bc slot bc.epochs).1
        (ensure_snapshot-Extends c bc (epoch_for_slot bc.config slot) bc.epochs)
  Asks-IsAside (tip_scored tip score e h) =
      asked-IsAside bc e (score_tip-Extends c bc tip bc.epochs {score = score} h)
  Asks-IsAside (candidates_listed out e h) =
      asked-IsAside bc e (get_fork_candidates-Extends {out = out} h)
