-- ===== src/Chain/Reports/Total.antt =====
-- That GetForkCandidates of core/blockchain.go returns.
use xenium.Prelude.{
  ℕ, zero, suc, ◌<◌, ◌≡◌, inl, inr, refl, true, is_some, Option, none, Bool, ◌||◌, some, List, [],
  ◌∷◌, arith, ◌==◌, Bool-cases, Option-cases, List-cases,
}
use xenium.Prelude.Bytes.{Bytes, bytes_key}
use xenium.Dict.{Dict, lookup, contains, values}
use xenium.Domain.{Block}
use xenium.Crypto.{Crypto}
use xenium.Chain.{Blockchain, Epochs, genesis_mark}
use xenium.Chain.Walk.{Blocks, rounds}
use xenium.Chain.Walk.Total.{IsRanked, count_below, count_below-lt, count_below-found}
use xenium.Chain.Epoch.{snapshot_stake}
use xenium.Chain.Growth.{IsGrown-IsRanked}
use xenium.Chain.Growth.Moves.{now}
use xenium.Chain.Growth.Canonical.{IsEngine}
use xenium.Chain.Reports.{
  ForkCandidate, mark_parents, cumulative_weight_cached, score_tip_cached, candidates_of,
  get_fork_candidates,
}

pub some_of : {A : Type 0} (o : Option A) → is_some o ≡ true → (a : A) × (o ≡ some a)
some_of none h = absurd (ground arith)
some_of (some a) h = (a, refl)

module _ (c : Crypto) (bc : Blockchain) (ranked : IsRanked bc.blocks) where
  -- The rounds that are left are enough for the blocks below `hash`.
  abbrev Enough : ℕ → Bytes → Type 0
  Enough fuel hash =
      (cur : Block)
      → lookup hash bc.blocks ≡ some cur
      → suc (count_below cur.index bc.blocks) < fuel

  weight_total :
      (fuel : ℕ) (hash : Bytes) (cache : Dict Bytes ℕ) (e : Epochs)
      → 0 < fuel
      → Enough fuel hash
      → is_some (cumulative_weight_cached c bc fuel hash (cache, e)) ≡ true
  unfolding cumulative_weight_cached
  weight_total zero hash cache e positive enough = absurd (omega arith)
  weight_total (suc fuel) hash cache e positive enough = elim (Option-cases (lookup hash cache)) [
    | inr (weight, kept) ↦ ground arith
    | inl new ↦ elim (Option-cases (lookup hash bc.blocks)) [
      | inl missing ↦ ground arith
      | inr (cur, found) ↦ elim (Bool-cases (cur.prev_hash == genesis_mark)) [
        | inl top ↦ ground arith
        | inr below ↦
            let e1 = (snapshot_stake c bc cur.slot cur.validator e).1 in
            let room = enough cur found in
            let rest = weight_total fuel cur.prev_hash cache e1 (omega arith) (λ p parent.
              let lower = ranked.at hash cur p found parent in
              let fewer = count_below-lt cur.index cur.prev_hash p bc.blocks parent lower in
              omega arith) in
            let (r, there) =
              some_of (cumulative_weight_cached c bc fuel cur.prev_hash (cache, e1)) rest in
            ground arith
      ]
    ]
  ]

  score_total :
      (tip : Bytes) (cache : Dict Bytes ℕ) (e : Epochs)
      → is_some (score_tip_cached c bc tip (cache, e)) ≡ true
  unfolding score_tip_cached
  score_total tip cache e = elim (Option-cases (lookup tip bc.blocks)) [
    | inl missing ↦ ground arith
    | inr (b, found) ↦
        let total =
          weight_total (rounds bc.blocks) tip cache e (omega arith)
            (λ cur there. let fewer = count_below-found tip cur bc.blocks there in omega arith) in
        let (r, weighed) =
          some_of (cumulative_weight_cached c bc (rounds bc.blocks) tip (cache, e)) total in
        ground arith
  ]

  candidates_total :
      (has_child : Dict Bytes Bool) (blocks : Blocks) (out : List ForkCandidate)
      (cache : Dict Bytes ℕ) (e : Epochs)
      → is_some (candidates_of c bc has_child blocks out (cache, e)) ≡ true
  unfolding candidates_of
  candidates_total has_child [] out cache e = refl
  candidates_total has_child ((hash, b) ∷ blocks) out cache e =
      elim (Bool-cases (hash == [] || contains hash has_child)) [
        | inl skipped ↦ rw skipped (candidates_total has_child blocks out cache e)
        | inr weighed ↦
            let ((score, (cache', e')), there) =
              some_of (score_tip_cached c bc hash (cache, e)) (score_total hash cache e) in
            rw (weighed, there) (candidates_total has_child blocks _ cache' e')
      ]

  get_fork_candidates_total : is_some (get_fork_candidates c bc) ≡ true
  unfolding get_fork_candidates
  get_fork_candidates_total = elim (List-cases bc.blocks) [
    | inl empty ↦ rw (get_fork_candidates, empty) refl
    | inr (x, xs, some_there) ↦
        let total =
          candidates_total (mark_parents (values bc.parents) []) bc.blocks [] [] bc.epochs in
        let ((out, (cache, e)), there) =
          some_of
            (candidates_of c bc (mark_parents (values bc.parents) []) bc.blocks [] ([], bc.epochs))
            total in
        ground arith
  ]

-- GetForkCandidates returns: the walks of its cached weights end within the rounds of the model. Condition: the
-- engine is one whose blocks are well placed, as in every state that its runs reach.
pub fork_candidates_total :
    (c : Crypto) (bc : Blockchain) → IsEngine bc → is_some (get_fork_candidates c bc) ≡ true
fork_candidates_total c bc engine =
    get_fork_candidates_total c bc (IsGrown-IsRanked bc.blocks (now bc) engine.grown)
