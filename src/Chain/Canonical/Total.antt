-- ===== src/Chain/Canonical/Total.antt =====
-- The rounds of the walks of updateCanonical of core/blockchain.go.
use xenium.Prelude.{
  ℕ, zero, suc, ◌<◌, ◌≡◌, refl, inl, inr, Bool, true, false, some, List, [], ◌∷◌, arith, ◌==◌,
  Bool-cases, Option-cases,
}
use xenium.Prelude.Bytes.{Bytes, bytes_key}
use xenium.Dict.{lookup}
use xenium.Domain.{Block, Result-cases}
use xenium.Crypto.{Crypto}
use xenium.Chain.{Blockchain, ChainScore, Epochs, genesis_mark}
use xenium.Chain.Walk.{collect_known, rounds}
use xenium.Chain.Walk.Total.{
  IsRanked, count_below, count_below-lt, count_below-found, chain_from_tip_total,
}
use xenium.Chain.Score.{weigh, score_tip, zero_score, better_score}
use xenium.Chain.Rebuild.{
  rebuild_canonical_chain, rebuild_slot_map, rebuild_state_from_canonical, update_finality,
}
use xenium.Prelude.Int.{add_word}
use xenium.Chain.Epoch.{snapshot_stake}
use xenium.Chain.Canonical.{guard_reorg, choose, first_tip, update_canonical}

module _ (c : Crypto) (bc : Blockchain) (ranked : IsRanked bc.blocks) where
  weigh_total :
      (fuel : ℕ) (hash : Bytes) (cur : Block) (weight : ℕ) (e : Epochs)
      → lookup hash bc.blocks ≡ some cur
      → count_below cur.index bc.blocks < fuel
      → (r : ℕ × Epochs) × (weigh c bc fuel cur weight e ≡ some r)
  unfolding weigh
  weigh_total zero hash cur weight e found h = absurd (omega arith)
  weigh_total (suc fuel) hash cur weight e found h =
      let stake = snapshot_stake c bc cur.slot cur.validator e in
      let last : ℕ × Epochs = (add_word weight stake.0, stake.1) in
      elim (Bool-cases (cur.prev_hash == genesis_mark)) [
        | inl top ↦ (last, rw top refl)
        | inr below ↦ elim (Option-cases (lookup cur.prev_hash bc.blocks)) [
          | inl missing ↦ (last, rw (below, missing) refl)
          | inr (p, parent) ↦
              let lower = ranked.at hash cur p found parent in
              let fewer = count_below-lt cur.index cur.prev_hash p bc.blocks parent lower in
              let rest = weigh_total fuel cur.prev_hash p last.0 last.1 parent (omega arith) in
              (rest.0, rw (below, parent) (rest.1))
        ]
      ]

  pub score_tip_total :
      (tip : Bytes) (e : Epochs) → (r : ChainScore × Epochs) × (score_tip c bc tip e ≡ some r)
  unfolding score_tip
  score_tip_total tip e = elim (Option-cases (lookup tip bc.blocks)) [
    | inl missing ↦ ((zero_score, e), rw (score_tip, missing) refl)
    | inr (b, found) ↦
        let fewer = count_below-found tip b bc.blocks found in
        let weighed = weigh_total (rounds bc.blocks) tip b 0 e found (omega arith) in
        (
          (record { slot = b.slot; cumulative_weight = weighed.0.0; hash = b.hash }, weighed.0.1),
          rw (score_tip, found, weighed.1) refl,
        )
  ]

  pub collect_known_total :
      (fuel : ℕ) (hash : Bytes) (chain : List Block) (cur : Block)
      → lookup hash bc.blocks ≡ some cur
      → suc (count_below cur.index bc.blocks) < fuel
      → (r : List Block) × (collect_known bc.blocks fuel hash chain ≡ some r)
  unfolding collect_known
  collect_known_total zero hash chain cur found h = absurd (omega arith)
  collect_known_total (suc zero) hash chain cur found h = absurd (omega arith)
  collect_known_total (suc (suc fuel)) hash chain cur found h =
      elim (Bool-cases (cur.prev_hash == genesis_mark)) [
        | inl top ↦ (cur ∷ chain, ground arith)
        | inr below ↦ elim (Option-cases (lookup cur.prev_hash bc.blocks)) [
          | inl missing ↦ (cur ∷ chain, ground arith)
          | inr (p, parent) ↦
              let lower = ranked.at hash cur p found parent in
              let fewer = count_below-lt cur.index cur.prev_hash p bc.blocks parent lower in
              let rest =
                collect_known_total (suc fuel) cur.prev_hash (cur ∷ chain) p parent (omega arith) in
              (rest.0, ground (arith, rest.1))
        ]
      ]

  abbrev derived : Bytes → List Block → Blockchain
  derived tip chain =
      rebuild_state_from_canonical c
        (rebuild_slot_map (record bc { canonical_tip = tip; chain = chain }))

  first_tip_total : (tip : Bytes) → (r : Bool × Blockchain) × (first_tip c tip bc ≡ some r)
  unfolding first_tip rebuild_canonical_chain collect_known
  first_tip_total tip = elim (Bool-cases (tip == [])) [
    | inl empty ↦
        ((true, update_finality (record bc { canonical_tip = tip; chain = [] })), ground arith)
    | inr named ↦ elim (Option-cases (lookup tip bc.blocks)) [
      | inl missing ↦ ((true, update_finality (derived tip [])), ground arith)
      | inr (b, found) ↦
          let fewer = count_below-found tip b bc.blocks found in
          let walked = collect_known_total (rounds bc.blocks) tip [] b found (omega arith) in
          ((true, update_finality (derived tip walked.0)), ground (arith, walked.1))
    ]
  ]

  choose_total :
      (tip : Bytes) (old new : ChainScore) (e : Epochs)
      → (r : Bool × Blockchain) × (choose c tip old new (record bc { epochs = e }) ≡ some r)
  unfolding choose
  choose_total tip old new e = elim (Bool-cases (better_score new old)) [
    | inl better ↦
        let walked = chain_from_tip_total bc.blocks ranked tip in
        elim (Result-cases walked.0) [
          | inl (chain, good) ↦ (
            guard_reorg c tip chain old new (record bc { epochs = e }),
            rw (better, walked.1, good) refl,
          )
          | inr (e', bad) ↦ ((false, record bc { epochs = e }), rw (better, walked.1, bad) refl)
        ]
    | inr worse ↦ ((false, record bc { epochs = e }), rw worse refl)
  ]

  -- Where the previous hash of a block names a block with a smaller index, choosing the canonical chain
  -- comes to its end within the rounds of the model, whatever the tip.
  pub update_canonical_total :
      (tip : Bytes) → (r : Bool × Blockchain) × (update_canonical c tip bc ≡ some r)
  unfolding update_canonical
  update_canonical_total tip = elim (Bool-cases (bc.canonical_tip == [])) [
    | inl first ↦ let r = first_tip_total tip in (r.0, rw (first) (r.1))
    | inr started ↦
        let old = score_tip_total bc.canonical_tip bc.epochs in
        let new = score_tip_total tip old.0.1 in
        let chosen = choose_total tip old.0.0 new.0.0 new.0.1 in
        (chosen.0, rw (started, old.1, new.1) (chosen.1))
  ]
