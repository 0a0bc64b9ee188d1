-- ===== src/Chain/Reports/Weights.antt =====
-- The weights of core/blockchain.go: what scoreTip and the cached weights add up.
use xenium.Prelude.{
  ℕ, zero, suc, ◌≡◌, refl, sym, ap, ◌∙◌, inl, inr, false, Option, none, some, arith, ◌==◌, ==_iff,
  nat_eq, Bool-cases, Option-cases, if◌then◌else◌, get_or,
}
use xenium.Prelude.Bytes.{Bytes, bytes_key}
use xenium.Prelude.Int.{add_word}
use xenium.Dict.{Dict, lookup, insert, contains, lookup-insert}
use xenium.Domain.{Block}
use xenium.Crypto.{Crypto}
use xenium.Leader.{stake_of}
use xenium.Chain.{Blockchain, Epochs, EpochSnapshot, genesis_mark}
use xenium.Chain.Epoch.{
  epoch_for_slot, new_snapshot, ensure_snapshot, snapshot_for_slot, snapshot_stake,
}
use xenium.Chain.Score.{weigh}
use xenium.Chain.Reports.{cumulative_weight_cached}

-- The snapshot of an epoch that a read finds or makes: making it depends on the engine alone.
unfoldable pub view : Blockchain → Epochs → ℕ → EpochSnapshot
view bc e epoch = get_or (lookup epoch e.snapshots) (new_snapshot bc epoch)

-- Reads find the same snapshots before and after.
pub record SameView (bc : Blockchain) (e e' : Epochs) : Type 0 where
  pub at : (epoch : ℕ) → view bc e' epoch ≡ view bc e epoch

pub SameView-trans :
    {bc : Blockchain} {e e' e'' : Epochs}
    → SameView bc e e'
    → SameView bc e' e''
    → SameView bc e e''
SameView-trans x y = record { at = λ epoch. y.at epoch ∙ x.at epoch }

pub SameView-refl : (bc : Blockchain) (e : Epochs) → SameView bc e e
SameView-refl bc e = record { at = λ epoch. refl }

-- The stake behind a block.
abbrev pub stake_behind : Blockchain → Epochs → Block → ℕ
stake_behind bc e b = stake_of (view bc e (epoch_for_slot bc.config b.slot)).validators b.validator

-- The weight of the chain that leads to a hash, within some rounds.
unfoldable pub weight_of : Blockchain → Epochs → ℕ → Bytes → Option ℕ
weight_of bc e zero hash = none
weight_of bc e (suc fuel) hash = elim (lookup hash bc.blocks) [
  | none ↦ some 0
  | some b ↦
      let below = weight_of bc e fuel b.prev_hash in
      if b.prev_hash == genesis_mark
      then some (stake_behind bc e b)
      else elim below [ none ↦ none | some weight ↦ some (add_word (stake_behind bc e b) weight) ]
]

module _ (c : Crypto) (bc : Blockchain) where
  ensure_snapshot-SameView : (epoch : ℕ) (e : Epochs) → SameView bc e (ensure_snapshot c bc epoch e)
  unfolding ensure_snapshot contains view
  ensure_snapshot-SameView epoch e = record {
    at = λ j.
        ground (arith, lookup-insert epoch j (new_snapshot bc epoch) e.snapshots, ==_iff epoch j);
  }

  pub snapshot_stake-SameView :
      (slot : ℕ) (validator : Bytes) (e : Epochs)
      → SameView bc e (snapshot_stake c bc slot validator e).1
  unfolding snapshot_stake snapshot_for_slot
  snapshot_stake-SameView slot validator e =
      ensure_snapshot-SameView (epoch_for_slot bc.config slot) e

  pub snapshot_stake-view :
      (slot : ℕ) (validator : Bytes) (e : Epochs)
      → (snapshot_stake c bc slot validator e).0
        ≡ stake_of (view bc e (epoch_for_slot bc.config slot)).validators validator
  unfolding snapshot_stake snapshot_for_slot ensure_snapshot contains view
  snapshot_stake-view slot validator e =
      let epoch = epoch_for_slot bc.config slot in
      ground
        (arith, lookup-insert epoch epoch (new_snapshot bc epoch) e.snapshots, ==_iff epoch epoch)

weight_of-step :
    (bc : Blockchain) (e : Epochs) (fuel : ℕ) (hash : Bytes) (b : Block) (w : ℕ)
    → lookup hash bc.blocks ≡ some b
    → (b.prev_hash == genesis_mark) ≡ false
    → weight_of bc e fuel b.prev_hash ≡ some w
    → weight_of bc e (suc fuel) hash ≡ some (add_word (stake_behind bc e b) w)
unfolding weight_of
weight_of-step bc e fuel hash b w found below rest = rw (weight_of, found, below, rest) refl

-- Two numbers of rounds that are enough give the same weight.
pub weight_of-agree :
    (bc : Blockchain) (e : Epochs) (fuel fuel' : ℕ) (hash : Bytes) {w w' : ℕ}
    → weight_of bc e fuel hash ≡ some w
    → weight_of bc e fuel' hash ≡ some w'
    → w ≡ w'
unfolding weight_of
weight_of-agree bc e zero fuel' hash h h' = cc
weight_of-agree bc e (suc fuel) zero hash h h' = cc
weight_of-agree bc e (suc fuel) (suc fuel') hash {w} {w'} h h' =
    elim (Option-cases (lookup hash bc.blocks)) [
      | inl missing ↦ ground arith
      | inr (b, found) ↦ elim (Bool-cases (b.prev_hash == genesis_mark)) [
        | inl top ↦ ground arith
        | inr below ↦ elim (Option-cases (weight_of bc e fuel b.prev_hash)) [
          | inl endless ↦ absurd (ground arith)
          | inr (v, there) ↦ elim (Option-cases (weight_of bc e fuel' b.prev_hash)) [
            | inl endless ↦ absurd (ground arith)
            | inr (v', there') ↦
                let same = weight_of-agree bc e fuel fuel' b.prev_hash there there' in ground arith
          ]
        ]
      ]
    ]

module _ (c : Crypto) (bc : Blockchain) (e0 : Epochs) where
  -- What scoreTip adds up, on the weight so far.
  pub weigh-weight_of :
      (fuel : ℕ) (hash : Bytes) (cur : Block) (weight : ℕ) (e : Epochs) {total : ℕ} {e' : Epochs}
      → lookup hash bc.blocks ≡ some cur
      → SameView bc e0 e
      → weigh c bc fuel cur weight e ≡ some (total, e')
      → (w : ℕ) × (weight_of bc e0 (suc fuel) hash ≡ some w) × (total ≡ add_word weight w)
  unfolding weigh weight_of
  weigh-weight_of zero hash cur weight e found seen h = cc
  weigh-weight_of (suc fuel) hash cur weight e {total} {e'} found seen h =
      let next = snapshot_stake c bc cur.slot cur.validator e in
      let stake : next.0 ≡ stake_behind bc e0 cur =
        snapshot_stake-view c bc cur.slot cur.validator e
        ∙ ap (λ (s : EpochSnapshot). stake_of s.validators cur.validator)
            (seen.at (epoch_for_slot bc.config cur.slot)) in
      elim (Bool-cases (cur.prev_hash == genesis_mark)) [
        | inl top ↦ (stake_behind bc e0 cur, ground arith, ground arith)
        | inr below ↦ elim (Option-cases (lookup cur.prev_hash bc.blocks)) [
          | inl missing ↦ (add_word (stake_behind bc e0 cur) 0, ground arith, ground arith)
          | inr (parent, there) ↦
              let (w, rest, sum) =
                weigh-weight_of fuel cur.prev_hash parent (add_word weight next.0) next.1
                  {total = total} {e' = e'} there
                  (SameView-trans seen (snapshot_stake-SameView c bc cur.slot cur.validator e))
                  (ground arith) in
              (
                add_word (stake_behind bc e0 cur) w,
                weight_of-step bc e0 (suc fuel) hash cur w found below rest,
                ground arith,
              )
        ]
      ]

  -- Every weight in the cache is that of the chain that leads to its hash.
  pub record IsRight (cache : Dict Bytes ℕ) : Type 0 where
    pub at :
        (hash : Bytes) (w : ℕ)
        → lookup hash cache ≡ some w
        → (fuel : ℕ) × (weight_of bc e0 fuel hash ≡ some w)

  insert-IsRight :
      (hash : Bytes) (w : ℕ) (cache : Dict Bytes ℕ) (fuel : ℕ)
      → weight_of bc e0 fuel hash ≡ some w
      → IsRight cache
      → IsRight (insert hash w cache)
  insert-IsRight hash w cache fuel there right = record {
    at = λ j v kept. elim (Bool-cases (hash == j)) [
      | inl same ↦
          let key : hash ≡ j = (==_iff hash j).0 same in
          let value : w ≡ v = ground (arith, lookup-insert hash j w cache) in
          (fuel, rw (← key, ← value) there)
      | inr other ↦ right.at j v (ground (arith, lookup-insert hash j w cache))
    ];
  }

  -- A weight that is noted is that of the chain, and the cache with it is right.
  weight_of_noted :
      (n : ℕ) (hash : Bytes) {w : ℕ} {cache cache' : Dict Bytes ℕ} {e e' : Epochs}
      → weight_of bc e0 n hash ≡ some w
      → IsRight cache
      → SameView bc e0 e
      → cache' ≡ insert hash w cache
      → e' ≡ e
      → ((m : ℕ) × (weight_of bc e0 m hash ≡ some w)) × IsRight cache' × SameView bc e0 e'
  weight_of_noted n hash {w} {cache} there right seen same same_e =
      ((n, there), rw same (insert-IsRight hash w cache n there right), rw same_e seen)

  -- A cached weight is that of the chain, and the cache stays right.
  pub cached-weight_of :
      (fuel : ℕ) (hash : Bytes) (cache : Dict Bytes ℕ) (e : Epochs) {w : ℕ} {cache' : Dict Bytes ℕ}
      {e' : Epochs}
      → IsRight cache
      → SameView bc e0 e
      → cumulative_weight_cached c bc fuel hash (cache, e) ≡ some (w, (cache', e'))
      → ((n : ℕ) × (weight_of bc e0 n hash ≡ some w)) × IsRight cache' × SameView bc e0 e'
  unfolding cumulative_weight_cached weight_of
  cached-weight_of zero hash cache e right seen h = cc
  cached-weight_of (suc fuel) hash cache e {w} {cache'} {e'} right seen h =
      elim (Option-cases (lookup hash cache)) [
        | inr (v, kept) ↦
            let value : v ≡ w = ground arith in
            let same : cache' ≡ cache = ground arith in
            let same_e : e' ≡ e = ground arith in
            (rw (← value) (right.at hash v kept), rw same right, rw same_e seen)
        | inl new ↦ elim (Option-cases (lookup hash bc.blocks)) [
          | inl missing ↦
              let same : cache' ≡ cache = ground arith in
              let same_e : e' ≡ e = ground arith in
              ((1, ground arith), rw same right, rw same_e seen)
          | inr (b, found) ↦
              let next = snapshot_stake c bc b.slot b.validator e in
              let stake : next.0 ≡ stake_behind bc e0 b =
                snapshot_stake-view c bc b.slot b.validator e
                ∙ ap (λ (s : EpochSnapshot). stake_of s.validators b.validator)
                    (seen.at (epoch_for_slot bc.config b.slot)) in
              let seen' = SameView-trans seen (snapshot_stake-SameView c bc b.slot b.validator e) in
              elim (Bool-cases (b.prev_hash == genesis_mark)) [
                | inl top ↦
                    weight_of_noted 1 hash (ground arith) right seen' (ground arith) (ground arith)
                | inr below ↦
                    elim (Option-cases
                      (cumulative_weight_cached c bc fuel b.prev_hash (cache, next.1))) [
                        | inl endless ↦ absurd (ground arith)
                        | inr ((v, (cache1, e1)), rest) ↦
                            let ((n, sum), right1, seen1) =
                              cached-weight_of fuel b.prev_hash cache next.1 {w = v}
                                {cache' = cache1} {e' = e1} right seen' rest in
                            let total : w ≡ add_word (stake_behind bc e0 b) v = ground arith in
                            let there : weight_of bc e0 (suc n) hash ≡ some w =
                              weight_of-step bc e0 n hash b v found below sum
                              ∙ ap some (sym total) in
                            weight_of_noted (suc n) hash there right1 seen1 (ground arith)
                              (ground arith)
                      ]
              ]
        ]
      ]
