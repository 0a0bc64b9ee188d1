-- ===== src/Chain/Walk/Total.antt =====
-- The rounds of chainFromTip of core/blockchain.go, on blocks whose indices rise from the genesis block
-- on, as the indices that AddBlock and AddBlockExternal write do.
use xenium.Prelude.{
  ℕ, zero, suc, ◌≤◌, ◌<◌, ◌≡◌, inl, inr, some, List, [], ◌∷◌, arith, ◌==◌, Bool-cases, Option-cases,
  length, ltb, if◌then◌else◌,
}
use xenium.Prelude.Bytes.{Bytes, bytes_key}
use xenium.Dict.{lookup}
use xenium.Domain.{Block, Result, ok, err, empty_tip_hash, missing_block}
use xenium.Chain.{genesis_mark}
use xenium.Chain.Walk.{Blocks, collect, chain_from_tip, rounds}

-- The block that a previous hash names has a smaller index.
pub record IsRanked (blocks : Blocks) : Type 0 where
  pub at :
      (hash : Bytes) (b p : Block)
      → lookup hash blocks ≡ some b
      → lookup b.prev_hash blocks ≡ some p
      → p.index < b.index

-- How many entries have an index below `n`.
abbrev pub count_below : ℕ → Blocks → ℕ
count_below n [] = 0
count_below n ((_, b) ∷ d) = if ltb b.index n then suc (count_below n d) else count_below n d

pub count_below-le : (n : ℕ) (d : Blocks) → count_below n d ≤ length d
count_below-le n [] = omega arith
count_below-le n ((_, b) ∷ d) = ground (arith, count_below-le n d)

count_below_mono : (m n : ℕ) (d : Blocks) → m ≤ n → count_below m d ≤ count_below n d
count_below_mono m n [] h = omega arith
count_below_mono m n ((_, b) ∷ d) h = ground (arith, count_below_mono m n d h)

-- Below a larger bound stands the entry at the smaller one, too.
pub count_below-lt :
    (n : ℕ) (hash : Bytes) (b : Block) (d : Blocks)
    → lookup hash d ≡ some b
    → b.index < n
    → count_below b.index d < count_below n d
unfolding lookup
count_below-lt n hash b [] found h = absurd (ground arith)
count_below-lt n hash b ((j, x) ∷ d) found h =
    ground (arith, count_below-lt n hash b d, count_below_mono b.index n d)

-- A block that is looked up is not below its own index, so there are more blocks than it has below it.
pub count_below-found :
    (hash : Bytes) (b : Block) (d : Blocks)
    → lookup hash d ≡ some b
    → count_below b.index d < length d
unfolding lookup
count_below-found hash b [] found = absurd (ground arith)
count_below-found hash b ((j, x) ∷ d) found =
    ground (arith, count_below-found hash b d, count_below-le b.index d)

module _ (blocks : Blocks) (ranked : IsRanked blocks) where
  collect_total :
      (fuel : ℕ) (hash : Bytes) (chain : List Block) (cur : Block)
      → lookup hash blocks ≡ some cur
      → suc (count_below cur.index blocks) < fuel
      → (r : Result (List Block)) × (collect blocks fuel hash chain ≡ some r)
  unfolding collect
  collect_total zero hash chain cur found h = absurd (omega arith)
  collect_total (suc zero) hash chain cur found h = absurd (omega arith)
  collect_total (suc (suc fuel)) hash chain cur found h =
      elim (Bool-cases (cur.prev_hash == genesis_mark)) [
        | inl top ↦ (ok (cur ∷ chain), ground arith)
        | inr below ↦ elim (Option-cases (lookup cur.prev_hash blocks)) [
          | inl missing ↦ (err missing_block, ground arith)
          | inr (p, parent) ↦
              let lower = ranked.at hash cur p found parent in
              let fewer = count_below-lt cur.index cur.prev_hash p blocks parent lower in
              let rest =
                collect_total (suc fuel) cur.prev_hash (cur ∷ chain) p parent (omega arith) in
              (rest.0, ground (arith, rest.1))
        ]
      ]

  -- Where the previous hash of a block names a block with a smaller index, the walk from every tip comes
  -- to its end within the rounds of the model, with a chain or an error.
  pub chain_from_tip_total :
      (tip : Bytes) → (r : Result (List Block)) × (chain_from_tip blocks tip ≡ some r)
  unfolding chain_from_tip collect
  chain_from_tip_total tip = elim (Bool-cases (tip == [])) [
    | inl empty ↦ (err empty_tip_hash, ground arith)
    | inr named ↦ elim (Option-cases (lookup tip blocks)) [
      | inl missing ↦ (err missing_block, ground arith)
      | inr (b, found) ↦
          let rest =
            collect_total (rounds blocks) tip [] b found
              (let n = count_below-found tip b blocks found in omega arith) in
          (rest.0, ground (arith, rest.1))
    ]
  ]
