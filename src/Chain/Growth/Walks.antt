-- ===== src/Chain/Growth/Walks.antt =====
-- The chains that chainFromTip of core/blockchain.go collects from well placed blocks.
use xenium.Prelude.{
  ℕ, zero, suc, ◌≤◌, ◌<◌, ◌≡◌, ◌≢◌, refl, sym, ap, ◌∙◌, inl, inr, none, some, List, [], ◌∷◌, arith,
  ◌==◌, ==_iff, Bool-cases, Option-cases, length, All, All-map,
}
use xenium.Prelude.Bytes.{Bytes, bytes_key}
use xenium.Dict.{lookup, insert}
use xenium.Domain.{Block, ok}
use xenium.Chain.{genesis_mark}
use xenium.Chain.Walk.{Blocks, rounds, collect, chain_from_tip}
use xenium.Chain.Canonical.Finality.{IsAscending}
use xenium.Chain.Growth.{IsGrown, Keeps, insert-Keeps}

-- Every block of the list is found under its own hash.
abbrev pub AllFound : Blocks → List Block → Type 0
AllFound blocks chain = All (λ b. lookup b.hash blocks ≡ some b) chain

AllFound-Keeps :
    (blocks blocks' : Blocks) (chain : List Block)
    → Keeps blocks blocks'
    → AllFound blocks chain
    → AllFound blocks' chain
AllFound-Keeps blocks blocks' chain keeps =
    All-map (λ b. lookup b.hash blocks ≡ some b) (λ b. lookup b.hash blocks' ≡ some b)
      (λ b. keeps.at b.hash b) chain

module _ (blocks : Blocks) (now : ℕ) (grown : IsGrown blocks now) where
  collect-AllFound :
      (fuel : ℕ) (hash : Bytes) (chain : List Block) {out : List Block}
      → AllFound blocks chain
      → collect blocks fuel hash chain ≡ some (ok out)
      → AllFound blocks out
  unfolding collect
  collect-AllFound zero hash chain found h = cc
  collect-AllFound (suc fuel) hash chain {out} found h = elim (Option-cases (lookup hash blocks)) [
    | inl missing ↦ absurd (ground arith)
    | inr (cur, here) ↦
        let own : lookup cur.hash blocks ≡ some cur =
          ap (λ (h : Bytes). lookup h blocks) (grown.at hash cur here).named ∙ here in
        elim (Bool-cases (cur.prev_hash == genesis_mark)) [
          | inl top ↦ let same : out ≡ cur ∷ chain = ground arith in rw same (own, found)
          | inr below ↦
              collect-AllFound fuel cur.prev_hash (cur ∷ chain) {out = out} (own, found)
                (ground arith)
        ]
  ]

  -- The blocks that are collected so far are not earlier than the one that the walk has reached.
  abbrev Above : Bytes → List Block → Type 0
  Above hash chain =
      (cur : Block) → lookup hash blocks ≡ some cur → All (λ x. cur.slot ≤ x.slot) chain

  Above-parent :
      (hash : Bytes) (chain : List Block) (cur : Block)
      → lookup hash blocks ≡ some cur
      → cur.prev_hash ≢ genesis_mark
      → Above hash chain
      → Above cur.prev_hash (cur ∷ chain)
  Above-parent hash chain cur here inner above p parent = elim (grown.at hash cur here).stands [
    | inl first ↦ absurd (inner first)
    | inr on ↦
        let same : some on.parent ≡ some p = sym on.found ∙ parent in
        let value : on.parent ≡ p = cc in
        let later : p.slot < cur.slot = rw (← value) on.later in
        (
          omega arith,
          All-map (λ x. cur.slot ≤ x.slot) (λ x. p.slot ≤ x.slot) (λ x low. omega arith) chain
              (above cur here),
        )
  ]

  collect-IsAscending :
      (fuel : ℕ) (hash : Bytes) (chain : List Block) {out : List Block}
      → IsAscending chain
      → Above hash chain
      → collect blocks fuel hash chain ≡ some (ok out)
      → IsAscending out
  unfolding collect
  collect-IsAscending zero hash chain rising above h = cc
  collect-IsAscending (suc fuel) hash chain {out} rising above h =
      elim (Option-cases (lookup hash blocks)) [
        | inl missing ↦ absurd (ground arith)
        | inr (cur, here) ↦ elim (Bool-cases (cur.prev_hash == genesis_mark)) [
          | inl top ↦
              let same : out ≡ cur ∷ chain = ground arith in rw same (above cur here, rising)
          | inr below ↦
              let inner : cur.prev_hash ≢ genesis_mark =
                grind (arith, ==_iff cur.prev_hash genesis_mark) in
              collect-IsAscending fuel cur.prev_hash (cur ∷ chain) {out = out}
                (above cur here, rising) (Above-parent hash chain cur here inner above)
                (ground arith)
        ]
      ]

  pub chain_from_tip-AllFound :
      (tip : Bytes) {out : List Block}
      → chain_from_tip blocks tip ≡ some (ok out)
      → AllFound blocks out
  unfolding chain_from_tip
  chain_from_tip-AllFound tip {out} h =
      collect-AllFound (rounds blocks) tip [] {out = out} tt (ground arith)

  -- On well placed blocks the slots do not fall along a chain.
  pub chain_from_tip-IsAscending :
      (tip : Bytes) {out : List Block} → chain_from_tip blocks tip ≡ some (ok out) → IsAscending out
  unfolding chain_from_tip
  chain_from_tip-IsAscending tip {out} h =
      collect-IsAscending (rounds blocks) tip [] {out = out} tt (λ cur here. tt) (ground arith)

collect-Keeps :
    (blocks blocks' : Blocks) (fuel : ℕ) (hash : Bytes) (chain : List Block) {out : List Block}
    → Keeps blocks blocks'
    → collect blocks fuel hash chain ≡ some (ok out)
    → collect blocks' (suc fuel) hash chain ≡ some (ok out)
unfolding collect
collect-Keeps blocks blocks' zero hash chain keeps h = cc
collect-Keeps blocks blocks' (suc fuel) hash chain {out} keeps h =
    elim (Option-cases (lookup hash blocks)) [
      | inl missing ↦ absurd (ground arith)
      | inr (cur, here) ↦
          let there = keeps.at hash cur here in
          elim (Bool-cases (cur.prev_hash == genesis_mark)) [
            | inl top ↦ ground arith
            | inr below ↦
                let rest =
                  collect-Keeps blocks blocks' fuel cur.prev_hash (cur ∷ chain) {out = out} keeps
                    (ground arith) in
                ground arith
          ]
    ]

length-insert :
    (b : Block) (hash : Bytes) (blocks : Blocks)
    → lookup hash blocks ≡ none
    → length (insert hash b blocks) ≡ suc (length blocks)
unfolding lookup insert
length-insert b hash [] fresh = refl
length-insert b hash ((j, x) ∷ d) fresh = ground (arith, length-insert b hash d)

-- The chain of a tip is the same when a new block has come.
pub chain_from_tip-insert :
    (b : Block) (blocks : Blocks) (tip : Bytes) {out : List Block}
    → lookup b.hash blocks ≡ none
    → chain_from_tip blocks tip ≡ some (ok out)
    → chain_from_tip (insert b.hash b blocks) tip ≡ some (ok out)
unfolding chain_from_tip
chain_from_tip-insert b blocks tip {out} fresh h =
    let walked : collect blocks (rounds blocks) tip [] ≡ some (ok out) = ground arith in
    let more =
      collect-Keeps blocks (insert b.hash b blocks) (rounds blocks) tip []
        (insert-Keeps b blocks fresh) walked in
    rw length-insert (ground arith)
