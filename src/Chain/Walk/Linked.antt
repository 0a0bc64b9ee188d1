-- ===== src/Chain/Walk/Linked.antt =====
-- The chain that chainFromTip of core/blockchain.go collects.
use xenium.Prelude.{
  ℕ, zero, suc, ◌≡◌, refl, sym, ◌∙◌, inl, inr, Option, none, some, List, [], ◌∷◌, arith, ◌==◌,
  ==_iff, Bool-cases, Option-cases, get_last?,
}
use xenium.Prelude.Bytes.{Bytes, bytes_key}
use xenium.Dict.{lookup}
use xenium.Domain.{Block, ok}
use xenium.Chain.{genesis_mark}
use xenium.Chain.Walk.{Blocks, collect, chain_from_tip, rounds}

-- Each block but the first was found under the previous hash of the next.
abbrev pub IsLinked : Blocks → List Block → Type 0
IsLinked blocks [] = Unit
IsLinked blocks (a ∷ []) = Unit
IsLinked blocks (a ∷ b ∷ bs) = (lookup b.prev_hash blocks ≡ some a) × IsLinked blocks (b ∷ bs)

-- The chain above the place that the walk has reached.
abbrev Reached : Blocks → Bytes → List Block → Type 0
Reached blocks hash [] = Unit
Reached blocks hash (b ∷ bs) = b.prev_hash ≡ hash

Reached-IsLinked :
    (blocks : Blocks) (cur : Block) (hash : Bytes) (chain : List Block)
    → lookup hash blocks ≡ some cur
    → Reached blocks hash chain
    → IsLinked blocks chain
    → IsLinked blocks (cur ∷ chain)
Reached-IsLinked blocks cur hash [] found r l = tt
Reached-IsLinked blocks cur hash (b ∷ bs) found r l = (rw r found, l)

-- The previous hash of the first block.
abbrev pub first_prev : List Block → Option Bytes
first_prev [] = none
first_prev (b ∷ bs) = some b.prev_hash

collect-IsLinked :
    (blocks : Blocks) (fuel : ℕ) (hash : Bytes) (chain : List Block) {out : List Block}
    → Reached blocks hash chain
    → IsLinked blocks chain
    → collect blocks fuel hash chain ≡ some (ok out)
    → IsLinked blocks out × (first_prev out ≡ some genesis_mark)
unfolding collect
collect-IsLinked blocks zero hash chain r l h = cc
collect-IsLinked blocks (suc fuel) hash chain {out} r l h =
    elim (Option-cases (lookup hash blocks)) [
      | inl missing ↦ absurd (ground arith)
      | inr (cur, found) ↦
          let l' = Reached-IsLinked blocks cur hash chain found r l in
          elim (Bool-cases (cur.prev_hash == genesis_mark)) [
            | inl top ↦
                let same : out ≡ cur ∷ chain = ground arith in
                let mark = (==_iff cur.prev_hash genesis_mark).0 top in rw same (l', rw mark)
            | inr below ↦
                collect-IsLinked blocks fuel cur.prev_hash (cur ∷ chain) {out = out} refl l'
                  (ground arith)
          ]
    ]

get_last?-cons : (a b : Block) (bs : List Block) → get_last? (a ∷ b ∷ bs) ≡ get_last? (b ∷ bs)
get_last?-cons a b bs = refl

collect_last :
    (blocks : Blocks) (fuel : ℕ) (hash : Bytes) (b : Block) (chain : List Block) {out : List Block}
    → collect blocks fuel hash (b ∷ chain) ≡ some (ok out)
    → get_last? out ≡ get_last? (b ∷ chain)
unfolding collect
collect_last blocks zero hash b chain h = cc
collect_last blocks (suc fuel) hash b chain {out} h = elim (Option-cases (lookup hash blocks)) [
  | inl missing ↦ absurd (ground arith)
  | inr (cur, found) ↦ elim (Bool-cases (cur.prev_hash == genesis_mark)) [
    | inl top ↦ let same : out ≡ cur ∷ b ∷ chain = ground arith in rw same
    | inr below ↦ collect_last blocks fuel cur.prev_hash cur (b ∷ chain) {out = out} (ground arith)
  ]
]

collect_ends :
    (blocks : Blocks) (fuel : ℕ) (hash : Bytes) {out : List Block}
    → collect blocks fuel hash [] ≡ some (ok out)
    → get_last? out ≡ lookup hash blocks
unfolding collect
collect_ends blocks zero hash h = cc
collect_ends blocks (suc fuel) hash {out} h = elim (Option-cases (lookup hash blocks)) [
  | inl missing ↦ absurd (ground arith)
  | inr (cur, found) ↦ elim (Bool-cases (cur.prev_hash == genesis_mark)) [
    | inl top ↦ let same : out ≡ cur ∷ [] = ground arith in rw (same, found)
    | inr below ↦
        collect_last blocks fuel cur.prev_hash cur [] {out = out} (ground arith) ∙ sym found
  ]
]

-- A walk that succeeds returns a chain: its first block stands behind the genesis mark, every other one
-- behind the block that its previous hash names, and its last one is the block of the tip.
pub chain_from_tip-IsLinked :
    (blocks : Blocks) (tip : Bytes) {out : List Block}
    → chain_from_tip blocks tip ≡ some (ok out)
    → IsLinked blocks out
      × (first_prev out ≡ some genesis_mark)
      × (get_last? out ≡ lookup tip blocks)
unfolding chain_from_tip
chain_from_tip-IsLinked blocks tip {out} h =
    let walked : collect blocks (rounds blocks) tip [] ≡ some (ok out) = ground arith in
    let (linked, mark) = collect-IsLinked blocks (rounds blocks) tip [] tt tt walked in
    (linked, mark, collect_ends blocks (rounds blocks) tip walked)
