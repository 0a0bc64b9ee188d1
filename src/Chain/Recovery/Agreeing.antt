-- ===== src/Chain/Recovery/Agreeing.antt =====
-- Walks over a part of the blocks, as rebuildCanonicalChain of core/blockchain.go makes them after a
-- restart.
use mathlib.Core.Path.{subst}
use xenium.Prelude.{
  ℕ, zero, suc, ◌≡◌, refl, sym, ap, ◌∙◌, inl, inr, some, List, [], ◌∷◌, arith, ◌==◌, ==_iff,
  Bool-cases, Option-cases, All,
}
use xenium.Prelude.Bytes.{Bytes, bytes_key}
use xenium.Dict.{lookup, insert, lookup-insert, lookup-insert_self}
use xenium.Domain.{Block, ok}
use xenium.Crypto.{Crypto}
use xenium.Chain.{Blockchain, genesis_mark}
use xenium.Chain.Walk.{Blocks, rounds, collect, collect_known}
use xenium.Chain.Walk.Total.{IsRanked, count_below-found}
use xenium.Chain.Slots.{insert_block}
use xenium.Chain.Canonical.Total.{collect_known_total}
use xenium.Chain.Growth.{Keeps}
use xenium.Chain.Growth.Walks.{AllFound}
use xenium.Chain.Recovery.{insert_blocks}

-- The blocks of a list, put in one after another.
abbrev pub added : List Block → Blocks → Blocks
added [] blocks = blocks
added (b ∷ bs) blocks = added bs (insert b.hash b blocks)

pub insert_blocks-fields :
    (bs : List Block) (bc : Blockchain)
    → ((insert_blocks bs bc).blocks ≡ added bs bc.blocks) × ((insert_blocks bs bc).poh ≡ bc.poh)
unfolding insert_blocks insert_block
insert_blocks-fields [] bc = (refl, refl)
insert_blocks-fields (b ∷ bs) bc = insert_blocks-fields bs (insert_block b bc)

module _ (whole : Blocks) where
  insert_found :
      (b : Block) (d : Blocks)
      → lookup b.hash whole ≡ some b
      → Keeps d whole
      → Keeps (insert b.hash b d) whole × Keeps d (insert b.hash b d)
  insert_found b d own part = (
    record {
      at = λ h x found. elim (Bool-cases (b.hash == h)) [
        | inl same ↦
            let key : b.hash ≡ h = (==_iff b.hash h).0 same in
            ground (arith, lookup-insert b.hash h b d)
        | inr other ↦ part.at h x (ground (arith, lookup-insert b.hash h b d))
      ];
    },
    record {
      at = λ h x found. elim (Bool-cases (b.hash == h)) [
        | inl same ↦
            let key : b.hash ≡ h = (==_iff b.hash h).0 same in
            let there : lookup h whole ≡ some x = part.at h x found in
            let one : some b ≡ some x = sym own ∙ ap (λ (k : Bytes). lookup k whole) key ∙ there in
            ground (arith, lookup-insert b.hash h b d)
        | inr other ↦ ground (arith, lookup-insert b.hash h b d)
      ];
    },
  )

  pub added-Keeps :
      (bs : List Block) (d : Blocks)
      → AllFound whole bs
      → Keeps d whole
      → Keeps (added bs d) whole × Keeps d (added bs d)
  added-Keeps [] d found part = (part, record { at = λ h x there. there })
  added-Keeps (b ∷ bs) d (own, found) part =
      let (part', kept) = insert_found b d own part in
      let (below, above) = added-Keeps bs (insert b.hash b d) found part' in
      (below, record { at = λ h x there. above.at h x (kept.at h x there) })

  pub added-AllFound :
      (bs : List Block) (d : Blocks) → AllFound whole bs → Keeps d whole → AllFound (added bs d) bs
  added-AllFound [] d found part = tt
  added-AllFound (b ∷ bs) d (own, found) part =
      let (part', kept) = insert_found b d own part in
      let (below, above) = added-Keeps bs (insert b.hash b d) found part' in
      (
        above.at b.hash b (lookup-insert_self b.hash b d),
        added-AllFound bs (insert b.hash b d) found part',
      )

-- The part of a chain that a walk has collected is in the chain that it ends with.
collect-All :
    (P : Block → Type 0) (blocks : Blocks) (fuel : ℕ) (hash : Bytes) (chain : List Block)
    {out : List Block}
    → collect blocks fuel hash chain ≡ some (ok out)
    → All P out
    → All P chain
unfolding collect
collect-All P blocks zero hash chain h all = cc
collect-All P blocks (suc fuel) hash chain {out} h all = elim (Option-cases (lookup hash blocks)) [
  | inl missing ↦ absurd (ground arith)
  | inr (cur, here) ↦ elim (Bool-cases (cur.prev_hash == genesis_mark)) [
    | inl top ↦ let same : out ≡ cur ∷ chain = ground arith in (subst (All P) same all).1
    | inr below ↦
        (collect-All P blocks fuel cur.prev_hash (cur ∷ chain) {out = out} (ground arith) all).1
  ]
]

-- A walk over a part of the blocks that has every block of the chain ends with this chain.
pub walks_agree :
    (big small : Blocks)
    → ((h : Bytes) (b : Block) → lookup h big ≡ some b → b.hash ≡ h)
    → (fuel fuel' : ℕ) (hash : Bytes) (chain : List Block) {out out' : List Block}
    → collect big fuel hash chain ≡ some (ok out)
    → AllFound small out
    → collect_known small fuel' hash chain ≡ some out'
    → out' ≡ out
unfolding collect collect_known
walks_agree big small named zero fuel' hash chain h found h' = cc
walks_agree big small named (suc fuel) zero hash chain h found h' = cc
walks_agree big small named (suc fuel) (suc fuel') hash chain {out} {out'} h found h' =
    let Own : Block → Type 0 = λ b. lookup b.hash small ≡ some b in
    elim (Option-cases (lookup hash big)) [
      | inl missing ↦ absurd (ground arith)
      | inr (cur, here) ↦
          let key = ap (λ (k : Bytes). lookup k small) (sym (named hash cur here)) in
          elim (Bool-cases (cur.prev_hash == genesis_mark)) [
            | inl top ↦
                let same : out ≡ cur ∷ chain = ground arith in
                let there : lookup hash small ≡ some cur = key ∙ (subst (All Own) same found).0 in
                ground arith
            | inr below ↦
                let rest : collect big fuel cur.prev_hash (cur ∷ chain) ≡ some (ok out) =
                  ground arith in
                let there : lookup hash small ≡ some cur =
                  key
                  ∙ (collect-All Own big fuel cur.prev_hash (cur ∷ chain) {out = out} rest
                      found).0 in
                let known : collect_known small fuel' cur.prev_hash (cur ∷ chain) ≡ some out' =
                  ground arith in
                walks_agree big small named fuel fuel' cur.prev_hash (cur ∷ chain) {out = out}
                  {out' = out'} rest found known
          ]
    ]

pub known_total :
    (c : Crypto) (bc : Blockchain) (tip : Bytes)
    → IsRanked bc.blocks
    → (r : List Block) × (collect_known bc.blocks (rounds bc.blocks) tip [] ≡ some r)
unfolding collect_known
known_total c bc tip ranked = elim (Option-cases (lookup tip bc.blocks)) [
  | inl missing ↦ ([], ground arith)
  | inr (b, found) ↦
      let fewer = count_below-found tip b bc.blocks found in
      collect_known_total c bc ranked (rounds bc.blocks) tip [] b found (omega arith)
]
