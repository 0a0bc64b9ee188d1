-- ===== src/Chain/Growth.antt =====
-- The blocks of core/blockchain.go as they grow: every call that adds one first lets the clock tick for a
-- slot, and puts the new block on a block that is there.
pub mod Walks
pub mod Moves
pub mod Canonical
pub mod Adding
pub mod Sealing
pub mod Runs
pub mod Start
pub mod Reach
pub mod Returns
pub mod Taking
pub mod Returned
pub mod Making
pub mod Progress
pub mod Turns
pub mod Asides
pub mod Asked
pub mod Leaving
pub mod Quiet
pub mod Honest
pub mod Freezing
pub mod Frozen
pub mod FrozenCalls
use xenium.Prelude.{
  ℕ, zero, suc, ◌+◌, ◌≤◌, ◌<◌, ◌≡◌, ◌≢◌, refl, sym, ◌∙◌, inl, inr, ◌⊎◌, Bool, true, false, Option,
  none, some, List, [], ◌∷◌, arith, ◌==◌, ==_iff, Bool-cases, Option-cases, length, if◌then◌else◌,
}
use xenium.Prelude.Bytes.{Bytes, bytes_key}
use xenium.Dict.{lookup, insert, lookup-insert}
use xenium.Domain.{Block}
use xenium.Chain.{genesis_mark}
use xenium.Chain.Walk.{Blocks}
use xenium.Chain.Walk.Total.{IsRanked}

-- The block that a block stands on.
pub record HasParent (blocks : Blocks) (b : Block) : Type 0 where
  pub parent : Block
  pub found : lookup b.prev_hash blocks ≡ some parent
  pub counted : b.index ≡ suc parent.index
  pub later : parent.slot < b.slot

-- A block stands under its own hash, is not later than the clock, and stands on the genesis mark or a block.
pub record IsPlaced (blocks : Blocks) (now : ℕ) (hash : Bytes) (b : Block) : Type 0 where
  pub named : b.hash ≡ hash
  pub not_empty : hash ≢ []
  pub not_mark : hash ≢ genesis_mark
  pub low : b.index ≤ b.slot
  pub early : b.slot ≤ now
  pub stands : (b.prev_hash ≡ genesis_mark) ⊎ HasParent blocks b

pub record IsGrown (blocks : Blocks) (now : ℕ) : Type 0 where
  pub at : (hash : Bytes) (b : Block) → lookup hash blocks ≡ some b → IsPlaced blocks now hash b

-- Every block that is there stays what it is.
pub record Keeps (blocks blocks' : Blocks) : Type 0 where
  pub at : (hash : Bytes) (b : Block) → lookup hash blocks ≡ some b → lookup hash blocks' ≡ some b

HasParent-Keeps :
    {blocks blocks' : Blocks} (b : Block)
    → Keeps blocks blocks'
    → HasParent blocks b
    → HasParent blocks' b
HasParent-Keeps b keeps p = record {
  parent = p.parent;
  found = keeps.at b.prev_hash p.parent p.found;
  counted = p.counted;
  later = p.later;
}

pub insert-Keeps :
    (b : Block) (blocks : Blocks)
    → lookup b.hash blocks ≡ none
    → Keeps blocks (insert b.hash b blocks)
insert-Keeps b blocks fresh = record {
  at = λ hash x found. elim (Bool-cases (b.hash == hash)) [
    | inl same ↦
        let key : b.hash ≡ hash = (==_iff b.hash hash).0 same in
        let clash : none ≡ some x = sym fresh ∙ rw key found in cc
    | inr other ↦ ground (arith, lookup-insert b.hash hash b blocks)
  ];
}

pub IsPlaced-Keeps :
    {blocks blocks' : Blocks} {now now' : ℕ} (hash : Bytes) (b : Block)
    → Keeps blocks blocks'
    → now ≤ now'
    → IsPlaced blocks now hash b
    → IsPlaced blocks' now' hash b
IsPlaced-Keeps hash b keeps later p =
    let early = p.early in
    record {
      named = p.named;
      not_empty = p.not_empty;
      not_mark = p.not_mark;
      low = p.low;
      early = omega arith;
      stands = elim p.stands [
        | inl first ↦ inl first
        | inr parent ↦ inr (HasParent-Keeps b keeps parent)
      ];
    }

-- The blocks stay well placed when the clock moves on.
pub IsGrown-later :
    {blocks : Blocks} {now now' : ℕ} → now ≤ now' → IsGrown blocks now → IsGrown blocks now'
IsGrown-later later g = record {
  at = λ hash b found. IsPlaced-Keeps hash b (record { at = λ h x f. f }) later (g.at hash b found);
}

-- A new block whose hash is new is well placed among the old ones.
pub insert-IsGrown :
    (b : Block) (blocks : Blocks) (now : ℕ)
    → lookup b.hash blocks ≡ none
    → IsPlaced blocks now b.hash b
    → IsGrown blocks now
    → IsGrown (insert b.hash b blocks) now
insert-IsGrown b blocks now fresh placed g =
    let keeps = insert-Keeps b blocks fresh in
    record {
      at = λ hash x found. elim (Bool-cases (b.hash == hash)) [
        | inl same ↦
            let key : b.hash ≡ hash = (==_iff b.hash hash).0 same in
            let value : b ≡ x = ground (arith, lookup-insert b.hash hash b blocks) in
            rw (← key, ← value) (IsPlaced-Keeps b.hash b keeps (omega arith) placed)
        | inr other ↦
            IsPlaced-Keeps hash x keeps (omega arith)
              (g.at hash x (ground (arith, lookup-insert b.hash hash b blocks)))
      ];
    }

pub IsGrown-IsRanked : (blocks : Blocks) (now : ℕ) → IsGrown blocks now → IsRanked blocks
IsGrown-IsRanked blocks now g = record {
  at = λ hash b p found parent. elim (g.at hash b found).stands [
    | inl first ↦ absurd ((g.at b.prev_hash p parent).not_mark first)
    | inr on ↦
        let same : some on.parent ≡ some p = sym on.found ∙ parent in
        let value : on.parent ≡ p = cc in let counted = on.counted in rw (← value) (omega arith)
  ];
}
