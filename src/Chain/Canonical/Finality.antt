-- ===== src/Chain/Canonical/Finality.antt =====
-- The canonical chain of core/blockchain.go before and after updateCanonical.
use native.Mathlib.Decide.{dec_lt}
use xenium.Prelude.{
  ℕ, zero, suc, ◌+◌, ◌≤◌, ◌<◌, ◌≡◌, ◌≢◌, refl, inl, inr, Bool, some, List, [], ◌∷◌, arith, ==_iff,
  All, length, get_elem?,
}
use xenium.Prelude.Bytes.{Bytes, bytes_key}
use xenium.Prelude.Int.{pos}
use xenium.Domain.{Block}
use xenium.Crypto.{Crypto}
use xenium.Chain.{Blockchain}
use xenium.Chain.Canonical.{diverge, diverge_slot, update_canonical}
use xenium.Chain.Canonical.Guards.{update_canonical_cases}

-- No slot is below one before it.
abbrev pub IsAscending : List Block → Type 0
IsAscending [] = Unit
IsAscending (b ∷ bs) = All (λ x. b.slot ≤ x.slot) bs × IsAscending bs

-- The block at a place of one chain stands with its hash at the same place of another.
abbrev pub Shares : List Block → ℕ → Block → Type 0
Shares new i b = (b' : Block) × (get_elem? new i ≡ some b') × (b'.hash ≡ b.hash)

Shares-diverge :
    (old new : List Block) (i : ℕ) (b : Block)
    → i < diverge old new
    → get_elem? old i ≡ some b
    → Shares new i b
unfolding diverge
Shares-diverge [] new i b h at = absurd (omega arith)
Shares-diverge (x ∷ old) [] i b h at = absurd (omega arith)
Shares-diverge (x ∷ old) (y ∷ new) zero b h at = (y, refl, ground (arith, ==_iff x.hash y.hash))
Shares-diverge (x ∷ old) (y ∷ new) (suc i) b h at = Shares-diverge old new i b (ground arith) at

pub All-get_elem? :
    (P : Block → Type 0) (xs : List Block) (i : ℕ) (b : Block)
    → All P xs
    → get_elem? xs i ≡ some b
    → P b
All-get_elem? P [] i b h at = cc
All-get_elem? P (x ∷ xs) zero b h at = let same : x ≡ b = cc in rw (← same) h.0
All-get_elem? P (x ∷ xs) (suc i) b h at = All-get_elem? P xs i b h.1 at

slot_mono :
    (xs : List Block) (i j : ℕ) (a b : Block)
    → IsAscending xs
    → i ≤ j
    → get_elem? xs i ≡ some a
    → get_elem? xs j ≡ some b
    → a.slot ≤ b.slot
slot_mono [] i j a b h le at_i at_j = cc
slot_mono (x ∷ xs) zero zero a b h le at_i at_j = let same : a ≡ b = cc in rw same (omega arith)
slot_mono (x ∷ xs) zero (suc j) a b h le at_i at_j =
    let same : x ≡ a = cc in rw (← same) (All-get_elem? (λ t. x.slot ≤ t.slot) xs j b h.0 at_j)
slot_mono (x ∷ xs) (suc i) zero a b h le at_i at_j = absurd (omega arith)
slot_mono (x ∷ xs) (suc i) (suc j) a b h le at_i at_j =
    slot_mono xs i j a b h.1 (omega arith) at_i at_j

get_elem?-below :
    (xs : List Block) (i j : ℕ) (b : Block)
    → i ≤ j
    → get_elem? xs j ≡ some b
    → (a : Block) × (get_elem? xs i ≡ some a)
get_elem?-below [] i j b le at = cc
get_elem?-below (x ∷ xs) zero j b le at = (x, refl)
get_elem?-below (x ∷ xs) (suc i) zero b le at = absurd (omega arith)
get_elem?-below (x ∷ xs) (suc i) (suc j) b le at = get_elem?-below xs i j b (omega arith) at

-- Behind the place where the chains part no slot of the old chain is below the slot of that place.
diverge_slot-le :
    (old new : List Block) (i : ℕ) (b : Block)
    → IsAscending old
    → diverge old new ≤ i
    → get_elem? old i ≡ some b
    → diverge_slot old new ≤ b.slot
unfolding diverge_slot
diverge_slot-le old new i b ascending le at =
    let (a, parted) = get_elem?-below old (diverge old new) i b le at in
    let ordered = slot_mono old (diverge old new) i a b ascending le parted at in ground arith

module _ (c : Crypto) where
  -- Whether a new tip is accepted or not, every block of the canonical chain whose slot is finalized
  -- stays, with its hash, at its place of the canonical chain. Conditions: there is a canonical tip, a
  -- slot has been finalized, and slots do not fall along the canonical chain.
  pub finalized_blocks_stay :
      (tip : Bytes) (bc : Blockchain) {accepted : Bool} {bc' : Blockchain}
      → bc.canonical_tip ≢ []
      → bc.finalized_slot ≢ 0
      → IsAscending bc.chain
      → update_canonical c tip bc ≡ some (accepted, bc')
      → (i : ℕ) (b : Block) → get_elem? bc.chain i ≡ some b
      → b.slot ≤ bc.finalized_slot
      → Shares bc'.chain i b
  finalized_blocks_stay tip bc {accepted} {bc'} started finality ascending h i b at final =
      elim (update_canonical_cases c tip bc started h) [
        | inl (turned_down, kept) ↦ (b, rw kept.chain at, refl)
        | inr (taken, is_tip, wins) ↦ elim (dec_lt i (diverge bc.chain bc'.chain)) [
          | yes before ↦ Shares-diverge bc.chain bc'.chain i b before at
          | no behind ↦
              let below = diverge_slot-le bc.chain bc'.chain i b ascending (omega arith) at in
              let above = wins.unfinalized finality in absurd (omega arith)
        ]
      ]

  -- Whether a new tip is accepted or not, every block of the canonical chain but the last
  -- `MaxReorgDepth` stays, with its hash, at its place. Condition: there is a canonical tip.
  pub deep_blocks_stay :
      (tip : Bytes) (bc : Blockchain) {accepted : Bool} {bc' : Blockchain} (depth : ℕ)
      → bc.canonical_tip ≢ []
      → bc.config.max_reorg_depth ≡ pos depth
      → update_canonical c tip bc ≡ some (accepted, bc')
      → (i : ℕ) (b : Block) → i + depth < length bc.chain
      → get_elem? bc.chain i ≡ some b
      → Shares bc'.chain i b
  deep_blocks_stay tip bc {accepted} {bc'} depth started limit h i b deep at =
      elim (update_canonical_cases c tip bc started h) [
        | inl (turned_down, kept) ↦ (b, rw kept.chain at, refl)
        | inr (taken, is_tip, wins) ↦
            let shallow = rw limit at wins.shallow in
            Shares-diverge bc.chain bc'.chain i b (omega arith) at
      ]
