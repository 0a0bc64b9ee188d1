-- ===== src/Command/Depth.antt =====
-- computeReorgDepth of cmd/xenium/main.go and computeReorgDepthAndSlot of core/blockchain.go.
use xenium.Prelude.{ℕ, zero, suc, ◌+◌, ◌≡◌, refl, List, [], ◌∷◌, arith, ltb, if◌then◌else◌, length}
use xenium.Prelude.Bytes.{bytes_key}
use xenium.Domain.{Block}
use xenium.Chain.Canonical.{diverge, compute_reorg_depth_and_slot}
use xenium.Command.{diverge_from, compute_reorg_depth}

-- The loop on longer lists, one index further.
diverge_from-cons :
    (rounds i min_len : ℕ) (a b : Block) (old new : List Block)
    → diverge_from rounds (suc i) (suc min_len) (a ∷ old) (b ∷ new)
      ≡ suc (diverge_from rounds i min_len old new)
unfolding diverge_from
diverge_from-cons zero i min_len a b old new = refl
diverge_from-cons (suc rounds) i min_len a b old new =
    ground (arith, diverge_from-cons rounds (i + 1) min_len a b old new)

abbrev least : ℕ → ℕ → ℕ
least m n = if ltb n m then n else m

least-suc : (m n : ℕ) → least (suc m) (suc n) ≡ suc (least m n)
least-suc m n = ground arith

diverge_from-diverge :
    (old new : List Block)
    → diverge_from (least (length old) (length new)) 0 (least (length old) (length new)) old new
      ≡ diverge old new
unfolding diverge_from diverge
diverge_from-diverge [] new = ground arith
diverge_from-diverge (a ∷ old) [] = ground arith
diverge_from-diverge (a ∷ old) (b ∷ new) =
    let k = least (length old) (length new) in
    rw (least-suc (length old) (length new))
      (ground (arith, diverge_from-cons k 0 k a b old new, diverge_from-diverge old new))

-- The command measures the depth of a reorganisation as the engine does.
pub compute_reorg_depth_lem :
    (old new : List Block) → compute_reorg_depth old new ≡ (compute_reorg_depth_and_slot old new).0
unfolding compute_reorg_depth compute_reorg_depth_and_slot
compute_reorg_depth_lem old new = rw diverge_from-diverge refl
