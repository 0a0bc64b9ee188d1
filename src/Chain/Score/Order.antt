-- ===== src/Chain/Score/Order.antt =====
-- The order of fork choice: by weight, then by slot, then by hash (`betterScore` of core/blockchain.go).
use xenium.Prelude.{◌≡◌, ◌≢◌, ◌⊎◌, true, false, arith}
use xenium.Prelude.Bytes.{bytes_lt_trans, bytes_lt_total, bytes_lt_asymm}
use xenium.Chain.{ChainScore}
use xenium.Chain.Score.{better_score}

-- What beats a score beats every score that this one beats.
pub better_score_trans :
    (a b d : ChainScore)
    → better_score a b ≡ true
    → better_score b d ≡ true
    → better_score a d ≡ true
unfolding better_score
better_score_trans a b d h k = ground (arith, bytes_lt_trans a.hash b.hash d.hash)

-- Of the scores of two blocks with different hashes, exactly one beats the other.
pub better_score_total :
    (a b : ChainScore)
    → a.hash ≢ b.hash
    → ((better_score a b ≡ true) × (better_score b a ≡ false))
      ⊎ ((better_score a b ≡ false) × (better_score b a ≡ true))
unfolding better_score
better_score_total a b h = ground (
  arith,
  bytes_lt_total a.hash b.hash,
  bytes_lt_asymm a.hash b.hash,
  bytes_lt_asymm b.hash a.hash,
)
