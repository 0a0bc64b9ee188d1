-- ===== src/Tests/Poh.antt =====
-- A clock that runs for the ticks of a slot.
use xenium.Prelude.{ℕ, zero, suc, ◌≡◌, ◌<◌, refl, some, [], arith, All}
use xenium.Prelude.Bytes.{Bytes, str}
use xenium.Domain.{Block, ok}
use xenium.Poh.{Poh, new_poh, slot, tick, poh_hash_hex, verify_poh}
use xenium.Poh.Verify.{IsDigest, verify_poh-tick}
use xenium.Tests.Demo.{demo, zeros}

abbrev clock : Poh
clock = new_poh (zeros 32)

zeros-IsByte : (n : ℕ) → All (λ b. b < 256) (zeros n)
zeros-IsByte zero = tt
zeros-IsByte (suc n) = (omega arith, zeros-IsByte n)

pub demo-digests : (bs : Bytes) → IsDigest (demo.sha256 bs)
demo-digests bs = record { bytes = (omega arith, zeros-IsByte 31); size = refl }

zeros-IsDigest : IsDigest (zeros 32)
zeros-IsDigest = record { bytes = zeros-IsByte 32; size = refl }

abbrev ticked : Poh
ticked = tick demo 20 clock

abbrev pub block : Block
block = record {
  index = 1;
  prev_hash = str "g";
  slot = slot ticked;
  tick = ticked.current_tick;
  validator = str "alice";
  tx_root = [];
  state_root = [];
  poh_hash = poh_hash_hex ticked.hash;
  signature = [];
  hash = str "a";
  transactions = [];
}

verify_poh-tick_example :
    verify_poh demo clock.hash clock.current_tick block
    ≡ some (ok (ticked.hash, ticked.current_tick))
verify_poh-tick_example =
    verify_poh-tick demo demo-digests 20 clock block (omega arith) (unfold new_poh in omega arith)
      (unfold new_poh in zeros-IsDigest) refl refl refl
