-- ===== src/Poh/Verify.antt =====
-- VerifyPoH of consensus/pov.go against the clock of consensus/poh.go.
use xenium.Prelude.{
  ℕ, zero, suc, ◌+◌, ◌-◌, ◌/◌, ◌<◌, ◌≡◌, inl, inr, arith, some, All, length, ==_iff,
}
use xenium.Prelude.Bytes.{Bytes, bytes_key, bytes_eq_refl}
use xenium.Prelude.Int.{word}
use xenium.Domain.{Block, ok, Result-cases}
use xenium.Crypto.{Crypto}
use xenium.Text.Hex.{hex_decode-hex_encode}
use xenium.Poh.{
  Poh, tick, slot, ticks_per_slot, replay, hash_poh, verify_poh, check_hash, parse_poh_hash_hex,
  poh_hash_hex,
}
use xenium.Poh.Clock.{tick_lem}

-- A digest of SHA-256: 32 bytes.
pub record IsDigest (bs : Bytes) : Type 0 where
  pub bytes : All (λ b. b < 256) bs
  pub size : length bs ≡ 32

-- A digest that was written in hex is read back.
pub parse-poh_hash_hex : (bs : Bytes) → IsDigest bs → parse_poh_hash_hex (poh_hash_hex bs) ≡ ok bs
unfolding parse_poh_hash_hex poh_hash_hex
parse-poh_hash_hex bs d =
    let size = d.size in rw (parse_poh_hash_hex, hex_decode-hex_encode bs d.bytes) (ground arith)

module _ (c : Crypto) where
  check_hash_sound :
      (hash : Bytes) (cur : Block) {hash' : Bytes} {t' : ℕ}
      → check_hash c hash cur ≡ ok (hash', t')
      → (parse_poh_hash_hex cur.poh_hash ≡ ok hash) × (hash' ≡ hash) × (t' ≡ cur.tick)
  unfolding check_hash
  check_hash_sound hash cur h = elim (Result-cases (parse_poh_hash_hex cur.poh_hash)) [
    | inl (parsed, e) ↦ ground (arith, ==_iff parsed hash)
    | inr (failed, e) ↦ ground arith
  ]

  -- An accepted block has a later tick, the slot of that tick, and the hash that the replay of the
  -- ticks since the expected one gives.
  pub verify_poh_sound :
      (hash : Bytes) (t : ℕ) (cur : Block) {hash' : Bytes} {t' : ℕ}
      → verify_poh c hash t cur ≡ some (ok (hash', t'))
      → (t < cur.tick)
        × (t' ≡ cur.tick)
        × (cur.slot ≡ cur.tick / ticks_per_slot)
        × (parse_poh_hash_hex cur.poh_hash ≡ ok hash')
        × (hash' ≡ replay c (cur.tick - t) (t + 1) hash)
  unfolding verify_poh
  verify_poh_sound hash t cur {hash'} {t'} h =
      ground (
        arith,
        check_hash_sound (replay c (cur.tick - t) (t + 1) hash) cur {hash' = hash'} {t' = t'},
      )

module _ (c : Crypto) (digests : (bs : Bytes) → IsDigest (c.sha256 bs)) where
  replay-IsDigest : (n t : ℕ) (hash : Bytes) → IsDigest hash → IsDigest (replay c n t hash)
  unfolding replay hash_poh
  replay-IsDigest zero t hash d = d
  replay-IsDigest (suc n) t hash d = replay-IsDigest n (t + 1) _ (digests _)

  -- A block that carries the tick, the slot and the hash of the clock after some more ticks passes
  -- the check against the clock before them. Conditions: the clock moves, its counter stays below
  -- the largest `uint64`, its hash is a digest, and SHA-256 yields digests.
  pub verify_poh-tick :
      (n : ℕ) (p : Poh) (cur : Block)
      → 0 < n
      → p.current_tick + n < word - 1
      → IsDigest p.hash
      → let p' = tick c n p in
        cur.tick ≡ p'.current_tick
        → cur.slot ≡ slot p'
        → cur.poh_hash ≡ poh_hash_hex p'.hash
        → verify_poh c p.hash p.current_tick cur ≡ some (ok (p'.hash, p'.current_tick))
  unfolding verify_poh check_hash slot
  verify_poh-tick n p cur positive room d at slot_at hash_at =
      let (moved, hashed) = tick_lem c n p (omega arith) in
      let parsed = parse-poh_hash_hex _ (replay-IsDigest n (p.current_tick + 1) p.hash d) in
      let rounds : cur.tick - p.current_tick ≡ n = omega arith in
      let text : parse_poh_hash_hex cur.poh_hash ≡ ok (replay c n (p.current_tick + 1) p.hash) =
        rw (hash_at, hashed) parsed in
      ground (
        arith,
        rounds,
        text,
        hashed,
        at,
        moved,
        slot_at,
        bytes_eq_refl (replay c n (p.current_tick + 1) p.hash),
      )
