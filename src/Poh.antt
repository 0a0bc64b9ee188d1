-- ===== src/Poh.antt =====
-- consensus/poh.go: the tick chain, and VerifyPoH of consensus/pov.go.
pub mod Clock
pub mod Verify
use xenium.Prelude.{
  ℕ, zero, suc, ◌+◌, ◌-◌, ◌/◌, ◌%◌, Bool, not, List, [], ◌++◌, Option, none, some, ltb, leb,
  nat_beq, if◌then◌else◌, ◌==◌, length,
}
use xenium.Prelude.Bytes.{Bytes, str, bytes_key}
use xenium.Prelude.Int.{ℤ, word, add_word}
use xenium.Domain.{
  Block, Result, ok, err, invalid_hex, invalid_poh_hash_length, tick_not_increasing, slot_mismatch,
  invalid_poh_hash,
}
use xenium.Crypto.{Crypto}
use xenium.Text.Digits.{format_uint, format_int}
use xenium.Text.Hex.{hex_encode, hex_decode}

abbrev pub ticks_per_slot : ℕ
ticks_per_slot = 20

-- A `[32]byte` is a byte list; that its length is 32 is a fact about SHA-256.
pub record Poh : Type 0 where
  pub current_tick : ℕ
  pub hash : Bytes

unfoldable pub new_poh : Bytes → Poh
new_poh seed = record { current_tick = 0; hash = seed }

unfoldable pub slot : Poh → ℕ
slot p = p.current_tick / ticks_per_slot

unfoldable pub poh_hash_hex : Bytes → Bytes
poh_hash_hex hash = hex_encode hash

unfoldable pub parse_poh_hash_hex : Bytes → Result Bytes
parse_poh_hash_hex s = elim (hex_decode s) [
  | none ↦ err invalid_hex
  | some raw ↦ if nat_beq (length raw) 32 then ok raw else err invalid_poh_hash_length
]

module _ (c : Crypto) where
  unfoldable pub hash_poh : Bytes → ℕ → Bytes
  hash_poh prev tick = c.sha256 (prev ++ format_uint tick)

  unfoldable pub hash_poh_seed : ℤ → Bytes
  hash_poh_seed nonce = c.sha256 (str "poh|" ++ format_int nonce)

  -- `n` rounds of the loop of `Tick`.
  unfoldable pub tick : ℕ → Poh → Poh
  tick zero p = p
  tick (suc n) p =
      let next = add_word p.current_tick 1 in
      tick n (record { current_tick = next; hash = hash_poh p.hash next })

  -- The loop of `VerifyPoH` from tick `t` on, `rounds` times.
  unfoldable pub replay : ℕ → ℕ → Bytes → Bytes
  replay zero t hash = hash
  replay (suc rounds) t hash = replay rounds (t + 1) (hash_poh hash t)

  -- The comparison at the end of `VerifyPoH`.
  unfoldable pub check_hash : Bytes → Block → Result (Bytes × ℕ)
  check_hash hash cur = elim (parse_poh_hash_hex cur.poh_hash) [
    | err e ↦ err e
    | ok poh_hash ↦
        if not (poh_hash == hash) then err (invalid_poh_hash cur.index) else ok (hash, cur.tick)
  ]

  -- `none` is a call that never returns: `t <= cur.Tick` holds of every `uint64` at the largest tick.
  unfoldable pub verify_poh : Bytes → ℕ → Block → Option (Result (Bytes × ℕ))
  verify_poh expected_hash expected_tick cur =
      if leb cur.tick expected_tick
      then some (err (tick_not_increasing cur.index))
      else if not (nat_beq (cur.tick / ticks_per_slot) cur.slot)
      then some (err (slot_mismatch cur.index))
      else if nat_beq cur.tick (word - 1)
      then none
      else some
          (check_hash (replay (cur.tick - expected_tick) (expected_tick + 1) expected_hash) cur)
