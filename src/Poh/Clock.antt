-- ===== src/Poh/Clock.antt =====
-- The tick counter and the hash of `Tick` of consensus/poh.go.
use xenium.Prelude.{ℕ, zero, suc, ◌+◌, ◌<◌, ◌≡◌, refl, arith}
use xenium.Prelude.Int.{word, add_word}
use xenium.Crypto.{Crypto}
use xenium.Poh.{Poh, tick, slot, ticks_per_slot, replay, hash_poh}

module _ (c : Crypto) where
  -- Ticking `n` times moves the counter by `n`, and the hash along the chain that a verifier
  -- replays from the tick after the present one. Condition: the counter stays in `uint64`.
  pub tick_lem :
      (n : ℕ) (p : Poh)
      → p.current_tick + n < word
      → ((tick c n p).current_tick ≡ p.current_tick + n)
        × ((tick c n p).hash ≡ replay c n (p.current_tick + 1) p.hash)
  unfolding tick replay
  tick_lem zero p h = (omega arith, refl)
  tick_lem (suc n) p h =
      let next : add_word p.current_tick 1 ≡ p.current_tick + 1 = omega arith in
      let p₁ : Poh = record {
        current_tick = p.current_tick + 1;
        hash = hash_poh c p.hash (p.current_tick + 1);
      } in
      let (moved, hashed) = tick_lem n p₁ (omega arith) in rw (next, tick) (omega arith, hashed)

  -- The ticks of one slot move the clock to the next slot. Condition: the counter stays in `uint64`.
  pub slot-tick :
      (p : Poh)
      → p.current_tick + ticks_per_slot < word
      → slot (tick c ticks_per_slot p) ≡ slot p + 1
  unfolding slot
  slot-tick p h = let (moved, _) = tick_lem ticks_per_slot p h in rw moved (omega arith)
