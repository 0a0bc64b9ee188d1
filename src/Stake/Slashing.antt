-- ===== src/Stake/Slashing.antt =====
-- SlashValidator, SlashValidatorPercent, AddStake and Unstake of consensus/pos.go on one entry of the
-- validator map and on the others.
use xenium.Prelude.{
  ℕ, ◌+◌, ◌-◌, ◌*◌, ◌/◌, ◌≤◌, ◌<◌, ◌≡◌, ◌≢◌, some, none, ltb, arith, if◌then◌else◌, nat_beq, ◌∙◌,
  ap, ==_iff, false,
}
use xenium.Prelude.Bytes.{Bytes, bytes_key}
use xenium.Prelude.Int.{
  ℤ, pos, ◌+ℤ◌, ◌-ℤ◌, ◌*ℤ◌, mul_int, div_int, sub_int, wrap, leb_ℤ, max_int, add_int,
}
use xenium.Dict.{
  lookup, insert, lookup-insert, lookup-insert_self, lookup-erase_self, lookup-erase_ne,
  lookup-insert_ne,
}
use xenium.Domain.{Validator, Validators, ok, ◌>>=◌}
use xenium.Stake.{
  slash_percent, slash_amount, slash_validator, slash_validator_percent, add_stake, unstake,
}

-- The percent slash of a stake `n`: two percent rounded down, but at least 1.
abbrev pub penalty : ℕ → ℕ
penalty n = if nat_beq (n * 2 / 100) 0 then 1 else n * 2 / 100

slash_amount_lem : (n : ℕ) → n * 2 ≤ max_int → slash_amount (pos n) slash_percent ≡ pos (penalty n)
unfolding slash_amount mul_int ◌*ℤ◌ wrap div_int
slash_amount_lem n h = ground arith

sub_int_pos : (n m : ℕ) → m ≤ n → n ≤ max_int → sub_int (pos n) (pos m) ≡ pos (n - m)
unfolding sub_int ◌-ℤ◌ wrap
sub_int_pos n m h k = ground arith

add_int_pos : (n m : ℕ) → n + m ≤ max_int → add_int (pos n) (pos m) ≡ pos (n + m)
unfolding add_int ◌+ℤ◌ wrap
add_int_pos n m h = ground arith

slash_lem :
    (vs : Validators) (name : Bytes) (v : Validator) (n m : ℕ)
    → lookup name vs ≡ some v
    → v.stake ≡ pos n
    → 0 < m
    → m ≤ n
    → 10 ≤ n
    → n ≤ max_int
    → lookup name (slash_validator vs name (pos m))
      ≡ (if ltb (n - m) 10 then none else some (record v { stake = pos (n - m) }))
unfolding slash_validator
slash_lem vs name v n m found stake positive part low high =
    let some_taken : leb_ℤ (pos m) (pos 0) ≡ false = ground arith in
    let lowered : sub_int v.stake (pos m) ≡ pos (n - m) = rw stake (sub_int_pos n m part high) in
    ground (
      arith,
      found,
      stake,
      lowered,
      lookup-erase_self name vs,
      lookup-erase_self name (insert name (record v { stake = sub_int v.stake (pos m) }) vs),
      lookup-insert_self name (record v { stake = sub_int v.stake (pos m) }) vs,
    )

-- A percent slash takes two percent of the stake, at least 1, and what falls below the minimum of
-- 10 is removed from the validators. Condition: the stake is at least the minimum, and its double fits an `int`.
pub slash_percent_lem :
    (vs : Validators) (name : Bytes) (v : Validator) (n : ℕ)
    → lookup name vs ≡ some v
    → v.stake ≡ pos n
    → 10 ≤ n
    → n * 2 ≤ max_int
    → lookup name (slash_validator_percent vs name slash_percent)
      ≡ (if ltb (n - penalty n) 10 then none else some (record v { stake = pos (n - penalty n) }))
unfolding slash_validator_percent
slash_percent_lem vs name v n found stake low high =
    let amount : slash_amount v.stake slash_percent ≡ pos (penalty n) =
      rw stake (slash_amount_lem n high) in
    rw (found, slash_validator_percent, amount)
      (slash_lem vs name v n (penalty n) found stake (ground arith) (ground arith) low
        (omega arith))

-- A slash changes no other validator.
pub slash_others :
    (vs : Validators) (name other : Bytes) (amount : ℤ)
    → name ≢ other
    → lookup other (slash_validator vs name amount) ≡ lookup other vs
unfolding slash_validator
slash_others vs name other amount ne = grind (arith, lookup-insert_ne, lookup-erase_ne)

-- Raising a stake and lowering it by the same amount both succeed, and restore every entry of the
-- map. Conditions: the amount is positive, the stake is at least the minimum, and the raised stake
-- fits an `int`.
pub unstake-add_stake :
    (vs : Validators) (name : Bytes) (v : Validator) (n m : ℕ)
    → lookup name vs ≡ some v
    → v.stake ≡ pos n
    → 10 ≤ n
    → n + m ≤ max_int
    → 0 < m
    → (down : Validators) × ((add_stake vs name (pos m) >>= λ up. unstake up name (pos m))
        ≡ ok down)
      × ((j : Bytes) → lookup j down ≡ lookup j vs)
unfolding add_stake unstake
unstake-add_stake vs name v n m found stake low room positive =
    let up : Validator = record v { stake = pos (n + m) } in
    let down : Validator = record v { stake = pos n } in
    let raised : add_int v.stake (pos m) ≡ pos (n + m) = rw stake (add_int_pos n m room) in
    let lowered : sub_int (pos (n + m)) (pos m) ≡ pos n =
      sub_int_pos (n + m) m (omega arith) room ∙ ap pos (omega arith) in
    let some_taken : leb_ℤ (pos m) (pos 0) ≡ false = ground arith in
    (
      insert name down (insert name up vs),
      rw (some_taken, add_stake, found, raised, lookup-insert_self, unstake, lowered) ground
          (arith, raised),
      λ j. grind (
        arith,
        lookup-insert name j down (insert name up vs),
        lookup-insert name j up vs,
        ==_iff name j,
      ),
    )
