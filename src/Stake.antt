-- ===== src/Stake.antt =====
-- consensus/pos.go, the stakes: adding, raising, lowering and slashing the stake of a validator.
-- The source changes a map of pointers in place; no validator is reachable but through the map, so
-- a change is a write of the new value under the same name.
pub mod Invariant
pub mod Slashing
use xenium.Prelude.{ℕ, Bool, Option, none, some, [], ◌&&◌, if◌then◌else◌, ◌==◌}
use xenium.Prelude.Bytes.{Bytes, bytes_key}
use xenium.Prelude.Int.{ℤ, pos, ltb_ℤ, leb_ℤ, beq_ℤ, add_int, sub_int, mul_int, div_int}
use xenium.Dict.{lookup, insert, erase, contains}
use xenium.Domain.{
  Validator, Validators, Stats, zero_stats, PrivateKey, Result, ok, err, name_required,
  stake_not_positive, pubkey_required, stake_below_minimum, amount_not_positive,
  validator_not_found, unstake_exceeds_stake,
}

abbrev pub min_stake : ℤ
min_stake = pos 10

abbrev pub block_reward : ℤ
block_reward = pos 1

abbrev pub slash_penalty : ℤ
slash_penalty = pos 5

abbrev pub slash_percent : ℤ
slash_percent = pos 2

-- `if stats != nil { if _, ok := stats[name]; !ok { stats[name] = &ValidatorStats{} } }`
unfoldable pub ensure_entry : Bytes → Option Stats → Option Stats
ensure_entry name none = none
ensure_entry name (some stats) =
    some (if contains name stats then stats else insert name zero_stats stats)

-- The branch of `AddValidator` for a name that is known: the keys are filled in where missing.
unfoldable pub top_up : Validator → ℤ → Bytes → Option PrivateKey → Validator
top_up v stake pub_key priv = record v {
  stake = add_int v.stake stake;
  pub_key = if v.pub_key == [] then pub_key else v.pub_key;
  priv_key = elim v.priv_key [ none ↦ priv | some k ↦ some k ];
}

unfoldable pub add_validator :
    Validators
    → Option Stats
    → Bytes
    → ℤ
    → Bytes
    → Option PrivateKey
    → Result (Validators × Option Stats)
add_validator validators stats name stake pub_key priv =
    if name == []
    then err name_required
    else if leb_ℤ stake (pos 0)
    then err stake_not_positive
    else if pub_key == []
    then err pubkey_required
    else elim (lookup name validators) [
      | none ↦
          if ltb_ℤ stake min_stake
          then err stake_below_minimum
          else ok (
            insert name
                (record {
                  name = name;
                  stake = stake;
                  pub_key = pub_key;
                  priv_key = priv;
                  last_slot = 0;
                })
                validators,
            ensure_entry name stats,
          )
      | some v ↦ ok (insert name (top_up v stake pub_key priv) validators, stats)
    ]

unfoldable pub add_stake : Validators → Bytes → ℤ → Result Validators
add_stake validators name amount =
    if leb_ℤ amount (pos 0) then err amount_not_positive else elim (lookup name validators) [
      | none ↦ err validator_not_found
      | some v ↦ ok (insert name (record v { stake = add_int v.stake amount }) validators)
    ]

unfoldable pub unstake : Validators → Bytes → ℤ → Result Validators
unstake validators name amount =
    if leb_ℤ amount (pos 0) then err amount_not_positive else elim (lookup name validators) [
      | none ↦ err validator_not_found
      | some v ↦
          let new_stake = sub_int v.stake amount in
          if ltb_ℤ v.stake amount
          then err unstake_exceeds_stake
          else if ltb_ℤ (pos 0) new_stake && ltb_ℤ new_stake min_stake
          then err stake_below_minimum
          else if beq_ℤ new_stake (pos 0)
          then ok (erase name validators)
          else ok (insert name (record v { stake = new_stake }) validators)
    ]

unfoldable pub reward_validator : Validators → Bytes → Validators
reward_validator validators name = elim (lookup name validators) [
  | none ↦ validators
  | some v ↦ insert name (record v { stake = add_int v.stake block_reward }) validators
]

-- The source writes the lowered stake before it deletes an entry below the minimum.
unfoldable pub slash_validator : Validators → Bytes → ℤ → Validators
slash_validator validators name amount =
    if leb_ℤ amount (pos 0) then validators else elim (lookup name validators) [
      | none ↦ validators
      | some v ↦
          let lowered = sub_int v.stake amount in
          if leb_ℤ v.stake amount
          then erase name validators
          else if ltb_ℤ lowered min_stake
          then erase name (insert name (record v { stake = lowered }) validators)
          else insert name (record v { stake = lowered }) validators
    ]

unfoldable pub slash_amount : ℤ → ℤ → ℤ
slash_amount stake percent =
    let amount = div_int (mul_int stake percent) 100 in
    if beq_ℤ amount (pos 0) then pos 1 else amount

unfoldable pub slash_validator_percent : Validators → Bytes → ℤ → Validators
slash_validator_percent validators name percent =
    if leb_ℤ percent (pos 0) then validators else elim (lookup name validators) [
      | none ↦ validators
      | some v ↦ slash_validator validators name (slash_amount v.stake percent)
    ]
