-- ===== src/Tests/Stake.antt =====
-- A validator map of two, one of which is close to the minimum.
use xenium.Prelude.{ℕ, ◌≡◌, refl, none, some, [], sym, ◌∙◌, arith, if◌then◌else◌, ltb, ◌-◌}
use xenium.Prelude.Bytes.{Bytes, str, bytes_eq, bytes_key}
use xenium.Prelude.Int.{pos, ◌-ℤ◌, sub_int, wrap}
use xenium.Dict.{lookup, insert}
use xenium.Domain.{Validator, Validators, ok}
use xenium.Stake.{ensure_entry, add_validator, unstake, slash_validator_percent, slash_percent}
use xenium.Stake.Invariant.{IsStaked, HasRoom, insert-IsStaked}
use xenium.Stake.Slashing.{penalty, slash_percent_lem}
use xenium.Tests.Demo.{alice, bob, carol}

abbrev validator : Bytes → ℕ → Validator
validator name stake = record {
  name = name;
  stake = pos stake;
  pub_key = str "04abcd";
  priv_key = none;
  last_slot = 0;
}

abbrev pub two : Validators
two = insert bob (validator bob 500) (insert alice (validator alice 12) [])

none-some : {v : Validator} → none ≡ some v → ⊥
none-some e = cc

none_of : (name : Bytes) (v : Validator) → lookup name [] ≡ some v → ⊥
unfolding lookup
none_of name v e = cc

empty-IsStaked : IsStaked []
empty-IsStaked = record { at = λ name v e. absurd (none_of name v e) }

pub two-IsStaked : IsStaked two
two-IsStaked =
    insert-IsStaked bob (validator bob 500) (insert alice (validator alice 12) [])
      (record { named = refl; low = omega arith; high = omega arith })
      (insert-IsStaked alice (validator alice 12) []
        (record { named = refl; low = omega arith; high = omega arith }) empty-IsStaked)

carol-HasRoom : HasRoom two carol (pos 10)
carol-HasRoom v e =
    let missing : lookup carol two ≡ none = unfold lookup insert bytes_eq in refl in
    absurd (none-some (sym missing ∙ e))

carol_joins :
    add_validator two none carol (pos 10) (str "04ff") none
    ≡ ok (insert carol (record (validator carol 10) { pub_key = str "04ff" }) two, none)
unfolding add_validator bytes_eq lookup insert ensure_entry
carol_joins = refl

bob_leaves : unstake two bob (pos 490) ≡ ok (insert bob (validator bob 10) two)
unfolding unstake lookup insert bytes_eq sub_int wrap ◌-ℤ◌
bob_leaves = refl

bob_found : lookup bob two ≡ some (validator bob 500)
unfolding lookup insert bytes_eq
bob_found = refl

slash_percent_lem_example :
    lookup bob (slash_validator_percent two bob slash_percent)
    ≡ (if ltb (500 - penalty 500) 10 then none else some (validator bob 490))
slash_percent_lem_example =
    slash_percent_lem two bob (validator bob 500) 500 bob_found refl (omega arith) (omega arith)
