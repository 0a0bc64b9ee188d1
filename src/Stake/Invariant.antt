-- ===== src/Stake/Invariant.antt =====
-- The invariant of the validator map of consensus/pos.go.
use xenium.Prelude.{
  ◌≡◌, refl, inl, inr, Option, some, ◌∙◌, arith, ==_iff, ◌==◌, Option-cases, Bool-cases,
}
use xenium.Prelude.Bytes.{Bytes, bytes_key}
use xenium.Prelude.Int.{
  ℤ, pos, ◌+ℤ◌, ◌≤ℤ◌, beq_ℤ, leb_ℤ, int_laws, parts_of_eq, -ℤ_parts, ltb_ℤ, max_int, add_int,
  sub_int, add_int_exact, sub_int_exact,
}
use xenium.Dict.{lookup, insert, erase, lookup-insert, lookup-erase}
use xenium.Domain.{Validator, Validators, Stats, PrivateKey, ok}
use xenium.Stake.{
  min_stake, add_validator, top_up, add_stake, unstake, reward_validator, slash_validator,
  block_reward,
}

-- A validator stands under its own name, with at least the minimum stake, within the range of `int`.
pub record IsSound (name : Bytes) (v : Validator) : Type 0 where
  pub named : v.name ≡ name
  pub low : min_stake ≤ℤ v.stake
  pub high : v.stake ≤ℤ pos max_int

pub record IsStaked (vs : Validators) : Type 0 where
  pub at : (name : Bytes) (v : Validator) → lookup name vs ≡ some v → IsSound name v

pub insert-IsStaked :
    (name : Bytes) (v : Validator) (vs : Validators)
    → IsSound name v
    → IsStaked vs
    → IsStaked (insert name v vs)
insert-IsStaked name v vs sound staked = record {
  at = λ j w e. elim (Bool-cases (name == j)) [
    | inl same ↦
        let key : name ≡ j = (==_iff name j).0 same in
        let value : v ≡ w = ground (arith, lookup-insert name j v vs) in rw (← key, ← value) sound
    | inr other ↦ staked.at j w (ground (arith, lookup-insert name j v vs))
  ];
}

abbrev lowered : Validator → ℤ → Validator
lowered v amount = record v { stake = sub_int v.stake amount }

pub erase-IsStaked : (name : Bytes) (vs : Validators) → IsStaked vs → IsStaked (erase name vs)
erase-IsStaked name vs staked = record {
  at = λ j w e. staked.at j w (grind (arith, lookup-erase name j vs));
}

erase-insert-IsStaked :
    (name : Bytes) (v : Validator) (vs : Validators)
    → IsStaked vs
    → IsStaked (erase name (insert name v vs))
erase-insert-IsStaked name v vs staked = record {
  at = λ j w e.
      staked.at j w
        (grind (arith, lookup-erase name j (insert name v vs), lookup-insert name j v vs));
}

-- What a stake may grow by without passing the range of an `int`.
abbrev pub HasRoom : Validators → Bytes → ℤ → Type 0
HasRoom vs name amount =
    (v : Validator) → lookup name vs ≡ some v → v.stake +ℤ amount ≤ℤ pos max_int

grow-IsSound :
    (name : Bytes) (v w : Validator) (amount : ℤ)
    → IsSound name v
    → pos 0 ≤ℤ amount
    → v.stake +ℤ amount ≤ℤ pos max_int
    → w.name ≡ v.name
    → w.stake ≡ add_int v.stake amount
    → IsSound name w
grow-IsSound name v w amount sound up room same_name grown =
    let low = sound.low in
    let exact = parts_of_eq (add_int_exact v.stake amount (omega int_laws)) in
    let grown' = parts_of_eq grown in
    record { named = same_name ∙ sound.named; low = omega int_laws; high = omega int_laws }

-- Adding a validator, or adding to the stake of a known one, keeps the invariant of the validator map.
-- Conditions: the stake that is added fits an `int`, and so does the sum with a stake that is there.
pub add_validator-IsStaked :
    (vs : Validators) (stats : Option Stats) (name : Bytes) (stake : ℤ) (pub_key : Bytes)
    (priv : Option PrivateKey)
    → IsStaked vs
    → stake ≤ℤ pos max_int
    → HasRoom vs name stake
    → (vs' : Validators) (stats' : Option Stats)
    → add_validator vs stats name stake pub_key priv ≡ ok (vs', stats')
    → IsStaked vs'
unfolding add_validator top_up
add_validator-IsStaked vs stats name stake pub_key priv staked fits room vs' stats' h =
    elim (Option-cases (lookup name vs)) [
      | inl missing ↦
          let v' : Validator = record {
            name = name;
            stake = stake;
            pub_key = pub_key;
            priv_key = priv;
            last_slot = 0;
          } in
          let result : vs' ≡ insert name v' vs = ground arith in
          rw result (
            insert-IsStaked name v' vs (record { named = refl; low = ground arith; high = fits })
              staked)
      | inr (v, found) ↦
          let v' = top_up v stake pub_key priv in
          let result : vs' ≡ insert name v' vs = ground arith in
          rw result (
            insert-IsStaked name v' vs
              (grow-IsSound name v v' stake (staked.at name v found) (ground arith) (room v found)
                refl refl)
              staked)
    ]

-- Raising a stake keeps the invariant of the validator map. Condition: the raised stake fits an `int`.
add_stake-IsStaked :
    (vs : Validators) (name : Bytes) (amount : ℤ) {vs' : Validators}
    → IsStaked vs
    → HasRoom vs name amount
    → add_stake vs name amount ≡ ok vs'
    → IsStaked vs'
unfolding add_stake
add_stake-IsStaked vs name amount {vs'} staked room h = elim (Option-cases (lookup name vs)) [
  | inl missing ↦ ground arith
  | inr (v, found) ↦
      let v' : Validator = record v { stake = add_int v.stake amount } in
      let result : vs' ≡ insert name v' vs = ground arith in
      rw result (
        insert-IsStaked name v' vs
          (grow-IsSound name v v' amount (staked.at name v found) (ground arith) (room v found) refl
            refl)
          staked)
]

-- A stake that is lowered, also to nothing, leaves only validators with the minimum stake.
pub unstake-IsStaked :
    (vs : Validators) (name : Bytes) (amount : ℤ) {vs' : Validators}
    → IsStaked vs
    → unstake vs name amount ≡ ok vs'
    → IsStaked vs'
unfolding unstake
unstake-IsStaked vs name amount {vs'} staked h = elim (Option-cases (lookup name vs)) [
  | inl missing ↦ ground arith
  | inr (v, found) ↦
      let sound = staked.at name v found in
      let low = sound.low in
      let high = sound.high in
      let new_stake = sub_int v.stake amount in
      let v' : Validator = record v { stake = new_stake } in
      let positive : pos 1 ≤ℤ amount = ground arith in
      let enough : amount ≤ℤ v.stake = ground arith in
      let exact = parts_of_eq (sub_int_exact v.stake amount (omega int_laws)) in
      elim (Bool-cases (beq_ℤ new_stake (pos 0))) [
        | inl gone ↦
            let result : vs' ≡ erase name vs = ground arith in
            rw result (erase-IsStaked name vs staked)
        | inr left ↦
            let result : vs' ≡ insert name v' vs = ground arith in
            let kept : min_stake ≤ℤ new_stake = ground (arith, -ℤ_parts v.stake amount) in
            rw result (
              insert-IsStaked name v' vs
                (record { named = sound.named; low = kept; high = omega int_laws }) staked)
      ]
]

-- The reward of a block keeps the invariant of the validator map. Condition: the raised stake fits an
-- `int`.
reward_validator-IsStaked :
    (vs : Validators) (name : Bytes)
    → IsStaked vs
    → HasRoom vs name block_reward
    → IsStaked (reward_validator vs name)
unfolding reward_validator
reward_validator-IsStaked vs name staked room = elim (Option-cases (lookup name vs)) [
  | inl missing ↦ rw (missing, reward_validator) staked
  | inr (v, found) ↦
      let v' : Validator = record v { stake = add_int v.stake block_reward } in
      rw (found, reward_validator)
        (insert-IsStaked name v' vs
          (grow-IsSound name v v' block_reward (staked.at name v found) (omega arith) (room v found)
            refl refl)
          staked)
]

-- How a slash ends: nothing changed, the entry deleted, or a lowered stake written.
slash_validator_cases :
    (P : Validators → Type 0) (vs : Validators) (name : Bytes) (amount : ℤ)
    → P vs
    → P (erase name vs)
    → ((v : Validator) → P (erase name (insert name (lowered v amount) vs)))
    → ((v : Validator)
        → lookup name vs ≡ some v
        → pos 1 ≤ℤ amount
        → amount ≤ℤ v.stake
        → min_stake ≤ℤ (lowered v amount).stake
        → P (insert name (lowered v amount) vs))
    → P (slash_validator vs name amount)
unfolding slash_validator
slash_validator_cases P vs name amount same gone below kept = elim (Option-cases (lookup name vs)) [
  | inl missing ↦ grind arith
  | inr (v, found) ↦ elim (Bool-cases (leb_ℤ amount (pos 0))) [
    | inl none_taken ↦ rw (none_taken, slash_validator) same
    | inr some_taken ↦ elim (Bool-cases (leb_ℤ v.stake amount)) [
      | inl all ↦ rw (some_taken, found, all, slash_validator) gone
      | inr part ↦ elim (Bool-cases (ltb_ℤ (sub_int v.stake amount) min_stake)) [
        | inl under ↦ rw (some_taken, found, part, under, slash_validator) (below v)
        | inr over ↦
            rw (some_taken, found, part, over, slash_validator)
              (kept v found (ground arith) (ground arith) (ground arith))
      ]
    ]
  ]
]

-- A slash by any amount leaves only validators with the minimum stake.
pub slash_validator-IsStaked :
    (vs : Validators) (name : Bytes) (amount : ℤ)
    → IsStaked vs
    → IsStaked (slash_validator vs name amount)
unfolding slash_validator
slash_validator-IsStaked vs name amount staked =
    slash_validator_cases IsStaked vs name amount staked (erase-IsStaked name vs staked)
      (λ v. erase-insert-IsStaked name (lowered v amount) vs staked)
      (λ v found positive enough kept.
        let sound = staked.at name v found in
        let low = sound.low in
        let high = sound.high in
        let exact = parts_of_eq (sub_int_exact v.stake amount (omega int_laws)) in
        insert-IsStaked name (lowered v amount) vs
          (record { named = sound.named; low = kept; high = omega int_laws }) staked)
