-- ===== src/Domain.antt =====
-- The data of domain/ (account.go, transaction.go, block.go, validator.go), the results of the
-- program's calls, and its errors, each with the number that the message names.
use xenium.Prelude.{if◌then◌else◌, ℕ, Bool, false, Option, List, ◌≡◌, refl, ◌⊎◌, inl, inr}
use xenium.Prelude.Bytes.{Bytes}
use xenium.Prelude.Int.{ℤ, pos}
use xenium.Dict.{Dict}

pub record Account : Type 0 where
  pub balance : ℤ
  pub nonce : ℕ

-- The zero value, which a read of a missing key gives.
abbrev pub zero_account : Account
zero_account = record { balance = pos 0; nonce = 0 }

abbrev pub State : Type 0
State = Dict Bytes Account

pub record Transaction : Type 0 where
  pub from : Bytes
  pub to : Bytes
  pub amount : ℤ
  pub fee : ℤ
  pub nonce : ℕ
  pub pub_key : Bytes
  pub signature : Bytes
  pub hash : Bytes

pub record Block : Type 0 where
  pub index : ℕ
  pub prev_hash : Bytes
  pub slot : ℕ
  pub tick : ℕ
  pub validator : Bytes
  pub tx_root : Bytes
  pub state_root : Bytes
  pub poh_hash : Bytes
  pub signature : Bytes
  pub hash : Bytes
  pub transactions : List Transaction

-- An `ecdsa.PrivateKey`: its public point as `elliptic.Marshal` writes it, and its secret number.
pub record PrivateKey : Type 0 where
  pub public_point : Bytes
  pub secret : ℕ

pub record Validator : Type 0 where
  pub name : Bytes
  pub stake : ℤ
  pub pub_key : Bytes
  pub priv_key : Option PrivateKey
  pub last_slot : ℕ

pub record ValidatorStats : Type 0 where
  pub missed_slots : ℕ
  pub jailed_until_epoch : ℕ
  pub slashed : Bool

-- `&domain.ValidatorStats{}`
abbrev pub zero_stats : ValidatorStats
zero_stats = record { missed_slots = 0; jailed_until_epoch = 0; slashed = false }

abbrev pub Validators : Type 0
Validators = Dict Bytes Validator

abbrev pub Stats : Type 0
Stats = Dict Bytes ValidatorStats

pub data Error : Type 0 where
  -- consensus/pov.go
  invalid_amount missing_sender invalid_nonce invalid_fee nonce_mismatch : ℕ → Error
  insufficient_balance invalid_tx_signature : ℕ → Error
  invalid_prev_hash slot_regressed tick_not_increasing slot_mismatch invalid_poh_hash : ℕ → Error
  invalid_hash unknown_validator wrong_leader : ℕ → Error
  -- consensus/crypto.go, consensus/poh.go, domain/crypto.go
  missing_pubkey_or_signature invalid_hex invalid_pubkey address_mismatch missing_tx_hash : Error
  tx_hash_mismatch invalid_signature invalid_poh_hash_length : Error
  missing_validator_pubkey invalid_validator_pubkey missing_block_signature : Error
  invalid_block_signature invalid_block_hash missing_private_key signing_failed : Error
  -- consensus/pos.go
  name_required stake_not_positive pubkey_required stake_below_minimum : Error
  amount_not_positive validator_not_found unstake_exceeds_stake : Error
  -- core/
  duplicate_tx empty_tip_hash missing_block equivocation_detected : Error
  invalid_block_link missing_snapshot invalid_tx_root invalid_state_root : Error
  unknown_block_validator no_validators poh_not_initialized : Error
  missing_signing_key unknown_parent : Error
  empty_chain invalid_genesis_hash : Error
  missing_epoch_snapshot double_produce tx_root_mismatch state_root_mismatch : ℕ → Error
  -- adapters/storage_file.go, core/recovery.go
  data_dir_required unreadable unwritable invalid_json line_too_long : Error
  missing_hash block_store_required : Error
  missing_height : ℕ → Error

pub data Result {ℓ} (X : Type ℓ) : Type ℓ where
  ok : X → Result X
  err : Error → Result X

-- `x, err := call(); if err != nil { return err }`, and what follows it.
infixl 5 ◌>>=◌
abbrev pub ◌>>=◌ {ℓ κ} : {X : Type ℓ} {Y : Type κ} → Result X → (X → Result Y) → Result Y
ok x >>= next = next x
err failure >>= next = err failure

-- Where a chain of calls ended well, its first call did, and the rest on what that returned.
pub >>=-eq-ok {ℓ κ} :
    {X : Type ℓ} {Y : Type κ} (call : Result X) (next : X → Result Y) {y : Y}
    → (call >>= next) ≡ ok y
    → (x : X) × (call ≡ ok x) × (next x ≡ ok y)
>>=-eq-ok (ok x) next done = (x, refl, done)
>>=-eq-ok (err failure) next done = cc

pub Result-cases {ℓ} :
    {X : Type ℓ} (call : Result X)
    → ((x : X) × (call ≡ ok x)) ⊎ ((failure : Error) × (call ≡ err failure))
Result-cases (ok x) = inl (x, refl)
Result-cases (err failure) = inr (failure, refl)

-- The result of a call that returns only an error or nil.
abbrev pub Checked : Type 0
Checked = Result (Unit {0})

-- `if failed { return e }`, and what follows it.
abbrev pub reject_if : Bool → Error → Checked → Checked
reject_if failed e rest = if failed then err e else rest
