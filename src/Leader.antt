-- ===== src/Leader.antt =====
-- consensus/pos.go, the leader of a slot: a draw by the hash of the slot, weighted by stake.
pub mod Draw
pub mod Order
use xenium.Prelude.{
  ℕ, zero, suc, ◌+◌, ◌*◌, ◌/◌, ◌%◌, Bool, true, false, ◌||◌, Option, none, some, List, [], ◌∷◌, ltb,
  nat_beq, if◌then◌else◌, get_or, take,
}
use xenium.Prelude.Bytes.{Bytes, str, bytes_lt, bytes_key}
use xenium.Prelude.Int.{ℤ, pos, ltb_ℤ, beq_ℤ, add_int, add_word, to_int, to_uint64}
use xenium.Prelude.Sort.{sort_slice}
use xenium.Dict.{Dict, lookup, keys, values}
use xenium.Domain.{Validator, Validators, ValidatorStats, Stats}
use xenium.Crypto.{Crypto}
use xenium.Stake.{min_stake}

-- Slots of an epoch, in which jail is counted.
abbrev pub slots_per_epoch : ℕ
slots_per_epoch = 50

abbrev pub Stakes : Type 0
Stakes = Dict Bytes ℕ

abbrev pub genesis_name : Bytes
genesis_name = str "genesis"

unfoldable pub is_jailed : Option Stats → Bytes → ℕ → Bool
is_jailed none name slot = false
is_jailed (some stats) name slot = elim (lookup name stats) [
  | none ↦ false
  | some s ↦ ltb (slot / slots_per_epoch) s.jailed_until_epoch
]

unfoldable pub sorted_stake_names : Stakes → List Bytes
sorted_stake_names m = sort_slice bytes_lt (keys m)

unfoldable pub sorted_validator_names : Validators → List Bytes
sorted_validator_names m = sort_slice bytes_lt (keys m)

-- `binary.LittleEndian`: `PutUint64` writes `n` bytes, and `Uint64` reads.
unfoldable pub put_uint : ℕ → ℕ → Bytes
put_uint zero v = []
put_uint (suc n) v = v % 256 ∷ put_uint n (v / 256)

unfoldable pub read_uint : Bytes → ℕ
read_uint [] = 0
read_uint (b ∷ bs) = b + 256 * read_uint bs

-- The total of a snapshot, in `uint64`; the order of the summands is the map's.
unfoldable pub total_from : ℕ → List ℕ → ℕ
total_from acc [] = acc
total_from acc (stake ∷ stakes) = total_from (add_word acc stake) stakes

-- `stakes[name]`
unfoldable pub stake_of : Stakes → Bytes → ℕ
stake_of stakes name = get_or (lookup name stakes) 0

-- The loop of `LeaderFromSnapshot`, on the sum of the stakes passed.
unfoldable pub pick : Stakes → ℕ → ℕ → List Bytes → Bytes
pick stakes draw running [] = genesis_name
pick stakes draw running (name ∷ names) =
    let next = add_word running (stake_of stakes name) in
    let rest = pick stakes draw next names in if ltb draw next then name else rest

-- Whether a validator may lead: enough stake, and not in jail.
unfoldable pub is_active : Option Stats → ℕ → Validator → Bool
is_active stats slot v =
    if ltb_ℤ v.stake min_stake then false else if is_jailed stats v.name slot then false else true

unfoldable pub active_total : Option Stats → ℕ → ℤ → List Validator → ℤ
active_total stats slot acc [] = acc
active_total stats slot acc (v ∷ vs) =
    active_total stats slot (if is_active stats slot v then add_int acc v.stake else acc) vs

-- The loop of `DeterministicLeader`; a name without an entry cannot occur, and is passed over here.
unfoldable pub pick_active : Validators → Option Stats → ℕ → ℤ → ℤ → List Bytes → Bytes
pick_active validators stats slot draw running [] = genesis_name
pick_active validators stats slot draw running (name ∷ names) = elim (lookup name validators) [
  | none ↦ pick_active validators stats slot draw running names
  | some v ↦
      let next = add_int running v.stake in
      let skipped = pick_active validators stats slot draw running names in
      let rest = pick_active validators stats slot draw next names in
      if is_active stats slot v then (if ltb_ℤ draw next then name else rest) else skipped
]

module _ (c : Crypto) where
  -- The callers never pass 0 for `max`, where Go panics.
  unfoldable pub deterministic_draw : ℕ → ℤ → ℤ
  deterministic_draw slot max =
      to_int (read_uint (take 8 (c.sha256 (put_uint 8 slot))) % to_uint64 max)

  unfoldable pub leader_from_snapshot : ℕ → Stakes → Bytes
  leader_from_snapshot slot stakes =
      let total = total_from 0 (values stakes) in
      if nat_beq total 0
      then genesis_name
      else pick stakes (to_uint64 (deterministic_draw slot (to_int total))) 0
          (sorted_stake_names stakes)

  unfoldable pub deterministic_leader : ℕ → Validators → Option Stats → Bytes
  deterministic_leader slot validators stats =
      let total = active_total stats slot (pos 0) (values validators) in
      if beq_ℤ total (pos 0)
      then genesis_name
      else pick_active validators stats slot (deterministic_draw slot total) (pos 0)
          (sorted_validator_names validators)
