-- ===== src/Chain/Rebuild.antt =====
-- What core/blockchain.go derives from the canonical chain: the slot map, the account state and the
-- finalized slot.
use xenium.Prelude.{ℕ, ◌-◌, Option, none, some, List, [], ◌∷◌, ltb, if◌then◌else◌, ◌==◌, nat_eq}
use xenium.Prelude.Bytes.{Bytes, bytes_key}
use xenium.Dict.{Dict, lookup, insert}
use xenium.Domain.{Block, State, Validators, Result, ok, err, ◌>>=◌}
use xenium.Crypto.{Crypto}
use xenium.Ledger.{apply_transactions}
use xenium.Signing.{address_from_pub_key}
use xenium.Chain.{Blockchain}
use xenium.Chain.Walk.{collect_known, rounds, chain_from_tip}
use xenium.Chain.Score.{chain_tip_slot}

-- All but the first block: the loops `for i := 1; i < len(chain); i++`.
abbrev pub after_first : List Block → List Block
after_first [] = []
after_first (b ∷ bs) = bs

unfoldable pub slot_map : Dict ℕ Bytes → List Block → Dict ℕ Bytes
slot_map m [] = m
slot_map m (b ∷ bs) = slot_map (insert b.slot b.validator m) bs

unfoldable pub rebuild_slot_map : Blockchain → Blockchain
rebuild_slot_map bc = record bc { slot_produced = slot_map [] (after_first bc.chain) }

unfoldable pub update_finality : Blockchain → Blockchain
update_finality bc =
    let tip_slot = chain_tip_slot bc.chain in
    if ltb tip_slot bc.config.finality_slots
    then bc
    else let finalized = tip_slot - bc.config.finality_slots in
      if ltb bc.finalized_slot finalized then record bc { finalized_slot = finalized } else bc

module _ (c : Crypto) where
  unfoldable pub validator_reward_address : Validators → Bytes → Bytes
  validator_reward_address validators name = elim (lookup name validators) [
    | none ↦ []
    | some v ↦
        if v.pub_key == []
        then []
        else elim (address_from_pub_key c v.pub_key) [ err e ↦ [] | ok addr ↦ addr ]
  ]

  -- Applying the transactions of some blocks in turn, each with its validator as the producer.
  unfoldable pub replay_blocks : Validators → State → List Block → Result State
  replay_blocks validators state [] = ok state
  replay_blocks validators state (b ∷ bs) =
      apply_transactions state b.transactions (validator_reward_address validators b.validator)
      >>= λ next. replay_blocks validators next bs

  -- A block that cannot be applied leaves the state as it was before the call.
  unfoldable pub rebuild_state_from_canonical : Blockchain → Blockchain
  rebuild_state_from_canonical bc =
      elim (replay_blocks bc.validators bc.genesis (after_first bc.chain)) [
        | err e ↦ bc
        | ok state ↦ record bc { state = state }
      ]

  unfoldable pub state_at_tip : Blockchain → Bytes → Option (Result State)
  state_at_tip bc tip = elim (chain_from_tip bc.blocks tip) [
    | none ↦ none
    | some (err e) ↦ some (err e)
    | some (ok chain) ↦ some (replay_blocks bc.validators bc.genesis (after_first chain))
  ]

  -- `none` is a walk that is not over.
  unfoldable pub rebuild_canonical_chain : Blockchain → Option Blockchain
  rebuild_canonical_chain bc =
      if bc.canonical_tip == []
      then some (record bc { chain = [] })
      else elim (collect_known bc.blocks (rounds bc.blocks) bc.canonical_tip []) [
        | none ↦ none
        | some chain ↦
            some (rebuild_state_from_canonical (rebuild_slot_map (record bc { chain = chain })))
      ]
