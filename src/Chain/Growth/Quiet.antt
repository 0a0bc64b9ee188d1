-- ===== src/Chain/Growth/Quiet.antt =====
-- The calls of core/blockchain.go that make a block of a slot in which none was made: no equivocation is found.
use mathlib.Core.Path.{subst}
use xenium.Prelude.{
  ℕ, suc, ◌≤◌, ◌<◌, ◌≡◌, refl, sym, ap, ◌∙◌, inl, inr, ◌⊎◌, false, Option, none, some, List, [],
  arith, ◌==◌, ==_iff, Bool-cases, Option-cases, nat_eq, get_or,
}
use xenium.Prelude.Bytes.{Bytes, bytes_key}
use xenium.Dict.{Dict, lookup, insert, lookup-insert}
use xenium.Domain.{Block, Transaction, State, PrivateKey, Result-cases, ok}
use xenium.Crypto.{Crypto}
use xenium.Ports.{BlockStore}
use xenium.Ledger.{apply_transactions}
use xenium.Stake.{reward_validator}
use xenium.Signing.{sign_block}
use xenium.Poh.{Poh, slot}
use xenium.Chain.{Blockchain}
use xenium.Chain.Score.{chain_tip_slot}
use xenium.Chain.Canonical.{update_canonical}
use xenium.Chain.Slots.{
  process_missed_slots, insert_block, register_slot_producer, producers_of, note_producer,
}
use xenium.Chain.Accept.{verify_block_on_accept}
use xenium.Chain.Blocks.{Added, Turn, slash_leader, draft, take_in, save_and_take_in, seal, build}
use xenium.Chain.Growth.Leaving.{
  Leaves, Leaves-trans, slash_leader-Leaves, insert_block-Leaves, process_missed_slots-Leaves,
  update_canonical-Leaves,
}

-- No producer is noted for a slot from `time` on, and no equivocation was seen.
pub record IsClear (time : ℕ) (bc : Blockchain) : Type 0 where
  pub noted :
      (at : ℕ) (producers : Dict Bytes Bytes)
      → lookup at bc.slot_producers ≡ some producers
      → at < time
  pub no_proofs : bc.equivocations ≡ []

pub IsClear-Leaves :
    {time : ℕ} {bc bc' : Blockchain} → Leaves bc bc' → IsClear time bc → IsClear time bc'
IsClear-Leaves k clear = record {
  noted = λ at producers found. clear.noted at producers (rw k.producers at found);
  no_proofs = k.proofs ∙ clear.no_proofs;
}

pub IsClear-later :
    {time time' : ℕ} {bc : Blockchain} → time ≤ time' → IsClear time bc → IsClear time' bc
IsClear-later {bc = bc} later clear = record {
  noted = λ at producers found. let low = clear.noted at producers found in omega arith;
  no_proofs = clear.no_proofs;
}

other_slot :
    (slot at : ℕ) (noted : Dict Bytes Bytes) (d : Dict ℕ (Dict Bytes Bytes))
    {producers : Dict Bytes Bytes}
    → (slot == at) ≡ false
    → lookup at (insert slot noted d) ≡ some producers
    → lookup at d ≡ some producers
other_slot slot at noted d other found = ground (arith, lookup-insert slot at noted d)

-- The first block of a slot is registered.
pub register_slot_producer-IsClear :
    (b : Block) (bc : Blockchain)
    → IsClear b.slot bc
    → ((register_slot_producer b bc).0 ≡ ok tt)
      × IsClear (suc b.slot) (register_slot_producer b bc).1
      × ((register_slot_producer b bc).1.poh ≡ bc.poh)
unfolding register_slot_producer producers_of note_producer
register_slot_producer-IsClear b bc clear = elim (Option-cases (lookup b.slot bc.slot_producers)) [
  | inr (producers, found) ↦ absurd (let low = clear.noted b.slot producers found in omega arith)
  | inl free ↦
      let nobody : lookup b.validator (get_or (lookup b.slot bc.slot_producers) []) ≡ none =
        rw free (unfold lookup in refl) in
      let same : register_slot_producer b bc ≡ (ok tt, note_producer b bc) = ground arith in
      rw same (
        refl,
        record {
          noted = λ at producers found. elim (Bool-cases (b.slot == at)) [
            | inl here_now ↦ let key : b.slot ≡ at = (==_iff b.slot at).0 here_now in omega arith
            | inr other ↦
                let old : lookup at bc.slot_producers ≡ some producers =
                  other_slot b.slot at _ bc.slot_producers other found in
                let low = clear.noted at producers old in omega arith
          ];
          no_proofs = clear.no_proofs;
        },
        refl,
      )
]

pub unchanged :
    {time : ℕ} (bc : Blockchain) {bc' : Blockchain} → IsClear time bc → bc' ≡ bc → IsClear time bc'
unchanged bc clear same = rw same clear

pub slashed :
    {time : ℕ} (leader : Bytes) (bc : Blockchain) {bc' : Blockchain}
    → IsClear time bc
    → bc' ≡ slash_leader leader bc
    → IsClear time bc'
slashed leader bc clear same = rw same (IsClear-Leaves (slash_leader-Leaves leader bc) clear)

pub slot-sign_block :
    (c : Crypto) (random : ℕ) (priv : PrivateKey) (b : Block) {signed : Block}
    → sign_block c random (some priv) b ≡ ok signed
    → signed.slot ≡ b.slot
unfolding sign_block
slot-sign_block c random priv b h = ground arith

module _ (c : Crypto) {S : Type 0} (store : BlockStore S) where
  -- What a call may do that makes a block of a slot that is clear: the slot is taken, the clock runs on, and no
  -- equivocation is found.
  pub record IsQuiet (time : ℕ) (clock : Option Poh) (r : Added S) : Type 0 where
    pub clear : IsClear (suc time) r.engine
    pub same_clock : r.engine.poh ≡ clock

  pub quiet :
      {time : ℕ} (bc : Blockchain) (r : Added S)
      → IsClear time bc
      → (r.engine ≡ bc) ⊎ ((leader : Bytes) × (r.engine ≡ slash_leader leader bc))
      → IsQuiet time bc.poh r
  quiet bc r clear (inl same) = record {
    clear = IsClear-later (omega arith) (unchanged bc clear same);
    same_clock = ap (λ (x : Blockchain). x.poh) same;
  }
  quiet bc r clear (inr (leader, same)) = record {
    clear = IsClear-later (omega arith) (slashed leader bc clear same);
    same_clock = ap (λ (x : Blockchain). x.poh) same ∙ (slash_leader-Leaves leader bc).clock;
  }

  take_in-IsQuiet :
      (leader : Bytes) (b : Block) (bc : Blockchain) (stored : Option S) {r : Added S}
      → IsClear b.slot bc
      → take_in c store leader b bc stored ≡ some r
      → IsQuiet b.slot bc.poh r
  unfolding take_in
  take_in-IsQuiet leader b bc stored {r} clear h =
      let registered = (register_slot_producer b bc).1 in
      let (outcome, noted, clock) = register_slot_producer-IsClear b bc clear in
      elim (Option-cases (update_canonical c b.hash (insert_block b registered))) [
        | inl endless ↦ absurd (ground arith)
        | inr ((accepted, chosen), done) ↦
            let rewarded = record chosen {
              validators = reward_validator chosen.validators leader;
            } in
            elim (Option-cases (process_missed_slots c (chain_tip_slot rewarded.chain) rewarded)) [
              | inl endless ↦ absurd (ground arith)
              | inr (last, counted) ↦
                  let same : r.engine ≡ last = ground arith in
                  let rest : Leaves registered last =
                    Leaves-trans (insert_block-Leaves b registered) (
                      Leaves-trans
                        (update_canonical-Leaves c b.hash (insert_block b registered) done)
                        (Leaves-trans (record { producers = refl; proofs = refl; clock = refl })
                          (process_missed_slots-Leaves c (chain_tip_slot rewarded.chain) rewarded
                            counted))) in
                  record {
                    clear = rw same (IsClear-Leaves rest noted);
                    same_clock = rw same (rest.clock ∙ clock);
                  }
            ]
      ]

  save_and_take_in-IsQuiet :
      (leader : Bytes) (b : Block) (bc : Blockchain) (stored : Option S) {r : Added S}
      → IsClear b.slot bc
      → save_and_take_in c store leader b bc stored ≡ some r
      → IsQuiet b.slot bc.poh r
  unfolding save_and_take_in
  save_and_take_in-IsQuiet leader b bc none clear h = take_in-IsQuiet leader b bc none clear h
  save_and_take_in-IsQuiet leader b bc (some s) {r} clear h =
      elim (Result-cases (store.save_block b s).0) [
        | inr (e, failed) ↦ quiet bc r clear (inl (ground arith))
        | inl (u, saved) ↦
            take_in-IsQuiet leader b bc (some (store.save_block b s).1) {r = r} clear (ground arith)
      ]

  module _ (random : ℕ) (turn : Turn) (prev : Block) (state : State) where
    seal-IsQuiet :
        (b : Block) (bc : Blockchain) (stored : Option S) {r : Added S}
        → IsClear b.slot bc
        → seal c store random turn prev state b bc stored ≡ some r
        → IsQuiet b.slot bc.poh r
    unfolding seal
    seal-IsQuiet b bc stored {r} clear h = elim (Option-cases (lookup turn.leader bc.validators)) [
      | inl missing ↦ quiet bc r clear (inr (turn.leader, ground arith))
      | inr (v, there) ↦ elim (Option-cases v.priv_key) [
        | inl no_key ↦ quiet bc r clear (inr (turn.leader, ground arith))
        | inr (priv, key) ↦ elim (Result-cases (sign_block c random (some priv) b)) [
          | inr (e, failed) ↦ quiet bc r clear (inr (turn.leader, ground arith))
          | inl (signed, done) ↦
              let verified = verify_block_on_accept c prev signed state bc in
              let asked = record bc { epochs = verified.1 } in
              let same_slot = slot-sign_block c random priv b done in
              let clear' : IsClear b.slot asked =
                IsClear-Leaves (record { producers = refl; proofs = refl; clock = refl }) clear in
              elim (Result-cases verified.0) [
                | inr (e, refused) ↦ quiet asked r clear' (inr (turn.leader, ground arith))
                | inl (u, accepted) ↦
                    subst (λ t. IsQuiet t bc.poh r) same_slot
                      (save_and_take_in-IsQuiet turn.leader signed asked stored {r = r}
                        (subst (λ t. IsClear t asked) (sym same_slot) clear') (ground arith))
              ]
        ]
      ]
    ]

    pub build-IsQuiet :
        (txs : List Transaction) (bc : Blockchain) (stored : Option S) {r : Added S}
        → IsClear (slot turn.clock) bc
        → build c store random turn prev state txs bc stored ≡ some r
        → IsQuiet (slot turn.clock) bc.poh r
    unfolding build draft
    build-IsQuiet txs bc stored {r} clear h =
        elim (Result-cases (apply_transactions state txs turn.producer)) [
          | inr (e, failed) ↦ quiet bc r clear (inr (turn.leader, ground arith))
          | inl (left, applied) ↦
              seal-IsQuiet (draft c turn prev txs left) bc stored {r = r} clear (ground arith)
        ]
