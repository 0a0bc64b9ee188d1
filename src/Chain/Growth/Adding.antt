-- ===== src/Chain/Growth/Adding.antt =====
-- AddBlock and AddBlockExternal of core/blockchain.go on well placed blocks.
use xenium.Prelude.{
  ℕ, ◌≤◌, ◌≡◌, ◌≢◌, refl, inl, inr, Bool, Option, none, some, arith, Option-cases, get_elem?,
}
use xenium.Prelude.Bytes.{Bytes, bytes_key}
use xenium.Dict.{lookup}
use xenium.Domain.{Block, Result-cases}
use xenium.Crypto.{Crypto}
use xenium.Ports.{BlockStore}
use xenium.Stake.{reward_validator}
use xenium.Chain.{Blockchain}
use xenium.Chain.Score.{chain_tip_slot}
use xenium.Chain.Canonical.{update_canonical}
use xenium.Chain.Slots.{insert_block, register_slot_producer, process_missed_slots}
use xenium.Chain.Blocks.{Added, take_in, save_and_take_in}
use xenium.Chain.Growth.{
  IsPlaced, IsGrown-later, IsPlaced-Keeps, Keeps, insert-Keeps, insert-IsGrown,
}
use xenium.Chain.Growth.Walks.{chain_from_tip-insert}
use xenium.Chain.Growth.Moves.{
  now, Moves, Moves-trans, Moves-same, register_slot_producer-Moves, process_missed_slots-Moves,
}
use xenium.Chain.Growth.Canonical.{
  IsEngine, tip_of_walk, update_canonical-IsEngine, update_canonical-IsSteady,
  update_canonical-final,
}

-- From one state to a later one no block is lost, the finalized slot does not fall, and every block of the
-- canonical chain that is finalized stays at its place.
pub record Grows (bc bc' : Blockchain) : Type 0 where
  pub engine : IsEngine bc'
  pub keeps : Keeps bc.blocks bc'.blocks
  pub finality : bc.finalized_slot ≤ bc'.finalized_slot
  pub stays :
      (i : ℕ) (b : Block)
      → get_elem? bc.chain i ≡ some b
      → bc.finalized_slot ≢ 0
      → b.slot ≤ bc.finalized_slot
      → get_elem? bc'.chain i ≡ some b

pub Grows-trans : {a b d : Blockchain} → Grows a b → Grows b d → Grows a d
Grows-trans g h =
    let low = g.finality in
    let high = h.finality in
    record {
      engine = h.engine;
      keeps = record { at = λ hash x found. h.keeps.at hash x (g.keeps.at hash x found) };
      finality = omega arith;
      stays = λ i x at some_final final.
          h.stays i x (g.stays i x at some_final final) (λ e. some_final (omega arith))
            (omega arith);
    }

pub Moves-Grows : {bc bc' : Blockchain} → IsEngine bc → Moves bc bc' → Grows bc bc'
Moves-Grows {bc} {bc'} engine m = record {
  engine = record {
    grown = rw m.blocks (IsGrown-later m.clock engine.grown);
    walked = rw (m.blocks, m.canonical_tip, m.chain) engine.walked;
  };
  keeps = record { at = λ hash x found. rw m.blocks found };
  finality = rw m.finalized_slot (omega arith);
  stays = λ i x at some_final final. rw m.chain at;
}

pub IsPlaced-Moves :
    {bc bc' : Blockchain} (b : Block)
    → Moves bc bc'
    → IsPlaced bc.blocks (now bc) b.hash b
    → IsPlaced bc'.blocks (now bc') b.hash b
IsPlaced-Moves b m placed =
    IsPlaced-Keeps b.hash b (record { at = λ hash x found. rw m.blocks found }) m.clock placed

pub insert_block-Grows :
    (b : Block) (bc : Blockchain)
    → IsEngine bc
    → lookup b.hash bc.blocks ≡ none
    → IsPlaced bc.blocks (now bc) b.hash b
    → Grows bc (insert_block b bc)
unfolding insert_block
insert_block-Grows b bc engine fresh placed = record {
  engine = record {
    grown = insert-IsGrown b bc.blocks (now bc) fresh placed engine.grown;
    walked = chain_from_tip-insert b bc.blocks bc.canonical_tip fresh engine.walked;
  };
  keeps = insert-Keeps b bc.blocks fresh;
  finality = omega arith;
  stays = λ i x at some_final final. at;
}

module _ (c : Crypto) where
  pub update_canonical-Grows :
      (tip : Bytes) (bc : Blockchain) {accepted : Bool} {bc' : Blockchain}
      → IsEngine bc
      → update_canonical c tip bc ≡ some (accepted, bc')
      → Grows bc bc'
  update_canonical-Grows tip bc engine h =
      let k =
        update_canonical-IsSteady c tip bc (tip_of_walk bc.blocks bc.canonical_tip engine.walked)
          h in
      record {
        engine = update_canonical-IsEngine c tip bc engine h;
        keeps = record { at = λ hash x found. rw k.blocks found };
        finality = k.finalized_slot;
        stays = update_canonical-final c tip bc engine h;
      }

  module _ {S : Type 0} (store : BlockStore S) (leader : Bytes) (b : Block) where
    take_in-Grows :
        (bc : Blockchain) (stored : Option S) {r : Added S}
        → IsEngine bc
        → IsPlaced bc.blocks (now bc) b.hash b
        → take_in c store leader b bc stored ≡ some r
        → lookup r.hash bc.blocks ≡ none
        → Grows bc r.engine
    unfolding take_in
    take_in-Grows bc stored {r} engine placed h fresh =
        let registered = (register_slot_producer b bc).1 in
        let m = register_slot_producer-Moves b bc in
        let g = Moves-Grows engine m in
        elim (Option-cases (update_canonical c b.hash (insert_block b registered))) [
          | inl endless ↦ absurd (ground arith)
          | inr ((accepted, chosen), done) ↦
              let rewarded = record chosen {
                validators = reward_validator chosen.validators leader;
              } in
              elim (Option-cases
                (process_missed_slots c (chain_tip_slot rewarded.chain) rewarded)) [
                  | inl endless ↦ absurd (ground arith)
                  | inr (last, counted) ↦
                      let hash : r.hash ≡ b.hash = ground arith in
                      let same : r.engine ≡ last = ground arith in
                      let new : lookup b.hash registered.blocks ≡ none =
                        rw (m.blocks, ← hash) fresh in
                      let inserted =
                        insert_block-Grows b registered g.engine new (IsPlaced-Moves b m placed) in
                      let chose =
                        update_canonical-Grows b.hash (insert_block b registered) inserted.engine
                          done in
                      let end : Moves chosen last =
                        Moves-trans (Moves-same chosen rewarded refl refl refl refl refl refl) (
                          process_missed_slots-Moves c (chain_tip_slot rewarded.chain) rewarded
                            counted) in
                      rw same (
                        Grows-trans g
                          (Grows-trans inserted (Grows-trans chose (Moves-Grows chose.engine end))))
                ]
        ]

    pub save_and_take_in-Grows :
        (bc : Blockchain) (stored : Option S) {r : Added S}
        → IsEngine bc
        → IsPlaced bc.blocks (now bc) b.hash b
        → save_and_take_in c store leader b bc stored ≡ some r
        → lookup r.hash bc.blocks ≡ none
        → Grows bc r.engine
    unfolding save_and_take_in
    save_and_take_in-Grows bc none engine placed h fresh =
        take_in-Grows bc none engine placed h fresh
    save_and_take_in-Grows bc (some s) {r} engine placed h fresh =
        elim (Result-cases (store.save_block b s).0) [
          | inr (e, failed) ↦
              let same : r.engine ≡ bc = ground arith in
              rw same (Moves-Grows engine (Moves-same bc bc refl refl refl refl refl refl))
          | inl (u, saved) ↦
              take_in-Grows bc (some (store.save_block b s).1) {r = r} engine placed (ground arith)
                fresh
        ]
