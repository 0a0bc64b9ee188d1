-- ===== src/Chain/Growth/Sealing.antt =====
-- The block that AddBlock and AddBlockExternal of core/blockchain.go build, and the calls as wholes.
use xenium.Prelude.{
  ℕ, ◌*◌, ◌≤◌, ◌<◌, ◌≡◌, refl, ap, inl, inr, Option, none, some, List, [], ◌∷◌, arith, Option-cases,
  length,
}
use xenium.Prelude.Bytes.{Bytes, bytes_key}
use xenium.Dict.{lookup}
use xenium.Domain.{Block, Transaction, State, PrivateKey, Result-cases, ok}
use xenium.Crypto.{Crypto}
use xenium.Ports.{BlockStore}
use xenium.Text.Hex.{hex_encode}
use xenium.Ledger.{apply_transactions}
use xenium.Poh.Verify.{IsDigest}
use xenium.Signing.{sign_block, hash_block, block_text}
use xenium.Chain.{Blockchain, genesis_mark}
use xenium.Chain.Walk.{Blocks}
use xenium.Chain.Accept.{verify_block_on_accept}
use xenium.Chain.Blocks.{Added, Turn, slash_leader, draft, seal, build}
use xenium.Chain.Growth.{IsPlaced, HasParent}
use xenium.Chain.Growth.Moves.{now, Moves, Moves-same, slash_leader-Moves}
use xenium.Chain.Growth.Canonical.{IsEngine}
use xenium.Chain.Growth.Adding.{Grows, Grows-trans, Moves-Grows, save_and_take_in-Grows}

-- A block that is not signed yet stands on a block that is there, within the time of the clock.
pub record IsReady (blocks : Blocks) (time : ℕ) (b : Block) : Type 0 where
  pub low : b.index ≤ b.slot
  pub early : b.slot ≤ time
  pub on : HasParent blocks b

length-hex_encode : (bs : Bytes) → length (hex_encode bs) ≡ 2 * length bs
unfolding hex_encode
length-hex_encode [] = refl
length-hex_encode (b ∷ bs) = omega (arith, length-hex_encode bs)

module _ (c : Crypto) (digests : (bs : Bytes) → IsDigest (c.sha256 bs)) where
  pub length-hash_block : (b : Block) → length (hash_block c b) ≡ 64
  unfolding hash_block
  length-hash_block b =
      let size = (digests (block_text b)).size in
      omega (arith, length-hex_encode (c.sha256 (block_text b)), size)

  -- The signed block is well placed.
  pub signed-IsPlaced :
      (random : ℕ) (priv : Option PrivateKey) (b : Block) (blocks : Blocks) (time : ℕ)
      {signed : Block}
      → IsReady blocks time b
      → sign_block c random priv b ≡ ok signed
      → IsPlaced blocks time signed.hash signed
  unfolding sign_block
  signed-IsPlaced random none b blocks time ready h = cc
  signed-IsPlaced random (some priv) b blocks time {signed} ready h =
      let on = ready.on in
      let long = length-hash_block b in
      elim (Option-cases (c.sign_asn1 random priv (hash_block c b))) [
        | inl failed ↦ absurd (ground arith)
        | inr (sig, made) ↦
            let same : signed ≡ record b { signature = sig; hash = hash_block c b } =
              ground arith in
            rw same (record {
              named = refl;
              not_empty = λ e. length-clash [] e (omega arith);
              not_mark = λ e. length-clash genesis_mark e (omega arith);
              low = ready.low;
              early = ready.early;
              stands = inr (record {
                parent = on.parent;
                found = on.found;
                counted = on.counted;
                later = on.later;
              });
            })
      ]
    where
      length-clash : (text : Bytes) → hash_block c b ≡ text → length text < 64 → ⊥
      length-clash text e short =
          let long = length-hash_block b in
          let size : length (hash_block c b) ≡ length text = ap length e in omega arith

  module _ {S : Type 0} (store : BlockStore S) (random : ℕ) (turn : Turn) (prev : Block)
      (state : State) where
    slashed-Grows :
        (bc : Blockchain) {bc' : Blockchain}
        → IsEngine bc
        → bc' ≡ slash_leader turn.leader bc
        → Grows bc bc'
    slashed-Grows bc engine same = rw same (Moves-Grows engine (slash_leader-Moves turn.leader bc))

    seal-Grows :
        (b : Block) (bc : Blockchain) (stored : Option S) {r : Added S}
        → IsEngine bc
        → IsReady bc.blocks (now bc) b
        → seal c store random turn prev state b bc stored ≡ some r
        → lookup r.hash bc.blocks ≡ none
        → Grows bc r.engine
    unfolding seal
    seal-Grows b bc stored {r} engine ready h fresh =
        elim (Option-cases (lookup turn.leader bc.validators)) [
          | inl missing ↦ slashed-Grows bc engine (ground arith)
          | inr (v, there) ↦ elim (Option-cases v.priv_key) [
            | inl no_key ↦ slashed-Grows bc engine (ground arith)
            | inr (priv, key) ↦ elim (Result-cases (sign_block c random (some priv) b)) [
              | inr (e, failed) ↦ slashed-Grows bc engine (ground arith)
              | inl (signed, done) ↦
                  let verified = verify_block_on_accept c prev signed state bc in
                  let asked = record bc { epochs = verified.1 } in
                  let same : Moves bc asked = Moves-same bc asked refl refl refl refl refl refl in
                  let g = Moves-Grows engine same in
                  elim (Result-cases verified.0) [
                    | inr (e, refused) ↦ Grows-trans g (slashed-Grows asked g.engine (ground arith))
                    | inl (u, accepted) ↦ Grows-trans g (
                        save_and_take_in-Grows c store turn.leader signed asked stored {r = r}
                          g.engine
                          (signed-IsPlaced random (some priv) b bc.blocks (now bc) ready done)
                          (ground arith) fresh)
                  ]
            ]
          ]
        ]

    pub build-Grows :
        (txs : List Transaction) (bc : Blockchain) (stored : Option S) {r : Added S}
        → IsEngine bc
        → ((next : State) → IsReady bc.blocks (now bc) (draft c turn prev txs next))
        → build c store random turn prev state txs bc stored ≡ some r
        → lookup r.hash bc.blocks ≡ none
        → Grows bc r.engine
    unfolding build
    build-Grows txs bc stored {r} engine ready h fresh =
        elim (Result-cases (apply_transactions state txs turn.producer)) [
          | inr (e, failed) ↦ slashed-Grows bc engine (ground arith)
          | inl (next, applied) ↦
              seal-Grows (draft c turn prev txs next) bc stored {r = r} engine (ready next)
                (ground arith) fresh
        ]
