-- ===== src/Chain/Verify/Replay.antt =====
-- VerifyChain and rebuildStateFromCanonical of core/blockchain.go: the two replay the same transactions.
use mathlib.Core.Path.{subst}
use xenium.Prelude.{
  suc, ◌-◌, ◌<◌, ◌≡◌, refl, some, none, List, [], ◌∷◌, arith, get_elem?, length, ap, inl, inr,
  List-cases, ◌∙◌,
}
use xenium.Prelude.Bytes.{bytes_key}
use xenium.Dict.{lookup}
use xenium.Domain.{Block, State, Validators, ok}
use xenium.Crypto.{Crypto}
use xenium.Signing.{state_root}
use xenium.Chain.{Blockchain, ChainConfig, Epochs}
use xenium.Chain.Rebuild.{after_first, replay_blocks, rebuild_state_from_canonical}
use xenium.Chain.Verify.{verify_chain}
use xenium.Chain.Verify.Passed.{Verified, ended, follows}
use xenium.Chain.Verify.Sound.{verify_chain_sound}

module _ (c : Crypto) {v : Validators} {config : ChainConfig} {e : Epochs} where
  Verified-replay :
      {done rest : List Block} {prev : Block} {s u : State}
      → Verified c v config e done prev rest s u
      → replay_blocks c v s rest ≡ ok u
  unfolding replay_blocks
  Verified-replay ended = refl
  Verified-replay (follows next produced apart more) =
      let applied = produced.applied in rw applied (Verified-replay more)

  Verified-root :
      {done rest : List Block} {prev cur tip : Block} {s u : State}
      → Verified c v config e done prev (cur ∷ rest) s u
      → get_elem? (cur ∷ rest) (length rest) ≡ some tip
      → state_root c u ≡ tip.state_root
  Verified-root (follows next produced apart ended) at = let left = produced.left in cc
  Verified-root (follows next produced apart (follows next' produced' apart' more)) at =
      Verified-root (follows next' produced' apart' more) at

rebuild_state-eq :
    (c : Crypto) (bc : Blockchain) {s : State}
    → replay_blocks c bc.validators bc.genesis (after_first bc.chain) ≡ ok s
    → (rebuild_state_from_canonical c bc).state ≡ s
unfolding rebuild_state_from_canonical
rebuild_state-eq c bc h = ground arith

-- After a VerifyChain without an error, the state that is rebuilt from the canonical chain has the state root of
-- the last block. Conditions: no validator has the empty name, and there is a block behind the genesis block.
pub rebuild_state-verify_chain :
    (c : Crypto) (bc : Blockchain) {bc' : Blockchain} (tip : Block)
    → lookup [] bc.validators ≡ none
    → verify_chain c bc ≡ some (ok tt, bc')
    → 1 < length bc.chain
    → get_elem? bc.chain (length bc.chain - 1) ≡ some tip
    → state_root c (rebuild_state_from_canonical c bc).state ≡ tip.state_root
rebuild_state-verify_chain c bc {bc'} tip named h long at =
    let found = verify_chain_sound c bc {bc' = bc'} named h in
    elim (List-cases found.rest) [
      | inl none_behind ↦ absurd (omega (arith, long, ap length found.shape, ap length none_behind))
      | inr (cur, rest, shape) ↦
          let blocks : Verified c bc.validators bc.config bc'.epochs [] found.genesis (cur ∷ rest)
              bc.genesis found.last =
            subst
              (λ bs.
                Verified c bc.validators bc.config bc'.epochs [] found.genesis bs bc.genesis
                  found.last)
              shape found.blocks in
          let whole : bc.chain ≡ found.genesis ∷ cur ∷ rest =
            found.shape ∙ ap (λ bs. found.genesis ∷ bs) shape in
          let place : get_elem? (cur ∷ rest) (length rest) ≡ some tip =
            let index : length bc.chain - 1 ≡ suc (length rest) = omega (arith, ap length whole) in
            rw whole at (rw index at at) in
          let replayed : replay_blocks c bc.validators bc.genesis (after_first bc.chain)
              ≡ ok found.last =
            ap (λ ch. replay_blocks c bc.validators bc.genesis (after_first ch)) whole
            ∙ Verified-replay c blocks in
          ap (state_root c) (rebuild_state-eq c bc replayed) ∙ Verified-root c blocks place
    ]
