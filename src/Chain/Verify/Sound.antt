-- ===== src/Chain/Verify/Sound.antt =====
-- What VerifyChain of core/blockchain.go establishes of the canonical chain.
use mathlib.Core.Path.{subst}
use xenium.Prelude.{
  ℕ, ◌+◌, ◌≡◌, ◌≢◌, refl, sym, ap, ◌∙◌, false, true, not, none, some, List, [], ◌∷◌, arith, All,
  ◌==◌, ==_iff, Bool-cases, Option-cases, List-cases, inl, inr, nat_eq,
}
use xenium.Prelude.Bytes.{Bytes, bytes_key}
use xenium.Dict.{Dict, lookup, insert, lookup-insert, lookup-insert_self}
use xenium.Domain.{Block, State, ok, Result-cases}
use xenium.Crypto.{Crypto}
use xenium.Poh.{parse_poh_hash_hex}
use xenium.Signing.{hash_block}
use xenium.Chain.{Blockchain}
use xenium.Chain.Epoch.Frozen.{Extends, Extends-refl, Extends-trans}
use xenium.Chain.Accept.Sound.{eq_of_passed}
use xenium.Chain.Verify.{is_seen, Cursor, verify_next, verify_blocks, verify_chain}
use xenium.Chain.Verify.Passed.{
  Verified, ended, follows, Verified-same, IsProduced-Extends, IsBehind, verify_next-IsRound,
}

module _ (c : Crypto) where
  -- No block of the list has a slot that is still free.
  abbrev AllSeen : Dict ℕ Bytes → List Block → Type 0
  AllSeen seen done = All (λ b. is_seen b.slot seen ≡ true) done

  AllSeen-insert :
      (slot : ℕ) (validator : Bytes) (seen : Dict ℕ Bytes) (done : List Block)
      → validator ≢ []
      → AllSeen seen done
      → AllSeen (insert slot validator seen) done
  unfolding is_seen
  AllSeen-insert slot validator seen [] named all = tt
  AllSeen-insert slot validator seen (b ∷ bs) named (h, all) = (
    ground
        (arith, lookup-insert slot b.slot validator seen, ==_iff validator [], ==_iff slot b.slot),
    AllSeen-insert slot validator seen bs named all,
  )

  AllSeen-apart :
      (slot : ℕ) (seen : Dict ℕ Bytes) (done : List Block)
      → is_seen slot seen ≡ false
      → AllSeen seen done
      → All (λ b. b.slot ≢ slot) done
  AllSeen-apart slot seen [] free all = tt
  AllSeen-apart slot seen (b ∷ bs) free (h, all) = (λ same. cc, AllSeen-apart slot seen bs free all)

  is_seen-insert :
      (slot : ℕ) (validator : Bytes) (seen : Dict ℕ Bytes)
      → validator ≢ []
      → is_seen slot (insert slot validator seen) ≡ true
  unfolding is_seen
  is_seen-insert slot validator seen named =
      ground (arith, lookup-insert_self slot validator seen, ==_iff validator [])

  verify_blocks-Verified :
      (i : ℕ) (prev : Block) (rest : List Block) (at : Cursor) (bc : Blockchain) (done : List Block)
      {bc' : Blockchain}
      → lookup [] bc.validators ≡ none
      → IsBehind c prev at
      → AllSeen at.seen_slots done
      → verify_blocks c i prev rest at bc ≡ some (ok tt, bc')
      → (last : State) × Verified c bc.validators bc.config bc'.epochs done prev rest at.state last
        × (bc'.validators ≡ bc.validators)
        × Extends bc.epochs bc'.epochs
  unfolding verify_blocks
  verify_blocks-Verified i prev [] at bc done {bc'} named behind seen h =
      let same : bc' ≡ bc = ground arith in
      (at.state, ended, ap (λ b. b.validators) same, rw same (Extends-refl bc.epochs))
  verify_blocks-Verified i prev (cur ∷ rest) at bc done {bc'} named behind seen h =
      elim (Option-cases (verify_next c i prev cur at bc)) [
        | inl endless ↦ absurd (ground arith)
        | inr ((checked, bc1), over) ↦ elim (Result-cases checked) [
          | inr (e, wrong) ↦ absurd (ground arith)
          | inl (at1, right) ↦
              let round =
                verify_next-IsRound c i prev cur at bc behind
                  (over ∙ ap (λ r. some (r, bc1)) right) in
              let known = round.produced.known in
              let validator_named : cur.validator ≢ [] = λ e. cc in
              let both : AllSeen (insert cur.slot cur.validator at.seen_slots) (cur ∷ done) = (
                is_seen-insert cur.slot cur.validator at.seen_slots validator_named,
                AllSeen-insert cur.slot cur.validator at.seen_slots done validator_named seen,
              ) in
              let seen1 : AllSeen at1.seen_slots (cur ∷ done) =
                subst (λ slots. AllSeen slots (cur ∷ done)) (sym round.seen) both in
              let (last, verified, same, more) =
                verify_blocks-Verified (i + 1) cur rest at1 bc1 (cur ∷ done) {bc' = bc'}
                  (rw round.same_validators named) round.behind seen1 (ground arith) in
              (
                last,
                follows round.next (IsProduced-Extends c more round.produced)
                    (AllSeen-apart cur.slot at.seen_slots done round.once seen)
                    (Verified-same c round.same_validators round.same_config verified),
                same ∙ round.same_validators,
                Extends-trans round.more more,
              )
        ]
      ]

  -- What the call has found of the chain `genesis ∷ rest`, by the engine that it leaves.
  pub record IsVerified (bc bc' : Blockchain) : Type 0 where
    pub genesis : Block
    pub rest : List Block
    pub last : State
    pub shape : bc.chain ≡ genesis ∷ rest
    pub content : genesis.hash ≡ hash_block c genesis
    pub blocks : Verified c bc.validators bc.config bc'.epochs [] genesis rest bc.genesis last
    pub same_validators : bc'.validators ≡ bc.validators
    pub more : Extends bc.epochs bc'.epochs

  -- Where VerifyChain finds no error, every block behind the genesis block names the one before it, has a later
  -- tick, the slot of that tick and the hash of the ticks since; no two of these blocks have one slot; its validator is the
  -- leader that the stored snapshot of its epoch draws, holds the least stake and has sealed it; its transactions
  -- are bound to their senders and lead to the state of its root; and nobody is slashed. Condition: no validator
  -- has the empty name.
  pub verify_chain_sound :
      (bc : Blockchain) {bc' : Blockchain}
      → lookup [] bc.validators ≡ none
      → verify_chain c bc ≡ some (ok tt, bc')
      → IsVerified bc bc'
  unfolding verify_chain
  verify_chain_sound bc {bc'} named h = elim (List-cases bc.chain) [
    | inl empty ↦ absurd (ground arith)
    | inr (genesis, rest, shape) ↦ elim (Bool-cases (not (genesis.hash == hash_block c genesis))) [
      | inl apart ↦ absurd (ground arith)
      | inr content ↦ elim (Result-cases (parse_poh_hash_hex genesis.poh_hash)) [
        | inr (e, wrong) ↦ absurd (ground arith)
        | inl (start, parsed) ↦
            let at : Cursor = record {
              expected_hash = start;
              expected_tick = genesis.tick;
              seen_slots = [];
              state = bc.genesis;
            } in
            let loop : verify_blocks c 1 genesis rest at bc ≡ some (ok tt, bc') = ground arith in
            let (last, blocks, same, more) =
              verify_blocks-Verified 1 genesis rest at bc [] {bc' = bc'} named
                (record { tick = refl; hash = parsed }) tt loop in
            record {
              genesis = genesis;
              rest = rest;
              last = last;
              shape = shape;
              content = eq_of_passed genesis.hash (hash_block c genesis) content;
              blocks = blocks;
              same_validators = same;
              more = more;
            }
      ]
    ]
  ]
