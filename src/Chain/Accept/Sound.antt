-- ===== src/Chain/Accept/Sound.antt =====
-- What verifyBlockOnAccept of core/blockchain.go lets through.
use xenium.Prelude.{
  ℕ, ◌+◌, ◌≡◌, false, not, some, List, [], ◌∷◌, arith, All, ◌==◌, ==_iff, Bool-cases, Option-cases,
  inl, inr,
}
use xenium.Prelude.Bytes.{Bytes, bytes_key}
use xenium.Dict.{lookup}
use xenium.Domain.{Block, Transaction, State, Validator, ok, ◌>>=◌, >>=-eq-ok, Result-cases}
use xenium.Crypto.{Crypto}
use xenium.Ledger.{apply_transactions}
use xenium.Leader.{leader_from_snapshot}
use xenium.Signing.{verify_transaction_signature, tx_root, state_root}
use xenium.Signing.Transactions.{IsBound, verify_transaction_signature_sound}
use xenium.Signing.Blocks.{IsSealed, verify_block_signature_sound}
use xenium.Chain.{Blockchain, EpochSnapshot}
use xenium.Chain.Epoch.{snapshot_for_slot}
use xenium.Chain.Rebuild.{validator_reward_address}
use xenium.Chain.Accept.{
  verify_from, verify_transactions, verify_leader_snapshot, verify_result, verify_content,
  verify_block_on_accept,
}

pub eq_of_passed : (a b : Bytes) → not (a == b) ≡ false → a ≡ b
eq_of_passed a b h = ground (arith, ==_iff a b)

module _ (c : Crypto) where
  -- A block as an engine may take it after `prev`: it names that block and the leader that the snapshot
  -- of its slot draws, its transactions are bound to their senders and lead from the state before it to
  -- one with its state root, and it is sealed with the key of its validator.
  pub record IsAccepted (prev b : Block) (state : State) (bc : Blockchain) : Type 0 where
    pub snapshot : EpochSnapshot
    pub next : State
    pub producer : Validator
    pub linked : b.prev_hash ≡ prev.hash
    pub drawn : (snapshot_for_slot c bc b.slot bc.epochs).0 ≡ some snapshot
    pub leads : leader_from_snapshot c b.slot snapshot.validators ≡ b.validator
    pub bound : All (IsBound c) b.transactions
    pub listed : tx_root c b.transactions ≡ b.tx_root
    pub applied :
        apply_transactions state b.transactions
          (validator_reward_address c bc.validators b.validator)
        ≡ ok next
    pub left : state_root c next ≡ b.state_root
    pub known : lookup b.validator bc.validators ≡ some producer
    pub sealed : IsSealed c b producer.pub_key

  pub verify_from-IsBound :
      (i : ℕ) (txs : List Transaction) → verify_from c i txs ≡ ok tt → All (IsBound c) txs
  unfolding verify_from
  verify_from-IsBound i [] h = tt
  verify_from-IsBound i (tx ∷ txs) h = elim (Result-cases (verify_transaction_signature c tx)) [
    | inl (u, good) ↦ (
      verify_transaction_signature_sound c tx good,
      verify_from-IsBound (i + 1) txs (rw (verify_from, good) at h),
    )
    | inr (e, bad) ↦ absurd (ground arith)
  ]

  verify_result-IsSealed :
      (b : Block) (bc : Blockchain) (next : State)
      → verify_result c b bc next ≡ ok tt
      → (state_root c next ≡ b.state_root)
        × ((v : Validator) × (lookup b.validator bc.validators ≡ some v) × IsSealed c b v.pub_key)
  unfolding verify_result
  verify_result-IsSealed b bc next h = elim (Bool-cases (not (state_root c next == b.state_root))) [
    | inl apart ↦ absurd (ground arith)
    | inr left ↦ elim (Option-cases (lookup b.validator bc.validators)) [
      | inl missing ↦ absurd (ground arith)
      | inr (v, known) ↦ (
        eq_of_passed (state_root c next) b.state_root left,
        (v, known, verify_block_signature_sound c b v.pub_key (ground arith)),
      )
    ]
  ]

  verify_content-eq-ok :
      (b : Block) (state : State) (bc : Blockchain) (snap : EpochSnapshot)
      → verify_content c b state bc snap ≡ ok tt
      → (leader_from_snapshot c b.slot snap.validators ≡ b.validator)
        × (verify_from c 0 b.transactions ≡ ok tt)
        × (tx_root c b.transactions ≡ b.tx_root)
        × ((next : State) × (apply_transactions state b.transactions
                (validator_reward_address c bc.validators b.validator)
              ≡ ok next)
            × (verify_result c b bc next ≡ ok tt))
  unfolding verify_content verify_leader_snapshot verify_transactions
  verify_content-eq-ok b state bc snap h =
      elim (Bool-cases (not (leader_from_snapshot c b.slot snap.validators == b.validator))) [
        | inl other ↦ absurd (ground arith)
        | inr leads ↦ elim (Result-cases (verify_from c 0 b.transactions)) [
          | inr (e, bad) ↦ absurd (ground arith)
          | inl (u, good) ↦ elim (Bool-cases (not (tx_root c b.transactions == b.tx_root))) [
            | inl apart ↦ absurd (ground arith)
            | inr listed ↦
                let run : (apply_transactions state b.transactions
                        (validator_reward_address c bc.validators b.validator)
                      >>= verify_result c b bc)
                    ≡ ok tt =
                  ground arith in
                (
                  eq_of_passed (leader_from_snapshot c b.slot snap.validators) b.validator leads,
                  good,
                  eq_of_passed (tx_root c b.transactions) b.tx_root listed,
                  >>=-eq-ok
                      (apply_transactions state b.transactions
                        (validator_reward_address c bc.validators b.validator))
                      (verify_result c b bc) run,
                )
          ]
        ]
      ]

  -- A block that is accepted names the block before it and the leader of its slot, its transactions are
  -- verified and can be applied, both roots are those of its content, and its validator's key verifies its
  -- signature.
  pub verify_block_on_accept_sound :
      (prev b : Block) (state : State) (bc : Blockchain)
      → (verify_block_on_accept c prev b state bc).0 ≡ ok tt
      → IsAccepted prev b state bc
  unfolding verify_block_on_accept
  verify_block_on_accept_sound prev b state bc h =
      elim (Bool-cases (not (b.prev_hash == prev.hash))) [
        | inl apart ↦ absurd (ground arith)
        | inr near ↦ elim (Option-cases (snapshot_for_slot c bc b.slot bc.epochs).0) [
          | inl missing ↦ absurd (ground arith)
          | inr (snap, drawn) ↦
              let content : verify_content c b state bc snap ≡ ok tt = ground arith in
              let (leads, good, listed, (next, applied, end)) =
                verify_content-eq-ok b state bc snap content in
              let (left, (v, known, sealed)) = verify_result-IsSealed b bc next end in
              record {
                snapshot = snap;
                next = next;
                producer = v;
                linked = eq_of_passed b.prev_hash prev.hash near;
                drawn = drawn;
                leads = leads;
                bound = verify_from-IsBound 0 b.transactions good;
                listed = listed;
                applied = applied;
                left = left;
                known = known;
                sealed = sealed;
              }
        ]
      ]
