-- ===== src/Chain/Accept.antt =====
-- verifyBlockOnAccept of core/blockchain.go, with VerifyTransactions and VerifyLeaderSnapshot of
-- consensus/pov.go: the tests of a block before it is inserted.
pub mod Sound
use xenium.Prelude.{ℕ, ◌+◌, not, Option, none, some, List, [], ◌∷◌, if◌then◌else◌, ◌==◌}
use xenium.Prelude.Bytes.{Bytes, bytes_key}
use xenium.Dict.{lookup}
use xenium.Domain.{
  Block, Transaction, State, Checked, ok, err, reject_if, ◌>>=◌, invalid_tx_signature, wrong_leader,
  invalid_block_link, missing_snapshot, invalid_tx_root, invalid_state_root,
  unknown_block_validator,
}
use xenium.Crypto.{Crypto}
use xenium.Ledger.{apply_transactions}
use xenium.Leader.{Stakes, leader_from_snapshot}
use xenium.Signing.{verify_transaction_signature, verify_block_signature, tx_root, state_root}
use xenium.Chain.{Blockchain, Epochs, EpochSnapshot}
use xenium.Chain.Epoch.{snapshot_for_slot}
use xenium.Chain.Rebuild.{validator_reward_address}

module _ (c : Crypto) where
  -- The loop of `VerifyTransactions` from index `i` on.
  unfoldable pub verify_from : ℕ → List Transaction → Checked
  verify_from i [] = ok tt
  verify_from i (tx ∷ txs) = elim (verify_transaction_signature c tx) [
    | err e ↦ err (invalid_tx_signature i)
    | ok _ ↦ verify_from (i + 1) txs
  ]

  unfoldable pub verify_transactions : List Transaction → Checked
  verify_transactions txs = verify_from 0 txs

  unfoldable pub verify_leader_snapshot : ℕ → Bytes → Stakes → Checked
  verify_leader_snapshot slot validator stakes =
      reject_if (not (leader_from_snapshot c slot stakes == validator)) (wrong_leader slot) (ok tt)

  -- The tests on the state that the block leaves, and on the signature.
  unfoldable pub verify_result : Block → Blockchain → State → Checked
  verify_result b bc next =
      reject_if (not (state_root c next == b.state_root)) invalid_state_root
        (elim (lookup b.validator bc.validators) [
          | none ↦ err unknown_block_validator
          | some v ↦ verify_block_signature c b v.pub_key
        ])

  -- The tests behind that of the snapshot.
  unfoldable pub verify_content : Block → State → Blockchain → EpochSnapshot → Checked
  verify_content b state bc snap =
      verify_leader_snapshot b.slot b.validator snap.validators >>= λ _.
      verify_transactions b.transactions >>= λ _.
      reject_if (not (tx_root c b.transactions == b.tx_root)) invalid_tx_root (
        apply_transactions state b.transactions
          (validator_reward_address c bc.validators b.validator)
        >>= verify_result b bc)

  unfoldable pub verify_block_on_accept : Block → Block → State → Blockchain → Checked × Epochs
  verify_block_on_accept prev b state bc =
      if not (b.prev_hash == prev.hash)
      then (err invalid_block_link, bc.epochs)
      else let (snap, e) = snapshot_for_slot c bc b.slot bc.epochs in
        (elim snap [ none ↦ err missing_snapshot | some s ↦ verify_content b state bc s ], e)
