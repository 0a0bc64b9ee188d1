-- ===== src/Ledger/Admission.antt =====
-- The tests of ApplyTransactions of consensus/pov.go, said without their order.
use xenium.Prelude.{ℕ, ◌≡◌, ◌≢◌, ◌↔◌, [], arith, ==_iff}
use xenium.Prelude.Bytes.{Bytes, bytes_key}
use xenium.Prelude.Int.{pos, ◌≤ℤ◌, add_int, add_word}
use xenium.Domain.{State, Transaction, ok}
use xenium.Ledger.{account, transfer, apply_transaction}

-- What a transaction must meet in a state, said without the order of the code's tests.
pub record IsAdmitted (tx : Transaction) (s : State) : Type 0 where
  pub amount_positive : pos 1 ≤ℤ tx.amount
  pub has_sender : tx.from ≢ []
  pub nonce_positive : tx.nonce ≢ 0
  pub fee_nonneg : pos 0 ≤ℤ tx.fee
  pub next_nonce : add_word (account s tx.from).nonce 1 ≡ tx.nonce
  pub covered : add_int tx.amount tx.fee ≤ℤ (account s tx.from).balance

module _ (i : ℕ) (producer : Bytes) (tx : Transaction) (s : State) where
  pub apply_transaction_admits :
      {s' : State} → apply_transaction i producer tx s ≡ ok s' → IsAdmitted tx s
  unfolding apply_transaction
  apply_transaction_admits h = ground (arith, ==_iff tx.from [])

  pub apply_transaction_result :
      {s' : State} → apply_transaction i producer tx s ≡ ok s' → s' ≡ transfer producer tx s
  unfolding apply_transaction
  apply_transaction_result h = ground arith

  pub apply_transaction_of_admitted :
      IsAdmitted tx s → apply_transaction i producer tx s ≡ ok (transfer producer tx s)
  unfolding apply_transaction
  apply_transaction_of_admitted a = ground (arith, ==_iff tx.from [])

-- A transaction is applied, and then by the writes of `transfer`, exactly if it has a positive amount, a
-- sender, a positive nonce, a fee that is not negative and the nonce after that of the account, and if the
-- balance of the account covers its amount and its fee, added as an `int`.
pub apply_transaction_iff :
    (i : ℕ) (producer : Bytes) (tx : Transaction) (s : State)
    → (apply_transaction i producer tx s ≡ ok (transfer producer tx s)) ↔ IsAdmitted tx s
apply_transaction_iff i producer tx s =
    (apply_transaction_admits i producer tx s, apply_transaction_of_admitted i producer tx s)
