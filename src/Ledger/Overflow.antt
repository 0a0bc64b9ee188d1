-- ===== src/Ledger/Overflow.antt =====
-- The sum of an amount and its fee in ApplyTransactions of consensus/pov.go, at the end of the range of
-- `int`.
use xenium.Prelude.{ℕ, suc, ◌≡◌, ◌≢◌, [], ◌∙◌}
use xenium.Prelude.Bytes.{Bytes, bytes_key}
use xenium.Prelude.Int.{
  ℤ, pos, ◌+ℤ◌, ◌-ℤ◌, ◌≤ℤ◌, int_laws, parts_of_eq, max_int, word, add_int, sub_int, add_word,
  wrap_over, sub_int_exact,
}
use xenium.Dict.{lookup-insert_self}
use xenium.Domain.{State, Transaction, ok}
use xenium.Ledger.{account, debit, transfer, apply_transaction}
use xenium.Ledger.Sums.{IsValid, account_bounds}
use xenium.Ledger.Admission.{apply_transaction_of_admitted}

-- A transaction of two `int`s whose sum is none.
pub record IsOverflowing (tx : Transaction) : Type 0 where
  pub amount : tx.amount ≤ℤ pos max_int
  pub fee : tx.fee ≤ℤ pos max_int
  pub amount_positive : pos 1 ≤ℤ tx.amount
  pub fee_nonneg : pos 0 ≤ℤ tx.fee
  pub over : pos (suc max_int) ≤ℤ tx.amount +ℤ tx.fee

debit_self :
    (k : Bytes) (x : ℤ) (n : ℕ) (s : State)
    → (account (debit k x n s) k).balance ≡ sub_int (account s k).balance x
unfolding debit account
debit_self k x n s = rw lookup-insert_self

module _ (tx : Transaction) (s : State) (o : IsOverflowing tx) where
  total_wraps : add_int tx.amount tx.fee ≡ tx.amount +ℤ tx.fee -ℤ pos word
  unfolding add_int
  total_wraps =
      let amount = o.amount in
      let fee = o.fee in wrap_over (tx.amount +ℤ tx.fee) o.over (omega int_laws)

  -- Where the sum of the amount and the fee passes the range of an `int`, the transaction is let
  -- through whatever the sender holds, and the debit adds the missing part of 2^64 to the sender's
  -- balance instead of taking from it. Conditions: the state is valid, sender and nonce are in
  -- order, and the grown balance fits an `int`.
  pub overflow_pays_sender :
      (i : ℕ) (producer : Bytes)
      → IsValid s
      → tx.from ≢ []
      → tx.nonce ≢ 0
      → add_word (account s tx.from).nonce 1 ≡ tx.nonce
      → (account s tx.from).balance +ℤ pos word ≤ℤ tx.amount +ℤ tx.fee +ℤ pos max_int
      → (apply_transaction i producer tx s ≡ ok (transfer producer tx s))
        × ((account (debit tx.from (add_int tx.amount tx.fee) tx.nonce s) tx.from).balance
            ≡ (account s tx.from).balance +ℤ (pos word -ℤ (tx.amount +ℤ tx.fee)))
  overflow_pays_sender i producer v from nonce next room =
      let b = (account s tx.from).balance in
      let (low, high) = account_bounds tx.from s v.funded in
      let bounded = v.bounded in
      let over = o.over in
      let amount = o.amount in
      let fee = o.fee in
      let wraps = total_wraps in
      let total = parts_of_eq wraps in
      let exact = sub_int_exact b (add_int tx.amount tx.fee) (omega int_laws) in
      (
        apply_transaction_of_admitted i producer tx s (record {
          amount_positive = o.amount_positive;
          has_sender = from;
          nonce_positive = nonce;
          fee_nonneg = o.fee_nonneg;
          next_nonce = next;
          covered = omega int_laws;
        }),
        debit_self tx.from (add_int tx.amount tx.fee) tx.nonce s ∙ exact ∙ omega int_laws,
      )
