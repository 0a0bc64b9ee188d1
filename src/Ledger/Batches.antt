-- ===== src/Ledger/Batches.antt =====
-- The loop of ApplyTransactions of consensus/pov.go on a list and on its parts; the index that it counts
-- only names the place of an error.
use xenium.Prelude.{ℕ, ◌+◌, ◌≡◌, List, [], ◌∷◌, ◌++◌}
use xenium.Prelude.Bytes.{Bytes}
use xenium.Domain.{State, Transaction, ok, >>=-eq-ok}
use xenium.Ledger.{apply_transaction, apply_from, apply_transactions}
use xenium.Ledger.Admission.{
  apply_transaction_admits, apply_transaction_result, apply_transaction_of_admitted,
}

apply_transaction_index :
    (i j : ℕ) (producer : Bytes) (tx : Transaction) (s : State) {s' : State}
    → apply_transaction i producer tx s ≡ ok s'
    → apply_transaction j producer tx s ≡ ok s'
apply_transaction_index i j producer tx s h =
    let admitted = apply_transaction_admits i producer tx s h in
    let same = apply_transaction_result i producer tx s h in
    rw same (apply_transaction_of_admitted j producer tx s admitted)

apply_from_index :
    (i j : ℕ) (producer : Bytes) (txs : List Transaction) (s : State) {s' : State}
    → apply_from i producer txs s ≡ ok s'
    → apply_from j producer txs s ≡ ok s'
unfolding apply_from
apply_from_index i j producer [] s h = h
apply_from_index i j producer (tx ∷ txs) s h =
    let (s₁, step, rest) =
      >>=-eq-ok (apply_transaction i producer tx s) (apply_from (i + 1) producer txs) h in
    rw (apply_transaction_index i j producer tx s step)
      (apply_from_index (i + 1) (j + 1) producer txs s₁ rest)

apply_from-append :
    (i : ℕ) (producer : Bytes) (xs ys : List Transaction) (s : State) {s₁ s₂ : State}
    → apply_from i producer xs s ≡ ok s₁
    → apply_from 0 producer ys s₁ ≡ ok s₂
    → apply_from i producer (xs ++ ys) s ≡ ok s₂
unfolding apply_from
apply_from-append i producer [] ys s {s₁} h k =
    let same : s₁ ≡ s = cc in apply_from_index 0 i producer ys s (rw same at k)
apply_from-append i producer (tx ∷ xs) ys s h k =
    let (s', step, rest) =
      >>=-eq-ok (apply_transaction i producer tx s) (apply_from (i + 1) producer xs) h in
    rw step (apply_from-append (i + 1) producer xs ys s' rest k)

-- Two lists that can be applied in turn can be applied as one, with the same result.
pub apply_transactions-append :
    (producer : Bytes) (xs ys : List Transaction) (s : State) {s₁ s₂ : State}
    → apply_transactions s xs producer ≡ ok s₁
    → apply_transactions s₁ ys producer ≡ ok s₂
    → apply_transactions s (xs ++ ys) producer ≡ ok s₂
unfolding apply_transactions
apply_transactions-append producer xs ys s h k = apply_from-append 0 producer xs ys s h k
