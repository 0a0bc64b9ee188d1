-- ===== src/Ledger/Nonces.antt =====
-- The nonces of accounts over the loop of ApplyTransactions of consensus/pov.go.
use xenium.Prelude.{
  ap, inl, inr, Bool-cases, ℕ, zero, suc, ◌+◌, ◌≤◌, ◌<◌, ◌≡◌, ◌≢◌, refl, some, List, [], ◌∷◌, arith,
  if◌then◌else◌, ◌==◌, ==_iff, get_elem?,
}
use xenium.Prelude.Bytes.{Bytes, bytes_key}
use xenium.Prelude.Int.{ℤ, word, add_word}
use xenium.Dict.{lookup-insert}
use xenium.Domain.{State, Transaction, ok, >>=-eq-ok}
use xenium.Ledger.{
  account, credit, debit, pay_fee, transfer, apply_transaction, apply_from, apply_transactions,
}
use xenium.Ledger.Admission.{apply_transaction_admits, apply_transaction_result}

module _ (a : Bytes) where
  nonce-credit :
      (k : Bytes) (x : ℤ) (s : State) → (account (credit k x s) a).nonce ≡ (account s a).nonce
  unfolding credit account
  nonce-credit k x s = grind (arith, lookup-insert, ==_iff k a)

  nonce-debit :
      (k : Bytes) (x : ℤ) (n : ℕ) (s : State)
      → (account (debit k x n s) a).nonce ≡ (if k == a then n else (account s a).nonce)
  unfolding debit account
  nonce-debit k x n s = grind (arith, lookup-insert, ==_iff k a)

  nonce-transfer :
      (producer : Bytes) (tx : Transaction) (s : State)
      → (account (transfer producer tx s) a).nonce
        ≡ (if tx.from == a then tx.nonce else (account s a).nonce)
  unfolding transfer pay_fee
  nonce-transfer producer tx s = grind (arith, nonce-credit, nonce-debit)

  -- How many of the transactions the account sends.
  abbrev pub sent : List Transaction → ℕ
  sent [] = 0
  sent (tx ∷ txs) = if tx.from == a then suc (sent txs) else sent txs

  nonce-step :
      (i : ℕ) (producer : Bytes) (tx : Transaction) (s : State) {s₁ : State}
      → (account s a).nonce < word
      → apply_transaction i producer tx s ≡ ok s₁
      → ((account s₁ a).nonce ≡ (account s a).nonce + sent (tx ∷ []))
        × ((account s₁ a).nonce < word)
        × (tx.from ≡ a → (account s₁ a).nonce ≡ tx.nonce)
  nonce-step i producer tx s {s₁} small h =
      let same : s₁ ≡ transfer producer tx s = apply_transaction_result i producer tx s h in
      let at_a = nonce-transfer producer tx s in
      let admitted = apply_transaction_admits i producer tx s h in
      let positive = admitted.nonce_positive in
      let next = admitted.next_nonce in
      rw same elim (Bool-cases (tx.from == a)) [
        | inl e ↦
            let from : tx.from ≡ a = (==_iff tx.from a).0 e in
            let next' : add_word (account s a).nonce 1 ≡ tx.nonce = rw from at next in
            rw (at_a, e) (omega arith, omega arith, λ _. refl)
        | inr e ↦ rw (at_a, e) (omega arith, small, λ p. absurd (grind (arith, ==_iff tx.from a)))
      ]

  apply_from-nonce :
      (i : ℕ) (producer : Bytes) (txs : List Transaction) (s : State) {s' : State}
      → (account s a).nonce < word
      → apply_from i producer txs s ≡ ok s'
      → ((account s' a).nonce ≡ (account s a).nonce + sent txs) × ((account s' a).nonce < word)
  unfolding apply_from
  apply_from-nonce i producer [] s {s'} small h =
      let same : s' ≡ s = cc in rw same (omega arith, small)
  apply_from-nonce i producer (tx ∷ txs) s small h =
      let (s₁, step, rest) =
        >>=-eq-ok (apply_transaction i producer tx s) (apply_from (i + 1) producer txs) h in
      let (grown, small₁, _) = nonce-step i producer tx s small step in
      ground (arith, apply_from-nonce (i + 1) producer txs s₁ small₁ rest)

  -- An applied transaction of `a` leaves a nonce behind that is not below its own.
  applied_nonce-le :
      (i : ℕ) (producer : Bytes) (txs : List Transaction) (s : State) {s' : State} (k : ℕ)
      (tx : Transaction)
      → get_elem? txs k ≡ some tx
      → tx.from ≡ a
      → (account s a).nonce < word
      → apply_from i producer txs s ≡ ok s'
      → tx.nonce ≤ (account s' a).nonce
  unfolding apply_from
  applied_nonce-le i producer [] s k tx at from small h = cc
  applied_nonce-le i producer (x ∷ txs) s zero tx at from small h =
      let (s₁, step, rest) =
        >>=-eq-ok (apply_transaction i producer x s) (apply_from (i + 1) producer txs) h in
      let (grown, small₁, own) = nonce-step i producer x s small step in
      let same : x ≡ tx = cc in
      let own' = own (rw same from) in
      let nonce = ap (λ (t : Transaction). t.nonce) same in
      omega (arith, (apply_from-nonce (i + 1) producer txs s₁ small₁ rest).0)
  applied_nonce-le i producer (x ∷ txs) s (suc k) tx at from small h =
      let (s₁, step, rest) =
        >>=-eq-ok (apply_transaction i producer x s) (apply_from (i + 1) producer txs) h in
      let (grown, small₁, own) = nonce-step i producer x s small step in
      applied_nonce-le (i + 1) producer txs s₁ k tx at from small₁ rest

-- On success the nonce of every account has grown by the number of transactions that it sent.
-- Condition: the account's nonce is a `uint64`.
pub nonce_counts_sent :
    (a producer : Bytes) (txs : List Transaction) (s : State) {s' : State}
    → (account s a).nonce < word
    → apply_transactions s txs producer ≡ ok s'
    → (account s' a).nonce ≡ (account s a).nonce + sent a txs
unfolding apply_transactions
nonce_counts_sent a producer txs s small h = (apply_from-nonce a 0 producer txs s small h).0

-- No transaction of an applied list can be applied again, by any producer and at any place, to the
-- state that the list has made. Condition: the nonce of its sender is a `uint64`.
pub no_replay :
    (producer : Bytes) (txs : List Transaction) (s : State) {s' : State} (k : ℕ) (tx : Transaction)
    → get_elem? txs k ≡ some tx
    → (account s tx.from).nonce < word
    → apply_transactions s txs producer ≡ ok s'
    → (i : ℕ) (other : Bytes) (s'' : State) → apply_transaction i other tx s' ≢ ok s''
unfolding apply_transactions
no_replay producer txs s k tx at small h i other s'' again =
    let reached = applied_nonce-le tx.from 0 producer txs s k tx at refl small h in
    let (_, small') = apply_from-nonce tx.from 0 producer txs s small h in
    let admitted = apply_transaction_admits i other tx _ again in
    let positive = admitted.nonce_positive in let next = admitted.next_nonce in omega arith
