-- ===== src/Ledger.antt =====
-- ApplyTransactions of consensus/pov.go: the transition of account states.
pub mod Sums
pub mod Admission
pub mod Conservation
pub mod Overflow
pub mod Batches
pub mod Nonces
use xenium.Prelude.{ℕ, ◌+◌, Bool, not, ◌&&◌, List, [], ◌∷◌, nat_beq, if◌then◌else◌, ◌==◌, get_or}
use xenium.Prelude.Bytes.{Bytes, bytes_key}
use xenium.Prelude.Int.{ℤ, pos, ltb_ℤ, leb_ℤ, add_int, sub_int, add_word}
use xenium.Dict.{lookup, insert}
use xenium.Domain.{
  Account, zero_account, State, Transaction, Result, ok, err, ◌>>=◌, invalid_amount, missing_sender,
  invalid_nonce, invalid_fee, nonce_mismatch, insufficient_balance,
}

-- `next[addr]`: the zero account where the key is missing.
unfoldable pub account : State → Bytes → Account
account next addr = get_or (lookup addr next) zero_account

-- `to := next[addr]; to.Balance += amount; next[addr] = to`
unfoldable pub credit : Bytes → ℤ → State → State
credit addr amount next =
    let to = account next addr in
    insert addr (record to { balance = add_int to.balance amount }) next

-- `from.Balance -= total; from.Nonce = tx.Nonce; next[tx.From] = from`
unfoldable pub debit : Bytes → ℤ → ℕ → State → State
debit addr total nonce next =
    let from = account next addr in
    insert addr (record { balance = sub_int from.balance total; nonce = nonce }) next

-- The fee goes to the producer, where there is one.
unfoldable pub pay_fee : Bytes → ℤ → State → State
pay_fee producer fee next =
    if not (producer == []) && ltb_ℤ (pos 0) fee then credit producer fee next else next

-- The three writes of one transaction.
unfoldable pub transfer : Bytes → Transaction → State → State
transfer producer tx next =
    pay_fee producer tx.fee
      (credit tx.to tx.amount (debit tx.from (add_int tx.amount tx.fee) tx.nonce next))

-- The body of the loop, at index `i`.
unfoldable pub apply_transaction : ℕ → Bytes → Transaction → State → Result State
apply_transaction i producer tx next =
    let from = account next tx.from in
    if leb_ℤ tx.amount (pos 0)
    then err (invalid_amount i)
    else if tx.from == []
    then err (missing_sender i)
    else if nat_beq tx.nonce 0
    then err (invalid_nonce i)
    else if ltb_ℤ tx.fee (pos 0)
    then err (invalid_fee i)
    else if not (nat_beq (add_word from.nonce 1) tx.nonce)
    then err (nonce_mismatch i)
    else if ltb_ℤ from.balance (add_int tx.amount tx.fee)
    then err (insufficient_balance i)
    else ok (transfer producer tx next)

-- The loop from index `i` on.
unfoldable pub apply_from : ℕ → Bytes → List Transaction → State → Result State
apply_from i producer [] next = ok next
apply_from i producer (tx ∷ txs) next =
    apply_transaction i producer tx next >>= apply_from (i + 1) producer txs

-- The source copies `state` before the loop, so the caller's map is not changed.
unfoldable pub apply_transactions : State → List Transaction → Bytes → Result State
apply_transactions state txs producer = apply_from 0 producer txs state
