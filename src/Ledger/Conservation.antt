-- ===== src/Ledger/Conservation.antt =====
-- ApplyTransactions of consensus/pov.go and the sum of all balances.
use xenium.Prelude.{ℕ, ◌+◌, ◌≡◌, List, [], ◌∷◌, arith, if◌then◌else◌, ◌==◌, All}
use xenium.Prelude.Bytes.{Bytes, bytes_key}
use xenium.Prelude.Int.{ℤ, pos, ◌+ℤ◌, ◌≤ℤ◌, int_laws, parts_of_eq, max_int, add_int, add_int_exact}
use xenium.Domain.{State, Transaction, ok, >>=-eq-ok}
use xenium.Ledger.{
  account, credit, debit, pay_fee, transfer, apply_transaction, apply_from, apply_transactions,
}
use xenium.Ledger.Sums.{balance_sum, IsFunded, IsValid, credit_lem, debit_lem}
use xenium.Ledger.Admission.{IsAdmitted, apply_transaction_admits, apply_transaction_result}

-- The amount with the fee does not pass the range of an `int`.
abbrev pub Fits : Transaction → Type 0
Fits tx = tx.amount +ℤ tx.fee ≤ℤ pos max_int

-- The share of the fee that is paid to the producer, and the share that is lost.
abbrev fee_paid : Bytes → Transaction → ℤ
fee_paid producer tx = if producer == [] then pos 0 else tx.fee

abbrev fee_burned : Bytes → Transaction → ℤ
fee_burned producer tx = if producer == [] then tx.fee else pos 0

fee_split :
    (producer : Bytes) (tx : Transaction) → fee_paid producer tx +ℤ fee_burned producer tx ≡ tx.fee
fee_split producer tx = grind int_laws

fee_burned_nonneg :
    (producer : Bytes) (tx : Transaction) → pos 0 ≤ℤ tx.fee → pos 0 ≤ℤ fee_burned producer tx
fee_burned_nonneg producer tx h = ground arith

-- With no producer to pay, the fee of a transaction is lost.
abbrev pub burned : Bytes → List Transaction → ℤ
burned producer [] = pos 0
burned producer (tx ∷ txs) = fee_burned producer tx +ℤ burned producer txs

pay_fee_lem :
    (producer : Bytes) (tx : Transaction) (s : State)
    → IsFunded s
    → pos 0 ≤ℤ tx.fee
    → balance_sum s +ℤ tx.fee ≤ℤ pos max_int
    → IsFunded (pay_fee producer tx.fee s)
      × (balance_sum (pay_fee producer tx.fee s) ≡ balance_sum s +ℤ fee_paid producer tx)
unfolding pay_fee
pay_fee_lem producer tx s f h room = grind (int_laws, credit_lem producer tx.fee s f h room)

transfer_lem :
    (producer : Bytes) (tx : Transaction) (s : State)
    → IsValid s
    → IsAdmitted tx s
    → Fits tx
    → IsValid (transfer producer tx s)
      × (balance_sum (transfer producer tx s) +ℤ fee_burned producer tx ≡ balance_sum s)
unfolding transfer
transfer_lem producer tx s v a fits =
    let total = tx.amount +ℤ tx.fee in
    let paid = a.amount_positive in
    let fee = a.fee_nonneg in
    let bound = v.bounded in
    let exact : add_int tx.amount tx.fee ≡ total =
      add_int_exact tx.amount tx.fee (omega int_laws) in
    let cover : total ≤ℤ (account s tx.from).balance = rw exact at a.covered in
    let s₁ = debit tx.from total tx.nonce s in
    let (f₁, e₁) = debit_lem tx.from total tx.nonce s v (omega int_laws) cover in
    let s₂ = credit tx.to tx.amount s₁ in
    let (f₂, e₂) =
      credit_lem tx.to tx.amount s₁ f₁ (omega int_laws) (omega (int_laws, parts_of_eq e₁)) in
    let (f₃, e₃) =
      pay_fee_lem producer tx s₂ f₂ fee (omega (int_laws, parts_of_eq e₁, parts_of_eq e₂)) in
    let kept = fee_burned_nonneg producer tx fee in
    let split = parts_of_eq (fee_split producer tx) in
    rw exact (
      record {
        funded = f₃;
        bounded = omega (int_laws, parts_of_eq e₁, parts_of_eq e₂, parts_of_eq e₃);
      },
      omega (int_laws, parts_of_eq e₁, parts_of_eq e₂, parts_of_eq e₃),
    )

apply_from_conserves :
    (i : ℕ) (producer : Bytes) (txs : List Transaction) (s : State) {s' : State}
    → IsValid s
    → All Fits txs
    → apply_from i producer txs s ≡ ok s'
    → IsValid s' × (balance_sum s' +ℤ burned producer txs ≡ balance_sum s)
unfolding apply_from
apply_from_conserves i producer [] s {s'} v fits h =
    let same : s' ≡ s = cc in rw same (v, omega int_laws)
apply_from_conserves i producer (tx ∷ txs) s {s'} v fits h =
    let (s₁, step, rest) =
      >>=-eq-ok (apply_transaction i producer tx s) (apply_from (i + 1) producer txs) h in
    let (v₁, e₁) =
      transfer_lem producer tx s v (apply_transaction_admits i producer tx s step) fits.0 in
    let same = apply_transaction_result i producer tx s step in
    let (v₂, e₂) = apply_from_conserves (i + 1) producer txs s₁ (rw same v₁) fits.1 rest in
    (v₂, omega (int_laws, parts_of_eq (rw (← same) at e₁), parts_of_eq e₂))

-- On success no balance becomes negative, and the balances together change by nothing but the fees
-- that no producer received. Conditions: before, no balance is negative and the sum fits an `int`,
-- and no amount with its fee passes the range of an `int`.
pub apply_transactions-conserves :
    (producer : Bytes) (txs : List Transaction) (s : State) {s' : State}
    → IsValid s
    → All Fits txs
    → apply_transactions s txs producer ≡ ok s'
    → IsValid s' × (balance_sum s' +ℤ burned producer txs ≡ balance_sum s)
unfolding apply_transactions
apply_transactions-conserves producer txs s v fits h =
    apply_from_conserves 0 producer txs s v fits h
