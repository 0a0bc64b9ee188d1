-- ===== src/Tests/Ledger.antt =====
-- Two payments, with the fee to a producer, and one payment whose total wraps around.
use xenium.Prelude.{◌≢◌, ◌+◌, ◌≡◌, refl, [], ◌∷◌, ◌↔◌, arith}
use xenium.Prelude.Bytes.{bytes_eq}
use xenium.Prelude.Int.{pos, ◌+ℤ◌, ◌-ℤ◌, max_int, word, add_int, sub_int, wrap}
use xenium.Dict.{lookup, insert}
use xenium.Domain.{State, Transaction, ok}
use xenium.Ledger.{
  account, credit, debit, pay_fee, transfer, apply_transaction, apply_from, apply_transactions,
}
use xenium.Ledger.Sums.{IsValid, balance_sum}
use xenium.Ledger.Admission.{IsAdmitted, apply_transaction_iff}
use xenium.Ledger.Conservation.{burned, apply_transactions-conserves}
use xenium.Ledger.Nonces.{nonce_counts_sent, no_replay, sent}
use xenium.Ledger.Overflow.{IsOverflowing, overflow_pays_sender}
use xenium.Tests.Demo.{alice, bob, carol, pay, accounts}

abbrev first : Transaction
first = pay alice bob 30 2 1

abbrev second : Transaction
second = pay bob alice 10 1 5

abbrev after : State
after =
    (alice, record { balance = pos 78; nonce = 1 })
    ∷ (bob, record { balance = pos 39; nonce = 5 })
    ∷ (carol, record { balance = pos 3; nonce = 0 })
    ∷ []

abbrev between : State
between =
    (alice, record { balance = pos 68; nonce = 1 })
    ∷ (bob, record { balance = pos 50; nonce = 4 })
    ∷ (carol, record { balance = pos 2; nonce = 0 })
    ∷ []

accounts-IsValid : IsValid accounts
accounts-IsValid = record {
  funded = (omega arith, (omega arith, tt));
  bounded = unfold ◌+ℤ◌ in omega arith;
}

both_run : apply_transactions accounts (first ∷ second ∷ []) carol ≡ ok after
unfolding apply_transactions apply_from apply_transaction transfer pay_fee credit debit account
    lookup insert bytes_eq add_int wrap ◌+ℤ◌ sub_int ◌-ℤ◌
both_run = refl

first_runs : apply_transactions accounts (first ∷ []) carol ≡ ok between
unfolding apply_transactions apply_from apply_transaction transfer pay_fee credit debit account
    lookup insert bytes_eq add_int wrap ◌+ℤ◌ sub_int ◌-ℤ◌
first_runs = refl

second_runs : apply_transactions between (second ∷ []) carol ≡ ok after
unfolding apply_transactions apply_from apply_transaction transfer pay_fee credit debit account
    lookup insert bytes_eq add_int wrap ◌+ℤ◌ sub_int ◌-ℤ◌
second_runs = refl

apply_transactions-conserves_example :
    IsValid after × (balance_sum after +ℤ burned carol (first ∷ second ∷ []) ≡ balance_sum accounts)
apply_transactions-conserves_example =
    apply_transactions-conserves carol (first ∷ second ∷ []) accounts accounts-IsValid
      (unfold ◌+ℤ◌ in omega arith, (unfold ◌+ℤ◌ in omega arith, tt)) both_run

no_replay_example : apply_transaction 0 bob first after ≢ ok accounts
no_replay_example =
    no_replay carol (first ∷ second ∷ []) accounts 0 first refl
      (unfold account lookup bytes_eq in omega arith) both_run 0 bob accounts

nonce_counts_sent_example :
    (account after bob).nonce ≡ (account accounts bob).nonce + sent bob (first ∷ second ∷ [])
nonce_counts_sent_example =
    nonce_counts_sent bob carol (first ∷ second ∷ []) accounts
      (unfold account lookup bytes_eq in omega arith) both_run

apply_transaction_iff_example :
    (apply_transaction 0 carol first accounts ≡ ok (transfer carol first accounts))
    ↔ IsAdmitted first accounts
apply_transaction_iff_example = apply_transaction_iff 0 carol first accounts

abbrev huge : Transaction
huge = pay alice bob max_int max_int 1

abbrev poor : State
poor = (alice, record { balance = pos 0; nonce = 0 }) ∷ []

poor-IsValid : IsValid poor
poor-IsValid = record { funded = (omega arith, tt); bounded = unfold ◌+ℤ◌ in omega arith }

huge-IsOverflowing : IsOverflowing huge
huge-IsOverflowing = record {
  amount = omega arith;
  fee = omega arith;
  amount_positive = omega arith;
  fee_nonneg = omega arith;
  over = unfold ◌+ℤ◌ in omega arith;
}

overflow_pays_sender_example :
    (apply_transaction 0 carol huge poor ≡ ok (transfer carol huge poor))
    × ((account (debit alice (add_int huge.amount huge.fee) 1 poor) alice).balance
        ≡ (account poor alice).balance +ℤ (pos word -ℤ (huge.amount +ℤ huge.fee)))
overflow_pays_sender_example =
    overflow_pays_sender huge poor huge-IsOverflowing 0 carol poor-IsValid (λ e. cc) (λ e. cc)
      (unfold account lookup bytes_eq in refl) (unfold account lookup bytes_eq ◌+ℤ◌ in omega arith)
