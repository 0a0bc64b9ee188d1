-- ===== src/Ledger/Sums.antt =====
-- The sum of all balances, and what each write of a transaction does to it.
use xenium.Prelude.{ℕ, ◌≡◌, [], ◌∷◌, arith}
use xenium.Prelude.Bytes.{Bytes, bytes_key}
use xenium.Prelude.Int.{
  ℤ, pos, ◌+ℤ◌, ◌-ℤ◌, ◌≤ℤ◌, int_laws, parts_of_eq, max_int, add_int_exact, sub_int_exact,
}
use xenium.Dict.{lookup, insert}
use xenium.Domain.{Account, State}
use xenium.Ledger.{account, credit, debit}

abbrev pub balance_sum : State → ℤ
balance_sum [] = pos 0
balance_sum ((_, a) ∷ s) = a.balance +ℤ balance_sum s

-- No balance is negative.
abbrev pub IsFunded : State → Type 0
IsFunded [] = Unit
IsFunded ((_, a) ∷ s) = (pos 0 ≤ℤ a.balance) × IsFunded s

-- No balance is negative, and all of them together fit an `int`.
pub record IsValid (s : State) : Type 0 where
  pub funded : IsFunded s
  pub bounded : balance_sum s ≤ℤ pos max_int

pub balance_sum-insert :
    (k : Bytes) (a : Account) (s : State)
    → balance_sum (insert k a s) +ℤ (account s k).balance ≡ balance_sum s +ℤ a.balance
unfolding insert account lookup
balance_sum-insert k a [] = omega int_laws
balance_sum-insert k a ((j, b) ∷ s) = grind (int_laws, balance_sum-insert k a s)

pub insert-IsFunded :
    (k : Bytes) (a : Account) (s : State)
    → pos 0 ≤ℤ a.balance
    → IsFunded s
    → IsFunded (insert k a s)
unfolding insert
insert-IsFunded k a [] h f = (h, tt)
insert-IsFunded k a ((j, b) ∷ s) h f = ground (arith, insert-IsFunded k a s h f.1)

pub balance_sum_nonneg : (s : State) → IsFunded s → pos 0 ≤ℤ balance_sum s
balance_sum_nonneg [] f = omega arith
balance_sum_nonneg ((j, b) ∷ s) f = omega (int_laws, balance_sum_nonneg s f.1)

-- An account holds between nothing and the whole sum.
pub account_bounds :
    (k : Bytes) (s : State)
    → IsFunded s
    → (pos 0 ≤ℤ (account s k).balance) × ((account s k).balance ≤ℤ balance_sum s)
unfolding account lookup
account_bounds k [] f = omega arith
account_bounds k ((j, b) ∷ s) f = grind (int_laws, account_bounds k s f.1, balance_sum_nonneg s f.1)

-- A credit that the bound leaves room for raises the sum by its amount.
pub credit_lem :
    (k : Bytes) (x : ℤ) (s : State)
    → IsFunded s
    → pos 0 ≤ℤ x
    → balance_sum s +ℤ x ≤ℤ pos max_int
    → IsFunded (credit k x s) × (balance_sum (credit k x s) ≡ balance_sum s +ℤ x)
unfolding credit
credit_lem k x s f h room =
    let a = account s k in
    let (low, high) = account_bounds k s f in
    let a' : Account = record a { balance = a.balance +ℤ x } in
    let exact = add_int_exact a.balance x (omega int_laws) in
    rw exact (
      insert-IsFunded k a' s (omega int_laws) f,
      omega (int_laws, parts_of_eq (balance_sum-insert k a' s)),
    )

-- A debit that the account covers lowers the sum by its amount.
pub debit_lem :
    (k : Bytes) (x : ℤ) (n : ℕ) (s : State)
    → IsValid s
    → pos 0 ≤ℤ x
    → x ≤ℤ (account s k).balance
    → IsFunded (debit k x n s) × (balance_sum (debit k x n s) ≡ balance_sum s -ℤ x)
unfolding debit
debit_lem k x n s v h cover =
    let a = account s k in
    let (low, high) = account_bounds k s v.funded in
    let bounded = v.bounded in
    let a' : Account = record { balance = a.balance -ℤ x; nonce = n } in
    let exact = sub_int_exact a.balance x (omega int_laws) in
    rw exact (
      insert-IsFunded k a' s (omega int_laws) v.funded,
      omega (int_laws, parts_of_eq (balance_sum-insert k a' s)),
    )
