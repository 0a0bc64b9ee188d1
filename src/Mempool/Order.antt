-- ===== src/Mempool/Order.antt =====
-- Add of core/mempool.go: the order of the pool and its index.
use mathlib.Core.List.{Perm, perm_append_comm}
use mathlib.Core.List.Perm
use xenium.Prelude.{
  ◌≡◌, ◌≢◌, true, false, none, some, List, [], ◌∷◌, ◌++◌, arith, ==_iff, All, All-snoc, All-map,
  sym, Bool-cases, inl, inr,
}
use xenium.Prelude.Bytes.{Bytes, bytes_key, bytes_lt_asymm, bytes_lt_not_trans, bytes_lt_total}
use xenium.Prelude.Sort.{
  IsWeakOrder, IsSorted, insert_sorted, sort_slice, sort_slice-IsSorted, All-sort_slice,
  All-insert_sorted, sort_slice-perm,
}
use xenium.Dict.{Dict, lookup, insert, contains, lookup-insert, lookup-insert_self}
use xenium.Domain.{Transaction, ok, err, duplicate_tx, Result-cases}
use xenium.Crypto.{Crypto}
use xenium.Signing.{verify_transaction_signature}
use xenium.Mempool.{Mempool, tx_less, add}

tx_less_asymm : (a b : Transaction) → tx_less a b ≡ true → tx_less b a ≡ false
unfolding tx_less
tx_less_asymm a b h =
    ground (arith, ==_iff a.from b.from, ==_iff b.from a.from, bytes_lt_asymm a.from b.from)

tx_less_not_trans :
    (a b c : Transaction) → tx_less a b ≡ false → tx_less b c ≡ false → tx_less a c ≡ false
unfolding tx_less
tx_less_not_trans a b c h k = ground (
  arith,
  ==_iff a.from b.from,
  ==_iff b.from c.from,
  ==_iff a.from c.from,
  bytes_lt_not_trans a.from b.from c.from,
  bytes_lt_total a.from b.from,
  bytes_lt_total b.from c.from,
  bytes_lt_asymm a.from c.from,
)

-- The comparison is one that the sort can use.
pub tx_less-IsWeakOrder : IsWeakOrder tx_less
tx_less-IsWeakOrder = record { asymm = tx_less_asymm; not_trans = tx_less_not_trans }

-- No two transactions of the list have one hash.
abbrev pub Distinct : List Transaction → Type 0
Distinct [] = Unit
Distinct (x ∷ xs) = All (λ y. y.hash ≢ x.hash) xs × Distinct xs

-- The list is in order, has no hash twice, and the index finds each of its transactions.
pub record IsQueue (by_hash : Dict Bytes Transaction) (list : List Transaction) : Type 0 where
  pub sorted : IsSorted tx_less list
  pub distinct : Distinct list
  pub indexed : All (λ t. lookup t.hash by_hash ≡ some t) list

abbrev pub IsValid : Mempool → Type 0
IsValid m = IsQueue m.by_hash m.list

Distinct-insert_sorted :
    (a : Transaction) (xs : List Transaction)
    → All (λ y. y.hash ≢ a.hash) xs
    → Distinct xs
    → Distinct (insert_sorted tx_less a xs)
unfolding insert_sorted
Distinct-insert_sorted a [] h d = (tt, tt)
Distinct-insert_sorted a (x ∷ xs) h d = elim (Bool-cases (tx_less x a)) [
  | inl e ↦
      rw (e, insert_sorted)
        (
          All-insert_sorted tx_less (λ y. y.hash ≢ x.hash) a xs (λ p. h.0 (sym p)) d.0,
          Distinct-insert_sorted a xs h.1 d.1,
        )
  | inr e ↦ rw (e, insert_sorted) (h, d)
]

Distinct-sort_slice : (xs : List Transaction) → Distinct xs → Distinct (sort_slice tx_less xs)
unfolding sort_slice
Distinct-sort_slice [] d = tt
Distinct-sort_slice (x ∷ xs) d =
    Distinct-insert_sorted x (sort_slice tx_less xs)
      (All-sort_slice tx_less (λ y. y.hash ≢ x.hash) xs d.0) (Distinct-sort_slice xs d.1)

Distinct-snoc :
    (xs : List Transaction) (a : Transaction)
    → All (λ y. a.hash ≢ y.hash) xs
    → Distinct xs
    → Distinct (xs ++ a ∷ [])
Distinct-snoc [] a h d = (tt, tt)
Distinct-snoc (x ∷ xs) a h d =
    (All-snoc (λ y. y.hash ≢ x.hash) xs a d.0 h.0, Distinct-snoc xs a h.1 d.1)

fresh_hash :
    (tx y : Transaction) (d : Dict Bytes Transaction)
    → lookup tx.hash d ≡ none
    → lookup y.hash d ≡ some y
    → tx.hash ≢ y.hash
fresh_hash tx y d missing found e = let e' = rw e at missing in cc

insert-indexed :
    (tx y : Transaction) (d : Dict Bytes Transaction)
    → lookup tx.hash d ≡ none
    → lookup y.hash d ≡ some y
    → lookup y.hash (insert tx.hash tx d) ≡ some y
insert-indexed tx y d missing found =
    let apart = fresh_hash tx y d missing found in
    ground (arith, lookup-insert tx.hash y.hash tx d, ==_iff tx.hash y.hash)

pub contains-none :
    (h : Bytes) (d : Dict Bytes Transaction) → contains h d ≡ false → lookup h d ≡ none
unfolding contains
contains-none h d e = ground arith

add_result :
    (c : Crypto) (m : Mempool) (tx : Transaction) {m' : Mempool}
    → add c m tx ≡ ok m'
    → (verify_transaction_signature c tx ≡ ok (tt {0}))
      × (lookup tx.hash m.by_hash ≡ none)
      × (m' ≡ record {
        by_hash = insert tx.hash tx m.by_hash;
        list = sort_slice tx_less (m.list ++ tx ∷ []);
      })
unfolding add
add_result c m tx {m'} h = elim (Result-cases (verify_transaction_signature c tx)) [
  | inl (done, e) ↦
      let new : contains tx.hash m.by_hash ≡ false = ground arith in
      (e, contains-none tx.hash m.by_hash new, ground arith)
  | inr (failed, e) ↦ absurd (ground arith)
]

-- A transaction that is added has a verified signature and a hash that the pool did not know. The
-- pool stays in order of fee, sender and nonce, keeps every hash once and indexed, and holds what
-- it held and the new transaction. Condition: the pool was so before.
pub add-IsValid :
    (c : Crypto) (m : Mempool) (tx : Transaction) {m' : Mempool}
    → IsValid m
    → add c m tx ≡ ok m'
    → IsValid m'
      × (verify_transaction_signature c tx ≡ ok (tt {0}))
      × (lookup tx.hash m.by_hash ≡ none)
      × Perm m'.list (tx ∷ m.list)
add-IsValid c m tx v h =
    let (verified, missing, same) = add_result c m tx h in
    let list = m.list ++ tx ∷ [] in
    let apart =
      All-map (λ y. lookup y.hash m.by_hash ≡ some y) (λ y. tx.hash ≢ y.hash)
        (λ y found. fresh_hash tx y m.by_hash missing found) m.list v.indexed in
    let kept =
      All-map (λ y. lookup y.hash m.by_hash ≡ some y)
        (λ y. lookup y.hash (insert tx.hash tx m.by_hash) ≡ some y)
        (λ y found. insert-indexed tx y m.by_hash missing found) m.list v.indexed in
    rw same (
      record {
        sorted = sort_slice-IsSorted tx_less tx_less-IsWeakOrder list;
        distinct = Distinct-sort_slice list (Distinct-snoc m.list tx apart v.distinct);
        indexed =
            All-sort_slice tx_less _ list
              (All-snoc _ m.list tx kept (lookup-insert_self tx.hash tx m.by_hash));
      },
      verified,
      missing,
      Perm.trans (sort_slice-perm tx_less list) (perm_append_comm m.list (tx ∷ [])),
    )

-- A hash that the pool knows is refused, also with another transaction. Condition: the transaction
-- has a hash and a verified signature.
pub add_known :
    (c : Crypto) (m : Mempool) (tx old : Transaction)
    → tx.hash ≢ []
    → verify_transaction_signature c tx ≡ ok (tt {0})
    → lookup tx.hash m.by_hash ≡ some old
    → add c m tx ≡ err duplicate_tx
unfolding add contains
add_known c m tx old hashed verified known = ground (arith, ==_iff tx.hash [])
