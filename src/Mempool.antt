-- ===== src/Mempool.antt =====
-- core/mempool.go: the pool of transactions that wait for a block. The mutex makes each call one
-- step, which is how the calls stand here.
pub mod Order
pub mod Select
use xenium.Prelude.{
  ℕ, zero, suc, ◌+◌, Bool, not, Option, none, some, List, [], ◌∷◌, ◌++◌, leb, ltb, nat_beq,
  if◌then◌else◌, ◌==◌, length,
}
use xenium.Prelude.Bytes.{Bytes, bytes_lt, bytes_key}
use xenium.Prelude.Int.{ℤ, pos, ltb_ℤ, leb_ℤ, beq_ℤ}
use xenium.Prelude.Sort.{sort_slice}
use xenium.Dict.{Dict, insert, erase, contains}
use xenium.Domain.{State, Transaction, Result, ok, err, ◌>>=◌, missing_tx_hash, duplicate_tx}
use xenium.Crypto.{Crypto}
use xenium.Ledger.{apply_transactions}
use xenium.Signing.{verify_transaction_signature}

pub record Mempool : Type 0 where
  pub by_hash : Dict Bytes Transaction
  pub list : List Transaction

abbrev pub new_mempool : Mempool
new_mempool = record { by_hash = []; list = [] }

-- The comparison of the sort: the highest fee first, then by sender, then by nonce.
unfoldable pub tx_less : Transaction → Transaction → Bool
tx_less a b =
    if not (beq_ℤ a.fee b.fee)
    then ltb_ℤ b.fee a.fee
    else if not (a.from == b.from)
    then bytes_lt a.from b.from
    else ltb a.nonce b.nonce

module _ (c : Crypto) where
  unfoldable pub add : Mempool → Transaction → Result Mempool
  add m tx =
      if tx.hash == []
      then err missing_tx_hash
      else (verify_transaction_signature c tx >>= λ _.
          if contains tx.hash m.by_hash
          then err duplicate_tx
          else ok (record {
            by_hash = insert tx.hash tx m.by_hash;
            list = sort_slice tx_less (m.list ++ tx ∷ []);
          }))

-- The variables of the loop of `PopForBlock`.
pub record Selection : Type 0 where
  pub out : List Transaction
  pub next_state : State
  pub remaining : List Transaction
  pub by_hash : Dict Bytes Transaction

-- The body of the loop for one transaction.
unfoldable pub consider : ℤ → Bytes → Selection → Transaction → Selection
consider max producer s tx =
    if leb_ℤ max (pos (length s.out))
    then record s { remaining = s.remaining ++ tx ∷ [] }
    else elim (apply_transactions s.next_state (tx ∷ []) producer) [
      | err e ↦ record s { remaining = s.remaining ++ tx ∷ [] }
      | ok applied ↦ record s {
        out = s.out ++ tx ∷ [];
        next_state = applied;
        by_hash = erase tx.hash s.by_hash;
      }
    ]

unfoldable pub select : ℤ → Bytes → Selection → List Transaction → Selection
select max producer s [] = s
select max producer s (tx ∷ txs) = select max producer (consider max producer s tx) txs

unfoldable pub start : Mempool → State → Selection
start m state = record { out = []; next_state = state; remaining = []; by_hash = m.by_hash }

-- `PopForBlock`; an empty pool gives the same empty slice as the loop over it.
unfoldable pub pop_for_block : Mempool → State → ℤ → Bytes → Mempool × List Transaction
pop_for_block m state max producer =
    if leb_ℤ max (pos 0)
    then (m, [])
    else let s = select max producer (start m state) m.list in
      (record { by_hash = s.by_hash; list = s.remaining }, s.out)
