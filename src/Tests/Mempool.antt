-- ===== src/Tests/Mempool.antt =====
-- A pool with a small and a large fee, and a third transaction that joins.
use xenium.Prelude.{◌≡◌, ◌≢◌, ◌⊎◌, refl, none, some, [], ◌∷◌, ◌++◌, length}
use mathlib.Core.List.{Perm}
use xenium.Prelude.Bytes.{bytes_eq, bytes_key}
use xenium.Prelude.Int.{pos, ◌≤ℤ◌}
use xenium.Dict.{lookup, contains, insert}
use xenium.Prelude.Sort.{sort_slice}
use xenium.Text.Digits.{format_int, fill}
use xenium.Domain.{State, Transaction, ok}
use xenium.Ledger.{apply_transactions}
use xenium.Signing.{
  verify_transaction_signature, hash_tx, address_from_pub_key, verify_digest, tx_text,
}
use xenium.Text.Hex.{hex_encode, hex_decode, from_hex_digit, hex_digit}
use xenium.Mempool.{Mempool, tx_less, add, pop_for_block}
use xenium.Mempool.Order.{IsValid, add-IsValid}
use xenium.Mempool.Select.{pop_for_block_lem}
use xenium.Tests.Demo.{demo, pay, alice, bob, carol, accounts}

abbrev rich : Transaction
rich = record (pay alice bob 30 9 1) { hash = 1 ∷ [] }

abbrev poor : Transaction
poor = record (pay bob alice 10 1 5) { hash = 2 ∷ [] }

abbrev pool : Mempool
pool = record { by_hash = (2 ∷ [], poor) ∷ (1 ∷ [], rich) ∷ []; list = rich ∷ poor ∷ [] }

pool-IsValid : IsValid pool
pool-IsValid = record {
  sorted = unfold tx_less in ((refl, tt), (tt, tt));
  distinct = (((λ e. cc), tt), (tt, tt));
  indexed = unfold lookup bytes_eq in (refl, (refl, tt));
}

pop_for_block_lem_example :
    let (m', out) = pop_for_block pool accounts (pos 1) carol in
    ((next : State) × (apply_transactions accounts out carol ≡ ok next))
    × ((out ≡ []) ⊎ (pos (length out) ≤ℤ pos 1))
    × Perm (out ++ m'.list) pool.list
    × IsValid m'
pop_for_block_lem_example = pop_for_block_lem pool accounts (pos 1) carol pool-IsValid

abbrev joins : Transaction
joins =
    let paid : Transaction = record (pay carol bob 3 5 1) {
      from = hex_encode (demo.sha256 (4 ∷ 171 ∷ 205 ∷ []));
    } in
    record paid { hash = hex_encode (hash_tx demo paid) }

abbrev grown : Mempool
grown = record {
  by_hash = (2 ∷ [], poor) ∷ (1 ∷ [], rich) ∷ (joins.hash, joins) ∷ [];
  list = rich ∷ joins ∷ poor ∷ [];
}

joins_added : add demo pool joins ≡ ok grown
unfolding add verify_transaction_signature bytes_eq hex_encode hash_tx hex_decode from_hex_digit
    address_from_pub_key hex_digit verify_digest tx_text format_int fill contains insert sort_slice
    tx_less
joins_added = refl

add-IsValid_example :
    IsValid grown
    × (verify_transaction_signature demo joins ≡ ok tt)
    × (lookup joins.hash pool.by_hash ≡ none)
    × Perm grown.list (joins ∷ pool.list)
add-IsValid_example = add-IsValid demo pool joins pool-IsValid joins_added

joins_verified : verify_transaction_signature demo joins ≡ ok tt
unfolding verify_transaction_signature bytes_eq hex_decode from_hex_digit address_from_pub_key
    hex_encode hex_digit verify_digest hash_tx tx_text format_int fill
joins_verified = refl

joins_named : joins.hash ≢ []
unfolding hex_encode hash_tx
joins_named e = cc

joins_known : lookup joins.hash grown.by_hash ≡ some joins
unfolding lookup bytes_eq hex_encode hash_tx hex_digit tx_text format_int fill
joins_known = refl
