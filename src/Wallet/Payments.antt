-- ===== src/Wallet/Payments.antt =====
-- What makeTx of cmd/xenium/main.go makes with a wallet of domain/wallet.go.
use xenium.Prelude.{ℕ, ◌≡◌, ◌≢◌, ap, sym, ◌∙◌, inl, inr, get_or, some, arith}
use xenium.Prelude.Bytes.{Bytes, bytes_key}
use xenium.Prelude.Int.{ℤ, add_word}
use xenium.Dict.{Dict, lookup, lookup-insert_self, lookup-insert_ne}
use xenium.Domain.{Transaction, PrivateKey, Result, Result-cases, ok}
use xenium.Crypto.{Crypto}
use xenium.Text.Hex.{hex_encode}
use xenium.Signing.{address_from_pub_key, sign_transaction, verify_transaction_signature}
use xenium.Signing.Transactions.{IsSound, verify-sign_transaction}
use xenium.Wallet.{Wallet, unsigned_tx, new_wallet, make_tx}

module _ (c : Crypto) where
  wallet-fields :
      (generate : ℕ → Result PrivateKey) (random : ℕ) {w : Wallet}
      → new_wallet c generate random ≡ ok w
      → address_from_pub_key c (hex_encode w.private_key.public_point) ≡ ok w.address
  unfolding new_wallet
  wallet-fields generate random {w} h = elim (Result-cases (generate random)) [
    | inr (e, failed) ↦ absurd (ground arith)
    | inl (priv, made) ↦
        elim (Result-cases (address_from_pub_key c (hex_encode priv.public_point))) [
          | inr (e, failed) ↦ absurd (ground arith)
          | inl (addr, named) ↦ ground arith
        ]
  ]

  signed-fields :
      (random : ℕ) (priv : PrivateKey) (tx tx' : Transaction) (addr : Bytes)
      → address_from_pub_key c (hex_encode priv.public_point) ≡ ok addr
      → sign_transaction c random priv tx ≡ ok tx'
      → (tx'.from ≡ addr)
        × (tx'.to ≡ tx.to)
        × (tx'.amount ≡ tx.amount)
        × (tx'.fee ≡ tx.fee)
        × (tx'.nonce ≡ tx.nonce)
  unfolding sign_transaction
  signed-fields random priv tx tx' addr named h = ground arith

  -- A transaction that makeTx makes for a new wallet is verified; it comes from the address of the wallet and says what
  -- was asked for; its nonce is the one after the last that the wallet used, which is noted; and no other wallet's
  -- nonce changes. Conditions: key generation and signing succeed, and the crypto packages do what the program relies
  -- on for the key.
  pub make_tx_lem :
      (generate : ℕ → Result PrivateKey) (random random' : ℕ) (w : Wallet) (to : Bytes)
      (amount fee : ℤ) (nonces nonces' : Dict Bytes ℕ) (tx : Transaction)
      → new_wallet c generate random ≡ ok w
      → IsSound c w.private_key
      → make_tx c random' w to amount fee nonces ≡ (ok tx, nonces')
      → (verify_transaction_signature c tx ≡ ok tt)
        × (tx.from ≡ w.address)
        × (tx.to ≡ to)
        × (tx.amount ≡ amount)
        × (tx.fee ≡ fee)
        × (tx.nonce ≡ add_word (get_or (lookup w.address nonces) 0) 1)
        × (lookup w.address nonces' ≡ some tx.nonce)
        × ((other : Bytes) → w.address ≢ other → lookup other nonces' ≡ lookup other nonces)
  unfolding make_tx unsigned_tx
  make_tx_lem generate random random' w to amount fee nonces nonces' tx made sound h =
      let next = add_word (get_or (lookup w.address nonces) 0) 1 in
      let asked = unsigned_tx to amount fee next in
      let signed : sign_transaction c random' w.private_key asked ≡ ok tx = ap (λ r. r.0) h in
      let (from, to_same, amount_same, fee_same, nonce_same) =
        signed-fields random' w.private_key asked tx w.address (wallet-fields generate random made)
          signed in
      let noted = lookup-insert_self w.address next nonces in
      (
        verify-sign_transaction c w.private_key sound random' asked tx signed,
        from,
        to_same,
        amount_same,
        fee_same,
        nonce_same,
        ap (λ (d : Dict Bytes ℕ). lookup w.address d) (sym (ap (λ r. r.1) h))
            ∙ noted
            ∙ ap some (sym nonce_same),
        (λ other apart.
            ap (λ (d : Dict Bytes ℕ). lookup other d) (sym (ap (λ r. r.1) h))
            ∙ lookup-insert_ne w.address other next nonces apart),
      )
