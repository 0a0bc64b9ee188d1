-- ===== src/Tests/Wallet.antt =====
-- A wallet and a payment of it, and two chains of the command.
use xenium.Prelude.{ℕ, ◌≡◌, ◌≢◌, refl, some, [], ◌∷◌, get_or, nat_eq}
use xenium.Prelude.Bytes.{Bytes, str, bytes_key, bytes_eq}
use xenium.Prelude.Int.{pos, add_word}
use xenium.Dict.{Dict, lookup, insert}
use xenium.Domain.{Transaction, Result, PrivateKey, ok}
use xenium.Text.Hex.{hex_encode, hex_digit, hex_decode, from_hex_digit}
use xenium.Text.Digits.{format_uint, format_int, fill}
use xenium.Signing.{
  address_from_pub_key, sign_transaction, hash_tx, tx_text, verify_transaction_signature,
}
use xenium.Wallet.{Wallet, unsigned_tx, new_wallet, make_tx}
use xenium.Wallet.Payments.{make_tx_lem}
use xenium.Tests.Demo.{demo, key, bob}
use xenium.Tests.Signing.{demo-IsSound, addr}

abbrev generate : ℕ → Result PrivateKey
generate random = ok key

abbrev wallet : Wallet
wallet = record { private_key = key; public_key = str "04abcd"; address = addr }

wallet_made : new_wallet demo generate 1 ≡ ok wallet
unfolding new_wallet address_from_pub_key hex_encode hex_digit hex_decode from_hex_digit
wallet_made = refl

abbrev nonces : Dict Bytes ℕ
nonces = (bob, 7) ∷ []

abbrev asked : Transaction
asked = record {
  from = addr;
  to = bob;
  amount = pos 3;
  fee = pos 1;
  nonce = 1;
  pub_key = str "04abcd";
  signature = [];
  hash = [];
}

abbrev paid : Transaction
paid = record asked { signature = str "3001"; hash = hex_encode (hash_tx demo asked) }

payment_made :
    make_tx demo 5 wallet bob (pos 3) (pos 1) nonces ≡ (ok paid, (bob, 7) ∷ (addr, 1) ∷ [])
unfolding make_tx unsigned_tx sign_transaction hash_tx tx_text address_from_pub_key hex_encode
    hex_digit hex_decode from_hex_digit lookup insert bytes_eq format_uint format_int fill
payment_made = refl

make_tx_lem_example :
    (verify_transaction_signature demo paid ≡ ok tt)
    × (paid.from ≡ wallet.address)
    × (paid.to ≡ bob)
    × (paid.amount ≡ pos 3)
    × (paid.fee ≡ pos 1)
    × (paid.nonce ≡ add_word (get_or (lookup wallet.address nonces) 0) 1)
    × (lookup wallet.address ((bob, 7) ∷ (addr, 1) ∷ []) ≡ some paid.nonce)
    × ((other : Bytes)
        → wallet.address ≢ other
        → lookup other ((bob, 7) ∷ (addr, 1) ∷ []) ≡ lookup other nonces)
make_tx_lem_example =
    make_tx_lem demo generate 1 5 wallet bob (pos 3) (pos 1) nonces ((bob, 7) ∷ (addr, 1) ∷ []) paid
      wallet_made demo-IsSound payment_made
