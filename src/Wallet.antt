-- ===== src/Wallet.antt =====
-- domain/wallet.go, and makeTx of cmd/xenium/main.go, which signs what a wallet sends. Go's key generation is a
-- parameter.
pub mod Payments
use xenium.Prelude.{ℕ, Option, none, some, [], get_or}
use xenium.Prelude.Bytes.{Bytes, bytes_key}
use xenium.Prelude.Int.{ℤ, add_word}
use xenium.Dict.{Dict, lookup, insert}
use xenium.Domain.{Transaction, PrivateKey, Result, ok, err, ◌>>=◌}
use xenium.Crypto.{Crypto}
use xenium.Text.Hex.{hex_encode}
use xenium.Signing.{address_from_pub_key, sign_transaction}

pub record Wallet : Type 0 where
  pub private_key : PrivateKey
  pub public_key : Bytes
  pub address : Bytes

-- The transaction of `makeTx` before it is signed.
unfoldable pub unsigned_tx : Bytes → ℤ → ℤ → ℕ → Transaction
unsigned_tx to amount fee nonce = record {
  from = [];
  to = to;
  amount = amount;
  fee = fee;
  nonce = nonce;
  pub_key = [];
  signature = [];
  hash = [];
}

module _ (c : Crypto) where
  -- `generate` is `ecdsa.GenerateKey` on P-256 with the randomness as its argument.
  unfoldable pub new_wallet : (ℕ → Result PrivateKey) → ℕ → Result Wallet
  new_wallet generate random = generate random >>= λ priv.
      let pub_hex = hex_encode priv.public_point in
      address_from_pub_key c pub_hex >>= λ addr.
      ok (record { private_key = priv; public_key = pub_hex; address = addr })

  -- The nonces are a map that the callers share; an error is a panic, behind which the nonce is taken.
  unfoldable pub make_tx :
      ℕ → Wallet → Bytes → ℤ → ℤ → Dict Bytes ℕ → Result Transaction × Dict Bytes ℕ
  make_tx random w to amount fee nonces =
      let next = add_word (get_or (lookup w.address nonces) 0) 1 in
      (
        sign_transaction c random w.private_key (unsigned_tx to amount fee next),
        insert w.address next nonces,
      )
