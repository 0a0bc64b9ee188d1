-- ===== src/Signing.antt =====
-- consensus/crypto.go and domain/crypto.go: the hashes of blocks, transactions and states, and
-- their signatures. The tests for a nil block or transaction have no counterpart: the model has no
-- nil ones.
pub mod Transactions
pub mod Blocks
use xenium.Prelude.{
  ℕ, Bool, not, ◌||◌, Option, none, some, List, [], ◌∷◌, ◌++◌, if◌then◌else◌, ◌==◌,
}
use xenium.Prelude.Bytes.{Bytes, str, bytes_lt, bytes_key}
use xenium.Prelude.Sort.{sort_slice}
use xenium.Dict.{keys}
use xenium.Domain.{
  Account, State, Transaction, Block, PrivateKey, Result, ok, err, ◌>>=◌, Checked, reject_if,
  invalid_hex, missing_pubkey_or_signature, invalid_pubkey, address_mismatch, missing_tx_hash,
  tx_hash_mismatch, invalid_signature, signing_failed, missing_private_key,
  missing_validator_pubkey, invalid_validator_pubkey, missing_block_signature,
  invalid_block_signature, invalid_block_hash,
}
use xenium.Crypto.{Crypto}
use xenium.Ledger.{account}
use xenium.Text.Digits.{format_uint, format_int}
use xenium.Text.Hex.{hex_encode, hex_decode}

abbrev bar : Bytes
bar = str "|"

-- An error of `hex.DecodeString`.
abbrev pub decoded : Bytes → Result Bytes
decoded s = elim (hex_decode s) [ none ↦ err invalid_hex | some raw ↦ ok raw ]

-- The text that `HashBlock` writes.
unfoldable pub block_text : Block → Bytes
block_text b =
    format_uint b.index
    ++ bar
    ++ b.prev_hash
    ++ bar
    ++ format_uint b.slot
    ++ bar
    ++ format_uint b.tick
    ++ bar
    ++ b.validator
    ++ bar
    ++ b.tx_root
    ++ bar
    ++ b.state_root
    ++ bar
    ++ b.poh_hash

-- The text that `HashTx` writes.
unfoldable pub tx_text : Transaction → Bytes
tx_text tx =
    tx.from
    ++ bar
    ++ tx.to
    ++ bar
    ++ format_int tx.amount
    ++ bar
    ++ format_int tx.fee
    ++ bar
    ++ format_uint tx.nonce
    ++ bar
    ++ tx.pub_key

-- The text that `StateRoot` writes for some keys of the state.
unfoldable pub state_text : State → List Bytes → Bytes
state_text state [] = []
state_text state (k ∷ ks) =
    let a = account state k in
    k
    ++ str ":"
    ++ format_int a.balance
    ++ bar
    ++ format_uint a.nonce
    ++ str ";"
    ++ state_text state ks

module _ (c : Crypto) where
  unfoldable pub hash_block : Block → Bytes
  hash_block b = hex_encode (c.sha256 (block_text b))

  unfoldable pub hash_tx : Transaction → Bytes
  hash_tx tx = c.sha256 (tx_text tx)

  unfoldable pub tx_hashes : List Transaction → Bytes
  tx_hashes [] = []
  tx_hashes (tx ∷ txs) = hash_tx tx ++ tx_hashes txs

  -- With no transaction the source hashes nothing, which is what the loop writes then.
  unfoldable pub tx_root : List Transaction → Bytes
  tx_root txs = hex_encode (c.sha256 (tx_hashes txs))

  unfoldable pub state_root : State → Bytes
  state_root state = hex_encode (c.sha256 (state_text state (sort_slice bytes_lt (keys state))))

  unfoldable pub address_from_pub_key : Bytes → Result Bytes
  address_from_pub_key pub_key = decoded pub_key >>= λ raw. ok (hex_encode (c.sha256 raw))

  -- `random` is what this call draws from `rand.Reader`.
  unfoldable pub sign_transaction : ℕ → PrivateKey → Transaction → Result Transaction
  sign_transaction random priv tx =
      let keyed : Transaction = record tx { pub_key = hex_encode priv.public_point } in
      address_from_pub_key keyed.pub_key >>= λ addr.
      let sent : Transaction = record keyed { from = addr } in
      let digest = hash_tx sent in
      let hashed : Transaction = record sent { hash = hex_encode digest } in
      elim (c.sign_asn1 random priv digest) [
        | none ↦ err signing_failed
        | some sig ↦ ok (record hashed { signature = hex_encode sig })
      ]

  -- The tests behind the decoding of the key and of the signature.
  unfoldable pub verify_digest : Transaction → Bytes → Bytes → Checked
  verify_digest tx pub_bytes sig_bytes =
      let digest = hash_tx tx in
      reject_if (tx.hash == []) missing_tx_hash (
        reject_if (not (tx.hash == hex_encode digest)) tx_hash_mismatch
          (reject_if (not (c.verify_asn1 pub_bytes digest sig_bytes)) invalid_signature (ok tt)))

  unfoldable pub verify_transaction_signature : Transaction → Checked
  verify_transaction_signature tx =
      reject_if (tx.pub_key == [] || tx.signature == []) missing_pubkey_or_signature (
        decoded tx.pub_key >>= λ pub_bytes. reject_if (not (c.is_point pub_bytes)) invalid_pubkey (
          address_from_pub_key tx.pub_key >>= λ addr.
          reject_if (not (tx.from == addr)) address_mismatch
            (decoded tx.signature >>= verify_digest tx pub_bytes)))

  -- The signature is over the 64 hex digits of the hash.
  unfoldable pub sign_block : ℕ → Option PrivateKey → Block → Result Block
  sign_block random none b = err missing_private_key
  sign_block random (some priv) b =
      let digest = hash_block b in
      elim (c.sign_asn1 random priv digest) [
        | none ↦ err signing_failed
        | some sig ↦ ok (record b { signature = sig; hash = digest })
      ]

  unfoldable pub verify_block_signature : Block → Bytes → Checked
  verify_block_signature b pub_key = reject_if (pub_key == []) missing_validator_pubkey (
      decoded pub_key >>= λ pub_bytes.
      reject_if (not (c.is_point pub_bytes)) invalid_validator_pubkey (
        reject_if (b.signature == []) missing_block_signature (
          reject_if (not (c.verify_asn1 pub_bytes (hash_block b) b.signature))
            invalid_block_signature
            (reject_if (not (b.hash == hash_block b)) invalid_block_hash (ok tt)))))
