-- ===== src/Signing/Transactions.antt =====
-- SignTransaction and VerifyTransactionSignature of consensus/crypto.go.
use xenium.Prelude.{
  ℕ, ◌<◌, ◌≡◌, ◌≢◌, refl, inl, inr, Option-cases, true, some, [], ◌∷◌, arith, All, ==_iff,
}
use xenium.Prelude.Bytes.{Bytes, bytes_key, bytes_eq_refl}
use xenium.Domain.{Transaction, PrivateKey, ok}
use xenium.Crypto.{Crypto}
use xenium.Poh.Verify.{IsDigest}
use xenium.Text.Hex.{hex_encode, hex_decode, hex_decode-hex_encode}
use xenium.Signing.{
  hash_tx, tx_text, address_from_pub_key, sign_transaction, verify_digest,
  verify_transaction_signature,
}

-- What the program relies on in Go's crypto packages: a digest has 32 bytes; a key's public point is
-- a point, written in bytes; a signature is not empty, is written in bytes, and is verified with the
-- public point of the key that made it.
pub record IsSound (c : Crypto) (priv : PrivateKey) : Type 0 where
  pub digest : (bs : Bytes) → IsDigest (c.sha256 bs)
  pub point : c.is_point priv.public_point ≡ true
  pub point_bytes : All (λ b. b < 256) priv.public_point
  pub point_some : priv.public_point ≢ []
  pub sig_bytes :
      (random : ℕ) (d sig : Bytes) → c.sign_asn1 random priv d ≡ some sig → All (λ b. b < 256) sig
  pub sig_some : (random : ℕ) (d sig : Bytes) → c.sign_asn1 random priv d ≡ some sig → sig ≢ []
  pub verified :
      (random : ℕ) (d sig : Bytes)
      → c.sign_asn1 random priv d ≡ some sig
      → c.verify_asn1 priv.public_point d sig ≡ true

pub hex_encode-ne_nil : (bs : Bytes) → bs ≢ [] → hex_encode bs ≢ []
unfolding hex_encode
hex_encode-ne_nil [] h e = h refl
hex_encode-ne_nil (b ∷ bs) h e = cc

module _ (c : Crypto) where
  -- A transaction that is verified names as its sender the address of its key, carries the hash of
  -- its content, and has a signature of that hash which the key verifies.
  pub record IsBound (tx : Transaction) : Type 0 where
    pub key : Bytes
    pub sig : Bytes
    pub key_text : hex_decode tx.pub_key ≡ some key
    pub sig_text : hex_decode tx.signature ≡ some sig
    pub on_curve : c.is_point key ≡ true
    pub sender : tx.from ≡ hex_encode (c.sha256 key)
    pub content : tx.hash ≡ hex_encode (hash_tx c tx)
    pub signed : c.verify_asn1 key (hash_tx c tx) sig ≡ true

  -- A verified transaction is sent by the address of its own key, carries the hash of its content, and
  -- has a signature of that hash which the key, a point of the curve, verifies.
  pub verify_transaction_signature_sound :
      (tx : Transaction) → verify_transaction_signature c tx ≡ ok (tt {0}) → IsBound tx
  unfolding verify_transaction_signature verify_digest address_from_pub_key
  verify_transaction_signature_sound tx h = elim (Option-cases (hex_decode tx.pub_key)) [
    | inl bad ↦ absurd (ground arith)
    | inr (key, key_text) ↦ elim (Option-cases (hex_decode tx.signature)) [
      | inl bad ↦ absurd (ground arith)
      | inr (sig, sig_text) ↦
          let sender = ==_iff tx.from (hex_encode (c.sha256 key)) in
          let content = ==_iff tx.hash (hex_encode (hash_tx c tx)) in
          record {
            key = key;
            sig = sig;
            key_text = key_text;
            sig_text = sig_text;
            on_curve = ground arith;
            sender = ground arith;
            content = ground arith;
            signed = ground arith;
          }
    ]
  ]

module _ (c : Crypto) (priv : PrivateKey) (sound : IsSound c priv) where
  -- What `sign_transaction` makes of a transaction, with the signature `sig`.
  abbrev prepared : Transaction → Transaction
  prepared tx = record tx {
    pub_key = hex_encode priv.public_point;
    from = hex_encode (c.sha256 priv.public_point);
  }

  abbrev finished : Bytes → Transaction → Transaction
  finished sig tx = record tx {
    pub_key = hex_encode priv.public_point;
    from = hex_encode (c.sha256 priv.public_point);
    hash = hex_encode (hash_tx c (prepared tx));
    signature = hex_encode sig;
  }

  sign_transaction_result :
      (random : ℕ) (tx tx' : Transaction)
      → sign_transaction c random priv tx ≡ ok tx'
      → (sig : Bytes) × (c.sign_asn1 random priv (hash_tx c (prepared tx)) ≡ some sig)
        × (tx' ≡ finished sig tx)
  unfolding sign_transaction address_from_pub_key
  sign_transaction_result random tx tx' h =
      let key = hex_decode-hex_encode priv.public_point sound.point_bytes in
      elim (Option-cases (c.sign_asn1 random priv (hash_tx c (prepared tx)))) [
        | inl failed ↦ absurd (ground arith)
        | inr (sig, e) ↦ (sig, e, ground arith)
      ]

  -- The hash leaves out the fields that are written after it.
  hash_tx-finished :
      (sig : Bytes) (tx : Transaction) → hash_tx c (finished sig tx) ≡ hash_tx c (prepared tx)
  unfolding hash_tx tx_text
  hash_tx-finished sig tx = refl

  digest_some : (bs : Bytes) → c.sha256 bs ≢ []
  digest_some bs e = let size = (sound.digest bs).size in absurd (ground (arith, e))

  verify-finished :
      (random : ℕ) (sig : Bytes) (tx : Transaction)
      → c.sign_asn1 random priv (hash_tx c (prepared tx)) ≡ some sig
      → verify_transaction_signature c (finished sig tx) ≡ ok (tt {0})
  unfolding verify_transaction_signature verify_digest address_from_pub_key
  verify-finished random sig tx signed =
      let tx' = finished sig tx in
      let key = hex_decode-hex_encode priv.public_point sound.point_bytes in
      let sig_text = hex_decode-hex_encode sig (sound.sig_bytes random _ sig signed) in
      ground (
        arith,
        key,
        sig_text,
        hash_tx-finished sig tx,
        sound.point,
        sound.verified random (hash_tx c (prepared tx)) sig signed,
        bytes_eq_refl (hex_encode (c.sha256 priv.public_point)),
        bytes_eq_refl (hex_encode (hash_tx c (prepared tx))),
        ==_iff (hex_encode priv.public_point) [],
        ==_iff (hex_encode sig) [],
        ==_iff (hex_encode (hash_tx c (prepared tx))) [],
        hex_encode-ne_nil priv.public_point sound.point_some,
        hex_encode-ne_nil sig (sound.sig_some random _ sig signed),
        hex_encode-ne_nil (hash_tx c (prepared tx))
            (unfold hash_tx in digest_some (tx_text (prepared tx))),
      )

  -- A transaction that was signed is verified. Condition: the crypto packages do what the program
  -- relies on.
  pub verify-sign_transaction :
      (random : ℕ) (tx tx' : Transaction)
      → sign_transaction c random priv tx ≡ ok tx'
      → verify_transaction_signature c tx' ≡ ok (tt {0})
  verify-sign_transaction random tx tx' h =
      let (sig, signed, same) = sign_transaction_result random tx tx' h in
      rw same (verify-finished random sig tx signed)
