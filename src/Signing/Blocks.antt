-- ===== src/Signing/Blocks.antt =====
-- SignBlock and VerifyBlockSignature of consensus/crypto.go.
use xenium.Prelude.{ℕ, ◌≡◌, refl, inl, inr, Option-cases, true, some, [], arith, ==_iff}
use xenium.Prelude.Bytes.{Bytes, bytes_key, bytes_eq_refl}
use xenium.Domain.{Block, PrivateKey, ok}
use xenium.Crypto.{Crypto}
use xenium.Text.Hex.{hex_encode, hex_decode, hex_decode-hex_encode}
use xenium.Signing.{hash_block, block_text, sign_block, verify_block_signature}
use xenium.Signing.Transactions.{IsSound, hex_encode-ne_nil}

module _ (c : Crypto) where
  -- What an accepted signature says of a block: its hash is that of its header, and the validator's
  -- key, a point, verifies its signature of that hash.
  pub record IsSealed (b : Block) (pub_key : Bytes) : Type 0 where
    pub key : Bytes
    pub key_text : hex_decode pub_key ≡ some key
    pub on_curve : c.is_point key ≡ true
    pub content : b.hash ≡ hash_block c b
    pub signed : c.verify_asn1 key (hash_block c b) b.signature ≡ true

  -- An accepted block carries the hash of its own header, signed with the key that was asked for.
  pub verify_block_signature_sound :
      (b : Block) (pub_key : Bytes)
      → verify_block_signature c b pub_key ≡ ok (tt {0})
      → IsSealed b pub_key
  unfolding verify_block_signature
  verify_block_signature_sound b pub_key h = elim (Option-cases (hex_decode pub_key)) [
    | inl bad ↦ absurd (ground arith)
    | inr (key, key_text) ↦
        let content = ==_iff b.hash (hash_block c b) in
        record {
          key = key;
          key_text = key_text;
          on_curve = ground arith;
          content = ground arith;
          signed = ground arith;
        }
  ]

  -- A block that was signed is verified with the key of its signer. Condition: the crypto packages do
  -- what the program relies on.
  pub verify-sign_block :
      (priv : PrivateKey)
      → IsSound c priv
      → (random : ℕ) (b b' : Block) → sign_block c random (some priv) b ≡ ok b'
      → verify_block_signature c b' (hex_encode priv.public_point) ≡ ok (tt {0})
  unfolding sign_block
  verify-sign_block priv sound random b b' h =
      elim (Option-cases (c.sign_asn1 random priv (hash_block c b))) [
        | inl failed ↦ absurd (ground arith)
        | inr (sig, signed) ↦
            let sealed : Block = record b { signature = sig; hash = hash_block c b } in
            let same : b' ≡ sealed = ground arith in
            let header : hash_block c sealed ≡ hash_block c b =
              unfold hash_block block_text in refl in
            let key = hex_decode-hex_encode priv.public_point sound.point_bytes in
            rw same (
              unfold verify_block_signature in
              ground (
                arith,
                key,
                header,
                sound.point,
                sound.verified random (hash_block c b) sig signed,
                bytes_eq_refl (hash_block c b),
                ==_iff (hex_encode priv.public_point) [],
                ==_iff sig [],
                hex_encode-ne_nil priv.public_point sound.point_some,
                sound.sig_some random _ sig signed,
              ))
      ]
