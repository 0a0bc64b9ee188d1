-- ===== src/Tests/Demo.antt =====
-- Data that the tests share.
use xenium.Prelude.{ℕ, zero, suc, true, some, [], ◌∷◌, length, ◌%◌}
use xenium.Prelude.Bytes.{Bytes, str}
use xenium.Prelude.Int.{pos}
use xenium.Domain.{Transaction, State, PrivateKey}
use xenium.Crypto.{Crypto}

abbrev pub zeros : ℕ → Bytes
zeros zero = []
zeros (suc n) = 0 ∷ zeros n

-- A stand-in for Go's packages: the digest of a text begins with its length, and a signature is one byte.
abbrev pub demo : Crypto
demo = record {
  sha256 = λ bs. length bs % 256 ∷ zeros 31;
  is_point = λ key. true;
  verify_asn1 = λ key digest sig. true;
  sign_asn1 = λ random priv digest. some (48 ∷ 1 ∷ []);
}

abbrev pub key : PrivateKey
key = record { public_point = 4 ∷ 171 ∷ 205 ∷ []; secret = 7 }

abbrev pub alice : Bytes
alice = str "alice"

abbrev pub bob : Bytes
bob = str "bob"

abbrev pub carol : Bytes
carol = str "carol"

abbrev pub pay : Bytes → Bytes → ℕ → ℕ → ℕ → Transaction
pay from to amount fee nonce = record {
  from = from;
  to = to;
  amount = pos amount;
  fee = pos fee;
  nonce = nonce;
  pub_key = str "04abcd";
  signature = str "3001";
  hash = str "h";
}

abbrev pub accounts : State
accounts =
    (alice, record { balance = pos 100; nonce = 0 })
    ∷ (bob, record { balance = pos 20; nonce = 4 })
    ∷ []
