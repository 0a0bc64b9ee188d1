-- ===== src/Crypto.antt =====
-- What the program takes from Go's crypto packages: SHA-256, the points of P-256 and ECDSA. The
-- development reads none of their code, so they are a parameter; a signature draws on randomness,
-- which is an argument here.
use xenium.Prelude.{ℕ, Bool, Option}
use xenium.Prelude.Bytes.{Bytes}
use xenium.Domain.{PrivateKey}

pub record Crypto : Type 0 where
  -- `sha256.Sum256`
  pub sha256 : Bytes → Bytes
  -- Whether `elliptic.Unmarshal` finds a point of P-256.
  pub is_point : Bytes → Bool
  -- `ecdsa.VerifyASN1`: marshalled key, digest, signature.
  pub verify_asn1 : Bytes → Bytes → Bytes → Bool
  -- `ecdsa.SignASN1`: randomness, key, digest; it can fail.
  pub sign_asn1 : ℕ → PrivateKey → Bytes → Option Bytes
