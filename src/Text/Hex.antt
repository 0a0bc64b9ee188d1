-- ===== src/Text/Hex.antt =====
-- `hex.EncodeToString` and `hex.DecodeString`.
use xenium.Prelude.{
  ℕ, ◌+◌, ◌-◌, ◌*◌, ◌/◌, ◌%◌, ◌<◌, ◌≡◌, refl, ◌&&◌, [], ◌∷◌, Option, none, some, arith, ltb, leb,
  if◌then◌else◌, All,
}
use xenium.Prelude.Bytes.{Bytes}

-- The digit of a number below 16.
unfoldable pub hex_digit : ℕ → ℕ
hex_digit n = if ltb n 10 then b'0' + n else b'a' + (n - 10)

unfoldable pub hex_encode : Bytes → Bytes
hex_encode [] = []
hex_encode (b ∷ bs) = hex_digit (b / 16) ∷ hex_digit (b % 16) ∷ hex_encode bs

-- Decoding takes digits of both cases.
unfoldable pub from_hex_digit : ℕ → Option ℕ
from_hex_digit c =
    if leb b'0' c && leb c b'9'
    then some (c - b'0')
    else if leb b'a' c && leb c b'f'
    then some (c - b'a' + 10)
    else if leb b'A' c && leb c b'F'
    then some (c - b'A' + 10)
    else none

abbrev decode_byte : Option ℕ → Option ℕ → Option Bytes → Option Bytes
decode_byte (some h) (some l) (some rest) = some ((h * 16 + l) ∷ rest)
decode_byte _ _ _ = none

-- `none` is the error for an odd length or for a byte that is no digit.
unfoldable pub hex_decode : Bytes → Option Bytes
hex_decode [] = some []
hex_decode (c ∷ []) = none
hex_decode (c ∷ d ∷ cs) = decode_byte (from_hex_digit c) (from_hex_digit d) (hex_decode cs)

from_hex_digit-hex_digit : (n : ℕ) → n < 16 → from_hex_digit (hex_digit n) ≡ some n
unfolding from_hex_digit hex_digit
from_hex_digit-hex_digit n h = ground arith

-- What was encoded decodes to the same bytes.
pub hex_decode-hex_encode :
    (bs : Bytes) → All (λ b. b < 256) bs → hex_decode (hex_encode bs) ≡ some bs
unfolding hex_decode hex_encode
hex_decode-hex_encode [] h = refl
hex_decode-hex_encode (b ∷ bs) h =
    let bound = h.0 in
    let byte : b / 16 * 16 + b % 16 ≡ b = omega arith in
    rw (
      from_hex_digit-hex_digit (b / 16) (omega arith),
      from_hex_digit-hex_digit (b % 16) (omega arith),
      hex_decode-hex_encode bs h.1,
      byte,
    )
