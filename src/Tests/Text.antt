-- ===== src/Tests/Text.antt =====
-- A number and some bytes as text.
use xenium.Prelude.{false, refl, ◌≡◌, some, [], ◌∷◌, arith}
use xenium.Prelude.Utf8.{IsUtf8, is_utf8}
use xenium.Prelude.Bytes.{Bytes}
use xenium.Prelude.Int.{pos}
use xenium.Text.Digits.{itoa, value_from, value_from-itoa}
use xenium.Text.Hex.{hex_encode, hex_decode, hex_decode-hex_encode}

value_from-itoa_example :
    (text : Bytes) × (itoa (pos 1050) ≡ some text) × (value_from 0 text ≡ 1050)
value_from-itoa_example = value_from-itoa 1050 (omega arith)

hex_decode-hex_encode_example :
    hex_decode (hex_encode (0 ∷ 171 ∷ 255 ∷ [])) ≡ some (0 ∷ 171 ∷ 255 ∷ [])
hex_decode-hex_encode_example =
    hex_decode-hex_encode (0 ∷ 171 ∷ 255 ∷ []) (omega arith, (omega arith, (omega arith, tt)))

-- A letter of two bytes; a byte that no text has; and a surrogate, which is not UTF-8.
two_bytes : IsUtf8 (195 ∷ 169 ∷ 65 ∷ [])
unfolding is_utf8
two_bytes = refl

lone_byte : is_utf8 (255 ∷ []) ≡ false
unfolding is_utf8
lone_byte = refl

surrogate : is_utf8 (237 ∷ 160 ∷ 128 ∷ []) ≡ false
unfolding is_utf8
surrogate = refl
