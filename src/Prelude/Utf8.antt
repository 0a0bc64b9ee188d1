-- ===== src/Prelude/Utf8.antt =====
-- UTF-8, as the table of well-formed byte sequences of the Unicode standard has it: the texts that
-- Go's encoding/json gives back unchanged.
use Prim.Native.Nat.{ℕ, zero, suc}
use mathlib.Core.Path.{◌≡◌}
use mathlib.Core.Bool.{Bool, true, false, ◌&&◌}
use mathlib.Core.List.{[], ◌∷◌}
use xenium.Prelude.Tests.{ltb, leb, nat_beq, if◌then◌else◌}
use xenium.Prelude.Bytes.{Bytes}

-- Within a text: how many bytes of a character are to come, and the range of the next one.
pub data Place : Type 0 where
  inside : (more lowest highest : ℕ) → Place
  ill_formed : Place

unfoldable first_byte : ℕ → Place
first_byte b =
    if ltb b 128
    then inside 0 0 0
    else if ltb b 194
    then ill_formed
    else if ltb b 224
    then inside 1 128 191
    else if nat_beq b 224
    then inside 2 160 191
    else if nat_beq b 237
    then inside 2 128 159
    else if ltb b 240
    then inside 2 128 191
    else if nat_beq b 240
    then inside 3 144 191
    else if ltb b 244
    then inside 3 128 191
    else if nat_beq b 244
    then inside 3 128 143
    else ill_formed

unfoldable next_byte : Place → ℕ → Place
unfolding first_byte
next_byte ill_formed b = ill_formed
next_byte (inside zero lowest highest) b = first_byte b
next_byte (inside (suc more) lowest highest) b =
    if leb lowest b && leb b highest then inside more 128 191 else ill_formed

unfoldable ends : Place → Bytes → Bool
unfolding next_byte first_byte
ends (inside zero lowest highest) [] = true
ends (inside (suc more) lowest highest) [] = false
ends ill_formed [] = false
ends place (b ∷ bs) = ends (next_byte place b) bs

unfoldable pub is_utf8 : Bytes → Bool
unfolding ends
is_utf8 bs = ends (inside 0 0 0) bs

abbrev pub IsUtf8 : Bytes → Type 0
IsUtf8 bs = is_utf8 bs ≡ true
