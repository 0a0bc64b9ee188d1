-- ===== src/Text/Digits.antt =====
-- The two `itoa` of consensus/pov.go and core/blockchain.go, and the decimal texts of the `strconv`
-- package. `itoa` fills a buffer of 20 bytes from its end.
use xenium.Prelude.{
  ℕ, zero, suc, ◌+◌, ◌-◌, ◌*◌, ◌/◌, ◌%◌, ◌^◌, ◌≤◌, ◌<◌, ◌≡◌, refl, [], ◌∷◌, Option, none, some,
  arith, nat_beq, if◌then◌else◌, ◌∙◌, ap, get_or, Bool-cases, inl, inr,
}
use native.Mathlib.Nat.{pow-suc}
use xenium.Prelude.Bytes.{Bytes, str}
use xenium.Prelude.Int.{ℤ, pos, negsuc, max_int}

-- The loop `for v > 0`, on the places left in the buffer and the bytes written so far; `none` is a
-- write in front of the buffer, which panics in Go.
unfoldable pub fill : ℕ → ℕ → Bytes → Option Bytes
fill zero v out = if nat_beq v 0 then some out else none
fill (suc room) v out =
    let rest = fill room (v / 10) ((b'0' + v % 10) ∷ out) in if nat_beq v 0 then some out else rest

-- A negative number leaves the loop at once, so its text is empty.
unfoldable pub itoa : ℤ → Option Bytes
itoa (pos n) = if nat_beq n 0 then some (str "0") else fill 20 n []
itoa (negsuc n) = some []

-- The number that a text of decimal digits stands for.
unfoldable pub value_from : ℕ → Bytes → ℕ
value_from acc [] = acc
value_from acc (c ∷ cs) = value_from (acc * 10 + (c - b'0')) cs

tenth_fits : (room v : ℕ) → v < 10 ^ suc room → v / 10 < 10 ^ room
tenth_fits room v h = let h' = rw pow-suc at h in omega arith

value_from-fill :
    (room v : ℕ) (out : Bytes)
    → v < 10 ^ room
    → (text : Bytes) × (fill room v out ≡ some text) × (value_from 0 text ≡ value_from v out)
unfolding fill value_from
value_from-fill zero v out h = (out, ground arith, ap (λ (t : ℕ). value_from t out) (omega arith))
value_from-fill (suc room) v out h =
    let (text, filled, same) =
      value_from-fill room (v / 10) ((b'0' + v % 10) ∷ out) (tenth_fits room v h) in
    let digit : v / 10 * 10 + (b'0' + v % 10 - b'0') ≡ v = omega arith in
    elim (Bool-cases (nat_beq v 0)) [
      | inl done ↦ (out, rw done, ap (λ (t : ℕ). value_from t out) (ground arith))
      | inr more ↦ (text, rw more filled, same ∙ ap (λ (t : ℕ). value_from t out) digit)
    ]

-- The text of every number that is not negative is made within the buffer, and its digits stand for
-- the number. Condition: the number is an `int`.
pub value_from-itoa :
    (n : ℕ) → n ≤ max_int → (text : Bytes) × (itoa (pos n) ≡ some text) × (value_from 0 text ≡ n)
unfolding itoa value_from
value_from-itoa n h =
    let (text, filled, same) = value_from-fill 20 n [] (omega arith) in
    elim (Bool-cases (nat_beq n 0)) [
      | inl none_left ↦ (str "0", rw none_left, unfold value_from in ground arith)
      | inr more ↦ (text, rw more filled, same)
    ]

-- `strconv.FormatUint(n, 10)`: a `uint64` has at most 20 digits.
unfoldable pub format_uint : ℕ → Bytes
format_uint n = if nat_beq n 0 then str "0" else get_or (fill 20 n []) []

-- `strconv.Itoa` and `strconv.FormatInt(a, 10)`.
unfoldable pub format_int : ℤ → Bytes
unfolding format_uint
format_int (pos n) = format_uint n
format_int (negsuc n) = b'-' ∷ format_uint (suc n)

itoa_runs : itoa (pos 9223372036854775807) ≡ some (str "9223372036854775807")
unfolding itoa fill
itoa_runs = refl
