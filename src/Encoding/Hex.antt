-- ===== src/Encoding/Hex.antt =====
-- Hexadecimal text (encoding/hex) and the bytes that it stands for.
use axm_sfn.Common.{
  ℕ, ◌*◌, ◌/◌, ◌%◌, ◌≤◌, ◌<◌, ◌≡◌, refl, ap, [], ◌∷◌, some, arith, length, All, ◌⊎◌,
}
use axm_sfn.Common.Text.{Bytes}
use axm_sfn.Encoding.{hex_digit, hex_encode, hex_value, hex_decode}

abbrev pub IsByte : ℕ → Type 0
IsByte b = b < 256

pub hex_value-hex_digit : (v : ℕ) → v < 16 → hex_value (hex_digit v) ≡ some v
unfolding hex_value hex_digit
hex_value-hex_digit v h = ground arith

pub hex_decode-hex_encode : (bs : Bytes) → All IsByte bs → hex_decode (hex_encode bs) ≡ some bs
unfolding hex_decode hex_encode
hex_decode-hex_encode [] h = refl
hex_decode-hex_encode (b ∷ bs) h =
    rw
      (
        hex_value-hex_digit (b / 16) (omega arith),
        hex_value-hex_digit (b % 16) (omega arith),
        hex_decode-hex_encode bs h.1,
      )
      (ap (λ t. some (t ∷ bs)) (omega arith))

pub length-hex_encode : (bs : Bytes) → length (hex_encode bs) ≡ 2 * length bs
unfolding hex_encode
length-hex_encode [] = refl
length-hex_encode (b ∷ bs) = omega (arith, length-hex_encode bs)

-- A character of a hexadecimal text is a decimal digit or a letter from a to f.
abbrev pub IsHexDigit : ℕ → Type 0
IsHexDigit c = (b'0' ≤ c) × (c ≤ b'9') ⊎ (b'a' ≤ c) × (c ≤ b'f')

hex_digit-IsHexDigit : (v : ℕ) → v < 16 → IsHexDigit (hex_digit v)
unfolding hex_digit
hex_digit-IsHexDigit v h = ground arith

pub hex_encode-IsHexDigit : (bs : Bytes) → All IsByte bs → All IsHexDigit (hex_encode bs)
unfolding hex_encode
hex_encode-IsHexDigit [] h = tt
hex_encode-IsHexDigit (b ∷ bs) h = (
  hex_digit-IsHexDigit (b / 16) (omega arith),
  (hex_digit-IsHexDigit (b % 16) (omega arith), hex_encode-IsHexDigit bs h.1),
)
