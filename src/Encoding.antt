-- ===== src/Encoding.antt =====
-- Byte encodings that the daemon uses from Go's standard library (encoding/binary, encoding/hex), and
-- the loop of internal/uploader/uploader.go that writes a leaf's index by hand.
pub mod LittleEndian
pub mod Hex
use axm_sfn.Common.{
  ℕ, zero, suc, ◌+◌, ◌-◌, ◌*◌, ◌/◌, ◌%◌, ◌^◌, List, [], ◌∷◌, map, Option, none, some, Bool, leb,
  ltb, if◌then◌else◌, ◌&&◌,
}
use axm_sfn.Common.Text.{Bytes}

-- The k lowest bytes of a number, lowest first.
unfoldable pub little_endian : ℕ → ℕ → Bytes
little_endian zero n = []
little_endian (suc k) n = (n % 256) ∷ little_endian k (n / 256)

-- binary.LittleEndian.PutUint64 into eight fresh bytes.
unfoldable pub put_uint64 : ℕ → Bytes
unfolding little_endian
put_uint64 n = little_endian 8 n

-- `seqBytes[j] = byte(uint64(i) >> (j * 8))` for j from 0 to 7.
unfoldable pub seq_bytes : ℕ → Bytes
seq_bytes i = map (λ j. i / 2 ^ (j * 8) % 256) (0 ∷ 1 ∷ 2 ∷ 3 ∷ 4 ∷ 5 ∷ 6 ∷ 7 ∷ [])

-- The digit of a value below 16.
unfoldable pub hex_digit : ℕ → ℕ
hex_digit v = if ltb v 10 then b'0' + v else b'a' + (v - 10)

-- hex.EncodeToString, and fmt's %x of a byte slice.
unfoldable pub hex_encode : Bytes → Bytes
unfolding hex_digit
hex_encode [] = []
hex_encode (b ∷ bs) = hex_digit (b / 16) ∷ hex_digit (b % 16) ∷ hex_encode bs

-- The value of a digit, in either case.
unfoldable pub hex_value : ℕ → Option ℕ
hex_value c =
    if leb b'0' c && leb c b'9'
    then some (c - b'0')
    else if leb b'a' c && leb c b'f'
    then some (c - b'a' + 10)
    else if leb b'A' c && leb c b'F'
    then some (c - b'A' + 10)
    else none

abbrev pub push_byte : Option ℕ → Option ℕ → Option Bytes → Option Bytes
push_byte (some hi) (some lo) (some rest) = some ((hi * 16 + lo) ∷ rest)
push_byte _ _ _ = none

-- hex.DecodeString; an odd length or a foreign character is an error.
unfoldable pub hex_decode : Bytes → Option Bytes
unfolding hex_value
hex_decode [] = some []
hex_decode (c ∷ []) = none
hex_decode (c ∷ d ∷ cs) = push_byte (hex_value c) (hex_value d) (hex_decode cs)
