-- ===== src/Examples/Encodings.antt =====
-- internal/hotbuffer's hexadecimal columns and the little-endian numbers, at inputs.
use axm_sfn.Common.{◌≡◌, refl, [], ◌∷◌, some, none, arith}
use axm_sfn.Common.Text.{codes}
use axm_sfn.Encoding.{put_uint64, hex_encode, hex_decode}
use axm_sfn.Encoding.Hex.{hex_decode-hex_encode}

put_uint64_bytes :
    put_uint64 0x0123456789abcdef ≡ 0xef ∷ 0xcd ∷ 0xab ∷ 0x89 ∷ 0x67 ∷ 0x45 ∷ 0x23 ∷ 0x01 ∷ []
unfolding put_uint64
put_uint64_bytes = refl

hex_round_trip : hex_decode (hex_encode (0x00 ∷ 0x7f ∷ 0xff ∷ [])) ≡ some (0x00 ∷ 0x7f ∷ 0xff ∷ [])
hex_round_trip = hex_decode-hex_encode (0x00 ∷ 0x7f ∷ 0xff ∷ []) (omega arith)

hex_text : hex_encode (0x00 ∷ 0x7f ∷ 0xff ∷ []) ≡ codes "007fff"
unfolding hex_encode
hex_text = refl

hex_odd : hex_decode (codes "abc") ≡ none
unfolding hex_decode
hex_odd = refl
