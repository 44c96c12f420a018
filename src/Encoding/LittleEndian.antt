-- ===== src/Encoding/LittleEndian.antt =====
-- The eight bytes of a 64-bit number (encoding/binary, and internal/uploader/uploader.go's own loop).
use native.Mathlib.Nat.{pow-suc}
use axm_sfn.Common.{ℕ, zero, suc, ◌*◌, ◌/◌, ◌^◌, ◌<◌, ◌≡◌, refl, ap, [], ◌∷◌, arith, length}
use axm_sfn.Common.Text.{Bytes}
use axm_sfn.Encoding.{little_endian, put_uint64, seq_bytes}

abbrev head_or_zero : Bytes → ℕ
head_or_zero [] = 0
head_or_zero (x ∷ xs) = x

abbrev tail : Bytes → Bytes
tail [] = []
tail (x ∷ xs) = xs

pub length-little_endian : (k n : ℕ) → length (little_endian k n) ≡ k
unfolding little_endian
length-little_endian zero n = refl
length-little_endian (suc k) n = ap suc (length-little_endian k (n / 256))

pub little_endian_injective :
    (k m n : ℕ) → m < 256 ^ k → n < 256 ^ k → little_endian k m ≡ little_endian k n → m ≡ n
unfolding little_endian
little_endian_injective zero m n hm hn e = omega arith
little_endian_injective (suc k) m n hm hn e =
    let bm : m < 256 ^ k * 256 = rw (← pow-suc 256 k) hm in
    let bn : n < 256 ^ k * 256 = rw (← pow-suc 256 k) hn in
    omega (
      arith,
      ap head_or_zero e,
      little_endian_injective k (m / 256) (n / 256) (omega arith) (omega arith) (ap tail e),
    )

pub length-put_uint64 : (n : ℕ) → length (put_uint64 n) ≡ 8
unfolding put_uint64
length-put_uint64 n = refl

pub put_uint64_injective : (m n : ℕ) → m < 2 ^ 64 → n < 2 ^ 64 → put_uint64 m ≡ put_uint64 n → m ≡ n
unfolding put_uint64
put_uint64_injective m n hm hn e = little_endian_injective 8 m n hm hn e

-- The hand-written loop writes what PutUint64 writes.
pub seq_bytes-eq-put_uint64 : (n : ℕ) → seq_bytes n ≡ put_uint64 n
unfolding seq_bytes put_uint64
seq_bytes-eq-put_uint64 n = ground arith

pub length-seq_bytes : (n : ℕ) → length (seq_bytes n) ≡ 8
length-seq_bytes n = rw (seq_bytes-eq-put_uint64 n) (length-put_uint64 n)

pub seq_bytes_injective : (m n : ℕ) → m < 2 ^ 64 → n < 2 ^ 64 → seq_bytes m ≡ seq_bytes n → m ≡ n
seq_bytes_injective m n hm hn e =
    put_uint64_injective m n hm hn (rw (← seq_bytes-eq-put_uint64 m, ← seq_bytes-eq-put_uint64 n) e)
