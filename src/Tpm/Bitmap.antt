-- ===== src/Tpm/Bitmap.antt =====
-- internal/tpm/attestation.go, pcrBitmap: which bits it sets.
use Prim.Native.Nat.{bit_or}
use native.Mathlib.Nat.{zero-div}
use axm_sfn.Common.{
  ℕ, zero, suc, ◌/◌, ◌%◌, ◌^◌, ◌<◌, ◌≡◌, refl, ap, ◌∙◌, Bool, true, false, ◌&&◌, ◌||◌, List, [],
  ◌∷◌, inl, inr, arith, length, ltb, ltb→lt, ◌==◌, ==_iff, if◌then◌else◌, Bool-cases, All,
}
use axm_sfn.Common.Text.{Bytes}
use axm_sfn.Tpm.{or_at, set_pcrs, pcr_bitmap}

-- The bit of a PCR: bit `i % 8` of byte `i / 8`.
abbrev byte_at : ℕ → Bytes → ℕ
byte_at i [] = 0
byte_at zero (b ∷ bs) = b
byte_at (suc i) (b ∷ bs) = byte_at i bs

pub bit_at : ℕ → Bytes → ℕ
bit_at i bm = byte_at (i / 8) bm / 2 ^ (i % 8) % 2

pub is_listed : ℕ → List ℕ → Bool
is_listed i [] = false
is_listed i (p ∷ ps) = p == i || is_listed i ps

-- A test passes at the numbers under a bound, tried one by one.
passes_under : (ℕ → Bool) → ℕ → Bool
passes_under test zero = true
passes_under test (suc bound) = passes_under test bound && test bound

passes_under-at :
    (test : ℕ → Bool) (bound i : ℕ) → passes_under test bound ≡ true → i < bound → test i ≡ true
unfolding passes_under
passes_under-at test zero i passes small = absurd (omega arith)
passes_under-at test (suc bound) i passes small = elim (Bool-cases (i == bound)) [
  | inl last ↦ ground (arith, ap test ((==_iff i bound).0 last))
  | inr earlier ↦ passes_under-at test bound i (ground arith) (ground arith)
]

-- The bit that is set, and the others of a byte.
abbrev or_bit_test : ℕ → ℕ → ℕ → Bool
or_bit_test b k j =
    bit_or b (2 ^ k) / 2 ^ j % 2 == (if k == j then 1 else b / 2 ^ j % 2)
    && ltb (bit_or b (2 ^ k)) 256

or_bit_table : passes_under (λ b. passes_under (λ k. passes_under (or_bit_test b k) 8) 8) 256 ≡ true
unfolding passes_under
or_bit_table = refl

module _ (b k j : ℕ) (bl : b < 256) (kl : k < 8) (jl : j < 8) where
  or_bit_holds : or_bit_test b k j ≡ true
  or_bit_holds =
      let at_byte =
        passes_under-at (λ b. passes_under (λ k. passes_under (or_bit_test b k) 8) 8) 256 b
          or_bit_table bl in
      let at_bit = passes_under-at (λ k. passes_under (or_bit_test b k) 8) 8 k at_byte kl in
      passes_under-at (or_bit_test b k) 8 j at_bit jl

  or_bit : bit_or b (2 ^ k) / 2 ^ j % 2 ≡ (if k == j then 1 else b / 2 ^ j % 2)
  or_bit = ground (arith, or_bit_holds)

  or_bit-lt : bit_or b (2 ^ k) < 256
  or_bit-lt = ground (arith, or_bit_holds)

abbrev IsByte : ℕ → Type 0
IsByte b = b < 256

byte_at-lt : (j : ℕ) (bm : Bytes) → All IsByte bm → byte_at j bm < 256
byte_at-lt j [] h = omega arith
byte_at-lt zero (b ∷ bs) h = h.0
byte_at-lt (suc j) (b ∷ bs) h = byte_at-lt j bs h.1

byte_at-or_at :
    (q bit j : ℕ) (bm : Bytes)
    → q < length bm
    → byte_at j (or_at q bit bm) ≡ (if q == j then bit_or (byte_at j bm) bit else byte_at j bm)
unfolding or_at
byte_at-or_at q bit j [] h = absurd (omega arith)
byte_at-or_at zero bit zero (b ∷ bs) h = refl
byte_at-or_at zero bit (suc j) (b ∷ bs) h = ground arith
byte_at-or_at (suc q) bit zero (b ∷ bs) h = ground arith
byte_at-or_at (suc q) bit (suc j) (b ∷ bs) h = ground (arith, byte_at-or_at q bit j bs)

or_at-IsByte : (q k : ℕ) (bm : Bytes) → k < 8 → All IsByte bm → All IsByte (or_at q (2 ^ k) bm)
unfolding or_at
or_at-IsByte q k [] kl h = tt
or_at-IsByte zero k (b ∷ bs) kl h = (or_bit-lt b k 0 h.0 kl (omega arith), h.1)
or_at-IsByte (suc q) k (b ∷ bs) kl h = (h.0, or_at-IsByte q k bs kl h.1)

length-or_at : (q bit : ℕ) (bm : Bytes) → length (or_at q bit bm) ≡ length bm
unfolding or_at
length-or_at q bit [] = refl
length-or_at zero bit (b ∷ bs) = refl
length-or_at (suc q) bit (b ∷ bs) = omega (arith, length-or_at q bit bs)

bit_at-or_at :
    (p i : ℕ) (bm : Bytes)
    → p / 8 < length bm
    → All IsByte bm
    → bit_at i (or_at (p / 8) (2 ^ (p % 8)) bm) ≡ (if p == i then 1 else bit_at i bm)
unfolding bit_at
bit_at-or_at p i bm h bytes =
    rw (byte_at-or_at (p / 8) (2 ^ (p % 8)) (i / 8) bm h) (elim (Bool-cases (p / 8 == i / 8)) [
      | inl e ↦ ground (
        arith,
        or_bit (byte_at (i / 8) bm) (p % 8) (i % 8) (byte_at-lt (i / 8) bm bytes) (omega arith)
            (omega arith),
      )
      | inr n ↦ ground arith
    ])

abbrev set_pcr : ℕ → Bytes → Bytes
set_pcr p bm = if ltb p 24 then or_at (p / 8) (2 ^ (p % 8)) bm else bm

-- A bitmap of three bytes.
abbrev IsBitmap : Bytes → Type 0
IsBitmap bm = (length bm ≡ 3) × All IsByte bm

set_pcr-IsBitmap : (p : ℕ) (bm : Bytes) → IsBitmap bm → IsBitmap (set_pcr p bm)
set_pcr-IsBitmap p bm h = elim (Bool-cases (ltb p 24)) [
  | inl l ↦ rw l (
    omega (arith, length-or_at (p / 8) (2 ^ (p % 8)) bm),
    or_at-IsByte (p / 8) (p % 8) bm (omega arith) h.1,
  )
  | inr n ↦ rw n h
]

bit_at-set_pcr :
    (p i : ℕ) (bm : Bytes)
    → i < 24
    → IsBitmap bm
    → bit_at i (set_pcr p bm) ≡ (if p == i then 1 else bit_at i bm)
bit_at-set_pcr p i bm il h = elim (Bool-cases (ltb p 24)) [
  | inl l ↦ rw l (bit_at-or_at p i bm (ground (arith, ltb→lt p 24)) h.1)
  | inr n ↦ ground arith
]

bit_at-set_pcrs :
    (ps : List ℕ) (i : ℕ) (bm : Bytes)
    → i < 24
    → IsBitmap bm
    → IsBitmap (set_pcrs ps bm)
      × (bit_at i (set_pcrs ps bm) ≡ (if is_listed i ps then 1 else bit_at i bm))
unfolding set_pcrs is_listed
bit_at-set_pcrs [] i bm il h = (h, refl)
bit_at-set_pcrs (p ∷ ps) i bm il h =
    let r = bit_at-set_pcrs ps i (set_pcr p bm) il (set_pcr-IsBitmap p bm h) in
    (r.0, ground (arith, r.1, bit_at-set_pcr p i bm il h))

byte_at-blank : (j : ℕ) → byte_at j (0 ∷ 0 ∷ 0 ∷ []) ≡ 0
byte_at-blank zero = refl
byte_at-blank (suc zero) = refl
byte_at-blank (suc (suc zero)) = refl
byte_at-blank (suc (suc (suc j))) = refl

bit_at-blank : (i : ℕ) → bit_at i (0 ∷ 0 ∷ 0 ∷ []) ≡ 0
unfolding bit_at
bit_at-blank i = rw (byte_at-blank (i / 8), zero-div (2 ^ (i % 8)))

-- The selection has three bytes, and of the 24 PCRs that it covers the bits of exactly those configured.
pub pcr_bitmap-bits :
    (pcrs : List ℕ) (i : ℕ)
    → i < 24
    → (length (pcr_bitmap pcrs) ≡ 3)
      × All IsByte (pcr_bitmap pcrs)
      × (bit_at i (pcr_bitmap pcrs) ≡ (if is_listed i pcrs then 1 else 0))
unfolding pcr_bitmap
pcr_bitmap-bits pcrs i il =
    let r = bit_at-set_pcrs pcrs i (0 ∷ 0 ∷ 0 ∷ []) il (omega arith) in
    (r.0.0, r.0.1, r.1 ∙ rw (bit_at-blank i))
