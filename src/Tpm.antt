-- ===== src/Tpm.antt =====
-- internal/tpm/attestation.go: what a quote is made over, its nonce and its PCR selection. Below it the
-- worker and the provisioning of keys, over a device that is a parameter.
pub mod Device
pub mod Worker
pub mod Provision
pub mod Bitmap
pub mod Nonce
pub mod Tidy
pub mod Unprovisioned
use Prim.Native.Nat.{bit_or}
use axm_sfn.Common.{
  ℕ, zero, suc, ◌/◌, ◌%◌, ◌^◌, List, [], ◌∷◌, ◌++◌, Option, none, some, ltb, length, take,
  if◌then◌else◌,
}
use axm_sfn.Common.Text.{Bytes}
use axm_sfn.Encoding.{put_uint64}

-- `QuoteResult`
pub record QuoteResult : Type 0 where
  pub nonce : Bytes
  pub attest_blob : Bytes
  pub sig : Bytes

-- `KeyEvidence`
pub record KeyEvidence : Type 0 where
  pub sign_pub : Bytes
  pub ak_pub : Bytes

-- A nil slice is written as no bytes.
abbrev pub or_empty : Option Bytes → Bytes
or_empty none = []
or_empty (some b) = b

-- `DeriveQuoteNonce`
unfoldable pub derive_quote_nonce : (Bytes → Bytes) → Bytes → Bytes → Option Bytes → ℕ → Bytes
derive_quote_nonce sha256 session_nonce packet_sha256 prev_hash seq =
    sha256 (session_nonce ++ (packet_sha256 ++ (put_uint64 seq ++ or_empty prev_hash)))

-- The nonce that Quote sends: 64 bytes at most.
unfoldable pub qualifying_data : Bytes → Bytes
qualifying_data nonce = if ltb 64 (length nonce) then take 64 nonce else nonce

-- `bm[i] |= bit`
unfoldable pub or_at : ℕ → ℕ → Bytes → Bytes
or_at i bit [] = []
or_at zero bit (b ∷ bs) = bit_or b bit ∷ bs
or_at (suc i) bit (b ∷ bs) = b ∷ or_at i bit bs

unfoldable pub set_pcrs : List ℕ → Bytes → Bytes
unfolding or_at
set_pcrs [] bm = bm
set_pcrs (p ∷ ps) bm = set_pcrs ps (if ltb p 24 then or_at (p / 8) (2 ^ (p % 8)) bm else bm)

-- `pcrBitmap`
unfoldable pub pcr_bitmap : List ℕ → Bytes
unfolding set_pcrs
pcr_bitmap pcrs = set_pcrs pcrs (0 ∷ 0 ∷ 0 ∷ [])
