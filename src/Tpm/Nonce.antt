-- ===== src/Tpm/Nonce.antt =====
-- internal/tpm/attestation.go: what the nonce of a quote stands for.
use axm_sfn.Common.{
  ℕ, ◌^◌, ◌<◌, ◌≡◌, sym, ◌∙◌, ◌++◌, Option, ◌⊎◌, inl, inr, arith, length, le→ltb, append_cancel,
}
use axm_sfn.Common.Text.{Bytes}
use axm_sfn.Common.Collisions.{Collision, same_input}
use axm_sfn.Encoding.{put_uint64}
use axm_sfn.Encoding.LittleEndian.{length-put_uint64, put_uint64_injective}
use axm_sfn.Tpm.{QuoteResult, or_empty, derive_quote_nonce, qualifying_data}
use axm_sfn.Tpm.Device.{Reply, done, refused, Device, succeeded}
use axm_sfn.Tpm.Worker.{Worker, quote_of, quote}

-- A packet's place, as a quote is derived from it: the session's nonce, the packet's SHA-256, the hash of
-- the packet before and the sequence number.
pub record Place : Type 0 where
  pub session_nonce : Bytes
  pub packet_sha256 : Bytes
  pub prev_hash : Option Bytes
  pub seq : ℕ

-- The sizes that the packetizer's values have.
pub record IsSized (p : Place) : Type 0 where
  pub nonce_size : length p.session_nonce ≡ 32
  pub sha_size : length p.packet_sha256 ≡ 32
  pub seq_fits : p.seq < 2 ^ 64

-- One place, up to the difference of no hash before and an empty one.
pub record SamePlace (p q : Place) : Type 0 where
  pub nonce_eq : p.session_nonce ≡ q.session_nonce
  pub sha_eq : p.packet_sha256 ≡ q.packet_sha256
  pub prev_eq : or_empty p.prev_hash ≡ or_empty q.prev_hash
  pub seq_eq : p.seq ≡ q.seq

quote_of-nonce :
    {D : Type 0} (nonce : Bytes) (answer : Reply (Bytes × Bytes) × D) (after : D) (r : QuoteResult)
    → quote_of nonce answer ≡ (succeeded r, after)
    → r.nonce ≡ nonce
quote_of-nonce nonce (refused rc, d) after r e = absurd (ground arith)
quote_of-nonce nonce (done (attest, sig), d) after r e = ground arith

module _ (sha256 : Bytes → Bytes) (size : (x : Bytes) → length (sha256 x) ≡ 32) where
  abbrev pub nonce_of : Place → Bytes
  nonce_of p = derive_quote_nonce sha256 p.session_nonce p.packet_sha256 p.prev_hash p.seq

  preimage : Place → Bytes
  preimage p = p.session_nonce ++ (p.packet_sha256 ++ (put_uint64 p.seq ++ or_empty p.prev_hash))

  preimage-SamePlace :
      (p q : Place) → IsSized p → IsSized q → preimage p ≡ preimage q → SamePlace p q
  unfolding preimage
  preimage-SamePlace p q u v e =
      let a = append_cancel p.session_nonce q.session_nonce (u.nonce_size ∙ sym v.nonce_size) e in
      let b = append_cancel p.packet_sha256 q.packet_sha256 (u.sha_size ∙ sym v.sha_size) a.1 in
      let c =
        append_cancel (put_uint64 p.seq) (put_uint64 q.seq)
          (length-put_uint64 p.seq ∙ sym (length-put_uint64 q.seq)) b.1 in
      record {
        nonce_eq = a.0;
        sha_eq = b.0;
        prev_eq = c.1;
        seq_eq = put_uint64_injective p.seq q.seq u.seq_fits v.seq_fits c.0;
      }

  nonce_of-SamePlace :
      (p q : Place)
      → IsSized p
      → IsSized q
      → nonce_of p ≡ nonce_of q
      → SamePlace p q ⊎ Collision sha256
  unfolding derive_quote_nonce preimage
  nonce_of-SamePlace p q u v e = elim (same_input sha256 (preimage p) (preimage q) e) [
    | inl same ↦ inl (preimage-SamePlace p q u v same)
    | inr c ↦ inr c
  ]

  qualifying_data_whole : (p : Place) → qualifying_data (nonce_of p) ≡ nonce_of p
  unfolding qualifying_data derive_quote_nonce
  qualifying_data_whole p = rw (le→ltb 64 (length (nonce_of p)) (omega (arith, size (preimage p))))

  module _ {D : Type 0} (dev : Device D) (w : Worker) where
    quote-nonce :
        (nonce : Bytes) (d after : D) (r : QuoteResult)
        → quote dev w nonce d ≡ (succeeded r, after)
        → r.nonce ≡ qualifying_data nonce
    unfolding quote
    quote-nonce nonce d after r e = quote_of-nonce {D = D} (qualifying_data nonce) _ after r e

    -- Two quotes of a worker, on whatever device, that were asked for at two places of these sizes and
    -- came back with one nonce were asked for at the same place, or SHA-256 collides.
    pub quote-SamePlace :
        (p q : Place) (dp dq after_p after_q : D) (rp rq : QuoteResult)
        → IsSized p
        → IsSized q
        → quote dev w (nonce_of p) dp ≡ (succeeded rp, after_p)
        → quote dev w (nonce_of q) dq ≡ (succeeded rq, after_q)
        → rp.nonce ≡ rq.nonce
        → SamePlace p q ⊎ Collision sha256
    quote-SamePlace p q dp dq after_p after_q rp rq u v ep eq same = nonce_of-SamePlace p q u v (
        sym (qualifying_data_whole p)
        ∙ sym (quote-nonce (nonce_of p) dp after_p rp ep)
        ∙ same
        ∙ quote-nonce (nonce_of q) dq after_q rq eq
        ∙ qualifying_data_whole q)
