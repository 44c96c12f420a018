-- ===== src/Custody/Bound.antt =====
-- internal/custody/packetizer.go: the packet that a quote is about (docs/STREAM_FORMAT.md, Quote binding).
pub mod Ticks
use axm_sfn.Common.{
  ℕ, suc, ◌≡◌, ◌≢◌, ◌<◌, ◌^◌, ◌+◌, ◌%◌, refl, sym, ap, ◌∙◌, subst, Bool, true, false, ◌&&◌, List,
  [], ◌∷◌, Option, none, some, arith, lt→leb, Bool-cases, if◌then◌else◌,
}
use axm_sfn.Common.Int.{ℤ}
use axm_sfn.Common.Text.{Bytes}
use axm_sfn.Encoding.{hex_encode}
use axm_sfn.Floats.{Float64}
use axm_sfn.HotBuffer.Tables.{Packet, PacketRow, Quote, QuoteRow, Buffer}
use axm_sfn.HotBuffer.Writes.{
  int64_limit, hex_or_nil, has_packet, insert_packet, write_packet, write_quote,
  record_provenance_fault,
}
use axm_sfn.HotBuffer.Invariant.{IsValid}
use axm_sfn.HotBuffer.Statements.{record_provenance_fault-IsValid}
use axm_sfn.HotBuffer.Outcomes.{packets-record_provenance_fault}
use axm_sfn.Moonraker.State.{is_active}
use axm_sfn.Policy.{evaluate}
use axm_sfn.Telemetry.{Decision, CustodyPacket}
use axm_sfn.Tpm.{QuoteResult, derive_quote_nonce}
use axm_sfn.Custody.State.{Packetizer, Hashes, TickEnv}
use axm_sfn.Custody.Tick.{
  silence_reason, count_silence, should_quote, quoted, store_quote, maybe_quote, finish, write_tick,
  seal_tick, judge_tick, on_tick, anomaly_of, decision_of, build_packet, snapshot,
}
use axm_sfn.Custody.Places.{write_packet-ok}
use axm_sfn.Custody.Written.{row, stored_row, tick_link}
use axm_sfn.Custody.Recorded.{backfill-packets, seq-count_silence}
use axm_sfn.Custody.Silence.{same_session}
use axm_sfn.Custody.Cadence.{count_silence-cases, write_tick-SameQuotes}

-- The TPM quotes over the nonce that it is given.
abbrev pub QuotesNonce : {F : Type 0} → TickEnv F → Type 0
QuotesNonce env =
    (nonce : Bytes) → (qr : QuoteResult) × (env.tpm_quote nonce ≡ some qr) × (qr.nonce ≡ nonce)

-- A new packet and a new quote of one session and place, and the quote's nonce is made of the packet's
-- digest, of the one before it in the chain and of the session's nonce.
pub record IsBound (h : Hashes) (session_nonce : Bytes) (prev : Option Bytes) (b b' : Buffer)
    : Type 0 where
  pub quote : Quote
  pub packet : Packet
  pub quotes : b'.quotes ≡ quote ∷ b.quotes
  pub packets : b'.packets ≡ packet ∷ b.packets
  pub session : quote.row.session_id ≡ packet.session_id
  pub place : quote.row.seq ≡ packet.seq
  pub digest : packet.packet_sha256 ≡ hex_encode (h.sha256 packet.telemetry_json)
  pub before : packet.prev_packet_blake3 ≡ hex_or_nil prev
  pub nonce :
      quote.row.nonce
      ≡ derive_quote_nonce h.sha256 session_nonce (h.sha256 packet.telemetry_json) prev packet.seq

-- Steps before it that leave both tables alone make no difference.
pub IsBound-counted :
    (h : Hashes) (session_nonce : Bytes) (prev : Option Bytes) (b c d : Buffer)
    → c.quotes ≡ b.quotes
    → c.packets ≡ b.packets
    → IsBound h session_nonce prev c d
    → IsBound h session_nonce prev b d
IsBound-counted h session_nonce prev b c d quotes packets k = record {
  quote = k.quote;
  packet = k.packet;
  quotes = k.quotes ∙ ap (λ l. k.quote ∷ l) quotes;
  packets = k.packets ∙ ap (λ l. k.packet ∷ l) packets;
  session = k.session;
  place = k.place;
  digest = k.digest;
  before = k.before;
  nonce = k.nonce;
}

module _ (h : Hashes) {F : Type 0} where
  -- The tables and the packetizer behind a quote.
  abbrev with_quote : TickEnv F → QuoteResult → Packetizer F → Buffer → ℕ × Packetizer F × Buffer
  with_quote env qr p b = (
    b.next_quote,
    record p {
      last_quote_id = b.next_quote;
      last_quote_at = some env.tick;
      immediate_quote = false;
    },
    record b {
      quotes =
          record {
            id = b.next_quote;
            row = record {
              session_id = p.session_id;
              seq = p.seq;
              pcrs = p.cfg.pcrs;
              nonce = qr.nonce;
              attest_blob = qr.attest_blob;
              sig = qr.sig;
              ak_handle = p.cfg.ak_handle;
            };
            created_at = env.now;
          }
          ∷ b.quotes;
      next_quote = suc b.next_quote;
    },
  )

  taken_quote :
      (env : TickEnv F) (sha : Bytes) (p : Packetizer F) (b : Buffer) (qr : QuoteResult)
      → (p.has_tpm && should_quote env.now p) ≡ true
      → env.tpm_quote (derive_quote_nonce h.sha256 p.session_nonce sha p.prev_blake3 p.seq)
        ≡ some qr
      → env.quote_up ≡ true
      → p.seq < 2 ^ 63
      → maybe_quote h env sha p b ≡ with_quote env qr p b
  unfolding maybe_quote store_quote write_quote quoted
  taken_quote env sha p b qr due answer up small =
      rw (due, answer, up, lt→leb int64_limit p.seq small)

  -- What the write behind a quote leaves.
  written_packet :
      (env : TickEnv F) (d : Option Decision) (text : Bytes) (qr : QuoteResult) (p : Packetizer F)
      (b : Buffer)
      → qr.nonce ≡ derive_quote_nonce h.sha256 p.session_nonce (h.sha256 text) p.prev_blake3 p.seq
      → env.packet_up ≡ true
      → p.seq < 2 ^ 63
      → has_packet p.session_id p.seq b.packets ≡ false
      → IsValid b
      → let (q, p', b') = with_quote env qr p b in
        IsBound h p.session_nonce p.prev_blake3 b (write_tick h env d text q p' b').1
  unfolding write_tick insert_packet finish
  written_packet env d text qr p b over up small free v =
      let (q, p', b') = with_quote env qr p b in
      let sig = if p.has_tpm then env.tpm_sign text else none in
      let r = row h env (anomaly_of d) text sig p' b' in
      let stored = stored_row h env (anomaly_of d) text p' (tick_link h text sig p') none none b' in
      let (signed, named, grown) =
        backfill-packets env q sig stored b (insert_packet r b') refl v refl in
      let kept = write_tick-SameQuotes h env d text q p' b' in
      let written = ap (λ u. write_packet u r b') up ∙ write_packet-ok r b' small free in
      record {
        quote = _;
        packet = record stored { tpm_sig = signed; quote_ref = named };
        quotes = kept.quotes;
        packets =
            ap (λ w. (finish env (tick_link h text sig p') q sig p' w).1.packets) written ∙ grown;
        session = refl;
        place = refl;
        digest = refl;
        before = refl;
        nonce = over;
      }

  pub seal_tick-IsBound :
      (env : TickEnv F) (d : Option Decision) (text : Bytes) (canonical : Option Bytes)
      (p : Packetizer F) (b : Buffer)
      → canonical ≡ some text
      → (p.has_tpm && should_quote env.now p) ≡ true
      → QuotesNonce env
      → env.quote_up ≡ true
      → env.packet_up ≡ true
      → p.seq < 2 ^ 63
      → has_packet p.session_id p.seq b.packets ≡ false
      → IsValid b
      → IsBound h p.session_nonce p.prev_blake3 b (seal_tick h env d canonical p b).1
  unfolding seal_tick
  seal_tick-IsBound env d text canonical p b encoded due answers quote_up up small free v =
      let sha = h.sha256 text in
      let (qr, answer, over) =
        answers (derive_quote_nonce h.sha256 p.session_nonce sha p.prev_blake3 p.seq) in
      rw encoded (
        subst
          (λ r. IsBound h p.session_nonce p.prev_blake3 b (write_tick h env d text r.0 r.1 r.2).1)
          (sym (taken_quote env sha p b qr due answer quote_up small))
          (written_packet env d text qr p b over up small free v))
