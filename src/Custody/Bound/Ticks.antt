-- ===== src/Custody/Bound/Ticks.antt =====
-- internal/custody/packetizer.go: onTick, where a quote is due.
use axm_sfn.Common.{
  inl, inr, ◌≡◌, ◌≢◌, ◌<◌, ◌^◌, sym, ap, ◌∙◌, subst, true, false, ◌&&◌, [], some, Bool-cases,
}
use axm_sfn.Common.Int.{ltb_ℤ, incr}
use axm_sfn.Common.Text.{Bytes}
use axm_sfn.Floats.{Float64}
use axm_sfn.HotBuffer.Tables.{Buffer}
use axm_sfn.HotBuffer.Writes.{has_packet}
use axm_sfn.HotBuffer.Invariant.{IsValid}
use axm_sfn.HotBuffer.Statements.{record_provenance_fault-IsValid}
use axm_sfn.Moonraker.State.{is_active}
use axm_sfn.Policy.{evaluate}
use axm_sfn.Telemetry.{CustodyPacket}
use axm_sfn.Custody.State.{Packetizer, Hashes, TickEnv}
use axm_sfn.Custody.Tick.{
  silence_reason, count_silence, should_quote, judge_tick, on_tick, decision_of, build_packet,
  snapshot,
}
use axm_sfn.Custody.Recorded.{seq-count_silence}
use axm_sfn.Custody.Silence.{same_session}
use axm_sfn.Custody.Cadence.{count_silence-cases}
use axm_sfn.Custody.Bound.{QuotesNonce, IsBound, IsBound-counted, seal_tick-IsBound}

module _ (h : Hashes) {F : Type 0} ⦃fl : Float64 F⦄ where
  judge_tick-IsBound :
      (env : TickEnv F) (p : Packetizer F) (b : Buffer)
      → (p.has_tpm && should_quote env.now p) ≡ true
      → QuotesNonce env
      → ((pkt : CustodyPacket F) → (text : Bytes) × (env.marshal pkt ≡ some text))
      → env.quote_up ≡ true
      → env.packet_up ≡ true
      → p.seq < 2 ^ 63
      → has_packet p.session_id p.seq b.packets ≡ false
      → IsValid b
      → IsBound h p.session_nonce p.prev_blake3 b (judge_tick h env p b).1
  unfolding judge_tick should_quote
  judge_tick-IsBound env p b due answers encodes quote_up up small free v =
      let (verdict, policy) = evaluate p.policy (snapshot p) in
      let q = record p { policy = policy } in
      let d = decision_of verdict in
      let (text, encoded) = encodes (build_packet env d q) in
      seal_tick-IsBound h env d text _ q b encoded due answers quote_up up small free v

  count_silence-IsValid :
      (env : TickEnv F) (p : Packetizer F) (b : Buffer)
      → IsValid b
      → IsValid (count_silence env p b).1
  unfolding count_silence
  count_silence-IsValid env p b v =
      elim (Bool-cases (ltb_ℤ p.cfg.max_silent_ticks (incr p.silent_ticks))) [
        | inl e ↦ rw e (
            record_provenance_fault-IsValid env.fault_up env.now p.session_id p.seq silence_reason b
              v)
        | inr n ↦ rw n v
      ]

  -- On a tick of an active print in a started session in which a quote is due, with a TPM that quotes
  -- over the nonce it is given, a packet that encodes, a database that takes both rows, valid tables
  -- and a free place: the tick adds one packet and one quote of the same session and place, and the
  -- quote's nonce is the hash of the session's nonce, the digest of the packet's stored document, its
  -- place and the hash before it in the chain.
  pub on_tick-IsBound :
      (env : TickEnv F) (p : Packetizer F) (b : Buffer)
      → is_active p.state ≡ true
      → p.session_id ≢ []
      → (p.has_tpm && should_quote env.now p) ≡ true
      → QuotesNonce env
      → ((pkt : CustodyPacket F) → (text : Bytes) × (env.marshal pkt ≡ some text))
      → env.quote_up ≡ true
      → env.packet_up ≡ true
      → p.seq < 2 ^ 63
      → has_packet p.session_id p.seq b.packets ≡ false
      → IsValid b
      → IsBound h p.session_nonce p.prev_blake3 b (on_tick h env p b).1
  unfolding on_tick should_quote
  on_tick-IsBound env p b active started due answers encodes quote_up up small free v =
      let (n, c, counted, quotes) = count_silence-cases env p b in
      let packets = ap (λ r. r.1.packets) (sym counted) ∙ (seq-count_silence h env p b).1 in
      let valid = subst (λ r. IsValid r.1) counted (count_silence-IsValid env p b v) in
      let q = record p { silent_ticks = n } in
      rw (active, same_session h env p started, counted)
        (IsBound-counted h p.session_nonce p.prev_blake3 b c (judge_tick h env q c).1 quotes packets
          (judge_tick-IsBound env q c due answers encodes quote_up up small
            (ap (has_packet p.session_id p.seq) packets ∙ free) valid))
