-- ===== src/Custody/Recorded.antt =====
-- internal/custody/packetizer.go: the packet that a tick is there to write.
use axm_sfn.Common.{
  ℕ, suc, ◌+◌, ◌%◌, ◌^◌, ◌<◌, ◌≡◌, inl, inr, refl, ap, ◌∙◌, true, ◌&&◌, [], ◌∷◌, Option, none, some,
  arith, ==_refl, if◌then◌else◌, Bool-cases,
}
use axm_sfn.Common.Int.{ltb_ℤ, incr}
use axm_sfn.Common.Text.{Bytes, bytes_eq}
use axm_sfn.Floats.{Float64}
use axm_sfn.HotBuffer.Tables.{Packet, Buffer, Result, ok, err}
use axm_sfn.HotBuffer.Writes.{insert_packet, update_sig}
use axm_sfn.HotBuffer.Invariant.{IsValid}
use axm_sfn.HotBuffer.Outcomes.{
  set_tpm_sig-cases, update_sig_older, packets-record_provenance_fault, packets-write_quote,
}
use axm_sfn.Moonraker.State.{is_active}
use axm_sfn.Telemetry.{Decision, CustodyPacket}
use axm_sfn.Tpm.{QuoteResult}
use axm_sfn.Custody.State.{Packetizer, Hashes, TickEnv, start_new_session}
use axm_sfn.Custody.Chain.{IsLedger}
use axm_sfn.Custody.Tick.{
  silence_reason, ensure_session, count_silence, should_quote, quoted, store_quote, maybe_quote,
  backfill, finish, write_tick, seal_tick, judge_tick, on_tick, anomaly_of,
}
use axm_sfn.Custody.Ledger.{
  IsFresh, Open, ensure_session-Open, count_silence-Open, maybe_quote-Open,
}
use axm_sfn.Custody.Written.{row, stored_row, tick_link}
use axm_sfn.Custody.Places.{IsChain-below, free_place, write_packet-ok}

module _ {F : Type 0} where
  -- The tables grow by one packet at the place in the packetizer's session, and the packetizer goes on
  -- to the place behind.
  pub record IsRecorded (place : ℕ) (b : Buffer) (p' : Packetizer F) (b' : Buffer) : Type 0 where
    pub packet : Packet
    pub packets : b'.packets ≡ packet ∷ b.packets
    pub session : packet.session_id ≡ p'.session_id
    pub at : packet.seq ≡ place
    pub next : p'.seq ≡ suc place

  -- The newest row keeps its columns but for the two of SetTPMSig.
  pub backfill-packets :
      (env : TickEnv F) (quote_id : ℕ) (sig : Option Bytes) (r : Packet) (b b' : Buffer)
      → b'.packets ≡ r ∷ b.packets
      → IsValid b
      → r.id ≡ b.next_packet
      → (s : Option Bytes) × (o : Option ℕ) × ((backfill env r.id quote_id sig b').packets
          ≡ record r { tpm_sig = s; quote_ref = o } ∷ b.packets)
  unfolding backfill update_sig
  backfill-packets env quote_id none r b b' e v at = (r.tpm_sig, r.quote_ref, e)
  backfill-packets env quote_id (some sig) r b b' e v at =
      elim (set_tpm_sig-cases env.sig_up r.id (some sig) quote_id b') [
        | inl same ↦ (r.tpm_sig, r.quote_ref, ap (λ (x : Buffer). x.packets) same ∙ e)
        | inr changed ↦ (
          some sig,
          some quote_id,
          ap (λ (x : Buffer). x.packets) changed
              ∙ ap (update_sig r.id (some sig) quote_id) e
              ∙ rw (
                ==_refl r.id,
                update_sig_older r.id (some sig) quote_id b.next_packet b.packets v.packet_keys
                    (omega arith),
              ),
        )
      ]

module _ (h : Hashes) {F : Type 0} where
  write_tick-IsRecorded :
      (env : TickEnv F) (d : Option Decision) (canonical : Bytes) (quote_id : ℕ) (p : Packetizer F)
      (b : Buffer)
      → env.packet_up ≡ true
      → p.seq < 2 ^ 63
      → Open h (p, b)
      → let (p', b') = write_tick h env d canonical quote_id p b in IsRecorded p.seq b p' b'
  unfolding write_tick insert_packet
  write_tick-IsRecorded env d canonical quote_id p b up small o =
      let sig = if p.has_tpm then env.tpm_sign canonical else none in
      let r = row h env (anomaly_of d) canonical sig p b in
      let free =
        free_place p.session_id p.seq b.packets
          (IsChain-below h p.session_id p.seq p.prev_blake3 _ o.chain) in
      let next : (p.seq + 1) % 2 ^ 64 ≡ suc p.seq = omega arith in
      let stored =
        stored_row h env (anomaly_of d) canonical p (tick_link h canonical sig p) none none b in
      let (signed, named, grown) =
        backfill-packets env quote_id sig stored b (insert_packet r b) refl o.ledger.valid refl in
      rw (up, write_packet-ok r b small free, finish, next)
        (record { packet = _; packets = grown; session = refl; at = refl; next = refl })

  seq-quoted :
      (env : TickEnv F) (p : Packetizer F) (r : Result ℕ × Buffer)
      → ((quoted env p r).1.seq ≡ p.seq) × ((quoted env p r).2.packets ≡ r.1.packets)
  unfolding quoted
  seq-quoted env p (ok q, b) = (refl, refl)
  seq-quoted env p (err e, b) = (refl, refl)

  seq-store_quote :
      (env : TickEnv F) (p : Packetizer F) (b : Buffer) (qr : Option QuoteResult)
      → ((store_quote env p b qr).1.seq ≡ p.seq) × ((store_quote env p b qr).2.packets ≡ b.packets)
  unfolding store_quote
  seq-store_quote env p b none = (refl, refl)
  seq-store_quote env p b (some qr) =
      let s = seq-quoted env p _ in (s.0, s.1 ∙ packets-write_quote env.quote_up env.now _ b)

  -- A quote leaves the packetizer's place and the packets alone.
  seq-maybe_quote :
      (env : TickEnv F) (sha : Bytes) (p : Packetizer F) (b : Buffer)
      → ((maybe_quote h env sha p b).1.seq ≡ p.seq)
        × ((maybe_quote h env sha p b).2.packets ≡ b.packets)
  unfolding maybe_quote
  seq-maybe_quote env sha p b = elim (Bool-cases (p.has_tpm && should_quote env.now p)) [
    | inl e ↦ rw e (seq-store_quote env p b _)
    | inr n ↦ rw n (refl, refl)
  ]

  seq-ensure_session :
      (env : TickEnv F) (p : Packetizer F) → p.seq < 2 ^ 63 → (ensure_session env p).seq < 2 ^ 63
  unfolding ensure_session start_new_session
  seq-ensure_session env p small = elim (Bool-cases (bytes_eq p.session_id [])) [
    | inl e ↦ rw e (omega arith)
    | inr n ↦ rw n small
  ]

  -- The silence counter too.
  pub seq-count_silence :
      (env : TickEnv F) (p : Packetizer F) (b : Buffer)
      → ((count_silence env p b).0.seq ≡ p.seq) × ((count_silence env p b).1.packets ≡ b.packets)
  unfolding count_silence
  seq-count_silence env p b =
      elim (Bool-cases (ltb_ℤ p.cfg.max_silent_ticks (incr p.silent_ticks))) [
        | inl e ↦ rw e (
          refl,
          packets-record_provenance_fault env.fault_up env.now p.session_id p.seq silence_reason b,
        )
        | inr n ↦ rw n (refl, refl)
      ]

  -- What was recorded after steps that leave the place and the packets alone was recorded from before.
  IsRecorded-before :
      (m n : ℕ) (p' : Packetizer F) (b c b' : Buffer)
      → n ≡ m
      → c.packets ≡ b.packets
      → IsRecorded n c p' b'
      → IsRecorded m b p' b'
  IsRecorded-before m n p' b c b' same rows r = record {
    packet = r.packet;
    packets = r.packets ∙ ap (◌∷◌ r.packet) rows;
    session = r.session;
    at = r.at ∙ same;
    next = r.next ∙ ap suc same;
  }

  seal_tick-IsRecorded :
      (env : TickEnv F) (d : Option Decision) (canonical : Bytes) (p : Packetizer F) (b : Buffer)
      → env.packet_up ≡ true
      → p.seq < 2 ^ 63
      → Open h (p, b)
      → let (p', b') = seal_tick h env d (some canonical) p b in IsRecorded p.seq b p' b'
  unfolding seal_tick
  seal_tick-IsRecorded env d canonical p b up small o =
      let quote = maybe_quote h env (h.sha256 canonical) p b in
      let kept = seq-maybe_quote env (h.sha256 canonical) p b in
      let after = write_tick h env d canonical quote.0 quote.1 quote.2 in
      IsRecorded-before p.seq quote.1.seq after.0 b quote.2 after.1 kept.0 kept.1 (
        write_tick-IsRecorded env d canonical quote.0 quote.1 quote.2 up (omega (arith, kept.0))
          (maybe_quote-Open h env (h.sha256 canonical) p b o))

  -- json.Marshal succeeds on every packet.
  abbrev pub Marshals : TickEnv F → Type 0
  Marshals env =
      (packet : CustodyPacket F) → (canonical : Bytes) × (env.marshal packet ≡ some canonical)

module _ (h : Hashes) {F : Type 0} ⦃fl : Float64 F⦄ where
  judge_tick-IsRecorded :
      (env : TickEnv F) (p : Packetizer F) (b : Buffer)
      → env.packet_up ≡ true
      → Marshals h env
      → p.seq < 2 ^ 63
      → Open h (p, b)
      → let (p', b') = judge_tick h env p b in IsRecorded p.seq b p' b'
  unfolding judge_tick
  judge_tick-IsRecorded env p b up total small o =
      rw ((total _).1) (seal_tick-IsRecorded h env _ (total _).0 _ b up small o)

  -- A tick of an active print, from a ledger and at a place below 2 ^ 63, with a database that takes the
  -- packet, appends exactly one packet, whatever the silence of the printer and the failures of the
  -- TPM, of the quote's row, of the signature's and of the fault's.
  pub on_tick-IsRecorded :
      (env : TickEnv F) (p : Packetizer F) (b : Buffer)
      → is_active p.state ≡ true
      → env.packet_up ≡ true
      → Marshals h env
      → p.seq < 2 ^ 63
      → IsFresh env.seed b
      → IsLedger h p.session_id p.seq p.prev_blake3 b
      → let (p', b') = on_tick h env p b in IsRecorded (ensure_session env p).seq b p' b'
  unfolding on_tick
  on_tick-IsRecorded env p b active up total small fresh l =
      let q = ensure_session env p in
      let counted = count_silence env q b in
      let kept = seq-count_silence h env q b in
      let after = judge_tick h env counted.0 counted.1 in
      let place : q.seq < 2 ^ 63 = seq-ensure_session h env p small in
      rw active (
        IsRecorded-before h q.seq counted.0.seq after.0 b counted.1 after.1 kept.0 kept.1 (
          judge_tick-IsRecorded env counted.0 counted.1 up total (omega (arith, kept.0))
            (count_silence-Open h env q b (ensure_session-Open h env p b (λ _. fresh) l))))
