-- ===== src/Custody/Tick.antt =====
-- internal/custody/packetizer.go: onTick and shouldQuote.
use axm_sfn.Common.{
  ℕ, ◌+◌, ◌%◌, ◌^◌, Bool, true, false, not, ◌&&◌, [], Option, none, some, if◌then◌else◌,
}
use axm_sfn.Common.Int.{ℤ, pos, incr, ltb_ℤ, leb_ℤ, sub_ℕ}
use axm_sfn.Common.Text.{Bytes, codes, bytes_eq}
use axm_sfn.Floats.{Float64}
use axm_sfn.HotBuffer.Tables.{PacketRow, QuoteRow, Buffer, Result, ok, err}
use axm_sfn.HotBuffer.Writes.{write_packet, set_tpm_sig, record_provenance_fault, write_quote}
use axm_sfn.Moonraker.State.{is_active}
use axm_sfn.Policy
use axm_sfn.Policy.{evaluate, telemetry_from_custody, null_profile}
use axm_sfn.Telemetry.{Decision, CustodyPacket}
use axm_sfn.Tpm.{QuoteResult, derive_quote_nonce}
use axm_sfn.Custody.State.{Packetizer, Hashes, TickEnv, compute_packet_blake3, start_new_session}

abbrev pub silence_reason : Bytes
silence_reason = codes "printer telemetry silence exceeded threshold"

-- A quote is due at once, for the first time, or after the interval.
unfoldable pub quote_due : ℤ → ℕ → Option ℕ → Bool
quote_due interval now none = true
quote_due interval now (some last) = leb_ℤ interval (sub_ℕ now last)

-- `if verdict.ProfileID != "null"`
abbrev pub decision_of : Policy.Decision → Option Decision
decision_of v =
    if bytes_eq v.profile_id null_profile
    then none
    else some (record { pass = v.pass; profile_id = v.profile_id; violations = v.violations })

-- `decision != nil && !decision.Pass`
abbrev pub anomaly_of : Option Decision → Bool
anomaly_of none = false
anomaly_of (some d) = not d.pass

module _ {F : Type 0} where
  -- `shouldQuote`
  unfoldable pub should_quote : ℕ → Packetizer F → Bool
  unfolding quote_due
  should_quote now p =
      if p.immediate_quote then true else quote_due p.cfg.quote_interval now p.last_quote_at

  -- `if p.sessionID == ""`
  unfoldable pub ensure_session : TickEnv F → Packetizer F → Packetizer F
  ensure_session env p = if bytes_eq p.session_id [] then start_new_session env.seed p else p

  -- The silence counter; an error of the fault table is only logged.
  unfoldable pub count_silence : TickEnv F → Packetizer F → Buffer → Packetizer F × Buffer
  count_silence env p b =
      let n = incr p.silent_ticks in
      if ltb_ℤ p.cfg.max_silent_ticks n
      then (
        record p { silent_ticks = pos 0 },
        (record_provenance_fault env.fault_up env.now p.session_id p.seq silence_reason b).1,
      )
      else (record p { silent_ticks = n }, b)

  -- The packet before hashing and signing.
  unfoldable pub build_packet : TickEnv F → Option Decision → Packetizer F → CustodyPacket F
  build_packet env decision p = record {
    session_id = p.session_id;
    node_label = p.cfg.node_label;
    printer_id = p.cfg.printer_id;
    seq = p.seq;
    tick = env.tick;
    tick_mono_ns = env.mono_ns;
    extruder_temp = p.state.extruder.temperature;
    extruder_target = p.state.extruder.target;
    extruder_power = p.state.extruder.power;
    bed_temp = p.state.heater_bed.temperature;
    bed_target = p.state.heater_bed.target;
    bed_power = p.state.heater_bed.power;
    chamber_temp = p.state.chamber_temp_c;
    chamber_present = p.state.chamber_present;
    live_velocity = p.state.motion_report.live_velocity;
    live_extruder_velocity = p.state.motion_report.live_extruder_velocity;
    live_position = p.state.motion_report.live_position;
    print_state = p.state.print_stats.state;
    filament_used_mm = p.state.print_stats.filament_used;
    print_duration_s = p.state.print_stats.print_duration;
    mcu_version = p.state.mcu.mcu_version;
    mcu_build_versions = p.state.mcu.mcu_build_versions;
    decision = decision;
    anomaly_extruder_thermal = false;
    anomaly_bed_thermal = false;
    anomaly_load_cell = false;
    recovered_from_cache = false;
    prev_packet_blake3 = p.prev_blake3;
    packet_sha256 = none;
    packet_blake3 = none;
    tpm_sig = none;
    quote_ref = p.last_quote_id;
  }

  unfoldable pub quoted : TickEnv F → Packetizer F → Result ℕ × Buffer → ℕ × Packetizer F × Buffer
  quoted env p (err e, b) = (p.last_quote_id, p, b)
  quoted env p (ok qid, b) = (
    qid,
    record p { last_quote_id = qid; last_quote_at = some env.tick; immediate_quote = false },
    b,
  )

  abbrev pub quote_row : Packetizer F → QuoteResult → QuoteRow
  quote_row p qr = record {
    session_id = p.session_id;
    seq = p.seq;
    pcrs = p.cfg.pcrs;
    nonce = qr.nonce;
    attest_blob = qr.attest_blob;
    sig = qr.sig;
    ak_handle = p.cfg.ak_handle;
  }

  unfoldable pub store_quote :
      TickEnv F → Packetizer F → Buffer → Option QuoteResult → ℕ × Packetizer F × Buffer
  unfolding quoted
  store_quote env p b none = (p.last_quote_id, p, b)
  store_quote env p b (some qr) = quoted env p (write_quote env.quote_up env.now (quote_row p qr) b)

  -- The optional quote: the quote's row that the packet will name, and the state after it.
  unfoldable pub maybe_quote :
      Hashes → TickEnv F → Bytes → Packetizer F → Buffer → ℕ × Packetizer F × Buffer
  unfolding store_quote
  maybe_quote h env sha p b =
      if p.has_tpm && should_quote env.now p
      then store_quote env p b
          (env.tpm_quote (derive_quote_nonce h.sha256 p.session_nonce sha p.prev_blake3 p.seq))
      else (p.last_quote_id, p, b)

  -- SetTPMSig where there is a signature; an error is only logged.
  unfoldable pub backfill : TickEnv F → ℕ → ℕ → Option Bytes → Buffer → Buffer
  backfill env row_id quote_id none b = b
  backfill env row_id quote_id (some sig) b =
      (set_tpm_sig env.sig_up row_id (some sig) quote_id b).1

  unfoldable pub finish :
      TickEnv F
      → Bytes
      → ℕ
      → Option Bytes
      → Packetizer F
      → Result ℕ × Buffer
      → Packetizer F × Buffer
  finish env link quote_id sig p (err e, b) = (p, b)
  finish env link quote_id sig p (ok row_id, b) = (
    record p { prev_blake3 = some link; seq = (p.seq + 1) % 2 ^ 64 },
    backfill env row_id quote_id sig b,
  )

  abbrev pub packet_row :
      Hashes → TickEnv F → Option Decision → Bytes → Bytes → Packetizer F → PacketRow
  packet_row h env decision canonical link p = record {
    session_id = p.session_id;
    seq = p.seq;
    tick_utc = env.tick;
    tick_mono_ns = env.mono_ns;
    telemetry_json = canonical;
    anomaly_extruder = anomaly_of decision;
    anomaly_bed = false;
    anomaly_load_cell = false;
    recovered_from_cache = false;
    prev_packet_blake3 = p.prev_blake3;
    packet_sha256 = h.sha256 canonical;
    packet_blake3 = some link;
  }

  -- From the signature to the end of onTick.
  unfoldable pub write_tick :
      Hashes
      → TickEnv F
      → Option Decision
      → Bytes
      → ℕ
      → Packetizer F
      → Buffer
      → Packetizer F × Buffer
  unfolding finish
  write_tick h env decision canonical quote_id p b =
      let sig = if p.has_tpm then env.tpm_sign canonical else none in
      let link = compute_packet_blake3 h.blake3 p.seq p.session_id canonical sig p.prev_blake3 in
      finish env link quote_id sig p
        (write_packet env.packet_up (packet_row h env decision canonical link p) b)

  unfoldable pub seal_tick :
      Hashes
      → TickEnv F
      → Option Decision
      → Option Bytes
      → Packetizer F
      → Buffer
      → Packetizer F × Buffer
  seal_tick h env decision none p b = (p, b)
  seal_tick h env decision (some canonical) p b =
      let (quote_id, p', b') = maybe_quote h env (h.sha256 canonical) p b in
      write_tick h env decision canonical quote_id p' b'

module _ {F : Type 0} ⦃fl : Float64 F⦄ where
  unfoldable pub snapshot : Packetizer F → Policy.Telemetry F
  snapshot p =
      telemetry_from_custody p.state.extruder.temperature p.state.extruder.target
        p.state.extruder.power p.state.heater_bed.temperature p.state.heater_bed.target
        p.state.heater_bed.power p.state.motion_report.live_velocity
        p.state.motion_report.live_extruder_velocity p.state.chamber_temp_c p.state.chamber_present

  -- From the policy's verdict on.
  unfoldable pub judge_tick : Hashes → TickEnv F → Packetizer F → Buffer → Packetizer F × Buffer
  unfolding snapshot
  judge_tick h env p b =
      let (verdict, policy) = evaluate p.policy (snapshot p) in
      let p' = record p { policy = policy } in
      seal_tick h env (decision_of verdict)
        (env.marshal (build_packet env (decision_of verdict) p')) p' b

  unfoldable pub record_tick : Hashes → TickEnv F → Packetizer F → Buffer → Packetizer F × Buffer
  record_tick h env p b =
      let (p', b') = count_silence env (ensure_session env p) b in judge_tick h env p' b'

  -- `onTick`
  unfoldable pub on_tick : Hashes → TickEnv F → Packetizer F → Buffer → Packetizer F × Buffer
  unfolding record_tick
  on_tick h env p b = if is_active p.state then record_tick h env p b else (p, b)
