-- ===== src/Custody/Threads.antt =====
-- internal/custody/packetizer.go: onTick one statement of the database at a time.
pub mod Whole
use axm_sfn.Common.{
  ℕ, ◌+◌, ◌%◌, ◌^◌, ◌≡◌, refl, ◌∙◌, false, ◌&&◌, Option, none, some, Bool-cases, inl, inr,
  if◌then◌else◌,
}
use axm_sfn.Common.Int.{pos, incr, ltb_ℤ}
use axm_sfn.Common.Text.{Bytes}
use axm_sfn.Floats.{Float64}
use axm_sfn.Concurrency.{Thread, returns, calls, run_thread}
use axm_sfn.HotBuffer.Tables.{Buffer, Result, ok, err}
use axm_sfn.HotBuffer.Writes.{write_packet, set_tpm_sig, record_provenance_fault, write_quote}
use axm_sfn.Moonraker.State.{is_active}
use axm_sfn.Policy.{evaluate}
use axm_sfn.Telemetry.{Decision}
use axm_sfn.Tpm.{QuoteResult, derive_quote_nonce}
use axm_sfn.Custody.State.{Packetizer, Hashes, TickEnv, compute_packet_blake3}
use axm_sfn.Custody.Delta.{Unmarshal, apply_delta}
use axm_sfn.Custody.Tick.{
  silence_reason, decision_of, should_quote, ensure_session, count_silence, build_packet, quote_row,
  packet_row, quoted, store_quote, maybe_quote, backfill, finish, write_tick, seal_tick, snapshot,
  judge_tick, record_tick, on_tick,
}
use axm_sfn.Custody.Run.{Event, delta, tick, handle}

module _ {F : Type 0} (env : TickEnv F) where
  unfoldable pub backfill_thread :
      ℕ → ℕ → Option Bytes → Packetizer F → Thread Buffer (Packetizer F)
  backfill_thread row_id quote_id none p = returns p
  backfill_thread row_id quote_id (some sig) p =
      calls (set_tpm_sig env.sig_up row_id (some sig) quote_id) (λ r. returns p)

  unfoldable pub finish_thread :
      Bytes → ℕ → Option Bytes → Packetizer F → Result ℕ → Thread Buffer (Packetizer F)
  unfolding backfill_thread
  finish_thread link quote_id sig p (err e) = returns p
  finish_thread link quote_id sig p (ok row_id) =
      backfill_thread row_id quote_id sig
        (record p { prev_blake3 = some link; seq = (p.seq + 1) % 2 ^ 64 })

  -- From the signature to the end of onTick.
  unfoldable pub write_thread :
      Hashes → Option Decision → Bytes → ℕ → Packetizer F → Thread Buffer (Packetizer F)
  unfolding finish_thread
  write_thread h decision canonical quote_id p =
      let sig = if p.has_tpm then env.tpm_sign canonical else none in
      let link = compute_packet_blake3 h.blake3 p.seq p.session_id canonical sig p.prev_blake3 in
      calls (write_packet env.packet_up (packet_row h env decision canonical link p))
        (finish_thread link quote_id sig p)

  -- The optional quote, and what comes after it.
  unfoldable pub quoted_thread :
      (ℕ → Packetizer F → Thread Buffer (Packetizer F))
      → Packetizer F
      → Result ℕ
      → Thread Buffer (Packetizer F)
  quoted_thread go p (err e) = go p.last_quote_id p
  quoted_thread go p (ok qid) =
      go qid
        (record p { last_quote_id = qid; last_quote_at = some env.tick; immediate_quote = false })

  unfoldable pub store_thread :
      (ℕ → Packetizer F → Thread Buffer (Packetizer F))
      → Packetizer F
      → Option QuoteResult
      → Thread Buffer (Packetizer F)
  unfolding quoted_thread
  store_thread go p none = go p.last_quote_id p
  store_thread go p (some qr) =
      calls (write_quote env.quote_up env.now (quote_row p qr)) (quoted_thread go p)

  unfoldable pub quote_thread :
      (ℕ → Packetizer F → Thread Buffer (Packetizer F))
      → Hashes
      → Bytes
      → Packetizer F
      → Thread Buffer (Packetizer F)
  unfolding store_thread
  quote_thread go h sha p =
      if p.has_tpm && should_quote env.now p
      then store_thread go p
          (env.tpm_quote (derive_quote_nonce h.sha256 p.session_nonce sha p.prev_blake3 p.seq))
      else go p.last_quote_id p

  unfoldable pub seal_thread :
      Hashes → Option Decision → Packetizer F → Option Bytes → Thread Buffer (Packetizer F)
  unfolding quote_thread write_thread
  seal_thread h decision p none = returns p
  seal_thread h decision p (some canonical) =
      quote_thread (write_thread h decision canonical) h (h.sha256 canonical) p

module _ {F : Type 0} ⦃fl : Float64 F⦄ (h : Hashes) where
  -- From the policy's verdict on.
  unfoldable pub judge_thread : TickEnv F → Packetizer F → Thread Buffer (Packetizer F)
  unfolding seal_thread
  judge_thread env p =
      let (verdict, policy) = evaluate p.policy (snapshot p) in
      let p' = record p { policy = policy } in
      seal_thread env h (decision_of verdict) p'
        (env.marshal (build_packet env (decision_of verdict) p'))

  -- The silence counter, and what comes after it.
  unfoldable pub silence_thread : TickEnv F → Packetizer F → Thread Buffer (Packetizer F)
  unfolding judge_thread
  silence_thread env p =
      let n = incr p.silent_ticks in
      if ltb_ℤ p.cfg.max_silent_ticks n
      then calls (record_provenance_fault env.fault_up env.now p.session_id p.seq silence_reason)
          (λ r. judge_thread env (record p { silent_ticks = pos 0 }))
      else judge_thread env (record p { silent_ticks = n })

  -- `onTick`
  unfoldable pub tick_thread : TickEnv F → Packetizer F → Thread Buffer (Packetizer F)
  unfolding silence_thread
  tick_thread env p =
      if is_active p.state then silence_thread env (ensure_session env p) else returns p

  -- A case of the select. A delta touches no table.
  unfoldable pub event_thread :
      {Raw : Type 0} → Unmarshal Raw F → Event Raw F → Packetizer F → Thread Buffer (Packetizer F)
  unfolding tick_thread
  event_thread decode (delta seed status) p =
      returns (record (apply_delta decode seed status p) { silent_ticks = pos 0 })
  event_thread decode (tick env) p = tick_thread env p
