-- ===== src/Custody/Threads/Whole.antt =====
-- internal/custody/packetizer.go: without interruption the threads are the steps of `on_tick`.
use axm_sfn.Common.{ℕ, ◌≡◌, refl, ◌∙◌, ◌&&◌, Option, none, some, Bool-cases, inl, inr}
use axm_sfn.Common.Int.{incr, ltb_ℤ}
use axm_sfn.Common.Text.{Bytes}
use axm_sfn.Floats.{Float64}
use axm_sfn.Concurrency.{Thread, run_thread}
use axm_sfn.HotBuffer.Tables.{Buffer, Result, ok, err}
use axm_sfn.Moonraker.State.{is_active}
use axm_sfn.Telemetry.{Decision}
use axm_sfn.Tpm.{QuoteResult}
use axm_sfn.Custody.State.{Packetizer, Hashes, TickEnv}
use axm_sfn.Custody.Delta.{Unmarshal}
use axm_sfn.Custody.Tick.{
  should_quote, ensure_session, count_silence, quoted, store_quote, maybe_quote, backfill, finish,
  write_tick, seal_tick, judge_tick, record_tick, on_tick,
}
use axm_sfn.Custody.Run.{Event, delta, tick, handle}
use axm_sfn.Custody.Threads.{
  backfill_thread, finish_thread, write_thread, quoted_thread, store_thread, quote_thread,
  seal_thread, judge_thread, silence_thread, tick_thread, event_thread,
}

module _ {F : Type 0} (env : TickEnv F) where
  run_thread-backfill_thread :
      (row_id quote_id : ℕ) (sig : Option Bytes) (p : Packetizer F) (b : Buffer)
      → run_thread (backfill_thread env row_id quote_id sig p) b
        ≡ (p, backfill env row_id quote_id sig b)
  unfolding backfill_thread backfill run_thread
  run_thread-backfill_thread row_id quote_id none p b = refl
  run_thread-backfill_thread row_id quote_id (some sig) p b = refl

  run_thread-finish_thread :
      (link : Bytes) (quote_id : ℕ) (sig : Option Bytes) (p : Packetizer F) (r : Result ℕ)
      (b : Buffer)
      → run_thread (finish_thread env link quote_id sig p r) b
        ≡ finish env link quote_id sig p (r, b)
  unfolding finish_thread finish run_thread
  run_thread-finish_thread link quote_id sig p (err e) b = refl
  run_thread-finish_thread link quote_id sig p (ok row_id) b =
      run_thread-backfill_thread row_id quote_id sig _ b

  run_thread-write_thread :
      (h : Hashes) (decision : Option Decision) (canonical : Bytes) (quote_id : ℕ)
      (p : Packetizer F) (b : Buffer)
      → run_thread (write_thread env h decision canonical quote_id p) b
        ≡ write_tick h env decision canonical quote_id p b
  unfolding write_thread write_tick run_thread
  run_thread-write_thread h decision canonical quote_id p b =
      run_thread-finish_thread _ quote_id _ p _ _

  -- What comes after the quote.
  abbrev runs_on :
      (ℕ → Packetizer F → Thread Buffer (Packetizer F))
      → ℕ × Packetizer F × Buffer
      → Packetizer F × Buffer
  runs_on go (quote_id, p, b) = run_thread (go quote_id p) b

  module _ (go : ℕ → Packetizer F → Thread Buffer (Packetizer F)) where
    run_thread-quoted_thread :
        (p : Packetizer F) (r : Result ℕ) (b : Buffer)
        → run_thread (quoted_thread env go p r) b ≡ runs_on go (quoted env p (r, b))
    unfolding quoted_thread quoted
    run_thread-quoted_thread p (err e) b = refl
    run_thread-quoted_thread p (ok qid) b = refl

    run_thread-store_thread :
        (p : Packetizer F) (q : Option QuoteResult) (b : Buffer)
        → run_thread (store_thread env go p q) b ≡ runs_on go (store_quote env p b q)
    unfolding store_thread store_quote run_thread
    run_thread-store_thread p none b = refl
    run_thread-store_thread p (some qr) b = run_thread-quoted_thread p _ _

    run_thread-quote_thread :
        (h : Hashes) (sha : Bytes) (p : Packetizer F) (b : Buffer)
        → run_thread (quote_thread env go h sha p) b ≡ runs_on go (maybe_quote h env sha p b)
    unfolding quote_thread maybe_quote
    run_thread-quote_thread h sha p b = elim (Bool-cases (p.has_tpm && should_quote env.now p)) [
      | inl y ↦ rw y (run_thread-store_thread p _ b)
      | inr n ↦ rw n refl
    ]

  run_thread-seal_thread :
      (h : Hashes) (decision : Option Decision) (p : Packetizer F) (text : Option Bytes)
      (b : Buffer)
      → run_thread (seal_thread env h decision p text) b ≡ seal_tick h env decision text p b
  unfolding seal_thread seal_tick run_thread
  run_thread-seal_thread h decision p none b = refl
  run_thread-seal_thread h decision p (some canonical) b =
      let q = maybe_quote h env (h.sha256 canonical) p b in
      run_thread-quote_thread (write_thread env h decision canonical) h (h.sha256 canonical) p b
      ∙ run_thread-write_thread h decision canonical q.0 q.1 q.2

module _ {F : Type 0} ⦃fl : Float64 F⦄ (h : Hashes) where
  run_thread-judge_thread :
      (env : TickEnv F) (p : Packetizer F) (b : Buffer)
      → run_thread (judge_thread h env p) b ≡ judge_tick h env p b
  unfolding judge_thread judge_tick
  run_thread-judge_thread env p b = run_thread-seal_thread env h _ _ _ b

  run_thread-silence_thread :
      (env : TickEnv F) (p : Packetizer F) (b : Buffer)
      → run_thread (silence_thread h env p) b
        ≡ judge_tick h env (count_silence env p b).0 (count_silence env p b).1
  unfolding silence_thread count_silence run_thread
  run_thread-silence_thread env p b =
      elim (Bool-cases (ltb_ℤ p.cfg.max_silent_ticks (incr p.silent_ticks))) [
        | inl y ↦ rw y (run_thread-judge_thread env _ _)
        | inr n ↦ rw n (run_thread-judge_thread env _ _)
      ]

  pub run_thread-tick_thread :
      (env : TickEnv F) (p : Packetizer F) (b : Buffer)
      → run_thread (tick_thread h env p) b ≡ on_tick h env p b
  unfolding tick_thread on_tick record_tick run_thread
  run_thread-tick_thread env p b = elim (Bool-cases (is_active p.state)) [
    | inl y ↦ rw y (run_thread-silence_thread env (ensure_session env p) b)
    | inr n ↦ rw n refl
  ]

  -- Without interruption a thread is what the event does.
  pub run_thread-event_thread :
      {Raw : Type 0} (decode : Unmarshal Raw F) (e : Event Raw F) (p : Packetizer F) (b : Buffer)
      → run_thread (event_thread h decode e p) b ≡ handle h decode e p b
  unfolding event_thread handle run_thread
  run_thread-event_thread decode (delta seed status) p b = refl
  run_thread-event_thread decode (tick env) p b = run_thread-tick_thread env p b
