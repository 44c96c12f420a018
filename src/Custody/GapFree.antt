-- ===== src/Custody/GapFree.antt =====
-- internal/custody/packetizer.go: the ledger across a tick, a delta and a run.
use axm_sfn.Common.{
  ℕ, suc, ◌+◌, ◌%◌, ◌^◌, ◌≡◌, inl, inr, ◌&&◌, List, [], ◌∷◌, Option, none, some, arith,
  if◌then◌else◌, Bool-cases,
}
use axm_sfn.Common.Text.{Bytes, bytes_eq}
use axm_sfn.Floats.{Float64}
use axm_sfn.HotBuffer.Tables.{Buffer}
use axm_sfn.HotBuffer.Statements.{write_packet-IsValid}
use axm_sfn.HotBuffer.Outcomes.{write_packet-cases}
use axm_sfn.Telemetry.{Decision}
use axm_sfn.Moonraker.State.{is_active}
use axm_sfn.Custody.State.{Packetizer, Hashes, Seed, TickEnv}
use axm_sfn.Custody.Chain.{IsLedger}
use axm_sfn.Custody.Tick.{finish, write_tick, seal_tick, judge_tick, on_tick, anomaly_of}
use axm_sfn.Moonraker.State.{Status}
use axm_sfn.Custody.Delta.{
  Unmarshal, begins_print, detect_lifecycle_edge, StatusObject, object_of, put_chamber,
  apply_object, apply_delta,
}
use axm_sfn.Custody.Run.{Event, delta, tick, handle, run}
use axm_sfn.Custody.Ledger.{
  IsFresh, Ledger, Open, start_new_session-Open, ensure_session-Open, count_silence-Open,
  maybe_quote-Open,
}
use axm_sfn.Custody.Written.{row, backfill-Open}

module _ (h : Hashes) {F : Type 0} where
  -- The rest of onTick keeps the ledger at the packetizer's place.
  write_tick-Open :
      (env : TickEnv F) (d : Option Decision) (canonical : Bytes) (quote_id : ℕ) (p : Packetizer F)
      (b : Buffer)
      → Open h (p, b)
      → Open h (write_tick h env d canonical quote_id p b)
  unfolding write_tick
  write_tick-Open env d canonical quote_id p b o =
      let sig = if p.has_tpm then env.tpm_sign canonical else none in
      let r = row h env (anomaly_of d) canonical sig p b in
      let v = write_packet-IsValid env.packet_up r b o.ledger.valid in
      elim (write_packet-cases env.packet_up r b) [
        | inl (_, e) ↦ rw (e, finish) o
        | inr (e, fits, _) ↦
            let wrap : (p.seq + 1) % 2 ^ 64 ≡ suc p.seq = omega (arith, fits) in
            rw (e, finish, wrap)
              (backfill-Open h env (anomaly_of d) canonical sig p b quote_id (rw e at v) o)
      ]

  seal_tick-Open :
      (env : TickEnv F) (d : Option Decision) (canonical : Option Bytes) (p : Packetizer F)
      (b : Buffer)
      → Open h (p, b)
      → Open h (seal_tick h env d canonical p b)
  unfolding seal_tick
  seal_tick-Open env d none p b o = o
  seal_tick-Open env d (some canonical) p b o =
      write_tick-Open env d canonical _ _ _ (maybe_quote-Open h env (h.sha256 canonical) p b o)

  detect_lifecycle_edge-Ledger :
      (seed : Seed) (prev next : Bytes) (p : Packetizer F) (b : Buffer)
      → IsFresh seed b
      → Ledger h (p, b)
      → Ledger h (detect_lifecycle_edge seed prev next p, b)
  unfolding detect_lifecycle_edge
  detect_lifecycle_edge-Ledger seed prev next p b fresh l =
      let started = (start_new_session-Open h seed p b fresh l).ledger in
      elim (Bool-cases (bytes_eq prev next)) [
        | inl e ↦ rw e l
        | inr n ↦ elim (Bool-cases (begins_print prev next)) [
          | inl e ↦ elim (Bool-cases (p.cfg.quote_on_lifecycle && p.has_tpm)) [
            | inl q ↦ rw (n, e, q) started
            | inr q ↦ rw (n, e, q) started
          ]
          | inr e ↦ elim (Bool-cases (p.cfg.quote_on_lifecycle && p.has_tpm)) [
            | inl q ↦ rw (n, e, q) l
            | inr q ↦ rw (n, e, q) l
          ]
        ]
      ]

module _ (h : Hashes) {Raw F : Type 0} (decode : Unmarshal Raw F) where
  put_chamber-Ledger :
      (o : Option F) (p : Packetizer F) (b : Buffer)
      → Ledger h (p, b)
      → Ledger h (put_chamber o p, b)
  put_chamber-Ledger none p b l = l
  put_chamber-Ledger (some t) p b l = l

  apply_object-Ledger :
      (seed : Seed) (obj : StatusObject) (raw : Raw) (p : Packetizer F) (b : Buffer)
      → IsFresh seed b
      → Ledger h (p, b)
      → Ledger h (apply_object decode seed obj raw p, b)
  unfolding apply_object
  apply_object-Ledger seed StatusObject.print_stats raw p b fresh l =
      detect_lifecycle_edge-Ledger h seed _ _ _ b fresh l
  apply_object-Ledger seed StatusObject.chamber raw p b fresh l =
      put_chamber-Ledger (decode.chamber raw) p b l
  apply_object-Ledger seed _ raw p b fresh l = l

  apply_delta-Ledger :
      (seed : Seed) (status : Status Raw) (p : Packetizer F) (b : Buffer)
      → IsFresh seed b
      → Ledger h (p, b)
      → Ledger h (apply_delta decode seed status p, b)
  unfolding apply_delta
  apply_delta-Ledger seed [] p b fresh l = l
  apply_delta-Ledger seed ((obj, raw) ∷ rest) p b fresh l =
      apply_delta-Ledger seed rest (apply_object decode seed (object_of obj) raw p) b fresh
        (apply_object-Ledger seed (object_of obj) raw p b fresh l)

module _ (h : Hashes) {F : Type 0} ⦃fl : Float64 F⦄ where
  judge_tick-Open :
      (env : TickEnv F) (p : Packetizer F) (b : Buffer)
      → Open h (p, b)
      → Open h (judge_tick h env p b)
  unfolding judge_tick
  judge_tick-Open env p b o = seal_tick-Open h env _ _ _ b o

  on_tick-Ledger :
      (env : TickEnv F) (p : Packetizer F) (b : Buffer)
      → IsFresh env.seed b
      → Ledger h (p, b)
      → Ledger h (on_tick h env p b)
  unfolding on_tick
  on_tick-Ledger env p b fresh l = elim (Bool-cases (is_active p.state)) [
    | inl e ↦
        rw e
          (judge_tick-Open env _ _
            (count_silence-Open h env _ b (ensure_session-Open h env p b (λ _. fresh) l))).ledger
    | inr n ↦ rw n l
  ]

module _ {Raw F : Type 0} ⦃fl : Float64 F⦄ (h : Hashes) (decode : Unmarshal Raw F) where
  -- The random bytes that an event may take are those of no session in the tables.
  abbrev pub seed_of : Event Raw F → Seed
  seed_of (delta seed status) = seed
  seed_of (tick env) = env.seed

  abbrev pub AllFresh : List (Event Raw F) → Packetizer F → Buffer → Type 0
  AllFresh [] p b = Unit
  AllFresh (e ∷ es) p b =
      IsFresh (seed_of e) b × AllFresh es (handle h decode e p b).0 (handle h decode e p b).1

  pub handle-Ledger :
      (e : Event Raw F) (p : Packetizer F) (b : Buffer)
      → IsFresh (seed_of e) b
      → Ledger h (p, b)
      → Ledger h (handle h decode e p b)
  unfolding handle
  handle-Ledger (delta seed status) p b fresh l =
      apply_delta-Ledger h decode seed status p b fresh l
  handle-Ledger (tick env) p b fresh l = on_tick-Ledger h env p b fresh l

  -- Whatever deltas and ticks come, and whichever quotes, signatures and statements fail: if the random
  -- session ids do not repeat, every session in the tables stays a chain of packets whose sequence
  -- numbers are 0, 1, 2, … with no gap, each hashed over its stored bytes and the hash of the one
  -- before, and the packetizer stays at the end of the chain of its session.
  pub run-IsLedger :
      (es : List (Event Raw F)) (p : Packetizer F) (b : Buffer)
      → AllFresh es p b
      → IsLedger h p.session_id p.seq p.prev_blake3 b
      → let (p', b') = run h decode es p b in IsLedger h p'.session_id p'.seq p'.prev_blake3 b'
  unfolding run
  run-IsLedger [] p b fresh l = l
  run-IsLedger (e ∷ es) p b fresh l =
      run-IsLedger es (handle h decode e p b).0 (handle h decode e p b).1 fresh.1
        (handle-Ledger e p b fresh.0 l)
