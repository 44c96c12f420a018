-- ===== src/Custody/Quoted/Runs.antt =====
-- internal/custody/packetizer.go: the quotes that packets name, over a run.
use axm_sfn.Common.{
  ℕ, ◌≡◌, Bool, ◌&&◌, List, [], ◌∷◌, Option, none, some, inl, inr, Bool-cases, arith,
}
use axm_sfn.Common.Int.{ltb_ℤ, incr}
use axm_sfn.Common.Text.{Bytes, bytes_eq}
use axm_sfn.Floats.{Float64}
use axm_sfn.HotBuffer.Tables.{Buffer}
use axm_sfn.HotBuffer.Writes.{record_provenance_fault}
use axm_sfn.HotBuffer.Statements.{record_provenance_fault-IsValid}
use axm_sfn.HotBuffer.Outcomes.{packets-record_provenance_fault}
use axm_sfn.Moonraker.State.{Status, is_active}
use axm_sfn.Custody.State.{Packetizer, Hashes, Seed, TickEnv, start_new_session}
use axm_sfn.Custody.Delta.{
  Unmarshal, begins_print, detect_lifecycle_edge, StatusObject, object_of, put_chamber,
  apply_object, apply_delta,
}
use axm_sfn.Custody.Tick.{silence_reason, ensure_session, count_silence, judge_tick, on_tick}
use axm_sfn.Custody.Run.{Event, delta, tick, handle, run}
use axm_sfn.Custody.Quoted.{IsQuoted, IsQuoted-none, Quoted}
use axm_sfn.Custody.Quoted.Sealed.{seal_tick-Quoted}

quotes-record_provenance_fault :
    (up : Bool) (now : ℕ) (session : Bytes) (seq : ℕ) (reason : Bytes) (b : Buffer)
    → (record_provenance_fault up now session seq reason b).1.quotes ≡ b.quotes
unfolding record_provenance_fault
quotes-record_provenance_fault up now session seq reason b = ground arith

module _ {F : Type 0} where
  start_new_session-Quoted :
      (seed : Seed) (p : Packetizer F) (b : Buffer)
      → Quoted (p, b)
      → Quoted (start_new_session seed p, b)
  unfolding start_new_session
  start_new_session-Quoted seed p b i = IsQuoted-none _ 0 i

  ensure_session-Quoted :
      (env : TickEnv F) (p : Packetizer F) (b : Buffer)
      → Quoted (p, b)
      → Quoted (ensure_session env p, b)
  unfolding ensure_session
  ensure_session-Quoted env p b i = elim (Bool-cases (bytes_eq p.session_id [])) [
    | inl e ↦ rw e (start_new_session-Quoted env.seed p b i)
    | inr n ↦ rw n i
  ]

  count_silence-Quoted :
      (env : TickEnv F) (p : Packetizer F) (b : Buffer)
      → Quoted (p, b)
      → Quoted (count_silence env p b)
  unfolding count_silence
  count_silence-Quoted env p b i =
      let same =
        packets-record_provenance_fault env.fault_up env.now p.session_id p.seq silence_reason b in
      let quotes =
        quotes-record_provenance_fault env.fault_up env.now p.session_id p.seq silence_reason b in
      elim (Bool-cases (ltb_ℤ p.cfg.max_silent_ticks (incr p.silent_ticks))) [
        | inl e ↦ rw e (record {
          valid =
              record_provenance_fault-IsValid env.fault_up env.now p.session_id p.seq silence_reason
                b i.valid;
          rows = rw (same, quotes) i.rows;
          current = rw quotes i.current;
        })
        | inr n ↦ rw n i
      ]

  detect_lifecycle_edge-Quoted :
      (seed : Seed) (prev next : Bytes) (p : Packetizer F) (b : Buffer)
      → Quoted (p, b)
      → Quoted (detect_lifecycle_edge seed prev next p, b)
  unfolding detect_lifecycle_edge
  detect_lifecycle_edge-Quoted seed prev next p b i =
      let started = start_new_session-Quoted seed p b i in
      elim (Bool-cases (bytes_eq prev next)) [
        | inl e ↦ rw e i
        | inr n ↦ elim (Bool-cases (begins_print prev next)) [
          | inl e ↦ elim (Bool-cases (p.cfg.quote_on_lifecycle && p.has_tpm)) [
            | inl q ↦ rw (n, e, q) started
            | inr q ↦ rw (n, e, q) started
          ]
          | inr e ↦ elim (Bool-cases (p.cfg.quote_on_lifecycle && p.has_tpm)) [
            | inl q ↦ rw (n, e, q) i
            | inr q ↦ rw (n, e, q) i
          ]
        ]
      ]

  put_chamber-Quoted :
      (o : Option F) (p : Packetizer F) (b : Buffer) → Quoted (p, b) → Quoted (put_chamber o p, b)
  put_chamber-Quoted none p b i = i
  put_chamber-Quoted (some t) p b i = i

module _ {Raw F : Type 0} (decode : Unmarshal Raw F) where
  apply_object-Quoted :
      (seed : Seed) (obj : StatusObject) (raw : Raw) (p : Packetizer F) (b : Buffer)
      → Quoted (p, b)
      → Quoted (apply_object decode seed obj raw p, b)
  unfolding apply_object
  apply_object-Quoted seed StatusObject.print_stats raw p b i =
      detect_lifecycle_edge-Quoted seed _ _ _ b i
  apply_object-Quoted seed StatusObject.chamber raw p b i =
      put_chamber-Quoted (decode.chamber raw) p b i
  apply_object-Quoted seed _ raw p b i = i

  apply_delta-Quoted :
      (seed : Seed) (status : Status Raw) (p : Packetizer F) (b : Buffer)
      → Quoted (p, b)
      → Quoted (apply_delta decode seed status p, b)
  unfolding apply_delta
  apply_delta-Quoted seed [] p b i = i
  apply_delta-Quoted seed ((obj, raw) ∷ rest) p b i =
      apply_delta-Quoted seed rest (apply_object decode seed (object_of obj) raw p) b
        (apply_object-Quoted seed (object_of obj) raw p b i)

module _ {Raw F : Type 0} ⦃fl : Float64 F⦄ (h : Hashes) (decode : Unmarshal Raw F) where
  judge_tick-Quoted :
      (env : TickEnv F) (p : Packetizer F) (b : Buffer)
      → Quoted (p, b)
      → Quoted (judge_tick h env p b)
  unfolding judge_tick
  judge_tick-Quoted env p b i = seal_tick-Quoted h env _ _ _ b i

  handle-Quoted :
      (e : Event Raw F) (p : Packetizer F) (b : Buffer)
      → Quoted (p, b)
      → Quoted (handle h decode e p b)
  unfolding handle on_tick
  handle-Quoted (delta seed status) p b i = apply_delta-Quoted decode seed status p b i
  handle-Quoted (tick env) p b i = elim (Bool-cases (is_active p.state)) [
    | inl e ↦
        rw e (
          judge_tick-Quoted env _ _
            (count_silence-Quoted env _ b (ensure_session-Quoted env p b i)))
    | inr n ↦ rw n i
  ]

  -- Whatever deltas and ticks come, and whichever quotes, signatures and statements fail: on valid tables
  -- in which a packet has a signature just where it names a quote, one of its own session, taken at its
  -- place or before, and with a packetizer whose last quote is none or such a one, the tables and the
  -- packetizer stay so. No signature is ever stored with a quote of another session, nor without one.
  pub run-IsQuoted :
      (es : List (Event Raw F)) (p : Packetizer F) (b : Buffer)
      → IsQuoted p.last_quote_id p.session_id p.seq b
      → let (p', b') = run h decode es p b in IsQuoted p'.last_quote_id p'.session_id p'.seq b'
  unfolding run
  run-IsQuoted [] p b i = i
  run-IsQuoted (e ∷ es) p b i =
      run-IsQuoted es (handle h decode e p b).0 (handle h decode e p b).1 (handle-Quoted e p b i)
