-- ===== src/Daemon/Idle.antt =====
-- cmd/axm-edge/main.go: what comes of the uploader's session.
use axm_sfn.Common.{
  ℕ, ◌≡◌, inl, inr, refl, ap, ◌∙◌, subst, false, ◌&&◌, List, [], ◌∷◌, ◌++◌, Option, none, some,
  arith, All, Bool-cases, select,
}
use axm_sfn.Common.Text.{Bytes, codes, bytes_eq, bytes_eq→eq}
use axm_sfn.Encoding.Hex.{IsByte, IsHexDigit}
use axm_sfn.Floats.{Float64}
use axm_sfn.HotBuffer.Tables.{Packet, Buffer}
use axm_sfn.HotBuffer.Segments.{is_waiting}
use axm_sfn.Moonraker.State.{Status, is_active}
use axm_sfn.Telemetry.{Decision}
use axm_sfn.Custody.State.{Packetizer, Hashes, Seed, TickEnv}
use axm_sfn.Custody.Delta.{Unmarshal, StatusObject, object_of, apply_object, apply_delta}
use axm_sfn.Custody.Tick.{should_quote, maybe_quote, write_tick, seal_tick, judge_tick, on_tick}
use axm_sfn.Custody.Run.{delta, tick, handle}
use axm_sfn.Uploader.Flush.{Uploader}
use axm_sfn.Uploader.Flush.Outcomes.{flush_idle}
use axm_sfn.Daemon.{DaemonEvent, custody, upload, upload_session, flushed, step, run_daemon}
use axm_sfn.Daemon.Unsent.{Waits, write_packet-IsUnsent}
use axm_sfn.Daemon.Stuck.{
  IsStuck, detect_lifecycle_edge-IsStuck, put_chamber-IsStuck, ensure_session-IsStuck,
  count_silence-IsStuck, store_quote-IsStuck, finish-IsStuck,
}

module _ (h : Hashes) {F : Type 0} where
  maybe_quote-IsStuck :
      (env : TickEnv F) (sha : Bytes) (p : Packetizer F) (b : Buffer)
      → IsStuck p b
      → IsStuck (maybe_quote h env sha p b).1 (maybe_quote h env sha p b).2
  unfolding maybe_quote
  maybe_quote-IsStuck env sha p b s = elim (Bool-cases (p.has_tpm && should_quote env.now p)) [
    | inl e ↦ rw e (store_quote-IsStuck env p b _ s)
    | inr n ↦ rw n s
  ]

  seal_tick-IsStuck :
      (env : TickEnv F) (d : Option Decision) (canonical : Option Bytes) (p : Packetizer F)
      (b : Buffer)
      → IsStuck p b
      → IsStuck (seal_tick h env d canonical p b).0 (seal_tick h env d canonical p b).1
  unfolding seal_tick write_tick
  seal_tick-IsStuck env d none p b s = s
  seal_tick-IsStuck env d (some canonical) p b s =
      let q = maybe_quote-IsStuck env (h.sha256 canonical) p b s in
      finish-IsStuck env _ _ _ _ _ q.hex (write_packet-IsUnsent env.packet_up _ _ q.hex q.unsent)

module _ {Raw F : Type 0} (decode : Unmarshal Raw F) where
  apply_object-IsStuck :
      (seed : Seed) (obj : StatusObject) (raw : Raw) (p : Packetizer F) (b : Buffer)
      → All IsByte seed.id
      → IsStuck p b
      → IsStuck (apply_object decode seed obj raw p) b
  unfolding apply_object
  apply_object-IsStuck seed StatusObject.print_stats raw p b bytes s =
      detect_lifecycle_edge-IsStuck seed _ _ _ b bytes (record { hex = s.hex; unsent = s.unsent })
  apply_object-IsStuck seed StatusObject.chamber raw p b bytes s =
      put_chamber-IsStuck (decode.chamber raw) p b s
  apply_object-IsStuck seed StatusObject.other raw p b bytes s = s
  apply_object-IsStuck seed _ raw p b bytes s = record { hex = s.hex; unsent = s.unsent }

  apply_delta-IsStuck :
      (seed : Seed) (status : Status Raw) (p : Packetizer F) (b : Buffer)
      → All IsByte seed.id
      → IsStuck p b
      → IsStuck (apply_delta decode seed status p) b
  unfolding apply_delta
  apply_delta-IsStuck seed [] p b bytes s = s
  apply_delta-IsStuck seed ((obj, raw) ∷ rest) p b bytes s =
      apply_delta-IsStuck seed rest (apply_object decode seed (object_of obj) raw p) b bytes
        (apply_object-IsStuck seed (object_of obj) raw p b bytes s)

All-back : (P : ℕ → Type 0) (xs ys : Bytes) → All P (xs ++ ys) → All P ys
All-back P [] ys a = a
All-back P (x ∷ xs) ys a = All-back P xs ys a.1

-- No hexadecimal text ends in "-session".
upload_session-foreign :
    (label s : Bytes) → All IsHexDigit s → bytes_eq s (upload_session label) ≡ false
unfolding upload_session
upload_session-foreign label s hex = elim (Bool-cases (bytes_eq s (label ++ codes "-session"))) [
  | inr n ↦ n
  | inl e ↦
      let digits : All IsHexDigit (codes "-session") =
        All-back IsHexDigit label (codes "-session")
          (subst (All IsHexDigit) (bytes_eq→eq s _ e) hex) in
      absurd (ground (arith, digits.0))
]

pub none_waiting :
    (label : Bytes) (ps : List Packet)
    → All Waits ps
    → select (is_waiting (upload_session label)) ps ≡ []
none_waiting label [] a = refl
none_waiting label (p ∷ ps) a =
    rw (upload_session-foreign label p.session_id a.0.0) (none_waiting label ps a.1)

module _ {Raw F : Type 0} ⦃fl : Float64 F⦄ (h : Hashes) (decode : Unmarshal Raw F) where
  judge_tick-IsStuck :
      (env : TickEnv F) (p : Packetizer F) (b : Buffer)
      → IsStuck p b
      → IsStuck (judge_tick h env p b).0 (judge_tick h env p b).1
  unfolding judge_tick
  judge_tick-IsStuck env p b s =
      seal_tick-IsStuck h env _ _ _ b (record { hex = s.hex; unsent = s.unsent })

  on_tick-IsStuck :
      (env : TickEnv F) (p : Packetizer F) (b : Buffer)
      → All IsByte env.seed.id
      → IsStuck p b
      → IsStuck (on_tick h env p b).0 (on_tick h env p b).1
  unfolding on_tick
  on_tick-IsStuck env p b bytes s = elim (Bool-cases (is_active p.state)) [
    | inl e ↦ rw e (
        judge_tick-IsStuck env _ _
          (count_silence-IsStuck env _ b (ensure_session-IsStuck env p b bytes s)))
    | inr n ↦ rw n s
  ]

  -- The random bytes that an event takes are bytes.
  abbrev pub TakesBytes : DaemonEvent Raw F → Type 0
  TakesBytes (custody (delta seed status)) = All IsByte seed.id
  TakesBytes (custody (tick env)) = All IsByte env.seed.id
  TakesBytes (upload env) = Unit

  module _ (u : Uploader) (label : Bytes) where
    step-IsStuck :
        (e : DaemonEvent Raw F) (p : Packetizer F) (b : Buffer)
        → TakesBytes e
        → IsStuck p b
        → (p' : Packetizer F) × (b' : Buffer) × (step h decode u label e p b ≡ some (p', b'))
          × IsStuck p' b'
    unfolding step handle
    step-IsStuck (custody (delta seed status)) p b bytes s =
        let after = apply_delta-IsStuck decode seed status p b bytes s in
        (_, _, refl, record { hex = after.hex; unsent = after.unsent })
    step-IsStuck (custody (tick env)) p b bytes s = (_, _, refl, on_tick-IsStuck env p b bytes s)
    step-IsStuck (upload env) p b bytes s =
        let (e, idle) =
          flush_idle h.blake3 u env (upload_session label) b
            (none_waiting label b.packets s.unsent.packets) in
        (p, b, ap (flushed p) idle, s)

    -- From tables without a segment, whose packets wait in sessions with hexadecimal names, and a
    -- packetizer in such a session or none: however deltas, ticks and flushes interleave, and whatever
    -- the database and the network do, the daemon's events all return and no packet is ever uploaded,
    -- since the session that the uploader is started with is none that the packetizer starts.
    pub run_daemon-IsStuck :
        (es : List (DaemonEvent Raw F)) (p : Packetizer F) (b : Buffer)
        → All TakesBytes es
        → IsStuck p b
        → (p' : Packetizer F) × (b' : Buffer) × (run_daemon h decode u label es (some (p, b))
            ≡ some (p', b'))
          × IsStuck p' b'
    unfolding run_daemon
    run_daemon-IsStuck [] p b bytes s = (p, b, refl, s)
    run_daemon-IsStuck (e ∷ es) p b bytes s =
        let (p', b', done, s') = step-IsStuck e p b bytes.0 s in
        let (p'', b'', rest, s'') = run_daemon-IsStuck es p' b' bytes.1 s' in
        (p'', b'', ap (run_daemon h decode u label es) done ∙ rest, s'')
