-- ===== src/Daemon/Stuck.antt =====
-- cmd/axm-edge/main.go: the session that the uploader is started with, against the sessions that the
-- packetizer starts.
use axm_sfn.Common.{ℕ, inl, inr, ◌&&◌, [], Option, none, some, All, Bool-cases}
use axm_sfn.Common.Int.{ltb_ℤ, incr}
use axm_sfn.Common.Text.{Bytes, bytes_eq}
use axm_sfn.Encoding.Hex.{IsByte, IsHexDigit, hex_encode-IsHexDigit}
use axm_sfn.HotBuffer.Tables.{Buffer, Result, ok, err}
use axm_sfn.Tpm.{QuoteResult}
use axm_sfn.Custody.State.{Packetizer, Seed, TickEnv, start_new_session}
use axm_sfn.Custody.Delta.{begins_print, detect_lifecycle_edge, put_chamber}
use axm_sfn.Custody.Tick.{
  silence_reason, ensure_session, count_silence, quoted, store_quote, backfill, finish,
}
use axm_sfn.Daemon.Unsent.{
  IsUnsent, set_tpm_sig-IsUnsent, record_provenance_fault-IsUnsent, write_quote-IsUnsent,
}

-- The packetizer's session is hexadecimal text (or none yet), and nothing was sent.
pub record IsStuck {F : Type 0} (p : Packetizer F) (b : Buffer) : Type 0 where
  pub hex : All IsHexDigit p.session_id
  pub unsent : IsUnsent b

module _ {F : Type 0} where
  start_new_session-IsStuck :
      (seed : Seed) (p : Packetizer F) (b : Buffer)
      → All IsByte seed.id
      → IsUnsent b
      → IsStuck (start_new_session seed p) b
  unfolding start_new_session
  start_new_session-IsStuck seed p b bytes u = record {
    hex = hex_encode-IsHexDigit seed.id bytes;
    unsent = u;
  }

  pub detect_lifecycle_edge-IsStuck :
      (seed : Seed) (prev next : Bytes) (p : Packetizer F) (b : Buffer)
      → All IsByte seed.id
      → IsStuck p b
      → IsStuck (detect_lifecycle_edge seed prev next p) b
  unfolding detect_lifecycle_edge
  detect_lifecycle_edge-IsStuck seed prev next p b bytes s =
      let started = start_new_session-IsStuck seed p b bytes s.unsent in
      elim (Bool-cases (bytes_eq prev next)) [
        | inl e ↦ rw e s
        | inr n ↦ elim (Bool-cases (p.cfg.quote_on_lifecycle && p.has_tpm)) [
          | inl q ↦ elim (Bool-cases (begins_print prev next)) [
            | inl e ↦ rw (n, e, q) (record { hex = started.hex; unsent = started.unsent })
            | inr e ↦ rw (n, e, q) (record { hex = s.hex; unsent = s.unsent })
          ]
          | inr q ↦ elim (Bool-cases (begins_print prev next)) [
            | inl e ↦ rw (n, e, q) started
            | inr e ↦ rw (n, e, q) s
          ]
        ]
      ]

  pub put_chamber-IsStuck :
      (o : Option F) (p : Packetizer F) (b : Buffer) → IsStuck p b → IsStuck (put_chamber o p) b
  put_chamber-IsStuck none p b s = s
  put_chamber-IsStuck (some t) p b s = record { hex = s.hex; unsent = s.unsent }

  pub ensure_session-IsStuck :
      (env : TickEnv F) (p : Packetizer F) (b : Buffer)
      → All IsByte env.seed.id
      → IsStuck p b
      → IsStuck (ensure_session env p) b
  unfolding ensure_session
  ensure_session-IsStuck env p b bytes s = elim (Bool-cases (bytes_eq p.session_id [])) [
    | inl e ↦ rw e (start_new_session-IsStuck env.seed p b bytes s.unsent)
    | inr n ↦ rw n s
  ]

  pub count_silence-IsStuck :
      (env : TickEnv F) (p : Packetizer F) (b : Buffer)
      → IsStuck p b
      → IsStuck (count_silence env p b).0 (count_silence env p b).1
  unfolding count_silence
  count_silence-IsStuck env p b s =
      elim (Bool-cases (ltb_ℤ p.cfg.max_silent_ticks (incr p.silent_ticks))) [
        | inl e ↦ rw e (record {
          hex = s.hex;
          unsent =
              record_provenance_fault-IsUnsent env.fault_up env.now p.session_id p.seq
                silence_reason b s.unsent;
        })
        | inr n ↦ rw n (record { hex = s.hex; unsent = s.unsent })
      ]

  quoted-IsStuck :
      (env : TickEnv F) (p : Packetizer F) (r : Result ℕ × Buffer)
      → IsStuck p r.1
      → IsStuck (quoted env p r).1 (quoted env p r).2
  unfolding quoted
  quoted-IsStuck env p (ok q, b) s = record { hex = s.hex; unsent = s.unsent }
  quoted-IsStuck env p (err e, b) s = s

  pub store_quote-IsStuck :
      (env : TickEnv F) (p : Packetizer F) (b : Buffer) (qr : Option QuoteResult)
      → IsStuck p b
      → IsStuck (store_quote env p b qr).1 (store_quote env p b qr).2
  unfolding store_quote
  store_quote-IsStuck env p b none s = s
  store_quote-IsStuck env p b (some qr) s =
      quoted-IsStuck env p _
        (record { hex = s.hex; unsent = write_quote-IsUnsent env.quote_up env.now _ b s.unsent })

  backfill-IsUnsent :
      (env : TickEnv F) (i quote_id : ℕ) (sig : Option Bytes) (b : Buffer)
      → IsUnsent b
      → IsUnsent (backfill env i quote_id sig b)
  unfolding backfill
  backfill-IsUnsent env i quote_id none b u = u
  backfill-IsUnsent env i quote_id (some sig) b u =
      set_tpm_sig-IsUnsent env.sig_up i (some sig) quote_id b u

  pub finish-IsStuck :
      (env : TickEnv F) (link : Bytes) (quote_id : ℕ) (sig : Option Bytes) (p : Packetizer F)
      (r : Result ℕ × Buffer)
      → All IsHexDigit p.session_id
      → IsUnsent r.1
      → IsStuck (finish env link quote_id sig p r).0 (finish env link quote_id sig p r).1
  unfolding finish
  finish-IsStuck env link quote_id sig p (ok i, b) hex u = record {
    hex = hex;
    unsent = backfill-IsUnsent env i quote_id sig b u;
  }
  finish-IsStuck env link quote_id sig p (err e, b) hex u = record { hex = hex; unsent = u }
