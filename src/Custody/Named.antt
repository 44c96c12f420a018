-- ===== src/Custody/Named.antt =====
-- internal/custody/packetizer.go: the rows of quotes that the custody clock adds, and the key that they
-- name.
pub mod Runs
use axm_sfn.Common.{
  ℕ, ◌≡◌, inl, inr, refl, sym, ap, ◌∙◌, subst, Bool, true, false, ◌&&◌, List, [], ◌∷◌, ◌++◌, Option,
  none, some, arith, All, Bool-cases, leb, if◌then◌else◌,
}
use axm_sfn.Common.Int.{ltb_ℤ, incr}
use axm_sfn.Common.Text.{Bytes, bytes_eq}
use axm_sfn.HotBuffer.Tables.{Quote, QuoteRow, AttestationKey, Buffer, Result, Error, ok, err}
use axm_sfn.HotBuffer.Writes.{
  int64_limit, insert_packet, write_packet, write_quote, record_provenance_fault,
}
use axm_sfn.HotBuffer.Outcomes.{write_packet-cases, set_tpm_sig-cases}
use axm_sfn.Telemetry.{Decision}
use axm_sfn.Tpm.{QuoteResult}
use axm_sfn.Custody.State.{Config, Packetizer, Hashes, Seed, TickEnv, start_new_session}
use axm_sfn.Custody.Delta.{begins_print, detect_lifecycle_edge}
use axm_sfn.Custody.Tick.{
  ensure_session, count_silence, should_quote, quoted, quote_row, store_quote, maybe_quote,
  backfill, finish, write_tick, seal_tick, anomaly_of,
}
use axm_sfn.Custody.Written.{row}

-- A quote that a packetizer with a TPM stores: its row names the key and the PCRs of the configuration.
pub record NamesKey (cfg : Config) (tpm : Bool) (q : Quote) : Type 0 where
  pub taken : tpm ≡ true
  pub handle : q.row.ak_handle ≡ cfg.ak_handle
  pub selection : q.row.pcrs ≡ cfg.pcrs

module _ {F : Type 0} where
  -- Since `before`, the configuration, the TPM and the keys are the same, and every quote that was added
  -- names the configured key.
  pub record Named (cfg : Config) (tpm : Bool) (before : Buffer) (p : Packetizer F) (b : Buffer)
      : Type 0 where
    pub same_cfg : p.cfg ≡ cfg
    pub same_tpm : p.has_tpm ≡ tpm
    pub same_keys : b.keys ≡ before.keys
    pub added : List Quote
    pub quotes : b.quotes ≡ added ++ before.quotes
    pub names : All (NamesKey cfg tpm) added

module _ (cfg : Config) (tpm : Bool) (before : Buffer) {F : Type 0} where
  pub Named-kept :
      (p q : Packetizer F) (b c : Buffer)
      → q.cfg ≡ p.cfg
      → q.has_tpm ≡ p.has_tpm
      → c.keys ≡ b.keys
      → c.quotes ≡ b.quotes
      → Named cfg tpm before p b
      → Named cfg tpm before q c
  Named-kept p q b c e f g h n = record {
    same_cfg = e ∙ n.same_cfg;
    same_tpm = f ∙ n.same_tpm;
    same_keys = g ∙ n.same_keys;
    added = n.added;
    quotes = h ∙ n.quotes;
    names = n.names;
  }

  start_new_session-Named :
      (seed : Seed) (p : Packetizer F) (b : Buffer)
      → Named cfg tpm before p b
      → Named cfg tpm before (start_new_session seed p) b
  unfolding start_new_session
  start_new_session-Named seed p b n = Named-kept p _ b b refl refl refl refl n

  pub detect_lifecycle_edge-Named :
      (seed : Seed) (prev next : Bytes) (p : Packetizer F) (b : Buffer)
      → Named cfg tpm before p b
      → Named cfg tpm before (detect_lifecycle_edge seed prev next p) b
  unfolding detect_lifecycle_edge
  detect_lifecycle_edge-Named seed prev next p b n =
      let started = start_new_session-Named seed p b n in
      elim (Bool-cases (bytes_eq prev next)) [
        | inl e ↦ rw e n
        | inr d ↦ elim (Bool-cases (p.cfg.quote_on_lifecycle && p.has_tpm)) [
          | inl q ↦ elim (Bool-cases (begins_print prev next)) [
            | inl e ↦ rw (d, e, q) (Named-kept _ _ b b refl refl refl refl started)
            | inr e ↦ rw (d, e, q) (Named-kept p _ b b refl refl refl refl n)
          ]
          | inr q ↦ elim (Bool-cases (begins_print prev next)) [
            | inl e ↦ rw (d, e, q) started
            | inr e ↦ rw (d, e, q) n
          ]
        ]
      ]

  pub ensure_session-Named :
      (env : TickEnv F) (p : Packetizer F) (b : Buffer)
      → Named cfg tpm before p b
      → Named cfg tpm before (ensure_session env p) b
  unfolding ensure_session
  ensure_session-Named env p b n = elim (Bool-cases (bytes_eq p.session_id [])) [
    | inl e ↦ rw e (start_new_session-Named env.seed p b n)
    | inr d ↦ rw d n
  ]

  pub count_silence-Named :
      (env : TickEnv F) (p : Packetizer F) (b : Buffer)
      → Named cfg tpm before p b
      → Named cfg tpm before (count_silence env p b).0 (count_silence env p b).1
  unfolding count_silence record_provenance_fault
  count_silence-Named env p b n =
      elim (Bool-cases (ltb_ℤ p.cfg.max_silent_ticks (incr p.silent_ticks))) [
        | inl e ↦ rw e (Named-kept p _ b _ refl refl (ground arith) (ground arith) n)
        | inr d ↦ rw d (Named-kept p _ b b refl refl refl refl n)
      ]

  abbrev stored_quote : TickEnv F → Packetizer F → Buffer → QuoteResult → Quote
  stored_quote env p b qr = record { id = b.next_quote; row = quote_row p qr; created_at = env.now }

  -- The quote of a packetizer with a TPM.
  store_quote-Named :
      (env : TickEnv F) (p : Packetizer F) (b : Buffer) (o : Option QuoteResult)
      → p.has_tpm ≡ true
      → Named cfg tpm before p b
      → Named cfg tpm before (store_quote env p b o).1 (store_quote env p b o).2
  unfolding store_quote quoted write_quote
  store_quote-Named env p b none t n = n
  store_quote-Named env p b (some qr) t n = elim (Bool-cases env.quote_up) [
    | inr d ↦ rw d n
    | inl y ↦ elim (Bool-cases (leb int64_limit p.seq)) [
      | inl big ↦ rw (y, big) n
      | inr fits ↦
          rw (y, fits)
            (record {
              same_cfg = n.same_cfg;
              same_tpm = n.same_tpm;
              same_keys = n.same_keys;
              added = stored_quote env p b qr ∷ n.added;
              quotes = ap (λ qs. stored_quote env p b qr ∷ qs) n.quotes;
              names = (
                record {
                  taken = sym n.same_tpm ∙ t;
                  handle = ap (λ c. c.ak_handle) n.same_cfg;
                  selection = ap (λ c. c.pcrs) n.same_cfg;
                },
                n.names,
              );
            })
    ]
  ]

  pub maybe_quote-Named :
      (h : Hashes) (env : TickEnv F) (sha : Bytes) (p : Packetizer F) (b : Buffer)
      → Named cfg tpm before p b
      → Named cfg tpm before (maybe_quote h env sha p b).1 (maybe_quote h env sha p b).2
  unfolding maybe_quote
  maybe_quote-Named h env sha p b n = elim (Bool-cases (p.has_tpm && should_quote env.now p)) [
    | inl e ↦ rw e (store_quote-Named env p b _ (ground arith) n)
    | inr d ↦ rw d n
  ]

  backfill-Named :
      (env : TickEnv F) (i q : ℕ) (sig : Option Bytes) (p : Packetizer F) (b : Buffer)
      → Named cfg tpm before p b
      → Named cfg tpm before p (backfill env i q sig b)
  unfolding backfill
  backfill-Named env i q none p b n = n
  backfill-Named env i q (some s) p b n = elim (set_tpm_sig-cases env.sig_up i (some s) q b) [
    | inl same ↦ rw same n
    | inr changed ↦ rw changed (Named-kept p p b _ refl refl refl refl n)
  ]

  pub write_tick-Named :
      (h : Hashes) (env : TickEnv F) (d : Option Decision) (canonical : Bytes) (q : ℕ)
      (p : Packetizer F) (b : Buffer)
      → Named cfg tpm before p b
      → Named cfg tpm before
          (write_tick h env d canonical q p b).0
          (write_tick h env d canonical q p b).1
  unfolding write_tick insert_packet
  write_tick-Named h env d canonical q p b n =
      elim (write_packet-cases env.packet_up
        (row h env (anomaly_of d) canonical (if p.has_tpm then env.tpm_sign canonical else none) p
          b)
        b) [
          | inl (_, e) ↦ rw (e, finish) n
          | inr (e, _, _) ↦
              rw (e, finish)
                (Named-kept p _ _ _ refl refl refl refl (
                  backfill-Named env b.next_packet q _ p _
                    (Named-kept p p b _ refl refl refl refl n)))
        ]

  pub seal_tick-Named :
      (h : Hashes) (env : TickEnv F) (d : Option Decision) (canonical : Option Bytes)
      (p : Packetizer F) (b : Buffer)
      → Named cfg tpm before p b
      → Named cfg tpm before (seal_tick h env d canonical p b).0 (seal_tick h env d canonical p b).1
  unfolding seal_tick
  seal_tick-Named h env d none p b n = n
  seal_tick-Named h env d (some canonical) p b n =
      write_tick-Named h env d canonical _ _ _ (maybe_quote-Named h env (h.sha256 canonical) p b n)
