-- ===== src/Custody/Ledger.antt =====
-- internal/custody/packetizer.go: the ledger across the steps of a tick before the packet is written.
use axm_sfn.Common.{ℕ, ◌≡◌, inl, inr, refl, ◌&&◌, [], Option, none, some, arith, Bool-cases}
use axm_sfn.Common.Int.{ltb_ℤ, incr}
use axm_sfn.Common.Text.{Bytes, bytes_eq, bytes_eq→eq, bytes_eq_iff}
use axm_sfn.Encoding.{hex_encode}
use axm_sfn.HotBuffer.Tables.{QuoteRow, Buffer, Result, ok, err}
use axm_sfn.HotBuffer.Writes.{write_quote}
use axm_sfn.HotBuffer.Statements.{record_provenance_fault-IsValid, write_quote-IsValid}
use axm_sfn.HotBuffer.Outcomes.{packets-record_provenance_fault, packets-write_quote}
use axm_sfn.Tpm.{QuoteResult}
use axm_sfn.Custody.State.{Packetizer, Hashes, Seed, TickEnv, start_new_session}
use axm_sfn.Custody.Chain.{session_rows, IsChain, IsLedger, IsOpen, IsLedger-IsOpen, IsOpen-same}
use axm_sfn.Custody.Tick.{
  silence_reason, ensure_session, count_silence, should_quote, quoted, store_quote, maybe_quote,
}

-- The random id of a new session is in no row yet.
abbrev pub IsFresh : Seed → Buffer → Type 0
IsFresh seed b = session_rows (hex_encode seed.id) b.packets ≡ []

module _ (h : Hashes) {F : Type 0} where
  -- The ledger, at the end of the packetizer's session.
  abbrev pub Ledger : Packetizer F × Buffer → Type 0
  Ledger (p, b) = IsLedger h p.session_id p.seq p.prev_blake3 b

  abbrev pub Open : Packetizer F × Buffer → Type 0
  Open (p, b) = IsOpen h p.session_id p.seq p.prev_blake3 b

  pub start_new_session-Open :
      (seed : Seed) (p : Packetizer F) (b : Buffer)
      → IsFresh seed b
      → Ledger (p, b)
      → Open (start_new_session seed p, b)
  unfolding start_new_session
  start_new_session-Open seed p b fresh l =
      let c : IsChain h (hex_encode seed.id) 0 none (session_rows (hex_encode seed.id) b.packets) =
        rw fresh (refl, refl) in
      record { ledger = record { valid = l.valid; chains = l.chains; current = inr c }; chain = c }

  pub ensure_session-Open :
      (env : TickEnv F) (p : Packetizer F) (b : Buffer)
      → (p.session_id ≡ [] → IsFresh env.seed b)
      → Ledger (p, b)
      → Open (ensure_session env p, b)
  unfolding ensure_session
  ensure_session-Open env p b fresh l = elim (Bool-cases (bytes_eq p.session_id [])) [
    | inl e ↦ rw e (start_new_session-Open env.seed p b (fresh (bytes_eq→eq _ _ e)) l)
    | inr n ↦ rw n (IsLedger-IsOpen h (λ e. ground (arith, (bytes_eq_iff p.session_id []).1 e)) l)
  ]

  pub count_silence-Open :
      (env : TickEnv F) (p : Packetizer F) (b : Buffer) → Open (p, b) → Open (count_silence env p b)
  unfolding count_silence
  count_silence-Open env p b o =
      elim (Bool-cases (ltb_ℤ p.cfg.max_silent_ticks (incr p.silent_ticks))) [
        | inl e ↦ rw e (
            IsOpen-same h
              (packets-record_provenance_fault env.fault_up env.now p.session_id p.seq
                silence_reason b)
              (record_provenance_fault-IsValid env.fault_up env.now p.session_id p.seq
                silence_reason b o.ledger.valid)
              o)
        | inr n ↦ rw n o
      ]

  quoted-Open :
      (env : TickEnv F) (p : Packetizer F) (r : Result ℕ × Buffer)
      → Open (p, r.1)
      → Open ((quoted env p r).1, (quoted env p r).2)
  unfolding quoted
  quoted-Open env p (ok q, b) o = o
  quoted-Open env p (err e, b) o = o

  store_quote-Open :
      (env : TickEnv F) (p : Packetizer F) (b : Buffer) (qr : Option QuoteResult)
      → Open (p, b)
      → Open ((store_quote env p b qr).1, (store_quote env p b qr).2)
  unfolding store_quote
  store_quote-Open env p b none o = o
  store_quote-Open env p b (some qr) o =
      let row : QuoteRow = record {
        session_id = p.session_id;
        seq = p.seq;
        pcrs = p.cfg.pcrs;
        nonce = qr.nonce;
        attest_blob = qr.attest_blob;
        sig = qr.sig;
        ak_handle = p.cfg.ak_handle;
      } in
      quoted-Open env p (write_quote env.quote_up env.now row b) (
        IsOpen-same h (packets-write_quote env.quote_up env.now row b)
          (write_quote-IsValid env.quote_up env.now row b o.ledger.valid) o)

  pub maybe_quote-Open :
      (env : TickEnv F) (sha : Bytes) (p : Packetizer F) (b : Buffer)
      → Open (p, b)
      → Open ((maybe_quote h env sha p b).1, (maybe_quote h env sha p b).2)
  unfolding maybe_quote
  maybe_quote-Open env sha p b o = elim (Bool-cases (p.has_tpm && should_quote env.now p)) [
    | inl e ↦ rw e (store_quote-Open env p b _ o)
    | inr n ↦ rw n o
  ]
