-- ===== src/Custody/Quoted/Sealed.antt =====
-- internal/custody/packetizer.go: the quotes that packets name, across a tick from its quote on.
use axm_sfn.Common.{
  ℕ, suc, ◌≡◌, ◌^◌, ◌+◌, ◌%◌, inl, inr, refl, sym, ap, ◌∙◌, subst, true, ◌&&◌, Option, none, some,
  arith, All-mono, le→leb, ==_refl, Bool-cases, if◌then◌else◌,
}
use axm_sfn.Common.Text.{Bytes, bytes_eq_refl}
use axm_sfn.HotBuffer.Tables.{PacketRow, Quote, QuoteRow, Buffer}
use axm_sfn.HotBuffer.Writes.{insert_packet}
use axm_sfn.HotBuffer.Invariant.{IsValid}
use axm_sfn.HotBuffer.Statements.{write_packet-IsValid, write_quote-IsValid}
use axm_sfn.HotBuffer.Outcomes.{write_packet-cases}
use axm_sfn.Telemetry.{Decision}
use axm_sfn.Tpm.{QuoteResult}
use axm_sfn.Custody.State.{Packetizer, Hashes, TickEnv}
use axm_sfn.Custody.Tick.{
  should_quote, quoted, store_quote, maybe_quote, backfill, finish, write_tick, seal_tick,
  anomaly_of,
}
use axm_sfn.Custody.Unquoted.{backfill_zero, first_row}
use axm_sfn.Custody.Written.{row}
use axm_sfn.Custody.Quoted.{
  is_own, NamesOwn-more, write_quote-cases, IsQuoted, IsQuoted-next, insert-IsQuoted,
  signed-IsQuoted, Quoted,
}

module _ {F : Type 0} where
  -- The row that the packet will name is the packetizer's last.
  abbrev Tagged : ℕ × Packetizer F × Buffer → Type 0
  Tagged (q, p, b) = (q ≡ p.last_quote_id) × Quoted (p, b)

  store_quote-Tagged :
      (env : TickEnv F) (p : Packetizer F) (b : Buffer) (qr : Option QuoteResult)
      → Quoted (p, b)
      → Tagged (store_quote env p b qr)
  unfolding store_quote quoted
  store_quote-Tagged env p b none i = (refl, i)
  store_quote-Tagged env p b (some qr) i =
      let row : QuoteRow = record {
        session_id = p.session_id;
        seq = p.seq;
        pcrs = p.cfg.pcrs;
        nonce = qr.nonce;
        attest_blob = qr.attest_blob;
        sig = qr.sig;
        ak_handle = p.cfg.ak_handle;
      } in
      let new : Quote = record { id = b.next_quote; row = row; created_at = env.now } in
      let v = write_quote-IsValid env.quote_up env.now row b i.valid in
      elim (write_quote-cases env.quote_up env.now row b) [
        | inl (e, failed) ↦ rw failed (refl, i)
        | inr done ↦ rw done (
          refl,
          record {
            valid = rw done at v;
            rows =
                All-mono _ _ b.packets (λ r. NamesOwn-more new b.quotes r r.tpm_sig r.quote_ref)
                  i.rows;
            current = inr (
                rw (
                  ==_refl b.next_quote,
                  bytes_eq_refl p.session_id,
                  le→leb p.seq p.seq (omega arith),
                ));
          },
        )
      ]

module _ (h : Hashes) {F : Type 0} where
  maybe_quote-Tagged :
      (env : TickEnv F) (sha : Bytes) (p : Packetizer F) (b : Buffer)
      → Quoted (p, b)
      → Tagged (maybe_quote h env sha p b)
  unfolding maybe_quote
  maybe_quote-Tagged env sha p b i = elim (Bool-cases (p.has_tpm && should_quote env.now p)) [
    | inl e ↦ rw e (store_quote-Tagged env p b _ i)
    | inr n ↦ rw n (refl, i)
  ]

  backfill-IsQuoted :
      (env : TickEnv F) (sig : Option Bytes) (q : ℕ) (r : PacketRow) (b : Buffer)
      → IsValid (insert_packet r b)
      → IsQuoted q r.session_id r.seq b
      → IsQuoted q r.session_id r.seq (backfill env b.next_packet q sig (insert_packet r b))
  unfolding backfill
  backfill-IsQuoted env sig q r b v i = elim i.current [
    | inl zero_quote ↦
        let same = backfill_zero h env sig (insert_packet r b) b.next_packet v (first_row r b) in
        subst (λ x. IsQuoted q r.session_id r.seq x)
          (sym (ap (λ n. backfill env b.next_packet n sig (insert_packet r b)) zero_quote ∙ same))
          (insert-IsQuoted r q r.session_id r.seq b v i)
    | inr own ↦ own_quote sig own
  ]
    where
      own_quote :
          (given : Option Bytes)
          → is_own q r.session_id r.seq b.quotes ≡ true
          → IsQuoted q r.session_id r.seq (backfill env b.next_packet q given (insert_packet r b))
      own_quote none own = insert-IsQuoted r q r.session_id r.seq b v i
      own_quote (some s) own = signed-IsQuoted env.sig_up r s q b own v i

  write_tick-Quoted :
      (env : TickEnv F) (d : Option Decision) (canonical : Bytes) (q : ℕ) (p : Packetizer F)
      (b : Buffer)
      → Tagged (q, p, b)
      → Quoted (write_tick h env d canonical q p b)
  unfolding write_tick
  write_tick-Quoted env d canonical q p b (same, i) =
      let sig = if p.has_tpm then env.tpm_sign canonical else none in
      let r = row h env (anomaly_of d) canonical sig p b in
      let v = write_packet-IsValid env.packet_up r b i.valid in
      elim (write_packet-cases env.packet_up r b) [
        | inl (_, e) ↦ rw (e, finish) i
        | inr (e, fits, _) ↦
            let wrap : (p.seq + 1) % 2 ^ 64 ≡ suc p.seq = omega (arith, fits) in
            rw (e, finish, wrap, same)
              (IsQuoted-next (backfill-IsQuoted env sig p.last_quote_id r b (rw e at v) i))
      ]

  pub seal_tick-Quoted :
      (env : TickEnv F) (d : Option Decision) (canonical : Option Bytes) (p : Packetizer F)
      (b : Buffer)
      → Quoted (p, b)
      → Quoted (seal_tick h env d canonical p b)
  unfolding seal_tick
  seal_tick-Quoted env d none p b i = i
  seal_tick-Quoted env d (some canonical) p b i =
      write_tick-Quoted env d canonical _ _ _ (maybe_quote-Tagged env (h.sha256 canonical) p b i)
