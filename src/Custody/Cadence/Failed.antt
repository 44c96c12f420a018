-- ===== src/Custody/Cadence/Failed.antt =====
-- internal/custody/packetizer.go: a tick whose quote fails.
use axm_sfn.Common.{
  ℕ, ◌≡◌, ◌≢◌, ◌⊎◌, inl, inr, refl, true, false, ◌&&◌, [], Option, none, some, arith, Bool-cases,
}
use axm_sfn.Common.Text.{Bytes}
use axm_sfn.Floats.{Float64}
use axm_sfn.HotBuffer.Tables.{Buffer}
use axm_sfn.HotBuffer.Writes.{write_quote}
use axm_sfn.Moonraker.State.{is_active}
use axm_sfn.Telemetry.{Decision}
use axm_sfn.Tpm.{QuoteResult}
use axm_sfn.Custody.State.{Packetizer, Hashes, TickEnv}
use axm_sfn.Custody.Tick.{
  should_quote, quoted, store_quote, maybe_quote, write_tick, seal_tick, judge_tick, on_tick,
  snapshot,
}
use axm_sfn.Policy.{evaluate}
use axm_sfn.Custody.Silence.{same_session}
use axm_sfn.Custody.Cadence.{
  SameQuotes, SameQuotes-then, count_silence-cases, write_tick-SameQuotes, SameQuotes-counted,
}

module _ {F : Type 0} where
  still_due :
      (later : ℕ) (p q : Packetizer F) (b c : Buffer)
      → SameQuotes p b q c
      → should_quote later q ≡ should_quote later p
  unfolding should_quote
  still_due later p q b c k = rw (k.immediate_quote, k.last_quote_at, k.cfg)

module _ (h : Hashes) {F : Type 0} where
  -- No quote comes of a TPM that does not answer or a database that does not take it.
  failed_quote :
      (env : TickEnv F) (p : Packetizer F) (b : Buffer) (o : Option QuoteResult)
      → (o ≡ none) ⊎ (env.quote_up ≡ false)
      → SameQuotes p b (store_quote env p b o).1 (store_quote env p b o).2
  unfolding store_quote write_quote quoted
  failed_quote env p b none fails = record {
    cfg = refl;
    quotes = refl;
    last_quote_id = refl;
    last_quote_at = refl;
    immediate_quote = refl;
  }
  failed_quote env p b (some qr) (inl e) = absurd (ground arith)
  failed_quote env p b (some qr) (inr down) = rw down (record {
    cfg = refl;
    quotes = refl;
    last_quote_id = refl;
    last_quote_at = refl;
    immediate_quote = refl;
  })

  undue_quote :
      (env : TickEnv F) (sha : Bytes) (p : Packetizer F) (b : Buffer)
      → ((nonce : Bytes) → (env.tpm_quote nonce ≡ none) ⊎ (env.quote_up ≡ false))
      → SameQuotes p b (maybe_quote h env sha p b).1 (maybe_quote h env sha p b).2
  unfolding maybe_quote
  undue_quote env sha p b fails = elim (Bool-cases (p.has_tpm && should_quote env.now p)) [
    | inl y ↦ rw y (failed_quote env p b _ (fails _))
    | inr n ↦ rw n (record {
      cfg = refl;
      quotes = refl;
      last_quote_id = refl;
      last_quote_at = refl;
      immediate_quote = refl;
    })
  ]

  unquoted_seal :
      (env : TickEnv F) (d : Option Decision) (canonical : Option Bytes) (p : Packetizer F)
      (b : Buffer)
      → ((nonce : Bytes) → (env.tpm_quote nonce ≡ none) ⊎ (env.quote_up ≡ false))
      → SameQuotes p b (seal_tick h env d canonical p b).0 (seal_tick h env d canonical p b).1
  unfolding seal_tick
  unquoted_seal env d none p b fails = record {
    cfg = refl;
    quotes = refl;
    last_quote_id = refl;
    last_quote_at = refl;
    immediate_quote = refl;
  }
  unquoted_seal env d (some text) p b fails =
      let q = maybe_quote h env (h.sha256 text) p b in
      let w = write_tick h env d text q.0 q.1 q.2 in
      SameQuotes-then p q.1 w.0 b q.2 w.1 (undue_quote env (h.sha256 text) p b fails)
        (write_tick-SameQuotes h env d text q.0 q.1 q.2)

module _ (h : Hashes) {F : Type 0} ⦃fl : Float64 F⦄ where
  judge_tick-SameQuotes :
      (env : TickEnv F) (p : Packetizer F) (b : Buffer)
      → ((nonce : Bytes) → (env.tpm_quote nonce ≡ none) ⊎ (env.quote_up ≡ false))
      → SameQuotes p b (judge_tick h env p b).0 (judge_tick h env p b).1
  unfolding judge_tick
  judge_tick-SameQuotes env p b fails =
      let (verdict, policy) = evaluate p.policy (snapshot p) in
      SameQuotes-counted p _ p.silent_ticks policy b b _ refl
        (unquoted_seal h env _ _ (record p { policy = policy }) b fails)

  -- A tick of an active print in a started session whose quote fails, in the TPM or in the database,
  -- leaves the quotes and the last quote as they were, and a quote is due at a later time just where it
  -- would have been without the tick: it is tried again.
  pub on_tick-SameQuotes :
      (env : TickEnv F) (p : Packetizer F) (b : Buffer) (later : ℕ)
      → is_active p.state ≡ true
      → p.session_id ≢ []
      → ((nonce : Bytes) → (env.tpm_quote nonce ≡ none) ⊎ (env.quote_up ≡ false))
      → let (p', b') = on_tick h env p b in
        SameQuotes p b p' b' × (should_quote later p' ≡ should_quote later p)
  unfolding on_tick
  on_tick-SameQuotes env p b later active started fails =
      let (n, c, counted, quotes) = count_silence-cases env p b in
      let q = record p { silent_ticks = n } in
      let r = judge_tick h env q c in
      let same =
        SameQuotes-counted p r.0 n p.policy b c r.1 quotes (judge_tick-SameQuotes env q c fails) in
      rw (active, same_session h env p started, counted) (same, still_due later p r.0 b r.1 same)
