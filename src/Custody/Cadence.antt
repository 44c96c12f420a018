-- ===== src/Custody/Cadence.antt =====
-- internal/custody/packetizer.go: when a tick takes a quote.
pub mod Due
pub mod Failed
use axm_sfn.Common.{
  ℕ, suc, ◌≡◌, ◌≢◌, ◌<◌, ◌^◌, ◌+◌, ◌%◌, ◌⊎◌, inl, inr, refl, sym, ap, ◌∙◌, subst, Bool, true, false,
  ◌&&◌, List, [], ◌∷◌, Option, none, some, arith, lt→leb, leb, Bool-cases, if◌then◌else◌,
}
use axm_sfn.Common.Int.{ℤ, pos, ltb_ℤ, incr}
use axm_sfn.Common.Text.{Bytes, bytes_eq}
use axm_sfn.Floats.{Float64}
use axm_sfn.HotBuffer.Tables.{PacketRow, Quote, QuoteRow, Buffer, Result, Error, ok, err}
use axm_sfn.HotBuffer.Writes.{
  int64_limit, insert_packet, write_packet, set_tpm_sig, record_provenance_fault, write_quote,
}
use axm_sfn.HotBuffer.Outcomes.{write_packet-cases, set_tpm_sig-cases}
use axm_sfn.Moonraker.State.{is_active}
use axm_sfn.Telemetry.{Decision, CustodyPacket}
use axm_sfn.Tpm.{QuoteResult, derive_quote_nonce}
use axm_sfn.Custody.State.{Packetizer, Hashes, TickEnv}
use axm_sfn.Custody.Tick.{
  silence_reason, ensure_session, count_silence, should_quote, quoted, store_quote, maybe_quote,
  backfill, finish, write_tick, seal_tick, judge_tick, on_tick, anomaly_of, decision_of,
  build_packet, snapshot,
}
use axm_sfn.Custody.Written.{row}
use axm_sfn.Policy.{Evaluator, evaluate}
use axm_sfn.Custody.Silence.{same_session}

module _ {F : Type 0} where
  -- The quotes and what the packetizer knows of the last one are as before.
  pub record SameQuotes (p : Packetizer F) (b : Buffer) (p' : Packetizer F) (b' : Buffer)
      : Type 0 where
    pub cfg : p'.cfg ≡ p.cfg
    pub quotes : b'.quotes ≡ b.quotes
    pub last_quote_id : p'.last_quote_id ≡ p.last_quote_id
    pub last_quote_at : p'.last_quote_at ≡ p.last_quote_at
    pub immediate_quote : p'.immediate_quote ≡ p.immediate_quote

  -- A quote of the packetizer's place is new, and it is the last one, taken at this tick.
  pub record NewQuote (env : TickEnv F) (p : Packetizer F) (b : Buffer) (p' : Packetizer F)
      (b' : Buffer) : Type 0 where
    pub quote : Quote
    pub quotes : b'.quotes ≡ quote ∷ b.quotes
    pub session : quote.row.session_id ≡ p.session_id
    pub place : quote.row.seq ≡ p.seq
    pub pcrs : quote.row.pcrs ≡ p.cfg.pcrs
    pub last_quote_id : p'.last_quote_id ≡ quote.id
    pub last_quote_at : p'.last_quote_at ≡ some env.tick
    pub immediate_quote : p'.immediate_quote ≡ false

  abbrev pub QuotesWhenDue : TickEnv F → Packetizer F → Buffer → Packetizer F → Buffer → Type 0
  QuotesWhenDue env p b p' b' =
      ((should_quote env.now p ≡ true) × NewQuote env p b p' b')
      ⊎ ((should_quote env.now p ≡ false) × SameQuotes p b p' b')

  pub NewQuote-then :
      (env : TickEnv F) (p q r : Packetizer F) (a b c : Buffer)
      → NewQuote env p a q b
      → SameQuotes q b r c
      → NewQuote env p a r c
  NewQuote-then env p q r a b c n k = record {
    quote = n.quote;
    quotes = k.quotes ∙ n.quotes;
    session = n.session;
    place = n.place;
    pcrs = n.pcrs;
    last_quote_id = k.last_quote_id ∙ n.last_quote_id;
    last_quote_at = k.last_quote_at ∙ n.last_quote_at;
    immediate_quote = k.immediate_quote ∙ n.immediate_quote;
  }

  pub SameQuotes-then :
      (p q r : Packetizer F) (a b c : Buffer)
      → SameQuotes p a q b
      → SameQuotes q b r c
      → SameQuotes p a r c
  SameQuotes-then p q r a b c j k = record {
    cfg = k.cfg ∙ j.cfg;
    quotes = k.quotes ∙ j.quotes;
    last_quote_id = k.last_quote_id ∙ j.last_quote_id;
    last_quote_at = k.last_quote_at ∙ j.last_quote_at;
    immediate_quote = k.immediate_quote ∙ j.immediate_quote;
  }

  backfill-quotes :
      (env : TickEnv F) (i q : ℕ) (sig : Option Bytes) (b : Buffer)
      → (backfill env i q sig b).quotes ≡ b.quotes
  unfolding backfill
  backfill-quotes env i q none b = refl
  backfill-quotes env i q (some s) b = elim (set_tpm_sig-cases env.sig_up i (some s) q b) [
    | inl same ↦ ap (λ (x : Buffer). x.quotes) same
    | inr changed ↦ ap (λ (x : Buffer). x.quotes) changed
  ]

  -- The silence counter is all that the count of a silent tick changes of the packetizer.
  pub count_silence-cases :
      (env : TickEnv F) (p : Packetizer F) (b : Buffer)
      → (n : ℤ) × (c : Buffer) × (count_silence env p b ≡ (record p { silent_ticks = n }, c))
        × (c.quotes ≡ b.quotes)
  unfolding count_silence record_provenance_fault
  count_silence-cases env p b =
      elim (Bool-cases (ltb_ℤ p.cfg.max_silent_ticks (incr p.silent_ticks))) [
        | inl e ↦ rw e (_, _, refl, ground arith)
        | inr n ↦ rw n (_, _, refl, refl)
      ]

module _ (h : Hashes) {F : Type 0} where
  pub write_tick-SameQuotes :
      (env : TickEnv F) (d : Option Decision) (canonical : Bytes) (q : ℕ) (p : Packetizer F)
      (b : Buffer)
      → SameQuotes p b (write_tick h env d canonical q p b).0 (write_tick h env d canonical q p b).1
  unfolding write_tick insert_packet
  write_tick-SameQuotes env d canonical q p b =
      elim (write_packet-cases env.packet_up
        (row h env (anomaly_of d) canonical (if p.has_tpm then env.tpm_sign canonical else none) p
          b)
        b) [
          | inl (_, e) ↦
              rw (e, finish)
                (record {
                  cfg = refl;
                  quotes = refl;
                  last_quote_id = refl;
                  last_quote_at = refl;
                  immediate_quote = refl;
                })
          | inr (e, _, _) ↦
              rw (e, finish)
                (record {
                  cfg = refl;
                  quotes = backfill-quotes env b.next_packet q _ _;
                  last_quote_id = refl;
                  last_quote_at = refl;
                  immediate_quote = refl;
                })
        ]

module _ {F : Type 0} where
  pub QuotesWhenDue-then :
      (env : TickEnv F) (p q r : Packetizer F) (a b c : Buffer)
      → QuotesWhenDue env p a q b
      → SameQuotes q b r c
      → QuotesWhenDue env p a r c
  QuotesWhenDue-then env p q r a b c (inl (y, n)) k = inl (y, NewQuote-then env p q r a b c n k)
  QuotesWhenDue-then env p q r a b c (inr (y, j)) k = inr (y, SameQuotes-then p q r a b c j k)

  -- What a tick does to the silence counter and the policy makes no difference to its quote.
  pub NewQuote-counted :
      (env : TickEnv F) (p q : Packetizer F) (n : ℤ) (e : Evaluator F) (b c d : Buffer)
      → c.quotes ≡ b.quotes
      → NewQuote env (record p { silent_ticks = n; policy = e }) c q d
      → NewQuote env p b q d
  NewQuote-counted env p q n e b c d same k = record {
    quote = k.quote;
    quotes = k.quotes ∙ ap (λ l. k.quote ∷ l) same;
    session = k.session;
    place = k.place;
    pcrs = k.pcrs;
    last_quote_id = k.last_quote_id;
    last_quote_at = k.last_quote_at;
    immediate_quote = k.immediate_quote;
  }

  pub SameQuotes-counted :
      (p q : Packetizer F) (n : ℤ) (e : Evaluator F) (b c d : Buffer)
      → c.quotes ≡ b.quotes
      → SameQuotes (record p { silent_ticks = n; policy = e }) c q d
      → SameQuotes p b q d
  SameQuotes-counted p q n e b c d same k = record {
    cfg = k.cfg;
    quotes = k.quotes ∙ same;
    last_quote_id = k.last_quote_id;
    last_quote_at = k.last_quote_at;
    immediate_quote = k.immediate_quote;
  }

  pub QuotesWhenDue-counted :
      (env : TickEnv F) (p q : Packetizer F) (n : ℤ) (e : Evaluator F) (b c d : Buffer)
      → c.quotes ≡ b.quotes
      → QuotesWhenDue env (record p { silent_ticks = n; policy = e }) c q d
      → QuotesWhenDue env p b q d
  unfolding should_quote
  QuotesWhenDue-counted env p q n e b c d same (inl (y, k)) =
      inl (y, NewQuote-counted env p q n e b c d same k)
  QuotesWhenDue-counted env p q n e b c d same (inr (y, k)) =
      inr (y, SameQuotes-counted p q n e b c d same k)
