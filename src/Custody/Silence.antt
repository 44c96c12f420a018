-- ===== src/Custody/Silence.antt =====
-- internal/custody/packetizer.go: the silence counter and the provenance faults.
use axm_sfn.Common.{
  ℕ, suc, ◌+◌, ◌-◌, ◌^◌, ◌≤◌, ◌<◌, ◌≡◌, ◌≢◌, ◌⊎◌, inl, inr, refl, ap, ◌∙◌, Bool, true, false, ◌&&◌,
  [], ◌∷◌, Option, none, some, arith, Bool-cases, ltb, ==_ne, lt→leb, lt→ltb, le→ltb, ltb→lt,
  ltb-false,
}
use axm_sfn.Common.Int.{pos, ltb_ℤ, incr}
use axm_sfn.Common.Text.{Bytes, bytes_eq-ne}
use axm_sfn.Floats.{Float64}
use axm_sfn.HotBuffer.Tables.{PacketRow, QuoteRow, Buffer, Result, ok, err}
use axm_sfn.HotBuffer.Writes.{
  int64_limit, insert_packet, write_packet, set_tpm_sig, record_provenance_fault, write_quote,
}
use axm_sfn.HotBuffer.Outcomes.{write_packet-cases, set_tpm_sig-cases}
use axm_sfn.Moonraker.State.{is_active}
use axm_sfn.Telemetry.{Decision}
use axm_sfn.Tpm.{QuoteResult}
use axm_sfn.Custody.State.{Packetizer, Hashes, TickEnv}
use axm_sfn.Custody.Tick.{
  silence_reason, ensure_session, count_silence, should_quote, quoted, store_quote, maybe_quote,
  backfill, finish, write_tick, seal_tick, judge_tick, on_tick,
}

write_packet-faults :
    (up : Bool) (r : PacketRow) (b : Buffer) → (write_packet up r b).1.faults ≡ b.faults
unfolding insert_packet
write_packet-faults up r b = elim (write_packet-cases up r b) [
  | inl (_, failed) ↦ rw failed
  | inr (written, _, _) ↦ rw written
]

set_tpm_sig-faults :
    (up : Bool) (i : ℕ) (sig : Option Bytes) (q : ℕ) (b : Buffer)
    → (set_tpm_sig up i sig q b).1.faults ≡ b.faults
set_tpm_sig-faults up i sig q b = elim (set_tpm_sig-cases up i sig q b) [
  | inl same ↦ rw same
  | inr changed ↦ rw changed
]

write_quote-faults :
    (up : Bool) (now : ℕ) (q : QuoteRow) (b : Buffer) → (write_quote up now q b).1.faults ≡ b.faults
unfolding write_quote
write_quote-faults up now q b = ground arith

module _ {F : Type 0} where
  -- The counter and the faults are as before.
  record IsKept (p : Packetizer F) (b : Buffer) (p' : Packetizer F) (b' : Buffer) : Type 0 where
    silent_ticks : p'.silent_ticks ≡ p.silent_ticks
    faults : b'.faults ≡ b.faults

  IsKept-then :
      (p q r : Packetizer F) (a b c : Buffer) → IsKept p a q b → IsKept q b r c → IsKept p a r c
  IsKept-then p q r a b c k l = record {
    silent_ticks = l.silent_ticks ∙ k.silent_ticks;
    faults = l.faults ∙ k.faults;
  }

  quoted-IsKept :
      (env : TickEnv F) (p : Packetizer F) (r : Result ℕ × Buffer)
      → IsKept p r.1 (quoted env p r).1 (quoted env p r).2
  unfolding quoted
  quoted-IsKept env p (ok q, b) = record { silent_ticks = refl; faults = refl }
  quoted-IsKept env p (err e, b) = record { silent_ticks = refl; faults = refl }

  store_quote-IsKept :
      (env : TickEnv F) (p : Packetizer F) (b : Buffer) (qr : Option QuoteResult)
      → IsKept p b (store_quote env p b qr).1 (store_quote env p b qr).2
  unfolding store_quote
  store_quote-IsKept env p b none = record { silent_ticks = refl; faults = refl }
  store_quote-IsKept env p b (some qr) =
      let k = quoted-IsKept env p _ in
      record {
        silent_ticks = k.silent_ticks;
        faults = k.faults ∙ write_quote-faults env.quote_up env.now _ b;
      }

  backfill-faults :
      (env : TickEnv F) (i q : ℕ) (sig : Option Bytes) (b : Buffer)
      → (backfill env i q sig b).faults ≡ b.faults
  unfolding backfill
  backfill-faults env i q none b = refl
  backfill-faults env i q (some sig) b = set_tpm_sig-faults env.sig_up i (some sig) q b

  finish-IsKept :
      (env : TickEnv F) (link : Bytes) (q : ℕ) (sig : Option Bytes) (p : Packetizer F)
      (r : Result ℕ × Buffer)
      → IsKept p r.1 (finish env link q sig p r).0 (finish env link q sig p r).1
  unfolding finish
  finish-IsKept env link q sig p (ok i, b) = record {
    silent_ticks = refl;
    faults = backfill-faults env i q sig b;
  }
  finish-IsKept env link q sig p (err e, b) = record { silent_ticks = refl; faults = refl }

module _ (h : Hashes) {F : Type 0} where
  maybe_quote-IsKept :
      (env : TickEnv F) (sha : Bytes) (p : Packetizer F) (b : Buffer)
      → IsKept p b (maybe_quote h env sha p b).1 (maybe_quote h env sha p b).2
  unfolding maybe_quote
  maybe_quote-IsKept env sha p b = elim (Bool-cases (p.has_tpm && should_quote env.now p)) [
    | inl e ↦ rw e (store_quote-IsKept env p b _)
    | inr n ↦ rw n (record { silent_ticks = refl; faults = refl })
  ]

  seal_tick-IsKept :
      (env : TickEnv F) (d : Option Decision) (canonical : Option Bytes) (p : Packetizer F)
      (b : Buffer)
      → IsKept p b (seal_tick h env d canonical p b).0 (seal_tick h env d canonical p b).1
  unfolding seal_tick write_tick
  seal_tick-IsKept env d none p b = record { silent_ticks = refl; faults = refl }
  seal_tick-IsKept env d (some canonical) p b =
      let q = maybe_quote-IsKept env (h.sha256 canonical) p b in
      let f = finish-IsKept env _ _ _ _ _ in
      record {
        silent_ticks = f.silent_ticks ∙ q.silent_ticks;
        faults = f.faults ∙ (write_packet-faults env.packet_up _ _ ∙ q.faults);
      }

next_tick : (k : ℕ) → k < 2 ^ 63 - 1 → incr (pos k) ≡ pos (suc k)
next_tick k small = rw (==_ne k (2 ^ 63 - 1) (omega arith)) (ap pos (omega arith))

fault_recorded :
    (now : ℕ) (session : Bytes) (seq : ℕ) (reason : Bytes) (b : Buffer)
    → seq < 2 ^ 63
    → (record_provenance_fault true now session seq reason b).1.faults
      ≡ record { session_id = session; seq = seq; reason = reason; detected_at = now } ∷ b.faults
unfolding record_provenance_fault
fault_recorded now session seq reason b small = rw (lt→leb int64_limit seq small)

module _ {F : Type 0} where
  -- One more silent tick, or one more fault and a counter that starts again.
  abbrev pub Counted : ℕ → ℕ → TickEnv F → Packetizer F → Buffer → Packetizer F → Buffer → Type 0
  Counted k m env p b p' b' =
      ((k < m) × (p'.silent_ticks ≡ pos (suc k)) × (b'.faults ≡ b.faults))
      ⊎ ((k ≡ m)
          × (p'.silent_ticks ≡ pos 0)
          × (b'.faults
              ≡ record {
                session_id = p.session_id;
                seq = p.seq;
                reason = silence_reason;
                detected_at = env.now;
              }
                ∷ b.faults))

  count_silence-Counted :
      (k m : ℕ) (env : TickEnv F) (p : Packetizer F) (b : Buffer)
      → env.fault_up ≡ true
      → p.silent_ticks ≡ pos k
      → p.cfg.max_silent_ticks ≡ pos m
      → k ≤ m
      → m < 2 ^ 63 - 1
      → p.seq < 2 ^ 63
      → Counted k m env p b (count_silence env p b).0 (count_silence env p b).1
  unfolding count_silence
  count_silence-Counted k m env p b up at limit le small place = elim (Bool-cases (ltb m (suc k))) [
    | inl over ↦
        let past : ltb_ℤ (pos m) (pos (suc k)) ≡ true =
          lt→ltb (m + 0) (suc k + 0) (omega (arith, ltb→lt m (suc k) over)) in
        inr (
          omega (arith, ltb→lt m (suc k) over),
          rw (at, limit, next_tick k (omega arith), past),
          rw (at, limit, next_tick k (omega arith), past, up)
              (fault_recorded env.now p.session_id p.seq silence_reason b place),
        )
    | inr within ↦
        let under : ltb_ℤ (pos m) (pos (suc k)) ≡ false =
          le→ltb (m + 0) (suc k + 0) (omega (arith, ltb-false m (suc k) within)) in
        inl (
          omega (arith, ltb-false m (suc k) within),
          rw (at, limit, next_tick k (omega arith), under),
          rw (at, limit, next_tick k (omega arith), under),
        )
  ]

module _ (h : Hashes) {F : Type 0} ⦃fl : Float64 F⦄ where
  judge_tick-IsKept :
      (env : TickEnv F) (p : Packetizer F) (b : Buffer)
      → IsKept p b (judge_tick h env p b).0 (judge_tick h env p b).1
  unfolding judge_tick
  judge_tick-IsKept env p b =
      let s = seal_tick-IsKept h env _ _ _ b in
      record { silent_ticks = s.silent_ticks; faults = s.faults }

  pub same_session :
      (env : TickEnv F) (p : Packetizer F) → p.session_id ≢ [] → ensure_session env p ≡ p
  unfolding ensure_session
  same_session env p ne = rw (bytes_eq-ne p.session_id [] ne)

  Counted-then :
      (k m : ℕ) (env : TickEnv F) (p q r : Packetizer F) (a b c : Buffer)
      → Counted k m env p a q b
      → IsKept q b r c
      → Counted k m env p a r c
  Counted-then k m env p q r a b c (inl (lt, at, same)) kept =
      inl (lt, kept.silent_ticks ∙ at, kept.faults ∙ same)
  Counted-then k m env p q r a b c (inr (eq, at, more)) kept =
      inr (eq, kept.silent_ticks ∙ at, kept.faults ∙ more)

  -- A tick of an active print in a started session, after k ticks without a delta, with a limit of m
  -- silent ticks, k ≤ m: below the limit the counter goes on to k + 1 and no fault is recorded; at the
  -- limit one fault is recorded at the packetizer's place and the counter starts again at 0.
  pub on_tick-Counted :
      (k m : ℕ) (env : TickEnv F) (p : Packetizer F) (b : Buffer)
      → is_active p.state ≡ true
      → p.session_id ≢ []
      → env.fault_up ≡ true
      → p.silent_ticks ≡ pos k
      → p.cfg.max_silent_ticks ≡ pos m
      → k ≤ m
      → m < 2 ^ 63 - 1
      → p.seq < 2 ^ 63
      → let (p', b') = on_tick h env p b in Counted k m env p b p' b'
  unfolding on_tick
  on_tick-Counted k m env p b active started up at limit le small place =
      let c = count_silence env p b in
      let j = judge_tick h env c.0 c.1 in
      rw (active, same_session env p started)
        (Counted-then k m env p c.0 j.0 b c.1 j.1
          (count_silence-Counted k m env p b up at limit le small place)
          (judge_tick-IsKept env c.0 c.1))
