-- ===== src/Custody/Quoted.antt =====
-- internal/custody/packetizer.go: the quotes that packets name, across the statements of a tick.
pub mod Sealed
pub mod Runs
use axm_sfn.Common.{
  ℕ, suc, ◌≡◌, ◌≤◌, ◌<◌, ◌^◌, ◌+◌, ◌%◌, ◌⊎◌, inl, inr, refl, sym, ap, ◌∙◌, subst, Bool, true, false,
  ◌&&◌, ◌||◌, ◌==◌, List, [], ◌∷◌, Option, none, some, arith, All, All-mono, leb, le→leb, leb→le,
  ==_refl, Bool-cases, if◌then◌else◌,
}
use axm_sfn.Common.Text.{Bytes, bytes_eq, bytes_eq_refl}
use axm_sfn.HotBuffer.Tables.{
  Packet, PacketRow, Quote, QuoteRow, Buffer, Result, Error, ok, err, unavailable, out_of_range,
}
use axm_sfn.HotBuffer.Writes.{
  int64_limit, write_quote, insert_packet, write_packet, update_sig, set_tpm_sig,
}
use axm_sfn.HotBuffer.Invariant.{IsValid}
use axm_sfn.HotBuffer.Statements.{write_packet-IsValid, set_tpm_sig-IsValid, write_quote-IsValid}
use axm_sfn.HotBuffer.Outcomes.{write_packet-cases, set_tpm_sig-cases, update_sig_older}
use axm_sfn.Telemetry.{Decision}
use axm_sfn.Tpm.{QuoteResult}
use axm_sfn.Custody.State.{Packetizer, Hashes, TickEnv}
use axm_sfn.Custody.Tick.{
  should_quote, quoted, store_quote, maybe_quote, backfill, finish, write_tick, seal_tick,
  anomaly_of,
}
use axm_sfn.Custody.Unquoted.{backfill_zero, first_row}
use axm_sfn.Custody.Written.{row}

-- The number is that of a quote of the session, of the place or one before it.
abbrev pub is_own : ℕ → Bytes → ℕ → List Quote → Bool
is_own q session place [] = false
is_own q session place (x ∷ xs) =
    (x.id == q && (bytes_eq x.row.session_id session && leb x.row.seq place))
    || is_own q session place xs

abbrev pub NamesOwn : List Quote → Packet → Option Bytes → Option ℕ → Type 0
NamesOwn quotes p none none = Unit
NamesOwn quotes p (some sig) (some q) = is_own q p.session_id p.seq quotes ≡ true
NamesOwn quotes p _ _ = ⊥

-- A packet has a signature where it names a quote, one of its own session, taken no later than at its
-- own place; otherwise it has neither.
abbrev pub HasOwnQuote : List Quote → Packet → Type 0
HasOwnQuote quotes p = NamesOwn quotes p p.tpm_sig p.quote_ref

pub is_own-later :
    (q : ℕ) (session : Bytes) (n m : ℕ) (qs : List Quote)
    → n ≤ m
    → is_own q session n qs ≡ true
    → is_own q session m qs ≡ true
is_own-later q session n m [] le own = own
is_own-later q session n m (x ∷ xs) le own = ground (arith, is_own-later q session n m xs le)

is_own-more :
    (q : ℕ) (session : Bytes) (n : ℕ) (x : Quote) (qs : List Quote)
    → is_own q session n qs ≡ true
    → is_own q session n (x ∷ qs) ≡ true
is_own-more q session n x qs own = ground (arith, own)

pub NamesOwn-more :
    (x : Quote) (qs : List Quote) (p : Packet) (sig : Option Bytes) (o : Option ℕ)
    → NamesOwn qs p sig o
    → NamesOwn (x ∷ qs) p sig o
NamesOwn-more x qs p none none own = tt
NamesOwn-more x qs p (some sig) (some q) own = is_own-more q p.session_id p.seq x qs own
NamesOwn-more x qs p none (some q) own = own
NamesOwn-more x qs p (some sig) none own = own

-- WriteQuote fails and changes nothing, or inserts a row.
pub write_quote-cases :
    (up : Bool) (now : ℕ) (q : QuoteRow) (b : Buffer)
    → ((e : Error) × (write_quote up now q b ≡ (err e, b)))
      ⊎ (write_quote up now q b ≡ (
        ok b.next_quote,
        record b {
          quotes = record { id = b.next_quote; row = q; created_at = now } ∷ b.quotes;
          next_quote = suc b.next_quote;
        },
      ))
unfolding write_quote
write_quote-cases false now q b = inl (unavailable, refl)
write_quote-cases true now q b = elim (Bool-cases (leb int64_limit q.seq)) [
  | inl big ↦ inl (out_of_range, rw big)
  | inr fits ↦ inr (rw fits)
]

-- Valid tables whose signed packets name quotes of their own, and a number that is no quote or one of the
-- session's, of the place or before.
pub record IsQuoted (q : ℕ) (session : Bytes) (place : ℕ) (b : Buffer) : Type 0 where
  pub valid : IsValid b
  pub rows : All (HasOwnQuote b.quotes) b.packets
  pub current : (q ≡ 0) ⊎ (is_own q session place b.quotes ≡ true)

pub IsQuoted-none :
    {q place : ℕ} {session : Bytes} {b : Buffer} (s : Bytes) (n : ℕ)
    → IsQuoted q session place b
    → IsQuoted 0 s n b
IsQuoted-none s n i = record { valid = i.valid; rows = i.rows; current = inl refl }

pub IsQuoted-next :
    {q place : ℕ} {session : Bytes} {b : Buffer}
    → IsQuoted q session place b
    → IsQuoted q session (suc place) b
IsQuoted-next {q} {place} {session} {b} i = record {
  valid = i.valid;
  rows = i.rows;
  current = elim i.current [
    | inl e ↦ inl e
    | inr own ↦ inr (is_own-later q session place (suc place) b.quotes (omega arith) own)
  ];
}

pub insert-IsQuoted :
    (r : PacketRow) (q : ℕ) (session : Bytes) (place : ℕ) (b : Buffer)
    → IsValid (insert_packet r b)
    → IsQuoted q session place b
    → IsQuoted q session place (insert_packet r b)
unfolding insert_packet
insert-IsQuoted r q session place b v i = record {
  valid = v;
  rows = (tt, i.rows);
  current = i.current;
}

-- SetTPMSig gives the newest row a quote of its own session.
pub signed-IsQuoted :
    (up : Bool) (r : PacketRow) (sig : Bytes) (q : ℕ) (b : Buffer)
    → is_own q r.session_id r.seq b.quotes ≡ true
    → IsValid (insert_packet r b)
    → IsQuoted q r.session_id r.seq b
    → IsQuoted q r.session_id r.seq
        (set_tpm_sig up b.next_packet (some sig) q (insert_packet r b)).1
unfolding insert_packet update_sig
signed-IsQuoted up r sig q b own v i =
    let written = insert_packet r b in
    let signed = set_tpm_sig-IsValid up b.next_packet (some sig) q written v in
    elim (set_tpm_sig-cases up b.next_packet (some sig) q written) [
      | inl same ↦ rw same (insert-IsQuoted r q r.session_id r.seq b v i)
      | inr changed ↦
          let older =
            update_sig_older b.next_packet (some sig) q b.next_packet b.packets i.valid.packet_keys
              (omega arith) in
          subst (IsQuoted q r.session_id r.seq) (sym changed) (record {
            valid = rw changed at signed;
            rows = rw (==_refl b.next_packet, older) (own, i.rows);
            current = inr own;
          })
    ]

module _ {F : Type 0} where
  abbrev pub Quoted : Packetizer F × Buffer → Type 0
  Quoted (p, b) = IsQuoted p.last_quote_id p.session_id p.seq b
