-- ===== src/HotBuffer/Outcomes.antt =====
-- internal/hotbuffer/buffer.go: how the statements of the custody clock can end.
use axm_sfn.Common.{
  ℕ, ◌^◌, ◌≤◌, ◌<◌, ◌≡◌, ◌⊎◌, inl, inr, refl, Bool, true, false, not, ◌&&◌, List, [], ◌∷◌, Option,
  arith, leb, Bool-cases,
}
use axm_sfn.Common.Text.{Bytes}
use axm_sfn.HotBuffer.Tables.{
  PacketRow, Packet, Quote, QuoteRow, Buffer, Error, ok, err, unavailable, out_of_range,
  unique_violation,
}
use axm_sfn.HotBuffer.Writes.{
  int64_limit, has_packet, has_quote, has_row, insert_packet, write_packet, update_sig, set_tpm_sig,
  record_provenance_fault, write_quote,
}
use axm_sfn.HotBuffer.Invariant.{keys, KeysValid, QuotesValid}

-- WritePacket fails and changes nothing, or inserts a row at a place that was free and fits 63 bits.
pub write_packet-cases :
    (up : Bool) (p : PacketRow) (b : Buffer)
    → ((e : Error) × (write_packet up p b ≡ (err e, b)))
      ⊎ ((write_packet up p b ≡ (ok b.next_packet, insert_packet p b))
          × (p.seq < 2 ^ 63)
          × (has_packet p.session_id p.seq b.packets ≡ false))
unfolding write_packet
write_packet-cases false p b = inl (unavailable, refl)
write_packet-cases true p b = elim (Bool-cases (leb int64_limit p.seq)) [
  | inl big ↦ inl (out_of_range, rw big)
  | inr fits ↦ elim (Bool-cases (has_packet p.session_id p.seq b.packets)) [
    | inl there ↦ inl (unique_violation, rw (fits, there))
    | inr free ↦ inr (rw (fits, free), ground arith, free)
  ]
]

-- SetTPMSig changes nothing, or updates the row.
pub set_tpm_sig-cases :
    (up : Bool) (i : ℕ) (sig : Option Bytes) (q : ℕ) (b : Buffer)
    → ((set_tpm_sig up i sig q b).1 ≡ b)
      ⊎ ((set_tpm_sig up i sig q b).1 ≡ record b { packets = update_sig i sig q b.packets })
unfolding set_tpm_sig
set_tpm_sig-cases false i sig q b = inl refl
set_tpm_sig-cases true i sig q b =
    elim (Bool-cases (has_row i b.packets && not (has_quote q b.quotes))) [
      | inl bad ↦ inl (rw bad)
      | inr good ↦ inr (rw good)
    ]

pub packets-record_provenance_fault :
    (up : Bool) (now : ℕ) (session : Bytes) (seq : ℕ) (reason : Bytes) (b : Buffer)
    → (record_provenance_fault up now session seq reason b).1.packets ≡ b.packets
unfolding record_provenance_fault
packets-record_provenance_fault up now session seq reason b = ground arith

pub packets-write_quote :
    (up : Bool) (now : ℕ) (q : QuoteRow) (b : Buffer)
    → (write_quote up now q b).1.packets ≡ b.packets
unfolding write_quote
packets-write_quote up now q b = ground arith

-- Rows below the bound are not the one that is updated.
pub update_sig_older :
    (i : ℕ) (sig : Option Bytes) (q n : ℕ) (ps : List Packet)
    → KeysValid n (keys ps)
    → n ≤ i
    → update_sig i sig q ps ≡ ps
unfolding update_sig
update_sig_older i sig q n [] k h = refl
update_sig_older i sig q n (p ∷ ps) k h =
    let rest = update_sig_older i sig q p.id ps k.3 (omega (arith, k.0)) in
    let older : p.id < i = omega (arith, k.0) in ground (arith, rest, older)

QuotesValid-pos : (n : ℕ) (qs : List Quote) → QuotesValid n qs → 1 ≤ n
QuotesValid-pos n [] v = v
QuotesValid-pos n (q ∷ qs) v = omega arith

-- AUTOINCREMENT never gives the number 0.
pub has_quote_zero : (n : ℕ) (qs : List Quote) → QuotesValid n qs → has_quote 0 qs ≡ false
unfolding has_quote
has_quote_zero n [] v = refl
has_quote_zero n (q ∷ qs) v =
    ground (arith, has_quote_zero q.id qs v.1, QuotesValid-pos q.id qs v.1)
