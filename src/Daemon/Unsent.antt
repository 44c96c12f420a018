-- ===== src/Daemon/Unsent.antt =====
-- internal/hotbuffer/buffer.go: the packetizer's statements on tables from which nothing was sent.
use axm_sfn.Common.{
  ℕ, ◌≡◌, inl, inr, refl, Bool, List, [], ◌∷◌, Option, arith, All, Bool-cases, ◌==◌,
}
use axm_sfn.Common.Text.{Bytes}
use axm_sfn.Encoding.Hex.{IsHexDigit}
use axm_sfn.HotBuffer.Tables.{pending, Packet, PacketRow, QuoteRow, Buffer}
use axm_sfn.HotBuffer.Writes.{
  insert_packet, write_packet, update_sig, set_tpm_sig, record_provenance_fault, write_quote,
}
use axm_sfn.HotBuffer.Outcomes.{write_packet-cases, set_tpm_sig-cases}

-- A packet of a session whose name is hexadecimal text, that waits.
abbrev pub Waits : Packet → Type 0
Waits r = All IsHexDigit r.session_id × (r.upload_state ≡ pending)

-- Every packet waits, and there is no segment.
pub record IsUnsent (b : Buffer) : Type 0 where
  pub packets : All Waits b.packets
  pub segments : b.segments ≡ []

insert_packet-IsUnsent :
    (r : PacketRow) (b : Buffer)
    → All IsHexDigit r.session_id
    → IsUnsent b
    → IsUnsent (insert_packet r b)
unfolding insert_packet
insert_packet-IsUnsent r b hex u = record {
  packets = ((hex, refl), u.packets);
  segments = u.segments;
}

pub write_packet-IsUnsent :
    (up : Bool) (r : PacketRow) (b : Buffer)
    → All IsHexDigit r.session_id
    → IsUnsent b
    → IsUnsent (write_packet up r b).1
write_packet-IsUnsent up r b hex u = elim (write_packet-cases up r b) [
  | inl (_, failed) ↦ rw failed u
  | inr (written, _, _) ↦ rw written (insert_packet-IsUnsent r b hex u)
]

update_sig-Waits :
    (i : ℕ) (sig : Option Bytes) (q : ℕ) (ps : List Packet)
    → All Waits ps
    → All Waits (update_sig i sig q ps)
unfolding update_sig
update_sig-Waits i sig q [] a = tt
update_sig-Waits i sig q (p ∷ ps) a = elim (Bool-cases (p.id == i)) [
  | inl e ↦ rw e (a.0, update_sig-Waits i sig q ps a.1)
  | inr n ↦ rw n (a.0, update_sig-Waits i sig q ps a.1)
]

pub set_tpm_sig-IsUnsent :
    (up : Bool) (i : ℕ) (sig : Option Bytes) (q : ℕ) (b : Buffer)
    → IsUnsent b
    → IsUnsent (set_tpm_sig up i sig q b).1
set_tpm_sig-IsUnsent up i sig q b u = elim (set_tpm_sig-cases up i sig q b) [
  | inl same ↦ rw same u
  | inr changed ↦
      rw changed
        (record { packets = update_sig-Waits i sig q b.packets u.packets; segments = u.segments })
]

pub record_provenance_fault-IsUnsent :
    (up : Bool) (now : ℕ) (session : Bytes) (seq : ℕ) (reason : Bytes) (b : Buffer)
    → IsUnsent b
    → IsUnsent (record_provenance_fault up now session seq reason b).1
unfolding record_provenance_fault
record_provenance_fault-IsUnsent up now session seq reason b u = ground arith

pub write_quote-IsUnsent :
    (up : Bool) (now : ℕ) (q : QuoteRow) (b : Buffer)
    → IsUnsent b
    → IsUnsent (write_quote up now q b).1
unfolding write_quote
write_quote-IsUnsent up now q b u = ground arith
