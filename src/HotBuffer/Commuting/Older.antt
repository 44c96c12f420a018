-- ===== src/HotBuffer/Commuting/Older.antt =====
-- internal/hotbuffer: the rows that PendingRange returns are older than those that WritePacket will add.
use axm_sfn.Common.{
  ℕ, zero, suc, ◌≤◌, ◌<◌, Bool, true, false, List, [], ◌∷◌, map, Option, arith, take, select, All,
  All-take,
}
use axm_sfn.Common.Int.{ℤ, pos, negsuc}
use axm_sfn.Common.Text.{Bytes}
use axm_sfn.HotBuffer.Tables.{PacketRow, Packet, QuoteRow, Buffer, Result, ok, err}
use axm_sfn.HotBuffer.Writes.{
  insert_packet, write_packet, set_tpm_sig, record_provenance_fault, write_quote,
}
use axm_sfn.HotBuffer.Segments.{is_waiting, limit, order_by_seq, contiguous_range, pending_range}
use axm_sfn.HotBuffer.Invariant.{IsValid}
use axm_sfn.HotBuffer.Order.{order_by_seq-All, select-All}
use axm_sfn.HotBuffer.Drain.{below}

-- The rows of an answer have numbers below the bound.
abbrev pub RowsBelow : ℕ → Result (ℕ × ℕ × List ℕ) → Type 0
RowsBelow n (err e) = Unit
RowsBelow n (ok (first, last, ids)) = All (λ i. i < n) ids

module _ (n : ℕ) where
  take_ids :
      (k : ℕ) (ps : List Packet)
      → All (λ q. q.id < n) ps
      → All (λ i. i < n) (take k (map (λ (q : Packet). q.id) ps))
  take_ids zero ps h = tt
  take_ids (suc k) [] h = tt
  take_ids (suc k) (p ∷ ps) h = (h.0, take_ids k ps h.1)

  limit-below :
      (k : ℤ) (ps : List Packet) → All (λ q. q.id < n) ps → All (λ q. q.id < n) (limit k ps)
  limit-below (pos k) ps h = All-take (λ q. q.id < n) k ps h
  limit-below (negsuc k) ps h = h

  range-below : (ps : List Packet) → All (λ q. q.id < n) ps → RowsBelow n (ok (contiguous_range ps))
  unfolding contiguous_range
  range-below [] h = tt
  range-below (p ∷ ps) h = (h.0, take_ids _ ps h.1)

-- On valid tables PendingRange returns rows that are there.
pub pending_range-RowsBelow :
    (on : Bool) (session : Bytes) (max : ℤ) (b : Buffer)
    → IsValid b
    → RowsBelow b.next_packet (pending_range on session max b)
unfolding pending_range
pending_range-RowsBelow false session max b v = tt
pending_range-RowsBelow true session max b v =
    let n = b.next_packet in
    let waiting = select (is_waiting session) b.packets in
    range-below n (limit max (order_by_seq waiting)) (
      limit-below n max (order_by_seq waiting) (
        order_by_seq-All (λ q. q.id < n) waiting
          (select-All (λ q. q.id < n) (is_waiting session) b.packets
            (below n b.packets v.packet_keys))))

module _ (n : ℕ) (b : Buffer) (h : n ≤ b.next_packet) where
  pub write_packet-next : (up : Bool) (p : PacketRow) → n ≤ (write_packet up p b).1.next_packet
  unfolding write_packet insert_packet
  write_packet-next up p = ground arith

  pub set_tpm_sig-next :
      (up : Bool) (i : ℕ) (sig : Option Bytes) (q : ℕ)
      → n ≤ (set_tpm_sig up i sig q b).1.next_packet
  unfolding set_tpm_sig
  set_tpm_sig-next up i sig q = ground arith

  pub record_provenance_fault-next :
      (up : Bool) (now : ℕ) (session : Bytes) (seq : ℕ) (reason : Bytes)
      → n ≤ (record_provenance_fault up now session seq reason b).1.next_packet
  unfolding record_provenance_fault
  record_provenance_fault-next up now session seq reason = ground arith

  pub write_quote-next :
      (up : Bool) (now : ℕ) (row : QuoteRow) → n ≤ (write_quote up now row b).1.next_packet
  unfolding write_quote
  write_quote-next up now row = ground arith
