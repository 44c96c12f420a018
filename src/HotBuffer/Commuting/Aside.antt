-- ===== src/HotBuffer/Commuting/Aside.antt =====
-- internal/hotbuffer: RecordProvenanceFault and WriteQuote write no table that the uploader reads or writes.
use axm_sfn.Common.{
  ℕ, suc, ◌≡◌, refl, ap, ◌∙◌, Bool, true, false, List, [], ◌∷◌, inl, inr, leb, Bool-cases,
  if◌then◌else◌,
}
use axm_sfn.Common.Int.{ℤ}
use axm_sfn.Common.Text.{Bytes}
use axm_sfn.HotBuffer.Tables.{Packet, QuoteRow, Buffer, ok, err, unavailable, out_of_range}
use axm_sfn.HotBuffer.Writes.{int64_limit, record_provenance_fault, write_quote}
use axm_sfn.HotBuffer.Segments.{mark_rows, pending_range, packet_hashes}
use axm_sfn.HotBuffer.Commuting.Marked.{
  Swap, Swap-of, Swap-idle, map_rows_id, segment, added, write_segment-through, write_segment-Kept,
}

-- The reads of the uploader go by the rows alone.
pub pending_range-packets :
    (on : Bool) (session : Bytes) (max : ℤ) (b c : Buffer)
    → c.packets ≡ b.packets
    → pending_range on session max c ≡ pending_range on session max b
unfolding pending_range
pending_range-packets on session max b c e =
    ap (λ ps. pending_range on session max (record b { packets = ps })) e

pub packet_hashes-packets :
    (on : Bool) (ids : List ℕ) (b c : Buffer)
    → c.packets ≡ b.packets
    → packet_hashes on ids c ≡ packet_hashes on ids b
unfolding packet_hashes
packet_hashes-packets on [] b c e = refl
packet_hashes-packets on (i ∷ ids) b c e =
    ap (λ ps. packet_hashes on (i ∷ ids) (record b { packets = ps })) e

module _ (on : ℕ → Bool) (at : ℕ) (session : Bytes) (first last count : ℕ) (root : Bytes)
    (ids : List ℕ) (b : Buffer) where
  -- A change of other tables goes along with WriteSegment.
  aside-Swap :
      (g : Buffer → Buffer)
      → (g b).packets ≡ b.packets
      → (g b).next_segment ≡ b.next_segment
      → ((ps : List Packet)
          → added on at session first last count root ids ps (g b)
            ≡ g (added on at session first last count root ids ps b))
      → segment on at session first last count root ids (g b) ≡ (
        (segment on at session first last count root ids b).0,
        g (segment on at session first last count root ids b).1,
      )
  aside-Swap g rows next add =
      write_segment-through on at session first last count root ids g (λ ps. ps) b
        (ap (λ n. mark_rows on 3 n ids (g b).packets) next
          ∙ ap (mark_rows on 3 b.next_segment ids) rows
          ∙ map_rows_id (mark_rows on 3 b.next_segment ids b.packets))
        add

  pub record_provenance_fault-Swap :
      (up : Bool) (now : ℕ) (owner : Bytes) (seq : ℕ) (reason : Bytes)
      → Swap
          (record_provenance_fault up now owner seq reason)
          (segment on at session first last count root ids)
          b
  unfolding record_provenance_fault
  record_provenance_fault-Swap false now owner seq reason =
      Swap-idle _ _ b (err unavailable) refl refl
  record_provenance_fault-Swap true now owner seq reason = elim (Bool-cases (leb int64_limit seq)) [
    | inl big ↦ Swap-idle _ _ b (err out_of_range) (rw big refl) (rw big refl)
    | inr fits ↦
        let c = (segment on at session first last count root ids b).1 in
        let g : Buffer → Buffer = λ (d : Buffer). record d {
          faults =
              record { session_id = owner; seq = seq; reason = reason; detected_at = now }
              ∷ d.faults;
        } in
        Swap-of _ _ b (g b) (g c) (ok tt) (rw fits refl) (rw fits refl)
          (aside-Swap g refl refl (λ ps. refl))
  ]

  pub write_quote-Swap :
      (up : Bool) (now : ℕ) (row : QuoteRow)
      → Swap (write_quote up now row) (segment on at session first last count root ids) b
  unfolding write_quote
  write_quote-Swap false now row = Swap-idle _ _ b (err unavailable) refl refl
  write_quote-Swap true now row = elim (Bool-cases (leb int64_limit row.seq)) [
    | inl big ↦ Swap-idle _ _ b (err out_of_range) (rw big refl) (rw big refl)
    | inr fits ↦
        let c = (segment on at session first last count root ids b).1 in
        let k = write_segment-Kept on at session first last count root ids b in
        let g : Buffer → Buffer = λ (d : Buffer). record d {
          quotes = record { id = d.next_quote; row = row; created_at = now } ∷ d.quotes;
          next_quote = suc d.next_quote;
        } in
        Swap-of _ _ b (g b) (g c) (ok b.next_quote) (rw fits refl)
          (ap (λ t. if t then (err out_of_range, c) else (ok c.next_quote, g c)) fits
            ∙ ap (λ n. (ok n, g c)) k.next_quote)
          (aside-Swap g refl refl (λ ps. refl))
  ]
