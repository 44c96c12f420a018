-- ===== src/HotBuffer/Commuting/Views.antt =====
-- internal/hotbuffer: the tables as the packetizer wrote them, without what WriteSegment adds.
use axm_sfn.Common.{
  ℕ, ◌≡◌, refl, ap, ◌∙◌, Bool, true, false, not, ◌&&◌, ◌||◌, List, [], ◌∷◌, map, Option, none, some,
  inl, inr, arith, leb, ◌==◌, Bool-cases,
}
use axm_sfn.Common.Text.{Bytes, bytes_eq}
use axm_sfn.HotBuffer.Tables.{pending, PacketRow, Packet, QuoteRow, Buffer, ok}
use axm_sfn.HotBuffer.Writes.{
  int64_limit, has_packet, has_row, has_quote, insert_packet, write_packet, update_sig, set_tpm_sig,
  record_provenance_fault, write_quote,
}
use axm_sfn.HotBuffer.Segments.{mark_row, mark_rows, with_segment, commit, write_segment}

-- A row without upload_state and segment_id.
abbrev pub custody_row : Packet → Packet
custody_row p = record p { upload_state = pending; segment_id = none }

-- The tables without these columns and without the table of segments.
abbrev pub custody_view : Buffer → Buffer
custody_view b = record b { packets = map custody_row b.packets; segments = []; next_segment = 1 }

custody_row-mark_row :
    (seg i : ℕ) (ps : List Packet) → map custody_row (mark_row seg i ps) ≡ map custody_row ps
unfolding mark_row
custody_row-mark_row seg i [] = refl
custody_row-mark_row seg i (p ∷ ps) = ground (arith, custody_row-mark_row seg i ps)

custody_row-update_sig :
    (i : ℕ) (sig : Option Bytes) (q : ℕ) (ps : List Packet)
    → update_sig i sig q (map custody_row ps) ≡ map custody_row (update_sig i sig q ps)
unfolding update_sig
custody_row-update_sig i sig q [] = refl
custody_row-update_sig i sig q (p ∷ ps) = ground (arith, custody_row-update_sig i sig q ps)

custody_row-has_packet :
    (s : Bytes) (n : ℕ) (ps : List Packet) → has_packet s n (map custody_row ps) ≡ has_packet s n ps
unfolding has_packet
custody_row-has_packet s n [] = refl
custody_row-has_packet s n (p ∷ ps) =
    ap (λ t. (bytes_eq p.session_id s && p.seq == n) || t) (custody_row-has_packet s n ps)

custody_row-has_row : (i : ℕ) (ps : List Packet) → has_row i (map custody_row ps) ≡ has_row i ps
unfolding has_row
custody_row-has_row i [] = refl
custody_row-has_row i (p ∷ ps) = ap (λ t. p.id == i || t) (custody_row-has_row i ps)

custody_row-mark_rows :
    (up : ℕ → Bool) (k seg : ℕ) (ids : List ℕ) (ps qs : List Packet)
    → mark_rows up k seg ids ps ≡ some qs
    → map custody_row qs ≡ map custody_row ps
unfolding mark_rows
custody_row-mark_rows up k seg [] ps qs e = cc
custody_row-mark_rows up k seg (i ∷ ids) ps qs e = elim (Bool-cases (up k)) [
  | inl y ↦
      custody_row-mark_rows up (ℕ.suc k) seg ids (mark_row seg i ps) qs (rw y at e)
      ∙ custody_row-mark_row seg i ps
  | inr n ↦ absurd (ground (arith, rw n at e))
]

module _ (up : ℕ → Bool) (now : ℕ) (session : Bytes) (first last count : ℕ) (root : Bytes)
    (ids : List ℕ) where
  commit-custody_view :
      (t : Bool) (b : Buffer) (o : Option (List Packet))
      → ((ps : List Packet) → o ≡ some ps → map custody_row ps ≡ map custody_row b.packets)
      → custody_view (commit t (with_segment now session first last count root b o) b).1
        ≡ custody_view b
  commit-custody_view t b none same = refl
  commit-custody_view true b (some ps) same =
      ap (λ rows. record b { packets = rows; segments = []; next_segment = 1 }) (same ps refl)
  commit-custody_view false b (some ps) same = refl

  -- WriteSegment writes nothing of the packetizer's.
  pub custody_view-write_segment :
      (b : Buffer)
      → custody_view (write_segment up now session first last count root ids b).1 ≡ custody_view b
  unfolding write_segment
  custody_view-write_segment b =
      let done =
        commit-custody_view (up 2) b (mark_rows up 3 b.next_segment ids b.packets)
          (custody_row-mark_rows up 3 b.next_segment ids b.packets) in
      ground (arith, done)

-- A statement of the packetizer goes by its view, and keeps to it.
abbrev pub KeepsView : {R : Type 0} → (Buffer → R × Buffer) → Type 0
KeepsView statement =
    (b : Buffer) → statement (custody_view b) ≡ ((statement b).0, custody_view (statement b).1)

pub record_provenance_fault-KeepsView :
    (up : Bool) (now : ℕ) (session : Bytes) (seq : ℕ) (reason : Bytes)
    → KeepsView (record_provenance_fault up now session seq reason)
unfolding record_provenance_fault
record_provenance_fault-KeepsView false now session seq reason b = refl
record_provenance_fault-KeepsView true now session seq reason b =
    elim (Bool-cases (leb int64_limit seq)) [ inl big ↦ rw big refl | inr fits ↦ rw fits refl ]

pub write_quote-KeepsView :
    (up : Bool) (now : ℕ) (row : QuoteRow) → KeepsView (write_quote up now row)
unfolding write_quote
write_quote-KeepsView false now row b = refl
write_quote-KeepsView true now row b = elim (Bool-cases (leb int64_limit row.seq)) [
  | inl big ↦ rw big refl
  | inr fits ↦ rw fits refl
]

pub set_tpm_sig-KeepsView :
    (up : Bool) (i : ℕ) (sig : Option Bytes) (q : ℕ) → KeepsView (set_tpm_sig up i sig q)
unfolding set_tpm_sig
set_tpm_sig-KeepsView false i sig q b = refl
set_tpm_sig-KeepsView true i sig q b =
    let same = custody_row-has_row i b.packets in
    elim (Bool-cases (has_row i b.packets && not (has_quote q b.quotes))) [
      | inl bad ↦ rw (same, bad) refl
      | inr good ↦
          rw (same, good)
            (ap (λ rows. (ok tt, record b { packets = rows; segments = []; next_segment = 1 }))
              (custody_row-update_sig i sig q b.packets))
    ]

pub write_packet-KeepsView : (up : Bool) (p : PacketRow) → KeepsView (write_packet up p)
unfolding write_packet insert_packet
write_packet-KeepsView false p b = refl
write_packet-KeepsView true p b =
    let same = custody_row-has_packet p.session_id p.seq b.packets in
    elim (Bool-cases (leb int64_limit p.seq)) [
      | inl big ↦ rw big refl
      | inr fits ↦ elim (Bool-cases (has_packet p.session_id p.seq b.packets)) [
        | inl there ↦ rw (fits, same, there) refl
        | inr free ↦ rw (fits, same, free) refl
      ]
    ]
