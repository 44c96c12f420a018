-- ===== src/Custody/Places.antt =====
-- internal/custody/packetizer.go: the next place of a session's chain is free.
use axm_sfn.Common.{
  ℕ, ◌^◌, ◌<◌, ◌≡◌, inl, inr, refl, true, false, List, [], ◌∷◌, Option, arith, All, All-mono, ==_ne,
  Bool-cases, lt→leb,
}
use axm_sfn.Common.Text.{Bytes, bytes_eq}
use axm_sfn.HotBuffer.Tables.{Packet, PacketRow, Buffer, ok}
use axm_sfn.HotBuffer.Writes.{int64_limit, has_packet, insert_packet, write_packet}
use axm_sfn.Custody.State.{Hashes}
use axm_sfn.Custody.Chain.{session_rows, IsChain}

module _ (h : Hashes) where
  -- A chain of n packets has the places below n.
  pub IsChain-below :
      (s : Bytes) (n : ℕ) (link : Option Bytes) (rows : List Packet)
      → IsChain h s n link rows
      → All (λ r. r.seq < n) rows
  IsChain-below s n link [] c = tt
  IsChain-below s n link (r ∷ rs) (prev, l, c) =
      let place = l.place in
      (
        omega arith,
        All-mono (λ q. q.seq < r.seq) (λ q. q.seq < n) rs (λ q k. omega arith)
            (IsChain-below s r.seq prev rs c),
      )

pub free_place :
    (s : Bytes) (n : ℕ) (ps : List Packet)
    → All (λ r. r.seq < n) (session_rows s ps)
    → has_packet s n ps ≡ false
unfolding has_packet
free_place s n [] a = refl
free_place s n (p ∷ ps) a = elim (Bool-cases (bytes_eq p.session_id s)) [
  | inl e ↦
      let older : (p.seq < n) × All (λ r. r.seq < n) (session_rows s ps) = rw e at a in
      rw (e, ==_ne p.seq n (omega (arith, older.0))) (free_place s n ps older.1)
  | inr e ↦
      let older : All (λ r. r.seq < n) (session_rows s ps) = rw e at a in
      rw e (free_place s n ps older)
]

pub write_packet-ok :
    (p : PacketRow) (b : Buffer)
    → p.seq < 2 ^ 63
    → has_packet p.session_id p.seq b.packets ≡ false
    → write_packet true p b ≡ (ok b.next_packet, insert_packet p b)
unfolding write_packet
write_packet-ok p b small free = rw (lt→leb int64_limit p.seq small, free)
