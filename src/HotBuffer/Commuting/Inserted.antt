-- ===== src/HotBuffer/Commuting/Inserted.antt =====
-- internal/hotbuffer: WritePacket adds a row that no statement of the uploader is about which goes by
-- older ones.
use axm_sfn.Common.{
  ℕ, ◌<◌, ◌≡◌, refl, sym, ap, ◌∙◌, Bool, true, false, not, List, [], ◌∷◌, inl, inr, arith, leb,
  if◌then◌else◌, Bool-cases, All,
}
use axm_sfn.Common.Text.{Bytes}
use axm_sfn.HotBuffer.Tables.{
  PacketRow, Packet, Buffer, ok, err, unavailable, out_of_range, unique_violation,
}
use axm_sfn.HotBuffer.Writes.{int64_limit, has_packet, insert_packet, write_packet}
use axm_sfn.HotBuffer.Segments.{
  mark_row, mark_rows, contains, hash_by_id, hashes_for, packet_hashes,
}
use axm_sfn.HotBuffer.Invariant.{taken, has_packet-taken}
use axm_sfn.HotBuffer.Outcomes.{write_packet-cases}
use axm_sfn.HotBuffer.Commuting.Marked.{
  Swap, Swap-of, Swap-idle, map_rows, mark_rows-through, segment, write_segment-through,
  write_segment-Kept,
}

not_contained : (i : ℕ) (ids : List ℕ) → All (λ j. j < i) ids → contains i ids ≡ false
unfolding contains
not_contained i [] h = refl
not_contained i (j ∷ ids) h = ground (arith, not_contained i ids h.1)

mark_row-newer :
    (seg j : ℕ) (p : Packet) (ps : List Packet)
    → j < p.id
    → mark_row seg j (p ∷ ps) ≡ p ∷ mark_row seg j ps
unfolding mark_row
mark_row-newer seg j p ps h = ground arith

hash_by_id-newer :
    (ids : List ℕ) (p : Packet) (ps : List Packet)
    → All (λ j. j < p.id) ids
    → hash_by_id ids (p ∷ ps) ≡ hash_by_id ids ps
unfolding hash_by_id
hash_by_id-newer ids p ps h = rw (not_contained p.id ids h) refl

hashes-newer :
    (on : Bool) (ids : List ℕ) (p : Packet) (b c : Buffer)
    → c.packets ≡ p ∷ b.packets
    → All (λ j. j < p.id) ids
    → packet_hashes on ids c ≡ packet_hashes on ids b
unfolding packet_hashes
hashes-newer on [] p b c e h = refl
hashes-newer on (i ∷ ids) p b c e h =
    ap (λ ps. packet_hashes on (i ∷ ids) (record b { packets = ps })) e
    ∙ ap (λ r. if not on then err unavailable else hashes_for (i ∷ ids) r)
        (hash_by_id-newer (i ∷ ids) p b.packets h)

module _ (ids : List ℕ) (b : Buffer) (old : All (λ j. j < b.next_packet) ids) where
  hashes-insert_packet :
      (on : Bool) (p : PacketRow)
      → packet_hashes on ids (insert_packet p b) ≡ packet_hashes on ids b
  unfolding insert_packet
  hashes-insert_packet on p = hashes-newer on ids _ b (insert_packet p b) refl old

  -- PacketHashes of older rows does not see it.
  pub packet_hashes-write_packet :
      (on up : Bool) (p : PacketRow)
      → packet_hashes on ids (write_packet up p b).1 ≡ packet_hashes on ids b
  packet_hashes-write_packet on up p = elim (write_packet-cases up p b) [
    | inl (e, same) ↦ ap (λ r. packet_hashes on ids r.1) same
    | inr (done, low, free) ↦ ap (λ r. packet_hashes on ids r.1) done ∙ hashes-insert_packet on p
  ]

  module _ (on : ℕ → Bool) (at : ℕ) (session : Bytes) (first last count : ℕ) (root : Bytes) where
    abbrev inserts : PacketRow → List Packet → List Packet
    inserts p ps = (insert_packet p (record b { packets = ps })).packets

    marks :
        (p : PacketRow)
        → mark_rows on 3 (insert_packet p b).next_segment ids (insert_packet p b).packets
          ≡ map_rows (inserts p) (mark_rows on 3 b.next_segment ids b.packets)
    unfolding insert_packet
    marks p =
        mark_rows-through (inserts p) on b.next_segment (λ j. j < b.next_packet)
          (λ j ps h. mark_row-newer b.next_segment j _ ps h) 3 ids b.packets old

    insert_packet-through :
        (p : PacketRow)
        → segment on at session first last count root ids (insert_packet p b) ≡ (
          (segment on at session first last count root ids b).0,
          insert_packet p (segment on at session first last count root ids b).1,
        )
    unfolding insert_packet
    insert_packet-through p =
        write_segment-through on at session first last count root ids (insert_packet p) (inserts p)
          b (marks p) (λ ps. refl)

    -- The place is free before WriteSegment where it is free after it.
    has_packet-segment :
        (owner : Bytes) (n : ℕ)
        → has_packet owner n (segment on at session first last count root ids b).1.packets
          ≡ has_packet owner n b.packets
    has_packet-segment owner n =
        let c = (segment on at session first last count root ids b).1 in
        let k = write_segment-Kept on at session first last count root ids b in
        has_packet-taken owner n c.packets
        ∙ ap (taken owner n) k.packet_keys
        ∙ sym (has_packet-taken owner n b.packets)

    -- WriteSegment of older rows and WritePacket may change places.
    pub write_packet-Swap :
        (up : Bool) (p : PacketRow)
        → Swap (write_packet up p) (segment on at session first last count root ids) b
    unfolding write_packet
    write_packet-Swap false p = Swap-idle _ _ b (err unavailable) refl refl
    write_packet-Swap true p =
        let c = (segment on at session first last count root ids b).1 in
        let k = write_segment-Kept on at session first last count root ids b in
        let same = has_packet-segment p.session_id p.seq in
        elim (Bool-cases (leb int64_limit p.seq)) [
          | inl big ↦ Swap-idle _ _ b (err out_of_range) (rw big refl) (rw big refl)
          | inr fits ↦ elim (Bool-cases (has_packet p.session_id p.seq b.packets)) [
            | inl there ↦
                Swap-idle _ _ b (err unique_violation) (rw (fits, there) refl)
                  (rw (fits, same ∙ there) refl)
            | inr free ↦
                Swap-of _ _ b (insert_packet p b) (insert_packet p c) (ok b.next_packet)
                  (rw (fits, free) refl)
                  (rw (fits, same ∙ free) (ap (λ n. (ok n, insert_packet p c)) k.next_packet))
                  (insert_packet-through p)
          ]
        ]
