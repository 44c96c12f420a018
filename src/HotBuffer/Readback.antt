-- ===== src/HotBuffer/Readback.antt =====
-- internal/hotbuffer/hashes.go: PacketHashes against the rows that WritePacket leaves.
use axm_sfn.Common.{
  ℕ, ◌≤◌, ◌≡◌, refl, sym, ap, ◌∙◌, inl, inr, true, List, [], ◌∷◌, some, none, arith, All, ==_refl,
  if◌then◌else◌,
}
use axm_sfn.Common.Text.{Bytes}
use axm_sfn.Encoding.Hex.{IsByte, hex_decode-hex_encode}
use axm_sfn.HotBuffer.Tables.{PacketRow, Packet, Buffer, ok}
use axm_sfn.HotBuffer.Writes.{hex_or_nil, insert_packet, write_packet}
use axm_sfn.HotBuffer.Outcomes.{write_packet-cases}
use axm_sfn.HotBuffer.Segments.{contains, hash_by_id, packet_hashes}
use axm_sfn.HotBuffer.Invariant.{keys, KeysValid, IsValid}

-- No row has a number from the bound on.
hash_by_id-absent :
    (i n : ℕ) (ps : List Packet) → n ≤ i → KeysValid n (keys ps) → hash_by_id (i ∷ []) ps ≡ ok []
unfolding hash_by_id contains
hash_by_id-absent i n [] le v = refl
hash_by_id-absent i n (p ∷ ps) le v = ground (arith, hash_by_id-absent i p.id ps)

insert_packet-packet_hashes :
    (p : PacketRow) (b : Buffer) (hash : Bytes)
    → IsValid b
    → All IsByte hash
    → p.packet_blake3 ≡ some hash
    → packet_hashes true (b.next_packet ∷ []) (insert_packet p b) ≡ ok (some hash ∷ [])
unfolding packet_hashes insert_packet hash_by_id contains hex_or_nil
insert_packet-packet_hashes p b hash v bytes e =
    rw
      (
        ==_refl b.next_packet,
        e,
        hex_decode-hex_encode hash bytes,
        hash_by_id-absent b.next_packet b.next_packet b.packets (omega arith) v.packet_keys,
      )
      (ap (λ t. ok ((if t then some hash else none) ∷ [])) (==_refl b.next_packet))

-- A hash that WritePacket stored is what PacketHashes reads at the number that WritePacket gave, in
-- valid tables and whatever rows they hold.
pub packet_hashes-write_packet :
    (p : PacketRow) (b after : Buffer) (i : ℕ) (hash : Bytes)
    → IsValid b
    → All IsByte hash
    → p.packet_blake3 ≡ some hash
    → write_packet true p b ≡ (ok i, after)
    → packet_hashes true (i ∷ []) after ≡ ok (some hash ∷ [])
packet_hashes-write_packet p b after i hash v bytes e w = elim (write_packet-cases true p b) [
  | inl (f, failed) ↦ absurd (ground (arith, sym failed ∙ w))
  | inr (written, small, free) ↦
      let same = sym written ∙ w in
      let at : b.next_packet ≡ i = ground (arith, same) in
      let end : insert_packet p b ≡ after = ap (λ r. r.1) same in
      rw (← at, ← end) (insert_packet-packet_hashes p b hash v bytes e)
]
