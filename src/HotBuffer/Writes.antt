-- ===== src/HotBuffer/Writes.antt =====
-- internal/hotbuffer/buffer.go: the statements that write packets, signatures, faults, keys and quotes.
use axm_sfn.Common.{
  ℕ, suc, ◌^◌, Bool, false, not, ◌&&◌, ◌||◌, List, [], ◌∷◌, Option, none, some, ◌==◌, leb,
  if◌then◌else◌,
}
use axm_sfn.Common.Text.{Bytes, bytes_eq}
use axm_sfn.Encoding.{hex_encode}
use axm_sfn.HotBuffer.Tables.{
  pending, PacketRow, Packet, QuoteRow, Quote, AttestationKey, Buffer, unavailable, out_of_range,
  unique_violation, foreign_key_violation, Result, ok, err,
}

-- database/sql refuses a uint64 with the high bit set.
abbrev pub int64_limit : ℕ
int64_limit = 2 ^ 63

unfoldable pub bool_int : Bool → ℕ
bool_int b = if b then 1 else 0

unfoldable pub hex_or_nil : Option Bytes → Option Bytes
hex_or_nil none = none
hex_or_nil (some b) = some (hex_encode b)

-- UNIQUE (session_id, seq)
unfoldable pub has_packet : Bytes → ℕ → List Packet → Bool
has_packet s n [] = false
has_packet s n (p ∷ ps) = (bytes_eq p.session_id s && p.seq == n) || has_packet s n ps

unfoldable pub insert_packet : PacketRow → Buffer → Buffer
unfolding bool_int hex_or_nil
insert_packet p b = record b {
  packets =
      record {
        id = b.next_packet;
        session_id = p.session_id;
        seq = p.seq;
        tick_utc = p.tick_utc;
        tick_mono_ns = p.tick_mono_ns;
        telemetry_json = p.telemetry_json;
        anomaly_extruder = bool_int p.anomaly_extruder;
        anomaly_bed = bool_int p.anomaly_bed;
        anomaly_load_cell = bool_int p.anomaly_load_cell;
        recovered_from_cache = bool_int p.recovered_from_cache;
        prev_packet_blake3 = hex_or_nil p.prev_packet_blake3;
        packet_sha256 = hex_encode p.packet_sha256;
        packet_blake3 = hex_or_nil p.packet_blake3;
        tpm_sig = none;
        quote_ref = none;
        upload_state = pending;
        segment_id = none;
      }
      ∷ b.packets;
  next_packet = suc b.next_packet;
}

-- WritePacket
unfoldable pub write_packet : Bool → PacketRow → Buffer → Result ℕ × Buffer
write_packet up p b =
    if not up
    then (err unavailable, b)
    else if leb int64_limit p.seq
    then (err out_of_range, b)
    else if has_packet p.session_id p.seq b.packets
    then (err unique_violation, b)
    else (ok b.next_packet, insert_packet p b)

unfoldable pub has_quote : ℕ → List Quote → Bool
has_quote q [] = false
has_quote q (x ∷ xs) = x.id == q || has_quote q xs

unfoldable pub has_row : ℕ → List Packet → Bool
has_row i [] = false
has_row i (p ∷ ps) = p.id == i || has_row i ps

unfoldable pub update_sig : ℕ → Option Bytes → ℕ → List Packet → List Packet
update_sig i sig q [] = []
update_sig i sig q (p ∷ ps) =
    (if p.id == i then record p { tpm_sig = sig; quote_ref = some q } else p)
    ∷ update_sig i sig q ps

-- SetTPMSig. An UPDATE of no row succeeds; one of a row wants the quote to exist.
unfoldable pub set_tpm_sig : Bool → ℕ → Option Bytes → ℕ → Buffer → Result (Unit {0}) × Buffer
set_tpm_sig up row_id sig quote_ref b =
    if not up
    then (err unavailable, b)
    else if has_row row_id b.packets && not (has_quote quote_ref b.quotes)
    then (err foreign_key_violation, b)
    else (ok tt, record b { packets = update_sig row_id sig quote_ref b.packets })

-- RecordProvenanceFault
unfoldable pub record_provenance_fault :
    Bool → ℕ → Bytes → ℕ → Bytes → Buffer → Result (Unit {0}) × Buffer
record_provenance_fault up now session seq reason b =
    if not up
    then (err unavailable, b)
    else if leb int64_limit seq
    then (err out_of_range, b)
    else (
      ok tt,
      record b {
        faults =
            record { session_id = session; seq = seq; reason = reason; detected_at = now }
            ∷ b.faults;
      },
    )

-- UNIQUE (role, data)
unfoldable pub has_key : Bytes → Bytes → List AttestationKey → Bool
has_key role material [] = false
has_key role material (k ∷ ks) =
    (bytes_eq k.role role && bytes_eq k.material material) || has_key role material ks

-- WriteAttestationKey: INSERT OR IGNORE
unfoldable pub write_attestation_key :
    Bool → ℕ → Bytes → Bytes → Bytes → Buffer → Result (Unit {0}) × Buffer
unfolding has_key
write_attestation_key up now role alg material b =
    if not up then (err unavailable, b) else if has_key role material b.keys then (ok tt, b) else (
      ok tt,
      record b {
        keys = record { role = role; alg = alg; material = material; created_at = now } ∷ b.keys;
      },
    )

-- WriteQuote
unfoldable pub write_quote : Bool → ℕ → QuoteRow → Buffer → Result ℕ × Buffer
write_quote up now q b =
    if not up
    then (err unavailable, b)
    else if leb int64_limit q.seq
    then (err out_of_range, b)
    else (
      ok b.next_quote,
      record b {
        quotes = record { id = b.next_quote; row = q; created_at = now } ∷ b.quotes;
        next_quote = suc b.next_quote;
      },
    )
