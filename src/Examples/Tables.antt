-- ===== src/Examples/Tables.antt =====
-- The tables of the hot buffer at inputs: three packets, of which the second is lost.
use axm_sfn.Common.{ℕ, ◌≡◌, refl, true, false, List, [], ◌∷◌, some, none, arith}
use axm_sfn.Common.Int.{pos}
use axm_sfn.Common.Text.{Bytes, codes, bytes_eq}
use axm_sfn.HotBuffer.Tables.{PacketRow, QuoteRow, Buffer, ok, new_buffer}
use axm_sfn.HotBuffer.Writes.{
  set_tpm_sig, has_row, write_packet, has_packet, write_quote, insert_packet, has_quote, update_sig,
}
use axm_sfn.HotBuffer.Segments.{pending_range, packet_hashes, write_segment, mark_rows}
use axm_sfn.HotBuffer.Invariant.{IsValid}
use axm_sfn.HotBuffer.Statements.{
  Statement, packet, signature, quote, segment, execute, execute_all, execute_all-IsValid,
  new_buffer-IsValid,
}
use axm_sfn.HotBuffer.Readback.{packet_hashes-write_packet}
use axm_sfn.HotBuffer.Pending.{IsRange, queue, pending_range-IsRange}

abbrev pub session : Bytes
session = codes "a1"

abbrev pub row_at : ℕ → PacketRow
row_at n = record {
  session_id = session;
  seq = n;
  tick_utc = n;
  tick_mono_ns = pos n;
  telemetry_json = n ∷ [];
  anomaly_extruder = false;
  anomaly_bed = false;
  anomaly_load_cell = false;
  recovered_from_cache = false;
  prev_packet_blake3 = none;
  packet_sha256 = [];
  packet_blake3 = none;
}

abbrev first_quote : QuoteRow
first_quote = record {
  session_id = session;
  seq = 0;
  pcrs = [];
  nonce = [];
  attest_blob = [];
  sig = [];
  ak_handle = 0;
}

-- Three packets are written, one a second time and one while the database is away; one is signed, and
-- the first goes into a segment.
abbrev pub statements : List Statement
statements =
    packet true (row_at 0)
    ∷ quote true 7 first_quote
    ∷ packet true (row_at 0)
    ∷ packet true (row_at 1)
    ∷ packet false (row_at 4)
    ∷ packet true (row_at 2)
    ∷ packet true (row_at 5)
    ∷ signature true 2 (some (9 ∷ [])) 1
    ∷ segment (λ k. true) 8 session 0 0 1 [] (1 ∷ [])
    ∷ []

abbrev pub tables : Buffer
tables = execute_all statements new_buffer

execute_all-IsValid_example : IsValid tables
execute_all-IsValid_example = execute_all-IsValid statements

pending_range-IsRange_example :
    (first : ℕ) × (last : ℕ) × (ids : List ℕ) × (pending_range true session (pos 3) tables
      ≡ ok (first, last, ids))
    × IsRange 3 (queue session tables) first last ids
pending_range-IsRange_example =
    pending_range-IsRange session 3 tables (execute_all-IsValid statements)

-- The front ends before the packet that is missing.
pending_front : pending_range true session (pos 3) tables ≡ ok (1, 2, 2 ∷ 3 ∷ [])
unfolding pending_range execute_all execute write_segment mark_rows set_tpm_sig has_row write_packet
    has_packet write_quote new_buffer insert_packet bytes_eq has_quote update_sig
pending_front = refl

abbrev pub sealed : PacketRow
sealed = record (row_at 6) { packet_blake3 = some (0xde ∷ 0xad ∷ []) }

pub sealed_written : write_packet true sealed new_buffer ≡ (ok 1, insert_packet sealed new_buffer)
unfolding new_buffer write_packet has_packet
sealed_written = refl

packet_hashes-write_packet_example :
    packet_hashes true (1 ∷ []) (insert_packet sealed new_buffer)
    ≡ ok (some (0xde ∷ 0xad ∷ []) ∷ [])
packet_hashes-write_packet_example =
    packet_hashes-write_packet sealed new_buffer (insert_packet sealed new_buffer) 1
      (0xde ∷ 0xad ∷ []) new_buffer-IsValid (omega arith) refl sealed_written
