-- ===== src/HotBuffer/Tables.antt =====
-- internal/hotbuffer/buffer.go: the schema that migrate creates, and the errors of a statement.
use axm_sfn.Common.{ℕ, Bool, List, [], Option}
use axm_sfn.Common.Int.{ℤ}
use axm_sfn.Common.Text.{Bytes}

-- The column upload_state.
pub data UploadState : Type 0 where
  pending uploaded fault : UploadState

-- `PacketRow`, what WritePacket is given. A nil slice is `none`.
pub record PacketRow : Type 0 where
  pub session_id : Bytes
  pub seq : ℕ
  pub tick_utc : ℕ
  pub tick_mono_ns : ℤ
  pub telemetry_json : Bytes
  pub anomaly_extruder : Bool
  pub anomaly_bed : Bool
  pub anomaly_load_cell : Bool
  pub recovered_from_cache : Bool
  pub prev_packet_blake3 : Option Bytes
  pub packet_sha256 : Bytes
  pub packet_blake3 : Option Bytes

-- A row of the table packets. The hashes are columns of hexadecimal text.
pub record Packet : Type 0 where
  pub id : ℕ
  pub session_id : Bytes
  pub seq : ℕ
  pub tick_utc : ℕ
  pub tick_mono_ns : ℤ
  pub telemetry_json : Bytes
  pub anomaly_extruder : ℕ
  pub anomaly_bed : ℕ
  pub anomaly_load_cell : ℕ
  pub recovered_from_cache : ℕ
  pub prev_packet_blake3 : Option Bytes
  pub packet_sha256 : Bytes
  pub packet_blake3 : Option Bytes
  pub tpm_sig : Option Bytes
  pub quote_ref : Option ℕ
  pub upload_state : UploadState
  pub segment_id : Option ℕ

-- `QuoteRow`, what WriteQuote is given.
pub record QuoteRow : Type 0 where
  pub session_id : Bytes
  pub seq : ℕ
  pub pcrs : List ℕ
  pub nonce : Bytes
  pub attest_blob : Bytes
  pub sig : Bytes
  pub ak_handle : ℕ

-- Rows of the tables quotes, segments, provenance_faults and attestation_keys.
pub record Quote : Type 0 where
  pub id : ℕ
  pub row : QuoteRow
  pub created_at : ℕ

pub record Segment : Type 0 where
  pub id : ℕ
  pub session_id : Bytes
  pub seq_start : ℕ
  pub seq_end : ℕ
  pub packet_count : ℕ
  pub merkle_root : Bytes
  pub created_at : ℕ

pub record ProvenanceFault : Type 0 where
  pub session_id : Bytes
  pub seq : ℕ
  pub reason : Bytes
  pub detected_at : ℕ

pub record AttestationKey : Type 0 where
  pub role : Bytes
  pub alg : Bytes
  pub material : Bytes
  pub created_at : ℕ

-- The tables, newest row first, and the next AUTOINCREMENT key of those whose keys are used.
pub record Buffer : Type 0 where
  pub packets : List Packet
  pub quotes : List Quote
  pub segments : List Segment
  pub faults : List ProvenanceFault
  pub keys : List AttestationKey
  pub next_packet : ℕ
  pub next_quote : ℕ
  pub next_segment : ℕ

-- The tables that migrate creates. AUTOINCREMENT counts from 1.
unfoldable pub new_buffer : Buffer
new_buffer = record {
  packets = [];
  quotes = [];
  segments = [];
  faults = [];
  keys = [];
  next_packet = 1;
  next_quote = 1;
  next_segment = 1;
}

-- Why a statement fails: the database, a number with the high bit set, a constraint, a column that is
-- no hexadecimal text.
pub data Error : Type 0 where
  unavailable out_of_range unique_violation foreign_key_violation bad_hex : Error

pub data Result {ℓ} (A : Type ℓ) : Type ℓ where
  ok : A → Result A
  err : Error → Result A
