-- ===== src/Telemetry.antt =====
-- internal/telemetry/packet.go: the custody packet with the decision in it, and the segment.
use axm_sfn.Common.{ℕ, Bool, List, Option}
use axm_sfn.Common.Int.{ℤ}
use axm_sfn.Common.Text.{Bytes}

pub record Decision : Type 0 where
  pub pass : Bool
  pub profile_id : Bytes
  pub violations : List Bytes

-- `CustodyPacket`. A nil slice or pointer is `none`; an instant is a number of nanoseconds.
pub record CustodyPacket (F : Type 0) : Type 0 where
  pub session_id : Bytes
  pub node_label : Bytes
  pub printer_id : Bytes
  pub seq : ℕ
  pub tick : ℕ
  pub tick_mono_ns : ℤ
  pub extruder_temp : F
  pub extruder_target : F
  pub extruder_power : F
  pub bed_temp : F
  pub bed_target : F
  pub bed_power : F
  pub chamber_temp : F
  pub chamber_present : Bool
  pub live_velocity : F
  pub live_extruder_velocity : F
  pub live_position : List F
  pub print_state : Bytes
  pub filament_used_mm : F
  pub print_duration_s : F
  pub mcu_version : Bytes
  pub mcu_build_versions : Bytes
  pub decision : Option Decision
  pub anomaly_extruder_thermal : Bool
  pub anomaly_bed_thermal : Bool
  pub anomaly_load_cell : Bool
  pub recovered_from_cache : Bool
  pub prev_packet_blake3 : Option Bytes
  pub packet_sha256 : Option Bytes
  pub packet_blake3 : Option Bytes
  pub tpm_sig : Option Bytes
  pub quote_ref : ℕ

-- `Segment`, which no other package uses.
pub record Segment : Type 0 where
  pub session_id : Bytes
  pub node_label : Bytes
  pub seq_start : ℕ
  pub seq_end : ℕ
  pub packet_count : ℤ
  pub merkle_root : Option Bytes
