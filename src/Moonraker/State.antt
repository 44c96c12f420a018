-- ===== src/Moonraker/State.antt =====
-- internal/moonraker/types.go: the cached printer state, and client.go's StatusDelta.
use axm_sfn.Common.{Bool, ◌||◌, List}
use axm_sfn.Common.Text.{Bytes, codes, bytes_eq}

pub record ExtruderState (F : Type 0) : Type 0 where
  pub temperature : F
  pub target : F
  pub power : F

pub record HeaterBedState (F : Type 0) : Type 0 where
  pub temperature : F
  pub target : F
  pub power : F

pub record MotionReportState (F : Type 0) : Type 0 where
  pub live_velocity : F
  pub live_extruder_velocity : F
  pub live_position : List F

pub record PrintStatsState (F : Type 0) : Type 0 where
  pub state : Bytes
  pub filament_used : F
  pub print_duration : F

pub record McuState : Type 0 where
  pub mcu_version : Bytes
  pub mcu_build_versions : Bytes

pub record PrinterState (F : Type 0) : Type 0 where
  pub extruder : ExtruderState F
  pub heater_bed : HeaterBedState F
  pub motion_report : MotionReportState F
  pub print_stats : PrintStatsState F
  pub mcu : McuState
  pub chamber_temp_c : F
  pub chamber_present : Bool

abbrev pub printing : Bytes
printing = codes "printing"

abbrev pub paused : Bytes
paused = codes "paused"

-- `IsActive`
unfoldable pub is_active : {F : Type 0} → PrinterState F → Bool
is_active s = bytes_eq s.print_stats.state printing || bytes_eq s.print_stats.state paused

-- The Status map of a `StatusDelta`: its entries in the order in which the runtime gives them out.
abbrev pub Status : Type 0 → Type 0
Status Raw = List (Bytes × Raw)
