-- ===== src/Custody/Delta.antt =====
-- internal/custody/packetizer.go: applyDelta and detectLifecycleEdge.
use axm_sfn.Common.{Bool, true, not, ◌&&◌, [], ◌∷◌, Option, none, some, if◌then◌else◌}
use axm_sfn.Common.Text.{Bytes, codes, bytes_eq}
use axm_sfn.Moonraker.State.{
  ExtruderState, HeaterBedState, MotionReportState, PrintStatsState, McuState, PrinterState, Status,
  printing, paused,
}
use axm_sfn.Custody.State.{Packetizer, Seed, start_new_session}

-- The cases of applyDelta's switch over the object's name.
pub data StatusObject : Type 0 where
  extruder heater_bed motion_report print_stats mcu chamber other : StatusObject

unfoldable pub object_of : Bytes → StatusObject
object_of obj =
    if bytes_eq obj (codes "extruder")
    then extruder
    else if bytes_eq obj (codes "heater_bed")
    then heater_bed
    else if bytes_eq obj (codes "motion_report")
    then motion_report
    else if bytes_eq obj (codes "print_stats")
    then print_stats
    else if bytes_eq obj (codes "mcu")
    then mcu
    else if bytes_eq obj (codes "temperature_sensor chamber")
    then chamber
    else other

-- encoding/json: what Unmarshal leaves in each target, whose error the code ignores; for the chamber,
-- whose error it heeds, the temperature or nothing.
pub record Unmarshal (Raw : Type 0) (F : Type 0) : Type 0 where
  pub extruder : Raw → ExtruderState F → ExtruderState F
  pub heater_bed : Raw → HeaterBedState F → HeaterBedState F
  pub motion_report : Raw → MotionReportState F → MotionReportState F
  pub print_stats : Raw → PrintStatsState F → PrintStatsState F
  pub mcu : Raw → McuState → McuState
  pub chamber : Raw → Option F

-- A print begins where it was not paused before. (At the end of one the code only writes a log line.)
unfoldable pub begins_print : Bytes → Bytes → Bool
begins_print prev next = bytes_eq next printing && not (bytes_eq prev paused)

module _ {F : Type 0} where
  schedule_immediate_quote : Packetizer F → Packetizer F
  schedule_immediate_quote p = record p { immediate_quote = true }

  -- `detectLifecycleEdge`
  unfoldable pub detect_lifecycle_edge : Seed → Bytes → Bytes → Packetizer F → Packetizer F
  unfolding begins_print schedule_immediate_quote
  detect_lifecycle_edge seed prev next p =
      if bytes_eq prev next
      then p
      else let started = if begins_print prev next then start_new_session seed p else p in
        if p.cfg.quote_on_lifecycle && p.has_tpm then schedule_immediate_quote started else started

module _ {F : Type 0} where
  abbrev pub with_state : PrinterState F → Packetizer F → Packetizer F
  with_state s p = record p { state = s }

  abbrev pub put_chamber : Option F → Packetizer F → Packetizer F
  put_chamber none p = p
  put_chamber (some t) p =
      with_state (record p.state { chamber_temp_c = t; chamber_present = true }) p

module _ {Raw F : Type 0} (decode : Unmarshal Raw F) (seed : Seed) where
  abbrev put_print_stats : PrintStatsState F → Packetizer F → Packetizer F
  put_print_stats stats p =
      detect_lifecycle_edge seed p.state.print_stats.state stats.state
        (with_state (record p.state { print_stats = stats }) p)

  -- The body of applyDelta's loop.
  unfoldable pub apply_object : StatusObject → Raw → Packetizer F → Packetizer F
  apply_object StatusObject.extruder raw p =
      with_state (record p.state { extruder = decode.extruder raw p.state.extruder }) p
  apply_object StatusObject.heater_bed raw p =
      with_state (record p.state { heater_bed = decode.heater_bed raw p.state.heater_bed }) p
  apply_object StatusObject.motion_report raw p =
      with_state (record p.state { motion_report = decode.motion_report raw p.state.motion_report })
        p
  apply_object StatusObject.print_stats raw p =
      put_print_stats (decode.print_stats raw p.state.print_stats) p
  apply_object StatusObject.mcu raw p =
      with_state (record p.state { mcu = decode.mcu raw p.state.mcu }) p
  apply_object StatusObject.chamber raw p = put_chamber (decode.chamber raw) p
  apply_object StatusObject.other raw p = p

  -- `applyDelta`
  unfoldable pub apply_delta : Status Raw → Packetizer F → Packetizer F
  apply_delta [] p = p
  apply_delta ((obj, raw) ∷ rest) p = apply_delta rest (apply_object (object_of obj) raw p)
