-- ===== src/Policy.antt =====
-- internal/policy/engine.go: profiles, the evaluator and its counters.
pub mod Strict
pub mod Violations
pub mod Verdict
pub mod Streaks
pub mod Grace
use axm_sfn.Common.{
  ℕ, Bool, true, false, not, ◌&&◌, ◌||◌, List, [], ◌∷◌, ◌++◌, Option, none, some, length, ◌==◌,
  if◌then◌else◌,
}
use axm_sfn.Common.Int.{ℤ, pos, ltb_ℤ, is_zero, incr}
use axm_sfn.Common.Text.{Bytes, codes, bytes_eq}
use axm_sfn.Floats.{Float64}

-- `ValidationRule`
pub record ValidationRule (F : Type 0) : Type 0 where
  pub field : Bytes
  pub target_field : Bytes
  pub rule_type : Bytes
  pub min_value : F
  pub max_value : F
  pub max_negative_dev : F
  pub max_positive_dev : F
  pub allowed_consecutive_violations : ℤ
  pub allowed_total_violations : ℤ

-- `Profile`
pub record Profile (F : Type 0) : Type 0 where
  pub profile_id : Bytes
  pub material_cooldown_allowance_s : ℤ
  pub validation_rules : List (ValidationRule F)

-- `Decision`
pub record Decision : Type 0 where
  pub pass : Bool
  pub profile_id : Bytes
  pub violations : List Bytes

-- A `map[string]int` with its zero value for a missing key.
abbrev pub Counts : Type 0
Counts = Bytes → ℤ

abbrev pub no_counts : Counts
no_counts field = pos 0

abbrev pub put_count : Bytes → ℤ → Counts → Counts
put_count field n counts other = if bytes_eq field other then n else counts other

-- `Evaluator`
pub record Evaluator (F : Type 0) : Type 0 where
  pub profile : Option (Profile F)
  pub consecutive : Counts
  pub total : Counts

-- A `map[string]float64`, the flat telemetry snapshot.
abbrev pub Telemetry : Type 0 → Type 0
Telemetry F = List (Bytes × F)

abbrev pub lookup {ℓ} : {V : Type ℓ} → Bytes → List (Bytes × V) → Option V
lookup key [] = none
lookup key ((k, v) ∷ rest) = if bytes_eq k key then some v else lookup key rest

abbrev pub absolute_minimum : Bytes
absolute_minimum = codes "absolute_minimum"

abbrev pub absolute_maximum : Bytes
absolute_maximum = codes "absolute_maximum"

abbrev pub dynamic_offset : Bytes
dynamic_offset = codes "dynamic_offset"

abbrev pub null_profile : Bytes
null_profile = codes "null"

-- The errors of LoadProfile.
pub data LoadError : Type 0 where
  parse_profile profile_id_required : LoadError

module _ {F : Type 0} where
  -- `NewEvaluator`
  unfoldable pub new_evaluator : Evaluator F
  new_evaluator = record { profile = none; consecutive = no_counts; total = no_counts }

  install : Profile F → Evaluator F → Option LoadError × Evaluator F
  install p e =
      if bytes_eq p.profile_id []
      then (some profile_id_required, e)
      else (none, record { profile = some p; consecutive = no_counts; total = no_counts })

  -- LoadProfile, from what json.Unmarshal made of the document: `none` is its error.
  unfoldable pub load_profile : Option (Profile F) → Evaluator F → Option LoadError × Evaluator F
  unfolding install
  load_profile none e = (some parse_profile, e)
  load_profile (some p) e = install p e

  unfoldable pub clear_profile : Evaluator F → Evaluator F
  clear_profile e = record { profile = none; consecutive = no_counts; total = no_counts }

-- What a rule says of a snapshot: it is skipped, it holds, or it is violated for a reason.
pub data Check : Type 0 where
  skipped : Check
  within : Check
  violated : Bytes → Check

module _ {F : Type 0} ⦃fl : Float64 F⦄ where
  open fl use {lt, sub, neg, fixed3}

  check_minimum : ValidationRule F → F → Check
  check_minimum r val =
      if lt val r.min_value
      then violated (
          r.field ++ (codes "=" ++ (fixed3 val ++ (codes " below minimum " ++ fixed3 r.min_value))))
      else within

  check_maximum : ValidationRule F → F → Check
  check_maximum r val =
      if lt r.max_value val
      then violated (
          r.field ++ (codes "=" ++ (fixed3 val ++ (codes " above maximum " ++ fixed3 r.max_value))))
      else within

  check_offset : ValidationRule F → F → Option F → Check
  check_offset r val none = skipped
  check_offset r val (some target) =
      let delta = sub val target in
      if lt delta (neg r.max_negative_dev) || lt r.max_positive_dev delta
      then violated (
          r.field
          ++ (codes " delta="
              ++ (fixed3 delta
                  ++ (codes " outside envelope ["
                      ++ (fixed3 (neg r.max_negative_dev)
                          ++ (codes ", +"
                              ++ (fixed3 r.max_positive_dev
                                  ++ (codes "] (target=" ++ (fixed3 target ++ codes ")")))))))))
      else within

  check_value : ValidationRule F → Telemetry F → Option F → Check
  unfolding check_minimum check_maximum check_offset
  check_value r telemetry none = skipped
  check_value r telemetry (some val) =
      if bytes_eq r.rule_type absolute_minimum
      then check_minimum r val
      else if bytes_eq r.rule_type absolute_maximum
      then check_maximum r val
      else if bytes_eq r.rule_type dynamic_offset
      then check_offset r val (lookup r.target_field telemetry)
      else skipped

  -- The lookup and the switch of Evaluate, up to the test of `violated`.
  unfoldable pub check_rule : ValidationRule F → Telemetry F → Check
  unfolding check_value
  check_rule r telemetry = check_value r telemetry (lookup r.field telemetry)

-- The variables of Evaluate's loop.
pub record Tally : Type 0 where
  pub consecutive : Counts
  pub total : Counts
  pub violations : List Bytes

-- The grace epochs are exhausted: an allowance of 0 gives none.
unfoldable pub exhausted : ℤ → ℤ → Bool
exhausted allowed count = is_zero allowed || ltb_ℤ allowed count

module _ {F : Type 0} where
  -- The end of the loop's body.
  unfoldable pub record_check : ValidationRule F → Check → Tally → Tally
  unfolding exhausted
  record_check r skipped t = t
  record_check r within t = record t { consecutive = put_count r.field (pos 0) t.consecutive }
  record_check r (violated reason) t =
      let c = incr (t.consecutive r.field) in
      let n = incr (t.total r.field) in
      record {
        consecutive = put_count r.field c t.consecutive;
        total = put_count r.field n t.total;
        violations =
            if exhausted r.allowed_consecutive_violations c
              && exhausted r.allowed_total_violations n
            then t.violations ++ reason ∷ []
            else t.violations;
      }

module _ {F : Type 0} ⦃fl : Float64 F⦄ where
  unfoldable pub eval_rules : List (ValidationRule F) → Telemetry F → Tally → Tally
  eval_rules [] telemetry t = t
  eval_rules (r ∷ rs) telemetry t =
      eval_rules rs telemetry (record_check r (check_rule r telemetry) t)

  decide_with : Evaluator F → Telemetry F → Option (Profile F) → Decision × Evaluator F
  decide_with e telemetry none =
      (record { pass = true; profile_id = null_profile; violations = [] }, e)
  decide_with e telemetry (some p) =
      let t =
        eval_rules p.validation_rules telemetry
          (record { consecutive = e.consecutive; total = e.total; violations = [] }) in
      (
        record {
          pass = length t.violations == 0;
          profile_id = p.profile_id;
          violations = t.violations;
        },
        record e { consecutive = t.consecutive; total = t.total },
      )

  -- `Evaluate`
  unfoldable pub evaluate : Evaluator F → Telemetry F → Decision × Evaluator F
  unfolding decide_with
  evaluate e telemetry = decide_with e telemetry e.profile

abbrev pub chamber_key : Bytes
chamber_key = codes "temperature_sensor.chamber.temperature"

-- TelemetryFromCustody, its map as the list of its entries.
unfoldable pub telemetry_from_custody :
    {F : Type 0}
    → (extruder_temp extruder_target extruder_power : F) → (bed_temp bed_target bed_power : F)
    → (live_velocity live_extruder_velocity : F) → (chamber_temp : F) (chamber_present : Bool)
    → Telemetry F
telemetry_from_custody et eg ep bt bg bp lv lev ct present =
    (codes "extruder.temperature", et)
    ∷ (codes "extruder.target", eg)
    ∷ (codes "extruder.power", ep)
    ∷ (codes "heater_bed.temperature", bt)
    ∷ (codes "heater_bed.target", bg)
    ∷ (codes "heater_bed.power", bp)
    ∷ (codes "motion_report.live_velocity", lv)
    ∷ (codes "motion_report.live_extruder_velocity", lev)
    ∷ (if present then (chamber_key, ct) ∷ [] else [])
