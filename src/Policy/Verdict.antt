-- ===== src/Policy/Verdict.antt =====
-- internal/policy/engine.go: the verdict of Evaluate, on a profile without grace epochs, against the
-- rules that the snapshot violates.
use axm_sfn.Common.{◌≡◌, ◌⊎◌, []}
use axm_sfn.Floats.{Float64}
use axm_sfn.Policy.{ValidationRule, Telemetry, check_rule}
use axm_sfn.Policy.Strict.{reason_of}
use axm_sfn.Policy.Violations.{Violates}

module _ {F : Type 0} ⦃fl : Float64 F⦄ where
  open fl use {lt, sub, neg}

  -- A rule is violated, or gives no reason.
  abbrev Judged : ValidationRule F → Telemetry F → Type 0
  Judged r telemetry = Violates r telemetry ⊎ (reason_of (check_rule r telemetry) ≡ [])
