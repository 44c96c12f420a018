-- ===== src/Policy/Strict.antt =====
-- internal/policy/engine.go: the verdict of Evaluate on a profile without grace epochs, against a description without counters.
use axm_sfn.Common.{
  ◌≡◌, sym, ap, ◌∙◌, List, [], ◌∷◌, ◌++◌, some, arith, length, All, ◌==◌, append_assoc, append-nil,
}
use axm_sfn.Common.Int.{pos}
use axm_sfn.Common.Text.{Bytes}
use axm_sfn.Floats.{Float64}
use axm_sfn.Policy.{
  ValidationRule, Profile, Evaluator, Telemetry, Check, skipped, within, violated, Tally,
  check_rule, record_check, eval_rules, evaluate,
}

-- Neither allowance gives a grace epoch.
pub record IsStrict {F : Type 0} (r : ValidationRule F) : Type 0 where
  pub no_consecutive : r.allowed_consecutive_violations ≡ pos 0
  pub no_total : r.allowed_total_violations ≡ pos 0

abbrev pub reason_of : Check → List Bytes
reason_of skipped = []
reason_of within = []
reason_of (violated reason) = reason ∷ []

module _ {F : Type 0} ⦃fl : Float64 F⦄ where
  -- The reasons that the checks of the rules give, in the profile's order.
  abbrev pub reasons : List (ValidationRule F) → Telemetry F → List Bytes
  reasons [] telemetry = []
  reasons (r ∷ rs) telemetry = reason_of (check_rule r telemetry) ++ reasons rs telemetry

  record_check-violations :
      (r : ValidationRule F) (c : Check) (t : Tally)
      → IsStrict r
      → (record_check r c t).violations ≡ t.violations ++ reason_of c
  unfolding record_check
  record_check-violations r skipped t h = sym (append-nil t.violations)
  record_check-violations r within t h = sym (append-nil t.violations)
  record_check-violations r (violated reason) t h = ground arith

  pub eval_rules-violations :
      (rs : List (ValidationRule F)) (telemetry : Telemetry F) (t : Tally)
      → All IsStrict rs
      → (eval_rules rs telemetry t).violations ≡ t.violations ++ reasons rs telemetry
  unfolding eval_rules
  eval_rules-violations [] telemetry t h = sym (append-nil t.violations)
  eval_rules-violations (r ∷ rs) telemetry t h =
      eval_rules-violations rs telemetry (record_check r (check_rule r telemetry) t) h.1
      ∙ ap (λ v. v ++ reasons rs telemetry)
          (record_check-violations r (check_rule r telemetry) t h.0)
      ∙ append_assoc t.violations (reason_of (check_rule r telemetry)) (reasons rs telemetry)

  -- The decision in terms of the checks of the rules: the counters do not matter.
  pub evaluate-reasons :
      (e : Evaluator F) (p : Profile F) (telemetry : Telemetry F)
      → e.profile ≡ some p
      → All IsStrict p.validation_rules
      → (evaluate e telemetry).0 ≡ record {
        pass = length (reasons p.validation_rules telemetry) == 0;
        profile_id = p.profile_id;
        violations = reasons p.validation_rules telemetry;
      }
  unfolding evaluate
  evaluate-reasons e p telemetry active h =
      rw (active, evaluate)
        (ap (λ v. record { pass = length v == 0; profile_id = p.profile_id; violations = v })
          (eval_rules-violations p.validation_rules telemetry
            (record { consecutive = e.consecutive; total = e.total; violations = [] }) h))
