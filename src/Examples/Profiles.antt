-- ===== src/Examples/Profiles.antt =====
-- Profiles of the policy engine at inputs, with integers for floats.
use axm_sfn.Common.{ℕ, ◌≤◌, ◌≡◌, ◌⊎◌, ◌↔◌, refl, true, List, [], ◌∷◌, map, some, none, arith}
use axm_sfn.Common.Int.{ℤ, pos}
use axm_sfn.Common.Text.{Bytes, codes, bytes_eq}
use axm_sfn.Policy.{
  ValidationRule, Profile, Telemetry, within, violated, absolute_minimum, absolute_maximum,
  check_rule, evaluate, eval_rules, record_check, new_evaluator, load_profile,
}
use axm_sfn.Policy.Streaks.{streak, tally, fold_checks, evaluate_all, evaluate_all-counts}
use axm_sfn.Policy.Grace.{loaded, grace_exhausted_iff, shared_field_never_fails}
use axm_sfn.Examples.Values.{whole_degrees}

abbrev bed : Bytes
bed = codes "heater_bed.temperature"

-- The bed must not be above 110, after so many epochs of grace.
abbrev bed_maximum : ℕ → ValidationRule ℤ
bed_maximum allowed = record {
  field = bed;
  target_field = [];
  rule_type = absolute_maximum;
  min_value = pos 0;
  max_value = pos 110;
  max_negative_dev = pos 0;
  max_positive_dev = pos 0;
  allowed_consecutive_violations = pos allowed;
  allowed_total_violations = pos 0;
}

abbrev bed_minimum : ValidationRule ℤ
bed_minimum = record (bed_maximum 0) { rule_type = absolute_minimum; min_value = pos 20 }

abbrev bed_profile : List (ValidationRule ℤ) → Profile ℤ
bed_profile rules = record {
  profile_id = codes "bed";
  material_cooldown_allowance_s = pos 0;
  validation_rules = rules;
}

abbrev bed_at : ℕ → Telemetry ℤ
bed_at t = (bed, pos t) ∷ []

abbrev strict_profile : Profile ℤ
strict_profile = bed_profile (bed_maximum 0 ∷ bed_minimum ∷ [])

-- LoadProfile leaves this evaluator.
load_strict : load_profile (some strict_profile) new_evaluator ≡ (none, loaded strict_profile)
unfolding load_profile bytes_eq
load_strict = refl

above :
    check_rule (bed_maximum 2) (bed_at 120)
    ≡ violated (codes "heater_bed.temperature= above maximum ")
unfolding check_rule bytes_eq
above = refl

warm : check_rule bed_minimum (bed_at 120) ≡ within
unfolding check_rule bytes_eq
warm = refl

strict_verdict :
    (evaluate (loaded strict_profile) (bed_at 120)).0.violations
    ≡ codes "heater_bed.temperature= above maximum " ∷ []
unfolding evaluate check_rule bytes_eq eval_rules record_check
strict_verdict = refl

abbrev grace_profile : Profile ℤ
grace_profile = bed_profile (bed_maximum 2 ∷ [])

evaluate_all-counts_example :
    ((evaluate_all (loaded grace_profile) (bed_at 120 ∷ bed_at 100 ∷ bed_at 130 ∷ [])).consecutive
        bed
      ≡ fold_checks streak
          (pos 0)
          (map (check_rule (bed_maximum 2)) (bed_at 120 ∷ bed_at 100 ∷ bed_at 130 ∷ [])))
    × ((evaluate_all (loaded grace_profile) (bed_at 120 ∷ bed_at 100 ∷ bed_at 130 ∷ [])).total bed
        ≡ fold_checks tally
            (pos 0)
            (map (check_rule (bed_maximum 2)) (bed_at 120 ∷ bed_at 100 ∷ bed_at 130 ∷ [])))
evaluate_all-counts_example =
    evaluate_all-counts (loaded grace_profile) grace_profile (bed_maximum 2)
      (bed_at 120 ∷ bed_at 100 ∷ bed_at 130 ∷ []) refl
      (record { before = []; after = []; rules = refl; apart_before = tt; apart_after = tt })

-- The third violation in a row fails the tick.
grace_exhausted_iff_example :
    ((evaluate
        (evaluate_all (loaded grace_profile) (bed_at 120 ∷ bed_at 120 ∷ []))
        (bed_at 120)).0.pass
      ≡ true)
    ↔ ((3 ≤ 2) ⊎ (3 ≤ 0))
grace_exhausted_iff_example =
    grace_exhausted_iff grace_profile (bed_maximum 2) 2 0 (bed_at 120 ∷ bed_at 120 ∷ [])
      (bed_at 120) refl refl refl (omega arith) ((_, above), ((_, above), tt)) (_, above)

abbrev shared_profile : Profile ℤ
shared_profile = bed_profile (bed_maximum 2 ∷ bed_minimum ∷ [])

shared_field_never_fails_example :
    (evaluate
      (evaluate_all (loaded shared_profile) (bed_at 120 ∷ bed_at 120 ∷ bed_at 120 ∷ []))
      (bed_at 120)).0.pass
    ≡ true
shared_field_never_fails_example =
    shared_field_never_fails shared_profile (bed_maximum 2) bed_minimum 1
      (bed_at 120 ∷ bed_at 120 ∷ bed_at 120 ∷ []) (bed_at 120) refl refl refl
      (((_, above), warm), (((_, above), warm), (((_, above), warm), tt))) ((_, above), warm)
