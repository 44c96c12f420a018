-- ===== src/Policy/Streaks.antt =====
-- internal/policy/engine.go: the counters of Evaluate against the history of snapshots.
use axm_sfn.Common.{◌≡◌, ◌≢◌, refl, ap, ◌∙◌, List, [], ◌∷◌, ◌++◌, map, some, Option, none, All}
use axm_sfn.Common.Int.{ℤ, pos, incr}
use axm_sfn.Common.Text.{Bytes, bytes_eq_refl, bytes_eq-ne}
use axm_sfn.Floats.{Float64}
use axm_sfn.Policy.{
  ValidationRule, Profile, Evaluator, Telemetry, Check, skipped, within, violated, Tally,
  check_rule, record_check, eval_rules, decide_with, evaluate,
}

-- What a check does to a streak of violations, and to their total.
abbrev pub streak : ℤ → Check → ℤ
streak n skipped = n
streak n within = pos 0
streak n (violated reason) = incr n

abbrev pub tally : ℤ → Check → ℤ
tally n (violated reason) = incr n
tally n _ = n

abbrev pub fold_checks : (ℤ → Check → ℤ) → ℤ → List Check → ℤ
fold_checks f n [] = n
fold_checks f n (c ∷ cs) = fold_checks f (f n c) cs

module _ {F : Type 0} ⦃fl : Float64 F⦄ where
  -- The evaluator after a history of snapshots, oldest first.
  unfoldable pub evaluate_all : Evaluator F → List (Telemetry F) → Evaluator F
  evaluate_all e [] = e
  evaluate_all e (t ∷ ts) = evaluate_all (evaluate e t).1 ts

  decide_with-profile :
      (e : Evaluator F) (t : Telemetry F) (o : Option (Profile F))
      → (decide_with e t o).1.profile ≡ e.profile
  unfolding decide_with
  decide_with-profile e t none = refl
  decide_with-profile e t (some p) = refl

  pub evaluate-profile : (e : Evaluator F) (t : Telemetry F) → (evaluate e t).1.profile ≡ e.profile
  unfolding evaluate
  evaluate-profile e t = decide_with-profile e t e.profile

  -- No rule of the list is about the field.
  abbrev pub Apart : Bytes → List (ValidationRule F) → Type 0
  Apart field = All (λ r. r.field ≢ field)

  record_check-Apart :
      (r : ValidationRule F) (c : Check) (t : Tally) (field : Bytes)
      → r.field ≢ field
      → ((record_check r c t).consecutive field ≡ t.consecutive field)
        × ((record_check r c t).total field ≡ t.total field)
  unfolding record_check
  record_check-Apart r skipped t field h = (refl, refl)
  record_check-Apart r within t field h = rw (bytes_eq-ne r.field field h) (refl, refl)
  record_check-Apart r (violated reason) t field h = rw (bytes_eq-ne r.field field h) (refl, refl)

  record_check-same :
      (r : ValidationRule F) (c : Check) (t : Tally)
      → ((record_check r c t).consecutive r.field ≡ streak (t.consecutive r.field) c)
        × ((record_check r c t).total r.field ≡ tally (t.total r.field) c)
  unfolding record_check
  record_check-same r skipped t = (refl, refl)
  record_check-same r within t = rw (bytes_eq_refl r.field) (refl, refl)
  record_check-same r (violated reason) t = rw (bytes_eq_refl r.field) (refl, refl)

  eval_rules-Apart :
      (rs : List (ValidationRule F)) (s : Telemetry F) (t : Tally) (field : Bytes)
      → Apart field rs
      → ((eval_rules rs s t).consecutive field ≡ t.consecutive field)
        × ((eval_rules rs s t).total field ≡ t.total field)
  unfolding eval_rules
  eval_rules-Apart [] s t field h = (refl, refl)
  eval_rules-Apart (r ∷ rs) s t field h =
      let a = record_check-Apart r (check_rule r s) t field h.0 in
      let b = eval_rules-Apart rs s (record_check r (check_rule r s) t) field h.1 in
      (b.0 ∙ a.0, b.1 ∙ a.1)

  eval_rules-lone :
      (before : List (ValidationRule F)) (r : ValidationRule F) (after : List (ValidationRule F))
      (s : Telemetry F) (t : Tally)
      → Apart r.field before
      → Apart r.field after
      → ((eval_rules (before ++ r ∷ after) s t).consecutive r.field
          ≡ streak (t.consecutive r.field) (check_rule r s))
        × ((eval_rules (before ++ r ∷ after) s t).total r.field
            ≡ tally (t.total r.field) (check_rule r s))
  unfolding eval_rules
  eval_rules-lone [] r after s t h k =
      let a = record_check-same r (check_rule r s) t in
      let b = eval_rules-Apart after s (record_check r (check_rule r s) t) r.field k in
      (b.0 ∙ a.0, b.1 ∙ a.1)
  eval_rules-lone (q ∷ before) r after s t h k =
      let a = record_check-Apart q (check_rule q s) t r.field h.0 in
      let b = eval_rules-lone before r after s (record_check q (check_rule q s) t) h.1 k in
      (b.0 ∙ ap (λ n. streak n (check_rule r s)) a.0, b.1 ∙ ap (λ n. tally n (check_rule r s)) a.1)

  -- The profile has one rule on its field, r.
  pub record IsLone (p : Profile F) (r : ValidationRule F) : Type 0 where
    pub before : List (ValidationRule F)
    pub after : List (ValidationRule F)
    pub rules : p.validation_rules ≡ before ++ r ∷ after
    pub apart_before : Apart r.field before
    pub apart_after : Apart r.field after

  evaluate-lone :
      (e : Evaluator F) (p : Profile F) (r : ValidationRule F) (s : Telemetry F)
      → e.profile ≡ some p
      → IsLone p r
      → ((evaluate e s).1.consecutive r.field ≡ streak (e.consecutive r.field) (check_rule r s))
        × ((evaluate e s).1.total r.field ≡ tally (e.total r.field) (check_rule r s))
  unfolding evaluate
  evaluate-lone e p r s active lone =
      rw (active, evaluate, lone.rules)
        (eval_rules-lone lone.before r lone.after s
          (record { consecutive = e.consecutive; total = e.total; violations = [] })
          lone.apart_before lone.apart_after)

  -- The counters of a rule that is alone on its field are functions of its own checks: the consecutive
  -- count is the length of the run of violations that the history ends with (a skipped check neither
  -- lengthens nor ends a run), and the total is the number of violations, whatever the other rules are.
  pub evaluate_all-counts :
      (e : Evaluator F) (p : Profile F) (r : ValidationRule F) (history : List (Telemetry F))
      → e.profile ≡ some p
      → IsLone p r
      → ((evaluate_all e history).consecutive r.field
          ≡ fold_checks streak (e.consecutive r.field) (map (check_rule r) history))
        × ((evaluate_all e history).total r.field
            ≡ fold_checks tally (e.total r.field) (map (check_rule r) history))
  unfolding evaluate_all
  evaluate_all-counts e p r [] active lone = (refl, refl)
  evaluate_all-counts e p r (s ∷ history) active lone =
      let a = evaluate-lone e p r s active lone in
      let b =
        evaluate_all-counts (evaluate e s).1 p r history (evaluate-profile e s ∙ active) lone in
      (
        b.0 ∙ ap (λ n. fold_checks streak n (map (check_rule r) history)) a.0,
        b.1 ∙ ap (λ n. fold_checks tally n (map (check_rule r) history)) a.1,
      )

  pub evaluate_all-profile :
      (e : Evaluator F) (ts : List (Telemetry F)) → (evaluate_all e ts).profile ≡ e.profile
  unfolding evaluate_all
  evaluate_all-profile e [] = refl
  evaluate_all-profile e (t ∷ ts) = evaluate_all-profile (evaluate e t).1 ts ∙ evaluate-profile e t
