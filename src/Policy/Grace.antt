-- ===== src/Policy/Grace.antt =====
-- internal/policy/engine.go: the grace epochs of a rule, and what becomes of them when two rules share a field.
use axm_sfn.Common.{
  ℕ, suc, ◌+◌, ◌-◌, ◌≤◌, ◌<◌, ◌^◌, true, ◌≡◌, refl, ap, ◌∙◌, List, [], ◌∷◌, map, some, arith,
  length, All, ◌==◌, ◌⊎◌, ==_ne, ◌↔◌,
}
use axm_sfn.Common.Int.{pos}
use axm_sfn.Common.Text.{Bytes, bytes_eq_iff}
use axm_sfn.Floats.{Float64}
use axm_sfn.Policy.Streaks.{
  streak, tally, fold_checks, evaluate_all, evaluate_all-counts, evaluate_all-profile,
  evaluate-profile,
}
use axm_sfn.Policy.{
  ValidationRule, Profile, Evaluator, Telemetry, within, violated, Tally, check_rule, record_check,
  eval_rules, evaluate, exhausted, no_counts,
}

-- An allowance of a epochs is used up by the n-th violation: it is 0, or smaller than n.
abbrev IsUsedUp : ℕ → ℕ → Type 0
IsUsedUp allowed n = (allowed ≡ 0) ⊎ (allowed < n)

module _ {F : Type 0} ⦃fl : Float64 F⦄ where
  -- The evaluator that LoadProfile leaves.
  abbrev pub loaded : Profile F → Evaluator F
  loaded p = record { profile = some p; consecutive = no_counts; total = no_counts }

  abbrev pub IsViolation : ValidationRule F → Telemetry F → Type 0
  IsViolation r s = (reason : Bytes) × (check_rule r s ≡ violated reason)

  fold_violations :
      (r : ValidationRule F) (history : List (Telemetry F)) (c n : ℕ)
      → All (IsViolation r) history
      → c + length history < 2 ^ 63
      → n + length history < 2 ^ 63
      → (fold_checks streak (pos c) (map (check_rule r) history) ≡ pos (c + length history))
        × (fold_checks tally (pos n) (map (check_rule r) history) ≡ pos (n + length history))
  fold_violations r [] c n h k l = (ap pos (omega arith), ap pos (omega arith))
  fold_violations r (s ∷ history) c n h k l =
      let ih = fold_violations r history (c + 1) (n + 1) h.1 (omega arith) (omega arith) in
      rw (h.0.1, ==_ne c (2 ^ 63 - 1) (omega arith), ==_ne n (2 ^ 63 - 1) (omega arith))
        (ih.0 ∙ ap pos (omega arith), ih.1 ∙ ap pos (omega arith))

  one_rule_verdict :
      (r : ValidationRule F) (reason : Bytes) (t : Tally) (a b c n : ℕ)
      → r.allowed_consecutive_violations ≡ pos a
      → r.allowed_total_violations ≡ pos b
      → t.consecutive r.field ≡ pos c
      → t.total r.field ≡ pos n
      → t.violations ≡ []
      → suc c < 2 ^ 63
      → suc n < 2 ^ 63
      → ((length (record_check r (violated reason) t).violations == 0) ≡ true)
        ↔ ((suc c ≤ a) ⊎ (suc n ≤ b))
  unfolding record_check exhausted
  one_rule_verdict r reason t a b c n ea eb ec en ev kc kn = ground arith

  one_rule :
      (e : Evaluator F) (p : Profile F) (r : ValidationRule F) (s : Telemetry F) (a b c n : ℕ)
      → e.profile ≡ some p
      → p.validation_rules ≡ r ∷ []
      → r.allowed_consecutive_violations ≡ pos a
      → r.allowed_total_violations ≡ pos b
      → e.consecutive r.field ≡ pos c
      → e.total r.field ≡ pos n
      → suc c < 2 ^ 63
      → suc n < 2 ^ 63
      → IsViolation r s
      → ((evaluate e s).0.pass ≡ true) ↔ ((suc c ≤ a) ⊎ (suc n ≤ b))
  unfolding evaluate eval_rules
  one_rule e p r s a b c n active one ea eb ec en kc kn v =
      rw (active, evaluate, one, eval_rules, v.1)
        (one_rule_verdict r v.0
          (record { consecutive = e.consecutive; total = e.total; violations = [] }) a b c n ea eb
          ec en refl kc kn)

  -- A profile with the one rule r, just loaded, meets a run of violations: the next violation fails the
  -- tick exactly when both allowances are used up, the one of consecutive epochs and the one of all.
  pub grace_exhausted_iff :
      (p : Profile F) (r : ValidationRule F) (a b : ℕ) (history : List (Telemetry F))
      (s : Telemetry F)
      → p.validation_rules ≡ r ∷ []
      → r.allowed_consecutive_violations ≡ pos a
      → r.allowed_total_violations ≡ pos b
      → suc (length history) < 2 ^ 63
      → All (IsViolation r) history
      → IsViolation r s
      → let e = evaluate_all (loaded p) history in
        ((evaluate e s).0.pass ≡ true) ↔ ((suc (length history) ≤ a) ⊎ (suc (length history) ≤ b))
  grace_exhausted_iff p r a b history s one ea eb k h v =
      let start = loaded p in
      let counts =
        evaluate_all-counts start p r history refl
          (record { before = []; after = []; rules = one; apart_before = tt; apart_after = tt }) in
      let folded = fold_violations r history 0 0 h (omega arith) (omega arith) in
      one_rule (evaluate_all start history) p r s a b (length history) (length history)
        (evaluate_all-profile start history) one ea eb (counts.0 ∙ folded.0 ∙ ap pos (omega arith))
        (counts.1 ∙ folded.1 ∙ ap pos (omega arith)) k k v

  shared_record :
      (r q : ValidationRule F) (reason : Bytes) (a : ℕ) (t : Tally)
      → r.field ≡ q.field
      → r.allowed_consecutive_violations ≡ pos (suc a)
      → t.consecutive r.field ≡ pos 0
      → t.violations ≡ []
      → let u = record_check q within (record_check r (violated reason) t) in
        ((length u.violations == 0) ≡ true) × (u.consecutive r.field ≡ pos 0)
  unfolding record_check exhausted
  shared_record r q reason a t same grace start none_yet =
      rw (start, grace) (ground (arith, bytes_eq_iff q.field r.field))

  -- One tick of a profile whose rules r and q share a field, when r is violated and q holds.
  shared_tick :
      (e : Evaluator F) (p : Profile F) (r q : ValidationRule F) (a : ℕ) (s : Telemetry F)
      → e.profile ≡ some p
      → p.validation_rules ≡ r ∷ q ∷ []
      → r.field ≡ q.field
      → r.allowed_consecutive_violations ≡ pos (suc a)
      → e.consecutive r.field ≡ pos 0
      → IsViolation r s
      → check_rule q s ≡ within
      → ((evaluate e s).0.pass ≡ true) × ((evaluate e s).1.consecutive r.field ≡ pos 0)
  unfolding evaluate eval_rules
  shared_tick e p r q a s active rules same grace start v ok =
      rw (active, evaluate, rules, eval_rules, v.1, ok)
        (shared_record r q (v.0) a
          (record { consecutive = e.consecutive; total = e.total; violations = [] }) same grace
          start refl)

  -- A snapshot that violates r and satisfies q.
  abbrev pub Masks : ValidationRule F → ValidationRule F → Telemetry F → Type 0
  Masks q r s = IsViolation r s × (check_rule q s ≡ within)

  shared_run :
      (e : Evaluator F) (p : Profile F) (r q : ValidationRule F) (a : ℕ)
      (history : List (Telemetry F)) (s : Telemetry F)
      → e.profile ≡ some p
      → p.validation_rules ≡ r ∷ q ∷ []
      → r.field ≡ q.field
      → r.allowed_consecutive_violations ≡ pos (suc a)
      → e.consecutive r.field ≡ pos 0
      → All (Masks q r) history
      → Masks q r s
      → (evaluate (evaluate_all e history) s).0.pass ≡ true
  unfolding evaluate_all
  shared_run e p r q a [] s active rules same grace start h m =
      (shared_tick e p r q a s active rules same grace start m.0 m.1).0
  shared_run e p r q a (x ∷ history) s active rules same grace start h m =
      shared_run (evaluate e x).1 p r q a history s (evaluate-profile e x ∙ active) rules same grace
        (shared_tick e p r q a x active rules same grace start h.0.0 h.0.1).1 h.1 m

  -- The counters belong to a field, not to a rule: where a rule r with consecutive grace is followed by
  -- a rule q on the same field, the pass of q resets the count of r, so r never fails a tick, however
  -- long the run of snapshots that violate r and satisfy q.
  pub shared_field_never_fails :
      (p : Profile F) (r q : ValidationRule F) (a : ℕ) (history : List (Telemetry F))
      (s : Telemetry F)
      → p.validation_rules ≡ r ∷ q ∷ []
      → r.field ≡ q.field
      → r.allowed_consecutive_violations ≡ pos (suc a)
      → All (Masks q r) history
      → Masks q r s
      → (evaluate (evaluate_all (loaded p) history) s).0.pass ≡ true
  shared_field_never_fails p r q a history s rules same grace h m =
      shared_run (loaded p) p r q a history s refl rules same grace refl h m
