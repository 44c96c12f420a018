-- ===== src/Policy/Violations.antt =====
-- internal/policy/engine.go: which rules a snapshot violates and what names them, said without the code's
-- own tests.
use axm_sfn.Common.{
  ◌≡◌, ◌≢◌, inl, inr, refl, ap, ◌∙◌, subst, true, false, List, [], ◌∷◌, ◌++◌, some, arith, All,
  Bool-cases, if◌then◌else◌,
}
use axm_sfn.Common.Text.{
  Bytes, codes, bytes_eq, bytes_eq_refl, bytes_eq→eq, bytes_eq-ne, ne_of-bytes_eq,
}
use axm_sfn.Floats.{Float64}
use axm_sfn.Policy.{
  ValidationRule, Telemetry, lookup, absolute_minimum, absolute_maximum, dynamic_offset,
}

-- The snapshot has this value under the key: its first entry for the key holds it.
pub record Reads {F : Type 0} (key : Bytes) (v : F) (telemetry : Telemetry F) : Type 0 where
  pub before : Telemetry F
  pub after : Telemetry F
  pub split : telemetry ≡ before ++ (key, v) ∷ after
  pub first : All (λ entry. entry.0 ≢ key) before

module _ {F : Type 0} where
  lookup-before :
      (key : Bytes) (v : F) (before after : Telemetry F)
      → All (λ entry. entry.0 ≢ key) before
      → lookup key (before ++ (key, v) ∷ after) ≡ some v
  lookup-before key v [] after a = rw (bytes_eq_refl key) refl
  lookup-before key v ((k, w) ∷ before) after a =
      rw (bytes_eq-ne k key a.0) (lookup-before key v before after a.1)

  pub lookup-Reads :
      (key : Bytes) (v : F) (telemetry : Telemetry F)
      → Reads key v telemetry
      → lookup key telemetry ≡ some v
  lookup-Reads key v telemetry r =
      ap (lookup key) r.split ∙ lookup-before key v r.before r.after r.first

  pub Reads-lookup :
      (key : Bytes) (v : F) (telemetry : Telemetry F)
      → lookup key telemetry ≡ some v
      → Reads key v telemetry
  Reads-lookup key v [] e = absurd (ground arith)
  Reads-lookup key v ((k, w) ∷ rest) e = elim (Bool-cases (bytes_eq k key)) [
    | inl y ↦
        let found : some w ≡ some v =
          subst (λ c. (if c then some w else lookup key rest) ≡ some v) y e in
        let same : k ≡ key = bytes_eq→eq k key y in
        record { before = []; after = rest; split = cc; first = tt }
    | inr n ↦
        let r =
          Reads-lookup key v rest
            (subst (λ c. (if c then some w else lookup key rest) ≡ some v) n e) in
        record {
          before = (k, w) ∷ r.before;
          after = r.after;
          split = ap (λ t. (k, w) ∷ t) r.split;
          first = (ne_of-bytes_eq k key n, r.first);
        }
  ]

-- The three types of rules are distinct.
pub offset_type :
    (t : Bytes)
    → t ≡ codes "dynamic_offset"
    → (bytes_eq t absolute_minimum ≡ false)
      × (bytes_eq t absolute_maximum ≡ false)
      × (bytes_eq t dynamic_offset ≡ true)
unfolding bytes_eq
offset_type t e = (
  ap (λ t. bytes_eq t absolute_minimum) e,
  ap (λ t. bytes_eq t absolute_maximum) e,
  ap (λ t. bytes_eq t dynamic_offset) e,
)

pub maximum_type :
    (t : Bytes)
    → t ≡ codes "absolute_maximum"
    → (bytes_eq t absolute_minimum ≡ false) × (bytes_eq t absolute_maximum ≡ true)
unfolding bytes_eq
maximum_type t e =
    (ap (λ t. bytes_eq t absolute_minimum) e, ap (λ t. bytes_eq t absolute_maximum) e)

module _ {F : Type 0} ⦃fl : Float64 F⦄ where
  open fl use {lt, sub, neg}

  -- A rule that the snapshot violates: its field's value is below the minimum, or above the maximum, or
  -- differs from the target field's by more than the envelope allows on one of its two sides.
  pub data Violates (r : ValidationRule F) (telemetry : Telemetry F) : Type 0 where
    below_minimum :
        (v : F)
        → r.rule_type ≡ codes "absolute_minimum"
        → Reads r.field v telemetry
        → lt v r.min_value ≡ true
        → Violates r telemetry
    above_maximum :
        (v : F)
        → r.rule_type ≡ codes "absolute_maximum"
        → Reads r.field v telemetry
        → lt r.max_value v ≡ true
        → Violates r telemetry
    below_envelope :
        (v target : F)
        → r.rule_type ≡ codes "dynamic_offset"
        → Reads r.field v telemetry
        → Reads r.target_field target telemetry
        → lt (sub v target) (neg r.max_negative_dev) ≡ true
        → Violates r telemetry
    above_envelope :
        (v target : F)
        → r.rule_type ≡ codes "dynamic_offset"
        → Reads r.field v telemetry
        → Reads r.target_field target telemetry
        → lt r.max_positive_dev (sub v target) ≡ true
        → Violates r telemetry

  -- The reasons name exactly the violated rules, in the profile's order: each begins with its rule's field.
  pub data Reports (telemetry : Telemetry F) : List (ValidationRule F) → List Bytes → Type 0 where
    nothing_left :
        {rules : List (ValidationRule F)} {given : List Bytes}
        → rules ≡ []
        → given ≡ []
        → Reports telemetry rules given
    broken :
        {rules rs : List (ValidationRule F)} {given vs : List Bytes} (r : ValidationRule F)
        (detail : Bytes)
        → rules ≡ r ∷ rs
        → given ≡ (r.field ++ detail) ∷ vs
        → Violates r telemetry
        → Reports telemetry rs vs
        → Reports telemetry rules given
    kept :
        {rules rs : List (ValidationRule F)} {given : List Bytes} (r : ValidationRule F)
        → rules ≡ r ∷ rs
        → (Violates r telemetry → ⊥)
        → Reports telemetry rs given
        → Reports telemetry rules given
