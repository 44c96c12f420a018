-- ===== src/Floats.antt =====
-- Go's float64. Its arithmetic and its printing are not modelled: the operations that the policy engine
-- uses are the fields of an interface, with no law.
use axm_sfn.Common.{Bool}
use axm_sfn.Common.Text.{Bytes}

pub record Float64 (F : Type 0) : Type 0 where
  -- The constant 0, the zero value of a field.
  pub zero_value : F
  -- `a < b`; false if either is NaN.
  pub lt : F → F → Bool
  -- `a - b` and `-a`
  pub sub : F → F → F
  pub neg : F → F
  -- What the verb %.3f prints.
  pub fixed3 : F → Bytes
