-- ===== src/Common/Collisions.antt =====
-- What a hash function may be assumed to do: nothing, but two inputs with one hash are worth showing.
use mathlib.Core.Path.{◌≡◌}
use mathlib.Core.Logic.{◌≢◌, ◌⊎◌, inl, inr}
use axm_sfn.Common.Text.{Bytes, bytes-dec}

-- Two different inputs with one hash.
pub record Collision (hash : Bytes → Bytes) : Type 0 where
  pub left : Bytes
  pub right : Bytes
  pub differ : left ≢ right
  pub agree : hash left ≡ hash right

-- Equal hashes come from equal inputs, or collide.
pub same_input : (hash : Bytes → Bytes) (x y : Bytes) → hash x ≡ hash y → (x ≡ y) ⊎ Collision hash
same_input hash x y e = elim (bytes-dec x y) [
  | inl p ↦ inl p
  | inr p ↦ inr (record { left = x; right = y; differ = p; agree = e })
]
