-- ===== src/Examples/Values.antt =====
-- Concrete values for the parameters of the model: integers for floats, and a hash of 32 bytes.
use axm_sfn.Common.{◌≡◌, [], ◌∷◌, ◌++◌, arith, length, take, length-take, length-append}
use axm_sfn.Common.Int.{ℤ, pos, ltb_ℤ, sub_ℤ}
use axm_sfn.Common.Text.{Bytes}
use axm_sfn.Floats.{Float64}
use axm_sfn.Custody.State.{Hashes}

instance abbrev pub whole_degrees : Float64 ℤ
whole_degrees = record {
  zero_value = pos 0;
  lt = ltb_ℤ;
  sub = sub_ℤ;
  neg = sub_ℤ (pos 0);
  fixed3 = λ x. [];
}

abbrev zeros : Bytes
zeros =
    0 ∷ 0 ∷ 0 ∷ 0 ∷ 0 ∷ 0 ∷ 0 ∷ 0 ∷ 0 ∷ 0 ∷ 0 ∷ 0 ∷ 0 ∷ 0 ∷ 0 ∷ 0 ∷ 0 ∷ 0 ∷ 0 ∷ 0 ∷ 0 ∷ 0 ∷ 0 ∷ 0
    ∷ 0 ∷ 0 ∷ 0 ∷ 0 ∷ 0 ∷ 0 ∷ 0 ∷ 0 ∷ []

-- The first 32 bytes, filled up with zeros.
unfoldable pub front_hash : Bytes → Bytes
front_hash x = take 32 (x ++ zeros)

pub length-front_hash : (x : Bytes) → length (front_hash x) ≡ 32
unfolding front_hash
length-front_hash x = omega (arith, length-take 32 (x ++ zeros), length-append x zeros)

abbrev pub front_hashes : Hashes
front_hashes = record { blake3 = front_hash; sha256 = front_hash }
