-- ===== src/Examples/Roots.antt =====
-- Segment roots at inputs.
use axm_sfn.Common.{◌≡◌, ◌⊎◌, refl, List, [], ◌∷◌, some, arith}
use axm_sfn.Common.Text.{Bytes}
use axm_sfn.Encoding.{seq_bytes}
use axm_sfn.Uploader.Root.{leaf_hash, node_hash, local_segment_root}
use axm_sfn.Uploader.Root.Rfc6962.{rfc6962_root, local_segment_root-rfc6962_root}
use axm_sfn.Common.Collisions.{Collision}
use axm_sfn.Uploader.Root.Binding.{local_segment_root_binding}
use axm_sfn.Examples.Values.{front_hash, length-front_hash}

abbrev three : List Bytes
three = (1 ∷ []) ∷ (2 ∷ []) ∷ (3 ∷ []) ∷ []

-- Another last leaf: the front of 32 bytes that front_hash keeps does not show it.
abbrev other_three : List Bytes
other_three = (1 ∷ []) ∷ (2 ∷ []) ∷ (4 ∷ []) ∷ []

local_segment_root-rfc6962_root_example :
    local_segment_root front_hash 3 three ≡ some (rfc6962_root front_hash 2 three)
local_segment_root-rfc6962_root_example =
    local_segment_root-rfc6962_root front_hash 3 2 three (omega arith) (omega arith)

-- An odd leaf is promoted, not doubled.
odd_leaf :
    local_segment_root front_hash 3 three
    ≡ some (
        node_hash front_hash
          (node_hash front_hash (leaf_hash front_hash 0 (1 ∷ [])) (leaf_hash front_hash 1 (2 ∷ [])))
          (leaf_hash front_hash 2 (3 ∷ [])))
unfolding local_segment_root
odd_leaf = refl

same_root : local_segment_root front_hash 3 three ≡ local_segment_root front_hash 4 other_three
unfolding local_segment_root node_hash front_hash leaf_hash seq_bytes
same_root = refl

local_segment_root_binding_example : (three ≡ other_three) ⊎ Collision front_hash
local_segment_root_binding_example =
    local_segment_root_binding front_hash length-front_hash 3 4 three other_three (omega arith)
      (omega arith) (omega arith) (omega arith) same_root
