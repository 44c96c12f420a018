-- ===== src/Uploader/Root.antt =====
-- internal/uploader/uploader.go, LocalSegmentRootForHashes, localSegmentRoot and merkleReduce: the
-- local tamper-evidence root over the packet hashes of a segment. The hash function of
-- github.com/zeebo/blake3 is a parameter.
pub mod Rfc6962
pub mod Trees
pub mod Binding
use axm_sfn.Common.{
  ℕ, zero, suc, ◌+◌, ◌%◌, ◌≡◌, refl, Bool, List, [], ◌∷◌, ◌++◌, Option, none, some, arith, length,
  last_or, ◌==◌, if◌then◌else◌,
}
use axm_sfn.Common.Text.{Bytes}
use axm_sfn.Encoding.{seq_bytes}

module _ (blake3 : Bytes → Bytes) where
  unfoldable pub leaf_hash : ℕ → Bytes → Bytes
  leaf_hash i h = blake3 ((0 ∷ []) ++ (seq_bytes i ++ ((0 ∷ []) ++ h)))

  unfoldable pub node_hash : Bytes → Bytes → Bytes
  node_hash left right = blake3 ((1 ∷ []) ++ (left ++ right))

  -- The loop that fills `leaves`, from index i on.
  unfoldable pub leaves_from : ℕ → List Bytes → List Bytes
  unfolding leaf_hash
  leaves_from i [] = []
  leaves_from i (h ∷ hs) = leaf_hash i h ∷ leaves_from (i + 1) hs

  -- `for i := 0; i+1 < len(level); i += 2`
  unfoldable pub paired : List Bytes → List Bytes
  unfolding node_hash
  paired [] = []
  paired (x ∷ []) = []
  paired (x ∷ y ∷ rest) = node_hash x y ∷ paired rest

  -- One round of merkleReduce: the pairs, then the last hash of an odd level.
  unfoldable pub next_level : List Bytes → List Bytes
  unfolding paired
  next_level level =
      if length level % 2 == 1 then paired level ++ (last_or [] level ∷ []) else paired level

  -- merkleReduce, with fuel for its calls of itself: `none` means that it did not return.
  unfoldable pub merkle_reduce : ℕ → List Bytes → Option Bytes
  unfolding next_level
  merkle_reduce zero level = none
  merkle_reduce (suc fuel) level =
      let rest = merkle_reduce fuel (next_level level) in
      if length level == 1 then some (last_or [] level) else rest

  unfoldable pub local_segment_root : ℕ → List Bytes → Option Bytes
  unfolding leaves_from merkle_reduce
  local_segment_root fuel hashes =
      if length hashes == 0
      then some (blake3 (1 ∷ []))
      else merkle_reduce fuel (leaves_from 0 hashes)
