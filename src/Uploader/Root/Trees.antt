-- ===== src/Uploader/Root/Trees.antt =====
-- A segment root's computation as data: the tree of leaves from which the RFC 6962 root is hashed.
use native.Mathlib.Decide.{dec_lt}
use native.Mathlib.Nat.{pow-suc}
use axm_sfn.Common.{
  ℕ, zero, suc, ◌+◌, ◌^◌, ◌≤◌, ◌<◌, ◌≡◌, refl, sym, ap, ap₂, ◌∙◌, List, [], ◌∷◌, ◌++◌, map, arith,
  length, take, drop, All, All-take, All-drop, append_assoc, append-nil, take-append-drop,
  length-take, length-drop,
}
use axm_sfn.Common.Text.{Bytes}
use axm_sfn.Uploader.Root.Rfc6962.{merkle_tree, merkle_tree_low, merkle_tree_high, pow_pos}

-- A leaf with its index, or two subtrees.
pub data Tree : Type 0 where
  leaf : ℕ → Bytes → Tree
  node : Tree → Tree → Tree

pub leaves_of : Tree → List (ℕ × Bytes)
leaves_of (leaf i h) = (i, h) ∷ []
leaves_of (node l r) = leaves_of l ++ leaves_of r

abbrev pub Indexed : Tree → Type 0
Indexed (leaf i h) = i < 2 ^ 64
Indexed (node l r) = Indexed l × Indexed r

unfoldable pub leaf_trees : ℕ → List Bytes → List Tree
leaf_trees i [] = []
leaf_trees i (h ∷ hs) = leaf i h ∷ leaf_trees (i + 1) hs

unfoldable pub no_tree : Tree
no_tree = leaf 0 []

pub flat : List Tree → List (ℕ × Bytes)
flat [] = []
flat (t ∷ ts) = leaves_of t ++ flat ts

flat-append : (xs ys : List Tree) → flat (xs ++ ys) ≡ flat xs ++ flat ys
unfolding flat
flat-append [] ys = refl
flat-append (x ∷ xs) ys =
    ap (◌++◌ (leaves_of x)) (flat-append xs ys)
    ∙ sym (append_assoc (leaves_of x) (flat xs) (flat ys))

leaves_of-merkle_tree_zero :
    (ts : List Tree)
    → 0 < length ts
    → length ts ≤ 1
    → leaves_of (merkle_tree node no_tree 0 ts) ≡ flat ts
unfolding merkle_tree flat
leaves_of-merkle_tree_zero [] h k = absurd (omega arith)
leaves_of-merkle_tree_zero (t ∷ []) h k = sym (append-nil (leaves_of t))
leaves_of-merkle_tree_zero (t ∷ u ∷ ts) h k = absurd (omega arith)

-- The leaves of the tree, from left to right, are those that it was built from.
pub leaves_of-merkle_tree :
    (d : ℕ) (ts : List Tree)
    → 0 < length ts
    → length ts ≤ 2 ^ d
    → leaves_of (merkle_tree node no_tree d ts) ≡ flat ts
unfolding leaves_of
leaves_of-merkle_tree zero ts h k = leaves_of-merkle_tree_zero ts h k
leaves_of-merkle_tree (suc d) ts h k = elim (dec_lt (2 ^ d) (length ts)) [
  | yes more ↦ rw (merkle_tree_high node no_tree d ts more) (
      ap₂ ◌++◌
        (leaves_of-merkle_tree d (take (2 ^ d) ts)
          (omega (arith, length-take (2 ^ d) ts, pow_pos d))
          (omega (arith, length-take (2 ^ d) ts)))
        (leaves_of-merkle_tree d (drop (2 ^ d) ts) (omega (arith, length-drop (2 ^ d) ts))
          (omega (arith, length-drop (2 ^ d) ts, pow-suc 2 d)))
      ∙ sym (flat-append (take (2 ^ d) ts) (drop (2 ^ d) ts))
      ∙ ap flat (take-append-drop (2 ^ d) ts))
  | no few ↦
      rw (merkle_tree_low node no_tree d ts (omega arith))
        (leaves_of-merkle_tree d ts h (omega arith))
]

Indexed-merkle_tree_zero :
    (ts : List Tree) → All Indexed ts → Indexed (merkle_tree node no_tree 0 ts)
unfolding merkle_tree no_tree
Indexed-merkle_tree_zero [] h = omega arith
Indexed-merkle_tree_zero (t ∷ []) h = h.0
Indexed-merkle_tree_zero (t ∷ u ∷ ts) h = Indexed-merkle_tree_zero (u ∷ ts) h.1

pub Indexed-merkle_tree :
    (d : ℕ) (ts : List Tree) → All Indexed ts → Indexed (merkle_tree node no_tree d ts)
Indexed-merkle_tree zero ts h = Indexed-merkle_tree_zero ts h
Indexed-merkle_tree (suc d) ts h = elim (dec_lt (2 ^ d) (length ts)) [
  | yes more ↦ rw (merkle_tree_high node no_tree d ts more) (
    Indexed-merkle_tree d (take (2 ^ d) ts) (All-take Indexed (2 ^ d) ts h),
    Indexed-merkle_tree d (drop (2 ^ d) ts) (All-drop Indexed (2 ^ d) ts h),
  )
  | no few ↦ rw (merkle_tree_low node no_tree d ts (omega arith)) (Indexed-merkle_tree d ts h)
]

pub leaf_trees-Indexed :
    (i : ℕ) (hs : List Bytes) → i + length hs ≤ 2 ^ 64 → All Indexed (leaf_trees i hs)
unfolding leaf_trees
leaf_trees-Indexed i [] h = tt
leaf_trees-Indexed i (x ∷ hs) h = (omega arith, leaf_trees-Indexed (i + 1) hs (omega arith))

pub length-leaf_trees : (i : ℕ) (hs : List Bytes) → length (leaf_trees i hs) ≡ length hs
unfolding leaf_trees
length-leaf_trees i [] = refl
length-leaf_trees i (x ∷ hs) = ap suc (length-leaf_trees (i + 1) hs)

-- The packet hashes are read back from the leaves.
pub hashes-flat : (i : ℕ) (hs : List Bytes) → map (λ l. l.1) (flat (leaf_trees i hs)) ≡ hs
unfolding flat leaf_trees leaves_of
hashes-flat i [] = refl
hashes-flat i (x ∷ hs) = ap (◌∷◌ x) (hashes-flat (i + 1) hs)
