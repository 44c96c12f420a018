-- ===== src/Uploader/Root/Rfc6962.antt =====
-- internal/uploader/uploader.go: the reduction by levels against the recursive tree of RFC 6962.
use native.Mathlib.Nat.{pow-suc}
use native.Mathlib.Decide.{dec_lt}
use axm_sfn.Common.{
  ℕ, zero, suc, ◌+◌, ◌*◌, ◌%◌, ◌^◌, ◌≤◌, ◌<◌, ◌≡◌, refl, sym, ap, ap₂, ◌∙◌, ◌≡⟨◌⟩◌, ◌∎, List, [],
  ◌∷◌, some, arith, length, take, drop, last_or, leb, if◌then◌else◌, le→leb, lt→leb, length-take,
  length-drop, ==_ne,
}
use axm_sfn.Common.Text.{Bytes}
use axm_sfn.Uploader.Root.{node_hash, leaves_from, next_level, merkle_reduce, local_segment_root}

two_more : (n : ℕ) → suc n * 2 ≡ suc (suc (n * 2))
two_more n = omega arith

module _ {ℓ} {A : Type ℓ} where
  take-nil : (n : ℕ) → take {A = A} n [] ≡ []
  take-nil zero = refl
  take-nil (suc n) = refl

  drop-nil : (n : ℕ) → drop {A = A} n [] ≡ []
  drop-nil zero = refl
  drop-nil (suc n) = refl

module _ {ℓ} {A : Type ℓ} (op : A → A → A) where
  -- Neighbours joined, an odd last one kept.
  joined : List A → List A
  joined [] = []
  joined (x ∷ []) = x ∷ []
  joined (x ∷ y ∷ rest) = op x y ∷ joined rest

  length-joined : (l : List A) → length (joined l) * 2 ≡ length l + length l % 2
  unfolding joined
  length-joined [] = refl
  length-joined (x ∷ []) = refl
  length-joined (x ∷ y ∷ rest) = omega (arith, length-joined rest)

  take-joined : (n : ℕ) (l : List A) → joined (take (n * 2) l) ≡ take n (joined l)
  unfolding joined
  take-joined zero l = refl
  take-joined (suc n) [] = rw (two_more n)
  take-joined (suc n) (x ∷ []) = rw (two_more n) (ap (◌∷◌ x) (sym (take-nil n)))
  take-joined (suc n) (x ∷ y ∷ rest) = rw (two_more n) (ap (◌∷◌ (op x y)) (take-joined n rest))

  drop-joined : (n : ℕ) (l : List A) → joined (drop (n * 2) l) ≡ drop n (joined l)
  unfolding joined
  drop-joined zero l = refl
  drop-joined (suc n) [] = rw (two_more n)
  drop-joined (suc n) (x ∷ []) = rw (two_more n, drop-nil (suc (n * 2)), drop-nil n)
  drop-joined (suc n) (x ∷ y ∷ rest) = rw (two_more n) (drop-joined n rest)

-- The tree of RFC 6962 over a list of 1 to 2 ^ d entries: with more than half of that, the largest
-- power of two below the length goes left.
pub pow_pos : (n : ℕ) → 0 < 2 ^ n
pow_pos zero = omega arith
pow_pos (suc n) = omega (arith, pow-suc 2 n, pow_pos n)

module _ {ℓ} {A : Type ℓ} (op : A → A → A) (z : A) where
  unfoldable pub merkle_tree : ℕ → List A → A
  merkle_tree zero l = last_or z l
  merkle_tree (suc d) l =
      let low = merkle_tree d l in
      let high = op (merkle_tree d (take (2 ^ d) l)) (merkle_tree d (drop (2 ^ d) l)) in
      if leb (length l) (2 ^ d) then low else high

  pub merkle_tree_low :
      (d : ℕ) (l : List A) → length l ≤ 2 ^ d → merkle_tree (suc d) l ≡ merkle_tree d l
  unfolding merkle_tree
  merkle_tree_low d l h = rw (le→leb (length l) (2 ^ d) h)

  pub merkle_tree_high :
      (d : ℕ) (l : List A)
      → 2 ^ d < length l
      → merkle_tree (suc d) l ≡ op (merkle_tree d (take (2 ^ d) l)) (merkle_tree d (drop (2 ^ d) l))
  unfolding merkle_tree
  merkle_tree_high d l h = rw (lt→leb (length l) (2 ^ d) h)

  merkle_tree-joined_base :
      (l : List A) → 0 < length l → length l ≤ 2 → merkle_tree 1 l ≡ merkle_tree 0 (joined op l)
  unfolding merkle_tree joined
  merkle_tree-joined_base [] h k = absurd (omega arith)
  merkle_tree-joined_base (x ∷ []) h k = refl
  merkle_tree-joined_base (x ∷ y ∷ []) h k = refl
  merkle_tree-joined_base (x ∷ y ∷ u ∷ rest) h k = absurd (omega arith)

  -- One round of joining takes a level off the tree.
  merkle_tree-joined :
      (d : ℕ) (l : List A)
      → 0 < length l
      → length l ≤ 2 ^ suc d
      → merkle_tree (suc d) l ≡ merkle_tree d (joined op l)
  merkle_tree-joined zero l h k = merkle_tree-joined_base l h k
  merkle_tree-joined (suc d) l h k = elim (dec_lt (2 ^ suc d) (length l)) [
    | yes more ↦
        merkle_tree (suc (suc d)) l
        ≡⟨ merkle_tree_high (suc d) l more ⟩
          op (merkle_tree (suc d) (take (2 ^ suc d) l)) (merkle_tree (suc d) (drop (2 ^ suc d) l))
        ≡⟨ ap₂ op
            (merkle_tree-joined d (take (2 ^ suc d) l)
              (omega (arith, length-take (2 ^ suc d) l, pow-suc 2 d, pow_pos d))
              (omega (arith, length-take (2 ^ suc d) l)))
            (merkle_tree-joined d (drop (2 ^ suc d) l) (omega (arith, length-drop (2 ^ suc d) l))
              (omega (arith, length-drop (2 ^ suc d) l, pow-suc 2 (suc d)))) ⟩
          op (merkle_tree d (joined op (take (2 ^ suc d) l)))
            (merkle_tree d (joined op (drop (2 ^ suc d) l)))
        ≡⟨ ap₂ op
            (ap (merkle_tree d)
              (ap (λ n. joined op (take n l)) (pow-suc 2 d) ∙ take-joined op (2 ^ d) l))
            (ap (merkle_tree d)
              (ap (λ n. joined op (drop n l)) (pow-suc 2 d) ∙ drop-joined op (2 ^ d) l)) ⟩
          op (merkle_tree d (take (2 ^ d) (joined op l)))
            (merkle_tree d (drop (2 ^ d) (joined op l)))
        ≡⟨ sym (merkle_tree_high d (joined op l) (omega (arith, length-joined op l, pow-suc 2 d))) ⟩
          merkle_tree (suc d) (joined op l) ∎
    | no few ↦
        merkle_tree (suc (suc d)) l
        ≡⟨ merkle_tree_low (suc d) l (omega arith) ⟩ merkle_tree (suc d) l
        ≡⟨ merkle_tree-joined d l h (omega arith) ⟩ merkle_tree d (joined op l)
        ≡⟨ sym (merkle_tree_low d (joined op l) (omega (arith, length-joined op l, pow-suc 2 d))) ⟩
          merkle_tree (suc d) (joined op l) ∎
  ]

module _ (blake3 : Bytes → Bytes) where
  -- One round of merkleReduce joins neighbours and keeps an odd last hash.
  next_level-joined :
      (level : List Bytes) → next_level blake3 level ≡ joined (node_hash blake3) level
  unfolding next_level joined
  next_level-joined [] = refl
  next_level-joined (x ∷ []) = refl
  next_level-joined (x ∷ y ∷ []) = refl
  next_level-joined (x ∷ y ∷ u ∷ rest) = ground (arith, next_level-joined (u ∷ rest))

  merkle_tree_one : (d : ℕ) (x : Bytes) → merkle_tree (node_hash blake3) [] d (x ∷ []) ≡ x
  unfolding merkle_tree
  merkle_tree_one zero x = refl
  merkle_tree_one (suc d) x = rw (le→leb 1 (2 ^ d) (pow_pos d)) (merkle_tree_one d x)

  -- With fuel for each hash of the level, merkleReduce returns the root of the tree.
  pub merkle_reduce-merkle_tree :
      (fuel d : ℕ) (level : List Bytes)
      → 0 < length level
      → length level ≤ 2 ^ d
      → length level ≤ fuel
      → merkle_reduce blake3 fuel level ≡ some (merkle_tree (node_hash blake3) [] d level)
  unfolding merkle_reduce
  merkle_reduce-merkle_tree zero d level h k f = absurd (omega arith)
  merkle_reduce-merkle_tree (suc fuel) d [] h k f = absurd (omega arith)
  merkle_reduce-merkle_tree (suc fuel) d (x ∷ []) h k f = ap some (sym (merkle_tree_one d x))
  merkle_reduce-merkle_tree (suc fuel) zero (x ∷ y ∷ rest) h k f = absurd (omega arith)
  merkle_reduce-merkle_tree (suc fuel) (suc d) (x ∷ y ∷ rest) h k f =
      rw
        (
          ==_ne (length (x ∷ y ∷ rest)) 1 (omega arith),
          next_level-joined (x ∷ y ∷ rest),
          merkle_tree-joined (node_hash blake3) [] d (x ∷ y ∷ rest) h k,
        )
        (merkle_reduce-merkle_tree fuel d (joined (node_hash blake3) (x ∷ y ∷ rest))
          (omega (arith, length-joined (node_hash blake3) (x ∷ y ∷ rest)))
          (omega (arith, length-joined (node_hash blake3) (x ∷ y ∷ rest), pow-suc 2 d))
          (omega (arith, length-joined (node_hash blake3) (x ∷ y ∷ rest))))

  length-leaves_from : (i : ℕ) (hs : List Bytes) → length (leaves_from blake3 i hs) ≡ length hs
  unfolding leaves_from
  length-leaves_from i [] = refl
  length-leaves_from i (h ∷ hs) = ap suc (length-leaves_from (i + 1) hs)

  -- The root of RFC 6962 over the leaves of a segment of at most 2 ^ d packets.
  unfoldable pub rfc6962_root : ℕ → List Bytes → Bytes
  rfc6962_root d [] = blake3 (1 ∷ [])
  rfc6962_root d (h ∷ hs) = merkle_tree (node_hash blake3) [] d (leaves_from blake3 0 (h ∷ hs))

  -- For every segment, with fuel for each of its hashes, the code returns, and what it returns is the
  -- root of the RFC 6962 tree over the leaves; for no hashes it is the hash of the byte 1.
  pub local_segment_root-rfc6962_root :
      (fuel d : ℕ) (hashes : List Bytes)
      → length hashes ≤ fuel
      → length hashes ≤ 2 ^ d
      → local_segment_root blake3 fuel hashes ≡ some (rfc6962_root d hashes)
  unfolding local_segment_root rfc6962_root
  local_segment_root-rfc6962_root fuel d [] f k = refl
  local_segment_root-rfc6962_root fuel d (h ∷ hs) f k =
      rw (==_ne (length (h ∷ hs)) 0 (omega arith)) (
        merkle_reduce-merkle_tree fuel d (leaves_from blake3 0 (h ∷ hs))
          (omega (arith, length-leaves_from 0 (h ∷ hs)))
          (omega (arith, length-leaves_from 0 (h ∷ hs)))
          (omega (arith, length-leaves_from 0 (h ∷ hs))))
