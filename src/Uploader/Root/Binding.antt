-- ===== src/Uploader/Root/Binding.antt =====
-- internal/uploader/uploader.go: the segment root as a commitment to the packet hashes.
use native.Mathlib.Decide.{dec_lt}
use axm_sfn.Common.{
  ℕ, zero, suc, ◌+◌, ◌^◌, ◌≤◌, ◌<◌, ◌≡◌, ◌⊎◌, inl, inr, refl, sym, ap, ap₂, ◌∙◌, List, [], ◌∷◌,
  ◌++◌, map, some, arith, length, take, drop, append_cancel, length-append, length-map, take-map,
  drop-map, length-take, length-drop,
}
use axm_sfn.Common.Collisions.{Collision, same_input}
use axm_sfn.Common.Text.{Bytes}
use axm_sfn.Encoding.{seq_bytes}
use axm_sfn.Encoding.LittleEndian.{seq_bytes_injective, length-seq_bytes}
use axm_sfn.Uploader.Root.{leaf_hash, node_hash, leaves_from, local_segment_root}
use axm_sfn.Uploader.Root.Trees.{
  Tree, leaf, node, leaves_of, Indexed, leaf_trees, no_tree, leaves_of-merkle_tree,
  Indexed-merkle_tree, leaf_trees-Indexed, length-leaf_trees, hashes-flat,
}
use axm_sfn.Uploader.Root.Rfc6962.{
  merkle_tree, merkle_tree_low, merkle_tree_high, pow_pos, rfc6962_root,
  local_segment_root-rfc6962_root,
}

module _ (hash : Bytes → Bytes) where
  same_leaf :
      (i j : ℕ) (g h : Bytes)
      → i < 2 ^ 64
      → j < 2 ^ 64
      → leaf_hash hash i g ≡ leaf_hash hash j h
      → ((i ≡ j) × (g ≡ h)) ⊎ Collision hash
  unfolding leaf_hash
  same_leaf i j g h bi bj e = elim (same_input hash _ _ e) [
    | inr c ↦ inr c
    | inl p ↦
        let rest : seq_bytes i ++ (0 ∷ g) ≡ seq_bytes j ++ (0 ∷ h) = cc in
        let lens : length (seq_bytes i) ≡ length (seq_bytes j) =
          length-seq_bytes i ∙ sym (length-seq_bytes j) in
        let q = append_cancel (seq_bytes i) (seq_bytes j) lens rest in
        let tails : ◌≡◌ {A = Bytes} (0 ∷ g) (0 ∷ h) = q.1 in
        inl (seq_bytes_injective i j bi bj q.0, cc)
  ]

  same_node :
      (a b c d : Bytes)
      → length a ≡ length c
      → node_hash hash a b ≡ node_hash hash c d
      → ((a ≡ c) × (b ≡ d)) ⊎ Collision hash
  unfolding node_hash
  same_node a b c d len e = elim (same_input hash _ _ e) [
    | inr x ↦ inr x
    | inl p ↦ let rest : a ++ b ≡ c ++ d = cc in inl (append_cancel a c len rest)
  ]

  leaf_not_node : (i : ℕ) (h l r : Bytes) → leaf_hash hash i h ≡ node_hash hash l r → Collision hash
  unfolding leaf_hash node_hash
  leaf_not_node i h l r e = elim (same_input hash _ _ e) [ inr c ↦ c | inl p ↦ cc ]

  root_of : Tree → Bytes
  root_of (leaf i h) = leaf_hash hash i h
  root_of (node l r) = node_hash hash (root_of l) (root_of r)

  map-root_of : (i : ℕ) (hs : List Bytes) → map root_of (leaf_trees i hs) ≡ leaves_from hash i hs
  unfolding root_of leaf_trees leaves_from
  map-root_of i [] = refl
  map-root_of i (h ∷ hs) = ap (◌∷◌ (leaf_hash hash i h)) (map-root_of (i + 1) hs)

  root_of-merkle_tree_zero :
      (ts : List Tree)
      → 0 < length ts
      → root_of (merkle_tree node no_tree 0 ts) ≡ merkle_tree (node_hash hash) [] 0 (map root_of ts)
  unfolding merkle_tree
  root_of-merkle_tree_zero [] h = absurd (omega arith)
  root_of-merkle_tree_zero (t ∷ []) h = refl
  root_of-merkle_tree_zero (t ∷ u ∷ ts) h = root_of-merkle_tree_zero (u ∷ ts) (omega arith)

  -- The root of the tree as data is the tree of the roots.
  root_of-merkle_tree :
      (d : ℕ) (ts : List Tree)
      → 0 < length ts
      → root_of (merkle_tree node no_tree d ts) ≡ merkle_tree (node_hash hash) [] d (map root_of ts)
  unfolding root_of
  root_of-merkle_tree zero ts h = root_of-merkle_tree_zero ts h
  root_of-merkle_tree (suc d) ts h = elim (dec_lt (2 ^ d) (length ts)) [
    | yes more ↦
        rw
          (
            merkle_tree_high node no_tree d ts more,
            merkle_tree_high (node_hash hash) [] d (map root_of ts)
                (omega (arith, length-map root_of ts)),
            take-map root_of (2 ^ d) ts,
            drop-map root_of (2 ^ d) ts,
          )
          (ap₂ (node_hash hash)
            (root_of-merkle_tree d (take (2 ^ d) ts)
              (omega (arith, length-take (2 ^ d) ts, pow_pos d)))
            (root_of-merkle_tree d (drop (2 ^ d) ts) (omega (arith, length-drop (2 ^ d) ts))))
    | no few ↦
        rw
          (
            merkle_tree_low node no_tree d ts (omega arith),
            merkle_tree_low (node_hash hash) [] d (map root_of ts)
                (omega (arith, length-map root_of ts)),
          )
          (root_of-merkle_tree d ts h)
  ]

some_injective {ℓ} : {A : Type ℓ} {a b : A} → some a ≡ some b → a ≡ b
some_injective e = cc

both {ℓ} : {P Q R C : Type ℓ} → (P → Q → R) → P ⊎ C → Q ⊎ C → R ⊎ C
both f (inl p) (inl q) = inl (f p q)
both f (inl p) (inr c) = inr c
both f (inr c) _ = inr c

module _ (hash : Bytes → Bytes) (size : (x : Bytes) → length (hash x) ≡ 32) where
  length-root_of : (t : Tree) → length (root_of hash t) ≡ 32
  unfolding root_of leaf_hash node_hash
  length-root_of (leaf i h) = size _
  length-root_of (node l r) = size _

  -- Trees with one root are one tree, or the hash function collides.
  root_of_binding :
      (s t : Tree)
      → Indexed s
      → Indexed t
      → root_of hash s ≡ root_of hash t
      → (s ≡ t) ⊎ Collision hash
  unfolding root_of
  root_of_binding (leaf i g) (leaf j h) p q e = elim (same_leaf hash i j g h p q e) [
    | inr c ↦ inr c
    | inl (a, b) ↦ inl (ap₂ leaf a b)
  ]
  root_of_binding (leaf i g) (node l r) p q e = inr (leaf_not_node hash i g _ _ e)
  root_of_binding (node l r) (leaf j h) p q e = inr (leaf_not_node hash j h _ _ (sym e))
  root_of_binding (node a b) (node c d) p q e =
      let left = root_of_binding a c p.0 q.0 in
      let right = root_of_binding b d p.1 q.1 in
      elim (same_node hash _ _ _ _ (length-root_of a ∙ sym (length-root_of c)) e) [
        | inr x ↦ inr x
        | inl (u, v) ↦ both (ap₂ node) (left u) (right v)
      ]

  root_tree : List Bytes → Tree
  root_tree hs = merkle_tree node no_tree 64 (leaf_trees 0 hs)

  rfc6962_root-root_tree :
      (h : Bytes) (hs : List Bytes)
      → length (h ∷ hs) ≤ 2 ^ 64
      → rfc6962_root hash 64 (h ∷ hs) ≡ root_of hash (root_tree (h ∷ hs))
  unfolding rfc6962_root root_tree
  rfc6962_root-root_tree h hs k = sym (
      root_of-merkle_tree hash 64 (leaf_trees 0 (h ∷ hs))
        (omega (arith, length-leaf_trees 0 (h ∷ hs)))
      ∙ ap (merkle_tree (node_hash hash) [] 64) (map-root_of hash 0 (h ∷ hs)))

  -- The root of the empty segment is that of no other.
  empty_not_root : (t : Tree) → hash (1 ∷ []) ≡ root_of hash t → Collision hash
  unfolding root_of leaf_hash node_hash
  empty_not_root (leaf i h) e = elim (same_input hash _ _ e) [ inr c ↦ c | inl p ↦ cc ]
  empty_not_root (node l r) e = elim (same_input hash _ _ e) [
    | inr c ↦ c
    | inl p ↦
        let empty : [] ≡ root_of hash l ++ root_of hash r = cc in
        absurd (
          omega (
            arith,
            ap length empty,
            length-append (root_of hash l) (root_of hash r),
            length-root_of l,
          ))
  ]

  root_tree-Indexed : (hs : List Bytes) → length hs ≤ 2 ^ 64 → Indexed (root_tree hs)
  unfolding root_tree
  root_tree-Indexed hs k =
      Indexed-merkle_tree 64 (leaf_trees 0 hs) (leaf_trees-Indexed 0 hs (omega arith))

  root_tree_injective :
      (g : Bytes) (gs : List Bytes) (h : Bytes) (hs : List Bytes)
      → length (g ∷ gs) ≤ 2 ^ 64
      → length (h ∷ hs) ≤ 2 ^ 64
      → root_tree (g ∷ gs) ≡ root_tree (h ∷ hs)
      → g ∷ gs ≡ h ∷ hs
  unfolding root_tree
  root_tree_injective g gs h hs k l e =
      sym (hashes_back g gs k) ∙ ap (λ t. map (λ l. l.1) (leaves_of t)) e ∙ hashes_back h hs l
    where
      hashes_back :
          (x : Bytes) (xs : List Bytes)
          → length (x ∷ xs) ≤ 2 ^ 64
          → map (λ l. l.1) (leaves_of (root_tree (x ∷ xs))) ≡ x ∷ xs
      hashes_back x xs b =
          ap (map (λ l. l.1)) (
            leaves_of-merkle_tree 64 (leaf_trees 0 (x ∷ xs))
              (omega (arith, length-leaf_trees 0 (x ∷ xs)))
              (omega (arith, length-leaf_trees 0 (x ∷ xs))))
          ∙ hashes-flat 0 (x ∷ xs)

  rfc6962_root_binding :
      (xs ys : List Bytes)
      → length xs ≤ 2 ^ 64
      → length ys ≤ 2 ^ 64
      → rfc6962_root hash 64 xs ≡ rfc6962_root hash 64 ys
      → (xs ≡ ys) ⊎ Collision hash
  unfolding rfc6962_root
  rfc6962_root_binding [] [] k l e = inl refl
  rfc6962_root_binding [] (h ∷ hs) k l e =
      inr (empty_not_root (root_tree (h ∷ hs)) (e ∙ rfc6962_root-root_tree h hs l))
  rfc6962_root_binding (g ∷ gs) [] k l e =
      inr (empty_not_root (root_tree (g ∷ gs)) (sym e ∙ rfc6962_root-root_tree g gs k))
  rfc6962_root_binding (g ∷ gs) (h ∷ hs) k l e =
      elim (root_of_binding (root_tree (g ∷ gs)) (root_tree (h ∷ hs)) (root_tree-Indexed (g ∷ gs) k)
        (root_tree-Indexed (h ∷ hs) l)
        (sym (rfc6962_root-root_tree g gs k) ∙ e ∙ rfc6962_root-root_tree h hs l)) [
          | inr c ↦ inr c
          | inl p ↦ inl (root_tree_injective g gs h hs k l p)
        ]

  -- Two segments of at most 2 ^ 64 packets for which the code returns one root have the same packet
  -- hashes in the same order, or they show two inputs that the 32-byte hash does not tell apart.
  pub local_segment_root_binding :
      (fuel fuel' : ℕ) (xs ys : List Bytes)
      → length xs ≤ 2 ^ 64
      → length ys ≤ 2 ^ 64
      → length xs ≤ fuel
      → length ys ≤ fuel'
      → local_segment_root hash fuel xs ≡ local_segment_root hash fuel' ys
      → (xs ≡ ys) ⊎ Collision hash
  local_segment_root_binding fuel fuel' xs ys k l f f' e = rfc6962_root_binding xs ys k l (
      some_injective (
        sym (local_segment_root-rfc6962_root hash fuel 64 xs f k)
        ∙ e
        ∙ local_segment_root-rfc6962_root hash fuel' 64 ys f' l))
