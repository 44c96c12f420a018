-- ===== src/Custody/Tamper.antt =====
-- internal/custody/packetizer.go: the chain of packets as evidence of the stored rows.
use axm_sfn.Common.{
  ℕ, ◌^◌, ◌<◌, ◌≡◌, ◌⊎◌, inl, inr, refl, sym, ap, ◌∙◌, subst, List, [], ◌∷◌, ◌++◌, Option, none,
  some, arith, length, append_cancel, append_cancel_right, append_assoc,
}
use axm_sfn.Common.Collisions.{Collision, same_input}
use axm_sfn.Common.Text.{Bytes}
use axm_sfn.Encoding.{put_uint64}
use axm_sfn.Encoding.LittleEndian.{length-put_uint64, put_uint64_injective}
use axm_sfn.HotBuffer.Tables.{Packet}
use axm_sfn.Tpm.{or_empty}
use axm_sfn.Custody.State.{Hashes, compute_packet_blake3}
use axm_sfn.Custody.Chain.{IsChain}

-- Two rows at one place with the same bytes under the hash: the stored document, then the signature.
-- A signature that is stored is the one that was hashed.
pub record SameRow (r r' : Packet) : Type 0 where
  pub sig : Option Bytes
  pub sig' : Option Bytes
  pub signed : (r.tpm_sig ≡ none) ⊎ (r.tpm_sig ≡ sig)
  pub signed' : (r'.tpm_sig ≡ none) ⊎ (r'.tpm_sig ≡ sig')
  pub place : r.seq ≡ r'.seq
  pub content : r.telemetry_json ++ or_empty sig ≡ r'.telemetry_json ++ or_empty sig'

abbrev pub SameRows : List Packet → List Packet → Type 0
SameRows [] [] = Unit
SameRows [] (r ∷ rs) = ⊥
SameRows (r ∷ rs) [] = ⊥
SameRows (r ∷ rs) (r' ∷ rs') = SameRow r r' × SameRows rs rs'

some_inj : (x y : Bytes) → (Option.some x ≡ some y) → x ≡ y
some_inj x y e = ground arith

module _ (h : Hashes) (size : (x : Bytes) → length (h.blake3 x) ≡ 32) where
  -- The link before place n is nothing at 0, and 32 bytes behind.
  abbrev IsPrev : ℕ → Option Bytes → Type 0
  IsPrev n none = n ≡ 0
  IsPrev n (some b) = (0 < n) × (length b ≡ 32)

  IsChain-IsPrev :
      (s : Bytes) (n : ℕ) (link : Option Bytes) (rows : List Packet)
      → IsChain h s n link rows
      → IsPrev n link
  unfolding compute_packet_blake3
  IsChain-IsPrev s n link [] c = rw (c.1) (c.0)
  IsChain-IsPrev s n link (r ∷ rs) (prev, l, c) =
      let place = l.place in rw (l.linked) (omega arith, size _)

  same_prev :
      (n : ℕ) (p q : Option Bytes)
      → IsPrev n p
      → IsPrev n q
      → length (or_empty p) ≡ length (or_empty q)
  same_prev n none none a b = refl
  same_prev n none (some y) a b = absurd (omega arith)
  same_prev n (some x) none a b = absurd (omega arith)
  same_prev n (some x) (some y) a b = a.1 ∙ sym b.1

  prev_injective :
      (n : ℕ) (p q : Option Bytes) → IsPrev n p → IsPrev n q → or_empty p ≡ or_empty q → p ≡ q
  prev_injective n none none a b e = refl
  prev_injective n none (some y) a b e = absurd (omega arith)
  prev_injective n (some x) none a b e = absurd (omega arith)
  prev_injective n (some x) (some y) a b e = ap some e

  -- One hash of two packets: the same place, bytes and link before, or a collision.
  same_packet :
      (s : Bytes) (m n : ℕ) (t t' : Bytes) (sig sig' prev prev' : Option Bytes)
      → m < 2 ^ 64
      → n < 2 ^ 64
      → IsPrev m prev
      → IsPrev n prev'
      → compute_packet_blake3 h.blake3 m s t sig prev
        ≡ compute_packet_blake3 h.blake3 n s t' sig' prev'
      → ((m ≡ n) × (t ++ or_empty sig ≡ t' ++ or_empty sig') × (prev ≡ prev')) ⊎ Collision h.blake3
  unfolding compute_packet_blake3
  same_packet s m n t t' sig sig' prev prev' bm bn a b e = elim (same_input h.blake3 _ _ e) [
    | inr c ↦ inr c
    | inl p ↦
        let rest : put_uint64 m ++ (s ++ (t ++ (or_empty sig ++ or_empty prev)))
            ≡ put_uint64 n ++ (s ++ (t' ++ (or_empty sig' ++ or_empty prev'))) =
          cc in
        let head =
          append_cancel (put_uint64 m) (put_uint64 n)
            (length-put_uint64 m ∙ sym (length-put_uint64 n)) rest in
        let place = put_uint64_injective m n bm bn head.0 in
        let body = (append_cancel s s refl head.1).1 in
        let framed : (t ++ or_empty sig) ++ or_empty prev
            ≡ (t' ++ or_empty sig') ++ or_empty prev' =
          append_assoc t (or_empty sig) (or_empty prev)
          ∙ body
          ∙ sym (append_assoc t' (or_empty sig') (or_empty prev')) in
        let b' : IsPrev m prev' = subst (λ k. IsPrev k prev') (sym place) b in
        let parts =
          append_cancel_right (t ++ or_empty sig) (t' ++ or_empty sig')
            (same_prev m prev prev' a b') framed in
        inl (place, parts.0, prev_injective m prev prev' a b' parts.1)
  ]

  -- The newest link of a session commits to its whole history: two chains of fewer than 2 ^ 64 packets
  -- of one session, with the same newest link, have the same number of rows, and row by row the same
  -- place and the same bytes of document and signature, or BLAKE3 collides (its hashes are of 32 bytes).
  pub IsChain-binding :
      (s : Bytes) (m n : ℕ) (link : Option Bytes) (rows rows' : List Packet)
      → m < 2 ^ 64
      → n < 2 ^ 64
      → IsChain h s m link rows
      → IsChain h s n link rows'
      → SameRows rows rows' ⊎ Collision h.blake3
  IsChain-binding s m n link [] [] bm bn c c' = inl tt
  IsChain-binding s m n link [] (r' ∷ rs') bm bn c (prev', l', c') =
      absurd (ground (arith, sym c.1 ∙ l'.linked))
  IsChain-binding s m n link (r ∷ rs) [] bm bn (prev, l, c) c' =
      absurd (ground (arith, sym c'.1 ∙ l.linked))
  IsChain-binding s m n link (r ∷ rs) (r' ∷ rs') bm bn (prev, l, c) (prev', l', c') =
      let place = l.place in
      let place' = l'.place in
      let small : r.seq < 2 ^ 64 = omega arith in
      let small' : r'.seq < 2 ^ 64 = omega arith in
      elim (same_packet s r.seq r'.seq r.telemetry_json r'.telemetry_json l.sig l'.sig prev prev'
        small small' (IsChain-IsPrev s r.seq prev rs c) (IsChain-IsPrev s r'.seq prev' rs' c')
        (some_inj _ _ (sym l.linked ∙ l'.linked))) [
          | inr x ↦ inr x
          | inl (same, content, linked) ↦
              elim (IsChain-binding s r.seq r'.seq prev rs rs' small small' c
                (subst (λ p. IsChain h s r'.seq p rs') (sym linked) c')) [
                  | inr x ↦ inr x
                  | inl rest ↦ inl (
                    record {
                      sig = l.sig;
                      sig' = l'.sig;
                      signed = l.signature;
                      signed' = l'.signature;
                      place = same;
                      content = content;
                    },
                    rest,
                  )
                ]
        ]
