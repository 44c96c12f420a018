-- ===== src/HotBuffer/Commuting/Signed.antt =====
-- internal/hotbuffer: SetTPMSig writes no column that the uploader reads or writes.
use axm_sfn.Common.{
  ℕ, ◌≡◌, refl, sym, ap, ◌∙◌, Bool, true, false, not, ◌&&◌, ◌||◌, List, [], ◌∷◌, map, Option, some,
  inl, inr, arith, ◌==◌, if◌then◌else◌, Bool-cases, All-of,
}
use axm_sfn.Common.Int.{ℤ}
use axm_sfn.Common.Text.{Bytes}
use axm_sfn.HotBuffer.Tables.{Packet, Buffer, ok, err, unavailable, foreign_key_violation}
use axm_sfn.HotBuffer.Writes.{has_row, has_quote, update_sig, set_tpm_sig}
use axm_sfn.HotBuffer.Segments.{mark_row, pending_range, packet_hashes}
use axm_sfn.HotBuffer.Invariant.{Key, keys}
use axm_sfn.HotBuffer.Outcomes.{set_tpm_sig-cases}
use axm_sfn.HotBuffer.Commuting.Columns.{SameRow, pending_range-same, packet_hashes-same}
use axm_sfn.HotBuffer.Commuting.Marked.{
  Swap, Swap-of, Swap-idle, mark_rows-through, segment, write_segment-through, Kept,
  write_segment-Kept,
}

-- One row of the UPDATE of SetTPMSig.
abbrev sign_row : ℕ → Option Bytes → ℕ → Packet → Packet
sign_row i sig q p = if p.id == i then record p { tpm_sig = sig; quote_ref = some q } else p

sign_row-SameRow :
    (i : ℕ) (sig : Option Bytes) (q : ℕ) (p : Packet) → SameRow p (sign_row i sig q p)
sign_row-SameRow i sig q p = elim (Bool-cases (p.id == i)) [
  | inl y ↦ rw y (record { id = refl; session_id = refl; seq = refl; state = refl; hash = refl })
  | inr n ↦ rw n (record { id = refl; session_id = refl; seq = refl; state = refl; hash = refl })
]

update_sig-map :
    (i : ℕ) (sig : Option Bytes) (q : ℕ) (ps : List Packet)
    → update_sig i sig q ps ≡ map (sign_row i sig q) ps
unfolding update_sig
update_sig-map i sig q [] = refl
update_sig-map i sig q (p ∷ ps) = ap (λ l. sign_row i sig q p ∷ l) (update_sig-map i sig q ps)

mark_row-update_sig :
    (i : ℕ) (sig : Option Bytes) (q seg j : ℕ) (ps : List Packet)
    → mark_row seg j (update_sig i sig q ps) ≡ update_sig i sig q (mark_row seg j ps)
unfolding mark_row update_sig
mark_row-update_sig i sig q seg j [] = refl
mark_row-update_sig i sig q seg j (p ∷ ps) = ground (arith, mark_row-update_sig i sig q seg j ps)

row_taken : ℕ → List Key → Bool
row_taken i [] = false
row_taken i ((j, session, seq) ∷ ks) = j == i || row_taken i ks

has_row-row_taken : (i : ℕ) (ps : List Packet) → has_row i ps ≡ row_taken i (keys ps)
unfolding has_row row_taken
has_row-row_taken i [] = refl
has_row-row_taken i (p ∷ ps) = ap (λ t. p.id == i || t) (has_row-row_taken i ps)

module _ (up : Bool) (i : ℕ) (sig : Option Bytes) (q : ℕ) (b : Buffer) where
  pub pending_range-set_tpm_sig :
      (on : Bool) (session : Bytes) (max : ℤ)
      → pending_range on session max (set_tpm_sig up i sig q b).1 ≡ pending_range on session max b
  pending_range-set_tpm_sig on session max = elim (set_tpm_sig-cases up i sig q b) [
    | inl e ↦ ap (pending_range on session max) e
    | inr e ↦
        ap (pending_range on session max) e
        ∙ ap (λ ps. pending_range on session max (record b { packets = ps }))
            (update_sig-map i sig q b.packets)
        ∙ pending_range-same (sign_row i sig q) (sign_row-SameRow i sig q) on session max b
  ]

  pub packet_hashes-set_tpm_sig :
      (on : Bool) (ids : List ℕ)
      → packet_hashes on ids (set_tpm_sig up i sig q b).1 ≡ packet_hashes on ids b
  packet_hashes-set_tpm_sig on ids = elim (set_tpm_sig-cases up i sig q b) [
    | inl e ↦ ap (packet_hashes on ids) e
    | inr e ↦
        ap (packet_hashes on ids) e
        ∙ ap (λ ps. packet_hashes on ids (record b { packets = ps }))
            (update_sig-map i sig q b.packets)
        ∙ packet_hashes-same (sign_row i sig q) (sign_row-SameRow i sig q) on ids b
  ]

module _ (on : ℕ → Bool) (at : ℕ) (session : Bytes) (first last count : ℕ) (root : Bytes)
    (ids : List ℕ) (b : Buffer) where
  -- The UPDATE's condition is as it was.
  condition-Kept :
      (i q : ℕ) (c : Buffer)
      → Kept on at session first last count root ids b c
      → (has_row i c.packets && not (has_quote q c.quotes))
        ≡ (has_row i b.packets && not (has_quote q b.quotes))
  condition-Kept i q c k =
      ap (λ t. t && not (has_quote q c.quotes))
        (has_row-row_taken i c.packets
          ∙ ap (row_taken i) k.packet_keys
          ∙ sym (has_row-row_taken i b.packets))
      ∙ ap (λ l. has_row i b.packets && not (has_quote q l)) k.quotes

  pub set_tpm_sig-Swap :
      (up : Bool) (i : ℕ) (sig : Option Bytes) (q : ℕ)
      → Swap (set_tpm_sig up i sig q) (segment on at session first last count root ids) b
  unfolding set_tpm_sig
  set_tpm_sig-Swap false i sig q = Swap-idle _ _ b (err unavailable) refl refl
  set_tpm_sig-Swap true i sig q =
      let c = (segment on at session first last count root ids b).1 in
      let same =
        condition-Kept i q c (write_segment-Kept on at session first last count root ids b) in
      elim (Bool-cases (has_row i b.packets && not (has_quote q b.quotes))) [
        | inl bad ↦ Swap-idle _ _ b (err foreign_key_violation) (rw bad refl) (rw (same ∙ bad) refl)
        | inr good ↦
            let g : Buffer → Buffer =
              λ (d : Buffer). record d { packets = update_sig i sig q d.packets } in
            Swap-of _ _ b (g b) (g c) (ok tt) (rw good refl) (rw (same ∙ good) refl) (
              write_segment-through on at session first last count root ids g (update_sig i sig q) b
                (mark_rows-through (update_sig i sig q) on b.next_segment (λ j. Unit)
                  (λ j ps h. mark_row-update_sig i sig q b.next_segment j ps) 3 ids b.packets
                  (All-of (λ j. Unit) ids (λ j. tt)))
                (λ ps. refl))
      ]
