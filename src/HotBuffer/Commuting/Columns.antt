-- ===== src/HotBuffer/Commuting/Columns.antt =====
-- internal/hotbuffer: an UPDATE that leaves the columns alone that the uploader reads.
use axm_sfn.Common.{
  ℕ, zero, suc, ◌≡◌, refl, sym, ap, ap₂, ◌∙◌, Bool, true, false, List, [], ◌∷◌, map, inl, inr, take,
  select, leb, if◌then◌else◌, Bool-cases,
}
use axm_sfn.Common.Int.{ℤ, pos, negsuc}
use axm_sfn.Common.Text.{Bytes}
use axm_sfn.HotBuffer.Tables.{Packet, Buffer}
use axm_sfn.HotBuffer.Writes.{has_row}
use axm_sfn.HotBuffer.Segments.{
  is_waiting, insert_by_seq, order_by_seq, limit, contiguous_range, pending_range, hash_by_id,
  packet_hashes,
}

-- The two rows are one to the uploader.
pub record SameRow (p r : Packet) : Type 0 where
  pub id : r.id ≡ p.id
  pub session_id : r.session_id ≡ p.session_id
  pub seq : r.seq ≡ p.seq
  pub state : r.upload_state ≡ p.upload_state
  pub hash : r.packet_blake3 ≡ p.packet_blake3

module _ (f : Packet → Packet) (same : (p : Packet) → SameRow p (f p)) where
  is_waiting-same : (session : Bytes) (p : Packet) → is_waiting session (f p) ≡ is_waiting session p
  is_waiting-same session p = simp ((same p).session_id, (same p).state)

  select-same :
      (session : Bytes) (ps : List Packet)
      → select (is_waiting session) (map f ps) ≡ map f (select (is_waiting session) ps)
  select-same session [] = refl
  select-same session (p ∷ ps) =
      let rest = select-same session ps in
      elim (Bool-cases (is_waiting session p)) [
        | inl y ↦
            ap
              (λ t.
                if t
                then f p ∷ select (is_waiting session) (map f ps)
                else select (is_waiting session) (map f ps))
              (is_waiting-same session p ∙ y)
            ∙ ap (λ l. f p ∷ l) rest
            ∙ ap
                (λ t. map f (
                  if t then p ∷ select (is_waiting session) ps else select (is_waiting session) ps))
                (sym y)
        | inr n ↦
            ap
              (λ t.
                if t
                then f p ∷ select (is_waiting session) (map f ps)
                else select (is_waiting session) (map f ps))
              (is_waiting-same session p ∙ n)
            ∙ rest
            ∙ ap
                (λ t. map f (
                  if t then p ∷ select (is_waiting session) ps else select (is_waiting session) ps))
                (sym n)
      ]

  insert_case :
      (p r : Packet) (ps : List Packet) (t : Bool)
      → insert_by_seq (f p) (map f ps) ≡ map f (insert_by_seq p ps)
      → (if t then f p ∷ f r ∷ map f ps else f r ∷ insert_by_seq (f p) (map f ps))
        ≡ map f (if t then p ∷ r ∷ ps else r ∷ insert_by_seq p ps)
  insert_case p r ps true rest = refl
  insert_case p r ps false rest = ap (λ l. f r ∷ l) rest

  insert_by_seq-same :
      (p : Packet) (ps : List Packet) → insert_by_seq (f p) (map f ps) ≡ map f (insert_by_seq p ps)
  unfolding insert_by_seq
  insert_by_seq-same p [] = refl
  insert_by_seq-same p (r ∷ ps) =
      let at : leb (f p).seq (f r).seq ≡ leb p.seq r.seq = ap₂ leb (same p).seq (same r).seq in
      ap (λ t. if t then f p ∷ f r ∷ map f ps else f r ∷ insert_by_seq (f p) (map f ps)) at
      ∙ insert_case p r ps (leb p.seq r.seq) (insert_by_seq-same p ps)

  order_by_seq-same : (ps : List Packet) → order_by_seq (map f ps) ≡ map f (order_by_seq ps)
  unfolding order_by_seq
  order_by_seq-same [] = refl
  order_by_seq-same (p ∷ ps) =
      ap (insert_by_seq (f p)) (order_by_seq-same ps) ∙ insert_by_seq-same p (order_by_seq ps)

  take-same : (n : ℕ) (ps : List Packet) → take n (map f ps) ≡ map f (take n ps)
  take-same zero ps = refl
  take-same (suc n) [] = refl
  take-same (suc n) (p ∷ ps) = ap (λ l. f p ∷ l) (take-same n ps)

  limit-same : (n : ℤ) (ps : List Packet) → limit n (map f ps) ≡ map f (limit n ps)
  limit-same (pos n) ps = take-same n ps
  limit-same (negsuc n) ps = refl

  seqs-same : (ps : List Packet) → map (λ p. p.seq) (map f ps) ≡ map (λ p. p.seq) ps
  seqs-same [] = refl
  seqs-same (p ∷ ps) = rw (seqs-same ps, (same p).seq)

  ids-same : (ps : List Packet) → map (λ p. p.id) (map f ps) ≡ map (λ p. p.id) ps
  ids-same [] = refl
  ids-same (p ∷ ps) = rw (ids-same ps, (same p).id)

  contiguous_range-same : (ps : List Packet) → contiguous_range (map f ps) ≡ contiguous_range ps
  unfolding contiguous_range
  contiguous_range-same [] = refl
  contiguous_range-same (p ∷ ps) = rw (seqs-same ps, ids-same ps, (same p).seq, (same p).id)

  -- PendingRange
  pub pending_range-same :
      (up : Bool) (session : Bytes) (max : ℤ) (b : Buffer)
      → pending_range up session max (record b { packets = map f b.packets })
        ≡ pending_range up session max b
  unfolding pending_range
  pending_range-same up session max b = rw (
    select-same session b.packets,
    order_by_seq-same (select (is_waiting session) b.packets),
    limit-same max (order_by_seq (select (is_waiting session) b.packets)),
    contiguous_range-same (limit max (order_by_seq (select (is_waiting session) b.packets))),
  )

  hash_by_id-same :
      (ids : List ℕ) (ps : List Packet) → hash_by_id ids (map f ps) ≡ hash_by_id ids ps
  unfolding hash_by_id
  hash_by_id-same ids [] = refl
  hash_by_id-same ids (p ∷ ps) = rw (hash_by_id-same ids ps, (same p).id, (same p).hash)

  -- PacketHashes
  pub packet_hashes-same :
      (up : Bool) (ids : List ℕ) (b : Buffer)
      → packet_hashes up ids (record b { packets = map f b.packets }) ≡ packet_hashes up ids b
  unfolding packet_hashes
  packet_hashes-same up [] b = refl
  packet_hashes-same up (i ∷ ids) b = rw (hash_by_id-same (i ∷ ids) b.packets)

  pub has_row-same : (i : ℕ) (ps : List Packet) → has_row i (map f ps) ≡ has_row i ps
  unfolding has_row
  has_row-same i [] = refl
  has_row-same i (p ∷ ps) = rw (has_row-same i ps, (same p).id)
