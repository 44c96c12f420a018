-- ===== src/Uploader/Flush/Outcomes.antt =====
-- internal/uploader/uploader.go: how the steps of a flush can end.
use axm_sfn.Common.{
  ℕ, zero, suc, select, ◌≡◌, ◌⊎◌, inl, inr, refl, sym, ap, ◌∙◌, Bool, true, false, ◌||◌, List, [],
  ◌∷◌, map, Option, none, some, length, length-map, leb, arith, Bool-cases,
}
use axm_sfn.Common.Int.{ℤ, pos, negsuc}
use axm_sfn.Common.Text.{Bytes}
use axm_sfn.HotBuffer.Tables.{Packet, Buffer, Error, Result, ok, err, unavailable, out_of_range}
use axm_sfn.HotBuffer.Segments.{
  mark_rows, add_segment, with_segment, commit, write_segment, limit, is_waiting, order_by_seq,
  contiguous_range, pending_range, hash_by_id, hashes_for, find_hash, packet_hashes,
}
use axm_sfn.Uploader.Flush.{Uploader, FlushEnv, FlushError, flush_range, flush}
use axm_sfn.HotBuffer.Writes.{int64_limit}

hashes_are : (xs ys : List (Option Bytes)) → (Result.ok xs ≡ ok ys) → xs ≡ ys
hashes_are xs ys e = ground arith

length-hashes_for :
    (ids : List ℕ) (r : Result (List (ℕ × Bytes))) (hashes : List (Option Bytes))
    → hashes_for ids r ≡ ok hashes
    → length hashes ≡ length ids
length-hashes_for ids (ok found) hashes e =
    let at : map (find_hash found) ids ≡ hashes = ground arith in
    sym (ap length at) ∙ length-map (find_hash found) ids
length-hashes_for ids (err x) hashes e = absurd (ground arith)

-- PacketHashes answers with one hash for each row asked for.
pub length-packet_hashes :
    (up : Bool) (ids : List ℕ) (b : Buffer) (hashes : List (Option Bytes))
    → packet_hashes up ids b ≡ ok hashes
    → length hashes ≡ length ids
unfolding packet_hashes
length-packet_hashes up [] b hashes e = sym (ap length (hashes_are [] hashes e))
length-packet_hashes false (i ∷ is) b hashes e = absurd (ground arith)
length-packet_hashes true (i ∷ is) b hashes e =
    length-hashes_for (i ∷ is) (hash_by_id (i ∷ is) b.packets) hashes e

commit-cases :
    (up : Bool) (now : ℕ) (session : Bytes) (first last count : ℕ) (root : Bytes) (b : Buffer)
    (o : Option (List Packet))
    → ((e : Error) × (commit up (with_segment now session first last count root b o) b
          ≡ (err e, b)))
      ⊎ ((ps : List Packet) × (o ≡ some ps)
          × (commit up (with_segment now session first last count root b o) b
              ≡ (ok tt, add_segment now session first last count root ps b)))
commit-cases up now session first last count root b none = inl (unavailable, refl)
commit-cases true now session first last count root b (some ps) = inr (ps, refl, refl)
commit-cases false now session first last count root b (some ps) = inl (unavailable, refl)

-- WriteSegment changes nothing, or marks every row and adds the segment.
pub write_segment-cases :
    (up : ℕ → Bool) (now : ℕ) (session : Bytes) (first last count : ℕ) (root : Bytes) (ids : List ℕ)
    (b : Buffer)
    → ((e : Error) × (write_segment up now session first last count root ids b ≡ (err e, b)))
      ⊎ ((ps : List Packet) × (mark_rows up 3 b.next_segment ids b.packets ≡ some ps)
          × (write_segment up now session first last count root ids b
              ≡ (ok tt, add_segment now session first last count root ps b)))
unfolding write_segment
write_segment-cases up now session first last count root ids b = elim (Bool-cases (up 0)) [
  | inr n ↦ inl (unavailable, rw n)
  | inl y ↦ elim (Bool-cases (leb int64_limit first || leb int64_limit last)) [
    | inl big ↦ inl (out_of_range, rw (y, big))
    | inr fits ↦ elim (Bool-cases (up 1)) [
      | inr n ↦ inl (unavailable, rw (y, fits, n))
      | inl z ↦
          rw (y, fits, z)
            (commit-cases (up 2) now session first last count root b
              (mark_rows up 3 b.next_segment ids b.packets))
    ]
  ]
]

limit_none : (n : ℤ) → limit n [] ≡ []
limit_none (pos zero) = refl
limit_none (pos (suc n)) = refl
limit_none (negsuc n) = refl

-- Where no packet of the session waits, a flush changes nothing.
pub flush_idle :
    (blake3 : Bytes → Bytes) (u : Uploader) (env : FlushEnv) (session : Bytes) (b : Buffer)
    → select (is_waiting session) b.packets ≡ []
    → (e : Option FlushError) × (flush blake3 u env session b ≡ some (e, b))
unfolding flush pending_range flush_range order_by_seq contiguous_range
flush_idle blake3 u env session b none_waits = elim (Bool-cases env.range_up) [
  | inr n ↦ rw n (_, refl)
  | inl y ↦ rw (y, none_waits, limit_none u.batch_size) (_, refl)
]
