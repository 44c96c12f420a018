-- ===== src/Uploader/Flush/Drained.antt =====
-- internal/uploader/uploader.go: a flush against the queue of the session that it serves.
use axm_sfn.Common.{
  ℕ, ◌^◌, ◌<◌, ◌≡◌, ◌≢◌, ◌⊎◌, inl, inr, refl, sym, ap, ap₂, ◌∙◌, subst, List, [], ◌∷◌, map, Option,
  none, some, length, length-map, arith, ==_ne, Bool-cases,
}
use axm_sfn.Common.Int.{pos}
use axm_sfn.Common.Text.{Bytes}
use axm_sfn.HotBuffer.Tables.{Buffer, Result, ok, err, unavailable}
use axm_sfn.HotBuffer.Segments.{pending_range, packet_hashes, mark_rows}
use axm_sfn.HotBuffer.Invariant.{IsValid}
use axm_sfn.HotBuffer.Pending.{IsRange, queue, pending_range-IsRange}
use axm_sfn.HotBuffer.Drain.{mark_rows-queue}
use axm_sfn.Tpm.{or_empty}
use axm_sfn.Uploader.Root.Rfc6962.{rfc6962_root, local_segment_root-rfc6962_root}
use axm_sfn.Uploader.Flush.{
  Uploader, FlushEnv, FlushError, pending_range_failed, fetch_hashes_failed, write_segment_failed,
  flush_segment, flush_root, flush_hashes, flush_range, flush,
}
use axm_sfn.Uploader.Flush.Outcomes.{length-packet_hashes, write_segment-cases}

module _ (blake3 : Bytes → Bytes) (env : FlushEnv) (session : Bytes) where
  -- A flush of at most m packets took a front of the queue: the rows of a range are gone from it, the
  -- rest waits as before, and one segment is added, over the range and with the RFC 6962 root over the
  -- hashes that PacketHashes read for its rows.
  pub record IsDrained (m : ℕ) (before after : Buffer) : Type 0 where
    pub first : ℕ
    pub last : ℕ
    pub row_ids : List ℕ
    pub range : IsRange m (queue session before) first last row_ids
    pub some_rows : row_ids ≢ []
    pub hashes : List (Option Bytes)
    pub fetched : packet_hashes env.hashes_up row_ids before ≡ ok hashes
    pub rest : queue session after ≡ range.later
    pub segments :
        after.segments
        ≡ record {
          id = before.next_segment;
          session_id = session;
          seq_start = first;
          seq_end = last;
          packet_count = length row_ids;
          merkle_root = rfc6962_root blake3 64 (map or_empty hashes);
          created_at = env.now;
        }
          ∷ before.segments

  -- The tables stay as they are, or the queue is drained.
  abbrev Settled : ℕ → Buffer → Option (Option FlushError × Buffer) → Type 0
  Settled m b o =
      (e : Option FlushError) × (after : Buffer) × (o ≡ some (e, after))
      × ((after ≡ b) ⊎ IsDrained m b after)

  module _ (u : Uploader) (m : ℕ) (b : Buffer) (v : IsValid b) where
    write-Settled :
        (first last : ℕ) (ids : List ℕ) (hashes : List (Option Bytes))
        → IsRange m (queue session b) first last ids
        → ids ≢ []
        → packet_hashes env.hashes_up ids b ≡ ok hashes
        → Settled m b (
            flush_root blake3 u env session first last ids b
              (some (rfc6962_root blake3 64 (map or_empty hashes))))
    unfolding flush_root flush_segment
    write-Settled first last ids hashes range ne fetched =
        let root = rfc6962_root blake3 64 (map or_empty hashes) in
        elim (write_segment-cases env.segment_up env.now session first last (length ids) root ids
          b) [
            | inl (e, failed) ↦ rw failed (some (write_segment_failed e), b, refl, inl refl)
            | inr (ps, marked, done) ↦ rw done (
              _,
              _,
              refl,
              inr (record {
                first = first;
                last = last;
                row_ids = ids;
                range = range;
                some_rows = ne;
                hashes = hashes;
                fetched = fetched;
                rest =
                    mark_rows-queue session env.segment_up 3 b.next_segment b.next_packet range.rows
                      range.later b.packets ps v.packet_keys range.split
                      (subst
                        (λ is. mark_rows env.segment_up 3 b.next_segment is b.packets ≡ some ps)
                        range.ids marked);
                segments = refl;
              }),
            )
          ]

    flush_hashes-Settled :
        (first last : ℕ) (ids : List ℕ) (r : Result (List (Option Bytes)))
        → m < 2 ^ 63
        → IsRange m (queue session b) first last ids
        → ids ≢ []
        → packet_hashes env.hashes_up ids b ≡ r
        → Settled m b (flush_hashes blake3 u env session first last ids b r)
    unfolding flush_hashes
    flush_hashes-Settled first last ids (err e) small range ne fetched =
        (some (fetch_hashes_failed e), b, refl, inl refl)
    flush_hashes-Settled first last ids (ok hashes) small range ne fetched =
        let size : length (map or_empty hashes) ≡ length hashes = length-map or_empty hashes in
        let same = length-packet_hashes env.hashes_up ids b hashes fetched in
        let rows : length ids ≡ length range.rows =
          ap length range.ids ∙ length-map (λ p. p.id) range.rows in
        let bound = range.bounded in
        rw
          (local_segment_root-rfc6962_root blake3 (length hashes) 64 (map or_empty hashes)
            (omega arith) (omega arith))
          (write-Settled first last ids hashes range ne fetched)

    flush_range-Settled :
        (first last : ℕ) (ids : List ℕ)
        → m < 2 ^ 63
        → IsRange m (queue session b) first last ids
        → Settled m b (flush_range blake3 u env session b (ok (first, last, ids)))
    unfolding flush_range
    flush_range-Settled first last [] small range = (none, b, refl, inl refl)
    flush_range-Settled first last (i ∷ is) small range =
        rw (==_ne (length (i ∷ is)) 0 (omega arith)) (
          flush_hashes-Settled first last (i ∷ is) (packet_hashes env.hashes_up (i ∷ is) b) small
            range (λ e. ground arith) refl)

    flush_read-Settled :
        (r : Result (ℕ × ℕ × List ℕ))
        → pending_range env.range_up session u.batch_size b ≡ r
        → Settled m b (flush_range blake3 u env session b r)
        → Settled m b (flush blake3 u env session b)
    unfolding flush
    flush_read-Settled r e s =
        subst (λ x. Settled m b (flush_range blake3 u env session b x)) (sym e) s

  -- On valid tables, with a batch size of m ≥ 0, a flush always returns, whatever the database and the
  -- network do. It leaves the tables as they are, or it takes a range of at most m packets off the
  -- front of the session's queue, in one segment whose root is the RFC 6962 root over their hashes.
  pub flush-IsDrained :
      (u : Uploader) (m : ℕ) (b : Buffer)
      → IsValid b
      → u.batch_size ≡ pos m
      → m < 2 ^ 63
      → (e : Option FlushError) × (after : Buffer) × (flush blake3 u env session b
          ≡ some (e, after))
        × ((after ≡ b) ⊎ IsDrained m b after)
  unfolding pending_range flush_range
  flush-IsDrained u m b v size small = elim (Bool-cases env.range_up) [
    | inr n ↦
        flush_read-Settled u m b v (err unavailable) (rw (n, pending_range))
          (some (pending_range_failed unavailable), b, refl, inl refl)
    | inl y ↦
        let (first, last, ids, read, range) = pending_range-IsRange session m b v in
        let answer : pending_range env.range_up session u.batch_size b ≡ ok (first, last, ids) =
          ap₂ (λ t n. pending_range t session n b) y size ∙ read in
        flush_read-Settled u m b v (ok (first, last, ids)) answer
          (flush_range-Settled u m b v first last ids small range)
  ]
