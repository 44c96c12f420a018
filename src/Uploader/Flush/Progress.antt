-- ===== src/Uploader/Flush/Progress.antt =====
-- internal/uploader/uploader.go: a flush when nothing fails.
use axm_sfn.Common.{
  ℕ, suc, ◌+◌, ◌^◌, ◌≤◌, ◌<◌, ◌≡◌, ◌≢◌, ◌⊎◌, inl, inr, refl, sym, ap, ap₂, ◌∙◌, subst, Bool, true,
  List, [], ◌∷◌, ◌++◌, map, Option, none, some, length, length-map, arith, All, All-front, ==_ne,
  lt→leb, Bool-cases,
}
use axm_sfn.Common.Int.{pos}
use axm_sfn.Common.Text.{Bytes}
use axm_sfn.Encoding.{hex_decode}
use axm_sfn.HotBuffer.Tables.{Packet, Buffer, ok}
use axm_sfn.HotBuffer.Writes.{int64_limit}
use axm_sfn.HotBuffer.Segments.{
  contains, hash_by_id, hashes_for, find_hash, packet_hashes, mark_row, mark_rows, write_segment,
}
use axm_sfn.HotBuffer.Segments.{pending_range}
use axm_sfn.HotBuffer.Runs.{Consecutive}
use axm_sfn.HotBuffer.Invariant.{IsValid}
use axm_sfn.HotBuffer.Pending.{IsRange, queue, queue-below, pending_range-IsRange}
use axm_sfn.Tpm.{or_empty}
use axm_sfn.Uploader.Root.{local_segment_root}
use axm_sfn.Uploader.Root.Rfc6962.{rfc6962_root, local_segment_root-rfc6962_root}
use axm_sfn.Uploader.Flush.{
  Uploader, FlushEnv, FlushError, flush_segment, flush_root, flush_hashes, flush_range, flush,
}
use axm_sfn.Uploader.Flush.Outcomes.{length-packet_hashes}
use axm_sfn.Uploader.Flush.Drained.{IsDrained, flush-IsDrained}

-- The hash column of a row is NULL or hexadecimal text.
abbrev pub IsReadable : Packet → Type 0
IsReadable r =
    (r.packet_blake3 ≡ none)
    ⊎ ((text : Bytes) × (hash : Bytes) × (r.packet_blake3 ≡ some text)
        × (hex_decode text ≡ some hash))

hash_by_id-ok :
    (ids : List ℕ) (ps : List Packet)
    → All IsReadable ps
    → (found : List (ℕ × Bytes)) × (hash_by_id ids ps ≡ ok found)
unfolding hash_by_id
hash_by_id-ok ids [] a = ([], refl)
hash_by_id-ok ids (p ∷ ps) a =
    let (found, rest) = hash_by_id-ok ids ps a.1 in
    elim (Bool-cases (contains p.id ids)) [
      | inr n ↦ rw (n, rest) (found, refl)
      | inl y ↦ elim a.0 [
        | inl null ↦ rw (y, rest, null) (found, refl)
        | inr (text, hash, column, decoded) ↦
            rw (y, rest, column, decoded) ((p.id, hash) ∷ found, refl)
      ]
    ]

packet_hashes-ok :
    (ids : List ℕ) (b : Buffer)
    → All IsReadable b.packets
    → (hashes : List (Option Bytes)) × (packet_hashes true ids b ≡ ok hashes)
unfolding packet_hashes
packet_hashes-ok [] b a = ([], refl)
packet_hashes-ok (i ∷ is) b a =
    let (found, read) = hash_by_id-ok (i ∷ is) b.packets a in
    (map (find_hash found) (i ∷ is), ap (hashes_for (i ∷ is)) read)

-- The last number of a run of numbers below a bound.
run_bound :
    (n bound : ℕ) (rows : List Packet)
    → Consecutive n rows
    → All (λ q. q.seq < bound) rows
    → n ≤ bound
    → n + length rows ≤ bound
run_bound n bound [] c a h = omega arith
run_bound n bound (p ∷ ps) c a h =
    let at = c.0 in
    let below = a.0 in omega (arith, run_bound (suc n) bound ps c.1 a.1 (omega arith))

mark_rows-up :
    (up : ℕ → Bool) (k seg : ℕ) (ids : List ℕ) (ps : List Packet)
    → ((j : ℕ) → up j ≡ true)
    → (qs : List Packet) × (mark_rows up k seg ids ps ≡ some qs)
unfolding mark_rows
mark_rows-up up k seg [] ps all = (ps, refl)
mark_rows-up up k seg (i ∷ is) ps all =
    let (qs, rest) = mark_rows-up up (suc k) seg is (mark_row seg i ps) all in rw (all k) (qs, rest)

-- Where every statement is carried out, WriteSegment succeeds on numbers of 63 bits.
write_segment-up :
    (up : ℕ → Bool) (now : ℕ) (session : Bytes) (first last count : ℕ) (root : Bytes) (ids : List ℕ)
    (b : Buffer)
    → ((j : ℕ) → up j ≡ true)
    → first < 2 ^ 63
    → last < 2 ^ 63
    → (after : Buffer) × (write_segment up now session first last count root ids b ≡ (ok tt, after))
      × (after.next_segment ≡ suc b.next_segment)
unfolding write_segment
write_segment-up up now session first last count root ids b all lo hi =
    let (qs, marked) = mark_rows-up up 3 b.next_segment ids b.packets all in
    rw (all 0, lt→leb int64_limit first lo, lt→leb int64_limit last hi, all 1, all 2, marked)
      (_, refl, refl)

same_answer : (x y : Option FlushError × Buffer) → Option.some x ≡ some y → x ≡ y
same_answer x y e = cc

module _ (blake3 : Bytes → Bytes) (u : Uploader) (env : FlushEnv) (session : Bytes)
    (b : Buffer) where
  -- The way through flush on which nothing fails.
  flush_done :
      (first last : ℕ) (ids : List ℕ) (hashes : List (Option Bytes)) (root : Bytes) (after : Buffer)
      → pending_range env.range_up session u.batch_size b ≡ ok (first, last, ids)
      → length ids ≢ 0
      → packet_hashes env.hashes_up ids b ≡ ok hashes
      → local_segment_root blake3 (length hashes) (map or_empty hashes) ≡ some root
      → write_segment env.segment_up env.now session first last (length ids) root ids b
        ≡ (ok tt, after)
      → (e : Option FlushError) × (flush blake3 u env session b ≡ some (e, after))
  unfolding flush flush_range flush_hashes flush_root flush_segment
  flush_done first last ids hashes root after range ne fetched rooted done =
      rw (range, ==_ne (length ids) 0 ne, fetched, rooted, done) (_, refl)

  range_size :
      (m first last : ℕ) (ids : List ℕ)
      → IsRange (suc m) (queue session b) first last ids
      → queue session b ≢ []
      → length ids ≢ 0
  range_size m first last ids range busy none_read =
      let size : length ids ≡ length range.rows =
        ap length range.ids ∙ length-map (λ p. p.id) range.rows in
      elim range.begun [
        | inl some_rows ↦ some_rows (no_rows range.rows (omega arith))
        | inr (inl zero_batch) ↦ omega arith
        | inr (inr empty) ↦
            busy (sym range.split ∙ ap₂ ◌++◌ (no_rows range.rows (omega arith)) empty)
      ]
    where
      no_rows : (rows : List Packet) → length rows ≡ 0 → rows ≡ []
      no_rows [] e = refl
      no_rows (p ∷ ps) e = absurd (omega arith)

  range_bounds :
      (m first last : ℕ) (ids : List ℕ)
      → IsValid b
      → (range : IsRange (suc m) (queue session b) first last ids) → length ids ≢ 0
      → (first < 2 ^ 63) × (last < 2 ^ 63)
  range_bounds m first last ids v range ne =
      bounds range.rows
        (All-front (λ q. q.seq < 2 ^ 63) range.rows range.later
          (subst (All (λ q. q.seq < 2 ^ 63)) (sym range.split) (queue-below session b v)))
        range.consecutive range.extent
        (λ e. ne (ap length range.ids ∙ length-map (λ p. p.id) range.rows ∙ ap length e))
    where
      bounds :
          (rows : List Packet)
          → All (λ q. q.seq < 2 ^ 63) rows
          → Consecutive first rows
          → (rows ≡ []) ⊎ (last + 1 ≡ first + length rows)
          → rows ≢ []
          → (first < 2 ^ 63) × (last < 2 ^ 63)
      bounds rows a c (inl none_read) some_rows = absurd (some_rows none_read)
      bounds [] a c (inr e) some_rows = absurd (some_rows refl)
      bounds (p ∷ ps) a c (inr e) some_rows =
          let small : first < 2 ^ 63 = omega (arith, a.0, c.0) in
          (small, omega (arith, e, run_bound first (2 ^ 63) (p ∷ ps) c a (omega arith)))

  -- Where the database carries every statement out, hash columns are hexadecimal and a packet of the
  -- session waits, a flush with a batch size of m + 1 drains the queue of valid tables, whatever comes
  -- of shipping the segment.
  pub flush_progress :
      (m : ℕ)
      → IsValid b
      → u.batch_size ≡ pos (suc m)
      → suc m < 2 ^ 63
      → env.range_up ≡ true
      → env.hashes_up ≡ true
      → ((j : ℕ) → env.segment_up j ≡ true)
      → All IsReadable b.packets
      → queue session b ≢ []
      → (e : Option FlushError) × (after : Buffer) × (flush blake3 u env session b
          ≡ some (e, after))
        × IsDrained blake3 env session (suc m) b after
  flush_progress m v size small range_up hashes_up all readable busy =
      let (first, last, ids, read, range) = pending_range-IsRange session (suc m) b v in
      let answer : pending_range env.range_up session u.batch_size b ≡ ok (first, last, ids) =
        ap₂ (λ t n. pending_range t session n b) range_up size ∙ read in
      let ne = range_size m first last ids range busy in
      let bounds = range_bounds m first last ids v range ne in
      let (hashes, got) = packet_hashes-ok ids b readable in
      let fetched : packet_hashes env.hashes_up ids b ≡ ok hashes =
        ap (λ t. packet_hashes t ids b) hashes_up ∙ got in
      let count : length hashes ≤ 2 ^ 64 = omega (
        arith,
        range.bounded,
        ap length range.ids,
        length-map (λ p. p.id) range.rows,
        length-packet_hashes true ids b hashes got,
      ) in
      let root =
        local_segment_root-rfc6962_root blake3 (length hashes) 64 (map or_empty hashes)
          (omega (arith, length-map or_empty hashes))
          (omega (arith, length-map or_empty hashes, count)) in
      let (grown, written, next) =
        write_segment-up env.segment_up env.now session first last (length ids)
          (rfc6962_root blake3 64 (map or_empty hashes)) ids b all bounds.0 bounds.1 in
      let (e, done) =
        flush_done first last ids hashes (rfc6962_root blake3 64 (map or_empty hashes)) grown answer
          ne fetched root written in
      let (e', after, done', settled) =
        flush-IsDrained blake3 env session u (suc m) b v size small in
      elim settled [
        | inr drained ↦ (e', after, done', drained)
        | inl same ↦
            let both : Option.some (e, grown) ≡ some (e', after) = sym done ∙ done' in
            let one : grown ≡ after = ap (λ x. x.1) (same_answer (e, grown) (e', after) both) in
            let grew : b.next_segment ≡ suc b.next_segment =
              sym (ap (λ (x : Buffer). x.next_segment) (one ∙ same)) ∙ next in
            absurd (omega (arith, grew))
      ]
