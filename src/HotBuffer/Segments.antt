-- ===== src/HotBuffer/Segments.antt =====
-- internal/hotbuffer/buffer.go and hashes.go: the reads and the transaction of the uploader.
use axm_sfn.Common.{
  ℕ, suc, ◌+◌, ◌%◌, ◌^◌, Bool, true, false, not, ◌&&◌, ◌||◌, List, [], ◌∷◌, map, Option, none, some,
  take, select, last_or, ◌==◌, leb, if◌then◌else◌,
}
use axm_sfn.Common.Int.{ℤ, pos, negsuc}
use axm_sfn.Common.Text.{Bytes, bytes_eq}
use axm_sfn.Encoding.{hex_decode}
use axm_sfn.HotBuffer.Tables.{
  UploadState, pending, uploaded, Packet, Buffer, unavailable, out_of_range, bad_hex, Result, ok,
  err,
}
use axm_sfn.HotBuffer.Writes.{int64_limit}

abbrev pub is_pending : UploadState → Bool
is_pending pending = true
is_pending _ = false

-- WHERE session_id=? AND upload_state='pending'
abbrev pub is_waiting : Bytes → Packet → Bool
is_waiting session p = bytes_eq p.session_id session && is_pending p.upload_state

-- ORDER BY seq ASC
unfoldable pub insert_by_seq : Packet → List Packet → List Packet
insert_by_seq p [] = p ∷ []
insert_by_seq p (q ∷ qs) = if leb p.seq q.seq then p ∷ q ∷ qs else q ∷ insert_by_seq p qs

unfoldable pub order_by_seq : List Packet → List Packet
unfolding insert_by_seq
order_by_seq [] = []
order_by_seq (p ∷ ps) = insert_by_seq p (order_by_seq ps)

-- LIMIT ?, where a negative number is no limit.
abbrev pub limit : ℤ → List Packet → List Packet
limit (pos n) ps = take n ps
limit (negsuc n) ps = ps

-- How many of the numbers go on from the one before by one, in 64 bits.
unfoldable pub run_length : ℕ → List ℕ → ℕ
run_length prev [] = 0
run_length prev (s ∷ ss) =
    let rest = run_length s ss in if s == (prev + 1) % 2 ^ 64 then suc rest else 0

unfoldable pub contiguous_range : List Packet → ℕ × ℕ × List ℕ
unfolding run_length
contiguous_range [] = (0, 0, [])
contiguous_range (p ∷ ps) =
    let n = run_length p.seq (map (λ q. q.seq) ps) in
    (p.seq, last_or p.seq (take n (map (λ q. q.seq) ps)), take (suc n) (map (λ q. q.id) (p ∷ ps)))

-- PendingRange
unfoldable pub pending_range : Bool → Bytes → ℤ → Buffer → Result (ℕ × ℕ × List ℕ)
unfolding contiguous_range order_by_seq
pending_range up session max_batch b =
    if not up
    then err unavailable
    else ok
        (contiguous_range (limit max_batch (order_by_seq (select (is_waiting session) b.packets))))

-- UPDATE packets SET upload_state='uploaded', segment_id=? WHERE id=?
unfoldable pub mark_row : ℕ → ℕ → List Packet → List Packet
mark_row seg i [] = []
mark_row seg i (p ∷ ps) =
    (if p.id == i then record p { upload_state = uploaded; segment_id = some seg } else p)
    ∷ mark_row seg i ps

-- The loop over the rows, one statement each; `none` is the early return with an error.
unfoldable pub mark_rows : (ℕ → Bool) → ℕ → ℕ → List ℕ → List Packet → Option (List Packet)
unfolding mark_row
mark_rows up k seg [] ps = some ps
mark_rows up k seg (i ∷ is) ps =
    let rest = mark_rows up (suc k) seg is (mark_row seg i ps) in if up k then rest else none

abbrev pub add_segment : ℕ → Bytes → ℕ → ℕ → ℕ → Bytes → List Packet → Buffer → Buffer
add_segment now session seq_start seq_end count root packets b = record b {
  packets = packets;
  segments =
      record {
        id = b.next_segment;
        session_id = session;
        seq_start = seq_start;
        seq_end = seq_end;
        packet_count = count;
        merkle_root = root;
        created_at = now;
      }
      ∷ b.segments;
  next_segment = suc b.next_segment;
}

-- What the transaction has done when its loop ended.
abbrev pub with_segment :
    ℕ → Bytes → ℕ → ℕ → ℕ → Bytes → Buffer → Option (List Packet) → Option Buffer
with_segment now session seq_start seq_end count root b none = none
with_segment now session seq_start seq_end count root b (some ps) =
    some (add_segment now session seq_start seq_end count root ps b)

-- tx.Commit; where it fails, and where the loop returned early, the transaction is rolled back.
abbrev pub commit : Bool → Option Buffer → Buffer → Result (Unit {0}) × Buffer
commit up none b = (err unavailable, b)
commit up (some done) b = if up then (ok tt, done) else (err unavailable, b)

-- WriteSegment. Its statements are numbered: begin is 0, insert 1, commit 2, and the updates follow.
unfoldable pub write_segment :
    (ℕ → Bool) → ℕ → Bytes → ℕ → ℕ → ℕ → Bytes → List ℕ → Buffer → Result (Unit {0}) × Buffer
write_segment up now session seq_start seq_end count root row_ids b =
    if not (up 0)
    then (err unavailable, b)
    else if leb int64_limit seq_start || leb int64_limit seq_end
    then (err out_of_range, b)
    else if not (up 1)
    then (err unavailable, b)
    else commit (up 2)
        (with_segment now session seq_start seq_end count root b
          (mark_rows up 3 b.next_segment row_ids b.packets))
        b

unfoldable pub contains : ℕ → List ℕ → Bool
contains i [] = false
contains i (j ∷ js) = j == i || contains i js

abbrev pub add_hash : ℕ → Option Bytes → Result (List (ℕ × Bytes)) → Result (List (ℕ × Bytes))
add_hash i none hashes = err bad_hex
add_hash i (some h) (ok hashes) = ok ((i, h) ∷ hashes)
add_hash i (some h) (err e) = err e

abbrev pub scan_hash : ℕ → Option Bytes → Result (List (ℕ × Bytes)) → Result (List (ℕ × Bytes))
scan_hash i none hashes = hashes
scan_hash i (some text) hashes = add_hash i (hex_decode text) hashes

-- SELECT id, packet_blake3 FROM packets WHERE id IN (...), with the decoding of each text.
unfoldable pub hash_by_id : List ℕ → List Packet → Result (List (ℕ × Bytes))
unfolding contains
hash_by_id ids [] = ok []
hash_by_id ids (p ∷ ps) =
    let rest = hash_by_id ids ps in
    if contains p.id ids then scan_hash p.id p.packet_blake3 rest else rest

abbrev pub find_hash : List (ℕ × Bytes) → ℕ → Option Bytes
find_hash [] i = none
find_hash ((j, h) ∷ rest) i = if j == i then some h else find_hash rest i

abbrev pub hashes_for : List ℕ → Result (List (ℕ × Bytes)) → Result (List (Option Bytes))
hashes_for ids (ok hashes) = ok (map (find_hash hashes) ids)
hashes_for ids (err e) = err e

-- PacketHashes
unfoldable pub packet_hashes : Bool → List ℕ → Buffer → Result (List (Option Bytes))
unfolding hash_by_id
packet_hashes up [] b = ok []
packet_hashes up (i ∷ is) b =
    if not up then err unavailable else hashes_for (i ∷ is) (hash_by_id (i ∷ is) b.packets)
