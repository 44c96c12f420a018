-- ===== src/Uploader/Flush/Threads.antt =====
-- internal/uploader/uploader.go: flush one call of the buffer at a time, and that without interruption it
-- is `flush`.
use axm_sfn.Common.{
  ℕ, ◌≡◌, refl, List, map, Option, none, some, length, ◌==◌, Bool-cases, inl, inr, if◌then◌else◌,
}
use axm_sfn.Common.Text.{Bytes}
use axm_sfn.Encoding.{hex_encode}
use axm_sfn.Concurrency.{Thread, returns, calls, reads, run_thread}
use axm_sfn.HotBuffer.Tables.{Buffer, Result, ok, err}
use axm_sfn.HotBuffer.Segments.{pending_range, packet_hashes, write_segment}
use axm_sfn.Tpm.{or_empty}
use axm_sfn.Uploader.Root.{local_segment_root}
use axm_sfn.Uploader.Flush.{
  Uploader, FlushEnv, FlushError, ship, flush_segment, flush_root, flush_hashes, flush_range, flush,
}

-- The error that flush returns; `none` means that it does not return.
abbrev pub Answer : Type 0
Answer = Option (Option FlushError)

abbrev pub with_answer : Answer × Buffer → Option (Option FlushError × Buffer)
with_answer (none, b) = none
with_answer (some e, b) = some (e, b)

module _ (blake3 : Bytes → Bytes) (u : Uploader) (env : FlushEnv) (session : Bytes) where
  -- After WriteSegment.
  unfoldable pub shipped_thread : ℕ → ℕ → ℕ → Bytes → Result (Unit {0}) → Thread Buffer Answer
  shipped_thread first last count root (err e) =
      returns (some (some (FlushError.write_segment_failed e)))
  shipped_thread first last count root (ok done) = returns (
      some (
        ship u.endpoint env.network (record {
          session_id = session;
          seq_start = first;
          seq_end = last;
          packet_count = count;
          merkle_root = hex_encode root;
        })))

  unfoldable pub segment_thread : ℕ → ℕ → List ℕ → Option Bytes → Thread Buffer Answer
  unfolding shipped_thread
  segment_thread first last row_ids none = returns none
  segment_thread first last row_ids (some root) =
      calls (write_segment env.segment_up env.now session first last (length row_ids) root row_ids)
        (shipped_thread first last (length row_ids) root)

  unfoldable pub root_thread : ℕ → ℕ → List ℕ → Result (List (Option Bytes)) → Thread Buffer Answer
  unfolding segment_thread
  root_thread first last row_ids (err e) = returns (some (some (FlushError.fetch_hashes_failed e)))
  root_thread first last row_ids (ok hashes) =
      segment_thread first last row_ids
        (local_segment_root blake3 (length hashes) (map or_empty hashes))

  unfoldable pub range_thread : Result (ℕ × ℕ × List ℕ) → Thread Buffer Answer
  unfolding root_thread
  range_thread (err e) = returns (some (some (FlushError.pending_range_failed e)))
  range_thread (ok (first, last, row_ids)) =
      if length row_ids == 0
      then returns (some none)
      else reads (packet_hashes env.hashes_up row_ids) (root_thread first last row_ids)

  -- `flush`
  unfoldable pub flush_thread : Thread Buffer Answer
  unfolding range_thread
  flush_thread = reads (pending_range env.range_up session u.batch_size) range_thread

  run_thread-shipped_thread :
      (first last count : ℕ) (root : Bytes) (r : Result (Unit {0})) (b : Buffer)
      → with_answer (run_thread (shipped_thread first last count root r) b)
        ≡ flush_segment blake3 u env session first last count root (r, b)
  unfolding shipped_thread flush_segment run_thread
  run_thread-shipped_thread first last count root (err e) b = refl
  run_thread-shipped_thread first last count root (ok done) b = refl

  run_thread-segment_thread :
      (first last : ℕ) (row_ids : List ℕ) (root : Option Bytes) (b : Buffer)
      → with_answer (run_thread (segment_thread first last row_ids root) b)
        ≡ flush_root blake3 u env session first last row_ids b root
  unfolding segment_thread flush_root run_thread
  run_thread-segment_thread first last row_ids none b = refl
  run_thread-segment_thread first last row_ids (some root) b =
      run_thread-shipped_thread first last (length row_ids) root _ _

  run_thread-root_thread :
      (first last : ℕ) (row_ids : List ℕ) (r : Result (List (Option Bytes))) (b : Buffer)
      → with_answer (run_thread (root_thread first last row_ids r) b)
        ≡ flush_hashes blake3 u env session first last row_ids b r
  unfolding root_thread flush_hashes run_thread
  run_thread-root_thread first last row_ids (err e) b = refl
  run_thread-root_thread first last row_ids (ok hashes) b =
      run_thread-segment_thread first last row_ids _ b

  run_thread-range_thread :
      (r : Result (ℕ × ℕ × List ℕ)) (b : Buffer)
      → with_answer (run_thread (range_thread r) b) ≡ flush_range blake3 u env session b r
  unfolding range_thread flush_range run_thread
  run_thread-range_thread (err e) b = refl
  run_thread-range_thread (ok (first, last, row_ids)) b = elim (Bool-cases (length row_ids == 0)) [
    | inl y ↦ rw y refl
    | inr n ↦ rw n (run_thread-root_thread first last row_ids _ b)
  ]

  -- Without interruption the thread is the flush.
  pub run_thread-flush_thread :
      (b : Buffer) → with_answer (run_thread flush_thread b) ≡ flush blake3 u env session b
  unfolding flush_thread flush run_thread
  run_thread-flush_thread b =
      run_thread-range_thread (pending_range env.range_up session u.batch_size b) b

  -- The next flush of Run; behind one that does not return there is none.
  unfoldable pub next_flush : Answer → Thread Buffer Answer
  unfolding flush_thread
  next_flush none = returns none
  next_flush (some e) = flush_thread
