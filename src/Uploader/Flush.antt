-- ===== src/Uploader/Flush.antt =====
-- internal/uploader/uploader.go: flush, ship and the loop of Run. The network and encoding/json are
-- parameters; whether the database carries a statement out is told for each one.
pub mod Outcomes
pub mod Threads
pub mod Drained
pub mod Progress
pub mod Emptied
use axm_sfn.Common.{
  ℕ, suc, ◌+◌, Bool, true, false, not, List, [], ◌∷◌, ◌++◌, map, Option, none, some, length, ◌==◌,
  leb, if◌then◌else◌,
}
use axm_sfn.Common.Int.{ℤ}
use axm_sfn.Common.Text.{Bytes, codes, bytes_eq}
use axm_sfn.Encoding.{hex_encode}
use axm_sfn.HotBuffer.Tables.{Buffer, Error, Result, ok, err}
use axm_sfn.HotBuffer.Segments.{pending_range, packet_hashes, write_segment}
use axm_sfn.Tpm.{or_empty}
use axm_sfn.Uploader.Root.{local_segment_root}

-- `Uploader`, without the handles that it calls through.
pub record Uploader : Type 0 where
  pub endpoint : Bytes
  pub batch_size : ℤ

-- `segmentPayload`
pub record SegmentPayload : Type 0 where
  pub session_id : Bytes
  pub seq_start : ℕ
  pub seq_end : ℕ
  pub packet_count : ℕ
  pub merkle_root : Bytes

-- encoding/json and net/http: the payload's text, whether a request can be made for an address, and
-- the status of the answer, if there is one.
pub record Network : Type 0 where
  pub marshal : SegmentPayload → Option Bytes
  pub new_request : Bytes → Bytes → Bool
  pub post : Bytes → Bytes → Option ℕ

-- What one flush meets.
pub record FlushEnv : Type 0 where
  pub now : ℕ
  pub range_up : Bool
  pub hashes_up : Bool
  pub segment_up : ℕ → Bool
  pub network : Network

pub data FlushError : Type 0 where
  pending_range_failed : Error → FlushError
  fetch_hashes_failed : Error → FlushError
  write_segment_failed : Error → FlushError
  marshal_failed request_failed post_failed : FlushError
  upstream_returned : ℕ → FlushError

status_error : Option ℕ → Option FlushError
status_error none = some post_failed
status_error (some status) = if leb 300 status then some (upstream_returned status) else none

send_payload : Bytes → Network → Option Bytes → Option FlushError
unfolding status_error
send_payload endpoint network none = some marshal_failed
send_payload endpoint network (some payload) =
    let address = endpoint ++ codes "/segments" in
    if bytes_eq endpoint []
    then none
    else if not (network.new_request address payload)
    then some request_failed
    else status_error (network.post address payload)

-- `ship`; `none` is a nil error.
unfoldable pub ship : Bytes → Network → SegmentPayload → Option FlushError
unfolding send_payload
ship endpoint network seg = send_payload endpoint network (network.marshal seg)

module _ (blake3 : Bytes → Bytes) (u : Uploader) (env : FlushEnv) (session : Bytes) where
  -- After WriteSegment.
  flush_segment :
      ℕ → ℕ → ℕ → Bytes → Result (Unit {0}) × Buffer → Option (Option FlushError × Buffer)
  flush_segment first last count root (err e, b) = some (some (write_segment_failed e), b)
  flush_segment first last count root (ok done, b) = some (
    ship u.endpoint env.network (record {
      session_id = session;
      seq_start = first;
      seq_end = last;
      packet_count = count;
      merkle_root = hex_encode root;
    }),
    b,
  )

  flush_root : ℕ → ℕ → List ℕ → Buffer → Option Bytes → Option (Option FlushError × Buffer)
  unfolding flush_segment
  flush_root first last row_ids b none = none
  flush_root first last row_ids b (some root) =
      flush_segment first last (length row_ids) root
        (write_segment env.segment_up env.now session first last (length row_ids) root row_ids b)

  -- A nil hash is written as no bytes. The reduction has fuel for each hash.
  flush_hashes :
      ℕ → ℕ → List ℕ → Buffer → Result (List (Option Bytes)) → Option (Option FlushError × Buffer)
  unfolding flush_root
  flush_hashes first last row_ids b (err e) = some (some (fetch_hashes_failed e), b)
  flush_hashes first last row_ids b (ok hashes) =
      flush_root first last row_ids b
        (local_segment_root blake3 (length hashes) (map or_empty hashes))

  flush_range : Buffer → Result (ℕ × ℕ × List ℕ) → Option (Option FlushError × Buffer)
  unfolding flush_hashes
  flush_range b (err e) = some (some (pending_range_failed e), b)
  flush_range b (ok (first, last, row_ids)) =
      if length row_ids == 0
      then some (none, b)
      else flush_hashes first last row_ids b (packet_hashes env.hashes_up row_ids b)

  -- `flush`: its error and the tables after it; `none` means that it did not return.
  unfoldable pub flush : Buffer → Option (Option FlushError × Buffer)
  unfolding flush_range
  flush b = flush_range b (pending_range env.range_up session u.batch_size b)

-- The tables after a flush, whose error Run only logs.
abbrev pub after_flush : Option (Option FlushError × Buffer) → Option Buffer
after_flush none = none
after_flush (some (e, b)) = some b

module _ (blake3 : Bytes → Bytes) (u : Uploader) (session : Bytes) where
  -- `Run`, over the ticks that it selects; `none` means that a flush did not return.
  unfoldable pub run_uploader : List FlushEnv → Option Buffer → Option Buffer
  run_uploader [] b = b
  run_uploader (env ∷ envs) none = none
  run_uploader (env ∷ envs) (some b) =
      run_uploader envs (after_flush (flush blake3 u env session b))
