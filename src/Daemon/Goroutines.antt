-- ===== src/Daemon/Goroutines.antt =====
-- cmd/axm-edge/main.go, runDaemon: the packetizer's and the uploader's goroutine over the tables, by the
-- order in which the database carries their statements out. A statement of WriteSegment's transaction is
-- none of them: the transaction is one.
pub mod Classes
pub mod Shapes
pub mod Alone
pub mod Gapless
pub mod Merging
pub mod Atomic
use axm_sfn.Common.{Bool, List, [], ◌∷◌, map, Option, some}
use axm_sfn.Common.Text.{Bytes}
use axm_sfn.Floats.{Float64}
use axm_sfn.Concurrency.{Thread, first_of, rest_of, interleave}
use axm_sfn.HotBuffer.Tables.{Buffer}
use axm_sfn.Custody.State.{Packetizer, Hashes}
use axm_sfn.Custody.Delta.{Unmarshal}
use axm_sfn.Custody.Run.{Event}
use axm_sfn.Custody.Threads.{event_thread}
use axm_sfn.Uploader.Flush.{Uploader, FlushEnv}
use axm_sfn.Uploader.Flush.Threads.{Answer, next_flush}
use axm_sfn.Daemon.{upload_session}

module _ {Raw F : Type 0} ⦃fl : Float64 F⦄ (h : Hashes) (decode : Unmarshal Raw F) (u : Uploader)
    (node_label : Bytes) where
  -- The threads of the packetizer's loop and of the uploader's, one for each event.
  abbrev pub custody_threads :
      List (Event Raw F) → List (Packetizer F → Thread Buffer (Packetizer F))
  custody_threads = map (event_thread h decode)

  abbrev pub upload_threads : List FlushEnv → List (Answer → Thread Buffer Answer)
  upload_threads = map (λ env. next_flush h.blake3 u env (upload_session node_label))

  -- Both loops, over the events that each selects, by a schedule of their statements (`true` is a turn of
  -- the packetizer); the uploader begins with the answer of the flush before.
  unfoldable pub run_goroutines :
      List Bool
      → List (Event Raw F)
      → List FlushEnv
      → Packetizer F
      → Answer
      → Buffer
      → (Packetizer F × Answer) × Buffer
  run_goroutines bs es envs p r b =
      interleave bs (first_of (custody_threads es) p) (rest_of (custody_threads es))
        (first_of (upload_threads envs) r) (rest_of (upload_threads envs)) b
