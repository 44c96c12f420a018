-- ===== src/Examples/Flushes.antt =====
-- A flush of the uploader at inputs: the segment is written and the monitor does not answer.
use axm_sfn.Common.{
  ◌∷◌, [], ◌≢◌, ◌≤◌, length, inr, subst, ap, All, ◌≡◌, ◌⊎◌, refl, true, Option, some, none, arith,
}
use axm_sfn.Common.Int.{pos}
use axm_sfn.Common.Text.{codes, bytes_eq}
use axm_sfn.Encoding.Hex.{hex_decode-hex_encode}
use axm_sfn.HotBuffer.Tables.{Buffer, new_buffer}
use axm_sfn.HotBuffer.Writes.{insert_packet, hex_or_nil}
use axm_sfn.HotBuffer.Segments.{order_by_seq}
use axm_sfn.HotBuffer.Invariant.{IsValid}
use axm_sfn.HotBuffer.Pending.{queue}
use axm_sfn.HotBuffer.Statements.{execute_all-IsValid, write_packet-IsValid, new_buffer-IsValid}
use axm_sfn.Uploader.Flush.{Uploader, FlushEnv, FlushError, flush, run_uploader}
use axm_sfn.Uploader.Flush.Emptied.{run_uploader-empty}
use axm_sfn.Uploader.Flush.Drained.{IsDrained, flush-IsDrained}
use axm_sfn.Uploader.Flush.Progress.{IsReadable, flush_progress}
use axm_sfn.Examples.Values.{front_hash}
use axm_sfn.Examples.Tables.{session, statements, tables, sealed, sealed_written}

abbrev pub uploader : Uploader
uploader = record { endpoint = codes "http://monitor"; batch_size = pos 60 }

abbrev pub env : FlushEnv
env = record {
  now = 9;
  range_up = true;
  hashes_up = true;
  segment_up = λ k. true;
  network = record {
    marshal = λ seg. some seg.merkle_root;
    new_request = λ address payload. true;
    post = λ address payload. none;
  };
}

flush-IsDrained_example :
    (e : Option FlushError) × (after : Buffer) × (flush front_hash uploader env session tables
      ≡ some (e, after))
    × ((after ≡ tables) ⊎ IsDrained front_hash env session 60 tables after)
flush-IsDrained_example =
    flush-IsDrained front_hash env session uploader 60 tables (execute_all-IsValid statements) refl
      (omega arith)

-- One packet with a hash waits.
abbrev one_packet : Buffer
one_packet = insert_packet sealed new_buffer

one_packet-IsValid : IsValid one_packet
one_packet-IsValid =
    subst IsValid (ap (λ r. r.1) sealed_written)
      (write_packet-IsValid true sealed new_buffer new_buffer-IsValid)

one_packet-IsReadable : All IsReadable one_packet.packets
unfolding insert_packet new_buffer hex_or_nil
one_packet-IsReadable =
    (inr (_, _, refl, hex_decode-hex_encode (0xde ∷ 0xad ∷ []) (omega arith)), tt)

one_waits : queue session one_packet ≢ []
unfolding insert_packet new_buffer order_by_seq bytes_eq
one_waits e = ground arith

flush_progress_example :
    (e : Option FlushError) × (after : Buffer) × (flush front_hash uploader env session one_packet
      ≡ some (e, after))
    × IsDrained front_hash env session 60 one_packet after
flush_progress_example =
    flush_progress front_hash uploader env session one_packet 59 one_packet-IsValid refl
      (omega arith) refl refl (λ j. refl) one_packet-IsReadable one_waits

one_waits_alone : length (queue session one_packet) ≤ 1
unfolding insert_packet new_buffer order_by_seq bytes_eq
one_waits_alone = omega arith

run_uploader-empty_example :
    (after : Buffer) × (run_uploader front_hash uploader session (env ∷ []) (some one_packet)
      ≡ some after)
    × (queue session after ≡ [])
run_uploader-empty_example =
    run_uploader-empty front_hash uploader session 59 refl (omega arith) (env ∷ []) one_packet
      ((refl, refl, λ j. refl), tt) (one_packet-IsValid, one_packet-IsReadable) one_waits_alone
