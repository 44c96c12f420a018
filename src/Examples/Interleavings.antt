-- ===== src/Examples/Interleavings.antt =====
-- The packetizer's and the uploader's statements by a schedule, at inputs.
use axm_sfn.Common.{◌≡◌, refl, Bool, true, false, List, [], ◌∷◌, Option, some, none, arith}
use axm_sfn.Common.Int.{ℤ}
use axm_sfn.Common.Text.{codes}
use axm_sfn.HotBuffer.Tables.{new_buffer}
use axm_sfn.HotBuffer.Invariant.{IsValid}
use axm_sfn.HotBuffer.Statements.{new_buffer-IsValid}
use axm_sfn.HotBuffer.Commuting.Views.{custody_view}
use axm_sfn.Custody.Chain.{IsLedger}
use axm_sfn.Custody.Run.{run}
use axm_sfn.Uploader.Flush.{FlushEnv, FlushError}
use axm_sfn.Daemon.{DaemonEvent, run_daemon}
use axm_sfn.Daemon.Goroutines.{run_goroutines}
use axm_sfn.Daemon.Goroutines.Alone.{run_goroutines-run}
use axm_sfn.Daemon.Goroutines.Gapless.{run_goroutines-IsLedger}
use axm_sfn.Daemon.Goroutines.Atomic.{run_goroutines-run_daemon}
use axm_sfn.Daemon.Goroutines.Merging.{custody_of, uploads_of}
use axm_sfn.Examples.Values.{whole_degrees, front_hashes}
use axm_sfn.Examples.Sessions.{decode, events, idle, events_fresh, idle-IsLedger}
use axm_sfn.Examples.Flushes.{uploader, env}

-- The uploader's queries stand between the statements of the ticks.
abbrev turns : List Bool
turns = true ∷ false ∷ true ∷ true ∷ false ∷ false ∷ true ∷ true ∷ false ∷ []

abbrev flushes : List FlushEnv
flushes = env ∷ env ∷ []

run_goroutines-run_example :
    let ((p, answer), b) =
      run_goroutines front_hashes decode uploader
        (codes "edge")
        turns
        events
        flushes
        idle
        (some none)
        new_buffer in
    let (alone, tables) = run front_hashes decode events idle new_buffer in
    IsValid b × (p ≡ alone) × (custody_view b ≡ custody_view tables)
run_goroutines-run_example =
    run_goroutines-run front_hashes decode uploader (codes "edge") turns events flushes idle
      (some none) new_buffer new_buffer-IsValid

run_goroutines-IsLedger_example :
    let ((p, answer), b) =
      run_goroutines front_hashes decode uploader
        (codes "edge")
        turns
        events
        flushes
        idle
        (some none)
        new_buffer in
    IsLedger front_hashes p.session_id p.seq p.prev_blake3 b
run_goroutines-IsLedger_example =
    run_goroutines-IsLedger front_hashes decode uploader (codes "edge") turns events flushes idle
      (some none) new_buffer events_fresh idle-IsLedger

run_goroutines-run_daemon_example :
    let ((p, answer), b) =
      run_goroutines front_hashes decode uploader
        (codes "edge")
        turns
        events
        flushes
        idle
        (some none)
        new_buffer in
    (xs : List (DaemonEvent _ ℤ)) × (custody_of xs ≡ events)
    × (uploads_of xs ≡ flushes)
    × (run_daemon front_hashes decode uploader (codes "edge") xs (some (idle, new_buffer))
        ≡ some (p, b))
    × (last : Option FlushError) × (answer ≡ some last)
run_goroutines-run_daemon_example =
    run_goroutines-run_daemon front_hashes decode uploader (codes "edge") 60 refl (omega arith)
      turns events flushes idle none new_buffer new_buffer-IsValid
