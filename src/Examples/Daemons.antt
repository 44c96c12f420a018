-- ===== src/Examples/Daemons.antt =====
-- The daemon's start, and its events, at inputs.
use axm_sfn.Common.{◌≡◌, refl, true, List, [], ◌∷◌, some, none, arith}
use axm_sfn.Common.Int.{ℤ}
use axm_sfn.Common.Text.{Bytes, codes, bytes_eq}
use axm_sfn.HotBuffer.Tables.{Buffer, new_buffer}
use axm_sfn.HotBuffer.Writes.{write_attestation_key, has_key}
use axm_sfn.Custody.State.{Packetizer, new_packetizer}
use axm_sfn.Daemon.{StartEnv, DaemonEvent, custody, upload, start, run_daemon}
use axm_sfn.Daemon.Stuck.{IsStuck}
use axm_sfn.Daemon.Idle.{run_daemon-IsStuck}
use axm_sfn.Custody.Run.{delta, tick}
use axm_sfn.Moonraker.State.{printing}
use axm_sfn.Examples.Values.{whole_degrees, front_hashes}
use axm_sfn.Examples.Sessions.{decode, seed, env_at, idle}
use axm_sfn.Examples.Flushes.{uploader, env}

-- Two deltas and ticks of a print, with flushes between them.
abbrev daemon_events : List (DaemonEvent Bytes ℤ)
daemon_events =
    custody (delta seed ((codes "print_stats", printing) ∷ []))
    ∷ custody (tick (env_at 1))
    ∷ upload env
    ∷ custody (tick (env_at 2))
    ∷ upload env
    ∷ []

idle-IsStuck : IsStuck idle new_buffer
unfolding new_packetizer new_buffer
idle-IsStuck = record { hex = tt; unsent = record { packets = tt; segments = refl } }

run_daemon-IsStuck_example :
    (p : Packetizer ℤ) × (b : Buffer) × (run_daemon front_hashes decode uploader
        (codes "edge")
        daemon_events
        (some (idle, new_buffer))
      ≡ some (p, b))
    × IsStuck p b
run_daemon-IsStuck_example =
    run_daemon-IsStuck front_hashes decode uploader (codes "edge") daemon_events idle new_buffer
      (omega arith) idle-IsStuck

abbrev launch_env : StartEnv
launch_env = record {
  now = 1;
  evidence = some (record { sign_pub = 1 ∷ []; ak_pub = 2 ∷ [] });
  ek_cert_path = codes "/etc/ek.der";
  ek_cert = some (3 ∷ []);
  sign_up = true;
  ak_up = true;
  ek_up = true;
}

abbrev started : Buffer
started = (start launch_env new_buffer).1

start_done : start launch_env new_buffer ≡ (none, started)
unfolding start write_attestation_key has_key new_buffer bytes_eq
start_done = refl
