-- ===== src/Examples/Systems.antt =====
-- The daemon with its client, packetizer and uploader, at inputs.
use axm_sfn.Common.{◌≡◌, List, [], ◌∷◌, none, some, true, false, All}
use axm_sfn.Common.Int.{ℤ, pos}
use axm_sfn.Common.Text.{Bytes, codes}
use axm_sfn.Config.{default_config}
use axm_sfn.HotBuffer.Tables.{new_buffer}
use axm_sfn.Moonraker.Client.{Response, ClientJson, frame}
use axm_sfn.Moonraker.Handshake.{ping, CallEnv, ConnectEnv}
use axm_sfn.Daemon.Unsent.{Waits}
use axm_sfn.Daemon.System.{
  System, SystemEvent, connects, takes, ticks, uploads, run_system, first_system,
}
use axm_sfn.Daemon.Mute.{run_system_mute}
use axm_sfn.Examples.Values.{whole_degrees, front_hashes}
use axm_sfn.Examples.Sessions.{decode, seed, env_at}
use axm_sfn.Examples.Flushes.{uploader, env}
use axm_sfn.Examples.Devices.{toy_tpm, keyed_tpm}
use axm_sfn.Examples.Boots.{no_files, boot_env, daemon_launched, with_keys, boots}

abbrev json : ClientJson Bytes ℤ
json = record {
  array = λ raw. some (raw ∷ raw ∷ []);
  status = λ raw. some ((codes "print_stats", raw) ∷ []);
  number = λ raw. pos 1;
  klippy_state = λ raw. some (codes "ready");
  snapshot = λ raw. some ((codes "print_stats", raw) ∷ [], pos 1);
}

-- Klipper says that it prints.
abbrev prints : Response Bytes
prints = record {
  id = pos 0;
  method = codes "notify_status_update";
  params = codes "printing";
  result = [];
  error = none;
}

abbrev call_env : CallEnv
call_env = record {
  marshals = true;
  writes = true;
  meanwhile = ping true ∷ [];
  takes_reply = true;
  context_expires = true;
}

abbrev connection : ConnectEnv Bytes
connection = record {
  dials = true;
  identify_env = call_env;
  polls = record { call_env = call_env; cancelled = false } ∷ [];
  subscribe_env = call_env;
  now = 1;
  incoming = frame 2 prints ∷ [];
}

abbrev system_events : List (SystemEvent Bytes ℤ)
system_events =
    connects connection
    ∷ takes seed
    ∷ ticks (env_at 1)
    ∷ uploads env
    ∷ connects connection
    ∷ ticks (env_at 2)
    ∷ []

none_left : All Waits with_keys.packets
unfolding new_buffer
none_left = tt

run_system_mute_example :
    (after : System Bytes ℤ) × (run_system json front_hashes decode uploader
        (codes "edge")
        system_events
        (some (first_system daemon_launched with_keys))
      ≡ some after)
    × (after.buffer ≡ with_keys)
    × (after.packetizer ≡ daemon_launched.packetizer)
run_system_mute_example =
    run_system_mute json front_hashes decode uploader (codes "edge") toy_tpm no_files boot_env
      default_config none keyed_tpm _ daemon_launched with_keys system_events boots none_left
