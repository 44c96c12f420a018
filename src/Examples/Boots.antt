-- ===== src/Examples/Boots.antt =====
-- The command line, the launch of the daemon and its goroutines, at inputs.
use axm_sfn.Common.{
  ◌≡◌, refl, List, [], ◌∷◌, ◌++◌, Option, none, some, inl, inr, true, false, map, last_or, ◌||◌, ap,
}
use axm_sfn.Common.Int.{ℤ, pos}
use axm_sfn.Common.Text.{codes, bytes_eq}
use axm_sfn.Config.{Config, Files, zero_config, default_config, load}
use axm_sfn.Command.{daemon, run_command, config_or_default}
use axm_sfn.Command.Flags.{action_of, read_word}
use axm_sfn.Command.Usage.{Setting, joined, spaced, path_of, render_all, Stops}
use axm_sfn.Command.Meaning.{Loads, Means, run_command-Means}
use axm_sfn.HotBuffer.Tables.{Buffer, new_buffer}
use axm_sfn.HotBuffer.Open.{open_buffer}
use axm_sfn.HotBuffer.Writes.{
  write_attestation_key, has_key, write_packet, has_packet, insert_packet,
}
use axm_sfn.Moonraker.Objects.{client_config, subscribe_params, moon_objects, is_member}
use axm_sfn.Moonraker.Subscribed.{is_read, is_distinct, subscribe_params-is_read}
use axm_sfn.Custody.Delta.{object_of, apply_delta, apply_object, detect_lifecycle_edge}
use axm_sfn.Custody.State.{new_packetizer, start_new_session}
use axm_sfn.Custody.Tick.{
  on_tick, ensure_session, count_silence, judge_tick, seal_tick, maybe_quote, write_tick,
  build_packet, backfill, store_quote, should_quote,
}
use axm_sfn.Encoding.{hex_encode}
use axm_sfn.Moonraker.State.{is_active}
use axm_sfn.Policy.{evaluate}
use axm_sfn.Custody.Run.{run, handle}
use axm_sfn.Custody.Chain.{IsLedger}
use axm_sfn.Custody.GapFree.{AllFresh}
use axm_sfn.Daemon.{start}
use axm_sfn.Daemon.Boot.{
  custody_config, start_env, tpm_config, BootEnv, Launched, BootResult, launched, launch, boot,
}
use axm_sfn.Daemon.Ready.{left_rows, boot-run-IsLedger}
use axm_sfn.Daemon.Process.{ended, main_process, Unattested, main_process_unprovisioned}
use axm_sfn.Daemon.Serve.{
  moonraker, packetizer, begins, shutdown, Turn, panicked, serve, serve_unset_period,
}
use axm_sfn.Tpm.Worker.{Worker, open_worker, key_evidence}
use axm_sfn.Examples.Values.{whole_degrees, front_hashes}
use axm_sfn.Examples.Sessions.{decode, events}
use axm_sfn.Examples.Devices.{ToyTpm, toy_tpm, fresh_tpm, keyed_tpm, stored, toy_tpm-IsTpm}

-- Every file is empty, and an empty text leaves a configuration as it is.
abbrev empty_files : Files
empty_files = record { read_file = λ path. some []; unmarshal = λ text cfg. some cfg }

abbrev pub no_files : Files
no_files = record { read_file = λ path. none; unmarshal = λ text cfg. some cfg }

abbrev settings : List Setting
settings = spaced true (codes "a.yaml") ∷ joined false (codes "b.yaml") ∷ []

no_flags : Stops (codes "x" ∷ [])
unfolding action_of read_word
no_flags = refl

run_command-Means_example :
    ((cfg : Config) × Loads no_files
        (last_or (codes "/etc/axm-edge/config.yaml") (map path_of settings))
        cfg
      × Means
          (codes "run")
          cfg
          (run_command no_files (codes "run" ∷ (render_all settings ++ codes "x" ∷ []))))
    × ((cfg : Config) × Loads no_files (codes "/etc/axm-edge/config.yaml") cfg
        × (run_command no_files [] ≡ daemon cfg))
run_command-Means_example =
    run_command-Means no_files (codes "run") settings (codes "x" ∷ []) no_flags

subscribe_params-is_read_example :
    let asked =
      subscribe_params (
        client_config [] [] [] [] (pos 5) (some (moon_objects (codes "fan" ∷ codes "mcu" ∷ [])))) in
    (is_member (codes "fan") asked.objects ≡ (
      is_read (object_of (codes "fan"))
      || is_member (codes "fan") (codes "fan" ∷ codes "mcu" ∷ [])))
    × (is_distinct asked.objects ≡ true)
subscribe_params-is_read_example =
    subscribe_params-is_read [] [] [] [] (pos 5) (codes "fan" ∷ codes "mcu" ∷ []) (codes "fan")

abbrev pub boot_env : BootEnv
boot_env = record {
  now = 1;
  db_opens = true;
  db_migrates = true;
  sign_up = true;
  ak_up = true;
  ek_up = true;
}

abbrev pub booted : BootResult ℤ × Option Buffer × ToyTpm
booted = boot toy_tpm no_files boot_env default_config none keyed_tpm

abbrev pub key_worker : Worker
key_worker = record {
  cfg = record {
    device = codes "/dev/tpmrm0";
    pcrs = 10 ∷ 11 ∷ 12 ∷ 15 ∷ [];
    sign_key_handle = 0x81000001;
    ak_handle = 0x81000002;
  };
  sign_pub = 1 ∷ [];
  ak_pub = 2 ∷ [];
}

abbrev pub daemon_launched : Launched ℤ
daemon_launched = launch default_config (some key_worker)

abbrev pub with_keys : Buffer
with_keys = record new_buffer {
  keys =
      record {
        role = codes "ak_pub";
        alg = codes "tpm2:tpm2b-public";
        material = 2 ∷ [];
        created_at = 1;
      }
      ∷ record {
        role = codes "sign_pub";
        alg = codes "tpm2:tpm2b-public";
        material = 1 ∷ [];
        created_at = 1;
      }
      ∷ [];
}

pub boots : booted ≡ (launched daemon_launched, some with_keys, record keyed_tpm { files = 1 })
unfolding boot launch open_worker start write_attestation_key has_key bytes_eq open_buffer
    new_buffer default_config start_env tpm_config key_evidence
boots = refl

launched_fresh : AllFresh front_hashes decode events daemon_launched.packetizer with_keys
unfolding handle new_buffer new_packetizer on_tick is_active bytes_eq apply_delta apply_object
    object_of detect_lifecycle_edge start_new_session ensure_session count_silence judge_tick
    evaluate seal_tick maybe_quote write_tick write_packet has_packet insert_packet build_packet
    hex_encode backfill launch default_config custody_config store_quote should_quote
launched_fresh = (refl, (refl, (refl, tt)))

boot-run-IsLedger_example :
    let (p, b) = run front_hashes decode events daemon_launched.packetizer with_keys in
    (with_keys.packets ≡ left_rows none) × IsLedger front_hashes p.session_id p.seq p.prev_blake3 b
boot-run-IsLedger_example =
    boot-run-IsLedger front_hashes decode toy_tpm no_files boot_env default_config none keyed_tpm _
      daemon_launched with_keys events tt boots launched_fresh

abbrev turns : List Turn
turns = begins moonraker ∷ begins packetizer ∷ shutdown ∷ []

abbrev empty_launched : Launched ℤ
empty_launched = launch (config_or_default (load empty_files (codes "a.yaml"))) none

serve_unset_period_example : serve empty_launched turns ≡ panicked
serve_unset_period_example =
    serve_unset_period empty_files (codes "a.yaml") [] zero_config none empty_launched turns refl
      refl (λ before after e. ap (λ c. c.custody.period) (period_kept before after e)) refl
      (inr (inl refl))
  where
    period_kept :
        (before after : Config)
        → ◌≡◌ {A = Option Config} (some before) (some after)
        → after ≡ before
    period_kept before after e = cc

main_process_unprovisioned_example :
    let args = render_all settings ++ codes "x" ∷ [] in
    (after : ToyTpm) × (main_process ℤ toy_tpm no_files boot_env
        (codes "provision" ∷ args)
        none
        fresh_tpm
      ≡ ended 1 none after)
    × (stored after ≡ stored fresh_tpm)
    × Unattested ℤ toy_tpm no_files boot_env
        (main_process ℤ toy_tpm no_files boot_env (codes "run" ∷ args) none after)
main_process_unprovisioned_example =
    main_process_unprovisioned ℤ toy_tpm no_files boot_env stored toy_tpm-IsTpm settings
      (codes "x" ∷ []) none fresh_tpm no_flags refl
