-- ===== src/Examples/Evidence.antt =====
-- A daemon that was launched with a TPM and takes a quote, at an input.
use axm_sfn.Common.{◌≡◌, refl, List, [], ◌∷◌, none, some, map}
use axm_sfn.Common.Int.{ℤ}
use axm_sfn.Common.Text.{Bytes, codes, bytes_eq}
use axm_sfn.Config.{default_config}
use axm_sfn.HotBuffer.Tables.{new_buffer}
use axm_sfn.HotBuffer.Writes.{write_packet, has_packet, insert_packet, write_quote, set_tpm_sig}
use axm_sfn.Moonraker.State.{printing, is_active}
use axm_sfn.Policy.{evaluate}
use axm_sfn.Encoding.{hex_encode}
use axm_sfn.Custody.Delta.{object_of, apply_delta, apply_object, detect_lifecycle_edge}
use axm_sfn.Custody.State.{new_packetizer, start_new_session}
use axm_sfn.Custody.Tick.{
  on_tick, ensure_session, count_silence, judge_tick, seal_tick, maybe_quote, write_tick,
  build_packet, backfill, store_quote, should_quote, quoted,
}
use axm_sfn.Custody.Run.{Event, delta, tick, run, handle}
use axm_sfn.Daemon.Boot.{launch, custody_config}
use axm_sfn.Daemon.Attesting.{Attests, boot-run-Attests}
use axm_sfn.Examples.Values.{whole_degrees, front_hashes}
use axm_sfn.Examples.Sessions.{decode, seed, env_at}
use axm_sfn.Examples.Devices.{toy_tpm, keyed_tpm}
use axm_sfn.Examples.Boots.{no_files, boot_env, key_worker, daemon_launched, with_keys, boots}

-- A print begins, and the TPM answers in the tick after it.
abbrev quoting_events : List (Event Bytes ℤ)
quoting_events =
    delta seed ((codes "print_stats", printing) ∷ [])
    ∷ tick (record (env_at 1) {
      tpm_quote = λ nonce. some (record { nonce = nonce; attest_blob = 5 ∷ []; sig = 6 ∷ [] });
    })
    ∷ []

boot-run-Attests_example :
    let (p, b) = run front_hashes decode quoting_events daemon_launched.packetizer with_keys in
    Attests (some key_worker) p with_keys b
unfolding launch
boot-run-Attests_example =
    boot-run-Attests front_hashes decode toy_tpm no_files boot_env default_config none keyed_tpm _
      daemon_launched with_keys quoting_events boots

-- One quote was stored.
quote_handles :
    map
      (λ q. q.row.ak_handle)
      (run front_hashes decode quoting_events daemon_launched.packetizer with_keys).1.quotes
    ≡ 0x81000002 ∷ []
unfolding run handle new_buffer new_packetizer on_tick is_active bytes_eq apply_delta apply_object
    object_of detect_lifecycle_edge start_new_session ensure_session count_silence judge_tick
    evaluate seal_tick maybe_quote write_tick write_packet has_packet insert_packet build_packet
    hex_encode backfill launch default_config custody_config store_quote should_quote quoted
    write_quote set_tpm_sig
quote_handles = refl
