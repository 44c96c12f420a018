-- ===== src/Examples/Sessions.antt =====
-- A run of the packetizer at inputs: a print begins, and the clock ticks twice.
use axm_sfn.Common.{◌<◌, ◌^◌, arith, ℕ, ◌≡◌, refl, true, false, inl, List, [], ◌∷◌, map, none, some}
use axm_sfn.Common.Int.{ℤ, pos}
use axm_sfn.Common.Text.{Bytes, codes, bytes_eq}
use axm_sfn.Moonraker.State.{printing, is_active}
use axm_sfn.Encoding.{hex_encode}
use axm_sfn.Policy.{evaluate}
use axm_sfn.HotBuffer.Tables.{new_buffer}
use axm_sfn.HotBuffer.Writes.{write_packet, has_packet, insert_packet}
use axm_sfn.HotBuffer.Statements.{new_buffer-IsValid}
use axm_sfn.Custody.State.{Config, Packetizer, Seed, TickEnv, new_packetizer, start_new_session}
use axm_sfn.Custody.Delta.{Unmarshal, apply_delta, apply_object, object_of, detect_lifecycle_edge}
use axm_sfn.Custody.Tick.{
  on_tick, ensure_session, count_silence, judge_tick, seal_tick, maybe_quote, write_tick,
  build_packet, backfill,
}
use axm_sfn.Custody.Run.{Event, delta, tick, run, handle}
use axm_sfn.Custody.Chain.{IsLedger}
use axm_sfn.Custody.GapFree.{AllFresh, run-IsLedger}
use axm_sfn.Custody.Ledger.{IsFresh}
use axm_sfn.Custody.Recorded.{IsRecorded, on_tick-IsRecorded}
use axm_sfn.Custody.Unquoted.{write_tick_unquoted}
use axm_sfn.Custody.Silence.{Counted, on_tick-Counted}
use axm_sfn.Custody.Written.{row}
use axm_sfn.Examples.Values.{whole_degrees, front_hashes}

-- A document is its state's text, and nothing else decodes.
abbrev pub decode : Unmarshal Bytes ℤ
decode = record {
  extruder = λ raw s. s;
  heater_bed = λ raw s. s;
  motion_report = λ raw s. s;
  print_stats = λ raw s. record s { state = raw };
  mcu = λ raw s. s;
  chamber = λ raw. none;
}

abbrev pub seed : Seed
seed = record { id = 7 ∷ []; nonce = [] }

abbrev pub env_at : ℕ → TickEnv ℤ
env_at n = record {
  tick = n;
  mono_ns = pos n;
  now = n;
  seed = record { id = 8 ∷ []; nonce = [] };
  marshal = λ p. some (p.seq ∷ []);
  tpm_quote = λ nonce. none;
  tpm_sign = λ bytes. none;
  fault_up = true;
  quote_up = true;
  packet_up = true;
  sig_up = true;
}

abbrev pub config : Config
config = record {
  node_label = codes "edge";
  printer_id = codes "printer";
  max_silent_ticks = pos 10;
  quote_interval = pos 60000000000;
  quote_on_lifecycle = true;
  pcrs = [];
  ak_handle = 0;
}

abbrev pub events : List (Event Bytes ℤ)
events = delta seed ((codes "print_stats", printing) ∷ []) ∷ tick (env_at 1) ∷ tick (env_at 2) ∷ []

abbrev pub idle : Packetizer ℤ
idle = new_packetizer config false

pub events_fresh : AllFresh front_hashes decode events idle new_buffer
unfolding handle new_buffer new_packetizer on_tick is_active bytes_eq apply_delta apply_object
    object_of detect_lifecycle_edge start_new_session ensure_session count_silence judge_tick
    evaluate seal_tick maybe_quote write_tick write_packet has_packet insert_packet build_packet
    hex_encode backfill
events_fresh = (refl, (refl, (refl, tt)))

pub idle-IsLedger : IsLedger front_hashes idle.session_id idle.seq idle.prev_blake3 new_buffer
unfolding new_packetizer new_buffer
idle-IsLedger = record {
  valid = new_buffer-IsValid;
  chains = λ s. (0, none, (refl, refl));
  current = inl refl;
}

run-IsLedger_example :
    let (p, b) = run front_hashes decode events idle new_buffer in
    IsLedger front_hashes p.session_id p.seq p.prev_blake3 b
run-IsLedger_example =
    run-IsLedger front_hashes decode events idle new_buffer events_fresh idle-IsLedger

-- Two packets are written, at 1 and 0, newest first.
two_packets :
    map (λ r. r.seq) (run front_hashes decode events idle new_buffer).1.packets ≡ 1 ∷ 0 ∷ []
unfolding run handle new_buffer new_packetizer on_tick is_active bytes_eq apply_delta apply_object
    object_of detect_lifecycle_edge start_new_session ensure_session count_silence judge_tick
    evaluate seal_tick maybe_quote write_tick write_packet has_packet insert_packet build_packet
    hex_encode backfill
two_packets = refl

-- The same packetizer while its printer prints.
abbrev printing_now : Packetizer ℤ
printing_now = record idle {
  state = record idle.state { print_stats = record idle.state.print_stats { state = printing } };
}

prints : is_active printing_now.state ≡ true
unfolding is_active bytes_eq
prints = refl

printing-IsLedger :
    IsLedger front_hashes printing_now.session_id printing_now.seq printing_now.prev_blake3
      new_buffer
printing-IsLedger = idle-IsLedger

place_small : printing_now.seq < 2 ^ 63
unfolding new_packetizer
place_small = omega arith

no_rows : IsFresh (env_at 1).seed new_buffer
unfolding new_buffer
no_rows = refl

on_tick-IsRecorded_example :
    let (p, b) = on_tick front_hashes (env_at 1) printing_now new_buffer in
    IsRecorded (ensure_session (env_at 1) printing_now).seq new_buffer p b
on_tick-IsRecorded_example =
    on_tick-IsRecorded front_hashes (env_at 1) printing_now new_buffer prints refl
      (λ packet. (_, refl)) place_small no_rows printing-IsLedger

-- A TPM that signs but gives no quote.
abbrev signs : TickEnv ℤ
signs = record (env_at 1) { tpm_sign = λ bytes. some (9 ∷ []) }

write_tick_unquoted_example :
    let p = record printing_now { has_tpm = true } in
    (write_tick front_hashes signs none (1 ∷ []) 0 p new_buffer).1
    ≡ (write_packet true
        (row front_hashes signs false (1 ∷ []) (some (9 ∷ [])) p new_buffer)
        new_buffer).1
write_tick_unquoted_example =
    write_tick_unquoted front_hashes signs none (1 ∷ []) (record printing_now { has_tpm = true })
      new_buffer new_buffer-IsValid

-- The printer has been silent for the ten ticks that the configuration allows.
abbrev silent : Packetizer ℤ
silent = record printing_now { session_id = codes "a1"; silent_ticks = pos 10 }

silence_limit : silent.cfg.max_silent_ticks ≡ pos 10
unfolding new_packetizer
silence_limit = refl

on_tick-Counted_example :
    let (p, b) = on_tick front_hashes (env_at 1) silent new_buffer in
    Counted 10 10 (env_at 1) silent new_buffer p b
on_tick-Counted_example =
    on_tick-Counted front_hashes 10 10 (env_at 1) silent new_buffer prints (λ e. ground arith) refl
      refl silence_limit (omega arith) (omega arith) place_small
