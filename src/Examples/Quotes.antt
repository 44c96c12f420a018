-- ===== src/Examples/Quotes.antt =====
-- A run of the packetizer with a TPM, at inputs.
use axm_sfn.Common.{◌&&◌, false, ◌<◌, ◌^◌, arith, ℕ, ◌≡◌, refl, true, inl, List, [], ◌∷◌, map, some}
use axm_sfn.Common.Int.{ℤ}
use axm_sfn.Common.Text.{Bytes, codes, bytes_eq}
use axm_sfn.Moonraker.State.{printing, is_active}
use axm_sfn.Encoding.{hex_encode}
use axm_sfn.Policy.{evaluate}
use axm_sfn.HotBuffer.Tables.{new_buffer}
use axm_sfn.HotBuffer.Writes.{
  write_packet, has_packet, insert_packet, write_quote, set_tpm_sig, has_row, has_quote, update_sig,
}
use axm_sfn.HotBuffer.Statements.{new_buffer-IsValid}
use axm_sfn.Custody.State.{Packetizer, TickEnv, new_packetizer, start_new_session}
use axm_sfn.Custody.Delta.{apply_delta, apply_object, object_of, detect_lifecycle_edge}
use axm_sfn.Custody.Tick.{
  on_tick, ensure_session, count_silence, judge_tick, seal_tick, maybe_quote, write_tick,
  build_packet, backfill, store_quote, quoted, finish, should_quote,
}
use axm_sfn.Custody.Run.{Event, delta, tick, run, handle}
use axm_sfn.Custody.Cadence.{SameQuotes}
use axm_sfn.Custody.Cadence.Failed.{on_tick-SameQuotes}
use axm_sfn.Custody.Bound.{IsBound}
use axm_sfn.Custody.Bound.Ticks.{on_tick-IsBound}
use axm_sfn.Custody.Quoted.{IsQuoted}
use axm_sfn.Custody.Quoted.Runs.{run-IsQuoted}
use axm_sfn.Examples.Values.{whole_degrees, front_hashes}
use axm_sfn.Examples.Sessions.{decode, seed, env_at, config}

-- The TPM answers.
abbrev signing : ℕ → TickEnv ℤ
signing n = record (env_at n) {
  tpm_quote = λ nonce. some (record { nonce = nonce; attest_blob = 5 ∷ []; sig = 6 ∷ [] });
  tpm_sign = λ bytes. some (9 ∷ []);
}

abbrev attested : Packetizer ℤ
attested = new_packetizer config true

abbrev quoted_events : List (Event Bytes ℤ)
quoted_events =
    delta seed ((codes "print_stats", printing) ∷ []) ∷ tick (signing 1) ∷ tick (signing 2) ∷ []

attested-IsQuoted : IsQuoted attested.last_quote_id attested.session_id attested.seq new_buffer
unfolding new_packetizer new_buffer
attested-IsQuoted = record { valid = new_buffer-IsValid; rows = tt; current = inl refl }

run-IsQuoted_example :
    let (p, b) = run front_hashes decode quoted_events attested new_buffer in
    IsQuoted p.last_quote_id p.session_id p.seq b
run-IsQuoted_example =
    run-IsQuoted front_hashes decode quoted_events attested new_buffer attested-IsQuoted

-- Both packets name the first quote; the second is taken after an interval only.
one_quote :
    map (λ p. p.quote_ref) (run front_hashes decode quoted_events attested new_buffer).1.packets
    ≡ some 1 ∷ some 1 ∷ []
unfolding run handle new_buffer new_packetizer on_tick is_active bytes_eq apply_delta apply_object
    object_of detect_lifecycle_edge start_new_session ensure_session count_silence judge_tick
    evaluate seal_tick maybe_quote write_tick write_packet has_packet insert_packet build_packet
    hex_encode backfill store_quote quoted finish should_quote write_quote set_tpm_sig has_row
    has_quote update_sig
one_quote = refl

abbrev attesting : Packetizer ℤ
attesting = record attested {
  session_id = codes "a1";
  state = record attested.state {
    print_stats = record attested.state.print_stats { state = printing };
  };
}

attesting_active : is_active attesting.state ≡ true
unfolding new_packetizer is_active bytes_eq
attesting_active = refl

attesting_place : attesting.seq < 2 ^ 63
unfolding new_packetizer
attesting_place = omega arith

-- The TPM of `env_at` gives no quote.
on_tick-SameQuotes_example :
    let (p, b) = on_tick front_hashes (env_at 1) attesting new_buffer in
    SameQuotes attesting new_buffer p b × (should_quote 2 p ≡ should_quote 2 attesting)
on_tick-SameQuotes_example =
    on_tick-SameQuotes front_hashes (env_at 1) attesting new_buffer 2 attesting_active
      (λ e. ground arith) (λ nonce. inl refl)

attesting_due : (attesting.has_tpm && should_quote 1 attesting) ≡ true
unfolding new_packetizer should_quote
attesting_due = refl

attesting_free : has_packet attesting.session_id attesting.seq new_buffer.packets ≡ false
unfolding new_packetizer new_buffer has_packet
attesting_free = refl

on_tick-IsBound_example :
    IsBound front_hashes attesting.session_nonce attesting.prev_blake3 new_buffer
      (on_tick front_hashes (signing 1) attesting new_buffer).1
on_tick-IsBound_example =
    on_tick-IsBound front_hashes (signing 1) attesting new_buffer attesting_active
      (λ e. ground arith) attesting_due (λ nonce. (_, refl, refl)) (λ pkt. (_, refl)) refl refl
      attesting_place attesting_free new_buffer-IsValid
