-- ===== src/Daemon/Mute.antt =====
-- cmd/axm-edge/main.go: what the three goroutines come to together.
use axm_sfn.Common.{List, [], ◌∷◌, Option, some, false, ◌≡◌, refl, sym, ap, ◌∙◌, subst, All}
use axm_sfn.Common.Text.{Bytes, bytes_eq}
use axm_sfn.Config.{Config, Files}
use axm_sfn.Floats.{Float64}
use axm_sfn.HotBuffer.Tables.{Buffer}
use axm_sfn.Tpm.Device.{Device}
use axm_sfn.Tpm.Worker.{Worker, open_worker}
use axm_sfn.Custody.State.{Hashes, new_packetizer}
use axm_sfn.Custody.Delta.{Unmarshal}
use axm_sfn.Custody.Tick.{on_tick}
use axm_sfn.Custody.Run.{handle}
use axm_sfn.Moonraker.State.{is_active}
use axm_sfn.Moonraker.Client.{ClientJson, new_client}
use axm_sfn.Moonraker.Deaf.{run_once_fails}
use axm_sfn.Uploader.Flush.{Uploader}
use axm_sfn.Uploader.Flush.Outcomes.{flush_idle}
use axm_sfn.Daemon.{upload_session, flushed, step}
use axm_sfn.Daemon.Unsent.{Waits}
use axm_sfn.Daemon.Idle.{none_waiting}
use axm_sfn.Daemon.Boot.{BootEnv, Launched, launched, launch, boot, worker_of, tpm_config}
use axm_sfn.Daemon.Attested.{boot-launched}
use axm_sfn.Daemon.System.{
  System, SystemEvent, connects, takes, ticks, uploads, client_of, with_tables, take_update,
  system_step, run_system, first_system,
}

module _ {Raw F : Type 0} where
  -- No delta waits, no print is active, and the packets wait in sessions with hexadecimal names.
  record IsMute (s : System Raw F) : Type 0 where
    no_updates : s.client.updates ≡ []
    inactive : is_active s.packetizer.state ≡ false
    waiting : All Waits s.buffer.packets

  -- The packetizer and the tables are the same in both.
  record SameRecord (s after : System Raw F) : Type 0 where
    packetizer : after.packetizer ≡ s.packetizer
    buffer : after.buffer ≡ s.buffer
    updates : after.client.updates ≡ s.client.updates

  SameRecord-IsMute : {s after : System Raw F} → SameRecord s after → IsMute s → IsMute after
  SameRecord-IsMute same m = record {
    no_updates = same.updates ∙ m.no_updates;
    inactive = ap (λ p. is_active p.state) same.packetizer ∙ m.inactive;
    waiting = subst (λ (b : Buffer). All Waits b.packets) (sym same.buffer) m.waiting;
  }

module _ {Raw F : Type 0} ⦃fl : Float64 F⦄ (json : ClientJson Raw F) (h : Hashes)
    (decode : Unmarshal Raw F) (u : Uploader) (label : Bytes) where
  system_step-SameRecord :
      (e : SystemEvent Raw F) (s : System Raw F)
      → IsMute s
      → (after : System Raw F) × (system_step json h decode u label e s ≡ some after)
        × SameRecord s after
  unfolding system_step step handle on_tick
  system_step-SameRecord (connects env) s m =
      let (e, c, done, same) = run_once_fails json env s.client in
      (
        _,
        refl,
        record {
          packetizer = refl;
          buffer = refl;
          updates = ap (λ p. (client_of p).updates) done ∙ same;
        },
      )
  system_step-SameRecord (takes seed) s m = (
    s,
    ap (λ l. take_update json h decode u label seed l s) m.no_updates,
    record { packetizer = refl; buffer = refl; updates = refl },
  )
  system_step-SameRecord (ticks env) s m =
      rw (m.inactive) (_, refl, record { packetizer = refl; buffer = refl; updates = refl })
  system_step-SameRecord (uploads env) s m =
      let (e, idle) =
        flush_idle h.blake3 u env (upload_session label) s.buffer
          (none_waiting label s.buffer.packets m.waiting) in
      (
        _,
        ap (λ r. with_tables s (flushed s.packetizer r)) idle,
        record { packetizer = refl; buffer = refl; updates = refl },
      )

  run_system-SameRecord :
      (es : List (SystemEvent Raw F)) (s : System Raw F)
      → IsMute s
      → (after : System Raw F) × (run_system json h decode u label es (some s) ≡ some after)
        × SameRecord s after
  unfolding run_system
  run_system-SameRecord [] s m =
      (s, refl, record { packetizer = refl; buffer = refl; updates = refl })
  run_system-SameRecord (e ∷ es) s m =
      let (next, done, same) = system_step-SameRecord e s m in
      let (after, rest, still) = run_system-SameRecord es next (SameRecord-IsMute same m) in
      (
        after,
        ap (run_system json h decode u label es) done ∙ rest,
        record {
          packetizer = still.packetizer ∙ same.packetizer;
          buffer = still.buffer ∙ same.buffer;
          updates = still.updates ∙ same.updates;
        },
      )

  module _ {D : Type 0} (dev : Device D) (files : Files) (env : BootEnv) (cfg : Config) where
    launch-inactive :
        (worker : Option Worker) (l : Launched F)
        → launch cfg worker ≡ l
        → is_active l.packetizer.state ≡ false
    unfolding launch new_packetizer is_active bytes_eq
    launch-inactive worker l e =
        subst (λ (l : Launched F). is_active l.packetizer.state ≡ false) e refl

    -- A daemon that was launched on tables whose packets wait in sessions with hexadecimal names records
    -- and uploads nothing: whatever Moonraker, the TPM, the database and the network do, and however the
    -- connections of the client, the packetizer's turns and the flushes interleave, all of them return
    -- and the tables stay as the start left them, since no connection comes past identify and so no
    -- delta ever tells the packetizer of a print.
    pub run_system_mute :
        (file : Option Buffer) (d last : D) (l : Launched F) (b : Buffer)
        (es : List (SystemEvent Raw F))
        → boot dev files env cfg file d ≡ (launched l, some b, last)
        → All Waits b.packets
        → (after : System Raw F) × (run_system json h decode u label es (some (first_system l b))
            ≡ some after)
          × (after.buffer ≡ b)
          × (after.packetizer ≡ l.packetizer)
    unfolding first_system new_client
    run_system_mute file d last l b es booted waiting =
        let (c, opens, started, same) = boot-launched dev files env cfg file d last l b booted in
        let (after, done, kept) = run_system-SameRecord es (first_system l b) (record {
          no_updates = refl;
          inactive = launch-inactive (worker_of (open_worker dev (tpm_config cfg) d).0) l same;
          waiting = waiting;
        }) in
        (after, done, kept.buffer, kept.packetizer)
