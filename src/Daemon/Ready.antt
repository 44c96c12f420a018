-- ===== src/Daemon/Ready.antt =====
-- cmd/axm-edge/main.go: the ledger across a restart of the daemon.
use axm_sfn.Common.{
  ℕ, Bool, ◌≡◌, refl, ◌∙◌, subst, Bool-cases, inl, inr, Option, none, some, List, [], arith,
}
use axm_sfn.Common.Text.{Bytes, bytes_eq}
use axm_sfn.Config.{Config, Files}
use axm_sfn.Floats.{Float64}
use axm_sfn.HotBuffer.Tables.{Packet, Buffer, Result, ok, err, new_buffer, Error}
use axm_sfn.HotBuffer.Writes.{write_attestation_key}
use axm_sfn.HotBuffer.Statements.{new_buffer-IsValid, write_attestation_key-IsValid}
use axm_sfn.HotBuffer.Open.{open_buffer, migrate, opened}
use axm_sfn.Tpm.{KeyEvidence}
use axm_sfn.Tpm.Device.{Device}
use axm_sfn.Tpm.Worker.{Worker, open_worker}
use axm_sfn.Custody.State.{Hashes, new_packetizer}
use axm_sfn.Custody.Chain.{IsLedger, same_packets}
use axm_sfn.Custody.Delta.{Unmarshal}
use axm_sfn.Custody.Run.{Event, run}
use axm_sfn.Custody.GapFree.{AllFresh, run-IsLedger}
use axm_sfn.Daemon.{
  StartEnv, then_start, finish_start, persist_ek_cert, persist_ek, persist_ak, persist_keys, start,
}
use axm_sfn.Daemon.Boot.{
  BootEnv, Launched, launched, launch, worker_of, start_env, tpm_config, boot,
}
use axm_sfn.Daemon.Attested.{boot-launched}

-- What WriteAttestationKey keeps the start keeps.
module _ (P : Buffer → Type 0)
    (keep : (up : Bool) (now : ℕ) (role alg material : Bytes) (b : Buffer)
      → P b
      → P (write_attestation_key up now role alg material b).1) where
  then_start-keeps :
      (r : Result (Unit {0}) × Buffer) (next : Buffer → Option Error × Buffer)
      → P r.1
      → ((b : Buffer) → P b → P (next b).1)
      → P (then_start r next).1
  then_start-keeps (ok u, b) next h k = k b h
  then_start-keeps (err e, b) next h k = h

  finish_start-keeps : (r : Result (Unit {0}) × Buffer) → P r.1 → P (finish_start r).1
  finish_start-keeps (ok u, b) h = h
  finish_start-keeps (err e, b) h = h

  persist_ek_cert-keeps :
      (env : StartEnv) (cert : Option Bytes) (b : Buffer) → P b → P (persist_ek_cert env cert b).1
  persist_ek_cert-keeps env none b h = h
  persist_ek_cert-keeps env (some cert) b h = finish_start-keeps _ (keep _ _ _ _ _ b h)

  persist_ek-keeps : (env : StartEnv) (b : Buffer) → P b → P (persist_ek env b).1
  persist_ek-keeps env b h = elim (Bool-cases (bytes_eq env.ek_cert_path [])) [
    | inl e ↦ rw e h
    | inr n ↦ rw n (persist_ek_cert-keeps env env.ek_cert b h)
  ]

  persist_keys-keeps :
      (env : StartEnv) (ev : Option KeyEvidence) (b : Buffer) → P b → P (persist_keys env ev b).1
  persist_keys-keeps env none b h = h
  persist_keys-keeps env (some ev) b h =
      then_start-keeps _ (persist_ak env ev) (keep _ _ _ _ _ b h)
        (λ c k. then_start-keeps _ (persist_ek env) (keep _ _ _ _ _ c k) (persist_ek-keeps env))

  start-keeps : (env : StartEnv) (b : Buffer) → P b → P (start env b).1
  unfolding start
  start-keeps env b h = persist_keys-keeps env env.evidence b h

packets-write_attestation_key :
    (up : Bool) (now : ℕ) (role alg material : Bytes) (b : Buffer)
    → (write_attestation_key up now role alg material b).1.packets ≡ b.packets
unfolding write_attestation_key
packets-write_attestation_key up now role alg material b = ground arith

packets-start : (env : StartEnv) (b : Buffer) → (start env b).1.packets ≡ b.packets
packets-start env b =
    start-keeps (λ c. c.packets ≡ b.packets)
      (λ up now role alg material c same.
        packets-write_attestation_key up now role alg material c ∙ same)
      env b refl

-- The packets that an earlier run left in the file.
abbrev pub left_rows : Option Buffer → List Packet
left_rows none = []
left_rows (some b) = b.packets

open_buffer-migrate :
    (opens migrates : Bool) (file : Option Buffer) (b : Buffer)
    → open_buffer opens migrates file ≡ opened b
    → migrate file ≡ b
unfolding open_buffer
open_buffer-migrate opens migrates file b e = ground arith

packets-migrate : (file : Option Buffer) → (migrate file).packets ≡ left_rows file
unfolding migrate new_buffer
packets-migrate none = refl
packets-migrate (some b) = refl

packets-open_buffer :
    (opens migrates : Bool) (file : Option Buffer) (b : Buffer)
    → open_buffer opens migrates file ≡ opened b
    → b.packets ≡ left_rows file
packets-open_buffer opens migrates file b e =
    subst (λ (c : Buffer). c.packets ≡ left_rows file) (open_buffer-migrate opens migrates file b e)
      (packets-migrate file)

module _ (h : Hashes) where
  -- What an earlier run of the daemon left in the file: nothing, or a ledger at the end of whose session
  -- it stood.
  abbrev pub LeftLedger : Option Buffer → Type 0
  LeftLedger none = Unit
  LeftLedger (some b) =
      (session : Bytes) × (seq : ℕ) × (prev : Option Bytes) × IsLedger h session seq prev b

  new_buffer-IsLedger : IsLedger h [] 0 none new_buffer
  unfolding new_buffer
  new_buffer-IsLedger = record {
    valid = new_buffer-IsValid;
    chains = λ s. (0, none, (refl, refl));
    current = inl refl;
  }

  migrate-IsLedger : (file : Option Buffer) → LeftLedger file → IsLedger h [] 0 none (migrate file)
  unfolding migrate
  migrate-IsLedger none left = new_buffer-IsLedger
  migrate-IsLedger (some b) (session, seq, prev, l) = record {
    valid = l.valid;
    chains = l.chains;
    current = inl refl;
  }

  open_buffer-IsLedger :
      (opens migrates : Bool) (file : Option Buffer) (b : Buffer)
      → open_buffer opens migrates file ≡ opened b
      → LeftLedger file
      → IsLedger h [] 0 none b
  open_buffer-IsLedger opens migrates file b e left =
      subst (IsLedger h [] 0 none) (open_buffer-migrate opens migrates file b e)
        (migrate-IsLedger file left)

  write_attestation_key-IsLedger :
      (up : Bool) (now : ℕ) (role alg material : Bytes) (b : Buffer)
      → IsLedger h [] 0 none b
      → IsLedger h [] 0 none (write_attestation_key up now role alg material b).1
  write_attestation_key-IsLedger up now role alg material b l =
      same_packets h (packets-write_attestation_key up now role alg material b)
        (write_attestation_key-IsValid up now role alg material b l.valid) l

module _ {Raw F D : Type 0} ⦃fl : Float64 F⦄ (h : Hashes) (decode : Unmarshal Raw F)
    (dev : Device D) (files : Files) (env : BootEnv) (cfg : Config) where
  launch-IsLedger :
      (worker : Option Worker) (b : Buffer) (l : Launched F)
      → launch cfg worker ≡ l
      → IsLedger h [] 0 none b
      → IsLedger h l.packetizer.session_id l.packetizer.seq l.packetizer.prev_blake3 b
  unfolding launch new_packetizer
  launch-IsLedger worker b l e ledger =
      subst
        (λ (l : Launched F).
          IsLedger h l.packetizer.session_id l.packetizer.seq l.packetizer.prev_blake3 b)
        e ledger

  -- A daemon that is launched on the ledger of an earlier run, or on a new file, begins with the packets
  -- that are in it, and, if its random session ids do not repeat, keeps a ledger through any run of its
  -- packetizer, whatever the device, the configuration and the database do.
  pub boot-run-IsLedger :
      (file : Option Buffer) (d last : D) (l : Launched F) (after : Buffer)
      (es : List (Event Raw F))
      → LeftLedger h file
      → boot dev files env cfg file d ≡ (launched l, some after, last)
      → AllFresh h decode es l.packetizer after
      → let (p, b) = run h decode es l.packetizer after in
        (after.packets ≡ left_rows file) × IsLedger h p.session_id p.seq p.prev_blake3 b
  boot-run-IsLedger file d last l after es left booted fresh =
      let (b, opens, started, same) = boot-launched dev files env cfg file d last l after booted in
      let before = open_buffer-IsLedger h env.db_opens env.db_migrates file b opens left in
      let worker = worker_of (open_worker dev (tpm_config cfg) d).0 in
      let kept =
        start-keeps (IsLedger h [] 0 none) (write_attestation_key-IsLedger h)
          (start_env files env cfg worker) b before in
      let rows : after.packets ≡ b.packets =
        subst (λ (r : Option Error × Buffer). r.1.packets ≡ b.packets) started
          (packets-start (start_env files env cfg worker) b) in
      (
        rows ∙ packets-open_buffer env.db_opens env.db_migrates file b opens,
        run-IsLedger h decode es l.packetizer after fresh (
            launch-IsLedger worker after l same
              (subst (λ (r : Option Error × Buffer). IsLedger h [] 0 none r.1) started kept)),
      )
