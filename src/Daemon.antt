-- ===== src/Daemon.antt =====
-- cmd/axm-edge/main.go, runDaemon: the key evidence written at the start, and the daemon's goroutines as
-- one sequence of their events over the shared tables. What the TPM and the file system give is a
-- parameter.
pub mod Boot
pub mod Attested
pub mod Attesting
pub mod Ready
pub mod Serve
pub mod Process
pub mod System
pub mod Mute
pub mod Startup
pub mod Unsent
pub mod Stuck
pub mod Idle
pub mod Goroutines
use axm_sfn.Common.{ℕ, Bool, List, [], ◌∷◌, ◌++◌, Option, none, some, if◌then◌else◌}
use axm_sfn.Common.Text.{Bytes, codes, bytes_eq}
use axm_sfn.Floats.{Float64}
use axm_sfn.HotBuffer.Tables.{Buffer, Error, Result, ok, err}
use axm_sfn.HotBuffer.Writes.{write_attestation_key}
use axm_sfn.Custody.State.{Packetizer, Hashes}
use axm_sfn.Custody.Delta.{Unmarshal}
use axm_sfn.Custody.Run.{Event, handle}
use axm_sfn.Tpm.{KeyEvidence}
use axm_sfn.Uploader.Flush.{Uploader, FlushEnv, FlushError, flush}

-- What the start meets: the open TPM's keys, if there is one, the configured path of the EK
-- certificate, what reading it gives, and whether the database takes each of the three statements.
pub record StartEnv : Type 0 where
  pub now : ℕ
  pub evidence : Option KeyEvidence
  pub ek_cert_path : Bytes
  pub ek_cert : Option Bytes
  pub sign_up : Bool
  pub ak_up : Bool
  pub ek_up : Bool

abbrev pub public_alg : Bytes
public_alg = codes "tpm2:tpm2b-public"

-- `if err := …; err != nil { return err }`, and what follows.
abbrev pub then_start :
    Result (Unit {0}) × Buffer → (Buffer → Option Error × Buffer) → Option Error × Buffer
then_start (err e, b) next = (some e, b)
then_start (ok done, b) next = next b

abbrev pub finish_start : Result (Unit {0}) × Buffer → Option Error × Buffer
finish_start (err e, b) = (some e, b)
finish_start (ok done, b) = (none, b)

abbrev pub persist_ek_cert : StartEnv → Option Bytes → Buffer → Option Error × Buffer
persist_ek_cert env none b = (none, b)
persist_ek_cert env (some cert) b =
    finish_start
      (write_attestation_key env.ek_up env.now (codes "ek_cert") (codes "x509:der") cert b)

-- `if cfg.TPM.EKCertPath != ""`; a certificate that cannot be read is only warned of.
abbrev pub persist_ek : StartEnv → Buffer → Option Error × Buffer
persist_ek env b =
    if bytes_eq env.ek_cert_path [] then (none, b) else persist_ek_cert env env.ek_cert b

abbrev pub persist_ak : StartEnv → KeyEvidence → Buffer → Option Error × Buffer
persist_ak env ev b =
    then_start (write_attestation_key env.ak_up env.now (codes "ak_pub") public_alg ev.ak_pub b)
      (persist_ek env)

abbrev pub persist_keys : StartEnv → Option KeyEvidence → Buffer → Option Error × Buffer
persist_keys env none b = (none, b)
persist_keys env (some ev) b =
    then_start
      (write_attestation_key env.sign_up env.now (codes "sign_pub") public_alg ev.sign_pub b)
      (persist_ak env ev)

-- The start's writes; `none` is a nil error.
unfoldable pub start : StartEnv → Buffer → Option Error × Buffer
start env b = persist_keys env env.evidence b

-- An event of one of the goroutines.
pub data DaemonEvent (Raw : Type 0) (F : Type 0) : Type 0 where
  custody : Event Raw F → DaemonEvent Raw F
  upload : FlushEnv → DaemonEvent Raw F

-- `cfg.Session.NodeLabel+"-session"`
unfoldable pub upload_session : Bytes → Bytes
upload_session node_label = node_label ++ codes "-session"

abbrev pub flushed :
    {F : Type 0}
    → Packetizer F
    → Option (Option FlushError × Buffer)
    → Option (Packetizer F × Buffer)
flushed p none = none
flushed p (some (e, b)) = some (p, b)

module _ {Raw F : Type 0} ⦃fl : Float64 F⦄ (h : Hashes) (decode : Unmarshal Raw F) (u : Uploader)
    (node_label : Bytes) where
  unfoldable pub step : DaemonEvent Raw F → Packetizer F → Buffer → Option (Packetizer F × Buffer)
  step (custody e) p b = some (handle h decode e p b)
  step (upload env) p b = flushed p (flush h.blake3 u env (upload_session node_label) b)

  -- The events in order; `none` means that one did not return.
  unfoldable pub run_daemon :
      List (DaemonEvent Raw F) → Option (Packetizer F × Buffer) → Option (Packetizer F × Buffer)
  run_daemon [] s = s
  run_daemon (e ∷ es) none = none
  run_daemon (e ∷ es) (some (p, b)) = run_daemon es (step e p b)
