-- ===== src/Daemon/Boot.antt =====
-- cmd/axm-edge/main.go, runDaemon, up to its goroutines: the buffer, the TPM worker and its evidence, and
-- how the configuration reaches the client, the packetizer and the uploader.
use axm_sfn.Common.{ℕ, Bool, true, false, Option, none, some}
use axm_sfn.Common.Int.{ℤ}
use axm_sfn.Common.Text.{Bytes}
use axm_sfn.Config.{Config, Files}
use axm_sfn.Floats.{Float64}
use axm_sfn.HotBuffer.Tables.{Buffer, Error}
use axm_sfn.HotBuffer.Open.{Opened, opened, open_failed, migrate_failed, open_buffer}
use axm_sfn.Tpm.{KeyEvidence}
use axm_sfn.Tpm.Device.{Device, Tried, TpmError, succeeded, failed}
use axm_sfn.Tpm.Provision.{provision_keys}
use axm_sfn.Tpm.Worker
use axm_sfn.Tpm.Worker.{Worker, open_worker, close_tpm, key_evidence}
use axm_sfn.Moonraker.Objects.{ClientConfig, client_config, moon_objects}
use axm_sfn.Custody.State
use axm_sfn.Custody.State.{Packetizer, new_packetizer}
use axm_sfn.Uploader.Flush.{Uploader}
use axm_sfn.Daemon.{StartEnv, start, upload_session}

-- What the start meets: the clock, whether the database opens and migrates, and whether it takes each of
-- the three statements.
pub record BootEnv : Type 0 where
  pub now : ℕ
  pub db_opens : Bool
  pub db_migrates : Bool
  pub sign_up : Bool
  pub ak_up : Bool
  pub ek_up : Bool

pub data BootError : Type 0 where
  hot_buffer_open hot_buffer_migrate : BootError
  persist_evidence : Error → BootError

-- `tpmworker.Config{…}`
unfoldable pub tpm_config : Config → Worker.Config
tpm_config cfg = record {
  device = cfg.tpm.device;
  pcrs = cfg.tpm.pcrs;
  sign_key_handle = cfg.tpm.sign_key_handle;
  ak_handle = cfg.tpm.ak_handle;
}

-- `runProvision`
unfoldable pub run_provision : {D : Type 0} → Device D → Config → D → Option TpmError × D
run_provision dev cfg d = provision_keys dev (tpm_config cfg) d

-- `custody.Config{…}`
unfoldable pub custody_config : Config → State.Config
custody_config cfg = record {
  node_label = cfg.session.node_label;
  printer_id = cfg.session.printer_id;
  max_silent_ticks = cfg.custody.max_silent_ticks;
  quote_interval = cfg.tpm.quote_interval;
  quote_on_lifecycle = cfg.tpm.quote_on_lifecycle_edge;
  pcrs = cfg.tpm.pcrs;
  ak_handle = cfg.tpm.ak_handle;
}

-- The client that runDaemon makes.
unfoldable pub moon_config : Config → ClientConfig
moon_config cfg =
    client_config cfg.moonraker.endpoint cfg.moonraker.api_key cfg.moonraker.client_name
      cfg.moonraker.client_version cfg.moonraker.reconnect_delay
      (some (moon_objects cfg.moonraker.subscribe_objects))

-- `uploader.New`; the retry interval is that of its Run.
unfoldable pub new_uploader : Bytes → ℤ → Uploader
new_uploader endpoint batch_size = record { endpoint = endpoint; batch_size = batch_size }

-- A TPM that cannot be opened is only warned of.
abbrev pub worker_of : Tried Worker → Option Worker
worker_of (failed e) = none
worker_of (succeeded w) = some w

abbrev pub evidence_of : Option Worker → Option KeyEvidence
evidence_of none = none
evidence_of (some w) = some (key_evidence w)

abbrev pub is_present : Option Worker → Bool
is_present none = false
is_present (some w) = true

unfoldable pub start_env : Files → BootEnv → Config → Option Worker → StartEnv
start_env files env cfg worker = record {
  now = env.now;
  evidence = evidence_of worker;
  ek_cert_path = cfg.tpm.ek_cert_path;
  ek_cert = files.read_file cfg.tpm.ek_cert_path;
  sign_up = env.sign_up;
  ak_up = env.ak_up;
  ek_up = env.ek_up;
}

-- What the goroutines run with. The last two are the session of the uploader and the two tickers'
-- intervals.
pub record Launched (F : Type 0) : Type 0 where
  pub worker : Option Worker
  pub client : ClientConfig
  pub packetizer : Packetizer F
  pub uploader : Uploader
  pub session : Bytes
  pub period : ℤ
  pub retry_interval : ℤ

pub data BootResult (F : Type 0) : Type 0 where
  launched : Launched F → BootResult F
  stopped : BootError → BootResult F

module _ {F : Type 0} ⦃fl : Float64 F⦄ where
  unfoldable pub launch : Config → Option Worker → Launched F
  launch cfg worker = record {
    worker = worker;
    client = moon_config cfg;
    packetizer = new_packetizer (custody_config cfg) (is_present worker);
    uploader = new_uploader cfg.uploader.endpoint cfg.uploader.batch_size;
    session = upload_session cfg.session.node_label;
    period = cfg.custody.period;
    retry_interval = cfg.uploader.retry_interval;
  }

module _ {F D : Type 0} ⦃fl : Float64 F⦄ (dev : Device D) (files : Files) (env : BootEnv)
    (cfg : Config) where
  -- After the evidence; the deferred Close of the worker runs where runDaemon returns.
  abbrev pub finish_boot :
      Tried Worker × D → Option Error × Buffer → BootResult F × Option Buffer × D
  finish_boot (tried, d) (some e, b) =
      (stopped (persist_evidence e), some b, close_tpm dev (tried, d))
  finish_boot (tried, d) (none, b) = (launched (launch cfg (worker_of tried)), some b, d)

  abbrev pub boot_tpm : Buffer → Tried Worker × D → BootResult F × Option Buffer × D
  boot_tpm b (tried, d) =
      finish_boot (tried, d) (start (start_env files env cfg (worker_of tried)) b)

  abbrev pub boot_opened : Option Buffer → D → Opened → BootResult F × Option Buffer × D
  boot_opened file d open_failed = (stopped hot_buffer_open, file, d)
  boot_opened file d migrate_failed = (stopped hot_buffer_migrate, file, d)
  boot_opened file d (opened b) = boot_tpm b (open_worker dev (tpm_config cfg) d)

  -- runDaemon before its goroutines: what it launches or why it stops, the database file and the device.
  unfoldable pub boot : Option Buffer → D → BootResult F × Option Buffer × D
  boot file d = boot_opened file d (open_buffer env.db_opens env.db_migrates file)
