-- ===== src/Daemon/Attested.antt =====
-- cmd/axm-edge/main.go: what a daemon that was launched has of its TPM.
use axm_sfn.Common.{true, false, ◌≡◌, refl, sym, ap, subst, Option, none, some, arith, []}
use axm_sfn.Common.Text.{Bytes, codes}
use axm_sfn.Config.{Config, Files}
use axm_sfn.Floats.{Float64}
use axm_sfn.HotBuffer.Tables.{Buffer, Error}
use axm_sfn.HotBuffer.Open.{Opened, opened, open_failed, migrate_failed, open_buffer}
use axm_sfn.Tpm.Device.{Reply, done, refused, Device, Tried, succeeded, failed}
use axm_sfn.Tpm.Worker
use axm_sfn.Tpm.Worker.{
  Worker, open_worker, check_handles, check_opened, close_on_error, take_ak_pub, take_sign_pub,
  key_evidence,
}
use axm_sfn.Custody.State.{new_packetizer}
use axm_sfn.Daemon.{start}
use axm_sfn.Daemon.Startup.{Holds, persist_keys-HoldsAll}
use axm_sfn.Daemon.Boot.{
  BootEnv, tpm_config, custody_config, worker_of, start_env, Launched, launched, launch,
  finish_boot, boot_opened, boot,
}

module _ {D : Type 0} (dev : Device D) where
  take_sign_pub-cfg :
      (w w' : Worker) (r : Reply Bytes × D)
      → (take_sign_pub dev w r).0 ≡ succeeded w'
      → w'.cfg ≡ w.cfg
  take_sign_pub-cfg w w' (refused rc, d) e = absurd (ground arith)
  take_sign_pub-cfg w w' (done key, d) e = ak_cases (dev.read_public w.cfg.ak_handle d) e
    where
      ak_cases :
          (r : Reply Bytes × D)
          → (take_ak_pub (record w { sign_pub = key }) r).0 ≡ succeeded w'
          → w'.cfg ≡ w.cfg
      ak_cases (refused rc, d) e = absurd (ground arith)
      ak_cases (done key, d) e = ground arith

  close_on_error-succeeded :
      (r : Tried Worker × D) (w : Worker)
      → (close_on_error dev r).0 ≡ succeeded w
      → r.0 ≡ succeeded w
  close_on_error-succeeded (failed x, d) w e = e
  close_on_error-succeeded (succeeded u, d) w e = e

  check_opened-cfg :
      (cfg : Worker.Config) (w : Worker) (r : Reply (Unit {0}) × D)
      → (check_opened dev cfg r).0 ≡ succeeded w
      → w.cfg ≡ cfg
  unfolding check_handles
  check_opened-cfg cfg w (refused rc, d) e = absurd (ground arith)
  check_opened-cfg cfg w (done u, d) e =
      take_sign_pub-cfg (record { cfg = cfg; sign_pub = []; ak_pub = [] }) w _
        (close_on_error-succeeded _ w e)

  -- The worker of a configuration has it.
  open_worker-cfg :
      (cfg : Worker.Config) (d : D) (w : Worker)
      → (open_worker dev cfg d).0 ≡ succeeded w
      → w.cfg ≡ cfg
  unfolding open_worker
  open_worker-cfg cfg d w e = check_opened-cfg cfg w (dev.open_file cfg.device d) e

module _ {F : Type 0} where
  -- The packetizer names the key and the PCRs that the worker quotes with, and both public keys of the
  -- worker are in the table.
  pub record HasEvidence (l : Launched F) (w : Worker) (b : Buffer) : Type 0 where
    pub has_tpm : l.packetizer.has_tpm ≡ true
    pub handle : l.packetizer.cfg.ak_handle ≡ w.cfg.ak_handle
    pub selection : l.packetizer.cfg.pcrs ≡ w.cfg.pcrs
    pub sign : Holds (codes "sign_pub") w.sign_pub b
    pub ak : Holds (codes "ak_pub") w.ak_pub b

  abbrev pub IsAttested : Option Worker → Launched F → Buffer → Type 0
  IsAttested none l b = l.packetizer.has_tpm ≡ false
  IsAttested (some w) l b = HasEvidence l w b

module _ {F D : Type 0} ⦃fl : Float64 F⦄ (dev : Device D) (files : Files) (env : BootEnv)
    (cfg : Config) where
  pub finish_boot-launched :
      (tried : Tried Worker) (d last : D) (r : Option Error × Buffer) (l : Launched F)
      (after : Buffer)
      → finish_boot dev files env cfg (tried, d) r ≡ (launched l, some after, last)
      → (r ≡ (none, after)) × (launch cfg (worker_of tried) ≡ l)
  finish_boot-launched tried d last (some e, b) l after h = absurd (ground arith)
  finish_boot-launched tried d last (none, b) l after h =
      (ap (λ c. (none, c)) (ground arith), ground arith)

  -- What a launch comes from: the tables that were opened, and a start without an error.
  pub boot-launched :
      (file : Option Buffer) (d last : D) (l : Launched F) (after : Buffer)
      → boot dev files env cfg file d ≡ (launched l, some after, last)
      → (b : Buffer) × (open_buffer env.db_opens env.db_migrates file ≡ opened b)
        × (start (start_env files env cfg (worker_of (open_worker dev (tpm_config cfg) d).0)) b
            ≡ (none, after))
        × (launch cfg (worker_of (open_worker dev (tpm_config cfg) d).0) ≡ l)
  unfolding boot
  boot-launched file d last l after h =
      opened_cases (open_buffer env.db_opens env.db_migrates file) refl h
    where
      opened_cases :
          (o : Opened)
          → open_buffer env.db_opens env.db_migrates file ≡ o
          → boot_opened dev files env cfg file d o ≡ (launched l, some after, last)
          → (b : Buffer) × (open_buffer env.db_opens env.db_migrates file ≡ opened b)
            × (start (start_env files env cfg (worker_of (open_worker dev (tpm_config cfg) d).0)) b
                ≡ (none, after))
            × (launch cfg (worker_of (open_worker dev (tpm_config cfg) d).0) ≡ l)
      opened_cases open_failed e h = absurd (ground arith)
      opened_cases migrate_failed e h = absurd (ground arith)
      opened_cases (opened b) e h =
          let r =
            finish_boot-launched (open_worker dev (tpm_config cfg) d).0
              (open_worker dev (tpm_config cfg) d).1 last _ l after h in
          (b, e, r.0, r.1)

  launch-IsAttested :
      (tried : Tried Worker) (b after : Buffer) (l : Launched F)
      → ((w : Worker) → tried ≡ succeeded w → w.cfg ≡ tpm_config cfg)
      → start (start_env files env cfg (worker_of tried)) b ≡ (none, after)
      → launch cfg (worker_of tried) ≡ l
      → IsAttested l.worker l after
  unfolding launch new_packetizer
  launch-IsAttested (failed e) b after l own h same =
      subst (λ (l : Launched F). IsAttested l.worker l after) same refl
  launch-IsAttested (succeeded w) b after l own h same =
      subst (λ (l : Launched F). IsAttested l.worker l after) same
        (unfold custody_config tpm_config key_evidence in
          let there =
            persist_keys-HoldsAll (start_env files env cfg (some w)) (key_evidence w) b after
              (unfold start start_env in h) in
          record {
            has_tpm = refl;
            handle = ap (λ c. c.ak_handle) (sym (own w refl));
            selection = ap (λ c. c.pcrs) (sym (own w refl));
            sign = there.sign;
            ak = there.ak;
          })

  -- What a launched daemon has of its worker, at the start.
  pub boot-IsAttested :
      (file : Option Buffer) (d last : D) (l : Launched F) (after : Buffer)
      → boot dev files env cfg file d ≡ (launched l, some after, last)
      → IsAttested l.worker l after
  boot-IsAttested file d last l after h =
      let (b, opens, started, same) = boot-launched file d last l after h in
      launch-IsAttested (open_worker dev (tpm_config cfg) d).0 b after l
        (open_worker-cfg dev (tpm_config cfg) d) started same
