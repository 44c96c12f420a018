-- ===== src/Daemon/Process.antt =====
-- cmd/axm-edge/main.go, main: what the process comes to before its goroutines, by its arguments.
use axm_sfn.Common.{
  ℕ, ◌≡◌, refl, sym, ap, ◌∙◌, subst, false, List, ◌∷◌, ◌++◌, map, last_or, Option, none, some,
}
use axm_sfn.Common.Text.{Bytes, codes, bytes_eq}
use axm_sfn.Config.{Config, Files, load}
use axm_sfn.Command.{
  Command, daemon, provision, unknown_subcommand, exit_status, default_path, config_or_default,
  dispatch, run_command,
}
use axm_sfn.Command.Usage.{Setting, path_of, render_all, Stops, run_command-render_all}
use axm_sfn.Floats.{Float64}
use axm_sfn.HotBuffer.Tables.{Buffer, Error}
use axm_sfn.HotBuffer.Open.{Opened, opened, open_failed, migrate_failed, open_buffer}
use axm_sfn.Tpm.Device.{Device, Tried, TpmError, failed, succeeded}
use axm_sfn.Tpm.Worker.{Worker, open_worker}
use axm_sfn.Tpm.Unprovisioned.{IsTpm, provision_keys_fails}
use axm_sfn.Custody.State.{new_packetizer}
use axm_sfn.Daemon.Boot.{
  BootEnv, BootResult, Launched, launched, stopped, launch, tpm_config, run_provision, finish_boot,
  boot_tpm, boot_opened, boot,
}

-- It has ended with a status, or runDaemon waits for the signal; the database file and the device.
pub data Process (F D : Type 0) : Type 0 where
  ended : ℕ → Option Buffer → D → Process F D
  serves : Launched F → Option Buffer → D → Process F D

module _ {F D : Type 0} where
  -- `if err := run(…); err != nil { os.Exit(1) }`, of runProvision's error.
  abbrev pub after_provision : Option Buffer → Option TpmError × D → Process F D
  after_provision file (none, d) = ended 0 file d
  after_provision file (some e, d) = ended 1 file d

  -- The same of runDaemon's error.
  abbrev pub after_boot : BootResult F × Option Buffer × D → Process F D
  after_boot (stopped e, file, d) = ended 1 file d
  after_boot (launched l, file, d) = serves l file d

-- The configuration that a command line names.
abbrev pub config_of : Files → List Setting → Config
config_of files settings =
    config_or_default (load files (last_or default_path (map path_of settings)))

module _ (F : Type 0) {D : Type 0} ⦃fl : Float64 F⦄ (dev : Device D) (files : Files)
    (env : BootEnv) where
  abbrev pub obey : Option Buffer → D → Command → Process F D
  obey file d (exit_status n) = ended n file d
  obey file d (unknown_subcommand sub) = ended 1 file d
  obey file d (provision cfg) = after_provision file (run_provision dev cfg d)
  obey file d (daemon cfg) = after_boot (boot dev files env cfg file d)

  -- `main`
  unfoldable pub main_process : List Bytes → Option Buffer → D → Process F D
  main_process args file d = obey file d (run_command files args)

  -- It ended with an error, or serves without a TPM.
  abbrev pub Unattested : Process F D → Type 0
  Unattested (ended n file d) = n ≡ 1
  Unattested (serves l file d) = (l.worker ≡ none) × (l.packetizer.has_tpm ≡ false)

  finish_boot-Unattested :
      (cfg : Config) (o : TpmError) (d : D) (r : Option Error × Buffer)
      → Unattested (after_boot (finish_boot dev files env cfg (failed o, d) r))
  unfolding launch new_packetizer
  finish_boot-Unattested cfg o d (some e, b) = refl
  finish_boot-Unattested cfg o d (none, b) = (refl, refl)

  boot_tpm-Unattested :
      (cfg : Config) (o : TpmError) (b : Buffer) (r : Tried Worker × D)
      → r.0 ≡ failed o
      → Unattested (after_boot (boot_tpm dev files env cfg b r))
  boot_tpm-Unattested cfg o b (failed x, d) e = finish_boot-Unattested cfg x d _
  boot_tpm-Unattested cfg o b (succeeded w, d) e = absurd (cc)

  boot-Unattested :
      (cfg : Config) (o : TpmError) (file : Option Buffer) (d : D)
      → (open_worker dev (tpm_config cfg) d).0 ≡ failed o
      → Unattested (after_boot (boot dev files env cfg file d))
  unfolding boot
  boot-Unattested cfg o file d e = boots (open_buffer env.db_opens env.db_migrates file)
    where
      boots : (r : Opened) → Unattested (after_boot (boot_opened dev files env cfg file d r))
      boots open_failed = refl
      boots migrate_failed = refl
      boots (opened b) = boot_tpm-Unattested cfg o b (open_worker dev (tpm_config cfg) d) e

  main_process-render_all :
      (sub : Bytes) (settings : List Setting) (rest : List Bytes) (file : Option Buffer) (d : D)
      → Stops rest
      → main_process (sub ∷ (render_all settings ++ rest)) file d
        ≡ obey file d (dispatch sub (config_of files settings))
  unfolding main_process
  main_process-render_all sub settings rest file d h =
      ap (obey file d) (run_command-render_all files sub settings rest h)

  -- On a TPM as the specification says, without an object at the configured handle of the signing key: the
  -- command line of `provision`, however it names the file, ends with status 1 and leaves the database
  -- and the persistent objects as they were, and the command line of `run` with the same settings then
  -- ends with status 1 or serves without a TPM.
  pub main_process_unprovisioned :
      (stored : D → ℕ → Option Bytes)
      → IsTpm dev stored
      → (settings : List Setting) (rest : List Bytes) (file : Option Buffer) (d : D) → Stops rest
      → stored d (config_of files settings).tpm.sign_key_handle ≡ none
      → (after : D) × (main_process (codes "provision" ∷ (render_all settings ++ rest)) file d
          ≡ ended 1 file after)
        × (stored after ≡ stored d)
        × Unattested (main_process (codes "run" ∷ (render_all settings ++ rest)) file after)
  unfolding run_provision dispatch tpm_config bytes_eq
  main_process_unprovisioned stored t settings rest file d h missing =
      let cfg = config_of files settings in
      let after = (run_provision dev cfg d).1 in
      let (e, o, error, kept, denied) =
        provision_keys_fails dev stored t (tpm_config cfg) d missing in
      (
        after,
        main_process-render_all (codes "provision") settings rest file d h
            ∙ ap (λ r. after_provision file (r, after)) error,
        kept,
        subst Unattested (sym (main_process-render_all (codes "run") settings rest file after h))
            (boot-Unattested cfg o file after denied),
      )
