-- ===== src/Command.antt =====
-- cmd/axm-edge/main.go, run: the subcommand, the flag set with its one flag, and the configuration that
-- the subcommand gets. The flag set is that of Go's package flag, with ExitOnError.
pub mod Flags
pub mod Usage
pub mod Meaning
use axm_sfn.Common.{ℕ, List, [], ◌∷◌, Option, none, some, Bool, ◌||◌, if◌then◌else◌}
use axm_sfn.Common.Text.{Bytes, codes, bytes_eq}
use axm_sfn.Config.{Config, Files, load, default_config}
use axm_sfn.Command.Flags.{Parsed, parsed, leaves, parse_flags}

-- What run does: it goes on to runDaemon or runProvision, returns the error of an unknown subcommand, or
-- ends the process with a status.
pub data Command : Type 0 where
  daemon provision : Config → Command
  unknown_subcommand : Bytes → Command
  exit_status : ℕ → Command

-- The flag's default.
abbrev pub default_path : Bytes
default_path = codes "/etc/axm-edge/config.yaml"

-- A configuration that cannot be loaded is replaced by the defaults.
unfoldable pub config_or_default : Option Config → Config
config_or_default none = default_config
config_or_default (some cfg) = cfg

-- `switch subCmd`
unfoldable pub dispatch : Bytes → Config → Command
dispatch sub cfg =
    if bytes_eq sub (codes "provision")
    then provision cfg
    else if bytes_eq sub (codes "run") || bytes_eq sub []
    then daemon cfg
    else unknown_subcommand sub

abbrev pub configured : Files → Bytes → Parsed → Command
configured files sub (leaves status) = exit_status status
configured files sub (parsed path) = dispatch sub (config_or_default (load files path))

-- `run`: the first argument, whatever it is, is taken off as the subcommand.
unfoldable pub run_command : Files → List Bytes → Command
run_command files [] = configured files [] (parse_flags default_path [])
run_command files (sub ∷ args) = configured files sub (parse_flags default_path args)
