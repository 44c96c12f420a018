-- ===== src/Command/Meaning.antt =====
-- cmd/axm-edge/main.go and internal/config/config.go: what a command line means.
use axm_sfn.Common.{
  List, [], ◌∷◌, ◌++◌, map, ◌≡◌, ◌≢◌, refl, sym, subst, last_or, Option, none, some, Bool-cases,
  inl, inr,
}
use axm_sfn.Common.Text.{Bytes, codes, bytes_eq, bytes_eq→eq, ne_of-bytes_eq}
use axm_sfn.Config.{Config, Files, load, zero_config, default_config, decode_file}
use axm_sfn.Command.{
  Command, daemon, provision, unknown_subcommand, run_command, dispatch, config_or_default,
}
use axm_sfn.Command.Flags.{parse_flags}
use axm_sfn.Command.Usage.{Setting, path_of, render_all, Stops, run_command-render_all}

-- A configuration file that reads and decodes over the zero value gives its configuration; one that does
-- not gives the defaults.
pub data Loads (files : Files) (path : Bytes) (cfg : Config) : Type 0 where
  decoded :
      (text : Bytes)
      → files.read_file path ≡ some text
      → files.unmarshal text zero_config ≡ some cfg
      → Loads files path cfg
  unread : files.read_file path ≡ none → cfg ≡ default_config → Loads files path cfg
  undecoded :
      (text : Bytes)
      → files.read_file path ≡ some text
      → files.unmarshal text zero_config ≡ none
      → cfg ≡ default_config
      → Loads files path cfg

-- What a subcommand stands for: `provision` provisions the keys, `run` and no subcommand run the daemon,
-- and any other is unknown.
pub data Means (sub : Bytes) (cfg : Config) (command : Command) : Type 0 where
  provisions : sub ≡ codes "provision" → command ≡ provision cfg → Means sub cfg command
  runs : sub ≡ codes "run" → command ≡ daemon cfg → Means sub cfg command
  runs_unnamed : sub ≡ [] → command ≡ daemon cfg → Means sub cfg command
  unknown :
      sub ≢ codes "provision"
      → sub ≢ codes "run"
      → sub ≢ []
      → command ≡ unknown_subcommand sub
      → Means sub cfg command

config_or_default-Loads :
    (files : Files) (path : Bytes) → Loads files path (config_or_default (load files path))
unfolding load config_or_default
config_or_default-Loads files path = read_cases (files.read_file path) refl
  where
    text_cases :
        (text : Bytes) (o : Option Config)
        → files.read_file path ≡ some text
        → files.unmarshal text zero_config ≡ o
        → Loads files path (config_or_default o)
    text_cases text none e u = undecoded text e u refl
    text_cases text (some cfg) e u = decoded text e u

    read_cases :
        (o : Option Bytes)
        → files.read_file path ≡ o
        → Loads files path (config_or_default (decode_file files o))
    read_cases none e = unread e refl
    read_cases (some text) e = text_cases text (files.unmarshal text zero_config) e refl

dispatch-Means : (sub : Bytes) (cfg : Config) → Means sub cfg (dispatch sub cfg)
unfolding dispatch bytes_eq
dispatch-Means sub cfg = elim (Bool-cases (bytes_eq sub (codes "provision"))) [
  | inl e ↦ rw e (provisions (bytes_eq→eq sub _ e) refl)
  | inr n ↦ elim (Bool-cases (bytes_eq sub (codes "run"))) [
    | inl e ↦ rw (n, e) (runs (bytes_eq→eq sub _ e) refl)
    | inr m ↦ elim (Bool-cases (bytes_eq sub [])) [
      | inl e ↦ rw (n, m, e) (runs_unnamed (bytes_eq→eq sub _ e) refl)
      | inr k ↦
          rw (n, m, k)
            (unknown (ne_of-bytes_eq sub _ n) (ne_of-bytes_eq sub _ m) (ne_of-bytes_eq sub _ k)
              refl)
    ]
  ]
]

-- A command line of a subcommand, settings of the configuration file and arguments that are no flags
-- provisions the keys for `provision`, runs the daemon for `run` and for the empty subcommand, and is
-- refused for any other. It does so with the configuration that the last file named decodes to over the
-- zero value, or `/etc/axm-edge/config.yaml` where none is named, and with the defaults where that file
-- does not read or does not decode. No arguments at all run the daemon with the default file.
pub run_command-Means :
    (files : Files) (sub : Bytes) (settings : List Setting) (rest : List Bytes)
    → Stops rest
    → ((cfg : Config) × Loads files
          (last_or (codes "/etc/axm-edge/config.yaml") (map path_of settings))
          cfg
        × Means sub cfg (run_command files (sub ∷ (render_all settings ++ rest))))
      × ((cfg : Config) × Loads files (codes "/etc/axm-edge/config.yaml") cfg
          × (run_command files [] ≡ daemon cfg))
unfolding run_command dispatch parse_flags bytes_eq
run_command-Means files sub settings rest h = (
  (
    _,
    config_or_default-Loads files _,
    subst (Means sub _) (sym (run_command-render_all files sub settings rest h))
        (dispatch-Means sub _),
  ),
  (_, config_or_default-Loads files _, refl),
)
