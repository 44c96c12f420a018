-- ===== src/Command/Usage.antt =====
-- cmd/axm-edge/main.go: the command lines that the program means to take.
use axm_sfn.Common.{
  List, [], ◌∷◌, ◌++◌, map, Bool, true, false, ◌≡◌, refl, ap, ◌∙◌, last_or, append_assoc,
}
use axm_sfn.Common.Text.{Bytes, codes, bytes_eq}
use axm_sfn.Config.{Files, load}
use axm_sfn.Command.{run_command, dispatch, config_or_default, default_path, configured}
use axm_sfn.Command.Flags.{
  stop, assign, wants_value, parsed, parse_flags, read_word, read_name, split_value, action_of,
}

-- A way to name the configuration file: with one dash or two, the path behind an equals sign or in an
-- argument of its own.
pub data Setting : Type 0 where
  joined spaced : Bool → Bytes → Setting

pub path_of : Setting → Bytes
path_of (joined double path) = path
path_of (spaced double path) = path

abbrev dashes : Bool → Bytes
dashes true = codes "--"
dashes false = codes "-"

pub render : Setting → List Bytes
render (joined double path) = (dashes double ++ (codes "config=" ++ path)) ∷ []
render (spaced double path) = (dashes double ++ codes "config") ∷ path ∷ []

pub render_all : List Setting → List Bytes
render_all [] = []
render_all (s ∷ rest) = render s ++ render_all rest

-- Arguments that hold no more flags.
abbrev pub Stops : List Bytes → Type 0
Stops [] = Unit
Stops (s ∷ rest) = action_of (read_word s) ≡ stop

action-joined :
    (double : Bool) (path : Bytes)
    → action_of (read_word (dashes double ++ (codes "config=" ++ path))) ≡ assign path
unfolding action_of read_word read_name split_value bytes_eq
action-joined true path = refl
action-joined false path = refl

action-spaced :
    (double : Bool) → action_of (read_word (dashes double ++ codes "config")) ≡ wants_value
unfolding action_of read_word read_name split_value bytes_eq
action-spaced true = refl
action-spaced false = refl

parse_flags-Stops :
    (path : Bytes) (rest : List Bytes) → Stops rest → parse_flags path rest ≡ parsed path
unfolding parse_flags
parse_flags-Stops path [] h = refl
parse_flags-Stops path (s ∷ []) h = rw (h, parse_flags)
parse_flags-Stops path (s ∷ v ∷ rest) h = rw (h, parse_flags)

parse_flags-assign :
    (path s value : Bytes) (rest : List Bytes)
    → action_of (read_word s) ≡ assign value
    → parse_flags path (s ∷ rest) ≡ parse_flags value rest
unfolding parse_flags
parse_flags-assign path s value [] h = rw (h, parse_flags)
parse_flags-assign path s value (v ∷ rest) h = rw (h, parse_flags)

parse_flags-wants_value :
    (path s value : Bytes) (rest : List Bytes)
    → action_of (read_word s) ≡ wants_value
    → parse_flags path (s ∷ value ∷ rest) ≡ parse_flags value rest
unfolding parse_flags
parse_flags-wants_value path s value rest h = rw (h, parse_flags)

parse_flags-render :
    (path : Bytes) (s : Setting) (rest : List Bytes)
    → parse_flags path (render s ++ rest) ≡ parse_flags (path_of s) rest
unfolding render path_of
parse_flags-render path (joined double p) rest =
    parse_flags-assign path _ p rest (action-joined double p)
parse_flags-render path (spaced double p) rest =
    parse_flags-wants_value path _ p rest (action-spaced double)

-- The last setting wins.
parse_flags-render_all :
    (path : Bytes) (settings : List Setting) (rest : List Bytes)
    → Stops rest
    → parse_flags path (render_all settings ++ rest) ≡ parsed (last_or path (map path_of settings))
unfolding render_all
parse_flags-render_all path [] rest h = parse_flags-Stops path rest h
parse_flags-render_all path (s ∷ settings) rest h =
    ap (parse_flags path) (append_assoc (render s) (render_all settings) rest)
    ∙ parse_flags-render path s (render_all settings ++ rest)
    ∙ parse_flags-render_all (path_of s) settings rest h

pub run_command-render_all :
    (files : Files) (sub : Bytes) (settings : List Setting) (rest : List Bytes)
    → Stops rest
    → run_command files (sub ∷ (render_all settings ++ rest))
      ≡ dispatch sub (config_or_default (load files (last_or default_path (map path_of settings))))
unfolding run_command
run_command-render_all files sub settings rest h =
    ap (configured files sub) (parse_flags-render_all default_path settings rest h)
