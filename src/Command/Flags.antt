-- ===== src/Command/Flags.antt =====
-- Go's package flag, as cmd/axm-edge/main.go uses it: Parse of a flag set whose one flag is the string
-- `config`, with ExitOnError.
use axm_sfn.Common.{ℕ, List, [], ◌∷◌, Option, none, some, ◌||◌, ◌==◌, if◌then◌else◌}
use axm_sfn.Common.Text.{Bytes, codes, bytes_eq}

-- How an argument reads: no flag, the two dashes that end the flags, bad syntax, or a name that may have
-- its value behind an equals sign.
pub data Word : Type 0 where
  positional terminator bad_syntax : Word
  named : Bytes → Option Bytes → Word

-- The name and the value on the two sides of the first `=`.
unfoldable pub split_value : Bytes → Bytes × Option Bytes
split_value [] = ([], none)
split_value (c ∷ cs) =
    let rest = split_value cs in if c == b'=' then ([], some cs) else (c ∷ rest.0, rest.1)

unfoldable pub read_name : Bytes → Word
unfolding split_value
read_name [] = bad_syntax
read_name (c ∷ cs) =
    if c == b'-' || c == b'=' then bad_syntax else named (c ∷ (split_value cs).0) (split_value cs).1

abbrev pub read_double : Bytes → Word
read_double [] = terminator
read_double (c ∷ cs) = read_name (c ∷ cs)

unfoldable pub read_word : Bytes → Word
unfolding read_name
read_word [] = positional
read_word (c ∷ []) = positional
read_word (c ∷ d ∷ rest) =
    if c == b'-' then if d == b'-' then read_double rest else read_name (d ∷ rest) else positional

-- What Parse does next: it stops, ends the process, sets the flag, or takes the next argument for it.
pub data Action : Type 0 where
  stop : Action
  leave : ℕ → Action
  assign : Bytes → Action
  wants_value : Action

abbrev pub value_action : Option Bytes → Action
value_action none = wants_value
value_action (some value) = assign value

-- Help ends the process with status 0, any error with status 2.
unfoldable pub action_of : Word → Action
action_of positional = stop
action_of terminator = stop
action_of bad_syntax = leave 2
action_of (named name value) =
    if bytes_eq name (codes "config")
    then value_action value
    else if bytes_eq name (codes "help") || bytes_eq name (codes "h")
    then leave 0
    else leave 2

pub data Parsed : Type 0 where
  parsed : Bytes → Parsed
  leaves : ℕ → Parsed

-- Parse: the value of the flag, which is `path` before.
unfoldable pub parse_flags : Bytes → List Bytes → Parsed
parse_flags path [] = parsed path
parse_flags path (s ∷ []) = elim (action_of (read_word s)) [
  | stop ↦ parsed path
  | leave status ↦ leaves status
  | assign value ↦ parsed value
  | wants_value ↦ leaves 2
]
parse_flags path (s ∷ v ∷ rest) = elim (action_of (read_word s)) [
  | stop ↦ parsed path
  | leave status ↦ leaves status
  | assign value ↦ parse_flags value (v ∷ rest)
  | wants_value ↦ parse_flags v rest
]
