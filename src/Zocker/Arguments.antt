-- ===== src/Zocker/Arguments.antt =====
-- The arguments of zocker: the loop of `main` in zocker/src/main.c, and `validate_config` of
-- zocker/src/config.c.
pub mod Roundtrip
use opperating_system_practi.Base.{
  ℕ, Bool, true, false, not, ◌&&◌, Option, none, some, List, [], ◌∷◌, if◌then◌else◌, take, str_eq,
  bytes, CString,
}
use opperating_system_practi.Zocker.{Config, Subcommand, nothing, run, exec}

-- The comparisons of one argument.
pub data Word : Type 0 where
  run_word : Word
  exec_word : Word
  name_flag : Word
  base_dir_flag : Word
  command_word : Word

unfoldable pub classify : CString → Word
classify a =
    if str_eq a (bytes "run")
    then run_word
    else if str_eq a (bytes "exec")
    then exec_word
    else if str_eq a (bytes "--name")
    then name_flag
    else if str_eq a (bytes "--base-dir")
    then base_dir_flag
    else command_word

abbrev pub name_limit : ℕ
name_limit = 63

abbrev pub base_dir_limit : ℕ
base_dir_limit = 511

abbrev pub command_limit : ℕ
command_limit = 255

abbrev pub set_command : CString → Config → Config
set_command a cfg = record cfg { command = take command_limit a }

-- A flag at the end has no value: the program ends with 1.
abbrev pub last_argument : Word → CString → Config → Option Config
last_argument run_word a cfg = some (record cfg { subcommand = run })
last_argument exec_word a cfg = some (record cfg { subcommand = exec })
last_argument name_flag a cfg = none
last_argument base_dir_flag a cfg = none
last_argument command_word a cfg = some (set_command a cfg)

-- The loop, on the arguments that are left.
unfoldable pub parse_arguments : List CString → Config → Option Config
unfolding classify
parse_arguments [] cfg = some cfg
parse_arguments (a ∷ []) cfg = last_argument (classify a) a cfg
parse_arguments (a ∷ b ∷ rest) cfg = elim (classify a) [
  | run_word ↦ parse_arguments (b ∷ rest) (record cfg { subcommand = run })
  | exec_word ↦ parse_arguments (b ∷ rest) (record cfg { subcommand = exec })
  | name_flag ↦ parse_arguments rest (record cfg { name = take name_limit b })
  | base_dir_flag ↦ parse_arguments rest (record cfg { base_dir = take base_dir_limit b })
  | command_word ↦ parse_arguments (b ∷ rest) (set_command a cfg)
]

abbrev pub empty_config : Config
empty_config = record { subcommand = nothing; name = []; command = []; base_dir = [] }

abbrev is_nothing : Subcommand → Bool
is_nothing nothing = true
is_nothing _ = false

-- True for the result 0. The default name is written to a copy, which ends with the function.
unfoldable pub validate_config : Config → Bool
validate_config cfg =
    if is_nothing cfg.subcommand then false else if str_eq cfg.command [] then false else true
