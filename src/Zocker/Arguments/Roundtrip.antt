-- ===== src/Zocker/Arguments/Roundtrip.antt =====
-- The arguments that stand for a configuration, and a command without a name.
use opperating_system_practi.Base.{
  ◌≤◌, ◌≡◌, ◌≢◌, refl, ap, some, List, [], ◌∷◌, take, take_all, length, str_eq, bytes, CString,
}
use opperating_system_practi.Zocker.{Config, Subcommand, nothing, run, exec}
use opperating_system_practi.Zocker.Arguments.{
  command_word, classify, parse_arguments, empty_config, name_limit, base_dir_limit, command_limit,
}

abbrev pub subcommand_word : Subcommand → CString
subcommand_word nothing = []
subcommand_word run = bytes "run"
subcommand_word exec = bytes "exec"

-- The arguments for a configuration.
abbrev pub arguments_of : Config → List CString
arguments_of cfg =
    bytes "--name"
    ∷ cfg.name
    ∷ bytes "--base-dir"
    ∷ cfg.base_dir
    ∷ subcommand_word cfg.subcommand
    ∷ cfg.command
    ∷ []

-- A configuration whose texts fit their buffers, with a subcommand, and with a command that is not one
-- of the words that zocker reads itself.
pub record IsPlain (cfg : Config) : Type 0 where
  pub chosen : cfg.subcommand ≢ nothing
  pub name_fits : length cfg.name ≤ name_limit
  pub base_dir_fits : length cfg.base_dir ≤ base_dir_limit
  pub command_fits : length cfg.command ≤ command_limit
  pub plain : classify cfg.command ≡ command_word

module _ (cfg : Config) (h : IsPlain cfg) where
  last :
      (c : Config)
      → parse_arguments (cfg.command ∷ []) c ≡ some (record c { command = cfg.command })
  unfolding parse_arguments
  last c = rw h.plain (
      ap (λ t. some (record c { command = t })) (take_all command_limit cfg.command h.command_fits))

  subcommand_read :
      (s : Subcommand) (c : Config)
      → s ≢ nothing
      → parse_arguments (subcommand_word s ∷ cfg.command ∷ []) c
        ≡ some (record c { subcommand = s; command = cfg.command })
  unfolding parse_arguments str_eq
  subcommand_read nothing c ne = absurd (ne refl)
  subcommand_read run c ne = last (record c { subcommand = run })
  subcommand_read exec c ne = last (record c { subcommand = exec })

  options_read :
      (n b s c : CString)
      → parse_arguments (bytes "--name" ∷ n ∷ bytes "--base-dir" ∷ b ∷ s ∷ c ∷ []) empty_config
        ≡ parse_arguments
            (s ∷ c ∷ [])
            (record empty_config { name = take name_limit n; base_dir = take base_dir_limit b })
  unfolding parse_arguments str_eq
  options_read n b s c = refl

  -- The arguments of such a configuration are read as that configuration.
  pub parse_arguments-arguments_of : parse_arguments (arguments_of cfg) empty_config ≡ some cfg
  parse_arguments-arguments_of =
      rw (options_read cfg.name cfg.base_dir (subcommand_word cfg.subcommand) cfg.command) (
        rw
          (
            take_all name_limit cfg.name h.name_fits,
            take_all base_dir_limit cfg.base_dir h.base_dir_fits,
          )
          (subcommand_read cfg.subcommand
            (record empty_config { name = cfg.name; base_dir = cfg.base_dir }) h.chosen))
