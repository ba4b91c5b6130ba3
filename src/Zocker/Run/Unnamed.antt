-- ===== src/Zocker/Run/Unnamed.antt =====
-- `zocker run COMMAND`, without `--name`.
use opperating_system_practi.Base.{
  true, false, ◌≡◌, ◌≢◌, refl, some, [], ◌∷◌, take, str_eq, bytes, CString,
}
use opperating_system_practi.Zocker.{Config, run, Os}
use opperating_system_practi.Zocker.Arguments.{
  classify, command_word, command_limit, parse_arguments, validate_config, empty_config,
}
use opperating_system_practi.Zocker.Run.{container_from_config, main, run_container}
use opperating_system_practi.Zocker.Setup.{setup_zocker_dir}

abbrev pub unnamed : CString → Config
unnamed c = record empty_config { subcommand = run; command = take command_limit c }

taken : (c : CString) → c ≢ [] → str_eq (take command_limit c) [] ≡ false
unfolding str_eq
taken [] h = absurd (h refl)
taken (x ∷ c) h = refl

unnamed-id :
    (c : CString)
    → classify c ≡ command_word
    → c ≢ []
    → (parse_arguments (bytes "run" ∷ c ∷ []) empty_config ≡ some (unnamed c))
      × (validate_config (unnamed c) ≡ true)
unfolding parse_arguments validate_config str_eq
unnamed-id c plain h = (rw plain, rw (taken c h))

-- Where the directory of zocker is there, `zocker run COMMAND` starts a container with the empty name,
-- for each command that is not empty and not one of the words that zocker reads itself: the default
-- name of `validate_config` does not reach `run_container`.
pub main-unnamed :
    {W : Type 0} (os : Os W) (c : CString) (w : W)
    → setup_zocker_dir os w ≡ true
    → classify c ≡ command_word
    → c ≢ []
    → main os (bytes "run" ∷ c ∷ []) w
      ≡ run_container os
          (record { id = []; command = take 256 (take command_limit c); base_dir = [] })
          w
unfolding main container_from_config
main-unnamed os c w there plain h =
    let (parsed, valid) = unnamed-id c plain h in rw (main, there, parsed, valid) refl
