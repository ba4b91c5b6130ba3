-- ===== src/Tests/Zockers.antt =====
-- The theorems on zocker, on a machine whose state is the list of its directories.
use opperating_system_practi.Base.{
  Bool, true, false, ◌||◌, ◌≡◌, refl, some, List, [], ◌∷◌, if◌then◌else◌, str_eq, str_eq_refl,
  bytes, CString, arith, inl, inr, Bool-cases,
}
use opperating_system_practi.Zocker.{
  Os, Stat, missing, directory, in_child, Config, run, zocker_prefix,
}
use opperating_system_practi.Zocker.Arguments.{
  classify, parse_arguments, validate_config, empty_config,
}
use opperating_system_practi.Zocker.Arguments.Roundtrip.{arguments_of, parse_arguments-arguments_of}
use opperating_system_practi.Zocker.Setup.{setup_container_dir, setup_zocker_dir}
use opperating_system_practi.Zocker.Setup.Again.{is_path, Laws, setup_container_dir-again}
use opperating_system_practi.Zocker.Run.{main, run_container, container_from_config}
use opperating_system_practi.Zocker.Run.Prepared.{Prepared, main-Prepared}
use opperating_system_practi.Zocker.Run.Unnamed.{main-unnamed}

has_dir : CString → List CString → Bool
has_dir p [] = false
has_dir p (q ∷ w) = str_eq p q || has_dir p w

abbrev stat_of : Bool → Stat
stat_of true = directory
stat_of false = missing

machine : Os (List CString)
unfolding has_dir
machine = record {
  stat = λ p w. stat_of (has_dir p w);
  mkdir = λ p w. if has_dir p w then (w, false) else (p ∷ w, true);
  system = λ c w. w;
  unshare = λ w. (w, true);
  fork = λ w. (w, in_child);
  make_private = λ w. (w, true);
  chroot = λ p w. (w, true);
  chdir = λ p w. (w, true);
  mount_proc = λ w. (w, true);
  sethostname = λ n w. (w, true);
  execl = λ c w. (w, true);
  wait_child = λ w. w;
}

machine-Laws : Laws machine
unfolding machine has_dir
machine-Laws = record {
  mkdir_fresh = λ p w h. elim (Bool-cases (has_dir p w)) [
    | inl there ↦ absurd (clash (rw there at h))
    | inr new ↦ rw new
  ];
  mkdir_makes = λ p w h. elim (Bool-cases (has_dir p w)) [
    | inl there ↦ rw (there, there)
    | inr new ↦ rw (new, str_eq_refl p)
  ];
  mkdir_keeps = λ p q w h. elim (Bool-cases (has_dir q w)) [
    | inl there ↦ rw there h
    | inr new ↦ rw new (kept p q w h)
  ];
  copy_keeps = λ p s d w a b h. h;
}
  where
    clash : false ≡ true → ⊥
    clash e = cc

    kept :
        (p q : CString) (w : List CString)
        → stat_of (has_dir p w) ≡ directory
        → stat_of (str_eq p q || has_dir p w) ≡ directory
    kept p q w h = elim (Bool-cases (str_eq p q)) [ inl e ↦ rw e | inr e ↦ rw e h ]

abbrev empty_machine : List CString
empty_machine = zocker_prefix ∷ []

setup_container_dir-again_example :
    (setup_container_dir machine
      (bytes "a")
      (setup_container_dir machine (bytes "a") empty_machine).0).1
    ≡ false
unfolding machine has_dir setup_container_dir str_eq is_path
setup_container_dir-again_example =
    setup_container_dir-again machine machine-Laws (bytes "a") empty_machine refl refl

abbrev sleeper : Config
sleeper = record { subcommand = run; name = bytes "a"; command = bytes "sleep 1"; base_dir = [] }

parse_arguments-arguments_of_example :
    parse_arguments (arguments_of sleeper) empty_config ≡ some sleeper
unfolding classify str_eq
parse_arguments-arguments_of_example = parse_arguments-arguments_of sleeper (record {
  chosen = λ e. cc;
  name_fits = omega arith;
  base_dir_fits = omega arith;
  command_fits = omega arith;
  plain = refl;
})

main-Prepared_example :
    (setup_zocker_dir machine empty_machine ≡ true)
    × ((cfg : Config) × (parse_arguments (arguments_of sleeper) empty_config ≡ some cfg)
        × (validate_config cfg ≡ true)
        × Prepared machine (container_from_config cfg) empty_machine (bytes "sleep 1"))
unfolding machine has_dir main str_eq
main-Prepared_example =
    main-Prepared machine (arguments_of sleeper) empty_machine (bytes "sleep 1") refl

main-unnamed_example :
    main machine (bytes "run" ∷ bytes "sh" ∷ []) (zocker_prefix ∷ [])
    ≡ run_container machine
        (record { id = []; command = bytes "sh"; base_dir = [] })
        (zocker_prefix ∷ [])
unfolding machine has_dir setup_zocker_dir classify str_eq
main-unnamed_example = main-unnamed machine (bytes "sh") (zocker_prefix ∷ []) refl refl (λ e. cc)
