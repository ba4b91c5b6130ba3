-- ===== src/Zocker/Run.antt =====
-- Running a container: zocker/src/run.c and the rest of `main` in zocker/src/main.c.
pub mod Prepared
pub mod Unnamed
use opperating_system_practi.Base.{
  ℕ, Bool, true, false, not, Option, none, some, List, [], ◌∷◌, if◌then◌else◌, take, bytes, CString,
}
use opperating_system_practi.Zocker.{
  Config, Container, Subcommand, nothing, run, exec, Os, Stat, missing, unreadable, directory,
  other_file, Forked, fork_failed, in_child, in_parent,
}
use opperating_system_practi.Zocker.Arguments.{parse_arguments, validate_config, empty_config}
use opperating_system_practi.Zocker.Setup.{
  setup_container_dir, setup_zocker_dir, dir_of, path_limit,
}

-- The copy of a `base_dir` of 256 bytes or more has no terminator; only its first 255 bytes are used.
unfoldable pub container_from_config : Config → Container
container_from_config cfg = record {
  id = take 64 cfg.name;
  command = take 256 cfg.command;
  base_dir = take 256 cfg.base_dir;
}

-- How a process ends: with an exit code, or as the command that it runs.
pub data Outcome : Type 0 where
  returned : ℕ → Outcome
  executes : CString → Outcome

-- The path that `container_dir` holds in `run_container`.
abbrev pub root_of : CString → CString → CString
root_of [] id = dir_of id
root_of (c ∷ dir) id = take path_limit (c ∷ dir)

module _ {W : Type 0} (os : Os W) where
  -- A step of the child: an error ends it with 1.
  abbrev pub after : W × Bool → (W → W × Outcome) → W × Outcome
  after (w, false) k = (w, returned 1)
  after (w, true) k = k w

  -- A successful `execl` does not return; `main` makes 1 of any error.
  abbrev pub execute : Container → W × Bool → W × Outcome
  execute cont (w, false) = (w, returned 1)
  execute cont (w, true) = (w, executes cont.command)

  -- `/proc` is made where `stat` fails.
  abbrev pub make_proc : Stat → W → W × Bool
  make_proc missing w = os.mkdir (bytes "/proc") w
  make_proc unreadable w = os.mkdir (bytes "/proc") w
  make_proc directory w = (w, true)
  make_proc other_file w = (w, true)

  -- The directory of the container: the one that is given, or one that is set up.
  abbrev pub container_dir : CString → CString → W → W × Bool
  container_dir [] id w = setup_container_dir os id w
  container_dir (c ∷ dir) id w = (w, true)

  -- What the child does from the call of `chroot` on.
  unfoldable pub enter_container : Container → W → W × Outcome
  enter_container cont w = after (os.chroot (root_of cont.base_dir cont.id) w) (λ w1.
      after (os.chdir (bytes "/") w1) (λ w2.
        after (make_proc (os.stat (bytes "/proc") w2) w2) (λ w3. after (os.mount_proc w3) (λ w4.
          after (os.sethostname cont.id w4) (λ w5. execute cont (os.execl cont.command w5))))))

  unfoldable pub run_child : Container → W → W × Outcome
  unfolding enter_container setup_container_dir
  run_child cont w =
      after (container_dir cont.base_dir cont.id w)
        (λ w1. after (os.make_private w1) (enter_container cont))

  abbrev pub run_forked : Container → W × Forked → W × Outcome
  run_forked cont (w, fork_failed) = (w, returned 1)
  run_forked cont (w, in_child) = run_child cont w
  run_forked cont (w, in_parent) = (os.wait_child w, returned 0)

  unfoldable pub run_container : Container → W → W × Outcome
  unfolding run_child
  run_container cont w = after (os.unshare w) (λ w1. run_forked cont (os.fork w1))

  abbrev pub run_subcommand : Subcommand → Config → W → W × Outcome
  run_subcommand run cfg w = run_container (container_from_config cfg) w
  run_subcommand exec cfg w = (w, returned 0)
  run_subcommand nothing cfg w = (w, returned 0)

  abbrev pub main_parsed : Option Config → W → W × Outcome
  main_parsed none w = (w, returned 1)
  main_parsed (some cfg) w =
      if not (validate_config cfg) then (w, returned 1) else run_subcommand cfg.subcommand cfg w

  unfoldable pub main : List CString → W → W × Outcome
  unfolding run_container container_from_config parse_arguments validate_config setup_zocker_dir
  main args w =
      if not (setup_zocker_dir os w)
      then (w, returned 1)
      else main_parsed (parse_arguments args empty_config) w
