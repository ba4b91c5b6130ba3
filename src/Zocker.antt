-- ===== src/Zocker.antt =====
-- The container starter zocker: its configuration (zocker/src/config.h and run.h), and the calls of the
-- operating system that it makes, as an interface.
pub mod Arguments
pub mod Setup
pub mod Run
use opperating_system_practi.Base.{ℕ, Bool, CString, bytes}

-- `enum COMMAND`
pub data Subcommand : Type 0 where
  nothing : Subcommand
  run : Subcommand
  exec : Subcommand

pub record Config : Type 0 where
  pub subcommand : Subcommand
  pub name : CString
  pub command : CString
  pub base_dir : CString

pub record Container : Type 0 where
  pub id : CString
  pub command : CString
  pub base_dir : CString

abbrev pub zocker_prefix : CString
zocker_prefix = bytes "/tmp/zocker"

-- What `stat` says of a path; `unreadable` is any error but `ENOENT`.
pub data Stat : Type 0 where
  missing : Stat
  unreadable : Stat
  directory : Stat
  other_file : Stat

pub data Forked : Type 0 where
  fork_failed : Forked
  in_child : Forked
  in_parent : Forked

-- The calls of the operating system, over the states `W` of the machine. A Boolean result is true for
-- success. `execl` returns only where it fails.
pub record Os (W : Type 0) : Type 0 where
  pub stat : CString → W → Stat
  pub mkdir : CString → W → W × Bool
  pub system : CString → W → W
  pub unshare : W → W × Bool
  pub fork : W → W × Forked
  pub make_private : W → W × Bool
  pub chroot : CString → W → W × Bool
  pub chdir : CString → W → W × Bool
  pub mount_proc : W → W × Bool
  pub sethostname : CString → W → W × Bool
  pub execl : CString → W → W × Bool
  pub wait_child : W → W
